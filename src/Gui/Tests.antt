-- ===== src/Gui/Tests.antt =====
-- A desktop of three layers, the last of them the mouse, and the theorems at it.
use kin_os.Base.{ℕ, ◌≡◌, refl, false, some, List, [], ◌∷◌, arith, inr}
use kin_os.Gui.{
  Layer, LayerManager, Vector2D, DrawTo, ActiveLayer, new_layer, set_window, up_down,
  find_layer_by_position, activate, insert_at, find_layer, move_to, hide, find_at,
}
use kin_os.Gui.Stack.{without}
use kin_os.Gui.Laws.{IsStacked, up_down_lem, height}
use kin_os.Gui.Reach.{
  Reach, start, step, created, dressed, put, Reach-IsStacked, FindsTop,
  find_layer_by_position-FindsTop,
}
use kin_os.Gui.Active.{activate-after}

abbrev screen : Vector2D
screen = record { x = 640; y = 480 }

abbrev arrow : Vector2D
arrow = record { x = 15; y = 24 }

abbrev no_layers : LayerManager
no_layers = record { layers = []; layer_stack = []; latest_id = 0 }

abbrev created_layers : LayerManager
created_layers = (new_layer (new_layer (new_layer no_layers).1).1).1

abbrev dressed_layers : LayerManager
dressed_layers = set_window 3 arrow (set_window 2 screen (set_window 1 screen created_layers))

abbrev desktop : LayerManager
desktop = up_down 3 2 (up_down 2 1 (up_down 1 0 dressed_layers))

abbrev layer : ℕ → Vector2D → Layer
layer id size = record {
  id = id;
  pos = record { x = 0; y = 0 };
  window = some size;
  draggable = false;
}

three_layers : desktop.layer_stack ≡ some 1 ∷ some 2 ∷ some 3 ∷ []
unfolding up_down set_window new_layer find_layer move_to hide
three_layers = refl

desktop-Reach : Reach desktop
unfolding up_down set_window new_layer find_layer move_to hide
desktop-Reach =
    let a = step (step (step start created) created) created in
    let b = step (step (step a (dressed 1 screen)) (dressed 2 screen)) (dressed 3 arrow) in
    step (step (step b (put 1 0 (layer 1 screen) refl)) (put 2 1 (layer 2 screen) refl))
      (put 3 2 (layer 3 arrow) refl)

Reach-IsStacked_example : IsStacked desktop
Reach-IsStacked_example = Reach-IsStacked desktop desktop-Reach

find_layer_by_position-FindsTop_example :
    FindsTop arrow 3 desktop.layers desktop.layer_stack (find_layer_by_position arrow 3 desktop)
find_layer_by_position-FindsTop_example =
    find_layer_by_position-FindsTop arrow 3 desktop desktop-Reach

finds : find_layer_by_position arrow 3 desktop ≡ some (some 2)
unfolding find_layer_by_position find_at up_down set_window new_layer find_layer move_to hide
finds = refl

up_down_lem_example : up_down 3 0 desktop ≡ record desktop {
  layer_stack =
      insert_at
        (height (some 3) 0 desktop.layer_stack)
        (some 3)
        (without (some 3) desktop.layer_stack);
}
unfolding up_down set_window new_layer find_layer move_to hide
up_down_lem_example = up_down_lem 3 0 desktop (layer 3 arrow) refl (omega arith)

abbrev active : ActiveLayer
active = record { active_layer = 2; mouse_layer = 3 }

activate-after_example :
    (calls : List DrawTo) × (activate 1 active desktop
      ≡ some (
        calls,
        record active { active_layer = 1 },
        record desktop { layer_stack = some 2 ∷ some 1 ∷ some 3 ∷ [] },
      ))
unfolding up_down set_window new_layer find_layer move_to hide
activate-after_example =
    activate-after 1 active desktop (some 1 ∷ some 2 ∷ []) (Reach-IsStacked desktop desktop-Reach)
      refl (omega arith) (layer 1 screen, screen, refl, refl)
      (inr (layer 2 screen, screen, refl, refl)) (λ e. omega (arith, e)) (λ e. omega (arith, e))
      (λ e. omega (arith, e))
