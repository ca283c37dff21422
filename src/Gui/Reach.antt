-- ===== src/Gui/Reach.antt =====
-- The states of the layers that calls can reach.
use kin_os.Base.{
  ℕ, ◌≡◌, refl, ap, ◌∙◌, sym, true, false, Option, none, some, List, [], ◌∷◌, ◌++◌, Bool-cases, inl,
  inr, ◌⊎◌,
}
use kin_os.Gui.{
  Layer, LayerManager, Vector2D, Rectangle, DrawTo, lookup, new_layer, hide, remove_layer, up_down,
  draw_all, draw_area, find_at, find_layer_by_position, is_at, move, move_relative, plus,
  set_window,
}
use kin_os.Gui.Pointers.{AllPoint}
use kin_os.Gui.Laws.{
  IsStacked, hide-IsStacked, up_down-IsStacked, new_layer-IsStacked, remove_layer-IsStacked,
  move_by-IsStacked, set_window-IsStacked,
}

-- A call of a method. `UpDown` of an id without a layer, which puts a null pointer into the stack, is left
-- out.
pub data Step (m : LayerManager) : LayerManager → Type 0 where
  created : Step m (new_layer m).1
  dressed : (id : ℕ) (size : Vector2D) → Step m (set_window id size m)
  removed : (id : ℕ) (ids : List ℕ) → Step m (remove_layer id ids m).1
  hidden : (id : ℕ) → Step m (hide id m)
  put : (id h : ℕ) (l : Layer) → lookup id m.layers ≡ some l → Step m (up_down id h m)
  moved :
      {m' : LayerManager} (id : ℕ) (pos : Vector2D) (calls : List DrawTo)
      → move id pos m ≡ some (calls, m')
      → Step m m'
  moved_relative :
      {m' : LayerManager} (id : ℕ) (diff : Vector2D) (calls : List DrawTo)
      → move_relative id diff m ≡ some (calls, m')
      → Step m m'

pub data Reach : LayerManager → Type 0 where
  start : Reach (record { layers = []; layer_stack = []; latest_id = 0 })
  step : {m m' : LayerManager} → Reach m → Step m m' → Reach m'

Step-IsStacked : (m m' : LayerManager) → Step m m' → IsStacked m → IsStacked m'
unfolding move move_relative
Step-IsStacked m _ created v = new_layer-IsStacked m v
Step-IsStacked m _ (dressed id size) v = set_window-IsStacked id size m v
Step-IsStacked m _ (removed id ids) v = remove_layer-IsStacked id ids m v
Step-IsStacked m _ (hidden id) v = hide-IsStacked id m v
Step-IsStacked m _ (put id h l e) v = up_down-IsStacked id h m l e v
Step-IsStacked m m' (moved id pos calls e) v = move_by-IsStacked id (λ _. pos) m m' calls v e
Step-IsStacked m m' (moved_relative id diff calls e) v =
    move_by-IsStacked id (λ pos. plus pos diff) m m' calls v e

-- In every state that these calls can reach, `UpDown` only of layers that there are, the stack holds each layer at most once, and only layers that there are.
pub Reach-IsStacked : (m : LayerManager) → Reach m → IsStacked m
Reach-IsStacked _ start = (tt, tt)
Reach-IsStacked m (step {m = before} r s) = Step-IsStacked before m s (Reach-IsStacked before r)

pub draw_all_total :
    (area : Rectangle) (ls : List Layer) (stack : List (Option ℕ))
    → AllPoint ls stack
    → (calls : List DrawTo) × (draw_all area ls stack ≡ some calls)
unfolding draw_all
draw_all_total area ls [] a = ([], refl)
draw_all_total area ls (p ∷ stack) ((i, l, e, k), rest) =
    let (calls, h) = draw_all_total area ls stack rest in rw e (rw k (rw h (_, refl)))

-- In every such state `Draw` of an area meets no null pointer.
pub Reach-draw_area :
    (m : LayerManager) (area : Rectangle)
    → Reach m
    → (calls : List DrawTo) × (draw_area area m ≡ some calls)
unfolding draw_area
Reach-draw_area m area r = draw_all_total area m.layers m.layer_stack (Reach-IsStacked m r).0

-- No layer of the stack is at the position.
abbrev pub Missed : Vector2D → ℕ → List Layer → List (Option ℕ) → Type 0
Missed pos exclude_id ls [] = Unit
Missed pos exclude_id ls (p ∷ stack) =
    ((i : ℕ) (l : Layer) → p ≡ some i → lookup i ls ≡ some l → is_at pos exclude_id l ≡ false)
    × Missed pos exclude_id ls stack

-- The topmost layer at the position, or a null pointer if there is none.
abbrev pub FindsTop : Vector2D → ℕ → List Layer → List (Option ℕ) → Option (Option ℕ) → Type 0
FindsTop pos exclude_id ls stack r =
    ((r ≡ some none) × Missed pos exclude_id ls stack)
    ⊎ ((i : ℕ) × (l : Layer) × (below : List (Option ℕ)) × (above : List (Option ℕ)) × (r
          ≡ some (some i))
        × (stack ≡ below ++ some i ∷ above)
        × (lookup i ls ≡ some l)
        × (is_at pos exclude_id l ≡ true)
        × Missed pos exclude_id ls above)

find_at-FindsTop :
    (pos : Vector2D) (exclude_id : ℕ) (ls : List Layer) (stack : List (Option ℕ))
    → AllPoint ls stack
    → FindsTop pos exclude_id ls stack (find_at pos exclude_id ls stack)
unfolding find_at
find_at-FindsTop pos ex ls [] a = inl (refl, tt)
find_at-FindsTop pos ex ls (p ∷ stack) ((i, l, e, k), rest) =
    elim (find_at-FindsTop pos ex ls stack rest) [
      | inr (j, n, below, above, found, split, there, at, missed) ↦
          rw found (inr (j, n, p ∷ below, above, refl, ap (λ t. p ∷ t) split, there, at, missed))
      | inl (found, missed) ↦
          rw (found, e, k)
            (elim (Bool-cases (is_at pos ex l)) [
              | inl h ↦ rw h (inr (i, l, [], stack, refl, refl, k, h, missed))
              | inr h ↦ rw h (
                  inl (
                    refl,
                    (
                      (λ i' l' a b.
                          let q : i ≡ i' = cc a in
                          let r : l ≡ l' = cc (b, k, q) in ap (is_at pos ex) (sym r) ∙ h),
                      missed,
                    ),
                  ))
            ])
    ]

-- In every state that calls can reach, `UpDown` only of layers that there are, `FindLayerByPosition` meets no null pointer and gives the topmost layer of the
-- stack at the position, other than the excluded one, or a null pointer if there is none.
pub find_layer_by_position-FindsTop :
    (pos : Vector2D) (exclude_id : ℕ) (m : LayerManager)
    → Reach m
    → FindsTop pos exclude_id m.layers m.layer_stack (find_layer_by_position pos exclude_id m)
unfolding find_layer_by_position
find_layer_by_position-FindsTop pos exclude_id m r =
    find_at-FindsTop pos exclude_id m.layers m.layer_stack (Reach-IsStacked m r).0
