-- ===== src/Gui.antt =====
-- The layers of the graphical server, servers/gui/layer.cpp and servers/gui/layer.hpp: which windows
-- there are, in what order they cover each other, and which one is active.
--
-- A `Layer *` is the layer's id, or `none` for a null pointer: ids are not used twice before
-- `latest_id_` wraps around. An `int` is a word of 32 bits in two's complement. Of a window its size is
-- kept; what `DrawTo` does to pixels is not modelled, but its calls are, in order. A result `none`
-- stands for a use of a null pointer.
use kin_os.Base.{
  ℕ, zero, suc, ◌+◌, ◌-◌, ◌^◌, ◌%◌, Bool, true, false, not, ◌&&◌, Option, none, some, List, [], ◌∷◌,
  ◌++◌, ◌==◌, leb, ltb, if◌then◌else◌, and_then, length,
}
use mathlib.Core.Option
pub mod Stack
pub mod Pointers
pub mod Laws
pub mod Reach
pub mod Active
mod Tests

pub record Vector2D : Type 0 where
  pub x : ℕ
  pub y : ℕ

pub record Rectangle : Type 0 where
  pub pos : Vector2D
  pub size : Vector2D

pub record Layer : Type 0 where
  pub id : ℕ
  pub pos : Vector2D
  pub window : Option Vector2D
  pub draggable : Bool

pub record LayerManager : Type 0 where
  pub layers : List Layer
  pub layer_stack : List (Option ℕ)
  pub latest_id : ℕ

-- A call of `Layer::DrawTo` with a window.
pub record DrawTo : Type 0 where
  pub layer : ℕ
  pub area : Rectangle

-- `int` addition and comparison.
abbrev pub add_int : ℕ → ℕ → ℕ
add_int a b = (a + b) % 2 ^ 32

abbrev pub le_int : ℕ → ℕ → Bool
le_int a b = leb ((a + 2 ^ 31) % 2 ^ 32) ((b + 2 ^ 31) % 2 ^ 32)

abbrev pub is_negative : ℕ → Bool
is_negative a = leb (2 ^ 31) a

abbrev pub plus : Vector2D → Vector2D → Vector2D
plus a b = record { x = add_int a.x b.x; y = add_int a.y b.y }

abbrev pub lookup : ℕ → List Layer → Option Layer
lookup id [] = none
lookup id (l ∷ ls) = if l.id == id then some l else lookup id ls

abbrev pub same : Option ℕ → Option ℕ → Bool
same none none = true
same none (some b) = false
same (some a) none = false
same (some a) (some b) = a == b

-- `FindLayer`
unfoldable pub find_layer : ℕ → LayerManager → Option ℕ
find_layer id m = Option.map (λ l. l.id) (lookup id m.layers)

unfoldable pub new_layer : LayerManager → ℕ × LayerManager
new_layer m =
    let id = (m.latest_id + 1) % 2 ^ 32 in
    (
      id,
      record m {
        layers =
            m.layers
            ++ record { id = id; pos = record { x = 0; y = 0 }; window = none; draggable = false }
              ∷ [];
        latest_id = id;
      },
    )

-- `std::find` in the stack, as an index; the length if there is none.
abbrev pub find_index : Option ℕ → List (Option ℕ) → ℕ
find_index p [] = 0
find_index p (q ∷ qs) = if same q p then 0 else suc (find_index p qs)

abbrev pub erase_at {ℓ} : {A : Type ℓ} → ℕ → List A → List A
erase_at i [] = []
erase_at zero (x ∷ xs) = xs
erase_at (suc i) (x ∷ xs) = x ∷ erase_at i xs

abbrev pub insert_at {ℓ} : {A : Type ℓ} → ℕ → A → List A → List A
insert_at zero a xs = a ∷ xs
insert_at (suc i) a [] = a ∷ []
insert_at (suc i) a (x ∷ xs) = x ∷ insert_at i a xs

unfoldable pub hide : ℕ → LayerManager → LayerManager
hide id m =
    let pos = find_index (find_layer id m) m.layer_stack in
    if pos == length m.layer_stack then m else record m { layer_stack = erase_at pos m.layer_stack }

abbrev pub erase_layer : ℕ → List Layer → List Layer
erase_layer id [] = []
erase_layer id (l ∷ ls) = if l.id == id then erase_layer id ls else l ∷ erase_layer id ls

abbrev pub erase_id : ℕ → List ℕ → List ℕ
erase_id id [] = []
erase_id id (i ∷ is) = if i == id then erase_id id is else i ∷ erase_id id is

-- `RemoveLayer`, with the global `window_layer_id`.
unfoldable pub remove_layer : ℕ → List ℕ → LayerManager → List ℕ × LayerManager
remove_layer id window_layer_id m =
    let hidden = hide id m in
    (erase_id id window_layer_id, record hidden { layers = erase_layer id hidden.layers })

-- What `UpDown` does to the stack, once `new_height` is not negative and is cut to the stack's size.
unfoldable pub move_to : Option ℕ → ℕ → List (Option ℕ) → List (Option ℕ)
move_to layer new_height stack =
    let old_pos = find_index layer stack in
    if old_pos == length stack
    then insert_at new_height layer stack
    else if new_height == length stack
    then insert_at (new_height - 1) layer (erase_at old_pos stack)
    else insert_at new_height layer (erase_at old_pos stack)

unfoldable pub up_down : ℕ → ℕ → LayerManager → LayerManager
up_down id new_height m = if is_negative new_height then hide id m else record m {
  layer_stack =
      move_to (find_layer id m)
        (if ltb (length m.layer_stack) new_height then length m.layer_stack else new_height)
        m.layer_stack;
}

-- `GetHeight` from `h` on; `-1` if there is no such layer.
unfoldable pub height_from : ℕ → ℕ → List (Option ℕ) → Option ℕ
height_from id h [] = some (2 ^ 32 - 1)
height_from id h (none ∷ stack) = none
height_from id h (some i ∷ stack) = if i == id then some h else height_from id (suc h) stack

unfoldable pub get_height : ℕ → LayerManager → Option ℕ
get_height id m = height_from id 0 m.layer_stack

-- `Draw(area)`
unfoldable pub draw_all : Rectangle → List Layer → List (Option ℕ) → Option (List DrawTo)
draw_all area layers [] = some []
draw_all area layers (p ∷ stack) = and_then p (λ i. and_then (lookup i layers) (λ l.
    Option.map
      (λ calls. elim l.window [
        | none ↦ calls
        | some size ↦ record { layer = i; area = area } ∷ calls
      ])
      (draw_all area layers stack)))

unfoldable pub draw_area : Rectangle → LayerManager → Option (List DrawTo)
draw_area area m = draw_all area m.layers m.layer_stack

-- `Draw(id)`: the layer and those above it, in the layer's area.
unfoldable pub draw_above : ℕ → List Layer → List (Option ℕ) → Option (List DrawTo)
draw_above id layers [] = some []
draw_above id layers (p ∷ stack) = and_then p (λ i.
    if i == id
    then and_then (lookup i layers) (λ l.
      and_then l.window (λ size. draw_all (record { pos = l.pos; size = size }) layers (p ∷ stack)))
    else draw_above id layers stack)

unfoldable pub draw_id : ℕ → LayerManager → Option (List DrawTo)
draw_id id m = draw_above id m.layers m.layer_stack

-- A write through a layer's pointer.
abbrev pub set_pos : ℕ → Vector2D → List Layer → List Layer
set_pos id pos [] = []
set_pos id pos (l ∷ ls) = if l.id == id then record l { pos = pos } ∷ ls else l ∷ set_pos id pos ls

abbrev pub set_size : ℕ → Vector2D → List Layer → List Layer
set_size id size [] = []
set_size id size (l ∷ ls) =
    if l.id == id then record l { window = some size } ∷ ls else l ∷ set_size id size ls

-- `SetWindow` of a layer that `FindLayer` or `NewLayer` gave.
unfoldable pub set_window : ℕ → Vector2D → LayerManager → LayerManager
set_window id size m = record m { layers = set_size id size m.layers }

-- `Move` and `MoveRelative`, which differ in the new position.
unfoldable pub move_by :
    ℕ → (Vector2D → Vector2D) → LayerManager → Option (List DrawTo × LayerManager)
move_by id new_pos m = and_then (lookup id m.layers) (λ l. and_then l.window (λ size.
    let moved = record m { layers = set_pos id (new_pos l.pos) m.layers } in
    and_then (draw_area (record { pos = l.pos; size = size }) moved)
      (λ old. Option.map (λ calls. (old ++ calls, moved)) (draw_id id moved))))

unfoldable pub move : ℕ → Vector2D → LayerManager → Option (List DrawTo × LayerManager)
move id new_pos m = move_by id (λ pos. new_pos) m

unfoldable pub move_relative : ℕ → Vector2D → LayerManager → Option (List DrawTo × LayerManager)
move_relative id pos_diff m = move_by id (λ pos. plus pos pos_diff) m

-- The test of `FindLayerByPosition`.
abbrev pub is_at : Vector2D → ℕ → Layer → Bool
is_at pos exclude_id l = if l.id == exclude_id then false else elim l.window [
  | none ↦ false
  | some size ↦
      let end = plus l.pos size in
      le_int l.pos.x pos.x
      && not (le_int end.x pos.x)
      && (le_int l.pos.y pos.y && not (le_int end.y pos.y))
]

-- From the top of the stack; the outer `none` is a null pointer in the stack.
unfoldable pub find_at : Vector2D → ℕ → List Layer → List (Option ℕ) → Option (Option ℕ)
find_at pos exclude_id layers [] = some none
find_at pos exclude_id layers (p ∷ stack) = and_then (find_at pos exclude_id layers stack) (λ above.
    elim above [
      | some i ↦ some (some i)
      | none ↦
          and_then p (λ i.
            Option.map (λ l. if is_at pos exclude_id l then some i else none) (lookup i layers))
    ])

unfoldable pub find_layer_by_position : Vector2D → ℕ → LayerManager → Option (Option ℕ)
find_layer_by_position pos exclude_id m = find_at pos exclude_id m.layers m.layer_stack

pub record ActiveLayer : Type 0 where
  pub active_layer : ℕ
  pub mouse_layer : ℕ

-- The window that `Activate` leaves: `Deactivate` of its window draws a title bar only.
unfoldable pub deactivate : ActiveLayer → LayerManager → Option (List DrawTo)
deactivate a m =
    if a.active_layer == 0
    then some []
    else and_then (lookup a.active_layer m.layers)
        (λ l. and_then l.window (λ size. draw_id a.active_layer m))

-- The window that it comes to.
unfoldable pub raise : ℕ → ActiveLayer → LayerManager → Option (List DrawTo × LayerManager)
raise id a m =
    if id == 0
    then some ([], m)
    else and_then (lookup id m.layers) (λ l. and_then l.window (λ size.
      let bottom = up_down id 0 m in
      and_then (get_height a.mouse_layer bottom) (λ h.
        let raised = up_down id (add_int h (2 ^ 32 - 1)) bottom in
        Option.map (λ calls. (calls, raised)) (draw_id id raised))))

unfoldable pub activate :
    ℕ → ActiveLayer → LayerManager → Option (List DrawTo × ActiveLayer × LayerManager)
activate id a m =
    if a.active_layer == id
    then some ([], a, m)
    else and_then (deactivate a m) (λ left.
      Option.map (λ r. (left ++ r.0, record a { active_layer = id }, r.1)) (raise id a m))
