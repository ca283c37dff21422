-- ===== src/Gui/Laws.antt =====
-- Whatever is done to the layers, the stack has each layer at most once and none that was removed, so that
-- drawing and looking for a layer meet no null pointer.
use kin_os.Base.{
  ℕ, ◌≤◌, ◌<◌, ◌≡◌, refl, ap, sym, true, false, Option, none, some, List, [], ◌∷◌, ◌==◌, ltb,
  if◌then◌else◌, length, arith, min, Bool-cases, Option-cases, inl, inr, and_then-some, map-some,
  ◌^◌,
}
use kin_os.Gui.{
  Layer, LayerManager, Vector2D, Rectangle, DrawTo, lookup, find_index, insert_at, find_layer,
  new_layer, hide, erase_layer, remove_layer, up_down, is_negative, set_pos, set_window, move_by,
  draw_area, draw_id,
}
use kin_os.Gui.Stack.{
  without, NotIn, Distinct, erase_at-find_index, length-without, move_to_lem, Distinct-without,
  NotIn-without_self, Distinct-insert_at,
}
use kin_os.Gui.Pointers.{
  AllPoint, lookup-id, AllPoint-mono, AllPoint-without, AllPoint-insert_at, lookup-append,
  lookup-erase_layer, lookup-set_pos, lookup-set_size,
}

abbrev pub IsStacked : LayerManager → Type 0
IsStacked m = AllPoint m.layers m.layer_stack × Distinct m.layer_stack

pub find_layer-lookup :
    (id : ℕ) (m : LayerManager) (l : Layer)
    → lookup id m.layers ≡ some l
    → find_layer id m ≡ some id
unfolding find_layer
find_layer-lookup id m l h = rw h (ap some (lookup-id id m.layers l h))

pub hide_lem :
    (id : ℕ) (m : LayerManager)
    → hide id m ≡ record m { layer_stack = without (find_layer id m) m.layer_stack }
unfolding hide
hide_lem id m =
    let p = find_layer id m in
    elim (length-without p m.layer_stack) [
      | inl (at_end, all) ↦
          let here : (find_index p m.layer_stack == length m.layer_stack) ≡ true = ground arith in
          rw (here, all) refl
      | inr (inside, one_less) ↦
          let here : (find_index p m.layer_stack == length m.layer_stack) ≡ false = ground arith in
          rw (here, erase_at-find_index p m.layer_stack) refl
    ]

pub hide-IsStacked : (id : ℕ) (m : LayerManager) → IsStacked m → IsStacked (hide id m)
hide-IsStacked id m v = rw (hide_lem id m) (
  AllPoint-without m.layers (find_layer id m) m.layer_stack v.0,
  Distinct-without (find_layer id m) m.layer_stack v.1,
)

-- The height that `UpDown` takes an `int` that is not negative for.
abbrev pub height : Option ℕ → ℕ → List (Option ℕ) → ℕ
height p h stack = min h (length (without p stack))

-- `UpDown` to a height that is not negative takes the layer out of the stack and puts it in at that
-- height, or on top if there are fewer layers; the others keep their order.
pub up_down_lem :
    (id h : ℕ) (m : LayerManager) (l : Layer)
    → lookup id m.layers ≡ some l
    → h < 2 ^ 31
    → up_down id h m ≡ record m {
      layer_stack =
          insert_at (height (some id) h m.layer_stack) (some id) (without (some id) m.layer_stack);
    }
unfolding up_down
up_down_lem id h m l e small =
    let positive : is_negative h ≡ false = ground arith in
    let p : find_layer id m ≡ some id = find_layer-lookup id m l e in
    let n = if ltb (length m.layer_stack) h then length m.layer_stack else h in
    let le : n ≤ length m.layer_stack = ground arith in
    let k : height (some id) n m.layer_stack ≡ height (some id) h m.layer_stack =
      ground (arith, length-without (some id) m.layer_stack) in
    rw (positive, p) (rw (move_to_lem (some id) n m.layer_stack le) (rw k refl))

pub up_down-IsStacked :
    (id h : ℕ) (m : LayerManager) (l : Layer)
    → lookup id m.layers ≡ some l
    → IsStacked m
    → IsStacked (up_down id h m)
unfolding up_down
up_down-IsStacked id h m l e v = elim (Bool-cases (is_negative h)) [
  | inl neg ↦ rw neg (hide-IsStacked id m v)
  | inr pos ↦
      let k = height (some id) h m.layer_stack in
      rw (up_down_lem id h m l e (ground arith)) (
        AllPoint-insert_at m.layers k (some id) (without (some id) m.layer_stack) (id, l, refl, e)
            (AllPoint-without m.layers (some id) m.layer_stack v.0),
        Distinct-insert_at k (some id) (without (some id) m.layer_stack)
            (NotIn-without_self (some id) m.layer_stack v.1)
            (Distinct-without (some id) m.layer_stack v.1),
      )
]

pub new_layer-IsStacked : (m : LayerManager) → IsStacked m → IsStacked (new_layer m).1
unfolding new_layer
new_layer-IsStacked m v = (
  AllPoint-mono m.layers _ m.layer_stack
      (λ p (i, l, e, h). (i, l, e, lookup-append i m.layers _ l h)) v.0,
  v.1,
)

moved-IsStacked :
    (id : ℕ) (pos : Vector2D) (m : LayerManager)
    → IsStacked m
    → IsStacked (record m { layers = set_pos id pos m.layers })
moved-IsStacked id pos m v = (
  AllPoint-mono m.layers _ m.layer_stack
      (λ p (i, k, a, h). let (k', h') = lookup-set_pos i id pos m.layers k h in (i, k', a, h')) v.0,
  v.1,
)

pub move_by-IsStacked :
    (id : ℕ) (f : Vector2D → Vector2D) (m m' : LayerManager) (calls : List DrawTo)
    → IsStacked m
    → move_by id f m ≡ some (calls, m')
    → IsStacked m'
unfolding move_by
move_by-IsStacked id f m m' calls v e =
    let (l, el, e1) = and_then-some (lookup id m.layers) _ e in
    let (size, es, e2) = and_then-some l.window _ e1 in
    let moved = record m { layers = set_pos id (f l.pos) m.layers } in
    let area : Rectangle = record { pos = l.pos; size = size } in
    let (old, eo, e3) = and_then-some (draw_area area moved) _ e2 in
    let (c, ec, e4) = map-some _ (draw_id id moved) {b = (calls, m')} e3 in
    let q : moved ≡ m' = cc e4 in rw (sym q) (moved-IsStacked id (f l.pos) m v)

pub set_window-IsStacked :
    (id : ℕ) (size : Vector2D) (m : LayerManager) → IsStacked m → IsStacked (set_window id size m)
unfolding set_window
set_window-IsStacked id size m v = (
  AllPoint-mono m.layers _ m.layer_stack
      (λ p (i, k, a, h). let (k', h') = lookup-set_size i id size m.layers k h in (i, k', a, h'))
      v.0,
  v.1,
)

NotIn-lookup :
    (id : ℕ) (ls : List Layer) (stack : List (Option ℕ))
    → lookup id ls ≡ none
    → AllPoint ls stack
    → NotIn (some id) stack
NotIn-lookup id ls [] h a = tt
NotIn-lookup id ls (p ∷ stack) h ((i, l, e, k), rest) = (
  rw e (elim (Bool-cases (i == id)) [
    | inl q ↦ let r : i ≡ id = ground arith in absurd (cc (rw r at k, h))
    | inr q ↦ q
  ]),
  NotIn-lookup id ls stack h rest,
)

AllPoint-erase_layer :
    (id : ℕ) (ls : List Layer) (stack : List (Option ℕ))
    → NotIn (some id) stack
    → AllPoint ls stack
    → AllPoint (erase_layer id ls) stack
AllPoint-erase_layer id ls [] n a = a
AllPoint-erase_layer id ls (p ∷ stack) (ne, n) ((i, l, e, k), rest) =
    let apart : (i == id) ≡ false = rw e at ne in
    ((i, l, e, lookup-erase_layer i id ls l apart k), AllPoint-erase_layer id ls stack n rest)

pub remove_layer-IsStacked :
    (id : ℕ) (ids : List ℕ) (m : LayerManager) → IsStacked m → IsStacked (remove_layer id ids m).1
unfolding remove_layer
remove_layer-IsStacked id ids m v =
    let hidden = hide-IsStacked id m v in
    let gone : NotIn (some id) (hide id m).layer_stack = elim (Option-cases (lookup id m.layers)) [
      | inl absent ↦ rw (hide_lem id m) (
          NotIn-lookup id m.layers (without (find_layer id m) m.layer_stack) absent
            (AllPoint-without m.layers (find_layer id m) m.layer_stack v.0))
      | inr (l, e) ↦
          rw (hide_lem id m)
            (rw (find_layer-lookup id m l e) (NotIn-without_self (some id) m.layer_stack v.1))
    ] in
    (AllPoint-erase_layer id (hide id m).layers (hide id m).layer_stack gone hidden.0, hidden.1)
