-- ===== src/Gui/Active.antt =====
-- `ActiveLayer::Activate`: the active window stands right below the mouse.
use kin_os.Base.{
  ℕ, suc, ◌+◌, ◌-◌, ◌≤◌, ◌<◌, ◌≡◌, ◌≢◌, refl, ap, ◌∙◌, true, false, Option, some, List, [], ◌∷◌,
  ◌++◌, ◌==◌, length, length-append, arith, min, Bool-cases, inl, inr, ◌⊎◌, ◌^◌,
}
use kin_os.Gui.{
  Layer, LayerManager, Vector2D, Rectangle, DrawTo, ActiveLayer, lookup, same, insert_at, up_down,
  add_int, draw_above, draw_id, height_from, get_height, deactivate, raise, activate,
}
use kin_os.Gui.Stack.{
  without, same_refl, NotIn, Distinct, without-append_last, insert_at-length, NotIn-without,
  same_comm, length-without,
}
use kin_os.Gui.Pointers.{AllPoint, AllPoint-without}
use kin_os.Gui.Laws.{IsStacked, up_down_lem, height, up_down-IsStacked}
use kin_os.Gui.Reach.{draw_all_total}

-- A layer with a window, which can be drawn.
abbrev pub HasWindow : ℕ → LayerManager → Type 0
HasWindow id m =
    (l : Layer) × (size : Vector2D) × (lookup id m.layers ≡ some l) × (l.window ≡ some size)

draw_above_total :
    (id : ℕ) (m : LayerManager) (stack : List (Option ℕ))
    → HasWindow id m
    → AllPoint m.layers stack
    → (calls : List DrawTo) × (draw_above id m.layers stack ≡ some calls)
unfolding draw_above
draw_above_total id m [] w a = ([], refl)
draw_above_total id m (p ∷ stack) (l, size, k, s) a =
    let (i, n, e, there) = a.0 in
    elim (Bool-cases (i == id)) [
      | inl q ↦
          let r : i ≡ id = ground arith in
          let area : Rectangle = record { pos = l.pos; size = size } in
          let (calls, h) = draw_all_total area m.layers (p ∷ stack) a in
          let here : lookup i m.layers ≡ some l = rw r k in
          rw (e, q) (rw here (rw s (calls, rw e at h)))
      | inr q ↦ rw (e, q) (draw_above_total id m stack (l, size, k, s) a.1)
    ]

draw_id_total :
    (id : ℕ) (m : LayerManager)
    → HasWindow id m
    → IsStacked m
    → (calls : List DrawTo) × (draw_id id m ≡ some calls)
unfolding draw_id
draw_id_total id m w v = draw_above_total id m m.layer_stack w v.0

deactivate_total :
    (a : ActiveLayer) (m : LayerManager)
    → (a.active_layer ≡ 0) ⊎ HasWindow a.active_layer m
    → IsStacked m
    → (calls : List DrawTo) × (deactivate a m ≡ some calls)
unfolding deactivate
deactivate_total a m w v = elim (Bool-cases (a.active_layer == 0)) [
  | inl e ↦ rw e ([], refl)
  | inr e ↦ rw e (elim w [
    | inl z ↦ absurd (ground arith)
    | inr (l, size, k, s) ↦ rw (k, s) (draw_id_total a.active_layer m (l, size, k, s) v)
  ])
]

NotIn-append_inv :
    (p q : Option ℕ) (xs : List (Option ℕ))
    → NotIn p (xs ++ q ∷ [])
    → (same q p ≡ false) × NotIn p xs
NotIn-append_inv p q [] h = (h.0, tt)
NotIn-append_inv p q (x ∷ xs) h = let r = NotIn-append_inv p q xs h.1 in (r.0, (h.0, r.1))

-- The last of a stack without duplicates is not among the others.
last_NotIn : (q : Option ℕ) (xs : List (Option ℕ)) → Distinct (xs ++ q ∷ []) → NotIn q xs
last_NotIn q [] d = tt
last_NotIn q (x ∷ xs) d = (same_comm q x (NotIn-append_inv x q xs d.0).0, last_NotIn q xs d.1)

AllPoint-append_inv :
    (ls : List Layer) (xs ys : List (Option ℕ)) → AllPoint ls (xs ++ ys) → AllPoint ls xs
AllPoint-append_inv ls [] ys a = tt
AllPoint-append_inv ls (x ∷ xs) ys a = (a.0, AllPoint-append_inv ls xs ys a.1)

height_from_last :
    (ls : List Layer) (id h : ℕ) (ys : List (Option ℕ))
    → AllPoint ls ys
    → NotIn (some id) ys
    → height_from id h (ys ++ some id ∷ []) ≡ some (h + length ys)
unfolding height_from
height_from_last ls id h [] a n = ground arith
height_from_last ls id h (y ∷ ys) ((i, l, e, k), a) n =
    let apart : (i == id) ≡ false = rw e at (n.0) in
    let rest = height_from_last ls id (suc h) ys a n.1 in
    rw (e, apart) (rest ∙ ap some (omega arith))

module _ (id mouse : ℕ) (m : LayerManager) (l : Layer) (xs : List (Option ℕ)) where
  -- The stack between the two calls of `UpDown`, and after them.
  abbrev between : LayerManager
  between = record m { layer_stack = some id ∷ without (some id) xs ++ some mouse ∷ [] }

  abbrev after : LayerManager
  after = record m { layer_stack = without (some id) xs ++ some id ∷ some mouse ∷ [] }

  to_bottom :
      lookup id m.layers ≡ some l
      → m.layer_stack ≡ xs ++ some mouse ∷ []
      → mouse ≢ id
      → up_down id 0 m ≡ between
  to_bottom e split ne =
      let apart : same (some mouse) (some id) ≡ false = ground arith in
      let bottom : height (some id) 0 m.layer_stack ≡ 0 = omega arith in
      let others : without (some id) m.layer_stack ≡ without (some id) xs ++ some mouse ∷ [] =
        ap (without (some id)) split ∙ without-append_last (some id) (some mouse) xs apart in
      up_down_lem id 0 m l e (omega arith)
      ∙ ap (λ k. record m { layer_stack = insert_at k (some id) (without (some id) m.layer_stack) })
          bottom
      ∙ ap (λ s. record m { layer_stack = some id ∷ s }) others

  mouse_height :
      IsStacked m
      → m.layer_stack ≡ xs ++ some mouse ∷ []
      → mouse ≢ id
      → get_height mouse between ≡ some (suc (length (without (some id) xs)))
  unfolding get_height height_from
  mouse_height v split ne =
      let apart : (id == mouse) ≡ false = ground arith in
      let points : AllPoint m.layers (xs ++ some mouse ∷ []) = rw split at (v.0) in
      let distinct : Distinct (xs ++ some mouse ∷ []) = rw split at (v.1) in
      let below =
        height_from_last m.layers mouse 1 (without (some id) xs)
          (AllPoint-without m.layers (some id) xs
            (AllPoint-append_inv m.layers xs (some mouse ∷ []) points))
          (NotIn-without (some mouse) (some id) xs (last_NotIn (some mouse) xs distinct)) in
      rw apart (below ∙ ap some (omega arith))

  back_up :
      lookup id m.layers ≡ some l
      → length xs < 2 ^ 31
      → up_down id (add_int (suc (length (without (some id) xs))) (2 ^ 32 - 1)) between ≡ after
  back_up e short =
      let ys = without (some id) xs in
      let n = length ys in
      let le : n ≤ length xs = ground (arith, length-without (some id) xs) in
      let less : add_int (suc n) (2 ^ 32 - 1) ≡ n = omega arith in
      let front : same (some id) (some id) ≡ true = same_refl (some id) in
      let out : without (some id) between.layer_stack ≡ ys ++ some mouse ∷ [] = rw front refl in
      let at : min n (length (ys ++ some mouse ∷ [])) ≡ n =
        omega (arith, length-append ys (some mouse ∷ [])) in
      rw less (
        up_down_lem id n between l e (omega arith)
        ∙ ap (λ s. record m { layer_stack = insert_at (min n (length s)) (some id) s }) out
        ∙ ap (λ k. record m { layer_stack = insert_at k (some id) (ys ++ some mouse ∷ []) }) at
        ∙ ap (λ s. record m { layer_stack = s }) (insert_at-length (some id) ys (some mouse ∷ [])))

raise-after :
    (id : ℕ) (a : ActiveLayer) (m : LayerManager) (xs : List (Option ℕ))
    → IsStacked m
    → m.layer_stack ≡ xs ++ some a.mouse_layer ∷ []
    → length xs < 2 ^ 31
    → HasWindow id m
    → id ≢ 0
    → a.mouse_layer ≢ id
    → (calls : List DrawTo) × (raise id a m
        ≡ some (
          calls,
          record m { layer_stack = without (some id) xs ++ some id ∷ some a.mouse_layer ∷ [] },
        ))
unfolding raise
raise-after id a m xs v split short (l, size, e, w) nonzero ne =
    let mouse = a.mouse_layer in
    let first = to_bottom id mouse m l xs e split ne in
    let second = mouse_height id mouse m l xs v split ne in
    let third = back_up id mouse m l xs e short in
    let v1 : IsStacked (between id mouse m l xs) = rw first at (up_down-IsStacked id 0 m l e v) in
    let v2 : IsStacked (after id mouse m l xs) = rw third at (
      up_down-IsStacked id (add_int (suc (length (without (some id) xs))) (2 ^ 32 - 1))
        (between id mouse m l xs) l e v1) in
    let (calls, drawn) = draw_id_total id (after id mouse m l xs) (l, size, e, w) v2 in
    let shown : (id == 0) ≡ false = ground arith in
    (calls, rw (shown, e) (rw w (rw first (rw second (rw third (rw drawn refl))))))

-- In a stack of layers that there are, each once, with the mouse on top, `Activate` of another layer with a window puts it right below the mouse
-- and keeps the order of the others; it meets no null pointer if the layer that was active, if any, has
-- a window.
pub activate-after :
    (id : ℕ) (a : ActiveLayer) (m : LayerManager) (xs : List (Option ℕ))
    → IsStacked m
    → m.layer_stack ≡ xs ++ some a.mouse_layer ∷ []
    → length xs < 2 ^ 31
    → HasWindow id m
    → (a.active_layer ≡ 0) ⊎ HasWindow a.active_layer m
    → id ≢ 0
    → id ≢ a.active_layer
    → a.mouse_layer ≢ id
    → (calls : List DrawTo) × (activate id a m
        ≡ some (
          calls,
          record a { active_layer = id },
          record m { layer_stack = without (some id) xs ++ some id ∷ some a.mouse_layer ∷ [] },
        ))
unfolding activate
activate-after id a m xs v split short w before nonzero new ne =
    let (left, gone) = deactivate_total a m before v in
    let (calls, raised) = raise-after id a m xs v split short w nonzero ne in
    let changes : (a.active_layer == id) ≡ false = ground arith in
    rw (changes, gone, raised) (left ++ calls, refl)
