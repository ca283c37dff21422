-- ===== src/Gui/Pointers.antt =====
-- The layers that the pointers of the stack stand for, and what a change of the layers leaves of them.
use kin_os.Base.{
  ℕ, zero, suc, ◌≡◌, refl, false, Option, some, List, [], ◌∷◌, ◌++◌, ◌==◌, arith, Bool-cases, inl,
  inr,
}
use kin_os.Gui.{Layer, Vector2D, lookup, same, insert_at, erase_layer, set_pos, set_size}
use kin_os.Gui.Stack.{without}

-- A pointer to a layer that there is.
abbrev pub Points : List Layer → Option ℕ → Type 0
Points layers p = (i : ℕ) × (l : Layer) × (p ≡ some i) × (lookup i layers ≡ some l)

abbrev pub AllPoint : List Layer → List (Option ℕ) → Type 0
AllPoint layers [] = Unit
AllPoint layers (p ∷ stack) = Points layers p × AllPoint layers stack

pub lookup-id : (id : ℕ) (ls : List Layer) (l : Layer) → lookup id ls ≡ some l → l.id ≡ id
lookup-id id [] l h = absurd (cc h)
lookup-id id (x ∷ xs) l h = elim (Bool-cases (x.id == id)) [
  | inl e ↦
      let k : some x ≡ some l = rw e at h in
      let q : x ≡ l = cc k in let n : x.id ≡ id = ground arith in rw q at n
  | inr e ↦ lookup-id id xs l (rw e at h)
]

-- The layers may change, as long as the pointers of the stack stay good.
pub AllPoint-mono :
    (ls ks : List Layer) (stack : List (Option ℕ))
    → ((p : Option ℕ) → Points ls p → Points ks p)
    → AllPoint ls stack
    → AllPoint ks stack
AllPoint-mono ls ks [] f h = h
AllPoint-mono ls ks (p ∷ stack) f h = (f p h.0, AllPoint-mono ls ks stack f h.1)

pub AllPoint-without :
    (ls : List Layer) (q : Option ℕ) (stack : List (Option ℕ))
    → AllPoint ls stack
    → AllPoint ls (without q stack)
AllPoint-without ls q [] h = h
AllPoint-without ls q (p ∷ stack) h = elim (Bool-cases (same p q)) [
  | inl e ↦ rw e (h.1)
  | inr e ↦ rw e (h.0, AllPoint-without ls q stack h.1)
]

pub AllPoint-insert_at :
    (ls : List Layer) (k : ℕ) (q : Option ℕ) (stack : List (Option ℕ))
    → Points ls q
    → AllPoint ls stack
    → AllPoint ls (insert_at k q stack)
AllPoint-insert_at ls zero q stack p h = (p, h)
AllPoint-insert_at ls (suc k) q [] p h = (p, h)
AllPoint-insert_at ls (suc k) q (x ∷ stack) p h = (h.0, AllPoint-insert_at ls k q stack p h.1)

pub lookup-append :
    (i : ℕ) (ls ks : List Layer) (l : Layer) → lookup i ls ≡ some l → lookup i (ls ++ ks) ≡ some l
lookup-append i [] ks l h = absurd (cc h)
lookup-append i (x ∷ xs) ks l h = elim (Bool-cases (x.id == i)) [
  | inl e ↦ rw e (rw e at h)
  | inr e ↦ rw e (lookup-append i xs ks l (rw e at h))
]

pub lookup-erase_layer :
    (i id : ℕ) (ls : List Layer) (l : Layer)
    → (i == id) ≡ false
    → lookup i ls ≡ some l
    → lookup i (erase_layer id ls) ≡ some l
lookup-erase_layer i id [] l ne h = absurd (cc h)
lookup-erase_layer i id (x ∷ xs) l ne h = elim (Bool-cases (x.id == i)) [
  | inl e ↦ let apart : (x.id == id) ≡ false = ground arith in rw apart (rw e (rw e at h))
  | inr e ↦ elim (Bool-cases (x.id == id)) [
    | inl k ↦ rw k (lookup-erase_layer i id xs l ne (rw e at h))
    | inr k ↦ rw k (rw e (lookup-erase_layer i id xs l ne (rw e at h)))
  ]
]

pub lookup-set_pos :
    (i id : ℕ) (pos : Vector2D) (ls : List Layer) (l : Layer)
    → lookup i ls ≡ some l
    → (l' : Layer) × (lookup i (set_pos id pos ls) ≡ some l')
lookup-set_pos i id pos [] l h = absurd (cc h)
lookup-set_pos i id pos (x ∷ xs) l h = elim (Bool-cases (x.id == i)) [
  | inl e ↦ elim (Bool-cases (x.id == id)) [
    | inl k ↦ rw k (record x { pos = pos }, rw e refl)
    | inr k ↦ rw k (x, rw e refl)
  ]
  | inr e ↦ elim (Bool-cases (x.id == id)) [
    | inl k ↦ rw k (rw e (l, rw e at h))
    | inr k ↦ rw k (rw e (lookup-set_pos i id pos xs l (rw e at h)))
  ]
]

pub lookup-set_size :
    (i id : ℕ) (size : Vector2D) (ls : List Layer) (l : Layer)
    → lookup i ls ≡ some l
    → (l' : Layer) × (lookup i (set_size id size ls) ≡ some l')
lookup-set_size i id size [] l h = absurd (cc h)
lookup-set_size i id size (x ∷ xs) l h = elim (Bool-cases (x.id == i)) [
  | inl e ↦ elim (Bool-cases (x.id == id)) [
    | inl k ↦ rw k (record x { window = some size }, rw e refl)
    | inr k ↦ rw k (x, rw e refl)
  ]
  | inr e ↦ elim (Bool-cases (x.id == id)) [
    | inl k ↦ rw k (rw e (l, rw e at h))
    | inr k ↦ rw k (rw e (lookup-set_size i id size xs l (rw e at h)))
  ]
]
