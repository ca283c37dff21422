-- ===== src/Gui/Stack.antt =====
-- The stack of layers as a list: what taking a layer out and putting it in at a height come to.
use kin_os.Base.{
  ℕ, zero, suc, ◌-◌, ◌≤◌, ◌<◌, ◌≡◌, refl, ap, true, false, Option, none, some, List, [], ◌∷◌, ◌++◌,
  ◌==◌, if◌then◌else◌, length, arith, min, Bool-cases, inl, inr, ◌⊎◌,
}
use kin_os.Gui.{same, find_index, erase_at, insert_at, move_to}

-- The stack without the first occurrence of a layer.
abbrev pub without : Option ℕ → List (Option ℕ) → List (Option ℕ)
without p [] = []
without p (q ∷ qs) = if same q p then qs else q ∷ without p qs

pub same_refl : (p : Option ℕ) → same p p ≡ true
same_refl none = refl
same_refl (some a) = ground arith

pub same-eq : (p q : Option ℕ) → same p q ≡ true → p ≡ q
same-eq none none h = refl
same-eq none (some b) h = absurd (cc h)
same-eq (some a) none h = absurd (cc h)
same-eq (some a) (some b) h = ap some (ground arith)

-- The layer is no element of the stack.
abbrev pub NotIn : Option ℕ → List (Option ℕ) → Type 0
NotIn p [] = Unit
NotIn p (q ∷ qs) = (same q p ≡ false) × NotIn p qs

abbrev pub Distinct : List (Option ℕ) → Type 0
Distinct [] = Unit
Distinct (q ∷ qs) = NotIn q qs × Distinct qs

pub erase_at-find_index :
    (p : Option ℕ) (s : List (Option ℕ)) → erase_at (find_index p s) s ≡ without p s
erase_at-find_index p [] = refl
erase_at-find_index p (q ∷ qs) = elim (Bool-cases (same q p)) [
  | inl e ↦ rw e refl
  | inr e ↦ rw e (ap (λ t. q ∷ t) (erase_at-find_index p qs))
]

-- A layer that is not in the stack has the stack's length for its index.
pub length-without :
    (p : Option ℕ) (s : List (Option ℕ))
    → ((find_index p s ≡ length s) × (without p s ≡ s))
      ⊎ ((find_index p s < length s) × (suc (length (without p s)) ≡ length s))
length-without p [] = inl (refl, refl)
length-without p (q ∷ qs) = elim (Bool-cases (same q p)) [
  | inl e ↦ rw e (inr (omega arith, refl))
  | inr e ↦ rw e (elim (length-without p qs) [
    | inl h ↦ inl (ap suc h.0, ap (λ t. q ∷ t) h.1)
    | inr h ↦ inr (omega (arith, h.0), ap suc h.1)
  ])
]

-- `UpDown` takes the layer out of the stack and puts it in at the height, or on top.
pub move_to_lem :
    (p : Option ℕ) (h : ℕ) (s : List (Option ℕ))
    → h ≤ length s
    → move_to p h s ≡ insert_at (min h (length (without p s))) p (without p s)
unfolding move_to
move_to_lem p h s le = elim (length-without p s) [
  | inl (at_end, all) ↦
      let here : (find_index p s == length s) ≡ true = ground arith in
      let height : h ≡ min h (length s) = omega arith in
      rw (here, all) (ap (λ k. insert_at k p s) height)
  | inr (inside, one_less) ↦
      let here : (find_index p s == length s) ≡ false = ground arith in
      rw (here, erase_at-find_index p s)
        (elim (Bool-cases (h == length s)) [
          | inl e ↦
              let height : h - 1 ≡ min h (length (without p s)) = ground arith in
              rw e (ap (λ k. insert_at k p (without p s)) height)
          | inr e ↦
              let height : h ≡ min h (length (without p s)) = ground arith in
              rw e (ap (λ k. insert_at k p (without p s)) height)
        ])
]

pub NotIn-without : (p q : Option ℕ) (s : List (Option ℕ)) → NotIn p s → NotIn p (without q s)
NotIn-without p q [] h = h
NotIn-without p q (x ∷ xs) h = elim (Bool-cases (same x q)) [
  | inl e ↦ rw e (h.1)
  | inr e ↦ rw e (h.0, NotIn-without p q xs h.1)
]

pub Distinct-without : (q : Option ℕ) (s : List (Option ℕ)) → Distinct s → Distinct (without q s)
Distinct-without q [] h = h
Distinct-without q (x ∷ xs) h = elim (Bool-cases (same x q)) [
  | inl e ↦ rw e (h.1)
  | inr e ↦ rw e (NotIn-without x q xs h.0, Distinct-without q xs h.1)
]

-- In a stack without duplicates a layer that was taken out is not left.
pub NotIn-without_self : (q : Option ℕ) (s : List (Option ℕ)) → Distinct s → NotIn q (without q s)
NotIn-without_self q [] h = h
NotIn-without_self q (x ∷ xs) h = elim (Bool-cases (same x q)) [
  | inl e ↦ rw e (rw (same-eq x q e) at (h.0))
  | inr e ↦ rw e (e, NotIn-without_self q xs h.1)
]

pub without_none : (q : Option ℕ) (s : List (Option ℕ)) → NotIn q s → without q s ≡ s
without_none q [] h = refl
without_none q (x ∷ xs) h = rw (h.0) (ap (λ t. x ∷ t) (without_none q xs h.1))

pub without-append_last :
    (q r : Option ℕ) (s : List (Option ℕ))
    → same r q ≡ false
    → without q (s ++ r ∷ []) ≡ without q s ++ r ∷ []
without-append_last q r [] ne = rw ne refl
without-append_last q r (x ∷ xs) ne = elim (Bool-cases (same x q)) [
  | inl e ↦ rw e refl
  | inr e ↦ rw e (ap (λ t. x ∷ t) (without-append_last q r xs ne))
]

pub insert_at-length :
    (q : Option ℕ) (xs ys : List (Option ℕ)) → insert_at (length xs) q (xs ++ ys) ≡ xs ++ q ∷ ys
insert_at-length q [] ys = refl
insert_at-length q (x ∷ xs) ys = ap (λ t. x ∷ t) (insert_at-length q xs ys)

pub same_comm : (p q : Option ℕ) → same p q ≡ false → same q p ≡ false
same_comm p q h = elim (Bool-cases (same q p)) [
  | inl e ↦ absurd (cc (rw (same-eq q p e) at h, same_refl p))
  | inr e ↦ e
]

NotIn-insert_at :
    (k : ℕ) (p q : Option ℕ) (s : List (Option ℕ))
    → same q p ≡ false
    → NotIn p s
    → NotIn p (insert_at k q s)
NotIn-insert_at zero p q s ne h = (ne, h)
NotIn-insert_at (suc k) p q [] ne h = (ne, h)
NotIn-insert_at (suc k) p q (x ∷ xs) ne h = (h.0, NotIn-insert_at k p q xs ne h.1)

pub Distinct-insert_at :
    (k : ℕ) (q : Option ℕ) (s : List (Option ℕ))
    → NotIn q s
    → Distinct s
    → Distinct (insert_at k q s)
Distinct-insert_at zero q s n d = (n, d)
Distinct-insert_at (suc k) q [] n d = (n, d)
Distinct-insert_at (suc k) q (x ∷ xs) n d =
    (NotIn-insert_at k x q xs (same_comm x q n.0) d.0, Distinct-insert_at k q xs n.1 d.1)
