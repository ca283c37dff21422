-- ===== src/Usb/ArrayMap.antt =====
-- kernel/usb/arraymap.hpp: a map in an array of `N` places. A place has its value also when it has no
-- key.
use mathlib.Core.Path.{subst}
use kin_os.Base.{
  ℕ, ◌≡◌, Bool, true, false, Option, none, some, List, [], ◌∷◌, ◌==◌, if◌then◌else◌, arith,
  Bool-cases, inl, inr,
}

abbrev pub Table : Type 0 → Type 0
Table V = List (Option ℕ × V)

-- `opt_k && opt_k.value() == key`
abbrev pub holds : Option ℕ → ℕ → Bool
holds none key = false
holds (some k) key = k == key

module _ {V : Type 0} where
  unfoldable pub get : Table V → ℕ → Option V
  get [] key = none
  get ((k, v) ∷ t) key = if holds k key then some v else get t key

  -- The first place with no key takes the new one; a full table stays as it is.
  unfoldable pub put : Table V → ℕ → V → Table V
  put [] key value = []
  put ((none, v) ∷ t) key value = (some key, value) ∷ t
  put ((some k, v) ∷ t) key value = (some k, v) ∷ put t key value

  unfoldable pub delete : Table V → ℕ → Table V
  delete [] key = []
  delete ((k, v) ∷ t) key = if holds k key then (none, v) ∷ t else (k, v) ∷ delete t key

  -- Some place has no key.
  abbrev pub has_room : Table V → Bool
  has_room [] = false
  has_room ((none, v) ∷ t) = true
  has_room ((some k, v) ∷ t) = has_room t

  -- No key stands in two places.
  abbrev pub NoTwice : Table V → Type 0
  NoTwice [] = Unit {0}
  NoTwice ((none, v) ∷ t) = NoTwice t
  NoTwice ((some k, v) ∷ t) = (get t k ≡ none) × NoTwice t

  -- `Put` of a key that the map does not have: with room, the key has the new value and every other key
  -- its old one; with none, nothing changes.
  pub get-put :
      (t : Table V) (key j : ℕ) (v : V)
      → get t key ≡ none
      → get (put t key v) j ≡ (if key == j then (if has_room t then some v else none) else get t j)
  unfolding get put
  get-put [] key j v h = ground arith
  get-put ((none, w) ∷ t) key j v h = ground arith
  get-put ((some k, w) ∷ t) key j v h = ground (arith, get-put t key j v)

  -- After `Delete` the key is gone and every other key has its value, if no key stood in two places;
  -- and none does after it.
  pub get-delete :
      (t : Table V) (key j : ℕ)
      → NoTwice t
      → get (delete t key) j ≡ (if key == j then none else get t j)
  unfolding get delete
  get-delete [] key j u = ground arith
  get-delete ((none, w) ∷ t) key j u = ground (arith, get-delete t key j u)
  get-delete ((some k, w) ∷ t) key j u = elim (Bool-cases (k == key)) [
    | inl e ↦
        let p : k ≡ key = ground arith in
        let absent : get t key ≡ none = subst (λ i. get t i ≡ none) p u.0 in
        elim (Bool-cases (key == j)) [
          | inl f ↦
              let r : key ≡ j = ground arith in rw (e, f) (subst (λ i. get t i ≡ none) r absent)
          | inr f ↦ rw (e, f) (ground arith)
        ]
    | inr e ↦ rw e (ground (arith, get-delete t key j u.1))
  ]
