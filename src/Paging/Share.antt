-- ===== src/Paging/Share.antt =====
-- `CopyPageMaps`: the copy maps the pages of the source to the same frames, and none may be written.
use kin_os.Base.{
  ℕ, zero, suc, ◌+◌, ◌≤◌, ◌<◌, ◌≡◌, refl, ◌∙◌, true, false, ◌==◌, Option, some, arith, ◌≢◌,
  Bool-cases, inl, inr, ◌⊎◌,
}
use kin_os.Error.{Error, success, no_enough_memory}
use kin_os.Paging.{Machine, present, writable, pointer, store}
use kin_os.Paging.Extends.{Used, IsValid}

-- The source's tables and pages, of the topmost table from the entry at `from` on, are in use, and
-- the destination is none of them.
abbrev pub Source : ℕ → ℕ → Machine → ℕ → ℕ → Type 0
Source from zero m dest table = Used m table × (table ≢ dest)
Source from (suc level) m dest table =
    Used m table
    × (table ≢ dest)
    × ((i : ℕ)
        → from ≤ i
        → present (m.words table i) ≡ true
        → Source 0 level m dest (pointer (m.words table i)))

pub Source-later :
    (from level : ℕ) (m : Machine) (dest table : ℕ)
    → Source from (suc level) m dest table
    → Source (from + 1) (suc level) m dest table
Source-later from level m dest table src = (src.0, src.1, λ i le p. src.2 i (omega arith) p)

-- What copying to `dest` keeps: the frames in use, and the words of all but `dest`.
pub record Keeps (dest : ℕ) (m m' : Machine) : Type 0 where
  pub valid : IsValid m → IsValid m'
  pub used : (f : ℕ) → Used m f → Used m' f
  pub same : (f i : ℕ) → Used m f → f ≢ dest → m'.words f i ≡ m.words f i

pub Keeps-refl : (dest : ℕ) (m : Machine) → Keeps dest m m
Keeps-refl dest m = record { valid = λ v. v; used = λ f u. u; same = λ f i u ne. refl }

pub Keeps-trans : (dest : ℕ) (m n o : Machine) → Keeps dest m n → Keeps dest n o → Keeps dest m o
Keeps-trans dest m n o f g = record {
  valid = λ v. g.valid (f.valid v);
  used = λ p u. g.used p (f.used p u);
  same = λ p i u ne. g.same p i (f.used p u) ne ∙ f.same p i u ne;
}

-- No frame that was in use.
abbrev pub FreshIn : Machine → ℕ → Type 0
FreshIn m0 d = (f : ℕ) → Used m0 f → d ≢ f

same-present :
    (s i : ℕ) (m0 m1 : Machine)
    → m1.words s i ≡ m0.words s i
    → present (m0.words s i) ≡ true
    → present (m1.words s i) ≡ true
same-present s i m0 m1 e p = rw e p

-- `d` is a copy, made since `m0`, of the map `s` of a level as it was in `m0`: at each entry that is
-- present the copy has a copy of the map below, and at level 1 the same frame, not writable.
abbrev pub Below : ℕ → Machine → Machine → ℕ → ℕ → Type 0
Below zero m0 m d s = s ≡ d
Below (suc level) m0 m d s =
    FreshIn m0 d
    × Used m d
    × ((i : ℕ)
        → i < 512
        → present (m0.words s i) ≡ true
        → (present (m.words d i) ≡ true)
          × (level ≡ 0 → writable (m.words d i) ≡ false)
          × Below level m0 m (pointer (m.words d i)) (pointer (m0.words s i)))

-- One entry of a copy.
abbrev pub Row : ℕ → Machine → Machine → ℕ → ℕ → ℕ → Type 0
Row level m0 m d s i =
    present (m0.words s i) ≡ true
    → (present (m.words d i) ≡ true)
      × (level ≡ 0 → writable (m.words d i) ≡ false)
      × Below level m0 m (pointer (m.words d i)) (pointer (m0.words s i))

-- What is copied to a map that was in use leaves the copies made since.
pub Below-Keeps :
    (level dest d s : ℕ) (m0 m m' : Machine)
    → Used m0 dest
    → Keeps dest m m'
    → Below level m0 m d s
    → Below level m0 m' d s
Below-Keeps zero dest d s m0 m m' u k h = h
Below-Keeps (suc level) dest d s m0 m m' u k h =
    let same : (i : ℕ) → m'.words d i ≡ m.words d i = λ i. k.same d i h.1 (h.0 dest u) in
    (
      h.0,
      k.used d h.1,
      λ i lt p. rw (same i) (
        (h.2 i lt p).0,
        (h.2 i lt p).1,
        Below-Keeps level dest (pointer (m.words d i)) (pointer (m0.words s i)) m0 m m' u k
            (h.2 i lt p).2,
      ),
    )

-- A copy of what has not changed since `m0`.
pub Below-base :
    (level dest d s : ℕ) (m0 m1 m : Machine)
    → Keeps dest m0 m1
    → Source 0 level m0 dest s
    → Below level m1 m d s
    → Below level m0 m d s
Below-base zero dest d s m0 m1 m k src h = h
Below-base (suc level) dest d s m0 m1 m k src h =
    let same : (i : ℕ) → m1.words s i ≡ m0.words s i = λ i. k.same s i src.0 src.1 in
    (
      (λ f u. h.0 f (k.used f u)),
      h.1,
      λ i lt p.
          let row = h.2 i lt (same-present s i m0 m1 (same i) p) in
          (
            row.0,
            row.1,
            Below-base level dest (pointer (m.words d i)) (pointer (m0.words s i)) m0 m1 m k
                (src.2 i (omega arith) p) (rw (same i) at (row.2)),
          ),
    )

-- Copying elsewhere keeps a source.
pub Source-Keeps :
    (from level dest other table : ℕ) (m m' : Machine)
    → Keeps other m m'
    → ((f : ℕ) → Used m f → f ≢ other) ⊎ (dest ≡ other)
    → Source from level m dest table
    → Source from level m' dest table
Source-Keeps from zero dest other table m m' k w h = (k.used table h.0, h.1)
Source-Keeps from (suc level) dest other table m m' k w h =
    let apart : table ≢ other = elim w [ inl f ↦ f table h.0 | inr e ↦ rw e at (h.1) ] in
    let same : (i : ℕ) → m'.words table i ≡ m.words table i = λ i. k.same table i h.0 apart in
    (
      k.used table h.0,
      h.1,
      λ i lo p. rw (same i) (
          Source-Keeps 0 level dest other (pointer (m.words table i)) m m' k w
            (h.2 i lo (rw (same i) at p))),
    )

pub Row-base :
    (level from dest d s i : ℕ) (m0 m1 m : Machine)
    → Keeps dest m0 m1
    → Source from (suc level) m0 dest s
    → from ≤ i
    → Row level m1 m d s i
    → Row level m0 m d s i
Row-base level from dest d s i m0 m1 m k src le row p =
    let same : m1.words s i ≡ m0.words s i = k.same s i src.0 src.1 in
    let r = row (same-present s i m0 m1 same p) in
    (
      r.0,
      r.1,
      Below-base level dest (pointer (m.words d i)) (pointer (m0.words s i)) m0 m1 m k
          (src.2 i le p) (rw same at (r.2)),
    )

Row-Keeps :
    (level dest s i : ℕ) (m0 m m' : Machine)
    → Used m0 dest
    → Keeps dest m m'
    → m'.words dest i ≡ m.words dest i
    → Row level m0 m dest s i
    → Row level m0 m' dest s i
Row-Keeps level dest s i m0 m m' u k same row p =
    let r = row p in
    rw same (
      r.0,
      r.1,
      Below-Keeps level dest (pointer (m.words dest i)) (pointer (m0.words s i)) m0 m m' u k r.2,
    )

-- What a call of `CopyPageMaps`, or the rest of its loop from `i` on, makes.
pub data Copies (level : ℕ) (m : Machine) (dest s i : ℕ) : Option (Error × Machine) → Type 0 where
  copied :
      {m' : Machine}
      → Keeps dest m m'
      → ((j : ℕ) → j < i → m'.words dest j ≡ m.words dest j)
      → ((j : ℕ) → i ≤ j → j < 512 → Row level m m' dest s j)
      → Copies level m dest s i (some (success, m'))
  no_memory :
      {m' : Machine} → Keeps dest m m' → Copies level m dest s i (some (no_enough_memory, m'))

pub Keeps-store : (dest i e : ℕ) (m : Machine) → Keeps dest m (store m dest i e)
Keeps-store dest i e m = record {
  valid = λ v. v;
  used = λ f u. u;
  same = λ f j u ne. ground (arith, ne);
}

-- The entries before `i` and the entry `i`, then those behind it.
pub Copies-step :
    (level dest s i : ℕ) (m m1 : Machine) (r : Option (Error × Machine))
    → Used m dest
    → Source i (suc level) m dest s
    → Keeps dest m m1
    → ((j : ℕ) → j < i → m1.words dest j ≡ m.words dest j)
    → Row level m m1 dest s i
    → Copies level m1 dest s (i + 1) r
    → Copies level m dest s i r
Copies-step level dest s i m m1 _ u src k before row (no_memory {m' = m'} k') =
    no_memory (Keeps-trans dest m m1 m' k k')
Copies-step level dest s i m m1 _ u src k before row (copied {m' = m'} k' same rows) =
    copied (Keeps-trans dest m m1 m' k k') (λ j lt. same j (omega arith) ∙ before j lt)
      (λ j le lt. elim (Bool-cases (j == i)) [
        | inl e ↦
            let here : j ≡ i = ground arith in
            rw here (Row-Keeps level dest s i m m1 m' u k' (same i (omega arith)) row)
        | inr e ↦ Row-base level i dest dest s j m m1 m' k src le (rows j (ground arith) lt)
      ])
