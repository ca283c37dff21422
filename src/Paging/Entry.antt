-- ===== src/Paging/Entry.antt =====
-- One entry of `SetupPageMap`: a new map for it, if it has none, and its flags.
use kin_os.Base.{
  ℕ, ◌+◌, ◌^◌, ◌<◌, ◌≡◌, refl, ◌∙◌, Bool, true, false, ◌==◌, ◌&&◌, Option, some, arith,
  if◌then◌else◌, ◌≢◌, Bool-cases, inl, inr, ◌⊎◌,
}
use mathlib.Core.Option
use kin_os.Error.{success, WithError, no_enough_memory}
use kin_os.Memory.{get_bit, mark_allocated}
use kin_os.Memory.Bits.{InMap}
use kin_os.Memory.Search.{allocate_lem}
use kin_os.Memory.Laws.{get_bit-mark_allocated, mark_allocated-keeps}
use kin_os.Paging.{
  Machine, present, writable, user, pointer, new_page_map, set_new_page_map_if_not_present,
  set_present, set_pointer, is_error, store, store_page,
}
use kin_os.Paging.Fields.{Reads-set_present, Reads-set_pointer, Reads}
use kin_os.Paging.Extends.{
  Used, IsValid, Extends, EntryKeeps, Extends-refl, Extends-trans, keeps-Legal, EntryComes,
}

-- A page that was free, and now is in use and all zero; the other pages keep their words.
abbrev pub Fresh : Machine → Machine → ℕ → Type 0
Fresh m m' f =
    (get_bit m.frames f ≡ false)
    × (f < 2 ^ 40)
    × Used m' f
    × ((i : ℕ) → m'.words f i ≡ 0)
    × ((g i : ℕ) → g ≢ f → m'.words g i ≡ m.words g i)

-- `NewPageMap` returns: a fresh page, or an error.
pub data News (w : Bool) (m : Machine) : Option (WithError ℕ × Machine) → Type 0 where
  fresh :
      {f : ℕ} {m' : Machine}
      → Extends w m m'
      → Fresh m m' f
      → News w m (some (record { value = f; error = success }, m'))
  failed : News w m (some (record { value = 0; error = no_enough_memory }, m))

-- `m` with the frame `s` marked and filled with zeros.
abbrev given : Machine → ℕ → Machine
given m s = store_page (record m { frames = mark_allocated m.frames s 1 }) s (λ _. 0)

Used-given :
    (m : Machine) (s f : ℕ)
    → InMap m.frames f
    → (f ≡ s) ⊎ (get_bit m.frames f ≡ true)
    → Used (given m s) f
Used-given m s f h u =
    let keeps = mark_allocated-keeps m.frames s 1 in
    let marked = get_bit-mark_allocated m.frames s 1 f h in
    (rw (keeps.0) h, ground (arith, marked, u))

word-given : (m : Machine) (s g i : ℕ) → g ≢ s → (given m s).words g i ≡ m.words g i
word-given m s g i ne = ground (arith, ne)

Extends-given :
    (w : Bool) (m : Machine) (s : ℕ) → get_bit m.frames s ≡ false → Extends w m (given m s)
Extends-given w m s free =
    let keeps = mark_allocated-keeps m.frames s 1 in
    let apart : (f i : ℕ) → Used m f → (given m s).words f i ≡ m.words f i =
      (λ f i u. word-given m s f i (λ e. ground (arith, e, u.1))) in
    record {
      valid = λ v. (ground (arith, keeps, v), ground (arith, keeps, v));
      same_cr3 = refl;
      used = λ f u. Used-given m s f u.0 (inr u.1);
      entry = λ f i u p. rw (apart f i u) (p, refl, (λ h. h), (λ c h. h));
      legal =
          keeps-Legal m (given m s) (λ f u. Used-given m s f u.0 (inr u.1))
            (λ f i u. rw (apart f i u) (λ p. inl (p, refl)));
    }

Fresh-given :
    (m : Machine) (s : ℕ)
    → IsValid m
    → s < m.frames.range_end
    → get_bit m.frames s ≡ false
    → Fresh m (given m s) s
Fresh-given m s v lt free =
    let held : InMap m.frames s = omega (arith, v) in
    (free, omega (arith, v), Used-given m s s held (inl refl), (λ i. ground arith), word-given m s)

pub new_page_map_lem : (w : Bool) (m : Machine) → IsValid m → News w m (new_page_map m)
unfolding new_page_map
new_page_map_lem w m v = elim (allocate_lem m.frames 1) [
  | inl (s, f) ↦
      let free : get_bit m.frames s ≡ false =
        (let e : s + 0 ≡ s = omega arith in rw e at (f.3 0 (omega arith))) in
      rw (f.0) (fresh (Extends-given w m s free) (Fresh-given m s v (omega (arith, f.2)) free))
  | inr (inl f) ↦ rw (f.0) failed
  | inr (inr f) ↦ absurd (omega (arith, f.1, v))
]

pub word-store :
    (m : Machine) (t i e f j : ℕ)
    → ((f ≡ t) × (j ≡ i) × ((store m t i e).words f j ≡ e))
      ⊎ ((store m t i e).words f j ≡ m.words f j)
word-store m t i e f j = elim (Bool-cases (f == t && j == i)) [
  | inl h ↦ rw h (inl (ground arith, ground arith, refl))
  | inr h ↦ rw h (inr refl)
]

-- A write to one entry of a table in use extends, if a present entry keeps what it must, and a new one
-- has a zeroed page.
pub Extends-store :
    (w : Bool) (m : Machine) (t i e : ℕ)
    → EntryKeeps w (m.words t i) e
    → EntryComes (store m t i e) (m.words t i) e
    → Extends w m (store m t i e)
Extends-store w m t i e keeps comes = record {
  valid = λ v. v;
  same_cr3 = refl;
  used = λ f u. u;
  entry = λ f j u. elim (word-store m t i e f j) [
    | inl (a, b, c) ↦ rw c (rw a (rw b keeps))
    | inr c ↦ rw c (λ p. (p, refl, (λ h. h), (λ c h. h)))
  ];
  legal =
      keeps-Legal m (store m t i e) (λ f u. u)
        (λ f j u. elim (word-store m t i e f j) [
          | inl (a, b, c) ↦ rw c (rw a (rw b comes))
          | inr c ↦ rw c (λ p. inl (p, refl))
        ]);
}

-- The entry of a new map.
new_entry :
    (f e : ℕ) → f < 2 ^ 40 → Reads (set_present true (set_pointer f e)) true (writable e) (user e) f
new_entry f e lt =
    let a = Reads-set_present true (set_pointer f e) in
    let b = Reads-set_pointer f e lt in (a.0, a.1 ∙ b.1, a.2 ∙ b.2, a.3 ∙ b.3)

-- A fresh page becomes the map of an entry that has none.
Extends-link :
    (w : Bool) (m m' : Machine) (t i f : ℕ)
    → Used m t
    → present (m.words t i) ≡ false
    → Fresh m m' f
    → Extends w m' (store m' t i (set_present true (set_pointer f (m'.words t i))))
Extends-link w m m' t i f u p h =
    let e = set_present true (set_pointer f (m'.words t i)) in
    let reads = new_entry f (m'.words t i) h.1 in
    let apart : t ≢ f = (λ q. ground (arith, q, u.1, h.0)) in
    let none_yet : present (m'.words t i) ≡ false = rw (h.4 t i apart) p in
    let zero_still : (j : ℕ) → (store m' t i e).words f j ≡ 0 = λ j. ground (arith, apart, h.3 j) in
    Extends-store w m' t i e (λ q. absurd (ground (arith, q, none_yet)))
      (λ q. inr (rw (reads.3) (h.2, zero_still)))

-- What `SetNewPageMapIfNotPresent(page_map[i])` gives: the map of the entry, which now is present.
pub data Links (w : Bool) (m : Machine) (t i : ℕ) : Option (WithError ℕ × Machine) → Type 0 where
  linked :
      {c : ℕ} {m' : Machine}
      → Extends w m m'
      → present (m'.words t i) ≡ true
      → pointer (m'.words t i) ≡ c
      → Links w m t i (some (record { value = c; error = success }, m'))
  not_linked :
      {m' : Machine}
      → Extends w m m'
      → Links w m t i (some (record { value = 0; error = no_enough_memory }, m'))

Links-News :
    (w : Bool) (m : Machine) (t i : ℕ) (r : Option (WithError ℕ × Machine))
    → Used m t
    → present (m.words t i) ≡ false
    → News w m r
    → Links w m t i (
        Option.map
          (λ r.
            if is_error r.0.error
            then r
            else (r.0, store r.1 t i (set_present true (set_pointer r.0.value (r.1.words t i)))))
          r)
Links-News w m t i _ u p (fresh {f} {m'} e h) =
    let e' = set_present true (set_pointer f (m'.words t i)) in
    let reads = new_entry f (m'.words t i) h.1 in
    let here : (store m' t i e').words t i ≡ e' = ground arith in
    linked (Extends-trans w m m' (store m' t i e') e (Extends-link w m m' t i f u p h))
      (rw here (reads.0)) (rw here (reads.3))
Links-News w m t i _ u p failed = not_linked (Extends-refl w m)

pub set_new_page_map_lem :
    (w : Bool) (m : Machine) (t i : ℕ)
    → IsValid m
    → Used m t
    → Links w m t i (set_new_page_map_if_not_present t i m)
unfolding set_new_page_map_if_not_present
set_new_page_map_lem w m t i v u = elim (Bool-cases (present (m.words t i))) [
  | inl p ↦ rw p (linked (Extends-refl w m) p refl)
  | inr p ↦ rw p (Links-News w m t i (new_page_map m) u p (new_page_map_lem w m v))
]
