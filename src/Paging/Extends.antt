-- ===== src/Paging/Extends.antt =====
-- What every step of a set-up keeps: pages in use stay so, and present entries of tables in use stay
-- present, with their frame.
use kin_os.Base.{
  ℕ, zero, suc, ◌*◌, ◌^◌, ◌≤◌, ◌≡◌, refl, ap, ◌∙◌, ◌⊎◌, inl, inr, Bool-cases, Bool, true, Option,
  none, some, arith, if◌then◌else◌, length,
}
use kin_os.Memory.{get_bit}
use kin_os.Memory.Bits.{InMap}
use kin_os.Paging.{Machine, present, writable, user, pointer}
use kin_os.Paging.Numbers.{index}

-- A frame that the allocator has a bit for, and has given or set aside.
abbrev pub Used : Machine → ℕ → Type 0
Used m f = InMap m.frames f × (get_bit m.frames f ≡ true)

-- The allocator's range lies in its map, and frame numbers fit in an entry.
abbrev pub IsValid : Machine → Type 0
IsValid m = (m.frames.range_end ≤ length m.frames.alloc_map * 64) × (m.frames.range_end ≤ 2 ^ 40)

-- A table of a level: it is in use, and its present entries from the one at `from` on are of tables of
-- the level below, or at level 1 of pages, in use. Below `from` the topmost table of an application has
-- the kernel's entries, where directories map pages of 2 MiB.
abbrev pub Legal : ℕ → ℕ → Machine → ℕ → Type 0
Legal from zero m table = Used m table
Legal from (suc level) m table =
    Used m table
    × ((i : ℕ)
        → from ≤ i
        → present (m.words table i) ≡ true
        → Legal 0 level m (pointer (m.words table i)))

-- What a present entry keeps; `w` says that it stays writable, too.
abbrev pub EntryKeeps : Bool → ℕ → ℕ → Type 0
EntryKeeps w e e' =
    present e ≡ true
    → (present e' ≡ true)
      × (pointer e' ≡ pointer e)
      × (user e ≡ true → user e' ≡ true)
      × (w ≡ true → writable e ≡ true → writable e' ≡ true)

pub record Extends (w : Bool) (m m' : Machine) : Type 0 where
  pub valid : IsValid m → IsValid m'
  pub same_cr3 : m'.cr3 ≡ m.cr3
  pub used : (f : ℕ) → Used m f → Used m' f
  pub entry : (f i : ℕ) → Used m f → EntryKeeps w (m.words f i) (m'.words f i)
  pub legal : (from level table : ℕ) → Legal from level m table → Legal from level m' table

-- A page in use and all zero.
abbrev pub Zeroed : Machine → ℕ → Type 0
Zeroed m f = Used m f × ((i : ℕ) → m.words f i ≡ 0)

-- An entry of `m'` that is present was so with its frame, or has a zeroed page.
abbrev pub EntryComes : Machine → ℕ → ℕ → Type 0
EntryComes m' e e' =
    present e' ≡ true → ((present e ≡ true) × (pointer e' ≡ pointer e)) ⊎ Zeroed m' (pointer e')

Zeroed-Legal : (from level : ℕ) (m : Machine) (f : ℕ) → Zeroed m f → Legal from level m f
Zeroed-Legal from zero m f z = z.0
Zeroed-Legal from (suc level) m f z = (z.0, λ i le p. absurd (ground (arith, p, z.1 i)))

pub keeps-Legal :
    (m m' : Machine)
    → ((f : ℕ) → Used m f → Used m' f)
    → ((f i : ℕ) → Used m f → EntryComes m' (m.words f i) (m'.words f i))
    → (from level table : ℕ) → Legal from level m table
    → Legal from level m' table
keeps-Legal m m' used comes from zero table h = used table h
keeps-Legal m m' used comes from (suc level) table h = (
  used table h.0,
  λ i le p. elim (comes table i h.0 p) [
    | inl c ↦
        rw (c.1) (keeps-Legal m m' used comes 0 level (pointer (m.words table i)) (h.1 i le c.0))
    | inr z ↦ Zeroed-Legal 0 level m' (pointer (m'.words table i)) z
  ],
)

pub Extends-refl : (w : Bool) (m : Machine) → Extends w m m
Extends-refl w m = record {
  valid = λ v. v;
  same_cr3 = refl;
  used = λ f u. u;
  entry = λ f i u p. (p, refl, (λ h. h), (λ c h. h));
  legal = λ from level table l. l;
}

EntryKeeps-trans : (w : Bool) (a b c : ℕ) → EntryKeeps w a b → EntryKeeps w b c → EntryKeeps w a c
EntryKeeps-trans w a b c f g p =
    let x = f p in let y = g x.0 in (y.0, y.1 ∙ x.1, (λ h. y.2 (x.2 h)), (λ k h. y.3 k (x.3 k h)))

pub Extends-trans : (w : Bool) (m n o : Machine) → Extends w m n → Extends w n o → Extends w m o
Extends-trans w m n o f g = record {
  valid = λ v. g.valid (f.valid v);
  same_cr3 = g.same_cr3 ∙ f.same_cr3;
  used = λ i u. g.used i (f.used i u);
  entry = λ p i u.
      EntryKeeps-trans w (m.words p i) (n.words p i) (o.words p i) (f.entry p i u)
        (g.entry p i (f.used p u));
  legal = λ from level table l. g.legal from level table (f.legal from level table l);
}

-- A `page` for the applications, in the frame `f`, on tables in use from `table` of the level down;
-- with `w`, writable too. This is what the processor reads for an address of the page.
abbrev pub Mapped : Bool → ℕ → Machine → ℕ → ℕ → ℕ → Type 0
Mapped w zero m table page f = (table ≡ f) × Used m f
Mapped w (suc level) m table page f =
    let entry = m.words table (index level page) in
    Used m table
    × (present entry ≡ true)
    × (user entry ≡ true)
    × (w ≡ true → writable entry ≡ true)
    × Mapped w level m (pointer entry) page f

pub Mapped-Extends :
    (w : Bool) (level : ℕ) (m m' : Machine) (table page f : ℕ)
    → Extends w m m'
    → Mapped w level m table page f
    → Mapped w level m' table page f
Mapped-Extends w zero m m' table page f e h = (h.0, e.used f h.1)
Mapped-Extends w (suc level) m m' table page f e h =
    let k = e.entry table (index level page) h.0 h.1 in
    let below =
      Mapped-Extends w level m m' (pointer (m.words table (index level page))) page f e h.4 in
    (e.used table h.0, k.0, k.2 h.2, (λ c. k.3 c (h.3 c)), rw (k.1) below)

-- The processor's walk: the frame of a page, if the entry on each level is present.
abbrev pub walk : ℕ → Machine → ℕ → ℕ → Option ℕ
walk zero m table page = some table
walk (suc level) m table page =
    let entry = m.words table (index level page) in
    if present entry then walk level m (pointer entry) page else none

pub walk-Mapped :
    (w : Bool) (level : ℕ) (m : Machine) (table page f : ℕ)
    → Mapped w level m table page f
    → walk level m table page ≡ some f
walk-Mapped w zero m table page f h = ap some h.0
walk-Mapped w (suc level) m table page f h =
    rw (h.1) (walk-Mapped w level m (pointer (m.words table (index level page))) page f h.4)

-- A page that has a frame keeps it.
pub walk-Extends :
    (w : Bool) (from level : ℕ) (m m' : Machine) (table page f : ℕ)
    → Extends w m m'
    → Legal from (suc level) m table
    → from ≤ index level page
    → walk (suc level) m table page ≡ some f
    → walk (suc level) m' table page ≡ some f
walk-Extends w from zero m m' table page f e l le h =
    let i = index 0 page in
    elim (Bool-cases (present (m.words table i))) [
      | inl p ↦
          let k = e.entry table i l.0 p in
          let here : some (pointer (m.words table i)) ≡ some f = rw p at h in
          rw (k.0) (rw (k.1) here)
      | inr p ↦ absurd (cc (rw p at h))
    ]
walk-Extends w from (suc level) m m' table page f e l le h =
    let i = index (suc level) page in
    elim (Bool-cases (present (m.words table i))) [
      | inl p ↦
          let k = e.entry table i l.0 p in
          let below =
            walk-Extends w 0 level m m' (pointer (m.words table i)) page f e (l.1 i le p)
              (omega arith) (rw p at h) in
          rw (k.0) (rw (k.1) below)
      | inr p ↦ absurd (cc (rw p at h))
    ]
