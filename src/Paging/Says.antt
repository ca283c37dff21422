-- ===== src/Paging/Says.antt =====
-- What a call of `SetupPageMap` for the maps of a level is to do, and how the rounds of the level above
-- put such calls together.
use kin_os.Base.{
  ℕ, suc, ◌+◌, ◌-◌, ◌/◌, ◌≤◌, ◌<◌, ◌≡◌, ◌∙◌, Bool, true, Option, some, ltb, arith, Bool-cases, inl,
  inr,
}
use kin_os.Error.{success, WithError, no_enough_memory}
use kin_os.Paging.{Machine, Setup, present, writable, user, pointer}
use kin_os.Paging.Fields.{Reads}
use kin_os.Paging.Numbers.{end, index, same_index}
use kin_os.Paging.Extends.{Used, IsValid, Extends, Extends-trans, Legal, Mapped, Mapped-Extends}

-- The pages from `from` up to `to` and up to `last` are mapped.
abbrev pub Covers : Bool → ℕ → Machine → ℕ → ℕ → ℕ → ℕ → Type 0
Covers w level m table from to last =
    (q : ℕ) → from ≤ q → q < to → q < last → (f : ℕ) × Mapped w level m table q f

-- What a set-up of `n` pages from `page` on makes, whose map's level `level` is, and which reaches up
-- to `last`: these pages are mapped, and those behind `last` remain; or there is an error.
pub data Says (w : Bool) (level : ℕ) (m : Machine) (table page n last : ℕ)
    : Option (WithError ℕ × Machine) → Type 0 where
  mapped :
      {r : ℕ} {m' : Machine}
      → Extends w m m'
      → r ≡ n - (last - page)
      → Covers w level m' table page (page + n) last
      → Says w level m table page n last (some (record { value = r; error = success }, m'))
  stopped :
      {r : ℕ} {m' : Machine}
      → Extends w m m'
      → Says w level m table page n last (some (record { value = r; error = no_enough_memory }, m'))

-- What is asked of `SetupPageMap` for the maps of a level.
abbrev pub Child : Bool → ℕ → Setup → Type 0
Child w level child =
    (table addr n : ℕ) (m : Machine)
    → IsValid m
    → Legal 0 level m table
    → Says w level m table (addr / 4096) (suc n) (end level (addr / 4096))
        (child table addr (suc n) w m)

-- What is mapped below an entry is mapped by its table.
pub Covers-below :
    (w : Bool) (level : ℕ) (m : Machine) (t page n : ℕ)
    → level < 4
    → (let e = m.words t (index level page) in
        Used m t
        × (present e ≡ true)
        × (user e ≡ true)
        × (w ≡ true → writable e ≡ true)
        × Covers w level m (pointer e) page (page + n) (end level page))
    → Covers w (suc level) m t page (page + n) (end level page)
Covers-below w level m t page n h (used, p, u, c, below) q le lt last =
    let same = same_index level page q h le last in
    let (f, b) = below q le lt last in (f, rw same (used, p, u, c, b))

-- Below an entry that has its flags, pages are mapped for the table of the entry.
pub Says-below :
    (w b : Bool) (level : ℕ) (m m1 : Machine) (t c page n : ℕ) (r : Option (WithError ℕ × Machine))
    → level < 4
    → (w ≡ true → b ≡ true)
    → Extends w m m1
    → Used m1 t
    → Reads (m1.words t (index level page)) true b true c
    → Says w level m1 c page n (end level page) r
    → Says w (suc level) m t page n (end level page) r
Says-below w b level m m1 t c page n _ h imp ext used reads (stopped {m' = m'} e) =
    stopped (Extends-trans w m m1 m' ext e)
Says-below w b level m m1 t c page n _ h imp ext used reads (mapped {m' = m'} e k covers) =
    let kept = e.entry t (index level page) used reads.0 in
    mapped (Extends-trans w m m1 m' ext e) k (
      Covers-below w level m' t page n h (
        e.used t used,
        kept.0,
        kept.2 reads.2,
        (λ k. kept.3 k (reads.1 ∙ imp k)),
        rw (kept.1 ∙ reads.3) covers,
      ))

-- The pages of the first entry, and those of the next ones.
pub Says-append :
    (w : Bool) (level : ℕ) (m m1 : Machine) (t page n middle last : ℕ)
    (r : Option (WithError ℕ × Machine))
    → page < middle
    → middle < last
    → Extends w m m1
    → Covers w level m1 t page (page + n) middle
    → Says w level m1 t middle (n - (middle - page)) last r
    → Says w level m t page n last r
Says-append w level m m1 t page n middle last _ lo hi ext first (stopped {m' = m'} e) =
    stopped (Extends-trans w m m1 m' ext e)
Says-append w level m m1 t page n middle last _ lo hi ext first (mapped {m' = m'} e k others) =
    mapped (Extends-trans w m m1 m' ext e) (omega arith) (λ q le lt up.
      elim (Bool-cases (ltb q middle)) [
        | inl b ↦
            let (f, h) = first q le lt (ground arith) in (f, Mapped-Extends w level m1 m' t q f e h)
        | inr b ↦ others q (ground arith) (ground arith) up
      ])

pub Says-after :
    (w : Bool) (level : ℕ) (m m1 : Machine) (t page n last : ℕ) (r : Option (WithError ℕ × Machine))
    → Extends w m m1
    → Says w level m1 t page n last r
    → Says w level m t page n last r
Says-after w level m m1 t page n last _ ext (stopped {m' = m'} e) =
    stopped (Extends-trans w m m1 m' ext e)
Says-after w level m m1 t page n last _ ext (mapped {m' = m'} e k covers) =
    mapped (Extends-trans w m m1 m' ext e) k covers
