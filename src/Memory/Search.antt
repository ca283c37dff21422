-- ===== src/Memory/Search.antt =====
-- The search of `BitmapMemoryManager::Allocate`: what each of its two loops finds.
use kin_os.Base.{
  ℕ, zero, suc, ◌+◌, ◌-◌, ◌*◌, ◌/◌, length, ◌≤◌, ◌<◌, ◌≡◌, refl, true, false, Option, none, some,
  ◌⊎◌, inl, inr, leb, Bool-cases, arith,
}
use kin_os.Error.{success, no_enough_memory, WithError}
use kin_os.Memory.{
  BitmapMemoryManager, get_bit, mark_allocated, Scan, all_free, past_end, used_at, beyond_map, scan,
  allocate_from, allocate, null_frame,
}

-- The `n` frames from `s` on are free.
abbrev pub IsFree : BitmapMemoryManager → ℕ → ℕ → Type 0
IsFree m s n = (i : ℕ) → i < n → get_bit m (s + i) ≡ false

-- One of the `n` frames from `s` on is in use.
abbrev pub HasUsed : BitmapMemoryManager → ℕ → ℕ → Type 0
HasUsed m s n = (i : ℕ) × (i < n) × (get_bit m (s + i) ≡ true)

-- What the inner loop says, begun at `i` with `rounds` to go.
abbrev ScanSays : BitmapMemoryManager → ℕ → ℕ → ℕ → Scan → Type 0
ScanSays m s rounds i all_free =
    ((j : ℕ) → i ≤ j → j < i + rounds → get_bit m (s + j) ≡ false)
    × (0 < rounds → s + (i + rounds) ≤ m.range_end)
ScanSays m s rounds i past_end = m.range_end < s + (i + rounds)
ScanSays m s rounds i (used_at j) =
    (i ≤ j) × (j < i + rounds) × (get_bit m (s + j) ≡ true) × (s + j < m.range_end)
ScanSays m s rounds i beyond_map = length m.alloc_map * 64 < m.range_end

scan_free_step :
    (m : BitmapMemoryManager) (s i n : ℕ)
    → get_bit m (s + i) ≡ false
    → ((j : ℕ) → i + 1 ≤ j → j < i + 1 + n → get_bit m (s + j) ≡ false)
    → (j : ℕ) → i ≤ j
    → j < i + suc n
    → get_bit m (s + j) ≡ false
scan_free_step m s i n h rest j lo hi = elim (Bool-cases (leb j i)) [
  | inl e ↦ let p : j ≡ i = ground arith in rw p h
  | inr e ↦ rest j (ground arith) (ground arith)
]

scan_step :
    (m : BitmapMemoryManager) (s n i : ℕ) (r : Scan)
    → s + i < m.range_end
    → get_bit m (s + i) ≡ false
    → ScanSays m s n (i + 1) r
    → ScanSays m s (suc n) i r
scan_step m s n i all_free lt h says = (scan_free_step m s i n h says.0, ground (arith, says.1))
scan_step m s n i past_end lt h says = omega arith
scan_step m s n i (used_at j) lt h says = ground arith
scan_step m s n i beyond_map lt h says = says

scan_lem : (m : BitmapMemoryManager) (s n i : ℕ) → ScanSays m s n i (scan m s n i)
unfolding scan
scan_lem m s zero i = (λ j lo hi. absurd (omega arith), λ h. absurd (omega arith))
scan_lem m s (suc n) i = elim (Bool-cases (leb m.range_end (s + i))) [
  | inl e ↦ rw e (ground arith)
  | inr e ↦ rw e (elim (Bool-cases (leb (length m.alloc_map) ((s + i) / 64))) [
    | inl b ↦ rw b (ground arith)
    | inr b ↦ rw b (elim (Bool-cases (get_bit m (s + i))) [
      | inl u ↦ rw u (ground arith)
      | inr u ↦
          rw u (scan_step m s n i (scan m s n (i + 1)) (ground arith) u (scan_lem m s n (i + 1)))
    ])
  ])
]

-- `Allocate` found the first run of `n` free frames, and marked it.
abbrev pub Found : BitmapMemoryManager → ℕ → Option (WithError ℕ × BitmapMemoryManager) → ℕ → Type 0
Found m n r s =
    (r ≡ some (record { value = s; error = success }, mark_allocated m s n))
    × (m.range_begin ≤ s)
    × (0 < n → s + n ≤ m.range_end)
    × IsFree m s n
    × ((t : ℕ) → m.range_begin ≤ t → t < s → HasUsed m t n)

-- `Allocate` failed, changed nothing, and there is no run of `n` free frames.
abbrev pub NotFound : BitmapMemoryManager → ℕ → Option (WithError ℕ × BitmapMemoryManager) → Type 0
NotFound m n r =
    (r ≡ some (record { value = null_frame; error = no_enough_memory }, m))
    × ((t : ℕ) → m.range_begin ≤ t → t + n ≤ m.range_end → HasUsed m t n)

-- A used frame blocks every run that holds it.
blocked_up_to :
    (m : BitmapMemoryManager) (n start j : ℕ)
    → j < n
    → get_bit m (start + j) ≡ true
    → ((t : ℕ) → m.range_begin ≤ t → t < start → HasUsed m t n)
    → (t : ℕ) → m.range_begin ≤ t
    → t < start + (j + 1)
    → HasUsed m t n
blocked_up_to m n start j lt u before t lo hi = elim (Bool-cases (leb start t)) [
  | inl e ↦ (
    start + j - t,
    ground arith,
    let p : t + (start + j - t) ≡ start + j = ground arith in rw p u,
  )
  | inr e ↦ before t lo (ground arith)
]

-- A frame of the range is beyond the map.
abbrev pub Undefined : BitmapMemoryManager → Option (WithError ℕ × BitmapMemoryManager) → Type 0
Undefined m r = (r ≡ none) × (length m.alloc_map * 64 < m.range_end)

abbrev pub Finds : BitmapMemoryManager → ℕ → Option (WithError ℕ × BitmapMemoryManager) → Type 0
Finds m n r = ((s : ℕ) × Found m n r s) ⊎ (NotFound m n r ⊎ Undefined m r)

-- What the outer loop's round makes of the inner loop's result.
resume : ℕ → BitmapMemoryManager → ℕ → ℕ → Scan → Option (WithError ℕ × BitmapMemoryManager)
resume fuel m start n all_free =
    some (record { value = start; error = success }, mark_allocated m start n)
resume fuel m start n past_end = some (record { value = null_frame; error = no_enough_memory }, m)
resume fuel m start n (used_at i) = allocate_from fuel m (start + (i + 1)) n
resume fuel m start n beyond_map = none

resume_lem :
    (fuel : ℕ) (m : BitmapMemoryManager) (start n : ℕ)
    → allocate_from (suc fuel) m start n ≡ resume fuel m start n (scan m start n 0)
unfolding allocate_from resume
resume_lem fuel m start n = ground arith

resume-Finds :
    (m : BitmapMemoryManager) (n fuel start : ℕ)
    → m.range_end - start < suc fuel
    → m.range_begin ≤ start
    → ((t : ℕ) → m.range_begin ≤ t → t < start → HasUsed m t n)
    → ((start' : ℕ)
        → m.range_end - start' < fuel
        → m.range_begin ≤ start'
        → ((t : ℕ) → m.range_begin ≤ t → t < start' → HasUsed m t n)
        → Finds m n (allocate_from fuel m start' n))
    → (r : Scan) → ScanSays m start n 0 r
    → Finds m n (resume fuel m start n r)
unfolding resume
resume-Finds m n fuel start hf lo before ih all_free says = inl (
  start,
  (refl, lo, ground (arith, says.1), (λ i h. says.0 i (omega arith) (omega arith)), before),
)
resume-Finds m n fuel start hf lo before ih past_end says =
    inr (inl (refl, λ t lo' hi. before t lo' (omega arith)))
resume-Finds m n fuel start hf lo before ih beyond_map says = inr (inr (refl, says))
resume-Finds m n fuel start hf lo before ih (used_at j) says =
    ih (start + (j + 1)) (omega arith) (omega arith)
      (blocked_up_to m n start j (omega arith) says.2 before)

allocate_from_lem :
    (m : BitmapMemoryManager) (n fuel start : ℕ)
    → m.range_end - start < fuel
    → m.range_begin ≤ start
    → ((t : ℕ) → m.range_begin ≤ t → t < start → HasUsed m t n)
    → Finds m n (allocate_from fuel m start n)
allocate_from_lem m n zero start hf lo before = absurd (omega arith)
allocate_from_lem m n (suc fuel) start hf lo before = rw (resume_lem fuel m start n) (
    resume-Finds m n fuel start hf lo before (allocate_from_lem m n fuel) (scan m start n 0)
      (scan_lem m start n 0))

-- `Allocate` always returns. Either it returns the first run of `num_frames` free frames between
-- the range's ends, and marks just that; or there is no such run, and it returns the null frame with
-- `kNoEnoughMemory` and changes nothing; or it comes to a frame of the range that is beyond the map.
pub allocate_lem : (m : BitmapMemoryManager) (n : ℕ) → Finds m n (allocate m n)
unfolding allocate
allocate_lem m n =
    allocate_from_lem m n (m.range_end - m.range_begin + 2) m.range_begin (omega arith)
      (omega arith) (λ t lo hi. absurd (omega arith))
