-- ===== src/Paging/Identity/Laws.antt =====
-- Below 64 GiB the kernel's tables translate each address to itself.
use Prim.Native.Nat.{bit_or}
use kin_os.Base.{
  ℕ, zero, suc, ◌+◌, ◌*◌, ◌/◌, ◌%◌, ◌^◌, ◌≤◌, ◌<◌, ◌≡◌, refl, ap, ◌∙◌, Bool, true, false, not, ◌==◌,
  ◌&&◌, Option, some, none, leb, ltb, arith, ◌≢◌, ◌⊎◌, if◌then◌else◌,
}
use native.Mathlib.Nat.{pow-suc}
use kin_os.Base.Bits.{bit_or_step}
use kin_os.Paging.{Machine, store, field, part, present, pointer}
use kin_os.Paging.Identity.{
  Tables, fill_directory, fill_directories, setup_identity_page_table, reset_cr3, page_size_1g,
  page_size_2m,
}

-- The page-size bit: it ends the walk at the page directory pointers, in a page of 1 GiB, or at a directory,
-- in one of 2 MiB. In the topmost table it is reserved.
abbrev pub huge_page : ℕ → Bool
huge_page entry = field 128 2 entry == 1

-- The processor's translation, as far as pages of 1 GiB and of 2 MiB; below them it is not followed.
abbrev pub translate : Machine → ℕ → Option ℕ
translate m addr =
    let pml4_entry = m.words m.cr3 (part 4 addr) in
    let pdp_entry = m.words (pointer pml4_entry) (part 3 addr) in
    let entry = m.words (pointer pdp_entry) (part 2 addr) in
    if not (present pml4_entry && not (huge_page pml4_entry) && present pdp_entry)
    then none
    else if huge_page pdp_entry
    then some (field 1073741824 (2 ^ 22) pdp_entry * 1073741824 + addr % 1073741824)
    else if present entry && huge_page entry
    then some (field 2097152 (2 ^ 31) entry * 2097152 + addr % 2097152)
    else none

bit_or_zero : (x n : ℕ) → x ≤ n → bit_or x 0 ≡ x
bit_or_zero zero n h = refl
bit_or_zero (suc x) zero h = absurd (omega arith)
bit_or_zero (suc x) (suc n) h =
    let rest = bit_or_zero (suc x / 2) n (omega arith) in omega (arith, rest, bit_or_step (suc x) 0)

-- Bits below the lowest one of a number are added.
bit_or_low : (k x y : ℕ) → y < 2 ^ k → bit_or (x * 2 ^ k) y ≡ x * 2 ^ k + y
bit_or_low zero x y h =
    let e : y ≡ 0 = omega arith in rw e (omega (arith, bit_or_zero (x * 1) (x * 1) (omega arith)))
bit_or_low (suc k) x y h =
    let double : x * 2 ^ suc k ≡ x * 2 ^ k * 2 =
      omega (arith, ap (λ (t : ℕ). x * t) (pow-suc 2 k)) in
    let half : x * 2 ^ suc k / 2 ≡ x * 2 ^ k = omega arith in
    let rest = bit_or_low k x (y / 2) (omega (arith, pow-suc 2 k)) in
    omega (arith, bit_or_step (x * 2 ^ suc k) y, ap (λ t. bit_or t (y / 2)) half, rest)

-- The entry that maps the `d`-th 2 MiB of the `p`-th GiB.
abbrev pub huge_entry : ℕ → ℕ → ℕ
huge_entry p d = p * page_size_1g + d * page_size_2m + 131

bit_or-huge : (p d : ℕ) → bit_or (p * page_size_1g + d * page_size_2m) 131 ≡ huge_entry p d
bit_or-huge p d =
    let e : p * page_size_1g + d * page_size_2m ≡ (p * 4194304 + d * 8192) * 2 ^ 8 = omega arith in
    rw e (bit_or_low 8 (p * 4194304 + d * 8192) 131 (omega arith))

bit_or-table : (t : ℕ) → bit_or (t * 4096) 3 ≡ t * 4096 + 3
bit_or-table t = bit_or_low 12 t 3 (omega arith)

-- What the inner loop leaves.
word-fill_directory :
    (t : Tables) (p rounds d : ℕ) (m : Machine) (f j : ℕ)
    → (fill_directory t p rounds d m).words f j ≡ (
        if f == t.page_directory + p && (leb d j && ltb j (d + rounds))
        then huge_entry p j
        else m.words f j)
unfolding fill_directory
word-fill_directory t p zero d m f j = ground arith
word-fill_directory t p (suc rounds) d m f j = ground (
  arith,
  word-fill_directory t p rounds (d + 1)
      (store m (t.page_directory + p) d (bit_or (p * page_size_1g + d * page_size_2m) 0x083)) f j,
  bit_or-huge p d,
)

-- The arrays are different pages, and their numbers fit in an entry.
abbrev pub Placed : Tables → Type 0
Placed t =
    (t.pdp_table < 2 ^ 40)
    × (t.page_directory + 64 ≤ 2 ^ 40)
    × ((t.pdp_table < t.page_directory) ⊎ (t.page_directory + 64 ≤ t.pdp_table))
    × ((t.pml4_table < t.page_directory) ⊎ (t.page_directory + 64 ≤ t.pml4_table))
    × (t.pml4_table ≢ t.pdp_table)

-- The machine after one round of the outer loop.
abbrev filled : Tables → ℕ → Machine → Machine
filled t p m =
    fill_directory t p 512 0 (store m t.pdp_table p (bit_or ((t.page_directory + p) * 4096) 0x003))

word-filled :
    (t : Tables) (p : ℕ) (m : Machine) (f j : ℕ)
    → Placed t
    → p < 64
    → (filled t p m).words f j ≡ (
        if f == t.page_directory + p && ltb j 512
        then huge_entry p j
        else if f == t.pdp_table && j == p
        then (t.page_directory + p) * 4096 + 3
        else m.words f j)
word-filled t p m f j placed lt = ground (
  arith,
  word-fill_directory t p 512 0
      (store m t.pdp_table p (bit_or ((t.page_directory + p) * 4096) 0x003)) f j,
  bit_or-table (t.page_directory + p),
)

pml4-fill_directories :
    (t : Tables) (rounds p : ℕ) (m : Machine) (j : ℕ)
    → Placed t
    → p + rounds ≤ 64
    → (fill_directories t rounds p m).words t.pml4_table j ≡ m.words t.pml4_table j
unfolding fill_directories
pml4-fill_directories t zero p m j placed le = refl
pml4-fill_directories t (suc rounds) p m j placed le =
    let rest = pml4-fill_directories t rounds (p + 1) (filled t p m) j placed (omega arith) in
    ground (arith, rest, word-filled t p m t.pml4_table j placed (omega arith), placed)

pdp-fill_directories :
    (t : Tables) (rounds p : ℕ) (m : Machine) (j : ℕ)
    → Placed t
    → p + rounds ≤ 64
    → (fill_directories t rounds p m).words t.pdp_table j ≡ (
        if leb p j && ltb j (p + rounds)
        then (t.page_directory + j) * 4096 + 3
        else m.words t.pdp_table j)
unfolding fill_directories
pdp-fill_directories t zero p m j placed le = ground arith
pdp-fill_directories t (suc rounds) p m j placed le =
    let rest = pdp-fill_directories t rounds (p + 1) (filled t p m) j placed (omega arith) in
    ground (arith, rest, word-filled t p m t.pdp_table j placed (omega arith), placed)

directory-fill_directories :
    (t : Tables) (rounds p : ℕ) (m : Machine) (q j : ℕ)
    → Placed t
    → p + rounds ≤ 64
    → q < 64
    → j < 512
    → (fill_directories t rounds p m).words (t.page_directory + q) j
      ≡ (if leb p q && ltb q (p + rounds) then huge_entry q j else m.words (t.page_directory + q) j)
unfolding fill_directories
directory-fill_directories t zero p m q j placed le h k = ground arith
directory-fill_directories t (suc rounds) p m q j placed le h k =
    let rest =
      directory-fill_directories t rounds (p + 1) (filled t p m) q j placed (omega arith) h k in
    ground (arith, rest, word-filled t p m (t.page_directory + q) j placed (omega arith), placed)

translate_by :
    (m : Machine) (addr pdp dir e4 e3 e2 : ℕ)
    → m.words m.cr3 (part 4 addr) ≡ e4
    → pointer e4 ≡ pdp
    → m.words pdp (part 3 addr) ≡ e3
    → pointer e3 ≡ dir
    → m.words dir (part 2 addr) ≡ e2
    → (present e4 ≡ true) × (huge_page e4 ≡ false)
    → (present e3 ≡ true) × (huge_page e3 ≡ false)
    → (present e2 ≡ true) × (huge_page e2 ≡ true)
    → translate m addr ≡ some (field 2097152 (2 ^ 31) e2 * 2097152 + addr % 2097152)
translate_by m addr pdp dir e4 e3 e2 a b c d e (p4, n4) (p3, n3) (p2, h) =
    rw a (rw b (rw c (rw d (rw e (rw (p4, n4, p3, n3, p2, h) refl)))))

-- After `SetupIdentityPageTable`, with the arrays at different pages, the processor translates every
-- address below 64 GiB to itself.
pub translate-setup_identity_page_table :
    (t : Tables) (m : Machine) (addr : ℕ)
    → Placed t
    → addr < 64 * page_size_1g
    → translate (setup_identity_page_table t m) addr ≡ some addr
unfolding setup_identity_page_table reset_cr3 part
translate-setup_identity_page_table t m addr placed lt =
    let m0 = store m t.pml4_table 0 (bit_or (t.pdp_table * 4096) 0x003) in
    let p = addr / 1073741824 in
    let d = addr / 2097152 % 512 in
    let e4 = pml4-fill_directories t 64 0 m0 0 placed (omega arith) in
    let e3 = pdp-fill_directories t 64 0 m0 p placed (omega arith) in
    let e2 =
      directory-fill_directories t 64 0 m0 p d placed (omega arith) (omega arith) (omega arith) in
    let a : part 4 addr ≡ 0 = omega arith in
    let b : part 3 addr ≡ p = omega arith in
    let in_range : (leb 0 p && ltb p (0 + 64)) ≡ true = ground arith in
    let found =
      translate_by (setup_identity_page_table t m) addr t.pdp_table (t.page_directory + p)
        (t.pdp_table * 4096 + 3) ((t.page_directory + p) * 4096 + 3) (huge_entry p d)
        (rw a (e4 ∙ ground (arith, bit_or-table t.pdp_table))) (omega (arith, placed))
        (rw b (rw in_range at e3)) (omega (arith, placed)) (rw in_range at e2)
        (ground arith, ground arith) (ground arith, ground arith) (ground arith, ground arith) in
    found ∙ ap some (omega arith)
