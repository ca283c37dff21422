-- ===== src/Memory/Bits.antt =====
-- What the frame bitmap's operations do to each frame's bit.
use Prim.Native.Nat.{bit_and, bit_or}
use kin_os.Base.{
  ℕ, zero, suc, ◌+◌, ◌/◌, ◌%◌, ◌^◌, ◌<◌, ◌≡◌, refl, Bool, true, false, ◌&&◌, ◌==◌, leb, ltb,
  if◌then◌else◌, length, length-set, get_or-set_self, get_or-set_ne, arith, ◌∙◌, ap,
}
use kin_os.Base.Bits.{
  test_bit, all_but, test_bit-bit_and, test_bit-bit_or, test_bit-pow, test_bit-all_but,
  bit_and-pow-eq-zero,
}
use kin_os.Memory.{BitmapMemoryManager, map_line, get_bit, set_bit, set_bits}

-- A frame that the bitmap has a bit for.
abbrev pub InMap : BitmapMemoryManager → ℕ → Type 0
InMap m frame = frame / 64 < length m.alloc_map

pub get_bit-eq-test_bit :
    (m : BitmapMemoryManager) (f : ℕ) → get_bit m f ≡ test_bit (f % 64) (map_line m f)
unfolding get_bit
get_bit-eq-test_bit m f = ground (arith, bit_and-pow-eq-zero (f % 64) (map_line m f))

same_line : (m : BitmapMemoryManager) (f g : ℕ) → f / 64 ≡ g / 64 → map_line m f ≡ map_line m g
same_line m f g e = rw e

-- The two lines of a written word.
written : Bool → ℕ → ℕ → ℕ
written true w k = bit_or w (2 ^ k)
written false w k = bit_and w (all_but 64 k)

map_line-set_bit :
    (m : BitmapMemoryManager) (f g : ℕ) (b : Bool)
    → InMap m g
    → map_line (set_bit m f b) g
      ≡ (if f / 64 == g / 64 then written b (map_line m f) (f % 64) else map_line m g)
unfolding set_bit written
map_line-set_bit m f g true h = ground (
  arith,
  get_or-set_self m.alloc_map (f / 64) (bit_or (map_line m f) (2 ^ (f % 64))) 0,
  get_or-set_ne m.alloc_map (f / 64) (g / 64) (bit_or (map_line m f) (2 ^ (f % 64))) 0,
)
map_line-set_bit m f g false h = ground (
  arith,
  get_or-set_self m.alloc_map (f / 64) (bit_and (map_line m f) (all_but 64 (f % 64))) 0,
  get_or-set_ne m.alloc_map (f / 64) (g / 64) (bit_and (map_line m f) (all_but 64 (f % 64))) 0,
)

test_bit-written :
    (b : Bool) (w j k : ℕ)
    → j < 64
    → k < 64
    → test_bit j (written b w k) ≡ (if k == j then b else test_bit j w)
unfolding written
test_bit-written true w j k hj hk = ground (arith, test_bit-bit_or j w (2 ^ k), test_bit-pow j k)
test_bit-written false w j k hj hk =
    ground (arith, test_bit-bit_and j w (all_but 64 k), test_bit-all_but j k 64)

same_frame : (f g : ℕ) → f / 64 ≡ g / 64 → f % 64 ≡ g % 64 → f ≡ g
same_frame f g p q = omega arith

-- `SetBit` writes the frame's own bit and no other.
pub get_bit-set_bit :
    (m : BitmapMemoryManager) (f g : ℕ) (b : Bool)
    → InMap m g
    → get_bit (set_bit m f b) g ≡ (if f == g then b else get_bit m g)
get_bit-set_bit m f g b h =
    rw (get_bit-eq-test_bit (set_bit m f b) g, get_bit-eq-test_bit m g)
      (ground (
        arith,
        ap (test_bit (g % 64)) (map_line-set_bit m f g b h),
        λ (e : f / 64 ≡ g / 64). ap (test_bit (g % 64)) (same_line m f g e),
        test_bit-written b (map_line m f) (g % 64) (f % 64),
        same_frame f g,
      ))

pub length-set_bit :
    (m : BitmapMemoryManager) (f : ℕ) (b : Bool)
    → length (set_bit m f b).alloc_map ≡ length m.alloc_map
unfolding set_bit
length-set_bit m f true = length-set m.alloc_map (f / 64) _
length-set_bit m f false = length-set m.alloc_map (f / 64) _

range-set_bit :
    (m : BitmapMemoryManager) (f : ℕ) (b : Bool)
    → ((set_bit m f b).range_begin ≡ m.range_begin) × ((set_bit m f b).range_end ≡ m.range_end)
unfolding set_bit
range-set_bit m f true = (refl, refl)
range-set_bit m f false = (refl, refl)

-- Whether `g` is one of the `n` frames from `s` on.
abbrev pub in_run : ℕ → ℕ → ℕ → Bool
in_run s n g = leb s g && ltb g (s + n)

pub length-set_bits :
    (b : Bool) (s n i : ℕ) (m : BitmapMemoryManager)
    → length (set_bits b s n i m).alloc_map ≡ length m.alloc_map
unfolding set_bits
length-set_bits b s zero i m = refl
length-set_bits b s (suc n) i m =
    length-set_bits b s n (i + 1) (set_bit m (s + i) b) ∙ length-set_bit m (s + i) b

pub range-set_bits :
    (b : Bool) (s n i : ℕ) (m : BitmapMemoryManager)
    → ((set_bits b s n i m).range_begin ≡ m.range_begin)
      × ((set_bits b s n i m).range_end ≡ m.range_end)
unfolding set_bits
range-set_bits b s zero i m = (refl, refl)
range-set_bits b s (suc n) i m =
    ground (arith, range-set_bits b s n (i + 1) (set_bit m (s + i) b), range-set_bit m (s + i) b)

pub get_bit-set_bits :
    (b : Bool) (s n i : ℕ) (m : BitmapMemoryManager) (g : ℕ)
    → InMap m g
    → get_bit (set_bits b s n i m) g ≡ (if in_run (s + i) n g then b else get_bit m g)
unfolding set_bits
get_bit-set_bits b s zero i m g h = ground arith
get_bit-set_bits b s (suc n) i m g h = ground (
  arith,
  get_bit-set_bits b s n (i + 1) (set_bit m (s + i) b) g,
  length-set_bit m (s + i) b,
  get_bit-set_bit m (s + i) g b h,
)
