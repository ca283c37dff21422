-- ===== src/Memory.antt =====
-- The physical frame allocator, kernel/memory_manager.cpp: a bitmap with one bit for each 4 KiB
-- frame. A `FrameID` is its number. The map's words are `unsigned long`, 64 bits each.
--
-- Every sum `start_frame_id + i` of `Allocate` is at most `range_end_.ID() + 1`, far below 2 ^ 64, so
-- it is written without the wrap of `size_t`. Beyond the map, where `GetBit` and `SetBit` are undefined
-- in C++, a frame reads as free and a write changes nothing here; what the theorems say of a frame's bit is
-- said of frames that the map holds.
use Prim.Native.Nat.{bit_and, bit_or}
use kin_os.Base.{
  ℕ, zero, suc, ◌+◌, ◌-◌, ◌/◌, ◌%◌, ◌^◌, Bool, true, false, not, Option, none, some, List, ◌==◌,
  leb, if◌then◌else◌, get_or, set, length,
}
use kin_os.Base.Bits.{all_but}
use kin_os.Error.{Error, success, no_enough_memory, WithError}
pub mod Bits
pub mod Search
pub mod Laws
pub mod Map
mod Tests

pub record BitmapMemoryManager : Type 0 where
  pub alloc_map : List ℕ
  pub range_begin : ℕ
  pub range_end : ℕ

abbrev pub bits_per_map_line : ℕ
bits_per_map_line = 64

abbrev pub null_frame : ℕ
null_frame = 2 ^ 64 - 1

-- The word of `alloc_map_` that holds a frame's bit.
abbrev pub map_line : BitmapMemoryManager → ℕ → ℕ
map_line m frame = get_or m.alloc_map (frame / bits_per_map_line) 0

unfoldable pub get_bit : BitmapMemoryManager → ℕ → Bool
get_bit m frame = not (bit_and (map_line m frame) (2 ^ (frame % bits_per_map_line)) == 0)

unfoldable pub set_bit : BitmapMemoryManager → ℕ → Bool → BitmapMemoryManager
set_bit m frame allocated =
    let line = frame / bits_per_map_line in
    let bit = frame % bits_per_map_line in
    if allocated
    then record m { alloc_map = set m.alloc_map line (bit_or (map_line m frame) (2 ^ bit)) }
    else record m { alloc_map = set m.alloc_map line (bit_and (map_line m frame) (all_but 64 bit)) }

-- `for (i = from; i < from + rounds; ++i) SetBit(FrameID{start + i}, allocated)`
unfoldable pub set_bits : Bool → ℕ → ℕ → ℕ → BitmapMemoryManager → BitmapMemoryManager
set_bits allocated start zero i m = m
set_bits allocated start (suc rounds) i m =
    set_bits allocated start rounds (i + 1) (set_bit m (start + i) allocated)

unfoldable pub mark_allocated : BitmapMemoryManager → ℕ → ℕ → BitmapMemoryManager
mark_allocated m start_frame num_frames = set_bits true start_frame num_frames 0 m

pub free : BitmapMemoryManager → ℕ → ℕ → Error × BitmapMemoryManager
free m start_frame num_frames = (success, set_bits false start_frame num_frames 0 m)

pub set_memory_range : BitmapMemoryManager → ℕ → ℕ → BitmapMemoryManager
set_memory_range m range_begin range_end = record m {
  range_begin = range_begin;
  range_end = range_end;
}

-- How the inner loop of `Allocate` ends: with `i == num_frames`, by its `return`, by its `break` at `i`, or
-- with undefined behaviour, at a frame of the range that is beyond the map.
pub data Scan : Type 0 where
  all_free : Scan
  past_end : Scan
  used_at : ℕ → Scan
  beyond_map : Scan

-- The inner loop from `i` on, with `rounds` rounds to `num_frames`.
unfoldable pub scan : BitmapMemoryManager → ℕ → ℕ → ℕ → Scan
scan m start zero i = all_free
scan m start (suc rounds) i =
    let rest = scan m start rounds (i + 1) in
    if leb m.range_end (start + i)
    then past_end
    else if leb (length m.alloc_map) ((start + i) / bits_per_map_line)
    then beyond_map
    else if get_bit m (start + i)
    then used_at i
    else rest

-- The outer loop; `none` is undefined behaviour, or that the fuel ran out.
unfoldable pub allocate_from :
    ℕ → BitmapMemoryManager → ℕ → ℕ → Option (WithError ℕ × BitmapMemoryManager)
allocate_from zero m start num_frames = none
allocate_from (suc fuel) m start num_frames = elim (scan m start num_frames 0) [
  | all_free ↦ some (record { value = start; error = success }, mark_allocated m start num_frames)
  | past_end ↦ some (record { value = null_frame; error = no_enough_memory }, m)
  | used_at i ↦ allocate_from fuel m (start + (i + 1)) num_frames
  | beyond_map ↦ none
]

-- Each round of the outer loop moves the start on, and beyond the range the loop returns.
unfoldable pub allocate : BitmapMemoryManager → ℕ → Option (WithError ℕ × BitmapMemoryManager)
allocate m num_frames = allocate_from (m.range_end - m.range_begin + 2) m m.range_begin num_frames
