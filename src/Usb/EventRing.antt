-- ===== src/Usb/EventRing.antt =====
-- `EventRing` of kernel/usb/xhci/ring.cpp: the ring that the controller fills and the driver empties.
-- Of the controller's registers only ERDP is modelled, the dequeue pointer, which the driver reads back;
-- a TRB has 16 bytes, and the pointer's low four bits are flags that writing it keeps.
use kin_os.Base.{
  ℕ, ◌+◌, ◌*◌, ◌/◌, ◌%◌, ◌^◌, ◌<◌, ◌≡◌, refl, Bool, true, false, not, Option, none, some, ◌==◌,
  if◌then◌else◌, Bool-cases, inl, inr, arith,
}
use kin_os.Error.{Error, success, no_enough_memory}

-- `segment_base` and `segment_size` are those of `erst_[0]`.
pub record EventRing : Type 0 where
  pub buf_size : ℕ
  pub cycle_bit : Bool
  pub segment_base : ℕ
  pub segment_size : ℕ
  pub erdp : ℕ

unfoldable pub read_dequeue_pointer : EventRing → ℕ
read_dequeue_pointer r = r.erdp / 16 * 16

unfoldable pub write_dequeue_pointer : EventRing → ℕ → EventRing
write_dequeue_pointer r p = record r { erdp = p / 16 * 16 + r.erdp % 16 }

-- `Initialize`, given what `AllocArray` answers for the ring and for the segment table. The size goes
-- into 16 bits.
unfoldable pub initialize : EventRing → ℕ → Option ℕ → Option ℕ → Error × EventRing
unfolding write_dequeue_pointer
initialize r buf_size none table =
    (no_enough_memory, record r { cycle_bit = true; buf_size = buf_size })
initialize r buf_size (some buf) none =
    (no_enough_memory, record r { cycle_bit = true; buf_size = buf_size })
initialize r buf_size (some buf) (some table) = (
  success,
  write_dequeue_pointer
      (record r {
        cycle_bit = true;
        buf_size = buf_size;
        segment_base = buf;
        segment_size = buf_size % 2 ^ 16;
      })
      buf,
)

-- `HasFront`, given the cycle bits of the TRBs in memory.
unfoldable pub has_front : (ℕ → Bool) → EventRing → Bool
unfolding read_dequeue_pointer
has_front cycle_at r =
    if r.cycle_bit
    then cycle_at (read_dequeue_pointer r)
    else not (cycle_at (read_dequeue_pointer r))

unfoldable pub pop : EventRing → EventRing
unfolding read_dequeue_pointer write_dequeue_pointer
pop r =
    let p = read_dequeue_pointer r + 16 in
    let segment_end = r.segment_base + r.segment_size * 16 in
    if p == segment_end
    then write_dequeue_pointer (record r { cycle_bit = not r.cycle_bit }) r.segment_base
    else write_dequeue_pointer r p

-- The driver is at place `i` of the segment, which begins at a multiple of 16.
pub record IsAt (r : EventRing) (i : ℕ) : Type 0 where
  pub base : r.segment_base % 16 ≡ 0
  pub inside : i < r.segment_size
  pub pointer : read_dequeue_pointer r ≡ r.segment_base + i * 16

-- After `Initialize` with both allocations, of 1 to 65535 TRBs, the driver is at the first place and
-- expects the cycle bit 1.
pub initialize-IsAt :
    (r : EventRing) (buf_size buf table : ℕ)
    → 0 < buf_size
    → buf_size < 2 ^ 16
    → buf % 16 ≡ 0
    → IsAt (initialize r buf_size (some buf) (some table)).1 0
      × ((initialize r buf_size (some buf) (some table)).1.cycle_bit ≡ true)
unfolding initialize write_dequeue_pointer read_dequeue_pointer
initialize-IsAt r buf_size buf table pos lt al =
    (record { base = al; inside = omega arith; pointer = omega arith }, refl)

-- `Pop` goes on to the next place; from the last one it goes back to the first, and only then it expects
-- the other cycle bit. The driver never leaves the segment.
pub pop-IsAt :
    (r : EventRing) (i : ℕ)
    → IsAt r i
    → IsAt (pop r) (if i + 1 == r.segment_size then 0 else i + 1)
      × ((pop r).cycle_bit ≡ (if i + 1 == r.segment_size then not r.cycle_bit else r.cycle_bit))
unfolding pop write_dequeue_pointer read_dequeue_pointer
pop-IsAt r i at = elim (Bool-cases (i + 1 == r.segment_size)) [
  | inl e ↦
      let c : (r.erdp / 16 * 16 + 16 == r.segment_base + r.segment_size * 16) ≡ true =
        ground (arith, at.pointer) in
      rw (e, c)
        (
          record {
            base = at.base;
            inside = omega (arith, at.inside);
            pointer = omega (arith, at.base);
          },
          refl,
        )
  | inr e ↦
      let c : (r.erdp / 16 * 16 + 16 == r.segment_base + r.segment_size * 16) ≡ false =
        ground (arith, at.pointer) in
      rw (e, c)
        (
          record {
            base = at.base;
            inside = ground (arith, at.inside);
            pointer = omega (arith, at.base, at.pointer);
          },
          refl,
        )
]
