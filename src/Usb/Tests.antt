-- ===== src/Usb/Tests.antt =====
-- Runs of the driver's structures, and the theorems at such states.
use kin_os.Base.{ℕ, ◌≡◌, refl, false, none, some, List, [], ◌∷◌, arith, true}
use kin_os.Usb.ArrayMap.{Table}
use kin_os.Usb.Pool.{
  Pool, ceil, aligned, past_boundary, alloc_mem, Block, Allocs, no_call, given, refused, InTurn,
  alloc_mem-InTurn,
}
use kin_os.Usb.Ring.{
  Trb, Ring, initialize, copy_to_last, wrap, push, IsValid, initialize-IsValid, Pushed, push-Pushed,
}
use kin_os.Usb.EventRing.{EventRing, initialize as start_events, read_dequeue_pointer, IsAt}

abbrev two_keys : Table ℕ
two_keys = (some 3, 30) ∷ (none, 0) ∷ (some 5, 50) ∷ []

abbrev pool : Pool
pool = record { base = 4096; size = 8192; alloc_ptr = 4100 }

-- Sixty-four bytes at a multiple of 64, inside one page.
aligned_alloc : alloc_mem pool 64 64 4096 ≡ (some 4160, record pool { alloc_ptr = 4224 })
unfolding alloc_mem aligned past_boundary ceil
aligned_alloc = refl

-- The next 4096 bytes begin at the next page; then there is no room for as many again.
abbrev page_alloc : Pool
page_alloc = record pool { alloc_ptr = 12288 }

next_page : alloc_mem (record pool { alloc_ptr = 4224 }) 4096 64 4096 ≡ (some 8192, page_alloc)
unfolding alloc_mem aligned past_boundary ceil
next_page = refl

no_room : alloc_mem page_alloc 4096 64 4096 ≡ (none, page_alloc)
unfolding alloc_mem aligned past_boundary ceil
no_room = refl

first_alloc :
    alloc_mem (record pool { alloc_ptr = 4096 }) 128 64 4096
    ≡ (some 4096, record pool { alloc_ptr = 4224 })
unfolding alloc_mem aligned past_boundary ceil
first_alloc = refl

abbrev two_blocks : List Block
two_blocks =
    record { start = 4096; size = 128; a = 6; b = 12 }
    ∷ record { start = 8192; size = 4096; a = 6; b = 12 }
    ∷ []

two_given : Allocs (record pool { alloc_ptr = 4096 }) two_blocks
two_given = given (omega arith) first_alloc (
    given (omega arith) next_page
      (refused {size = 4096} {a = 6} {b = 12} (omega arith) no_room no_call))

alloc_mem-InTurn_example : InTurn 4096 12288 two_blocks
alloc_mem-InTurn_example = alloc_mem-InTurn 4096 8192 two_blocks two_given

abbrev no_ring : Ring
no_ring = record { base = 0; buf = []; buf_size = 0; cycle_bit = false; write_index = 0 }

abbrev three : Ring
three = (initialize no_ring 3 (some 64)).1

three-IsValid : IsValid three
three-IsValid = initialize-IsValid no_ring 3 64 (omega arith)

abbrev a_trb : Trb
a_trb = record { d0 = 1; d1 = 2; d2 = 3; d3 = 4096 }

-- The second TRB fills the ring: the link is written and the cycle bit flips.
abbrev twice : Ring
twice = (push (push three a_trb).1 a_trb).1

flips : (twice.cycle_bit ≡ false) × (twice.write_index ≡ 0)
unfolding push wrap copy_to_last initialize
flips = (refl, refl)

push-Pushed_example : Pushed three a_trb (push three a_trb)
push-Pushed_example = push-Pushed a_trb three-IsValid

abbrev no_events : EventRing
no_events = record { buf_size = 0; cycle_bit = false; segment_base = 0; segment_size = 0; erdp = 8 }

abbrev events : EventRing
events = (start_events no_events 2 (some 64) (some 128)).1

abbrev second : EventRing
second = record { buf_size = 2; cycle_bit = true; segment_base = 64; segment_size = 2; erdp = 88 }

second-IsAt : IsAt second 1
unfolding read_dequeue_pointer
second-IsAt = record { base = refl; inside = omega arith; pointer = refl }
