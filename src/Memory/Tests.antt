-- ===== src/Memory/Tests.antt =====
-- Runs of the frame allocator on a map of two words, 128 frames, and the theorems at such inputs.
use kin_os.Base.{ℕ, ◌+◌, ◌≤◌, ◌<◌, ◌≡◌, refl, ◌⊎◌, true, false, some, [], ◌∷◌, arith, List, length}
use kin_os.Error.{success, no_enough_memory}
use kin_os.Memory.{
  BitmapMemoryManager, get_bit, set_bit, set_bits, mark_allocated, scan, allocate_from, allocate,
  null_frame,
}
use kin_os.Memory.Bits.{InMap, in_run}
use kin_os.Memory.Search.{IsFree, HasUsed, NotFound}
use kin_os.Memory.Laws.{allocate-Allocated, allocate-allocate_disjoint}
use kin_os.Memory.Map.{
  MemoryDescriptor, conventional_memory, boot_services_code, memory_mapped_io, mark_map, mark_gap,
  in_available, mark_map_free,
}

-- Frames 0, 1 and 4 are in use, and 1 to 127 are the range.
abbrev small : BitmapMemoryManager
small = record { alloc_map = 0b10011 ∷ 0 ∷ []; range_begin = 1; range_end = 128 }

-- `small` with frames 5 to 7 in use too.
abbrev after_three : BitmapMemoryManager
after_three = record small { alloc_map = 0b11110011 ∷ 0 ∷ [] }

-- `small` with frames 2 and 3 in use too.
abbrev after_two : BitmapMemoryManager
after_two = record small { alloc_map = 0b11111 ∷ 0 ∷ [] }

allocates_three : allocate small 3 ≡ some (record { value = 5; error = success }, after_three)
unfolding allocate allocate_from scan get_bit mark_allocated set_bits set_bit
allocates_three = refl

allocates_two : allocate small 2 ≡ some (record { value = 2; error = success }, after_two)
unfolding allocate allocate_from scan get_bit mark_allocated set_bits set_bit
allocates_two = refl

allocates_too_much :
    allocate small 124 ≡ some (record { value = null_frame; error = no_enough_memory }, small)
unfolding allocate allocate_from scan get_bit
allocates_too_much = refl

allocates_more :
    allocate after_two 3
    ≡ some (record { value = 5; error = success }, record small { alloc_map = 0b11111111 ∷ 0 ∷ [] })
unfolding allocate allocate_from scan get_bit mark_allocated set_bits set_bit
allocates_more = refl

allocate-Allocated_example :
    ((s : ℕ) × (m' : BitmapMemoryManager) × (allocate small 3
        ≡ some (record { value = s; error = success }, m'))
      × (1 ≤ s)
      × (0 < 3 → s + 3 ≤ 128)
      × IsFree small s 3
      × ((t : ℕ) → 1 ≤ t → t < s → HasUsed small t 3)
      × ((i : ℕ) → i < 3 → get_bit m' (s + i) ≡ true)
      × ((g : ℕ) → InMap small g → in_run s 3 g ≡ false → get_bit m' g ≡ get_bit small g)
      × (length m'.alloc_map ≡ 2)
      × (m'.range_begin ≡ 1)
      × (m'.range_end ≡ 128))
    ⊎ NotFound small 3 (allocate small 3)
allocate-Allocated_example = allocate-Allocated small 3 (omega arith)

allocate-allocate_disjoint_example : in_run 5 3 3 ≡ false
allocate-allocate_disjoint_example =
    allocate-allocate_disjoint small after_two (record small { alloc_map = 0b11111111 ∷ 0 ∷ [] }) 2
      3 2 5 3 allocates_two allocates_more (omega arith) refl

-- Four pages to use, a hole, a page of a device, and two pages to use.
abbrev firmware : List MemoryDescriptor
firmware =
    record {
      type = conventional_memory;
      physical_start = 0;
      virtual_start = 0;
      number_of_pages = 4;
      attribute = 0;
    }
    ∷ record {
      type = memory_mapped_io;
      physical_start = 24576;
      virtual_start = 0;
      number_of_pages = 1;
      attribute = 0;
    }
    ∷ record {
      type = boot_services_code;
      physical_start = 28672;
      virtual_start = 0;
      number_of_pages = 2;
      attribute = 0;
    }
    ∷ []

abbrev empty : BitmapMemoryManager
empty = record { alloc_map = 0 ∷ 0 ∷ []; range_begin = 0; range_end = 128 }

marks : mark_map empty 0 firmware ≡ (36864, record empty { alloc_map = 0b1110000 ∷ 0 ∷ [] })
unfolding mark_map mark_gap mark_allocated set_bits set_bit
marks = refl

mark_map_free_example : in_available 8 firmware ≡ true
unfolding mark_map mark_gap mark_allocated set_bits set_bit get_bit
mark_map_free_example =
    mark_map_free empty 0 8 firmware (omega arith) (refl, (refl, (refl, tt))) refl (omega arith)
      (omega arith) refl
