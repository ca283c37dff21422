-- ===== src/Memory/Map.antt =====
-- The memory map of the firmware, kernel/memory_map.hpp, and `InitializeMemoryManager` and
-- `InitializeHeap` of kernel/memory_manager.cpp, which set the allocator up from it. The buffer of
-- descriptors is their list. Addresses have 64 bits. `none` is the exit upon an error.
use kin_os.Base.{
  ℕ, ◌+◌, ◌-◌, ◌*◌, ◌/◌, ◌%◌, ◌^◌, ◌≤◌, ◌<◌, ◌≡◌, refl, ap, Bool, true, false, ◌||◌, ◌&&◌, Option,
  none, some, List, [], ◌∷◌, ltb, leb, if◌then◌else◌, Bool-cases, inl, inr, arith,
}
use kin_os.Error.{success}
use kin_os.Memory.{BitmapMemoryManager, get_bit, mark_allocated, set_memory_range, allocate}
use kin_os.Memory.Bits.{InMap, in_run}
use kin_os.Memory.Laws.{get_bit-mark_allocated, mark_allocated-keeps}

pub data MemoryType : Type 0 where
  reserved_memory_type loader_code loader_data boot_services_code boot_services_data : MemoryType
  runtime_services_code runtime_services_data conventional_memory unusable_memory : MemoryType
  acpi_reclaim_memory acpi_memory_nvs memory_mapped_io memory_mapped_io_port_space : MemoryType
  pal_code persistent_memory max_memory_type : MemoryType

pub record MemoryDescriptor : Type 0 where
  pub type : MemoryType
  pub physical_start : ℕ
  pub virtual_start : ℕ
  pub number_of_pages : ℕ
  pub attribute : ℕ

abbrev pub is_available : MemoryType → Bool
is_available boot_services_code = true
is_available boot_services_data = true
is_available conventional_memory = true
is_available _ = false

abbrev pub page_size : ℕ
page_size = 4096

-- `number_of_pages * kUEFIPageSize`, and `physical_end`.
abbrev pub bytes_of : MemoryDescriptor → ℕ
bytes_of d = d.number_of_pages * page_size % 2 ^ 64

abbrev pub physical_end : MemoryDescriptor → ℕ
physical_end d = (d.physical_start + bytes_of d) % 2 ^ 64

-- What is between the end of the available memory so far and the descriptor's start is marked.
unfoldable pub mark_gap : BitmapMemoryManager → ℕ → MemoryDescriptor → BitmapMemoryManager
mark_gap m available_end d =
    if ltb available_end d.physical_start
    then mark_allocated m (available_end / page_size)
        ((d.physical_start - available_end) / page_size)
    else m

-- The loop over the descriptors: the end of the available memory, and the allocator.
unfoldable pub mark_map : BitmapMemoryManager → ℕ → List MemoryDescriptor → ℕ × BitmapMemoryManager
unfolding mark_gap
mark_map m available_end [] = (available_end, m)
mark_map m available_end (d ∷ ds) =
    let gap = mark_gap m available_end d in
    let next = mark_map gap (physical_end d) ds in
    let marked = mark_allocated gap (d.physical_start / page_size) (bytes_of d / page_size) in
    let skip = mark_map marked available_end ds in if is_available d.type then next else skip

abbrev pub heap_frames : ℕ
heap_frames = 64 * 512

-- `InitializeHeap`: the program break and its end.
unfoldable pub initialize_heap : BitmapMemoryManager → Option (ℕ × ℕ × BitmapMemoryManager)
initialize_heap m = elim (allocate m heap_frames) [
  | none ↦ none
  | some (heap_start, m') ↦ elim heap_start.error [
    | success ↦
        some
          (heap_start.value * page_size, heap_start.value * page_size + heap_frames * page_size, m')
    | _ ↦ none
  ]
]

unfoldable pub initialize_memory_manager :
    BitmapMemoryManager → List MemoryDescriptor → Option (ℕ × ℕ × BitmapMemoryManager)
unfolding mark_map initialize_heap
initialize_memory_manager m ds =
    let (available_end, m') = mark_map m 0 ds in
    initialize_heap (set_memory_range m' 1 (available_end / page_size))

-- The firmware's descriptors start at pages.
abbrev pub Aligned : List MemoryDescriptor → Type 0
Aligned [] = Unit {0}
Aligned (d ∷ ds) = (d.physical_start % page_size ≡ 0) × Aligned ds

-- A descriptor of available memory has the frame.
abbrev pub in_available : ℕ → List MemoryDescriptor → Bool
in_available g [] = false
in_available g (d ∷ ds) =
    (is_available d.type
      && (leb d.physical_start (g * page_size) && ltb (g * page_size) (physical_end d)))
    || in_available g ds

mark_keeps :
    (m : BitmapMemoryManager) (s n g : ℕ)
    → InMap m g
    → InMap (mark_allocated m s n) g
      × (get_bit m g ≡ true → get_bit (mark_allocated m s n) g ≡ true)
mark_keeps m s n g h =
    (omega (arith, mark_allocated-keeps m s n, h), ground (arith, get_bit-mark_allocated m s n g h))

gap_keeps :
    (m : BitmapMemoryManager) (e : ℕ) (d : MemoryDescriptor) (g : ℕ)
    → InMap m g
    → InMap (mark_gap m e d) g × (get_bit m g ≡ true → get_bit (mark_gap m e d) g ≡ true)
unfolding mark_gap
gap_keeps m e d g h = elim (Bool-cases (ltb e d.physical_start)) [
  | inl lt ↦ rw lt (mark_keeps m (e / page_size) ((d.physical_start - e) / page_size) g h)
  | inr ge ↦ rw ge (h, λ b. b)
]

-- A frame of the gap is marked.
gap_marks :
    (m : BitmapMemoryManager) (e : ℕ) (d : MemoryDescriptor) (g : ℕ)
    → InMap m g
    → e % page_size ≡ 0
    → d.physical_start % page_size ≡ 0
    → e ≤ g * page_size
    → g * page_size < d.physical_start
    → get_bit (mark_gap m e d) g ≡ true
unfolding mark_gap
gap_marks m e d g h ae ad le lt =
    let c : ltb e d.physical_start ≡ true = ground arith in
    let i : in_run (e / page_size) ((d.physical_start - e) / page_size) g ≡ true = ground arith in
    rw c (
      ground (
        arith,
        get_bit-mark_allocated m (e / page_size) ((d.physical_start - e) / page_size) g h,
        i,
      ))

mark_map_nil : (m : BitmapMemoryManager) (e : ℕ) → mark_map m e [] ≡ (e, m)
unfolding mark_map
mark_map_nil m e = refl

mark_map_cons :
    (m : BitmapMemoryManager) (e : ℕ) (d : MemoryDescriptor) (ds : List MemoryDescriptor)
    → mark_map m e (d ∷ ds) ≡ (
        if is_available d.type
        then mark_map (mark_gap m e d) (physical_end d) ds
        else mark_map
            (mark_allocated
              (mark_gap m e d)
              (d.physical_start / page_size)
              (bytes_of d / page_size))
            e
            ds)
unfolding mark_map
mark_map_cons m e d ds = refl

mark_map_keeps :
    (m : BitmapMemoryManager) (e g : ℕ) (ds : List MemoryDescriptor)
    → InMap m g
    → get_bit m g ≡ true
    → get_bit (mark_map m e ds).1 g ≡ true
mark_map_keeps m e g [] h b = unfold mark_map in b
mark_map_keeps m e g (d ∷ ds) h b =
    let (h1, k1) = gap_keeps m e d g h in
    let (h2, k2) =
      mark_keeps (mark_gap m e d) (d.physical_start / page_size) (bytes_of d / page_size) g h1 in
    rw (mark_map_cons m e d ds) (elim (Bool-cases (is_available d.type)) [
      | inl a ↦ rw a (mark_map_keeps (mark_gap m e d) (physical_end d) g ds h1 (k1 b))
      | inr a ↦ rw a (
          mark_map_keeps
            (mark_allocated (mark_gap m e d) (d.physical_start / page_size)
              (bytes_of d / page_size))
            e g ds h2 (k2 (k1 b)))
    ])

-- A frame of the map before the end of the available memory that the loop over the descriptors leaves
-- free lies in one of available memory: what is between them, and what is not available, is never handed
-- out. The descriptors start at pages.
pub mark_map_free :
    (m : BitmapMemoryManager) (e g : ℕ) (ds : List MemoryDescriptor)
    → InMap m g
    → Aligned ds
    → e % page_size ≡ 0
    → e ≤ g * page_size
    → g * page_size < (mark_map m e ds).0
    → get_bit (mark_map m e ds).1 g ≡ false
    → in_available g ds ≡ true
mark_map_free m e g [] h al ae le lt free =
    absurd (omega (arith, ap (λ (r : ℕ × BitmapMemoryManager). r.0) (mark_map_nil m e)))
mark_map_free m e g (d ∷ ds) h (ad, al) ae le lt free =
    let gap : BitmapMemoryManager = mark_gap m e d in
    let h1 : InMap gap g = (gap_keeps m e d g h).0 in
    let marked : BitmapMemoryManager =
      mark_allocated gap (d.physical_start / page_size) (bytes_of d / page_size) in
    let h2 : InMap marked g =
      (mark_keeps gap (d.physical_start / page_size) (bytes_of d / page_size) g h1).0 in
    let in_gap : g * page_size < d.physical_start → get_bit gap g ≡ true =
      gap_marks m e d g h ae ad le in
    elim (Bool-cases (is_available d.type)) [
      | inl a ↦
          let lt' : g * page_size < (mark_map gap (physical_end d) ds).0 =
            ground (arith, mark_map_cons m e d ds) in
          let free' : get_bit (mark_map gap (physical_end d) ds).1 g ≡ false =
            ground (arith, mark_map_cons m e d ds) in
          elim (Bool-cases (ltb (g * page_size) d.physical_start)) [
            | inl c ↦
                let used : get_bit (mark_map gap (physical_end d) ds).1 g ≡ true =
                  mark_map_keeps gap (physical_end d) g ds h1 (in_gap (ground arith)) in
                absurd (ground arith)
            | inr c ↦ elim (Bool-cases (ltb (g * page_size) (physical_end d))) [
              | inl f ↦ ground arith
              | inr f ↦
                  let rest : in_available g ds ≡ true =
                    mark_map_free gap (physical_end d) g ds h1 al (omega arith) (ground arith) lt'
                      free' in
                  ground arith
            ]
          ]
      | inr a ↦
          let lt' : g * page_size < (mark_map marked e ds).0 =
            ground (arith, mark_map_cons m e d ds) in
          let free' : get_bit (mark_map marked e ds).1 g ≡ false =
            ground (arith, mark_map_cons m e d ds) in
          ground (arith, mark_map_free marked e g ds h2 al ae le lt' free')
    ]
