-- ===== src/Paging/Tests.antt =====
-- Runs of the paging code on tables of four pages, and the theorems at such inputs.
use kin_os.Base.{
  ℕ, ◌+◌, ◌≤◌, ◌<◌, ◌≡◌, refl, true, false, ◌==◌, Option, some, none, arith, inl, ◌⊎◌, [], ◌∷◌,
  if◌then◌else◌,
}
use kin_os.Error.{success, index_out_of_range, no_enough_memory}
use kin_os.Memory.{get_bit, allocate, allocate_from, scan, mark_allocated, set_bits, set_bit}
use kin_os.Paging.{
  Machine, part, set_part, setup_page_maps, present, pointer, setup_page_map, setup_loop,
  setup_round, setup_rest, setup_entry, next_addr, clear_parts, set_new_page_map_if_not_present,
  new_page_map, set_present, set_pointer, set_user, set_writable,
}
use kin_os.Paging.Extends.{IsValid, Legal, walk}
use kin_os.Paging.Setup.{SetUp, setup_page_maps-SetUp, setup_page_maps-walk}
use kin_os.Paging.Identity.{Tables, setup_identity_page_table}
use kin_os.Paging.Identity.Laws.{translate, translate-setup_identity_page_table}
use kin_os.Paging.Copy.{Translates, CopyResult}
use kin_os.Paging.Share.{Source, Keeps}
use kin_os.Paging.CopyLoop.{SharedPage, copy_page_maps-SharedPage}
use kin_os.Paging.Write.{copy_page_maps, DPaging, handle_page_fault}
use kin_os.Paging.Fault.{OnDemand, handle_page_fault-OnDemand, handle_page_fault-Copied}

-- Frames 0 to 4 are in use; page 1 is the empty table of level 4.
abbrev empty_tables : Machine
empty_tables = record {
  words = λ page i. 0;
  frames = record { alloc_map = 0b11111 ∷ []; range_begin = 1; range_end = 64 };
  cr3 = 1;
}

empty_tables-IsValid : IsValid empty_tables
empty_tables-IsValid = (omega arith, omega arith)

empty_tables-Legal : Legal 0 4 empty_tables 1
unfolding get_bit
empty_tables-Legal = ((omega arith, refl), λ i le p. absurd (ground arith))

setup_page_maps-SetUp_example :
    SetUp true empty_tables 0x1ff000 2 (setup_page_maps 0x1ff000 2 true empty_tables)
setup_page_maps-SetUp_example =
    setup_page_maps-SetUp true 0 empty_tables 0x1ff000 2 empty_tables-IsValid empty_tables-Legal
      (omega arith)

-- Pages on both sides of a directory's end take five tables more and two frames.
frame_of : ℕ → ℕ → ℕ → Option ℕ
frame_of addr n page = elim (setup_page_maps addr n true empty_tables) [
  | none ↦ none
  | some r ↦ walk 4 r.1 r.1.cr3 page
]

sets_up : frame_of 0x1ff000 2 0x200 ≡ some 10
unfolding frame_of setup_page_maps setup_page_map setup_loop setup_round setup_rest setup_entry
    next_addr clear_parts set_part part set_new_page_map_if_not_present new_page_map set_present
    set_pointer set_user set_writable get_bit allocate allocate_from scan mark_allocated set_bits
    set_bit
sets_up = refl

-- Page 0 is in frame 0, by the tables 1 to 4.
abbrev one_page : Machine
one_page = record empty_tables {
  words = λ page i.
      if i == 0
      then (if page == 1
          then 0x2007
          else if page == 2
          then 0x3007
          else if page == 3
          then 0x4007
          else if page == 4
          then 0x5
          else 0)
      else 0;
}

one_page-IsValid : IsValid one_page
one_page-IsValid = (omega arith, omega arith)

one_page-pointer :
    (table i : ℕ)
    → 0 < table
    → table < 5
    → present (one_page.words table i) ≡ true
    → pointer (one_page.words table i) ≡ (if table == 4 then 0 else table + 1)
one_page-pointer table i lo hi p = ground arith

one_page-Legal : Legal 0 4 one_page 1
unfolding get_bit
one_page-Legal = (
  (omega arith, refl),
  λ i le p. rw (one_page-pointer 1 i (omega arith) (omega arith) p) (
    (omega arith, refl),
    λ i le p. rw (one_page-pointer 2 i (omega arith) (omega arith) p) (
      (omega arith, refl),
      λ i le p. rw (one_page-pointer 3 i (omega arith) (omega arith) p) (
        (omega arith, refl),
        λ i le p. rw (one_page-pointer 4 i (omega arith) (omega arith) p) (omega arith, refl),
      ),
    ),
  ),
)

abbrev mmu : Machine → ℕ → ℕ
mmu m page = elim (walk 4 m m.cr3 page) [ none ↦ 0 | some f ↦ f ]

mmu-Translates : Translates mmu
mmu-Translates m page f h = rw (h, mmu) refl

abbrev task : DPaging
task = record { begin = 0x2000; end = 0x8000 }

handle_page_fault-Copied_example :
    CopyResult 0 one_page 0 0 (handle_page_fault mmu task 7 0x123 one_page)
handle_page_fault-Copied_example =
    handle_page_fault-Copied mmu task 7 0 0x123 one_page 0 refl mmu-Translates one_page-IsValid
      one_page-Legal (omega arith) refl
      (
        (λ e. absurd (omega (arith, e))),
        ((λ e. absurd (omega (arith, e))), ((λ e. absurd (omega (arith, e))), tt)),
      )
      (λ e. absurd (omega (arith, e)))

handle_page_fault-OnDemand_example :
    ((0x2000 ≤ 0x3000)
      × (0x3000 < 0x8000)
      × OnDemand one_page 0x3000 (handle_page_fault mmu task 6 0x3000 one_page))
    ⊎ (((0x3000 < 0x2000) ⊎ (0x8000 ≤ 0x3000))
        × (handle_page_fault mmu task 6 0x3000 one_page ≡ some (index_out_of_range, one_page)))
handle_page_fault-OnDemand_example =
    handle_page_fault-OnDemand mmu task 6 0 0x3000 one_page refl one_page-IsValid one_page-Legal
      (omega arith)

abbrev arrays : Tables
arrays = record { pml4_table = 0x200; pdp_table = 0x201; page_directory = 0x202 }

translate-setup_identity_page_table_example :
    translate (setup_identity_page_table arrays empty_tables) 0xfee000b0 ≡ some 0xfee000b0
translate-setup_identity_page_table_example =
    translate-setup_identity_page_table arrays empty_tables 0xfee000b0
      (omega arith, omega arith, inl (omega arith), inl (omega arith), (λ e. omega (arith, e)))
      (omega arith)

after_setup : Machine
after_setup = elim (setup_page_maps 0x3000 1 false one_page) [ none ↦ one_page | some r ↦ r.1 ]

sets_up_one : setup_page_maps 0x3000 1 false one_page ≡ some (success, after_setup)
unfolding after_setup setup_page_maps setup_page_map setup_loop setup_round setup_rest setup_entry
    next_addr clear_parts set_part part set_new_page_map_if_not_present new_page_map set_present
    set_pointer set_user set_writable get_bit allocate allocate_from scan mark_allocated set_bits
    set_bit
sets_up_one = refl

setup_page_maps-walk_example :
    (walk 4 after_setup after_setup.cr3 0 ≡ some 0) × Legal 0 4 after_setup after_setup.cr3
setup_page_maps-walk_example =
    setup_page_maps-walk false 0 one_page after_setup 0x3000 1 0 0 success one_page-IsValid
      one_page-Legal (omega arith) (omega arith) sets_up_one refl

-- One page's tables once more, and page 5 for the copy of the topmost one.
abbrev two_maps : Machine
two_maps = record one_page {
  frames = record { alloc_map = 0b111111 ∷ []; range_begin = 1; range_end = 64 };
}

two_maps-Source : Source 0 4 two_maps 5 1
unfolding get_bit
two_maps-Source = (
  (omega arith, refl),
  (λ e. absurd (omega (arith, e))),
  λ i le p. rw (one_page-pointer 1 i (omega arith) (omega arith) p) (
    (omega arith, refl),
    (λ e. absurd (omega (arith, e))),
    λ i le p. rw (one_page-pointer 2 i (omega arith) (omega arith) p) (
      (omega arith, refl),
      (λ e. absurd (omega (arith, e))),
      λ i le p. rw (one_page-pointer 3 i (omega arith) (omega arith) p) (
        (omega arith, refl),
        (λ e. absurd (omega (arith, e))),
        λ i le p.
            rw (one_page-pointer 4 i (omega arith) (omega arith) p)
              ((omega arith, refl), (λ e. absurd (omega (arith, e)))),
      ),
    ),
  ),
)

copy_page_maps-SharedPage_example :
    (m' : Machine) × Keeps 5 two_maps m'
    × (((copy_page_maps 4 5 1 0 two_maps ≡ some (success, m')) × SharedPage m' 5 1 0 0)
        ⊎ (copy_page_maps 4 5 1 0 two_maps ≡ some (no_enough_memory, m')))
unfolding get_bit
copy_page_maps-SharedPage_example =
    copy_page_maps-SharedPage 5 1 0 0 0 two_maps (omega arith, omega arith) (omega arith, refl)
      two_maps-Source (omega arith) refl
