-- ===== src/Paging/Identity.antt =====
-- `SetupIdentityPageTable`, kernel/paging.cpp: the kernel's tables map the first 64 GiB to themselves.
--
-- The three static arrays stand at pages that the linker chooses; these are arguments.
use Prim.Native.Nat.{bit_or}
use kin_os.Base.{ℕ, zero, suc, ◌+◌, ◌*◌}
use kin_os.Paging.{Machine, store}
pub mod Laws

abbrev pub page_directory_count : ℕ
page_directory_count = 64

abbrev pub page_size_2m : ℕ
page_size_2m = 2097152

abbrev pub page_size_1g : ℕ
page_size_1g = 1073741824

-- Where `pml4_table`, `pdp_table` and `page_directory` stand.
pub record Tables : Type 0 where
  pub pml4_table : ℕ
  pub pdp_table : ℕ
  pub page_directory : ℕ

-- The inner loop from `i_pd` on.
pub fill_directory : Tables → ℕ → ℕ → ℕ → Machine → Machine
fill_directory t i_pdpt zero i_pd m = m
fill_directory t i_pdpt (suc rounds) i_pd m = fill_directory t i_pdpt rounds (i_pd + 1) (
    store m (t.page_directory + i_pdpt) i_pd
      (bit_or (i_pdpt * page_size_1g + i_pd * page_size_2m) 0x083))

-- The outer loop from `i_pdpt` on.
pub fill_directories : Tables → ℕ → ℕ → Machine → Machine
fill_directories t zero i_pdpt m = m
fill_directories t (suc rounds) i_pdpt m = fill_directories t rounds (i_pdpt + 1) (
    fill_directory t i_pdpt 512 0
      (store m t.pdp_table i_pdpt (bit_or ((t.page_directory + i_pdpt) * 4096) 0x003)))

pub reset_cr3 : Tables → Machine → Machine
reset_cr3 t m = record m { cr3 = t.pml4_table }

pub setup_identity_page_table : Tables → Machine → Machine
setup_identity_page_table t m = reset_cr3 t (
    fill_directories t page_directory_count 0
      (store m t.pml4_table 0 (bit_or (t.pdp_table * 4096) 0x003)))
