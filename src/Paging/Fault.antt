-- ===== src/Paging/Fault.antt =====
-- `HandlePageFault`: demand paging and copy on write.
use kin_os.Base.{
  ℕ, ◌/◌, ◌%◌, ◌≤◌, ◌<◌, ◌≡◌, refl, true, false, ◌==◌, ◌&&◌, Option, some, leb, ltb, arith, ◌≢◌,
  Bool-cases, inl, inr, ◌⊎◌,
}
use kin_os.Error.{Error, success, index_out_of_range, no_enough_memory}
use kin_os.Paging.{Machine, setup_page_maps}
use kin_os.Paging.Numbers.{index, end}
use kin_os.Paging.Extends.{IsValid, Extends, Legal, Mapped, walk}
use kin_os.Paging.Setup.{SetUp, setup_page_maps-SetUp}
use kin_os.Paging.Ways.{leaf_table, Apart}
use kin_os.Paging.Copy.{Translates, CopyResult, copy_one_page-Copied}
use kin_os.Paging.Write.{DPaging, handle_page_fault}

-- The page of the address has a frame that the application may write, or there was no memory; in
-- either case the tables were only added to.
abbrev pub OnDemand : Machine → ℕ → Option (Error × Machine) → Type 0
OnDemand m addr r =
    (m' : Machine) × Extends true m m'
    × (((r ≡ some (success, m')) × (f : ℕ) × Mapped true 4 m' m'.cr3 (addr / 4096) f)
        ⊎ (r ≡ some (no_enough_memory, m')))

OnDemand-SetUp :
    (m : Machine) (addr : ℕ) (r : Option (Error × Machine))
    → SetUp true m addr 1 r
    → OnDemand m addr r
OnDemand-SetUp m addr r (m', ext, inl (e, covers)) =
    let above : addr / 4096 < end 4 (addr / 4096) = omega arith in
    let (f, h) = covers (addr / 4096) (omega arith) (omega arith) above in (m', ext, inl (e, f, h))
OnDemand-SetUp m addr r (m', ext, inr e) = (m', ext, inr e)

-- A fault at a page that is not present, on tables that are legal from the page's entry of the topmost
-- one on, or from one before it: within the task's range for demand paging the page gets a frame that
-- the application may write, or there is no memory, and what was in use or mapped stays so; outside of
-- the range it is an error and nothing changes.
pub handle_page_fault-OnDemand :
    (mmu : Machine → ℕ → ℕ) (task : DPaging) (error_code from addr : ℕ) (m : Machine)
    → error_code % 2 ≡ 0
    → IsValid m
    → Legal from 4 m m.cr3
    → from ≤ index 3 (addr / 4096)
    → let r = handle_page_fault mmu task error_code addr m in
      ((task.begin ≤ addr) × (addr < task.end) × OnDemand m addr r)
      ⊎ (((addr < task.begin) ⊎ (task.end ≤ addr)) × (r ≡ some (index_out_of_range, m)))
unfolding handle_page_fault
handle_page_fault-OnDemand mmu task error_code from addr m absent v legal le =
    let no_page : (error_code % 2 == 1) ≡ false = ground arith in
    elim (Bool-cases (leb task.begin addr && ltb addr task.end)) [
      | inl b ↦
          rw (no_page, b)
            (inl (
              ground arith,
              ground arith,
              OnDemand-SetUp m addr (setup_page_maps addr 1 true m)
                  (setup_page_maps-SetUp true from m addr 1 v legal le),
            ))
      | inr b ↦ rw (no_page, b) (inr (ground arith, refl))
    ]

-- A write of the application to a page that is present, on tables that are legal from the page's entry of
-- the topmost one on, or from one before it, where the page's table of level 1 is none
-- of those above it nor the page itself: the page gets a frame that was free, with the words of the old
-- one, and its entry is writable; the words of the old frame stay, and the pages of other entries, in
-- the legal part, keep their frames. Or there is no memory, and the tables were only added to.
pub handle_page_fault-Copied :
    (mmu : Machine → ℕ → ℕ) (task : DPaging) (error_code from addr : ℕ) (m : Machine) (f : ℕ)
    → error_code % 8 ≡ 7
    → Translates mmu
    → IsValid m
    → Legal from 4 m m.cr3
    → from ≤ index 3 (addr / 4096)
    → walk 4 m m.cr3 (addr / 4096) ≡ some f
    → Apart 3 m m.cr3 (addr / 4096) (leaf_table 3 m m.cr3 (addr / 4096))
    → f ≢ leaf_table 3 m m.cr3 (addr / 4096)
    → CopyResult from m (addr / 4096) f (handle_page_fault mmu task error_code addr m)
unfolding handle_page_fault
handle_page_fault-Copied mmu task error_code from addr m f bits reads v legal le h apart ne =
    let p : (error_code % 2 == 1) ≡ true = ground arith in
    let w : (error_code / 2 % 2 == 1) ≡ true = ground arith in
    let u : (error_code / 4 % 2 == 1) ≡ true = ground arith in
    rw (p, w, u) (copy_one_page-Copied mmu from addr m f reads v legal le h apart ne)
