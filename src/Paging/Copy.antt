-- ===== src/Paging/Copy.antt =====
-- Copy on write of one page: what `CopyOnePage` does to the page and to its tables.
use kin_os.Base.{
  ℕ, zero, suc, ◌/◌, ◌^◌, ◌<◌, ◌≤◌, ◌≡◌, refl, ap, ◌∙◌, true, false, Option, some, and_then, arith,
  ◌≢◌, inl, inr, ◌⊎◌,
}
use kin_os.Error.{Error, success, WithError, no_enough_memory}
use kin_os.Memory.{get_bit}
use kin_os.Paging.{
  Machine, present, writable, user, pointer, set_pointer, set_writable, store, store_page,
  new_page_map,
}
use kin_os.Paging.Fields.{Reads-set_pointer, Reads-set_writable, Reads}
use kin_os.Paging.Numbers.{index, part-eq-index}
use kin_os.Paging.Extends.{Extends-refl, IsValid, Extends, Legal, walk, walk-Extends}
use kin_os.Paging.Entry.{News, fresh, failed, new_page_map_lem}
use kin_os.Paging.Flags.{word-here}
use kin_os.Paging.Write.{set_page_content, copy_to_new, copy_one_page}
use kin_os.Paging.Ways.{
  leaf_table, Apart, walk_changed, leaf_table-Extends, walk-Used, Extends-fill, walk_other,
}

-- The processor reads a page where the tables have it.
abbrev pub Translates : (Machine → ℕ → ℕ) → Type 0
Translates mmu = (m : Machine) (page f : ℕ) → walk 4 m m.cr3 page ≡ some f → mmu m page ≡ f

-- The writes of `SetPageContent` at level 1.
abbrev written : Machine → ℕ → ℕ → ℕ → Machine
written m table i content =
    let pointed = store m table i (set_pointer content (m.words table i)) in
    store pointed table i (set_writable true (pointed.words table i))

set_page_content_lem :
    (depth addr table content leaf : ℕ) (m : Machine)
    → depth < 4
    → leaf_table depth m table (addr / 4096) ≡ leaf
    → set_page_content (suc depth) addr table content m
      ≡ some (success, written m leaf (index 0 (addr / 4096)) content)
unfolding set_page_content
set_page_content_lem zero addr table content leaf m h e = rw (part-eq-index 0 addr h) (rw e refl)
set_page_content_lem (suc depth) addr table content leaf m h e =
    rw (part-eq-index (suc depth) addr h) (
      set_page_content_lem depth addr (pointer (m.words table (index (suc depth) (addr / 4096))))
        content leaf m (omega arith) e)

written-Reads :
    (m : Machine) (table i content : ℕ)
    → content < 2 ^ 40
    → let e = m.words table i in
      Reads ((written m table i content).words table i) (present e) true (user e) content
written-Reads m table i content h =
    let e = m.words table i in
    let pointed = store m table i (set_pointer content e) in
    let a = Reads-set_pointer content e h in
    let b = Reads-set_writable true (set_pointer content e) in
    rw (word-here pointed table i (set_writable true (pointed.words table i)))
      (rw (word-here m table i (set_pointer content e)) (b.0 ∙ a.0, b.1, b.2 ∙ a.2, b.3 ∙ a.3))

word-written :
    (m : Machine) (table i content p j : ℕ)
    → (p ≢ table) ⊎ (j ≢ i)
    → (written m table i content).words p j ≡ m.words p j
word-written m table i content p j (inl ne) = ground (arith, ne)
word-written m table i content p j (inr ne) = ground (arith, ne)

-- `page`, which was read in the frame `f`, has a frame of its own now, one that was free, with the same
-- words, and its entry is writable; the words of `f` stay, and so do the frames of the pages of other
-- entries.
abbrev pub Copied : ℕ → Machine → ℕ → ℕ → Machine → Type 0
Copied from m page f m' =
    let leaf = leaf_table 3 m m.cr3 page in
    let i = index 0 page in
    (g : ℕ) × (get_bit m.frames g ≡ false)
    × (walk 4 m' m'.cr3 page ≡ some g)
    × (writable (m'.words (leaf_table 3 m' m'.cr3 page) i) ≡ true)
    × ((j : ℕ) → m'.words g j ≡ m.words f j)
    × ((j : ℕ) → m'.words f j ≡ m.words f j)
    × ((other h : ℕ)
        → from ≤ index 3 other
        → walk 4 m m.cr3 other ≡ some h
        → (leaf_table 3 m m.cr3 other ≢ leaf) ⊎ (index 0 other ≢ i)
        → Apart 3 m m.cr3 other leaf
        → walk 4 m' m'.cr3 other ≡ some h)

-- `CopyOnePage` copied the page, or there was no memory.
abbrev pub CopyResult : ℕ → Machine → ℕ → ℕ → Option (Error × Machine) → Type 0
CopyResult from m page f r =
    ((m' : Machine) × (r ≡ some (success, m')) × Copied from m page f m')
    ⊎ ((m' : Machine) × (r ≡ some (no_enough_memory, m')) × Extends true m m')

Copied-written :
    (from : ℕ) (m m2 : Machine) (page f g : ℕ)
    → Legal from 4 m m.cr3
    → from ≤ index 3 page
    → walk 4 m m.cr3 page ≡ some f
    → Apart 3 m m.cr3 page (leaf_table 3 m m.cr3 page)
    → f ≢ leaf_table 3 m m.cr3 page
    → Extends true m m2
    → get_bit m.frames g ≡ false
    → g < 2 ^ 40
    → ((j : ℕ) → m2.words g j ≡ m.words f j)
    → ((p j : ℕ) → p ≢ g → m2.words p j ≡ m.words p j)
    → Copied from m page f (written m2 (leaf_table 3 m m.cr3 page) (index 0 page) g)
Copied-written from m m2 page f g legal le h apart ne ext free small copy same =
    let leaf = leaf_table 3 m m.cr3 page in
    let i = index 0 page in
    let m3 = written m2 leaf i g in
    let used = walk-Used from 3 m m.cr3 page f legal le h in
    let not_leaf : g ≢ leaf = (λ e. ground (arith, e, free, used.0.1)) in
    let not_f : f ≢ g = (λ e. ground (arith, e, free, used.1.1)) in
    let way = leaf_table-Extends true from 3 m m2 m.cr3 page f leaf ext legal le h in
    let reads = written-Reads m2 leaf i g small in
    let (walks, leads) =
      walk_changed 3 m2 m3 m.cr3 page f leaf g (λ p j ne. word-written m2 leaf i g p j (inl ne))
        (λ p. reads.0 ∙ p) reads.3 way.0 (way.1 apart)
        (walk-Extends true from 3 m m2 m.cr3 page f ext legal le h) in
    (
      g,
      free,
      rw (ext.same_cr3) walks,
      rw (ext.same_cr3) (rw leads (reads.1)),
      (λ j. word-written m2 leaf i g g j (inl not_leaf) ∙ copy j),
      (λ j. word-written m2 leaf i g f j (inl ne) ∙ same f j not_f),
      (λ other k le' w away above.
          let there = leaf_table-Extends true from 3 m m2 m.cr3 other k leaf ext legal le' w in
          rw (ext.same_cr3) (
            walk_other 3 m2 m3 m.cr3 other k leaf i (word-written m2 leaf i g) (rw (there.0) away)
              (there.1 above) (walk-Extends true from 3 m m2 m.cr3 other k ext legal le' w))),
    )

CopyResult-News :
    (mmu : Machine → ℕ → ℕ) (from addr : ℕ) (m : Machine) (f : ℕ)
    (r : Option (WithError ℕ × Machine))
    → Translates mmu
    → Legal from 4 m m.cr3
    → from ≤ index 3 (addr / 4096)
    → walk 4 m m.cr3 (addr / 4096) ≡ some f
    → Apart 3 m m.cr3 (addr / 4096) (leaf_table 3 m m.cr3 (addr / 4096))
    → f ≢ leaf_table 3 m m.cr3 (addr / 4096)
    → News true m r
    → CopyResult from m (addr / 4096) f (and_then r (copy_to_new mmu addr))
unfolding copy_to_new
CopyResult-News mmu from addr m f _ reads legal le h apart ne failed =
    inr (m, refl, Extends-refl true m)
CopyResult-News mmu from addr m f _ reads legal le h apart ne (fresh {f = g} {m' = m'} ext new) =
    let page = addr / 4096 in
    let leaf = leaf_table 3 m m.cr3 page in
    let m2 = store_page m' g (m'.words (mmu m' page)) in
    let ext2 : Extends true m m2 = Extends-fill true m m' g (m'.words (mmu m' page)) ext new in
    let source : mmu m' page ≡ f =
      reads m' page f
        (rw (ext.same_cr3) (walk-Extends true from 3 m m' m.cr3 page f ext legal le h)) in
    let not_f : f ≢ g =
      (λ e. ground (arith, e, new.0, walk-Used from 3 m m.cr3 page f legal le h)) in
    let way = leaf_table-Extends true from 3 m m2 m.cr3 page f leaf ext2 legal le h in
    let leads : leaf_table 3 m2 m'.cr3 page ≡ leaf =
      ap (λ t. leaf_table 3 m2 t page) ext.same_cr3 ∙ way.0 in
    let fills : (j : ℕ) → m2.words g j ≡ m'.words (mmu m' page) j = λ j. ground arith in
    inl (
      written m2 leaf (index 0 page) g,
      set_page_content_lem 3 addr m'.cr3 g leaf m2 (omega arith) leads,
      Copied-written from m m2 page f g legal le h apart ne ext2 new.0 new.1
          (λ j. fills j ∙ ap (λ p. m'.words p j) source ∙ new.4 f j not_f)
          (λ p j ne. ground (arith, ne, new.4 p j ne)),
    )

pub copy_one_page-Copied :
    (mmu : Machine → ℕ → ℕ) (from addr : ℕ) (m : Machine) (f : ℕ)
    → Translates mmu
    → IsValid m
    → Legal from 4 m m.cr3
    → from ≤ index 3 (addr / 4096)
    → walk 4 m m.cr3 (addr / 4096) ≡ some f
    → Apart 3 m m.cr3 (addr / 4096) (leaf_table 3 m m.cr3 (addr / 4096))
    → f ≢ leaf_table 3 m m.cr3 (addr / 4096)
    → CopyResult from m (addr / 4096) f (copy_one_page mmu addr m)
unfolding copy_one_page
copy_one_page-Copied mmu from addr m f reads v legal le h apart ne =
    CopyResult-News mmu from addr m f (new_page_map m) reads legal le h apart ne
      (new_page_map_lem true m v)
