-- ===== src/Paging/Ways.antt =====
-- The way of a page through the tables: the processor's walk, and the table of level 1 that it ends in.
use kin_os.Base.{
  ℕ, zero, suc, ◌≡◌, ◌≤◌, refl, Bool, true, some, arith, ◌≢◌, Bool-cases, inl, inr, ◌⊎◌,
}
use kin_os.Paging.{Machine, present, pointer, store_page}
use kin_os.Paging.Numbers.{index}
use kin_os.Paging.Extends.{Used, Extends, Legal, walk, keeps-Legal}
use kin_os.Paging.Entry.{Fresh}

-- The table of level 1 for a page, from a table of level `depth + 1`.
abbrev pub leaf_table : ℕ → Machine → ℕ → ℕ → ℕ
leaf_table zero m table page = table
leaf_table (suc depth) m table page =
    leaf_table depth m (pointer (m.words table (index (suc depth) page))) page

-- No table above level 1 on the way is the table `leaf`.
abbrev pub Apart : ℕ → Machine → ℕ → ℕ → ℕ → Type 0
Apart zero m table page leaf = Unit
Apart (suc depth) m table page leaf =
    (table ≢ leaf) × Apart depth m (pointer (m.words table (index (suc depth) page))) page leaf

-- What the walk goes through.
pub walk_inv :
    (depth : ℕ) (m : Machine) (table page f : ℕ)
    → walk (suc depth) m table page ≡ some f
    → let e = m.words table (index depth page) in
      (present e ≡ true) × (walk depth m (pointer e) page ≡ some f)
walk_inv depth m table page f h = elim (Bool-cases (present (m.words table (index depth page)))) [
  | inl p ↦ (p, rw p at h)
  | inr p ↦ absurd (cc (rw p at h))
]

pub walk_step :
    (depth : ℕ) (m : Machine) (table page f p : ℕ)
    → present (m.words table (index depth page)) ≡ true
    → pointer (m.words table (index depth page)) ≡ p
    → walk depth m p page ≡ some f
    → walk (suc depth) m table page ≡ some f
walk_step depth m table page f p h e w = rw h (rw e w)

-- Where only the table `leaf` changed, and its entry for the page has `content` now, so has the page.
pub walk_changed :
    (depth : ℕ) (m m' : Machine) (table page f leaf content : ℕ)
    → ((p j : ℕ) → p ≢ leaf → m'.words p j ≡ m.words p j)
    → (present (m.words leaf (index 0 page)) ≡ true → present (m'.words leaf (index 0 page)) ≡ true)
    → pointer (m'.words leaf (index 0 page)) ≡ content
    → leaf_table depth m table page ≡ leaf
    → Apart depth m table page leaf
    → walk (suc depth) m table page ≡ some f
    → (walk (suc depth) m' table page ≡ some content) × (leaf_table depth m' table page ≡ leaf)
walk_changed zero m m' table page f leaf content same still now e apart h =
    let there = walk_inv 0 m table page f h in
    (rw e (walk_step 0 m' leaf page content content (still (rw e at (there.0))) now refl), e)
walk_changed (suc depth) m m' table page f leaf content same still now e apart h =
    let (there, below) = walk_inv (suc depth) m table page f h in
    let k : m'.words table (index (suc depth) page) ≡ m.words table (index (suc depth) page) =
      same table (index (suc depth) page) apart.0 in
    let (walks, leads) =
      walk_changed depth m m' (pointer (m.words table (index (suc depth) page))) page f leaf content
        same still now e apart.1 below in
    (walk_step (suc depth) m' table page content _ (rw k there) (rw k refl) walks, rw k leads)

-- An extension has the same way to a page.
pub leaf_table-Extends :
    (w : Bool) (from depth : ℕ) (m m' : Machine) (table page f leaf : ℕ)
    → Extends w m m'
    → Legal from (suc depth) m table
    → from ≤ index depth page
    → walk (suc depth) m table page ≡ some f
    → (leaf_table depth m' table page ≡ leaf_table depth m table page)
      × (Apart depth m table page leaf → Apart depth m' table page leaf)
leaf_table-Extends w from zero m m' table page f leaf e legal le h = (refl, λ a. a)
leaf_table-Extends w from (suc depth) m m' table page f leaf e legal le h =
    let i = index (suc depth) page in
    let (there, below) = walk_inv (suc depth) m table page f h in
    let kept = e.entry table i legal.0 there in
    let (same, apart) =
      leaf_table-Extends w 0 depth m m' (pointer (m.words table i)) page f leaf e
        (legal.1 i le there) (omega arith) below in
    (rw (kept.1) same, λ a. (a.0, rw (kept.1) (apart a.1)))

-- The frame of a page that the tables have, and the page's table, are in use.
pub walk-Used :
    (from depth : ℕ) (m : Machine) (table page f : ℕ)
    → Legal from (suc depth) m table
    → from ≤ index depth page
    → walk (suc depth) m table page ≡ some f
    → Used m (leaf_table depth m table page) × Used m f
walk-Used from zero m table page f legal le h =
    let (there, below) = walk_inv 0 m table page f h in
    let e : pointer (m.words table (index 0 page)) ≡ f = cc below in
    (legal.0, rw e at (legal.1 (index 0 page) le there))
walk-Used from (suc depth) m table page f legal le h =
    let (there, below) = walk_inv (suc depth) m table page f h in
    walk-Used 0 depth m _ page f (legal.1 (index (suc depth) page) le there) (omega arith) below

-- A fresh page that is filled with anything still extends.
pub Extends-fill :
    (w : Bool) (m m' : Machine) (g : ℕ) (content : ℕ → ℕ)
    → Extends w m m'
    → Fresh m m' g
    → Extends w m (store_page m' g content)
Extends-fill w m m' g content ext h =
    let apart : (f i : ℕ) → Used m f → (store_page m' g content).words f i ≡ m.words f i = (λ f i u.
      let ne : f ≢ g = (λ e. ground (arith, e, u.1, h.0)) in ground (arith, ne, h.4 f i ne)) in
    record {
      valid = ext.valid;
      same_cr3 = ext.same_cr3;
      used = ext.used;
      entry = λ f i u p. rw (apart f i u) (p, refl, (λ h. h), (λ c h. h));
      legal =
          keeps-Legal m (store_page m' g content) ext.used
            (λ f i u. rw (apart f i u) (λ p. inl (p, refl)));
    }

-- Where one entry of the table `leaf` changed, the pages of other entries keep their frames.
pub walk_other :
    (depth : ℕ) (m m' : Machine) (table page f leaf i : ℕ)
    → ((p j : ℕ) → (p ≢ leaf) ⊎ (j ≢ i) → m'.words p j ≡ m.words p j)
    → (leaf_table depth m table page ≢ leaf) ⊎ (index 0 page ≢ i)
    → Apart depth m table page leaf
    → walk (suc depth) m table page ≡ some f
    → walk (suc depth) m' table page ≡ some f
walk_other zero m m' table page f leaf i same ne apart h = rw (same table (index 0 page) ne) h
walk_other (suc depth) m m' table page f leaf i same ne apart h =
    let (there, below) = walk_inv (suc depth) m table page f h in
    let k : m'.words table (index (suc depth) page) ≡ m.words table (index (suc depth) page) =
      same table (index (suc depth) page) (inl apart.0) in
    walk_step (suc depth) m' table page f _ (rw k there) (rw k refl) (
      walk_other depth m m' (pointer (m.words table (index (suc depth) page))) page f leaf i same ne
        apart.1 below)
