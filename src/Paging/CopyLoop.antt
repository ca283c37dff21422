-- ===== src/Paging/CopyLoop.antt =====
-- `CopyPageMaps` whole, for the maps of every level.
use kin_os.Base.{
  ℕ, zero, suc, ◌+◌, ◌-◌, ◌≤◌, ◌≡◌, refl, sym, true, false, Option, some, and_then, arith,
  Bool-cases, inl, inr, ◌⊎◌,
}
use kin_os.Error.{Error, success, WithError, no_enough_memory}
use kin_os.Paging.{Machine, present, writable, pointer, new_page_map}
use kin_os.Paging.Numbers.{index}
use kin_os.Paging.Extends.{Used, IsValid, Extends, walk}
use kin_os.Paging.Entry.{News, fresh, failed, Fresh, new_page_map_lem}
use kin_os.Paging.Ways.{leaf_table, walk_inv, walk_step}
use kin_os.Paging.Write.{copy_rest, copy_round, copy_loop, copy_page_maps}
use kin_os.Paging.Share.{
  Source, Source-later, Keeps, Keeps-refl, Row, Copies, copied, no_memory, Copies-step,
  Source-Keeps,
}
use kin_os.Paging.CopyMaps.{
  Child, absent-Row, Copies_end, copy_entries-Copies, linked, Source-child, Keeps-child,
  before_stays, Row-child,
}

-- The rounds after one.
abbrev Next : ℕ → ℕ → ℕ → ℕ → (Machine → Option (Error × Machine)) → Type 0
Next level dest s i next =
    (m : Machine)
    → IsValid m
    → Used m dest
    → Source (i + 1) (suc level) m dest s
    → Copies level m dest s (i + 1) (next m)

rest-Copies :
    (level dest s i c : ℕ) (m m1 : Machine) (next : Machine → Option (Error × Machine))
    → IsValid m
    → (u : Used m dest) (src : Source i (suc (suc level)) m dest s)
      (p : present (m.words s i) ≡ true) (ext : Extends true m m1) (new : Fresh m m1 c)
    → Next (suc level) dest s i next
    → (r : Option (Error × Machine))
    → Copies level (linked m1 dest s i c) c (pointer ((linked m1 dest s i c).words s i)) 0 r
    → Copies (suc level) m dest s i (and_then r (copy_rest next))
unfolding copy_rest
rest-Copies level dest s i c m m1 next v u src p ext new others _ (no_memory {m' = m3} k) =
    no_memory (Keeps-child level dest s i c m m1 u src p ext new m3 k)
rest-Copies level dest s i c m m1 next v u src p ext new others _ (copied {m' = m3} k same rows) =
    let keeps = Keeps-child level dest s i c m m1 u src p ext new m3 k in
    Copies-step (suc level) dest s i m m3 (next m3) u src keeps
      (before_stays level dest s i c m m1 u src p ext new m3 k)
      (Row-child level dest s i c m m1 u src p ext new m3 k rows)
      (others m3 (keeps.valid v) (keeps.used dest u) (
        Source-later i (suc level) m3 dest s
          (Source-Keeps i (suc (suc level)) dest dest s m m3 keeps (inr refl) src)))

round-Copies :
    (level dest s i : ℕ) (m : Machine) (next : Machine → Option (Error × Machine))
    (child : ℕ → ℕ → Machine → Option (Error × Machine)) (r : Option (WithError ℕ × Machine))
    → Child level child
    → IsValid m
    → Used m dest
    → Source i (suc (suc level)) m dest s
    → present (m.words s i) ≡ true
    → Next (suc level) dest s i next
    → News true m r
    → Copies (suc level) m dest s i (and_then r (copy_round next child i dest s))
unfolding copy_round
round-Copies level dest s i m next child _ below v u src p others failed =
    no_memory (Keeps-refl dest m)
round-Copies level dest s i m next child _ below v u src p others
      (fresh {f = c} {m' = m1} ext new) =
    let m2 = linked m1 dest s i c in
    rest-Copies level dest s i c m m1 next v u src p ext new others
      (child c (pointer (m2.words s i)) m2)
      (below c (pointer (m2.words s i)) m2 (ext.valid v) new.2
        (Source-child level dest s i c m m1 u src p ext new))

copy_loop-Copies :
    (level : ℕ) (child : ℕ → ℕ → Machine → Option (Error × Machine))
    → Child level child
    → (rounds i dest s : ℕ) (m : Machine) → 512 ≤ i + rounds
    → IsValid m
    → Used m dest
    → Source i (suc (suc level)) m dest s
    → Copies (suc level) m dest s i (copy_loop child rounds i dest s m)
unfolding copy_loop
copy_loop-Copies level child below zero i dest s m le v u src =
    Copies_end (suc level) m dest s i (omega arith)
copy_loop-Copies level child below (suc rounds) i dest s m le v u src =
    let others : Next (suc level) dest s i (copy_loop child rounds (i + 1) dest s) = λ m v u src.
      copy_loop-Copies level child below rounds (i + 1) dest s m (omega arith) v u src in
    elim (Bool-cases (present (m.words s i))) [
      | inr h ↦
          rw (h, copy_loop)
            (Copies-step (suc level) dest s i m m _ u src (Keeps-refl dest m) (λ j lt. refl)
              (absent-Row (suc level) m dest s i h)
              (others m v u (Source-later i (suc level) m dest s src)))
      | inl h ↦
          rw (h, copy_loop)
            (round-Copies level dest s i m (copy_loop child rounds (i + 1) dest s) child
              (new_page_map m) below v u src h others (new_page_map_lem true m v))
    ]

pub copy_page_maps-Copies :
    (level dest s start : ℕ) (m : Machine)
    → IsValid m
    → Used m dest
    → Source start (suc level) m dest s
    → Copies level m dest s start (copy_page_maps (suc level) dest s start m)
unfolding copy_page_maps
copy_page_maps-Copies zero dest s start m v u src =
    copy_entries-Copies (512 - start) start dest s m (omega arith) u src
copy_page_maps-Copies (suc level) dest s start m v u src =
    copy_loop-Copies level (λ table child. copy_page_maps (suc level) table child 0)
      (λ d t m v u src. copy_page_maps-Copies level d t 0 m v u src) (512 - start) start dest s m
      (omega arith) v u src

-- What the processor reads in a copy.
walk-Row :
    (level : ℕ) (m0 m : Machine) (d s page f : ℕ)
    → Row level m0 m d s (index level page)
    → walk (suc level) m0 s page ≡ some f
    → (walk (suc level) m d page ≡ some f)
      × (writable (m.words (leaf_table level m d page) (index 0 page)) ≡ false)
walk-Row zero m0 m d s page f row w =
    let (p, below) = walk_inv 0 m0 s page f w in
    let r = row p in
    (walk_step 0 m d page f (pointer (m0.words s (index 0 page))) r.0 (sym r.2) below, r.1 refl)
walk-Row (suc level) m0 m d s page f row w =
    let i = index (suc level) page in
    let (p, below) = walk_inv (suc level) m0 s page f w in
    let r = row p in
    let (walks, shown) =
      walk-Row level m0 m (pointer (m.words d i)) (pointer (m0.words s i)) page f
        (r.2.2 (index level page) (omega arith)) below in
    (walk_step (suc level) m d page f (pointer (m.words d i)) r.0 refl walks, shown)

-- The source still has its pages.
walk-Keeps :
    (from level dest table page f : ℕ) (m m' : Machine)
    → Keeps dest m m'
    → Source from (suc level) m dest table
    → from ≤ index level page
    → walk (suc level) m table page ≡ some f
    → walk (suc level) m' table page ≡ some f
walk-Keeps from zero dest table page f m m' k src le w =
    let (p, below) = walk_inv 0 m table page f w in
    let same = k.same table (index 0 page) src.0 src.1 in
    walk_step 0 m' table page f (pointer (m.words table (index 0 page))) (rw same p) (rw same refl)
      below
walk-Keeps from (suc level) dest table page f m m' k src le w =
    let i = index (suc level) page in
    let (p, below) = walk_inv (suc level) m table page f w in
    let same : m'.words table i ≡ m.words table i = k.same table i src.0 src.1 in
    walk_step (suc level) m' table page f (pointer (m.words table i)) (rw same p) (rw same refl) (
      walk-Keeps 0 level dest (pointer (m.words table i)) page f m m' k (src.2 i le p) (omega arith)
        below)

-- The page has its frame in the source, and in the copy too, where its entry is not writable.
abbrev pub SharedPage : Machine → ℕ → ℕ → ℕ → ℕ → Type 0
SharedPage m dest s page f =
    (walk 4 m s page ≡ some f)
    × (walk 4 m dest page ≡ some f)
    × (writable (m.words (leaf_table 3 m dest page) (index 0 page)) ≡ false)

SharedPage-Copies :
    (dest s start page f : ℕ) (m : Machine) (r : Option (Error × Machine))
    → Source start 4 m dest s
    → start ≤ index 3 page
    → walk 4 m s page ≡ some f
    → Copies 3 m dest s start r
    → (m' : Machine) × Keeps dest m m'
      × (((r ≡ some (success, m')) × SharedPage m' dest s page f)
          ⊎ (r ≡ some (no_enough_memory, m')))
SharedPage-Copies dest s start page f m _ src le w (no_memory {m' = m'} k) = (m', k, inr refl)
SharedPage-Copies dest s start page f m _ src le w (copied {m' = m'} k before rows) =
    let copy = walk-Row 3 m m' dest s page f (rows (index 3 page) le (omega arith)) w in
    (m', k, inl (refl, (walk-Keeps start 3 dest s page f m m' k src le w, copy.0, copy.1)))

-- `CopyPageMaps` from the entry `start` of the topmost map on, to a map in use that is none of the
-- source's tables and pages: it returns, and of all that was in use it changes the words of the
-- destination only. On success a page that the source has in a frame, at `start` or behind, has this
-- frame in the copy, too, where it is not writable; else there was no memory.
pub copy_page_maps-SharedPage :
    (dest s start page f : ℕ) (m : Machine)
    → IsValid m
    → Used m dest
    → Source start 4 m dest s
    → start ≤ index 3 page
    → walk 4 m s page ≡ some f
    → let r = copy_page_maps 4 dest s start m in
      (m' : Machine) × Keeps dest m m'
      × (((r ≡ some (success, m')) × SharedPage m' dest s page f)
          ⊎ (r ≡ some (no_enough_memory, m')))
copy_page_maps-SharedPage dest s start page f m v u src le w =
    SharedPage-Copies dest s start page f m (copy_page_maps 4 dest s start m) src le w
      (copy_page_maps-Copies 3 dest s start m v u src)
