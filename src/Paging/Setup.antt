-- ===== src/Paging/Setup.antt =====
-- `SetupPageMap` and `SetupPageMaps`: what they map, for any number of pages.
use kin_os.Base.{
  ℕ, zero, suc, ◌+◌, ◌/◌, ◌≤◌, ◌<◌, ◌≡◌, refl, ◌∙◌, sym, Bool, true, ◌==◌, Option, some, and_then,
  arith, Bool-cases, inl, inr, ◌⊎◌,
}
use mathlib.Core.Option
use kin_os.Error.{Error, success, WithError, no_enough_memory}
use kin_os.Paging.{
  Machine, Setup, present, pointer, set_new_page_map_if_not_present, part, next_addr, setup_entry,
  setup_rest, setup_round, setup_loop, setup_page_map, setup_page_maps,
}
use kin_os.Paging.Numbers.{
  end, index, part-eq-index, next_addr-page, end_above, end_last, index-end,
}
use kin_os.Paging.Extends.{walk, walk-Extends, Used, IsValid, Extends, Extends-refl, Legal}
use kin_os.Paging.Entry.{Links, linked, not_linked, set_new_page_map_lem}
use kin_os.Paging.Flags.{flagged, Extends-flagged, flagged-Reads}
use kin_os.Paging.Says.{Covers, Says, mapped, stopped, Child, Says-below, Says-append, Says-after}

entry_Says :
    (w : Bool) (from level : ℕ) (child : Setup) (m : Machine) (t addr n : ℕ)
    → level < 4
    → (0 < level → Child w level child)
    → IsValid m
    → Legal from (suc level) m t
    → from ≤ index level (addr / 4096)
    → present (m.words t (index level (addr / 4096))) ≡ true
    → let i = index level (addr / 4096) in
      Says w
        (suc level)
        m
        t
        (addr / 4096)
        (suc n)
        (end level (addr / 4096))
        (setup_entry (suc level) child t i (pointer (m.words t i)) addr (suc n) w m)
unfolding setup_entry
entry_Says w from zero child m t addr n h below v legal le p =
    let i = index 0 (addr / 4096) in
    let m1 = flagged m t i w in
    let ext : Extends w m m1 = Extends-flagged w w m t i (λ k. k) in
    let reads = flagged-Reads w m t i in
    let c = pointer (m.words t i) in
    let used : Used m1 c = ext.used c (legal.1 i le p) in
    Says-below w w 0 m m1 t c (addr / 4096) (suc n) _ h (λ k. k) ext (ext.used t legal.0)
      (reads.0 ∙ p, reads.1, reads.2, reads.3)
      (mapped (Extends-refl w m1) (omega arith) (λ q le lt last. (c, (refl, used))))
entry_Says w from (suc level) child m t addr n h below v legal le p =
    let i = index (suc level) (addr / 4096) in
    let m1 = flagged m t i true in
    let ext : Extends w m m1 = Extends-flagged w true m t i (λ k. refl) in
    let reads = flagged-Reads true m t i in
    let c = pointer (m.words t i) in
    Says-below w true (suc level) m m1 t c (addr / 4096) (suc n) _ h (λ k. refl) ext
      (ext.used t legal.0) (reads.0 ∙ p, reads.1, reads.2, reads.3)
      (below (omega arith) c addr n m1 (ext.valid v) (ext.legal 0 (suc level) c (legal.1 i le p)))

-- The rounds that follow, on the pages of the next entries.
abbrev Next : Bool → ℕ → ℕ → ℕ → ℕ → (ℕ → ℕ → Machine → Option (WithError ℕ × Machine)) → Type 0
Next w from level t addr next =
    (m : Machine) (n : ℕ)
    → IsValid m
    → Legal from (suc level) m t
    → index level (addr / 4096) < 511
    → Says w (suc level) m t (end level (addr / 4096)) n (end (suc level) (addr / 4096))
        (next (next_addr (suc level) addr) n m)

rest_Says :
    (w : Bool) (from level : ℕ) (next : ℕ → ℕ → Machine → Option (WithError ℕ × Machine))
    (m : Machine) (t addr n : ℕ) (r : Option (WithError ℕ × Machine))
    → level < 4
    → IsValid m
    → Legal from (suc level) m t
    → Next w from level t addr next
    → Says w (suc level) m t (addr / 4096) n (end level (addr / 4096)) r
    → Says w
        (suc level)
        m
        t
        (addr / 4096)
        n
        (end (suc level) (addr / 4096))
        (and_then r (setup_rest next (suc level) addr n))
unfolding setup_rest
rest_Says w from level next m t addr n _ h v legal others (stopped ext) = stopped ext
rest_Says w from level next m t addr n _ h v legal others (mapped {r = r} {m' = m'} ext k covers) =
    elim (Bool-cases (part (suc level) addr == 511)) [
      | inl b ↦
          let last : index level (addr / 4096) ≡ 511 = ground (arith, part-eq-index level addr h) in
          rw (b, setup_rest) (rw (end_last level (addr / 4096) h last) (mapped ext k covers))
      | inr b ↦
          let lt : index level (addr / 4096) < 511 = ground (arith, part-eq-index level addr h) in
          let goes = index-end level (addr / 4096) h lt in
          let further = others m' r (ext.valid v) (ext.legal from (suc level) t legal) lt in
          rw (b, setup_rest)
            (Says-append w (suc level) m m' t (addr / 4096) n (end level (addr / 4096))
              (end (suc level) (addr / 4096)) _ (end_above level (addr / 4096) h) goes.2 ext covers
              (rw (sym k) further))
    ]

round_Says :
    (w : Bool) (from level : ℕ) (next : ℕ → ℕ → Machine → Option (WithError ℕ × Machine))
    (child : Setup) (m : Machine) (t addr n : ℕ) (r : Option (WithError ℕ × Machine))
    → level < 4
    → (0 < level → Child w level child)
    → IsValid m
    → Legal from (suc level) m t
    → from ≤ index level (addr / 4096)
    → Next w from level t addr next
    → Links w m t (index level (addr / 4096)) r
    → Says w
        (suc level)
        m
        t
        (addr / 4096)
        (suc n)
        (end (suc level) (addr / 4096))
        (and_then r (setup_round next (suc level) child t addr (suc n) w))
unfolding setup_round
round_Says w from level next child m t addr n _ h below v legal le others (not_linked ext) =
    stopped ext
round_Says w from level next child m t addr n _ h below v legal le others
      (linked {c} {m'} ext p q) =
    rw (part-eq-index level addr h) (
      rw (sym q) (
        Says-after w (suc level) m m' t (addr / 4096) (suc n) (end (suc level) (addr / 4096)) _ ext
          (rest_Says w from level next m' t addr (suc n) _ h (ext.valid v)
            (ext.legal from (suc level) t legal) others
            (entry_Says w from level child m' t addr n h below (ext.valid v)
              (ext.legal from (suc level) t legal) le p))))

loop_Says :
    (w : Bool) (from level : ℕ) (child : Setup)
    → level < 4
    → (0 < level → Child w level child)
    → (rounds : ℕ) (m : Machine) (t addr n : ℕ) → IsValid m
    → Legal from (suc level) m t
    → from ≤ index level (addr / 4096)
    → 512 ≤ rounds + index level (addr / 4096)
    → Says w
        (suc level)
        m
        t
        (addr / 4096)
        n
        (end (suc level) (addr / 4096))
        (setup_loop (suc level) child rounds t addr n w m)
unfolding setup_loop
loop_Says w from level child h below zero m t addr n v legal le enough = absurd (omega arith)
loop_Says w from level child h below (suc rounds) m t addr zero v legal le enough =
    mapped (Extends-refl w m) (omega arith) (λ q le lt last. absurd (omega arith))
loop_Says w from level child h below (suc rounds) m t addr (suc n) v legal le enough =
    rw (part-eq-index level addr h) (
      round_Says w from level (λ addr n m. setup_loop (suc level) child rounds t addr n w m) child m
        t addr n (set_new_page_map_if_not_present t (index level (addr / 4096)) m) h below v legal
        le
        (λ m n v legal lt.
          let page = next_addr-page level addr h lt in
          let goes = index-end level (addr / 4096) h lt in
          rw (page, goes.1) at
            (loop_Says w from level child h below rounds m t (next_addr (suc level) addr) n v legal
              (rw page (rw (goes.0) (omega (arith, le))))
              (rw page (rw (goes.0) (omega (arith, enough))))))
        (set_new_page_map_lem w m t (index level (addr / 4096)) v legal.0))

setup_page_map_Says :
    (w : Bool) (from level : ℕ) (m : Machine) (t addr n : ℕ)
    → level < 4
    → IsValid m
    → Legal from (suc level) m t
    → from ≤ index level (addr / 4096)
    → Says w
        (suc level)
        m
        t
        (addr / 4096)
        n
        (end (suc level) (addr / 4096))
        (setup_page_map (suc level) t addr n w m)
unfolding setup_page_map
setup_page_map_Says w from zero m t addr n h v legal le =
    loop_Says w from 0 (setup_page_map 0) h (λ l. absurd (omega arith)) 512 m t addr n v legal le
      (omega arith)
setup_page_map_Says w from (suc level) m t addr n h v legal le =
    loop_Says w from (suc level) (setup_page_map (suc level)) h
      (λ l t addr n m v legal.
        setup_page_map_Says w 0 level m t addr (suc n) (omega arith) v legal (omega arith))
      512 m t addr n v legal le (omega arith)

-- `SetupPageMaps` succeeded with all pages of the address space that were asked for, or there was no
-- memory; in either case it only added.
abbrev pub SetUp : Bool → Machine → ℕ → ℕ → Option (Error × Machine) → Type 0
SetUp w m addr n r =
    (m' : Machine) × Extends w m m'
    × (((r ≡ some (success, m'))
          × Covers w 4 m' m'.cr3 (addr / 4096) (addr / 4096 + n) (end 4 (addr / 4096)))
        ⊎ (r ≡ some (no_enough_memory, m')))

SetUp-Says :
    (w : Bool) (m : Machine) (addr n : ℕ) (r : Option (WithError ℕ × Machine))
    → Says w 4 m m.cr3 (addr / 4096) n (end 4 (addr / 4096)) r
    → SetUp w m addr n (Option.map (λ r. (r.0.error, r.1)) r)
SetUp-Says w m addr n _ (stopped {m' = m'} ext) = (m', ext, inr refl)
SetUp-Says w m addr n _ (mapped {m' = m'} ext k covers) =
    (m', ext, inl (refl, rw (ext.same_cr3) covers))

-- On tables that are legal from an entry of the topmost one on, for an address at this entry or behind,
-- `SetupPageMaps` returns. On success every page that was asked for, up to the end of the address
-- space, has a frame that the application may use, and may write if `writable` says so; else there is
-- no memory. In either case what was in use or mapped stays so.
pub setup_page_maps-SetUp :
    (w : Bool) (from : ℕ) (m : Machine) (addr n : ℕ)
    → IsValid m
    → Legal from 4 m m.cr3
    → from ≤ index 3 (addr / 4096)
    → SetUp w m addr n (setup_page_maps addr n w m)
unfolding setup_page_maps
setup_page_maps-SetUp w from m addr n v legal le =
    SetUp-Says w m addr n (setup_page_map 4 m.cr3 addr n w m)
      (setup_page_map_Says w from 3 m m.cr3 addr n (omega arith) v legal le)

-- On tables that are legal from an entry of the topmost one on, whatever `SetupPageMaps` of an address
-- there returns, a page there that had a frame keeps it, and the tables stay legal.
pub setup_page_maps-walk :
    (w : Bool) (from : ℕ) (m m' : Machine) (addr n page f : ℕ) (e : Error)
    → IsValid m
    → Legal from 4 m m.cr3
    → from ≤ index 3 (addr / 4096)
    → from ≤ index 3 page
    → setup_page_maps addr n w m ≡ some (e, m')
    → walk 4 m m.cr3 page ≡ some f
    → (walk 4 m' m'.cr3 page ≡ some f) × Legal from 4 m' m'.cr3
setup_page_maps-walk w from m m' addr n page f e v legal le here r h =
    let (m2, ext, says) = setup_page_maps-SetUp w from m addr n v legal le in
    let same : m2 ≡ m' = elim says [ inl (k, covers) ↦ cc (k, r) | inr k ↦ cc (k, r) ] in
    let ext' : Extends w m m' = rw same at ext in
    (
      rw (ext'.same_cr3) (walk-Extends w from 3 m m' m.cr3 page f ext' legal here h),
      rw (ext'.same_cr3) (ext'.legal from 4 m.cr3 legal),
    )
