-- ===== src/Paging/CopyMaps.antt =====
-- The loops of `CopyPageMaps`, and what the processor reads in the copy.
use kin_os.Base.{
  ℕ, zero, suc, ◌+◌, ◌^◌, ◌≤◌, ◌<◌, ◌≡◌, refl, ap, sym, ◌∙◌, true, false, Option, some, arith, ◌≢◌,
  Bool-cases, inl, inr,
}
use kin_os.Error.{Error, success}
use kin_os.Paging.{Machine, present, writable, user, pointer, set_pointer, set_writable, store}
use kin_os.Paging.Fields.{Reads-set_pointer, Reads-set_writable, Reads}
use kin_os.Paging.Extends.{Used, IsValid, Extends}
use kin_os.Paging.Entry.{Fresh}
use kin_os.Paging.Flags.{word-here}
use kin_os.Paging.Write.{copy_entries}
use kin_os.Paging.Share.{
  Source, Source-later, Keeps, Keeps-refl, Keeps-trans, Keeps-store, Below, Row, Row-base, Copies,
  copied, Copies-step, Source-Keeps,
}

-- The writes for one entry at level 1.
abbrev shared : Machine → ℕ → ℕ → ℕ → Machine
shared m dest s i =
    let copy = store m dest i (m.words s i) in
    store copy dest i (set_writable false (copy.words dest i))

Keeps-shared : (m : Machine) (dest s i : ℕ) → Keeps dest m (shared m dest s i)
Keeps-shared m dest s i =
    let copy = store m dest i (m.words s i) in
    Keeps-trans dest m copy (shared m dest s i) (Keeps-store dest i (m.words s i) m)
      (Keeps-store dest i (set_writable false (copy.words dest i)) copy)

shared-Row : (m : Machine) (dest s i : ℕ) → Row 0 m (shared m dest s i) dest s i
shared-Row m dest s i p =
    let e = m.words s i in
    let copy = store m dest i e in
    let reads = Reads-set_writable false e in
    rw (word-here copy dest i (set_writable false (copy.words dest i)))
      (rw (word-here m dest i e) (reads.0 ∙ p, (λ _. reads.1), sym (reads.3)))

shared_before :
    (m : Machine) (dest s i j : ℕ) → j < i → (shared m dest s i).words dest j ≡ m.words dest j
shared_before m dest s i j lt = ground arith

pub absent-Row :
    (level : ℕ) (m : Machine) (dest s i : ℕ)
    → present (m.words s i) ≡ false
    → Row level m m dest s i
absent-Row level m dest s i h p = absurd (cc (h, p))

pub Copies_end :
    (level : ℕ) (m : Machine) (dest s i : ℕ) → 512 ≤ i → Copies level m dest s i (some (success, m))
Copies_end level m dest s i le =
    copied (Keeps-refl dest m) (λ j lt. refl) (λ j lo hi. absurd (omega arith))

pub copy_entries-Copies :
    (rounds i dest s : ℕ) (m : Machine)
    → 512 ≤ i + rounds
    → Used m dest
    → Source i 1 m dest s
    → Copies 0 m dest s i (some (success, copy_entries rounds i dest s m))
unfolding copy_entries
copy_entries-Copies zero i dest s m le u src = Copies_end 0 m dest s i (omega arith)
copy_entries-Copies (suc rounds) i dest s m le u src = elim (Bool-cases (present (m.words s i))) [
  | inr h ↦ rw h (
      Copies-step 0 dest s i m m _ u src (Keeps-refl dest m) (λ j lt. refl)
        (absent-Row 0 m dest s i h)
        (copy_entries-Copies rounds (i + 1) dest s m (omega arith) u
          (Source-later i 0 m dest s src)))
  | inl h ↦
      let m1 = shared m dest s i in
      let k = Keeps-shared m dest s i in
      rw h (
        Copies-step 0 dest s i m m1 _ u src k (shared_before m dest s i) (shared-Row m dest s i) (
          copy_entries-Copies rounds (i + 1) dest s m1 (omega arith) (k.used dest u)
            (Source-later i 0 m1 dest s (Source-Keeps i 1 dest dest s m m1 k (inr refl) src))))
]

-- What is asked of the call for the maps below.
abbrev pub Child : ℕ → (ℕ → ℕ → Machine → Option (Error × Machine)) → Type 0
Child level child =
    (dest s : ℕ) (m : Machine)
    → IsValid m
    → Used m dest
    → Source 0 (suc level) m dest s
    → Copies level m dest s 0 (child dest s m)

-- A fresh page keeps the words of all that were in use.
Keeps-News : (dest f : ℕ) (m m' : Machine) → Extends true m m' → Fresh m m' f → Keeps dest m m'
Keeps-News dest f m m' ext new = record {
  valid = ext.valid;
  used = ext.used;
  same = λ p i u ne. new.4 p i (λ e. ground (arith, e, u.1, new.0));
}

-- The source of a call, once the destination is a fresh page.
Source-fresh :
    (from level dest c table : ℕ) (m m2 : Machine)
    → Keeps dest m m2
    → ((f : ℕ) → Used m f → f ≢ c)
    → Source from level m dest table
    → Source from level m2 c table
Source-fresh from zero dest c table m m2 k new h = (k.used table h.0, new table h.0)
Source-fresh from (suc level) dest c table m m2 k new h =
    let same : (i : ℕ) → m2.words table i ≡ m.words table i = λ i. k.same table i h.0 h.1 in
    (
      k.used table h.0,
      new table h.0,
      λ i lo p. rw (same i) (
          Source-fresh 0 level dest c (pointer (m.words table i)) m m2 k new
            (h.2 i lo (rw (same i) at p))),
    )

-- The writes for one entry above level 1, for a page `c`.
abbrev pub linked : Machine → ℕ → ℕ → ℕ → ℕ → Machine
linked m dest s i c =
    let copy = store m dest i (m.words s i) in store copy dest i (set_pointer c (copy.words dest i))

linked-Reads :
    (m : Machine) (dest s i c : ℕ)
    → c < 2 ^ 40
    → let e = m.words s i in
      Reads ((linked m dest s i c).words dest i) (present e) (writable e) (user e) c
linked-Reads m dest s i c lt =
    let e = m.words s i in
    let copy = store m dest i e in
    rw (word-here copy dest i (set_pointer c (copy.words dest i)))
      (rw (word-here m dest i e) (Reads-set_pointer c e lt))

linked_before :
    (m : Machine) (dest s i c j : ℕ) → j < i → (linked m dest s i c).words dest j ≡ m.words dest j
linked_before m dest s i c j lt = ground arith

-- What is known when the copy below an entry begins.
module _ (level dest s i c : ℕ) (m m1 : Machine) (u : Used m dest)
    (src : Source i (suc (suc level)) m dest s) (p : present (m.words s i) ≡ true)
    (ext : Extends true m m1) (new : Fresh m m1 c) where
  abbrev m2 : Machine
  m2 = linked m1 dest s i c

  new_one : (f : ℕ) → Used m f → f ≢ c
  new_one f used e = ground (arith, e, used.1, new.0)

  pub Keeps-linked : Keeps dest m m2
  Keeps-linked =
      let copy = store m1 dest i (m1.words s i) in
      Keeps-trans dest m m1 m2 (Keeps-News dest c m m1 ext new) (
        Keeps-trans dest m1 copy m2 (Keeps-store dest i (m1.words s i) m1)
          (Keeps-store dest i (set_pointer c (copy.words dest i)) copy))

  same_source : m2.words s i ≡ m.words s i
  same_source = Keeps-linked.same s i src.0 src.1

  pub Source-child : Source 0 (suc level) m2 c (pointer (m2.words s i))
  Source-child = rw same_source (
      Source-fresh 0 (suc level) dest c (pointer (m.words s i)) m m2 Keeps-linked new_one
        (src.2 i (omega arith) p))

  module _ (m3 : Machine) (k : Keeps c m2 m3) where
    pub Keeps-child : Keeps dest m m3
    Keeps-child = record {
      valid = λ v. k.valid (Keeps-linked.valid v);
      used = λ f used. k.used f (Keeps-linked.used f used);
      same = λ f j used ne.
          k.same f j (Keeps-linked.used f used) (new_one f used) ∙ Keeps-linked.same f j used ne;
    }

    dest_stays : (j : ℕ) → m3.words dest j ≡ m2.words dest j
    dest_stays j = k.same dest j (Keeps-linked.used dest u) (new_one dest u)

    pub before_stays : (j : ℕ) → j < i → m3.words dest j ≡ m.words dest j
    before_stays j lt =
        dest_stays j ∙ linked_before m1 dest s i c j lt ∙ new.4 dest j (new_one dest u)

    pub Row-child :
        ((j : ℕ) → 0 ≤ j → j < 512 → Row level m2 m3 c (pointer (m2.words s i)) j)
        → Row (suc level) m m3 dest s i
    Row-child rows _ =
        let reads = linked-Reads m1 dest s i c new.1 in
        let first : m1.words s i ≡ m.words s i = new.4 s i (new_one s src.0) in
        let there : present (m2.words dest i) ≡ true = reads.0 ∙ ap present first ∙ p in
        let copies : Below (suc level) m m3 c (pointer (m.words s i)) = (
          (λ f used e. new_one f used (sym e)),
          k.used c new.2,
          λ j lt.
              Row-base level 0 dest c (pointer (m.words s i)) j m m2 m3 Keeps-linked
                (src.2 i (omega arith) p) (omega arith)
                (rw same_source at (rows j (omega arith) lt)),
        ) in
        rw (dest_stays i) (there, (λ e. absurd (omega (arith, e))), rw (reads.3) copies)
