-- ===== src/Fs/Chain.antt =====
-- What extending a cluster chain does to the table.
use kin_os.Base.{
  ℕ, zero, suc, ◌+◌, ◌^◌, ◌≤◌, ◌<◌, ◌≡◌, ◌≢◌, refl, ap, ◌⊎◌, Bool, true, false, ◌||◌, Option, some,
  List, [], ◌∷◌, ◌==◌, if◌then◌else◌, length, Bool-cases, inl, inr, arith,
}
use kin_os.Fs.{Fat, get_fat, end_of_chain, is_end, set_entry, link_free}
use kin_os.Fs.Table.{entry, get_fat_lem, entry-set_entry}

abbrev pub elem : ℕ → List ℕ → Bool
elem j [] = false
elem j (c ∷ cs) = (c == j) || elem j cs

abbrev pub last : ℕ → List ℕ → ℕ
last c [] = c
last c (d ∷ ds) = last d ds

-- How many of the `fuel` clusters from `candidate` on are free.
unfoldable pub count_free : Fat → ℕ → ℕ → ℕ
count_free s candidate zero = 0
count_free s candidate (suc fuel) =
    (if entry s candidate == 0 then 1 else 0) + count_free s (candidate + 1) fuel

-- The chain from `c` has `k` links, and the cluster `e` at its end.
pub data Leads (s : Fat) : ℕ → ℕ → ℕ → Type 0 where
  at_end : {c : ℕ} → is_end (entry s c) ≡ true → Leads s 0 c c
  link : {c e k : ℕ} → is_end (entry s c) ≡ false → Leads s k (entry s c) e → Leads s (suc k) c e

-- From `c` the table goes through `cs`, and ends there.
abbrev pub Chain : Fat → ℕ → List ℕ → Type 0
Chain s c [] = entry s c ≡ end_of_chain
Chain s c (d ∷ ds) = (entry s c ≡ d) × Chain s d ds

abbrev pub PathTo : Fat → ℕ → List ℕ → Type 0
PathTo s c [] = Unit {0}
PathTo s c (d ∷ ds) = (entry s c ≡ d) × PathTo s d ds

-- The clusters ascend, from `k` on.
abbrev pub Ascending : ℕ → List ℕ → Type 0
Ascending k [] = Unit {0}
Ascending k (c ∷ cs) = (k ≤ c) × Ascending (c + 1) cs

-- Two tables with the same entries.
abbrev Same : Fat → Fat → Type 0
Same s t = (j : ℕ) → entry t j ≡ entry s j

pub count_free_same :
    (s t : Fat) (candidate fuel : ℕ)
    → ((j : ℕ) → candidate ≤ j → (entry t j == 0) ≡ (entry s j == 0))
    → count_free t candidate fuel ≡ count_free s candidate fuel
unfolding count_free
count_free_same s t candidate zero h = refl
count_free_same s t candidate (suc fuel) h = ground (
  arith,
  h candidate (omega arith),
  count_free_same s t (candidate + 1) fuel (λ j le. h j (omega arith)),
)

pub count_free-suc :
    (s : Fat) (candidate fuel : ℕ)
    → count_free s candidate (suc fuel)
      ≡ (if entry s candidate == 0 then 1 else 0) + count_free s (candidate + 1) fuel
unfolding count_free
count_free-suc s candidate fuel = refl

pub count_free_zero : (s : Fat) (candidate : ℕ) → count_free s candidate 0 ≡ 0
unfolding count_free
count_free_zero s candidate = refl

not_below : (k j : ℕ) (cs : List ℕ) → Ascending k cs → j < k → elem j cs ≡ false
not_below k j [] a lt = refl
not_below k j (c ∷ cs) a lt = ground (arith, a.0, not_below (c + 1) j cs a.1 (omega (arith, a.0)))

pub last-elem : (c j : ℕ) (cs : List ℕ) → last c cs ≡ j → elem j (c ∷ cs) ≡ true
last-elem c j [] e = ground arith
last-elem c j (d ∷ ds) e = ground (arith, last-elem d j ds e)

-- Ending the last cluster's entry makes a path a chain.
pub Chain-set_entry :
    (s : Fat) (c k : ℕ) (cs : List ℕ)
    → Ascending k cs
    → elem c cs ≡ false
    → PathTo s c cs
    → Chain (set_entry s (last c cs) end_of_chain) c cs
Chain-set_entry s c k [] a h p = ground (arith, entry-set_entry s c end_of_chain c)
Chain-set_entry s c k (d ∷ ds) a h p = (
  ground (arith, entry-set_entry s (last d ds) end_of_chain c, last-elem d c ds, p.0),
  Chain-set_entry s d (d + 1) ds a.1 (not_below (d + 1) d ds a.1 (omega arith)) p.1,
)

-- What linking `n` free clusters behind `current` promises.
pub record Linked (s : Fat) (candidate current n : ℕ) (out : Option (ℕ × Fat)) : Type 0 where
  pub clusters : List ℕ
  pub after : Fat
  pub answers : out ≡ some (last current clusters, after)
  pub count : length clusters ≡ n
  pub ascending : Ascending candidate clusters
  pub were_free : (j : ℕ) → elem j clusters ≡ true → entry s j ≡ 0
  pub path : PathTo after current clusters
  pub others : (j : ℕ) → j ≢ current → elem j clusters ≡ false → entry after j ≡ entry s j

link_free_zero :
    (fuel : ℕ) (s : Fat) (candidate current : ℕ)
    → link_free fuel s candidate current 0 ≡ some (current, s)
unfolding link_free
link_free_zero zero s candidate current = refl
link_free_zero (suc fuel) s candidate current = refl

link_free-suc :
    (fuel : ℕ) (s : Fat) (candidate current n : ℕ)
    → link_free (suc fuel) s candidate current (suc n) ≡ (
        if entry s candidate == 0
        then link_free fuel
            (set_entry (get_fat s candidate).1 current candidate)
            (candidate + 1)
            candidate
            n
        else link_free fuel (get_fat s candidate).1 (candidate + 1) current (suc n))
unfolding link_free get_fat entry
link_free-suc fuel s candidate current n = refl

Ascending-mono : (k m : ℕ) (cs : List ℕ) → k ≤ m → Ascending m cs → Ascending k cs
Ascending-mono k m [] le a = tt
Ascending-mono k m (c ∷ cs) le a = (omega (arith, a.0), a.1)

-- One round: at a free cluster, and at one in use.
module _ (fuel : ℕ) (s : Fat) (candidate current n : ℕ)
    (cur : (current < candidate) ⊎ (entry s current ≢ 0)) where
  abbrev after_read : Fat
  after_read = (get_fat s candidate).1

  abbrev written : Fat
  written = set_entry after_read current candidate

  same : (j : ℕ) → entry after_read j ≡ entry s j
  same = (get_fat_lem s candidate).1

  entry-written :
      (j : ℕ)
      → candidate < 2 ^ 32
      → entry written j ≡ (if current == j then candidate else entry s j)
  entry-written j lt = ground (arith, entry-set_entry after_read current candidate j, same j)

  count-written :
      0 < candidate
      → candidate < 2 ^ 32
      → count_free written (candidate + 1) fuel ≡ count_free s (candidate + 1) fuel
  count-written pos lt =
      count_free_same s written (candidate + 1) fuel
        (λ j le. ground (arith, entry-written j lt, cur))

  found :
      entry s candidate ≡ 0
      → 0 < candidate
      → candidate < 2 ^ 32
      → Linked written
          (candidate + 1)
          candidate
          n
          (link_free fuel written (candidate + 1) candidate n)
      → Linked s candidate current (suc n) (link_free fuel written (candidate + 1) candidate n)
  found free pos lt rest =
      let away : elem current rest.clusters ≡ false =
        elim (Bool-cases (elem current rest.clusters)) [
          | inl e ↦ absurd (ground (arith, rest.were_free current e, entry-written current lt))
          | inr e ↦ e
        ] in
      record {
        clusters = candidate ∷ rest.clusters;
        after = rest.after;
        answers = rest.answers;
        count = ap suc rest.count;
        ascending = (omega arith, rest.ascending);
        were_free = λ j e. ground (arith, rest.were_free j, entry-written j lt, free);
        path = (
          ground (arith, rest.others current, away, entry-written current lt, cur, free),
          rest.path,
        );
        others = λ j ne e. ground (arith, rest.others j, entry-written j lt);
      }

  skip :
      Linked after_read
        (candidate + 1)
        current
        (suc n)
        (link_free fuel after_read (candidate + 1) current (suc n))
      → Linked s candidate current
          (suc n)
          (link_free fuel after_read (candidate + 1) current (suc n))
  skip rest = record {
    clusters = rest.clusters;
    after = rest.after;
    answers = rest.answers;
    count = rest.count;
    ascending = Ascending-mono candidate (candidate + 1) rest.clusters (omega arith) rest.ascending;
    were_free = λ j e. ground (arith, rest.were_free j e, same j);
    path = rest.path;
    others = λ j ne e. ground (arith, rest.others j ne e, same j);
  }

pub link_free-Linked :
    (fuel : ℕ) (s : Fat) (candidate current n : ℕ)
    → n ≤ count_free s candidate fuel
    → 0 < candidate
    → candidate + fuel ≤ 2 ^ 32
    → (current < candidate) ⊎ (entry s current ≢ 0)
    → Linked s candidate current n (link_free fuel s candidate current n)
link_free-Linked fuel s candidate current zero enough pos fits cur = record {
  clusters = [];
  after = s;
  answers = link_free_zero fuel s candidate current;
  count = refl;
  ascending = tt;
  were_free = λ j e. absurd (ground arith);
  path = tt;
  others = λ j ne e. refl;
}
link_free-Linked zero s candidate current (suc n) enough pos fits cur =
    absurd (omega (arith, count_free_zero s candidate))
link_free-Linked (suc fuel) s candidate current (suc n) enough pos fits cur =
    rw (link_free-suc fuel s candidate current n) (elim (Bool-cases (entry s candidate == 0)) [
      | inl e ↦ rw e (
          found fuel s candidate current n cur (ground arith) pos (omega arith) (
            link_free-Linked fuel (set_entry (get_fat s candidate).1 current candidate)
              (candidate + 1) candidate n
              (ground (
                arith,
                count_free-suc s candidate fuel,
                count-written fuel s candidate current n cur pos (omega arith),
              ))
              (omega arith) (omega arith) (inl (omega arith))))
      | inr e ↦ rw e (
          skip fuel s candidate current n cur (
            link_free-Linked fuel (get_fat s candidate).1 (candidate + 1) current (suc n)
              (ground (
                arith,
                count_free-suc s candidate fuel,
                count_free_same s (get_fat s candidate).1 (candidate + 1) fuel
                    (λ j le. ap (λ x. x == 0) ((get_fat_lem s candidate).1 j)),
              ))
              (omega arith) (omega arith)
              (ground (arith, cur, (get_fat_lem s candidate).1 current))))
    ])
