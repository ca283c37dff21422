-- ===== src/Fs/Extend.antt =====
-- What `ExtendCluster` and `AllocateClusterChain` do to the table.
use mathlib.Core.Path.{subst}
use kin_os.Base.{
  ℕ, zero, suc, ◌+◌, ◌-◌, ◌^◌, ◌≤◌, ◌<◌, ◌≡◌, ◌≢◌, refl, sym, ap, ◌∙◌, true, false, Option, some,
  List, [], ◌∷◌, ◌==◌, ltb, if◌then◌else◌, length, Bool-cases, inl, inr, arith,
}
use kin_os.Fs.{
  Fat, get_fat, end_of_chain, is_end, set_entry, find_end, link_free, extend_cluster, find_free,
  allocate_cluster_chain,
}
use kin_os.Fs.Table.{entry, get_fat_lem, entry-set_entry}
use kin_os.Fs.Chain.{
  elem, last, count_free, count_free_same, count_free-suc, count_free_zero, Leads, at_end, link,
  Chain, Ascending, Linked, link_free-Linked, Chain-set_entry, last-elem,
}

-- The end that the loop finds, in a state with the same table.
EndFound : Fat → ℕ → Option (ℕ × Fat) → Type 0
EndFound s e out = (s' : Fat) × (out ≡ some (e, s')) × ((j : ℕ) → entry s' j ≡ entry s j)

find_end-suc :
    (fuel : ℕ) (s : Fat) (c : ℕ)
    → find_end (suc fuel) s c ≡ (
        if is_end (entry s c)
        then some (c, (get_fat s c).1)
        else find_end fuel (get_fat s c).1 (entry s c))
unfolding find_end get_fat entry
find_end-suc fuel s c = refl

Leads-get_fat :
    {s : Fat} (t : Fat) {k c e : ℕ}
    → ((j : ℕ) → entry t j ≡ entry s j)
    → Leads s k c e
    → Leads t k c e
Leads-get_fat t {c = c} same (at_end h) = at_end (rw (same c) h)
Leads-get_fat t {c = c} same (link h l) =
    link (rw (same c) h) (rw (same c) (Leads-get_fat t same l))

find_end-EndFound :
    (fuel : ℕ) (s : Fat) (k c e : ℕ) → Leads s k c e → k < fuel → EndFound s e (find_end fuel s c)
unfolding EndFound
find_end-EndFound zero s k c e l lt = absurd (omega arith)
find_end-EndFound (suc fuel) s k c e (at_end h) lt =
    rw (find_end-suc fuel s c, h) ((get_fat s c).1, refl, (get_fat_lem s c).1)
find_end-EndFound (suc fuel) s k c e (link {k = k'} h l) lt =
    let same : (j : ℕ) → entry (get_fat s c).1 j ≡ entry s j = (get_fat_lem s c).1 in
    let (s', eq, keeps) =
      find_end-EndFound fuel (get_fat s c).1 k' (entry s c) e (Leads-get_fat (get_fat s c).1 same l)
        (omega arith) in
    rw (find_end-suc fuel s c, h) (s', eq, λ j. keeps j ∙ same j)

Leads-is_end : {s : Fat} {k c e : ℕ} → Leads s k c e → is_end (entry s e) ≡ true
Leads-is_end (at_end h) = h
Leads-is_end (link h l) = Leads-is_end l

-- What extending by `n` clusters the chain that ends in `e` promises: new clusters, ascending, which
-- were free, linked behind `e` and ended; the last of them; every other entry as it was.
pub record Extended (s : Fat) (e n : ℕ) (out : Option (ℕ × Fat)) : Type 0 where
  pub clusters : List ℕ
  pub after : Fat
  pub answers : out ≡ some (last e clusters, after)
  pub count : length clusters ≡ n
  pub ascending : Ascending 2 clusters
  pub were_free : (j : ℕ) → elem j clusters ≡ true → entry s j ≡ 0
  pub chain : Chain after e clusters
  pub others : (j : ℕ) → j ≢ e → elem j clusters ≡ false → entry after j ≡ entry s j

extend_with :
    (fuel : ℕ) (s s1 s2 : Fat) (c e n last_one : ℕ)
    → find_end fuel s c ≡ some (e, s1)
    → link_free fuel s1 2 e n ≡ some (last_one, s2)
    → extend_cluster fuel s c n ≡ some (last_one, set_entry s2 last_one end_of_chain)
unfolding extend_cluster
extend_with fuel s s1 s2 c e n last_one h g = rw (extend_cluster, h) (rw g refl)

-- A free cluster is not the end of a chain.
end-not_free :
    (s : Fat) (e : ℕ) (cs : List ℕ)
    → is_end (entry s e) ≡ true
    → ((j : ℕ) → elem j cs ≡ true → entry s j ≡ 0)
    → elem e cs ≡ false
end-not_free s e cs h free = elim (Bool-cases (elem e cs)) [
  | inl m ↦ absurd (ground (arith, free e m))
  | inr m ↦ m
]

last-other : (e j : ℕ) (cs : List ℕ) → j ≢ e → elem j cs ≡ false → last e cs ≢ j
last-other e j [] ne h q = ne (sym q)
last-other e j (c ∷ cs) ne h q = absurd (ground (arith, last-elem c j cs q))

-- `ExtendCluster` of a cluster of a chain that ends in `e`, with fuel for the chain and `n` free clusters
-- among the `fuel` from 2 on, returns: it puts `n` clusters that were free behind `e`, in ascending
-- order, marks the last of them, which it answers, as the end, and changes no other entry.
pub extend_cluster-Extended :
    (fuel : ℕ) (s : Fat) (k c e n : ℕ)
    → Leads s k c e
    → k < fuel
    → n ≤ count_free s 2 fuel
    → 2 + fuel ≤ 2 ^ 32
    → Extended s e n (extend_cluster fuel s c n)
unfolding EndFound
extend_cluster-Extended fuel s k c e n l lt enough fits =
    let (s1, found, same) = find_end-EndFound fuel s k c e l lt in
    let end : is_end (entry s e) ≡ true = Leads-is_end l in
    let more : n ≤ count_free s1 2 fuel =
      omega (arith, enough, count_free_same s s1 2 fuel (λ j le. ap (λ x. x == 0) (same j))) in
    let q : Linked s1 2 e n (link_free fuel s1 2 e n) =
      link_free-Linked fuel s1 2 e n more (omega arith) fits (inr (ground (arith, same e, end))) in
    let free : (j : ℕ) → elem j q.clusters ≡ true → entry s j ≡ 0 =
      λ j m. sym (same j) ∙ q.were_free j m in
    let ended : Fat = set_entry q.after (last e q.clusters) end_of_chain in
    record {
      clusters = q.clusters;
      after = ended;
      answers = extend_with fuel s s1 q.after c e n (last e q.clusters) found q.answers;
      count = q.count;
      ascending = q.ascending;
      were_free = free;
      chain =
          Chain-set_entry q.after e 2 q.clusters q.ascending (end-not_free s e q.clusters end free)
            q.path;
      others = λ j ne m. ground (
        arith,
        entry-set_entry q.after (last e q.clusters) end_of_chain j,
        last-other e j q.clusters ne m,
        q.others j ne m,
        same j,
      );
    }

-- The free cluster that the loop of `AllocateClusterChain` takes.
record FreeFound (s : Fat) (candidate : ℕ) (out : Option (ℕ × Fat)) : Type 0 where
  cluster : ℕ
  after : Fat
  answers : out ≡ some (cluster, after)
  from : candidate ≤ cluster
  was_free : entry s cluster ≡ 0
  entries : (j : ℕ) → entry after j ≡ (if cluster == j then end_of_chain else entry s j)

find_free-suc :
    (fuel : ℕ) (s : Fat) (c : ℕ)
    → find_free (suc fuel) s c ≡ (
        if entry s c == 0
        then some (c, set_entry s c end_of_chain)
        else find_free fuel (get_fat s c).1 (c + 1))
unfolding find_free get_fat set_entry entry
find_free-suc fuel s c = refl

find_free-FreeFound :
    (fuel : ℕ) (s : Fat) (candidate : ℕ)
    → 0 < count_free s candidate fuel
    → FreeFound s candidate (find_free fuel s candidate)
find_free-FreeFound zero s candidate some_free = absurd (omega (arith, count_free_zero s candidate))
find_free-FreeFound (suc fuel) s candidate some_free = elim (Bool-cases (entry s candidate == 0)) [
  | inl e ↦
      rw (find_free-suc fuel s candidate, e)
        (record {
          cluster = candidate;
          after = set_entry s candidate end_of_chain;
          answers = refl;
          from = omega arith;
          was_free = ground arith;
          entries = λ j. ground (arith, entry-set_entry s candidate end_of_chain j);
        })
  | inr e ↦
      let same : (j : ℕ) → entry (get_fat s candidate).1 j ≡ entry s j =
        (get_fat_lem s candidate).1 in
      let rest : FreeFound (get_fat s candidate).1 (candidate + 1)
          (find_free fuel (get_fat s candidate).1 (candidate + 1)) =
        find_free-FreeFound fuel (get_fat s candidate).1 (candidate + 1) (
          ground (
            arith,
            count_free-suc s candidate fuel,
            count_free_same s (get_fat s candidate).1 (candidate + 1) fuel
                (λ j le. ap (λ x. x == 0) (same j)),
          )) in
      rw (find_free-suc fuel s candidate, e)
        (record {
          cluster = rest.cluster;
          after = rest.after;
          answers = rest.answers;
          from = omega (arith, rest.from);
          was_free = ground (arith, rest.was_free, same rest.cluster);
          entries = λ j. ground (arith, rest.entries j, same j);
        })
]

-- Taking one cluster takes one free cluster at most.
count_free_but :
    (s t : Fat) (c candidate fuel : ℕ)
    → ((j : ℕ) → entry t j ≡ (if c == j then end_of_chain else entry s j))
    → count_free s candidate fuel ≤ count_free t candidate fuel + 1
count_free_but s t c candidate zero h = omega (arith, count_free_zero s candidate)
count_free_but s t c candidate (suc fuel) h = elim (Bool-cases (c == candidate)) [
  | inl e ↦ ground (
    arith,
    count_free-suc s candidate fuel,
    count_free-suc t candidate fuel,
    count_free_same s t (candidate + 1) fuel (λ j le. ground (arith, h j)),
  )
  | inr e ↦ ground (
    arith,
    count_free-suc s candidate fuel,
    count_free-suc t candidate fuel,
    h candidate,
    count_free_but s t c (candidate + 1) fuel h,
  )
]

-- What a new chain of `n` clusters promises.
pub record Allocated (s : Fat) (n : ℕ) (out : Option (ℕ × Fat)) : Type 0 where
  pub first : ℕ
  pub rest : List ℕ
  pub after : Fat
  pub answers : out ≡ some (first, after)
  pub count : suc (length rest) ≡ n
  pub from : 2 ≤ first
  pub were_free : (j : ℕ) → elem j (first ∷ rest) ≡ true → entry s j ≡ 0
  pub chain : Chain after first rest
  pub others : (j : ℕ) → elem j (first ∷ rest) ≡ false → entry after j ≡ entry s j

allocate_one :
    (fuel : ℕ) (s s1 : Fat) (c : ℕ)
    → find_free fuel s 2 ≡ some (c, s1)
    → allocate_cluster_chain fuel s 1 ≡ some (c, s1)
unfolding allocate_cluster_chain
allocate_one fuel s s1 c h = rw (allocate_cluster_chain, h) refl

allocate_more :
    (fuel : ℕ) (s s1 s2 : Fat) (c n last_one : ℕ)
    → find_free fuel s 2 ≡ some (c, s1)
    → extend_cluster fuel s1 c (suc n) ≡ some (last_one, s2)
    → allocate_cluster_chain fuel s (suc (suc n)) ≡ some (c, s2)
unfolding allocate_cluster_chain
allocate_more fuel s s1 s2 c n last_one h g =
    let b : ltb 1 (suc (suc n)) ≡ true = ground arith in
    let m : suc n ≡ suc (suc n) - 1 = omega arith in
    let g' : extend_cluster fuel s1 c (suc (suc n) - 1) ≡ some (last_one, s2) =
      subst (λ k. extend_cluster fuel s1 c k ≡ some (last_one, s2)) m g in
    rw (allocate_cluster_chain, h) (rw b (rw g' refl))

-- `AllocateClusterChain` of `n` clusters, one or more, if so many are free among the `fuel` from 2 on:
-- it returns the first cluster of a chain of `n` that were all free, and changes no other entry.
pub allocate_cluster_chain-Allocated :
    (fuel : ℕ) (s : Fat) (n : ℕ)
    → 0 < n
    → n ≤ count_free s 2 fuel
    → 0 < fuel
    → 2 + fuel ≤ 2 ^ 32
    → Allocated s n (allocate_cluster_chain fuel s n)
allocate_cluster_chain-Allocated fuel s zero pos enough some_fuel fits = absurd (omega arith)
allocate_cluster_chain-Allocated fuel s (suc zero) pos enough some_fuel fits =
    let f : FreeFound s 2 (find_free fuel s 2) = find_free-FreeFound fuel s 2 (omega arith) in
    record {
      first = f.cluster;
      rest = [];
      after = f.after;
      answers = allocate_one fuel s f.after f.cluster f.answers;
      count = refl;
      from = f.from;
      were_free = λ j m. ground (arith, f.was_free);
      chain = ground (arith, f.entries f.cluster);
      others = λ j m. ground (arith, f.entries j);
    }
allocate_cluster_chain-Allocated fuel s (suc (suc n)) pos enough some_fuel fits =
    let f : FreeFound s 2 (find_free fuel s 2) = find_free-FreeFound fuel s 2 (omega arith) in
    let x : Extended f.after f.cluster (suc n) (extend_cluster fuel f.after f.cluster (suc n)) =
      extend_cluster-Extended fuel f.after 0 f.cluster f.cluster (suc n)
        (at_end (ground (arith, f.entries f.cluster))) some_fuel
        (omega (arith, count_free_but s f.after f.cluster 2 fuel f.entries)) fits in
    record {
      first = f.cluster;
      rest = x.clusters;
      after = x.after;
      answers =
          allocate_more fuel s f.after x.after f.cluster n (last f.cluster x.clusters) f.answers
            x.answers;
      count = ap suc x.count;
      from = f.from;
      were_free = λ j m. ground (arith, f.was_free, x.were_free j, f.entries j);
      chain = x.chain;
      others = λ j m. ground (arith, x.others j, f.entries j);
    }
