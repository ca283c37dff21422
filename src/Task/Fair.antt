-- ===== src/Task/Fair.antt =====
-- The rotation is fair: of the tasks of the level that runs, each gets its turn.
use mathlib.Core.List.{append-nil, append_assoc}
use kin_os.Base.{
  ℕ, zero, suc, ◌<◌, ◌≡◌, refl, sym, ap, ◌∙◌, false, Option, some, List, [], ◌∷◌, ◌++◌, length,
  and_then, arith, Bool-cases, inl, inr, ltb,
}
use kin_os.Task.{
  TaskManager, current_task, front, is_empty, max_level, update, pop_front, rotated_queue,
}
use kin_os.Task.Manager.{switch_task}
use kin_os.Task.Lists.{IsHighest}
use kin_os.Task.Rotate.{Chosen, switch_task-Chosen, update_self}

-- That many calls of `SwitchTask` in turn.
unfoldable pub switches : ℕ → TaskManager → Option TaskManager
switches zero tm = some tm
switches (suc n) tm = and_then (switch_task tm) (switches n)

highest_unique :
    (running : ℕ → List ℕ) (i j : ℕ)
    → IsHighest running max_level i
    → IsHighest running max_level j
    → i ≡ j
highest_unique running i j (a, b, c) (a', b', c') = elim (Bool-cases (ltb i j)) [
  | inl lt ↦ let e = c j (ground arith) b' in absurd (cc (e, a'))
  | inr ge ↦ elim (Bool-cases (ltb j i)) [
    | inl lt ↦ let e = c' i (ground arith) b in absurd (cc (e, a))
    | inr le ↦ ground arith
  ]
]

not_empty : (xs : List ℕ) (c : ℕ) → is_empty (xs ++ (c ∷ [])) ≡ false
not_empty [] c = refl
not_empty (x ∷ xs) c = refl

update_other : (f : ℕ → List ℕ) (i k : ℕ) (v : List ℕ) → i < k → update f i v k ≡ f k
update_other f i k v lt = ground arith

-- The front of the queue goes to its back, and its level stays the current one.
one_switch :
    (tm : TaskManager) (c : ℕ) (rest : List ℕ)
    → Chosen tm
    → tm.running tm.current_level ≡ c ∷ rest
    → (tm' : TaskManager) × (switch_task tm ≡ some tm')
      × Chosen tm'
      × (tm'.current_level ≡ tm.current_level)
      × (tm'.running tm.current_level ≡ rest ++ (c ∷ []))
unfolding current_task
one_switch tm c rest ch e =
    let (d, tm', cur, sw, run, tasks, due, ids, codes, waiters, ch') =
      switch_task-Chosen ch.valid in
    let d_is : d ≡ c = (let p : some d ≡ some c = sym cur ∙ ap front e in ground (arith, p)) in
    let queue : tm'.running tm.current_level ≡ rest ++ (c ∷ []) =
      ap (λ (f : ℕ → List ℕ). f tm.current_level) run
      ∙ (update_self tm.running tm.current_level (rotated_queue tm false d)
          ∙ (ap (λ xs. pop_front xs ++ (d ∷ [])) e ∙ ap (λ x. rest ++ (x ∷ [])) d_is)) in
    let old : IsHighest tm'.running max_level tm.current_level = (
      ap is_empty queue ∙ not_empty rest c,
      ch.highest.1,
      λ k lo up.
          ap (λ (f : ℕ → List ℕ). is_empty (f k)) run
          ∙ (ap is_empty (update_other tm.running tm.current_level k (rotated_queue tm false d) lo)
              ∙ ch.highest.2 k lo up),
    ) in
    (
      tm',
      sw,
      ch',
      highest_unique tm'.running tm'.current_level tm.current_level ch'.highest old,
      queue,
    )

-- Once the scheduler has chosen a level, and as long as no task wakes or sleeps, a task of this level before
-- which `xs` stand in the queue is the current one after just as many calls of `SwitchTask`: none of
-- them fails, the level stays, and those before it are then behind the others, in order.
pub switches-current :
    (tm : TaskManager) (xs ys : List ℕ) (id : ℕ)
    → Chosen tm
    → tm.running tm.current_level ≡ xs ++ (id ∷ ys)
    → (tm' : TaskManager) × (switches (length xs) tm ≡ some tm')
      × (current_task tm' ≡ some id)
      × (tm'.current_level ≡ tm.current_level)
      × (tm'.running tm'.current_level ≡ id ∷ (ys ++ xs))
      × Chosen tm'
unfolding switches current_task
switches-current tm [] ys id ch e =
    (tm, refl, ap front e, refl, e ∙ ap (λ zs. id ∷ zs) (sym (append-nil ys)), ch)
switches-current tm (x ∷ xs) ys id ch e =
    let (tm1, sw, ch1, level, queue) = one_switch tm x (xs ++ (id ∷ ys)) ch e in
    let queue1 : tm1.running tm1.current_level ≡ xs ++ (id ∷ (ys ++ (x ∷ []))) =
      ap tm1.running level ∙ (queue ∙ append_assoc xs (id ∷ ys) (x ∷ [])) in
    let (tm', s, cur, level', queue', ch') =
      switches-current tm1 xs (ys ++ (x ∷ [])) id ch1 queue1 in
    (
      tm',
      rw (switches, sw) s,
      cur,
      level' ∙ level,
      queue' ∙ ap (λ zs. id ∷ zs) (append_assoc ys (x ∷ []) xs),
      ch',
    )
