-- ===== src/Task/Queues.antt =====
-- The run queues and the task table stay in agreement when an id leaves a queue or enters one.
use kin_os.Base.{
  ℕ, ◌≤◌, ◌≡◌, refl, ◌∙◌, true, false, not, ◌&&◌, some, List, [], ◌∷◌, ◌++◌, ◌==◌, if◌then◌else◌,
  Bool-cases, inl, inr, arith, Option-cases, sym,
}
use kin_os.Task.{Task, find_task, update_task, erase, is_empty, pop_front, front, update, max_level}
use kin_os.Task.Manager.{remove_task, set_level, set_not_running}
use kin_os.Task.Lists.{
  elem, UniqueIds, elem-append, elem-erase, elem-pop_front, elem-front, Unique-append, Unique-erase,
  Unique-pop_front, find_task-update_task, find_task-remove_task, UniqueIds-update_task,
  UniqueIds-remove_task, elem_of_is_empty,
}
use kin_os.Task.Invariant.{is_ready, Agree}

-- A task that is ready is so at its own level alone.
pub one_level :
    (id lv k : ℕ) (ts : List Task) → is_ready id lv ts ≡ true → is_ready id k ts ≡ (lv == k)
one_level id lv k ts h = ground arith

-- The table `ts'` is `ts` with `id` no longer ready.
pub record Removed (id : ℕ) (ts ts' : List Task) : Type 0 where
  pub distinct : UniqueIds ts'
  pub ready : (j k : ℕ) → is_ready j k ts' ≡ (not (id == j) && is_ready j k ts)

-- The table `ts'` is `ts` with `id` ready at level `lv`.
pub record Readied (id lv : ℕ) (ts ts' : List Task) : Type 0 where
  pub distinct : UniqueIds ts'
  pub ready : (j k : ℕ) → is_ready j k ts' ≡ (if id == j then lv == k else is_ready j k ts)

module _ (running : ℕ → List ℕ) (ts : List Task) (a : Agree running ts) where
  -- An id that stands in one queue stands in no other.
  pub queue_of : (id lv k : ℕ) → elem id (running lv) ≡ true → elem id (running k) ≡ (lv == k)
  queue_of id lv k h = a.queued id k ∙ one_level id lv k ts (sym (a.queued id lv) ∙ h)

  pub queued_at_most : (id lv : ℕ) → elem id (running lv) ≡ true → lv ≤ max_level
  queued_at_most id lv h = elim (Bool-cases (is_empty (running lv))) [
    | inl e ↦ cc (elem_of_is_empty (running lv) id e, h)
    | inr e ↦ ground (arith, a.capped lv)
  ]

  -- The front goes behind the others.
  pub Agree-rotate :
      (lv c : ℕ)
      → front (running lv) ≡ some c
      → Agree (update running lv (pop_front (running lv) ++ (c ∷ []))) ts
  Agree-rotate lv c h = record {
    queued = λ id k. ground (
      arith,
      a.queued id k,
      elem-append id (pop_front (running lv)) (c ∷ []),
      elem-pop_front (running lv) c id (a.once lv) h,
      elem-front (running lv) c h,
    );
    once = λ k. elim (Bool-cases (lv == k)) [
      | inl e ↦ rw e (
          Unique-append c (pop_front (running lv)) (Unique-pop_front (running lv) (a.once lv))
            (ground (arith, elem-pop_front (running lv) c c (a.once lv) h)))
      | inr e ↦ rw e (a.once k)
    ];
    distinct = a.distinct;
    capped = λ k hk. ground (arith, a.capped k, queued_at_most c lv (elem-front (running lv) c h));
  }

  -- The front leaves its queue, and is not ready any more.
  pub Agree-drop_front :
      (lv c : ℕ) {ts' : List Task}
      → front (running lv) ≡ some c
      → Removed c ts ts'
      → Agree (update running lv (pop_front (running lv))) ts'
  Agree-drop_front lv c h r = record {
    queued = λ id k. ground (
      arith,
      a.queued id k,
      r.ready id k,
      elem-pop_front (running lv) c id (a.once lv) h,
      queue_of c lv k (elem-front (running lv) c h),
    );
    once = λ k. elim (Bool-cases (lv == k)) [
      | inl e ↦ rw e (Unique-pop_front (running lv) (a.once lv))
      | inr e ↦ rw e (a.once k)
    ];
    distinct = r.distinct;
    capped = λ k hk. ground (arith, a.capped k, queued_at_most c lv (elem-front (running lv) c h));
  }

  -- An id that is queued at `lv` is erased there, and is not ready any more.
  pub Agree-erase :
      (lv id : ℕ) {ts' : List Task}
      → elem id (running lv) ≡ true
      → Removed id ts ts'
      → Agree (update running lv (erase id (running lv))) ts'
  Agree-erase lv id h r = record {
    queued = λ j k.
        ground (arith, a.queued j k, r.ready j k, elem-erase j id (running lv), queue_of id lv k h);
    once = λ k. elim (Bool-cases (lv == k)) [
      | inl e ↦ rw e (Unique-erase id (running lv) (a.once lv))
      | inr e ↦ rw e (a.once k)
    ];
    distinct = r.distinct;
    capped = λ k hk. ground (arith, a.capped k, queued_at_most id lv h);
  }

  -- An id that is in no queue enters one, at the back or at the front.
  pub Agree-push_back :
      (lv id : ℕ) {ts' : List Task}
      → lv ≤ max_level
      → ((k : ℕ) → elem id (running k) ≡ false)
      → Readied id lv ts ts'
      → Agree (update running lv (running lv ++ (id ∷ []))) ts'
  Agree-push_back lv id le h r = record {
    queued =
        λ j k. ground (arith, a.queued j k, r.ready j k, elem-append j (running lv) (id ∷ []), h k);
    once = λ k. elim (Bool-cases (lv == k)) [
      | inl e ↦ rw e (Unique-append id (running lv) (a.once lv) (h lv))
      | inr e ↦ rw e (a.once k)
    ];
    distinct = r.distinct;
    capped = λ k hk. ground (arith, a.capped k);
  }

  pub Agree-push_front :
      (lv id : ℕ) {ts' : List Task}
      → lv ≤ max_level
      → ((k : ℕ) → elem id (running k) ≡ false)
      → Readied id lv ts ts'
      → Agree (update running lv (id ∷ running lv)) ts'
  Agree-push_front lv id le h r = record {
    queued = λ j k. ground (arith, a.queued j k, r.ready j k, h k);
    once = λ k. elim (Bool-cases (lv == k)) [
      | inl e ↦ rw e (h lv, a.once lv)
      | inr e ↦ rw e (a.once k)
    ];
    distinct = r.distinct;
    capped = λ k hk. ground (arith, a.capped k);
  }

-- Clearing the running flag, and leaving the table, make a task not ready.
pub Removed-update_task :
    (id : ℕ) (f : Task → Task) (ts : List Task)
    → UniqueIds ts
    → ((t : Task) → (f t).id ≡ t.id)
    → ((t : Task) → (f t).running ≡ false)
    → Removed id ts (update_task id f ts)
Removed-update_task id f ts u h stop = record {
  distinct = UniqueIds-update_task id f ts h u;
  ready = λ j k. elim (Option-cases (find_task id ts)) [
    | inl e ↦ ground (arith, find_task-update_task id j f ts h)
    | inr (t, e) ↦ ground (arith, find_task-update_task id j f ts h, stop t)
  ];
}

pub Removed-remove_task :
    (id : ℕ) (ts : List Task) → UniqueIds ts → Removed id ts (remove_task id ts)
Removed-remove_task id ts u = record {
  distinct = UniqueIds-remove_task id ts u;
  ready = λ j k. ground (arith, find_task-remove_task id j ts u);
}

-- A write that makes the task ready at `lv`.
pub Readied-update_task :
    (id lv : ℕ) (f : Task → Task) (ts : List Task) {t : Task}
    → UniqueIds ts
    → find_task id ts ≡ some t
    → ((u : Task) → (f u).id ≡ u.id)
    → ((f t).running ≡ true)
    → ((f t).level ≡ lv)
    → Readied id lv ts (update_task id f ts)
Readied-update_task id lv f ts {t} u e h run level = record {
  distinct = UniqueIds-update_task id f ts h u;
  ready = λ j k. ground (arith, find_task-update_task id j f ts h);
}

-- A running task moves to another level by way of a table in which it does not run.
pub Readied-set_level :
    (t : Task) (lv : ℕ) (ts : List Task)
    → UniqueIds ts
    → find_task t.id ts ≡ some t
    → t.running ≡ true
    → Readied t.id lv (update_task t.id set_not_running ts) (update_task t.id (set_level lv) ts)
Readied-set_level t lv ts u e run = record {
  distinct = UniqueIds-update_task t.id (set_level lv) ts (λ u. refl) u;
  ready = λ j k. ground (
    arith,
    find_task-update_task t.id j (set_level lv) ts (λ u. refl),
    find_task-update_task t.id j set_not_running ts (λ u. refl),
  );
}
