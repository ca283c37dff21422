-- ===== src/Task/Sleep.antt =====
-- What `Sleep`, `Finish` and `NewTask` do to a valid state.
use mathlib.Core.Path.{subst}
use kin_os.Base.{
  ℕ, ◌+◌, ◌≡◌, refl, ◌≢◌, ◌∙◌, true, false, none, some, [], ◌∷◌, ◌++◌, ◌==◌, if◌then◌else◌,
  Bool-cases, inl, inr, arith, Option-cases, sym,
}
use kin_os.Task.{
  Task, TaskManager, find_task, update_task, erase, current_task, update, rotate_current_run_queue,
  rotated, new_task, make_task,
}
use kin_os.Task.Manager.{set_not_running, sleep}
use kin_os.Task.Lists.{
  elem, find_task-update_task, elem-erase, elem-front, elem-pop_front, is_empty-erase,
  is_empty-elem, find_task-append, UniqueIds-append,
}
use kin_os.Task.Invariant.{IsValid, idle_id, is_ready}
use kin_os.Task.Queues.{Removed, Removed-update_task, Agree-drop_front, Agree-erase}
use kin_os.Task.Rotate.{current_some, current_le, rotated-Chosen, Chosen}
use kin_os.Task.Valid.{fresh-update_task, small-update_task}

-- The state `tm'` is valid, `id` is in no queue of it, and the other tasks are as in `tm`.
pub record Asleep (id : ℕ) (tm tm' : TaskManager) : Type 0 where
  pub valid : IsValid tm'
  pub gone : (lv : ℕ) → elem id (tm'.running lv) ≡ false
  pub others : (j : ℕ) → id ≢ j → find_task j tm'.tasks ≡ find_task j tm.tasks

module _ {tm : TaskManager} (v : IsValid tm) (id : ℕ) (ne : id ≢ idle_id) where
  abbrev stopped : TaskManager
  stopped = record tm { tasks = update_task id set_not_running tm.tasks }

  removed : Removed id tm.tasks stopped.tasks
  removed = Removed-update_task id set_not_running tm.tasks v.agree.distinct (λ u. refl) (λ u. refl)

  -- The current task goes to sleep: the next one runs.
  sleep_self-Chosen : current_task tm ≡ some id → Chosen (rotated stopped true id)
  unfolding current_task
  sleep_self-Chosen cur =
      rotated-Chosen stopped true id (current_le v)
        (Agree-drop_front tm.running tm.tasks v.agree tm.current_level id cur removed)
        (fresh-update_task id tm.latest_id set_not_running tm.tasks (λ u. refl) v.fresh)
        (small-update_task id set_not_running tm.tasks (λ u. refl) (λ u le. le) v.small) v.top
        (ground (
          arith,
          v.idle_ready,
          elem-pop_front (tm.running tm.current_level) id idle_id (v.agree.once tm.current_level)
              cur,
        ))

  -- Another task leaves its queue.
  sleep_other-IsValid :
      (t : Task) (c : ℕ)
      → find_task id tm.tasks ≡ some t
      → t.running ≡ true
      → current_task tm ≡ some c
      → c ≢ id
      → IsValid
          (record stopped { running = update tm.running t.level (erase id (tm.running t.level)) })
  unfolding current_task
  sleep_other-IsValid t c e run cur off = record {
    agree =
        Agree-erase tm.running tm.tasks v.agree t.level id
          (ground (arith, v.agree.queued id t.level)) removed;
    fresh = fresh-update_task id tm.latest_id set_not_running tm.tasks (λ u. refl) v.fresh;
    small = small-update_task id set_not_running tm.tasks (λ u. refl) (λ u le. le) v.small;
    busy = is_empty-elem _ c (
        ground (
          arith,
          elem-front (tm.running tm.current_level) c cur,
          elem-erase c id (tm.running t.level),
        ));
    top = λ same k lo. ground (arith, v.top same k lo, is_empty-erase id (tm.running t.level));
    idle_ready = ground (arith, v.idle_ready, elem-erase idle_id id (tm.running t.level));
  }

  -- A task that does not run is in no queue.
  not_queued :
      {tm' : TaskManager}
      → IsValid tm'
      → tm'.tasks ≡ stopped.tasks
      → (lv : ℕ) → elem id (tm'.running lv) ≡ false
  not_queued {tm'} v' e lv =
      v'.agree.queued id lv
      ∙ subst (λ ts. is_ready id lv ts ≡ false) (sym e) (ground (arith, removed.ready id lv))

  asleep : {tm' : TaskManager} → IsValid tm' → tm'.tasks ≡ stopped.tasks → Asleep id tm tm'
  asleep v' e = record {
    valid = v';
    gone = not_queued v' e;
    others = λ j off.
        rw e (ground (arith, find_task-update_task id j set_not_running tm.tasks (λ u. refl)));
  }

  sleep_stopped :
      (t : Task)
      → find_task id tm.tasks ≡ some t
      → t.running ≡ false
      → (sleep tm id ≡ some tm) × Asleep id tm tm
  unfolding sleep
  sleep_stopped t e run = (
    ground arith,
    record { valid = v; gone = λ lv. ground (arith, v.agree.queued id lv); others = λ j off. refl },
  )

  sleep_self :
      (t : Task)
      → find_task id tm.tasks ≡ some t
      → t.running ≡ true
      → current_task tm ≡ some id
      → sleep tm id ≡ some (rotated stopped true id)
  unfolding sleep rotate_current_run_queue current_task
  sleep_self t e run cur = ground arith

  sleep_other :
      (t : Task) (c : ℕ)
      → find_task id tm.tasks ≡ some t
      → t.running ≡ true
      → current_task tm ≡ some c
      → c ≢ id
      → sleep tm id
        ≡ some
            (record stopped { running = update tm.running t.level (erase id (tm.running t.level)) })
  unfolding sleep
  sleep_other t c e run cur off = ground arith

  -- `Sleep` of any task but the idle one succeeds in a valid state. The task is in no queue after it, no
  -- other task is touched, and the invariant holds. If it was the current task, the level chosen next
  -- is the highest that has a ready task.
  pub sleep-Asleep :
      {t : Task}
      → find_task id tm.tasks ≡ some t
      → (tm' : TaskManager) × (sleep tm id ≡ some tm')
        × Asleep id tm tm'
        × (t.running ≡ true → current_task tm ≡ some id → Chosen tm')
  sleep-Asleep {t} e = elim (Bool-cases t.running) [
    | inr run ↦ (tm, (sleep_stopped t e run).0, (sleep_stopped t e run).1, λ r. cc)
    | inl run ↦
        let (c, cur) = current_some v in
        elim (Bool-cases (c == id)) [
          | inl self ↦
              let here : current_task tm ≡ some id = ground arith in
              let chosen : Chosen (rotated stopped true id) = sleep_self-Chosen here in
              (
                rotated stopped true id,
                sleep_self t e run here,
                asleep chosen.valid (unfold rotated in refl),
                λ _ _. chosen,
              )
          | inr off ↦
              let away : c ≢ id = ground arith in
              (
                record stopped {
                  running = update tm.running t.level (erase id (tm.running t.level));
                },
                sleep_other t c e run cur away,
                asleep (sleep_other-IsValid t c e run cur away) refl,
                λ _ here. absurd (away (cc (cur, here))),
              )
        ]
  ]

-- `NewTask` makes a task with an id that no task has, in no queue, and keeps the state valid and every
-- other task as it is.
pub new_task-IsValid :
    {tm : TaskManager}
    → IsValid tm
    → let (id, tm') = new_task tm in
      IsValid tm'
      × (find_task id tm.tasks ≡ none)
      × (find_task id tm'.tasks ≡ some (make_task id))
      × ((lv : ℕ) → elem id (tm'.running lv) ≡ false)
      × ((j : ℕ) → id ≢ j → find_task j tm'.tasks ≡ find_task j tm.tasks)
unfolding new_task
new_task-IsValid {tm} v =
    let id : ℕ = tm.latest_id + 1 in
    let none_yet : find_task id tm.tasks ≡ none = v.fresh id (omega arith) in
    let find : (j : ℕ)
        → find_task j (tm.tasks ++ (make_task id ∷ [])) ≡ elim (find_task j tm.tasks) [
          | some u ↦ some u
          | none ↦ if id == j then some (make_task id) else none
        ] =
      λ j. find_task-append j tm.tasks (make_task id) in
    (
      record {
        agree = record {
          queued = λ j lv. ground (arith, v.agree.queued j lv, find j);
          once = v.agree.once;
          distinct = UniqueIds-append tm.tasks (make_task id) v.agree.distinct none_yet;
          capped = v.agree.capped;
        };
        fresh = λ j lt. ground (arith, v.fresh j (omega arith), find j);
        small = λ j t e. elim (Option-cases (find_task j tm.tasks)) [
          | inl n ↦ ground (arith, find j)
          | inr (u, p) ↦ ground (arith, find j, v.small j u p)
        ];
        busy = v.busy;
        top = v.top;
        idle_ready = v.idle_ready;
      },
      none_yet,
      ground (arith, find id),
      (λ lv. ground (arith, v.agree.queued id lv)),
      λ j off. ground (arith, find j),
    )
