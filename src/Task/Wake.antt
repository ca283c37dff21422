-- ===== src/Task/Wake.antt =====
-- What `Wakeup` and `SendMessage` do, whatever the state of the task.
use mathlib.Core.Option
use mathlib.Core.Path.{subst}
use kin_os.Base.{
  ℕ, ◌≤◌, ◌≡◌, refl, ◌≢◌, ◌∙◌, true, false, Option, none, some, [], ◌∷◌, ◌++◌, ◌==◌, Bool-cases,
  inl, inr, arith, Option-cases, sym,
}
use kin_os.Error.{success}
use kin_os.Message.{Message}
use kin_os.Task.{Task, TaskManager, find_task, update_task, max_level}
use kin_os.Task.Manager.{
  level_or, set_level_running, set_level, move_other, move_self, change_level_running, make_ready,
  wakeup, send_message, push_msg,
}
use kin_os.Task.Lists.{find_task-update_task, find_task-id, UniqueIds-update_task}
use kin_os.Task.Invariant.{IsValid, idle_id, is_ready}
use kin_os.Task.Rotate.{current_some}
use kin_os.Task.Valid.{
  make_ready-IsValid, move_other-IsValid, move_self-IsValid, fresh-update_task, small-update_task,
}

-- The state `tm'` is valid, `id` is ready in it at level `lv`, and the other tasks are as in `tm`.
pub record Woken (id lv : ℕ) (tm tm' : TaskManager) : Type 0 where
  pub valid : IsValid tm'
  pub ready : is_ready id lv tm'.tasks ≡ true
  pub others : (j : ℕ) → id ≢ j → find_task j tm'.tasks ≡ find_task j tm.tasks
  pub own :
      Option.map (λ t. t.msgs) (find_task id tm'.tasks)
      ≡ Option.map (λ t. t.msgs) (find_task id tm.tasks)

-- A write to the task leaves its messages and the other tasks alone.
update_task-Woken :
    {tm tm' : TaskManager} (id lv : ℕ) (f : Task → Task) {t : Task}
    → IsValid tm'
    → tm'.tasks ≡ update_task id f tm.tasks
    → find_task id tm.tasks ≡ some t
    → ((u : Task) → (f u).id ≡ u.id)
    → ((u : Task) → (f u).msgs ≡ u.msgs)
    → (f t).running ≡ true
    → (f t).level ≡ lv
    → Woken id lv tm tm'
update_task-Woken {tm} id lv f {t} v e find h m run level = record {
  valid = v;
  ready = rw e (ground (arith, find_task-update_task id id f tm.tasks h));
  others = λ j ne. rw e (ground (arith, find_task-update_task id j f tm.tasks h));
  own = rw e (ground (arith, find_task-update_task id id f tm.tasks h, m t));
}

wakeup_running :
    (tm : TaskManager) (id : ℕ) (level : Option ℕ) (t : Task)
    → find_task id tm.tasks ≡ some t
    → t.running ≡ true
    → wakeup tm id level ≡ change_level_running tm t level
unfolding wakeup
wakeup_running tm id level t e run = ground arith

wakeup_stopped :
    (tm : TaskManager) (id : ℕ) (level : Option ℕ) (t : Task)
    → find_task id tm.tasks ≡ some t
    → t.running ≡ false
    → wakeup tm id level ≡ some (make_ready tm id (level_or level t.level))
unfolding wakeup
wakeup_stopped tm id level t e stopped = ground arith

module _ {tm : TaskManager} (v : IsValid tm) where
  stays-Woken :
      (id lv : ℕ) {t : Task}
      → find_task id tm.tasks ≡ some t
      → t.running ≡ true
      → t.level ≡ lv
      → Woken id lv tm tm
  stays-Woken id lv e run level = record {
    valid = v;
    ready = ground arith;
    others = λ j ne. refl;
    own = refl;
  }

  change_level-Woken :
      (t : Task) (lv : ℕ)
      → find_task t.id tm.tasks ≡ some t
      → t.running ≡ true
      → lv ≤ max_level
      → t.id ≢ idle_id
      → (tm' : TaskManager) × (change_level_running tm t (some lv) ≡ some tm')
        × Woken t.id lv tm tm'
  unfolding change_level_running
  change_level-Woken t lv e run le ne = elim (Bool-cases (lv == t.level)) [
    | inl same ↦ (tm, rw same refl, stays-Woken t.id lv e run (ground arith))
    | inr other ↦
        let (c, cur) = current_some v in
        elim (Bool-cases (c == t.id)) [
          | inl self ↦
              let p : c ≡ t.id = ground arith in
              (
                move_self tm t lv,
                rw (other, cur, self) refl,
                update_task-Woken t.id lv (set_level lv)
                    (move_self-IsValid v t lv e run le ne (cc (cur, p))) (unfold move_self in refl)
                    e (λ u. refl) (λ u. refl) run refl,
              )
          | inr off ↦ (
            move_other tm t lv,
            rw (other, cur, off) refl,
            update_task-Woken t.id lv (set_level lv)
                (move_other-IsValid v t lv e run le ne c cur (ground arith))
                (unfold move_other in refl) e (λ u. refl) (λ u. refl) run refl,
          )
        ]
  ]

  -- The call of `ChangeLevelRunning`, with the id that the task was looked up by.
  running-Woken :
      (id : ℕ) (level : Option ℕ) (t : Task)
      → find_task id tm.tasks ≡ some t
      → t.running ≡ true
      → level_or level t.level ≤ max_level
      → id ≢ idle_id
      → (tm' : TaskManager) × (change_level_running tm t level ≡ some tm')
        × Woken id (level_or level t.level) tm tm'
  running-Woken id none t e run le ne =
      (tm, unfold change_level_running in refl, stays-Woken id t.level e run refl)
  running-Woken id (some lv) t e run le ne =
      let same_id : t.id ≡ id = find_task-id id tm.tasks t e in
      subst
        (λ i.
          (tm' : TaskManager) × (change_level_running tm t (some lv) ≡ some tm')
          × Woken i lv tm tm')
        same_id
        (change_level-Woken t lv (subst (λ i. find_task i tm.tasks ≡ some t) (sym same_id) e) run le
          (λ p. ne (sym same_id ∙ p)))

  -- `Wakeup` of a task that there is, and is not the idle one, at a level up to the highest, succeeds in
  -- a valid state and keeps it valid. The task is ready at the level asked for, or at its own if none
  -- is, and keeps its messages; no other task is touched.
  pub wakeup-Woken :
      (id : ℕ) (level : Option ℕ) {t : Task}
      → find_task id tm.tasks ≡ some t
      → level_or level t.level ≤ max_level
      → id ≢ idle_id
      → (tm' : TaskManager) × (wakeup tm id level ≡ some tm')
        × Woken id (level_or level t.level) tm tm'
  wakeup-Woken id level {t} e le ne = elim (Bool-cases t.running) [
    | inl run ↦ rw (wakeup_running tm id level t e run) (running-Woken id level t e run le ne)
    | inr stopped ↦ (
      make_ready tm id (level_or level t.level),
      wakeup_stopped tm id level t e stopped,
      update_task-Woken id (level_or level t.level)
          (set_level_running (level_or level t.level) true)
          (make_ready-IsValid v id (level_or level t.level) e stopped le)
          (unfold make_ready in refl) e (λ u. refl) (λ u. refl) refl refl,
    )
  ]

abbrev pub touched : TaskManager → ℕ → (Task → Task) → TaskManager
touched tm id f = record tm { tasks = update_task id f tm.tasks }

-- A write that leaves id, level and running flag alone keeps the state valid.
pub touch-IsValid :
    {tm : TaskManager}
    → IsValid tm
    → (id : ℕ) (f : Task → Task) → ((u : Task) → (f u).id ≡ u.id)
    → ((u : Task) → (f u).level ≡ u.level)
    → ((u : Task) → (f u).running ≡ u.running)
    → IsValid (touched tm id f)
touch-IsValid {tm} v id f h level run = record {
  agree = record {
    queued = λ j lv. elim (Option-cases (find_task id tm.tasks)) [
      | inl n ↦ ground (arith, v.agree.queued j lv, find_task-update_task id j f tm.tasks h)
      | inr (t, e) ↦
          ground
            (arith, v.agree.queued j lv, find_task-update_task id j f tm.tasks h, level t, run t)
    ];
    once = v.agree.once;
    distinct = UniqueIds-update_task id f tm.tasks h v.agree.distinct;
    capped = v.agree.capped;
  };
  fresh = fresh-update_task id tm.latest_id f tm.tasks h v.fresh;
  small = small-update_task id f tm.tasks h (λ u le. rw (level u) le) v.small;
  busy = v.busy;
  top = v.top;
  idle_ready = v.idle_ready;
}

-- The state after a message `msg` to the task `t`.
pub record Delivered (id : ℕ) (msg : Message) (t : Task) (tm tm' : TaskManager) : Type 0 where
  pub valid : IsValid tm'
  pub ready : is_ready id t.level tm'.tasks ≡ true
  pub last : Option.map (λ u. u.msgs) (find_task id tm'.tasks) ≡ some (t.msgs ++ (msg ∷ []))
  pub others : (j : ℕ) → id ≢ j → find_task j tm'.tasks ≡ find_task j tm.tasks

send_message_found :
    (tm tm' : TaskManager) (id : ℕ) (msg : Message) (t : Task)
    → find_task id tm.tasks ≡ some t
    → wakeup (touched tm id (push_msg msg)) id none ≡ some tm'
    → send_message tm id msg ≡ some (success, tm')
unfolding send_message
send_message_found tm tm' id msg t e sent = ground arith

-- `SendMessage` in a valid state to a task that there is, and is not the idle one, answers success: the
-- message stands last in its queue, the task is ready at its level, no other task is touched, and the
-- state stays valid.
pub send_message-Delivered :
    {tm : TaskManager}
    → IsValid tm
    → (id : ℕ) (msg : Message) {t : Task} → find_task id tm.tasks ≡ some t
    → id ≢ idle_id
    → (tm' : TaskManager) × (send_message tm id msg ≡ some (success, tm'))
      × Delivered id msg t tm tm'
send_message-Delivered {tm} v id msg {t} e ne =
    let told : TaskManager = touched tm id (push_msg msg) in
    let find : find_task id told.tasks ≡ some (push_msg msg t) =
      ground (arith, find_task-update_task id id (push_msg msg) tm.tasks (λ u. refl)) in
    let (tm', sent, w) =
      wakeup-Woken (touch-IsValid v id (push_msg msg) (λ u. refl) (λ u. refl) (λ u. refl)) id none
        find (v.small id t e) ne in
    (
      tm',
      send_message_found tm tm' id msg t e sent,
      record {
        valid = w.valid;
        ready = w.ready;
        last = w.own ∙ rw find refl;
        others = λ j off.
            w.others j off
            ∙ ground (arith, find_task-update_task id j (push_msg msg) tm.tasks (λ u. refl));
      },
    )
