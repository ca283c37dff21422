-- ===== src/Task/Reach.antt =====
-- The states that the scheduler can reach from the one that its constructor makes.
use mathlib.Core.Path.{subst}
use kin_os.Base.{ℕ, ◌≤◌, ◌≡◌, refl, ◌≢◌, true, Option, some, ◌==◌, Bool-cases, inl, inr, arith}
use kin_os.Error.{success}
use kin_os.Message.{Message}
use kin_os.Task.{
  Task, TaskFunc, TaskManager, find_task, max_level, current_task, new_task, make_task,
  init_context,
}
use kin_os.Task.Manager.{
  level_or, wakeup, sleep, send_message, receive_message, switch_task, initial, start_task, finish,
  Wait, wait_finish,
}
use kin_os.Task.Finish.{
  left_by, receive_message-IsValid, start_task-IsValid, finish-IsValid, wait_finish-IsValid,
}
use kin_os.Task.Lists.{elem-front}
use kin_os.Task.Invariant.{IsValid, idle_id, is_ready}
use kin_os.Task.Rotate.{current_some, switch_task-Chosen}
use kin_os.Task.Wake.{wakeup-Woken, send_message-Delivered}
use kin_os.Task.Sleep.{sleep-Asleep, new_task-IsValid}

-- One call on the task manager that succeeds. The idle task is neither woken nor put to sleep, sent a
-- message, started or ended, and waits for no task; levels are those of the array.
pub data Step (tm tm' : TaskManager) : Type 0 where
  switches : switch_task tm ≡ some tm' → Step tm tm'
  creates : (new_task tm).1 ≡ tm' → Step tm tm'
  wakes :
      (id : ℕ) (level : Option ℕ) (t : Task)
      → find_task id tm.tasks ≡ some t
      → level_or level t.level ≤ max_level
      → id ≢ idle_id
      → wakeup tm id level ≡ some tm'
      → Step tm tm'
  sleeps :
      (id : ℕ) (t : Task)
      → find_task id tm.tasks ≡ some t
      → id ≢ idle_id
      → sleep tm id ≡ some tm'
      → Step tm tm'
  sends :
      (id : ℕ) (msg : Message) (t : Task)
      → find_task id tm.tasks ≡ some t
      → id ≢ idle_id
      → send_message tm id msg ≡ some (success, tm')
      → Step tm tm'
  receives : (id : ℕ) (m : Option Message) → receive_message tm id ≡ some (m, tm') → Step tm tm'
  starts :
      (f : TaskFunc) (id arg : ℕ) (t : Task)
      → find_task id tm.tasks ≡ some t
      → id ≢ idle_id
      → start_task f tm id arg ≡ some (success, tm')
      → Step tm tm'
  finishes :
      (c code : ℕ)
      → current_task tm ≡ some c
      → c ≢ idle_id
      → ((w : ℕ) → tm.finish_waiter c ≡ some w → w ≢ idle_id)
      → finish tm code ≡ some tm'
      → Step tm tm'
  waits :
      (current task_id : ℕ) (t : Task) (w : Wait)
      → find_task current tm.tasks ≡ some t
      → current ≢ idle_id
      → wait_finish tm current task_id ≡ some w
      → left_by w ≡ tm'
      → Step tm tm'

pub data Reach : TaskManager → Type 0 where
  start : Reach initial
  next : {tm tm' : TaskManager} → Reach tm → Step tm tm' → Reach tm'

-- Two results of one call are one.
same_state :
    {x y : TaskManager} (o : Option TaskManager) → o ≡ some x → o ≡ some y → IsValid x → IsValid y
same_state {x} {y} o p q v = let e : x ≡ y = cc (p, q) in subst IsValid e v

-- Every call that succeeds keeps the state valid.
pub Step-IsValid : {tm tm' : TaskManager} → Step tm tm' → IsValid tm → IsValid tm'
Step-IsValid {tm} (switches e) v =
    let (c, tm1, cur, done, r, ts, due, ids, codes, waiters, chosen) = switch_task-Chosen v in
    same_state (switch_task tm) done e chosen.valid
Step-IsValid (creates e) v = subst IsValid e (new_task-IsValid v).0
Step-IsValid {tm} (wakes id level t find le ne e) v =
    let (tm1, done, w) = wakeup-Woken v id level find le ne in
    same_state (wakeup tm id level) done e w.valid
Step-IsValid {tm} (sleeps id t find ne e) v =
    let (tm1, done, a, chosen) = sleep-Asleep v id ne find in
    same_state (sleep tm id) done e a.valid
Step-IsValid {tm} {tm'} (sends id msg t find ne e) v =
    let (tm1, done, d) = send_message-Delivered v id msg find ne in
    let same : tm1 ≡ tm' = cc (done, e) in subst IsValid same d.valid
Step-IsValid (receives id m e) v = receive_message-IsValid v id m e
Step-IsValid (starts f id arg t find ne e) v = start_task-IsValid v f id arg t find ne e
Step-IsValid {tm} {tm'} (finishes c code cur ne others e) v =
    finish-IsValid v c cur ne code tm' others e
Step-IsValid (waits current task_id t w find ne e q) v =
    wait_finish-IsValid v current task_id t find ne w e q

-- The constructor's state is valid.
pub initial-IsValid : IsValid initial
unfolding initial new_task make_task init_context
initial-IsValid = record {
  agree = record {
    queued = λ id lv. ground arith;
    once = λ lv. elim (Bool-cases (0 == lv)) [
      | inl e ↦ rw e (refl, tt)
      | inr e ↦
          rw e (elim (Bool-cases (max_level == lv)) [ inl f ↦ rw f (refl, tt) | inr f ↦ rw f tt ])
    ];
    distinct = ground arith;
    capped = λ lv h. ground arith;
  };
  fresh = λ id h. ground arith;
  small = λ id t e. ground arith;
  busy = refl;
  top = λ e k h. ground arith;
  idle_ready = refl;
}

-- In every state that the calls of `SwitchTask`, `NewTask`, `Wakeup`, `Sleep`, `SendMessage`, `ReceiveMessage`,
-- `StartTask`, `Finish` and `WaitFinish` can reach from the constructor's, of which those that act on a task
-- name another than the idle one, the queues and the task table agree, the current level has a task to run,
-- and no level above it has one unless a rescheduling is due.
pub Reach-IsValid : {tm : TaskManager} → Reach tm → IsValid tm
Reach-IsValid start = initial-IsValid
Reach-IsValid (next r s) = Step-IsValid s (Reach-IsValid r)

-- In every reachable state there is a current task, and it is marked as running at the current level.
pub Reach-current :
    {tm : TaskManager}
    → Reach tm
    → (c : ℕ) × (current_task tm ≡ some c) × (is_ready c tm.current_level tm.tasks ≡ true)
unfolding current_task
Reach-current {tm} r =
    let v : IsValid tm = Reach-IsValid r in
    let (c, cur) = current_some v in
    (
      c,
      unfold current_task in cur,
      ground (
        arith,
        v.agree.queued c tm.current_level,
        elem-front (tm.running tm.current_level) c cur,
      ),
    )
