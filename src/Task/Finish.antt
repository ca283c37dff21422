-- ===== src/Task/Finish.antt =====
-- What `Finish`, `WaitFinish` and `StartTask` leave, kernel/task.cpp.
use mathlib.Core.Path.{subst}
use kin_os.Base.{
  ℕ, true, ◌≡◌, refl, ◌≢◌, ◌∙◌, sym, ap, Option, none, some, inl, inr, arith, Option-cases,
}
use kin_os.Error.{success}
use kin_os.Task.{
  Task, TaskFunc, TaskManager, find_task, current_task, update, rotate_current_run_queue, rotated,
  init_context,
}
use kin_os.Task.Manager.{
  remove_task, wakeup, finish, finish_rotated, wait_finish, Wait, finished, waiting, by_id,
  start_task, receive_message, tail_msgs, first_msg,
}
use kin_os.Message.{Message}
use kin_os.Task.Lists.{elem-pop_front, find_task-remove_task}
use kin_os.Task.Invariant.{IsValid, idle_id}
use kin_os.Task.Queues.{Agree-drop_front, Removed-remove_task}
use kin_os.Task.Rotate.{current_le, rotated-Chosen, Chosen}
use kin_os.Task.Wake.{wakeup-Woken, touched, touch-IsValid}
use kin_os.Task.Sleep.{sleep-Asleep}

-- The exit codes and those who wait for them have no part in the invariant.
codes-IsValid :
    {tm : TaskManager}
    → IsValid tm
    → (codes waiters : ℕ → Option ℕ)
    → IsValid (record tm { finish_tasks = codes; finish_waiter = waiters })
codes-IsValid v codes waiters = record {
  agree = v.agree;
  fresh = v.fresh;
  small = v.small;
  busy = v.busy;
  top = v.top;
  idle_ready = v.idle_ready;
}

-- `Wakeup` at the task's own level of any task but the idle one, if it succeeds.
woken-IsValid :
    {tm tm' : TaskManager}
    → IsValid tm
    → (id : ℕ) → id ≢ idle_id
    → wakeup tm id none ≡ some tm'
    → IsValid tm'
unfolding wakeup
woken-IsValid {tm} {tm'} v id ne e = elim (Option-cases (find_task id tm.tasks)) [
  | inl n ↦ absurd (ground (arith, n, e))
  | inr (t, found) ↦
      let (x, done, w) = wakeup-Woken v id none found (v.small id t found) ne in
      let p : x ≡ tm' = cc (done, e) in subst IsValid p w.valid
]

-- The state after a round of `WaitFinish`.
abbrev pub left_by : Wait → TaskManager
left_by (finished code tm) = tm
left_by (waiting tm) = tm

module _ {tm : TaskManager} (v : IsValid tm) (c : ℕ) (cur : current_task tm ≡ some c)
    (ne : c ≢ idle_id) where
  -- The state without the current task, which has left its code, and the next one runs.
  abbrev ended : (codes waiters : ℕ → Option ℕ) → TaskManager
  ended codes waiters =
      rotated
        (record tm {
          tasks = remove_task c tm.tasks;
          finish_tasks = codes;
          finish_waiter = waiters;
        })
        true c

  ended-Chosen : (codes waiters : ℕ → Option ℕ) → Chosen (ended codes waiters)
  unfolding current_task
  ended-Chosen codes waiters =
      rotated-Chosen
        (record tm {
          tasks = remove_task c tm.tasks;
          finish_tasks = codes;
          finish_waiter = waiters;
        })
        true c (current_le v)
        (Agree-drop_front tm.running tm.tasks v.agree tm.current_level c cur
          (Removed-remove_task c tm.tasks v.agree.distinct))
        (λ j lt. ground (arith, v.fresh j lt, find_task-remove_task c j tm.tasks v.agree.distinct))
        (λ j t e. ground (arith, v.small j t, find_task-remove_task c j tm.tasks v.agree.distinct))
        v.top
        (ground (
          arith,
          v.idle_ready,
          elem-pop_front (tm.running tm.current_level) c idle_id (v.agree.once tm.current_level)
              cur,
        ))

  finish_alone :
      (code : ℕ)
      → tm.finish_waiter c ≡ none
      → finish tm code ≡ some (ended (update tm.finish_tasks c (some code)) tm.finish_waiter)
  unfolding finish finish_rotated rotate_current_run_queue rotated
  finish_alone code h = rw cur (rw (finish_rotated, h) refl)

  finish_awaited :
      (code w : ℕ)
      → tm.finish_waiter c ≡ some w
      → finish tm code
        ≡ wakeup
            (ended (update tm.finish_tasks c (some code)) (update tm.finish_waiter c none))
            w
            none
  unfolding finish finish_rotated rotate_current_run_queue rotated wakeup
  finish_awaited code w h = rw cur (rw (finish_rotated, h) refl)

  -- `Finish` of any task but the idle one, when the idle one does not wait for it, keeps the state valid.
  pub finish-IsValid :
      (code : ℕ) (tm' : TaskManager)
      → ((w : ℕ) → tm.finish_waiter c ≡ some w → w ≢ idle_id)
      → finish tm code ≡ some tm'
      → IsValid tm'
  finish-IsValid code tm' others e = elim (Option-cases (tm.finish_waiter c)) [
    | inl h ↦
        let codes = update tm.finish_tasks c (some code) in
        let w = ended-Chosen codes tm.finish_waiter in
        let p : ended codes tm.finish_waiter ≡ tm' = cc (finish_alone code h, e) in
        subst IsValid p w.valid
    | inr (w, h) ↦
        let codes = update tm.finish_tasks c (some code) in
        let chosen = ended-Chosen codes (update tm.finish_waiter c none) in
        woken-IsValid chosen.valid w (others w h) (sym (finish_awaited code w h) ∙ e)
  ]

-- `StartTask` of any task but the idle one keeps the state valid.
pub start_task-IsValid :
    {tm tm' : TaskManager}
    → IsValid tm
    → (f : TaskFunc) (id arg : ℕ) (t : Task) → find_task id tm.tasks ≡ some t
    → id ≢ idle_id
    → start_task f tm id arg ≡ some (success, tm')
    → IsValid tm'
unfolding start_task by_id init_context
start_task-IsValid {tm} {tm'} v f id arg t found ne e =
    let set : TaskManager = touched tm id (init_context f arg) in
    let woken : wakeup set id none ≡ some tm' = elim (Option-cases (wakeup set id none)) [
      | inl n ↦ cc (n, e, found)
      | inr (x, n) ↦ cc (n, e, found)
    ] in
    woken-IsValid (touch-IsValid v id (init_context f arg) (λ u. refl) (λ u. refl) (λ u. refl)) id
      ne woken

-- The state of an answer.
abbrev state_of : TaskManager → Option (Option Message × TaskManager) → TaskManager
state_of tm none = tm
state_of tm (some (m, left)) = left

abbrev wait_state : TaskManager → Option Wait → TaskManager
wait_state tm none = tm
wait_state tm (some w) = left_by w

-- `ReceiveMessage` keeps the state valid.
pub receive_message-IsValid :
    {tm tm' : TaskManager}
    → IsValid tm
    → (id : ℕ) (m : Option Message) → receive_message tm id ≡ some (m, tm')
    → IsValid tm'
unfolding receive_message
receive_message-IsValid {tm} {tm'} v id m e = elim (Option-cases (find_task id tm.tasks)) [
  | inl n ↦ absurd (ground (arith, n, e))
  | inr (t, n) ↦
      let left : TaskManager = touched tm id (λ u. record u { msgs = tail_msgs u.msgs }) in
      let done : receive_message tm id ≡ some (first_msg t.msgs, left) =
        rw (receive_message, n) refl in
      let both : some (first_msg t.msgs, left) ≡ some (m, tm') = sym done ∙ e in
      let p : left ≡ tm' = ap (λ (o : Option (Option Message × TaskManager)). state_of tm o) both in
      subst IsValid p (
        touch-IsValid v id (λ u. record u { msgs = tail_msgs u.msgs }) (λ u. refl) (λ u. refl)
          (λ u. refl))
]

-- A round of `WaitFinish` of any task but the idle one keeps the state valid, whether the task that it waits
-- for has ended or not.
pub wait_finish-IsValid :
    {tm tm' : TaskManager}
    → IsValid tm
    → (current task_id : ℕ) (t : Task) → find_task current tm.tasks ≡ some t
    → current ≢ idle_id
    → (w : Wait) → wait_finish tm current task_id ≡ some w
    → left_by w ≡ tm'
    → IsValid tm'
unfolding wait_finish
wait_finish-IsValid {tm} {tm'} v current task_id t found ne w e q =
    elim (Option-cases (tm.finish_tasks task_id)) [
      | inr (code, h) ↦
          let left : TaskManager = record tm {
            finish_tasks = update tm.finish_tasks task_id none;
          } in
          let done : wait_finish tm current task_id ≡ some (finished code left) =
            rw (wait_finish, h) refl in
          let p : left ≡ tm' = ap (wait_state tm) (sym done ∙ e) ∙ q in
          subst IsValid p (codes-IsValid v (update tm.finish_tasks task_id none) tm.finish_waiter)
      | inl h ↦
          let waiter = update tm.finish_waiter task_id (some current) in
          let (y, slept, a, chosen) =
            sleep-Asleep (codes-IsValid v tm.finish_tasks waiter) current ne found in
          let done : wait_finish tm current task_id ≡ some (waiting y) =
            rw (wait_finish, h) (rw slept refl) in
          let p : y ≡ tm' = ap (wait_state tm) (sym done ∙ e) ∙ q in subst IsValid p a.valid
    ]
