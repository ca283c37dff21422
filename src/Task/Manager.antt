-- ===== src/Task/Manager.antt =====
-- The operations of `TaskManager` that wake, stop, move and end tasks, kernel/task.cpp.
use mathlib.Core.Option
use kin_os.Base.{
  ℕ, Bool, true, false, not, ◌||◌, Option, none, some, List, [], ◌∷◌, ◌++◌, ◌==◌, ltb,
  if◌then◌else◌, and_then,
}
use kin_os.Message.{Message}
use kin_os.Error.{Error, success, no_such_task}
use kin_os.Task.{
  Task, TaskFunc, task_app, task_server, task_idle, TaskManager, update, find_task, update_task,
  erase, pop_front, current_task, rotate_current_run_queue, new_task, init_context, max_level,
}

-- A negative level means the task's own.
abbrev pub level_or : Option ℕ → ℕ → ℕ
level_or none own = own
level_or (some lv) own = lv

abbrev pub set_level_running : ℕ → Bool → Task → Task
set_level_running lv b t = record t { level = lv; running = b }

abbrev pub set_level : ℕ → Task → Task
set_level lv t = record t { level = lv }

-- Change the level of another task.
unfoldable pub move_other : TaskManager → Task → ℕ → TaskManager
move_other tm t lv =
    let running = update tm.running t.level (erase t.id (tm.running t.level)) in
    record tm {
      running = update running lv (running lv ++ (t.id ∷ []));
      tasks = update_task t.id (set_level lv) tm.tasks;
      level_changed = ltb tm.current_level lv || tm.level_changed;
    }

-- Change the level of the current task.
unfoldable pub move_self : TaskManager → Task → ℕ → TaskManager
move_self tm t lv =
    let running = update tm.running tm.current_level (pop_front (tm.running tm.current_level)) in
    record tm {
      running = update running lv (t.id ∷ running lv);
      tasks = update_task t.id (set_level lv) tm.tasks;
      current_level = lv;
      level_changed = ltb lv tm.current_level || tm.level_changed;
    }

unfoldable pub change_level_to : TaskManager → Task → ℕ → ℕ → TaskManager
unfolding move_other move_self
change_level_to tm t lv current =
    if not (current == t.id) then move_other tm t lv else move_self tm t lv

unfoldable pub change_level_running : TaskManager → Task → Option ℕ → Option TaskManager
unfolding change_level_to
change_level_running tm t none = some tm
change_level_running tm t (some lv) =
    if lv == t.level then some tm else Option.map (change_level_to tm t lv) (current_task tm)

-- `Wakeup` of a task that is not running.
unfoldable pub make_ready : TaskManager → ℕ → ℕ → TaskManager
make_ready tm id lv = record tm {
  tasks = update_task id (set_level_running lv true) tm.tasks;
  running = update tm.running lv (tm.running lv ++ (id ∷ []));
  level_changed = ltb tm.current_level lv || tm.level_changed;
}

unfoldable pub wakeup : TaskManager → ℕ → Option ℕ → Option TaskManager
unfolding make_ready change_level_running
wakeup tm id level = elim (find_task id tm.tasks) [
  | none ↦ none
  | some t ↦
      if t.running
      then change_level_running tm t level
      else some (make_ready tm id (level_or level t.level))
]

-- `Sleep` of a task that is running, its flag cleared.
unfoldable pub stop_running : TaskManager → ℕ → ℕ → ℕ → Option TaskManager
stop_running tm id level current =
    if current == id
    then Option.map (λ r. r.1) (rotate_current_run_queue tm true)
    else some (record tm { running = update tm.running level (erase id (tm.running level)) })

abbrev pub set_not_running : Task → Task
set_not_running t = record t { running = false }

unfoldable pub sleep : TaskManager → ℕ → Option TaskManager
unfolding stop_running
sleep tm id = elim (find_task id tm.tasks) [
  | none ↦ none
  | some t ↦
      if not t.running
      then some tm
      else and_then (current_task tm)
          (stop_running (record tm { tasks = update_task id set_not_running tm.tasks }) id t.level)
]

-- The overloads by id: `kNoSuchTask` if there is no such task.
unfoldable pub by_id : TaskManager → ℕ → Option TaskManager → Option (Error × TaskManager)
by_id tm id act = elim (find_task id tm.tasks) [
  | none ↦ some (no_such_task, tm)
  | some t ↦ Option.map (λ tm'. (success, tm')) act
]

unfoldable pub sleep_by_id : TaskManager → ℕ → Option (Error × TaskManager)
unfolding by_id
sleep_by_id tm id = by_id tm id (sleep tm id)

unfoldable pub wakeup_by_id : TaskManager → ℕ → Option ℕ → Option (Error × TaskManager)
unfolding by_id
wakeup_by_id tm id level = by_id tm id (wakeup tm id level)

abbrev pub push_msg : Message → Task → Task
push_msg msg t = record t { msgs = t.msgs ++ (msg ∷ []) }

-- `Task::SendMessage`: the message goes to the end of the queue, and the task wakes.
unfoldable pub task_send_message : TaskManager → ℕ → Message → Option TaskManager
task_send_message tm id msg =
    wakeup (record tm { tasks = update_task id (push_msg msg) tm.tasks }) id none

unfoldable pub send_message : TaskManager → ℕ → Message → Option (Error × TaskManager)
unfolding by_id task_send_message
send_message tm id msg = by_id tm id (task_send_message tm id msg)

abbrev pub tail_msgs : List Message → List Message
tail_msgs [] = []
tail_msgs (m ∷ ms) = ms

abbrev pub first_msg : List Message → Option Message
first_msg [] = none
first_msg (m ∷ ms) = some m

-- `Task::ReceiveMessage`.
unfoldable pub receive_message : TaskManager → ℕ → Option (Option Message × TaskManager)
receive_message tm id = elim (find_task id tm.tasks) [
  | none ↦ none
  | some t ↦ some (
    first_msg t.msgs,
    record tm { tasks = update_task id (λ u. record u { msgs = tail_msgs u.msgs }) tm.tasks },
  )
]

-- `StartAppTask` and `StartServerTask`: the context is set up, and the task wakes.
unfoldable pub start_task : TaskFunc → TaskManager → ℕ → ℕ → Option (Error × TaskManager)
unfolding by_id
start_task f tm id arg =
    by_id tm id
      (wakeup (record tm { tasks = update_task id (init_context f arg) tm.tasks }) id none)

unfoldable pub start_app_task : TaskManager → ℕ → ℕ → Option (Error × TaskManager)
unfolding start_task
start_app_task = start_task task_app

unfoldable pub start_server_task : TaskManager → ℕ → ℕ → Option (Error × TaskManager)
unfolding start_task
start_server_task = start_task task_server

unfoldable pub switch_task : TaskManager → Option TaskManager
switch_task tm = Option.map (λ r. r.1) (rotate_current_run_queue tm false)

abbrev pub remove_task : ℕ → List Task → List Task
remove_task id [] = []
remove_task id (t ∷ ts) = if t.id == id then ts else t ∷ remove_task id ts

-- `Finish`, after the rotation that took `id` from its queue.
unfoldable pub finish_rotated : ℕ → ℕ × TaskManager → Option TaskManager
finish_rotated exit_code (id, tm) =
    let tm' = record tm {
      tasks = remove_task id tm.tasks;
      finish_tasks = update tm.finish_tasks id (some exit_code);
    } in
    elim (tm.finish_waiter id) [
      | none ↦ some tm'
      | some waiter ↦
          wakeup (record tm' { finish_waiter = update tm.finish_waiter id none }) waiter none
    ]

unfoldable pub finish : TaskManager → ℕ → Option TaskManager
unfolding finish_rotated
finish tm exit_code = and_then (rotate_current_run_queue tm true) (finish_rotated exit_code)

-- One round of the loop of `WaitFinish`: the exit code, or the caller asleep until it is woken and
-- takes the next round.
pub data Wait : Type 0 where
  finished : ℕ → TaskManager → Wait
  waiting : TaskManager → Wait

unfoldable pub wait_finish : TaskManager → ℕ → ℕ → Option Wait
wait_finish tm current task_id = elim (tm.finish_tasks task_id) [
  | some exit_code ↦
      some (finished exit_code (record tm { finish_tasks = update tm.finish_tasks task_id none }))
  | none ↦
      Option.map waiting (
        sleep (record tm { finish_waiter = update tm.finish_waiter task_id (some current) })
          current)
]

-- The constructor: the task that runs already, at the highest level, and the idle task at level 0.
unfoldable pub initial : TaskManager
initial =
    let empty : TaskManager = record {
      tasks = [];
      latest_id = 0;
      running = λ lv. [];
      current_level = max_level;
      level_changed = false;
      finish_tasks = λ id. none;
      finish_waiter = λ id. none;
    } in
    let (main, tm) = new_task empty in
    let tm1 = record tm {
      tasks = update_task main (set_level_running max_level true) tm.tasks;
      running = update tm.running max_level (main ∷ []);
    } in
    let (idle, tm2) = new_task tm1 in
    record tm2 {
      tasks =
          update_task idle (λ t. set_level_running 0 true (init_context task_idle 0 t)) tm2.tasks;
      running = update tm2.running 0 (idle ∷ []);
    }
