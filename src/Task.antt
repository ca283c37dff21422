-- ===== src/Task.antt =====
-- The scheduler, kernel/task.cpp and kernel/task.hpp: tasks, four run queues by level, and what wakes
-- a task, puts it to sleep, moves it between levels and ends it.
--
-- A `Task *` is the task's id: ids are never used twice, and a task leaves `tasks_` only when it
-- finishes. `none` stands for undefined behaviour, `front()` of an empty queue. A level is a number,
-- and `running` gives the queue of each; the array of the source has those up to `max_level`, and the
-- theorems ask for such a level. `none` as a level argument is a negative one.
-- The registers that `SwitchContext` and `RestoreContext` exchange are not modelled: the task that
-- runs next is `current_task` of the state that is returned.
use kin_os.Base.{
  ℕ, zero, suc, ◌+◌, Bool, true, false, not, ◌||◌, Option, none, some, List, [], ◌∷◌, ◌++◌, ◌==◌,
  ltb, if◌then◌else◌,
}
use mathlib.Core.Option
use kin_os.Message.{Message}
pub mod Manager
pub mod Buffer
pub mod Lists
pub mod Invariant
pub mod Queues
pub mod Rotate
pub mod Fair
pub mod Receive
pub mod Valid
pub mod Wake
pub mod Sleep
pub mod Finish
pub mod Reach
mod Tests

-- The functions that a task's context is set up to run.
pub data TaskFunc : Type 0 where
  task_idle task_init_server task_server task_app : TaskFunc

-- Of the context, `rip` and `rsi` as `InitContext` sets them: the function and its data (`rdi` is
-- the id).
pub record Task : Type 0 where
  pub id : ℕ
  pub name : List ℕ
  pub msgs : List Message
  pub level : ℕ
  pub running : Bool
  pub buf : List ℕ
  pub context : Option (TaskFunc × ℕ)

pub record TaskManager : Type 0 where
  pub tasks : List Task
  pub latest_id : ℕ
  pub running : ℕ → List ℕ
  pub current_level : ℕ
  pub level_changed : Bool
  pub finish_tasks : ℕ → Option ℕ
  pub finish_waiter : ℕ → Option ℕ

abbrev pub default_level : ℕ
default_level = 1

abbrev pub max_level : ℕ
max_level = 3

-- An assignment to one place of an array or a map.
abbrev pub update {ℓ} : {A : Type ℓ} → (ℕ → A) → ℕ → A → ℕ → A
update f i v j = if i == j then v else f j

-- `std::find_if` by id.
abbrev pub find_task : ℕ → List Task → Option Task
find_task id [] = none
find_task id (t ∷ ts) = if t.id == id then some t else find_task id ts

-- A write through a task pointer.
abbrev pub update_task : ℕ → (Task → Task) → List Task → List Task
update_task id f [] = []
update_task id f (t ∷ ts) = if t.id == id then f t ∷ ts else t ∷ update_task id f ts

-- `Erase`: every occurrence goes.
abbrev pub erase : ℕ → List ℕ → List ℕ
erase id [] = []
erase id (x ∷ xs) = if x == id then erase id xs else x ∷ erase id xs

abbrev pub is_empty {ℓ} : {A : Type ℓ} → List A → Bool
is_empty [] = true
is_empty (x ∷ xs) = false

abbrev pub front : List ℕ → Option ℕ
front [] = none
front (x ∷ xs) = some x

abbrev pub pop_front : List ℕ → List ℕ
pop_front [] = []
pop_front (x ∷ xs) = xs

-- The `Task` constructor.
pub make_task : ℕ → Task
make_task id = record {
  id = id;
  name = [];
  msgs = [];
  level = default_level;
  running = false;
  buf = [];
  context = none;
}

pub init_context : TaskFunc → ℕ → Task → Task
init_context f arg t = record t { context = some (f, arg) }

pub new_task : TaskManager → ℕ × TaskManager
unfolding make_task
new_task tm =
    let id = tm.latest_id + 1 in
    (id, record tm { latest_id = id; tasks = tm.tasks ++ (make_task id ∷ []) })

pub current_task : TaskManager → Option ℕ
current_task tm = front (tm.running tm.current_level)

-- `for (lv = kMaxLevel; lv >= 0; --lv)`: the highest level whose queue is not empty, if there is one.
pub highest : (ℕ → List ℕ) → ℕ → ℕ → ℕ
highest running zero old = if is_empty (running zero) then old else zero
highest running (suc lv) old =
    if is_empty (running (suc lv)) then highest running lv old else suc lv

-- The queue of the current level, after its front `current` has left it or gone to its back.
abbrev pub rotated_queue : TaskManager → Bool → ℕ → List ℕ
rotated_queue tm current_sleep current =
    let rest = pop_front (tm.running tm.current_level) in
    if current_sleep then rest else rest ++ (current ∷ [])

pub rotated : TaskManager → Bool → ℕ → TaskManager
rotated tm current_sleep current =
    let queue = rotated_queue tm current_sleep current in
    let running = update tm.running tm.current_level queue in
    record tm {
      running = running;
      level_changed = false;
      current_level =
          if tm.level_changed || is_empty queue
          then highest running max_level tm.current_level
          else tm.current_level;
    }

pub rotate_current_run_queue : TaskManager → Bool → Option (ℕ × TaskManager)
unfolding rotated
rotate_current_run_queue tm current_sleep =
    Option.map (λ current. (current, rotated tm current_sleep current)) (current_task tm)
