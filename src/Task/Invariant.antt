-- ===== src/Task/Invariant.antt =====
-- What holds of the scheduler between any two of its operations.
use kin_os.Base.{ℕ, ◌≤◌, ◌<◌, ◌≡◌, Bool, true, false, ◌&&◌, none, some, List, ◌==◌}
use kin_os.Task.{Task, TaskManager, find_task, is_empty, max_level}
use kin_os.Task.Lists.{elem, Unique, UniqueIds}

-- The task of that id is marked as running, at that level.
abbrev pub is_ready : ℕ → ℕ → List Task → Bool
is_ready id lv ts = elim (find_task id ts) [ none ↦ false | some t ↦ t.running && (t.level == lv) ]

-- The id of the idle task, which the constructor makes second.
abbrev pub idle_id : ℕ
idle_id = 2

-- The part of the invariant that the queues and the table must agree on.
pub record Agree (running : ℕ → List ℕ) (tasks : List Task) : Type 0 where
  pub queued : (id lv : ℕ) → elem id (running lv) ≡ is_ready id lv tasks
  pub once : (lv : ℕ) → Unique (running lv)
  pub distinct : UniqueIds tasks
  pub capped : (lv : ℕ) → max_level < lv → is_empty (running lv) ≡ true

pub record IsValid (tm : TaskManager) : Type 0 where
  pub agree : Agree tm.running tm.tasks
  pub fresh : (id : ℕ) → tm.latest_id < id → find_task id tm.tasks ≡ none
  pub small : (id : ℕ) (t : Task) → find_task id tm.tasks ≡ some t → t.level ≤ max_level
  pub busy : is_empty (tm.running tm.current_level) ≡ false
  pub top :
      tm.level_changed ≡ false → (k : ℕ) → tm.current_level < k → is_empty (tm.running k) ≡ true
  pub idle_ready : elem idle_id (tm.running 0) ≡ true
