-- ===== src/Task/Rotate.antt =====
-- `RotateCurrentRunQueue`: which task runs next.
use mathlib.Core.Path.{subst}
use kin_os.Base.{
  ℕ, ◌≤◌, ◌<◌, ◌≡◌, refl, Bool, true, false, ◌||◌, none, some, List, [], ◌∷◌, if◌then◌else◌,
  Bool-cases, inl, inr, arith, leb,
}
use kin_os.Task.{
  Task, TaskManager, find_task, is_empty, pop_front, highest, update, max_level, current_task,
  rotate_current_run_queue, rotated, rotated_queue,
}
use kin_os.Task.Manager.{switch_task}
use kin_os.Task.Lists.{
  elem, IsHighest, highest_lem, elem-append, elem-pop_front, is_empty-elem, is_empty-front,
}
use kin_os.Task.Invariant.{Agree, IsValid, idle_id}
use kin_os.Task.Queues.{Agree-rotate}

-- After the scan the current level is the highest whose queue is not empty, if no level above the old
-- one mattered or the scan is made.
settled :
    (running : ℕ → List ℕ) (old : ℕ) (changed : Bool)
    → old ≤ max_level
    → elem idle_id (running 0) ≡ true
    → (changed ≡ false → (k : ℕ) → old < k → is_empty (running k) ≡ true)
    → IsHighest running max_level
        (if changed || is_empty (running old) then highest running max_level old else old)
settled running old changed le idle top = elim (Bool-cases (changed || is_empty (running old))) [
  | inl e ↦
      rw e
        (highest_lem running max_level old 0 (omega arith) (is_empty-elem (running 0) idle_id idle))
  | inr e ↦ rw e (ground arith, le, λ k lo up. top (ground arith) k lo)
]

-- The current level is one of the array's.
pub current_le : {tm : TaskManager} → IsValid tm → tm.current_level ≤ max_level
current_le {tm} v = elim (Bool-cases (leb tm.current_level max_level)) [
  | inl e ↦ ground arith
  | inr e ↦ cc (v.agree.capped tm.current_level (ground arith), v.busy)
]

pub current_some : {tm : TaskManager} → IsValid tm → (c : ℕ) × (current_task tm ≡ some c)
unfolding current_task
current_some {tm} v = is_empty-front (tm.running tm.current_level) v.busy

-- What the scheduler promises of a state in which it has just chosen: the invariant, and that the
-- chosen level is the highest with a task that is ready.
pub record Chosen (tm : TaskManager) : Type 0 where
  pub valid : IsValid tm
  pub highest : IsHighest tm.running max_level tm.current_level

pub update_self : (f : ℕ → List ℕ) (i : ℕ) (v : List ℕ) → update f i v i ≡ v
update_self f i v = ground arith

pub rotated-Chosen :
    (tm : TaskManager) (b : Bool) (c : ℕ)
    → tm.current_level ≤ max_level
    → Agree (update tm.running tm.current_level (rotated_queue tm b c)) tm.tasks
    → ((id : ℕ) → tm.latest_id < id → find_task id tm.tasks ≡ none)
    → ((id : ℕ) (t : Task) → find_task id tm.tasks ≡ some t → t.level ≤ max_level)
    → (tm.level_changed ≡ false → (k : ℕ) → tm.current_level < k → is_empty (tm.running k) ≡ true)
    → elem idle_id (update tm.running tm.current_level (rotated_queue tm b c) 0) ≡ true
    → Chosen (rotated tm b c)
unfolding rotated
rotated-Chosen tm b c le a fresh small top idle =
    let running : ℕ → List ℕ = update tm.running tm.current_level (rotated_queue tm b c) in
    let hi : IsHighest running max_level (rotated tm b c).current_level =
      subst
        (λ q. IsHighest running max_level (
          if tm.level_changed || is_empty q
          then highest running max_level tm.current_level
          else tm.current_level))
        (update_self tm.running tm.current_level (rotated_queue tm b c))
        (settled running tm.current_level tm.level_changed le idle
          (λ e k lo. ground (arith, top e k lo))) in
    record {
      valid = record {
        agree = a;
        fresh = fresh;
        small = small;
        busy = hi.0;
        top = λ e k lo. elim (Bool-cases (leb k max_level)) [
          | inl u ↦ hi.2 k lo (ground arith)
          | inr u ↦ a.capped k (ground arith)
        ];
        idle_ready = idle;
      };
      highest = hi;
    }

-- `SwitchTask` from a valid state always succeeds: the current task goes to the back of its queue, no
-- other queue and no task changes, no rescheduling is due any more, the ids, the exit codes and those who
-- wait for them stay, the invariant holds again, and the level chosen next is the highest that has a ready
-- task.
pub switch_task-Chosen :
    {tm : TaskManager}
    → IsValid tm
    → (c : ℕ) × (tm' : TaskManager) × (current_task tm ≡ some c)
      × (switch_task tm ≡ some tm')
      × (tm'.running ≡ update tm.running tm.current_level (rotated_queue tm false c))
      × (tm'.tasks ≡ tm.tasks)
      × (tm'.level_changed ≡ false)
      × (tm'.latest_id ≡ tm.latest_id)
      × (tm'.finish_tasks ≡ tm.finish_tasks)
      × (tm'.finish_waiter ≡ tm.finish_waiter)
      × Chosen tm'
unfolding switch_task rotate_current_run_queue
switch_task-Chosen {tm} v =
    let (c, e) = current_some v in
    (
      c,
      rotated tm false c,
      e,
      rw e refl,
      unfold rotated in refl,
      unfold rotated in refl,
      unfold rotated in refl,
      unfold rotated in refl,
      unfold rotated in refl,
      unfold rotated in refl,
      rotated-Chosen tm false c (current_le v)
          (Agree-rotate tm.running tm.tasks v.agree tm.current_level c (unfold current_task in e))
          v.fresh v.small v.top
          (ground (
            arith,
            v.idle_ready,
            elem-append idle_id (pop_front (tm.running tm.current_level)) (c ∷ []),
            elem-pop_front (tm.running tm.current_level) c idle_id (v.agree.once tm.current_level)
                (unfold current_task in e),
          )),
    )
