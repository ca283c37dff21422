-- ===== src/Task/Valid.antt =====
-- Every operation of the scheduler keeps the invariant: waking a task and changing its level.
use kin_os.Base.{
  ℕ, ◌≤◌, ◌<◌, ◌≡◌, refl, ◌≢◌, true, false, none, some, List, [], ◌∷◌, inl, inr, arith,
  Option-cases,
}
use kin_os.Task.{
  Task, TaskManager, find_task, update_task, erase, pop_front, update, max_level, current_task,
}
use kin_os.Task.Manager.{
  set_level_running, set_not_running, set_level, move_other, move_self, make_ready,
}
use kin_os.Task.Lists.{
  elem, elem-append, elem-erase, elem-pop_front, elem-front, is_empty-append, is_empty-elem,
  is_empty-erase, find_task-update_task,
}
use kin_os.Task.Invariant.{IsValid, idle_id}
use kin_os.Task.Queues.{
  Removed, queue_of, Agree-erase, Agree-drop_front, Agree-push_back, Agree-push_front,
  Removed-update_task, Readied-update_task, Readied-set_level,
}

-- A write to a task of the table brings no new id.
pub fresh-update_task :
    (id n : ℕ) (f : Task → Task) (ts : List Task)
    → ((t : Task) → (f t).id ≡ t.id)
    → ((j : ℕ) → n < j → find_task j ts ≡ none)
    → (j : ℕ) → n < j
    → find_task j (update_task id f ts) ≡ none
fresh-update_task id n f ts h fresh j lt =
    ground (arith, fresh j lt, find_task-update_task id j f ts h)

-- Nor does it bring a level beyond the array.
pub small-update_task :
    (id : ℕ) (f : Task → Task) (ts : List Task)
    → ((t : Task) → (f t).id ≡ t.id)
    → ((t : Task) → t.level ≤ max_level → (f t).level ≤ max_level)
    → ((j : ℕ) (t : Task) → find_task j ts ≡ some t → t.level ≤ max_level)
    → (j : ℕ) (t : Task) → find_task j (update_task id f ts) ≡ some t
    → t.level ≤ max_level
small-update_task id f ts h le small j t e = elim (Option-cases (find_task j ts)) [
  | inl n ↦ absurd (ground (arith, find_task-update_task id j f ts h))
  | inr (u, p) ↦ ground (arith, find_task-update_task id j f ts h, small j u p, le u)
]

module _ {tm : TaskManager} (v : IsValid tm) where
  pub make_ready-IsValid :
      (id lv : ℕ) {t : Task}
      → find_task id tm.tasks ≡ some t
      → t.running ≡ false
      → lv ≤ max_level
      → IsValid (make_ready tm id lv)
  unfolding make_ready
  make_ready-IsValid id lv {t} e stopped le = record {
    agree =
        Agree-push_back tm.running tm.tasks v.agree lv id le
          (λ k. ground (arith, v.agree.queued id k))
          (Readied-update_task id lv (set_level_running lv true) tm.tasks v.agree.distinct e
            (λ u. refl) refl refl);
    fresh =
        fresh-update_task id tm.latest_id (set_level_running lv true) tm.tasks (λ u. refl) v.fresh;
    small =
        small-update_task id (set_level_running lv true) tm.tasks (λ u. refl) (λ u h. le) v.small;
    busy = ground (arith, v.busy, is_empty-append (tm.running lv) id);
    top = λ c k lo.
        let same : tm.level_changed ≡ false = ground arith in ground (arith, v.top same k lo);
    idle_ready = ground (arith, v.idle_ready, elem-append idle_id (tm.running lv) (id ∷ []));
  }

  module _ (t : Task) (lv : ℕ) (e : find_task t.id tm.tasks ≡ some t) (run : t.running ≡ true)
      (le : lv ≤ max_level) (ne : t.id ≢ idle_id) where
    queued : elem t.id (tm.running t.level) ≡ true
    queued = ground (arith, v.agree.queued t.id t.level)

    stopped : Removed t.id tm.tasks (update_task t.id set_not_running tm.tasks)
    stopped =
        Removed-update_task t.id set_not_running tm.tasks v.agree.distinct (λ u. refl) (λ u. refl)

    -- Another task than the current one: out of its queue, then to the back of the new one.
    pub move_other-IsValid :
        (c : ℕ) → current_task tm ≡ some c → c ≢ t.id → IsValid (move_other tm t lv)
    unfolding move_other current_task
    move_other-IsValid c cur other =
        let running : ℕ → List ℕ = update tm.running t.level (erase t.id (tm.running t.level)) in
        record {
          agree =
              Agree-push_back running (update_task t.id set_not_running tm.tasks)
                (Agree-erase tm.running tm.tasks v.agree t.level t.id queued stopped) lv t.id le
                (λ k. ground (
                  arith,
                  elem-erase t.id t.id (tm.running t.level),
                  queue_of tm.running tm.tasks v.agree t.id t.level k queued,
                ))
                (Readied-set_level t lv tm.tasks v.agree.distinct e run);
          fresh = fresh-update_task t.id tm.latest_id (set_level lv) tm.tasks (λ u. refl) v.fresh;
          small = small-update_task t.id (set_level lv) tm.tasks (λ u. refl) (λ u h. le) v.small;
          busy = is_empty-elem _ c (
              ground (
                arith,
                elem-front (tm.running tm.current_level) c cur,
                elem-erase c t.id (tm.running t.level),
                elem-append c (running lv) (t.id ∷ []),
              ));
          top = λ f k lo.
              let same : tm.level_changed ≡ false = ground arith in
              ground (arith, v.top same k lo, is_empty-erase t.id (tm.running t.level));
          idle_ready = ground (
            arith,
            v.idle_ready,
            elem-erase idle_id t.id (tm.running t.level),
            elem-append idle_id (running lv) (t.id ∷ []),
          );
        }

    -- The current task goes on running at its new level.
    pub move_self-IsValid : current_task tm ≡ some t.id → IsValid (move_self tm t lv)
    unfolding move_self current_task
    move_self-IsValid cur =
        let cl : ℕ = tm.current_level in
        let running : ℕ → List ℕ = update tm.running cl (pop_front (tm.running cl)) in
        record {
          agree =
              Agree-push_front running (update_task t.id set_not_running tm.tasks)
                (Agree-drop_front tm.running tm.tasks v.agree cl t.id cur stopped) lv t.id le
                (λ k. ground (
                  arith,
                  elem-pop_front (tm.running cl) t.id t.id (v.agree.once cl) cur,
                  elem-front (tm.running cl) t.id cur,
                  queue_of tm.running tm.tasks v.agree t.id cl k,
                ))
                (Readied-set_level t lv tm.tasks v.agree.distinct e run);
          fresh = fresh-update_task t.id tm.latest_id (set_level lv) tm.tasks (λ u. refl) v.fresh;
          small = small-update_task t.id (set_level lv) tm.tasks (λ u. refl) (λ u h. le) v.small;
          busy = ground arith;
          top = λ f k lo.
              let same : tm.level_changed ≡ false = ground arith in ground (arith, v.top same k);
          idle_ready = ground (
            arith,
            v.idle_ready,
            elem-pop_front (tm.running cl) t.id idle_id (v.agree.once cl) cur,
          );
        }
