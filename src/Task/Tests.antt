-- ===== src/Task/Tests.antt =====
-- Runs of the scheduler from its first state, and the theorems at such states.
use mathlib.Core.Option
use mathlib.Core.Path.{subst}
use kin_os.Base.{
  ℕ, ◌^◌, ◌≡◌, ◌≢◌, ◌∙◌, refl, sym, ap, true, false, Option, none, some, [], ◌∷◌, arith, and_then,
}
use kin_os.Error.{success}
use kin_os.Message.{Message, ready, unset}
use kin_os.Task.{
  Task, TaskManager, find_task, update, current_task, new_task, make_task, init_context,
  rotated_queue, highest, rotate_current_run_queue, rotated,
}
use kin_os.Task.Manager.{finish, finish_rotated, wakeup, sleep, send_message, switch_task, initial}
use kin_os.Task.Invariant.{IsValid}
use kin_os.Task.Rotate.{Chosen, switch_task-Chosen}
use kin_os.Task.Fair.{switches, switches-current}
use kin_os.Task.Receive.{
  closed_receive, msgs_of, with_more, sent_by, try_again, closed_receive-first,
}
use kin_os.Task.Wake.{
  touched, touch-IsValid, Woken, wakeup-Woken, Delivered, send_message-Delivered,
}
use kin_os.Task.Sleep.{Asleep, sleep-Asleep, new_task-IsValid}
use kin_os.Task.Reach.{Reach, start, next, creates, wakes, finishes, initial-IsValid, Reach-IsValid}
use kin_os.Task.Buffer.{
  minus_one, expand_task_buffer, copy_to_task_buffer, copy_to_task_buffer_refused,
}

-- The first state with a third task, asleep.
abbrev three : TaskManager
three = (new_task initial).1

three-IsValid : IsValid three
three-IsValid = (new_task-IsValid initial-IsValid).0

third : find_task 3 three.tasks ≡ some (make_task 3)
unfolding new_task initial
third = (new_task-IsValid initial-IsValid).2

-- Two tasks at level 1 take turns, with the main task asleep.
abbrev woken : ℕ → TaskManager → Option TaskManager
woken id tm = wakeup tm id none

three_runs :
    Option.map current_task (and_then (woken 3 three) (λ tm. and_then (sleep tm 1) switch_task))
    ≡ some (some 3)
unfolding wakeup sleep switch_task rotate_current_run_queue rotated highest current_task new_task
    initial make_task init_context
three_runs = refl

switch_task-Chosen_example :
    (c : ℕ) × (tm' : TaskManager) × (current_task three ≡ some c)
    × (switch_task three ≡ some tm')
    × (tm'.running ≡ update three.running three.current_level (rotated_queue three false c))
    × (tm'.tasks ≡ three.tasks)
    × (tm'.level_changed ≡ false)
    × (tm'.latest_id ≡ three.latest_id)
    × (tm'.finish_tasks ≡ three.finish_tasks)
    × (tm'.finish_waiter ≡ three.finish_waiter)
    × Chosen tm'
switch_task-Chosen_example = switch_task-Chosen three-IsValid

wakeup-Woken_example :
    (tm' : TaskManager) × (wakeup three 3 (some 2) ≡ some tm') × Woken 3 2 three tm'
wakeup-Woken_example = wakeup-Woken three-IsValid 3 (some 2) third (omega arith) (omega arith)

-- The third task wakes at the level of the main task, and waits behind it.
abbrev given : Option TaskManager → TaskManager
given none = three
given (some tm) = tm

abbrev two : TaskManager
two = given (wakeup three 3 (some 3))

two-IsValid : IsValid two
two-IsValid =
    let (tm', e, w) = wakeup-Woken three-IsValid 3 (some 3) third (omega arith) (omega arith) in
    subst IsValid (sym (ap given e)) w.valid

two_queue : two.running two.current_level ≡ 1 ∷ 3 ∷ []
unfolding wakeup new_task initial make_task init_context
two_queue = refl

two-Chosen : Chosen two
unfolding wakeup new_task initial make_task init_context
two-Chosen = record {
  valid = two-IsValid;
  highest = (refl, omega arith, λ k lo up. absurd (omega arith));
}

switches-current_example :
    (tm' : TaskManager) × (switches 1 two ≡ some tm')
    × (current_task tm' ≡ some 3)
    × (tm'.current_level ≡ two.current_level)
    × (tm'.running tm'.current_level ≡ 3 ∷ 1 ∷ [])
    × Chosen tm'
switches-current_example = switches-current two (1 ∷ []) [] 3 two-Chosen two_queue

send_message-Delivered_example :
    (tm' : TaskManager) × (send_message three 3 (record { type = ready; src_task = 1; arg = unset })
      ≡ some (success, tm'))
    × Delivered 3 (record { type = ready; src_task = 1; arg = unset }) (make_task 3) three tm'
send_message-Delivered_example =
    send_message-Delivered three-IsValid 3 (record { type = ready; src_task = 1; arg = unset })
      third (omega arith)

sleep-Asleep_example :
    (tm' : TaskManager) × (sleep three 3 ≡ some tm')
    × Asleep 3 three tm'
    × ((make_task 3).running ≡ true → current_task three ≡ some 3 → Chosen tm')
sleep-Asleep_example = sleep-Asleep three-IsValid 3 (omega arith) third

three-Reach : Reach three
three-Reach = next start (creates refl)

two-Reach : Reach two
two-Reach =
    let (tm', e, w) = wakeup-Woken three-IsValid 3 (some 3) third (omega arith) (omega arith) in
    next three-Reach (
      wakes 3 (some 3) (make_task 3) third (omega arith) (omega arith)
        (e ∙ ap some (sym (ap given e))))

-- Then the main task ends, and the third one runs.
abbrev main_ended : TaskManager
main_ended = given (finish two 7)

ends : finish two 7 ≡ some main_ended
unfolding finish finish_rotated rotate_current_run_queue rotated highest wakeup new_task initial
    make_task init_context current_task
ends = refl

main_runs : (current_task two ≡ some 1) × (two.finish_waiter 1 ≡ none)
unfolding current_task wakeup new_task initial make_task init_context
main_runs = (refl, refl)

main_ended-Reach : Reach main_ended
main_ended-Reach =
    next two-Reach (finishes 1 7 main_runs.0 (omega arith) (λ w e. cc (e, main_runs.1)) ends)

Reach-IsValid_example : IsValid main_ended
Reach-IsValid_example = Reach-IsValid main_ended-Reach

-- `three`, its third task with a buffer of four bytes.
abbrev buffered : TaskManager
buffered = (expand_task_buffer three 3 4).1

fourth : find_task 3 buffered.tasks ≡ some (record (make_task 3) { buf = 0 ∷ 0 ∷ 0 ∷ 0 ∷ [] })
unfolding new_task initial make_task expand_task_buffer init_context
fourth = refl

-- The difference is cut to 32 bits: a copy 2^32 bytes past the end is not refused.
too_far : copy_to_task_buffer buffered 3 (1 ∷ 2 ∷ 3 ∷ 4 ∷ []) (2 ^ 32) ≡ none
unfolding new_task initial make_task expand_task_buffer init_context copy_to_task_buffer
too_far = refl

copy_to_task_buffer_refused_example :
    copy_to_task_buffer buffered 3 (7 ∷ 8 ∷ []) 3 ≡ some (minus_one, buffered)
unfolding make_task
copy_to_task_buffer_refused_example =
    copy_to_task_buffer_refused buffered 3 (record (make_task 3) { buf = 0 ∷ 0 ∷ 0 ∷ 0 ∷ [] })
      (7 ∷ 8 ∷ []) 3 fourth (omega arith) (omega arith) (omega arith)

-- The third task has a message of the main task, and behind it one of task 5, for which it waits.
abbrev note : ℕ → Message
note src = record { type = ready; src_task = src; arg = unset }

abbrev with_notes : Task → Task
with_notes t = record t { msgs = note 1 ∷ note 5 ∷ note 1 ∷ [] }

abbrev waiting : TaskManager
waiting = touched three 3 with_notes

waiting-IsValid : IsValid waiting
waiting-IsValid = touch-IsValid three-IsValid 3 with_notes (λ u. refl) (λ u. refl) (λ u. refl)

waiting_third : find_task 3 waiting.tasks ≡ some (with_notes (make_task 3))
unfolding new_task initial make_task init_context
waiting_third = refl

closed_receive-first_example :
    (tm' : TaskManager) × (t' : Task) × (closed_receive 3 waiting 3 1 5 []
      ≡ some (some (note 5 ∷ []), tm'))
    × IsValid tm'
    × (find_task 3 tm'.tasks ≡ some t')
    × (t'.msgs ≡ note 1 ∷ [])
    × ((j : ℕ)
        → 3 ≢ j
        → msgs_of j tm' ≡ with_more (sent_by j (note 1 ∷ [])) (try_again 3) (msgs_of j waiting))
closed_receive-first_example =
    closed_receive-first 3 waiting 3 5 (with_notes (make_task 3)) (note 1 ∷ []) (note 5)
      (note 1 ∷ []) waiting-IsValid waiting_third refl refl refl (omega arith)
