-- ===== src/Timer/Laws.antt =====
-- What one tick of the timers does.
use mathlib.Core.List.{append-nil, append_assoc}
use kin_os.Base.{
  ℕ, zero, suc, ◌+◌, ◌-◌, ◌≤◌, ◌<◌, ◌≡◌, refl, ◌∙◌, ap, Bool, true, false, ◌||◌, Option, some, List,
  [], ◌∷◌, ◌++◌, ◌==◌, ltb, if◌then◌else◌, length, Bool-cases, inl, inr, arith,
}
use kin_os.Message.{Message}
use kin_os.Timer.{
  Timer, TimerManager, word, task_timer_period, task_timer_value, push_timer, add_timer,
  timeout_message, task_timer, tick_loop, tick_at, tick,
}

-- The timers that are due at `now`, in the queue's order.
abbrev pub due : ℕ → List Timer → List Timer
due now [] = []
due now (t ∷ ts) = if ltb now t.timeout then due now ts else t ∷ due now ts

abbrev pub later : ℕ → List Timer → List Timer
later now [] = []
later now (t ∷ ts) = if ltb now t.timeout then t ∷ later now ts else later now ts

-- One of them is the task timer.
abbrev pub has_task_timer : List Timer → Bool
has_task_timer [] = false
has_task_timer (t ∷ ts) = t.value == task_timer_value || has_task_timer ts

-- The messages for the others.
abbrev pub messages : List Timer → List (ℕ × Message)
messages [] = []
messages (t ∷ ts) =
    if t.value == task_timer_value then messages ts else timeout_message t ∷ messages ts

-- The task timer, set again once for each time that it was due.
abbrev pub rearmed : ℕ → List Timer → List Timer → List Timer
rearmed now [] queue = queue
rearmed now (t ∷ ts) queue =
    rearmed now ts
      (if t.value == task_timer_value then push_timer (task_timer now) queue else queue)

-- No timer of the queue's front is before `x`.
abbrev pub HeadFrom : ℕ → List Timer → Type 0
HeadFrom x [] = Unit {0}
HeadFrom x (t ∷ ts) = x ≤ t.timeout

abbrev pub Sorted : List Timer → Type 0
Sorted [] = Unit {0}
Sorted (t ∷ ts) = HeadFrom t.timeout ts × Sorted ts

HeadFrom-push_timer :
    (x : ℕ) (t : Timer) (ts : List Timer)
    → x ≤ t.timeout
    → HeadFrom x ts
    → HeadFrom x (push_timer t ts)
HeadFrom-push_timer x t [] le h = le
HeadFrom-push_timer x t (u ∷ ts) le h = elim (Bool-cases (ltb t.timeout u.timeout)) [
  | inl e ↦ rw e le
  | inr e ↦ rw e h
]

pub Sorted-push_timer : (t : Timer) (ts : List Timer) → Sorted ts → Sorted (push_timer t ts)
Sorted-push_timer t [] s = (tt, tt)
Sorted-push_timer t (u ∷ ts) s = elim (Bool-cases (ltb t.timeout u.timeout)) [
  | inl e ↦ rw e (ground arith, s)
  | inr e ↦ rw e (HeadFrom-push_timer u.timeout t ts (ground arith) s.0, Sorted-push_timer t ts s.1)
]

all_later :
    (now : ℕ) (t : Timer) (ts : List Timer)
    → Sorted (t ∷ ts)
    → now < t.timeout
    → (due now (t ∷ ts) ≡ []) × (later now (t ∷ ts) ≡ t ∷ ts)
all_later now t [] s lt = ground arith
all_later now t (u ∷ ts) s lt = ground (arith, all_later now u ts s.1)

due-push_timer :
    (now : ℕ) (t : Timer) (ts : List Timer)
    → now < t.timeout
    → due now (push_timer t ts) ≡ due now ts
due-push_timer now t [] lt = ground arith
due-push_timer now t (u ∷ ts) lt = ground (arith, due-push_timer now t ts lt)

later-push_timer :
    (now : ℕ) (t : Timer) (ts : List Timer)
    → now < t.timeout
    → later now (push_timer t ts) ≡ push_timer t (later now ts)
later-push_timer now t [] lt = ground arith
later-push_timer now t (u ∷ ts) lt = ground (arith, later-push_timer now t ts lt)

-- Some timer is not due.
abbrev pub has_later : ℕ → List Timer → Bool
has_later now [] = false
has_later now (t ∷ ts) = ltb now t.timeout || has_later now ts

has_later-push_timer :
    (now : ℕ) (t : Timer) (ts : List Timer)
    → now < t.timeout
    → has_later now (push_timer t ts) ≡ true
has_later-push_timer now t [] lt = ground arith
has_later-push_timer now t (u ∷ ts) lt = ground (arith, has_later-push_timer now t ts lt)

-- The loop's step at a timer that is due.
module _ (fuel now : ℕ) (t : Timer) (ts : List Timer) (flag : Bool)
    (sent : List (ℕ × Message)) where
  loop_stops :
      ltb now t.timeout ≡ true
      → tick_loop (suc fuel) now (t ∷ ts) flag sent ≡ some (flag, t ∷ ts, sent)
  unfolding tick_loop
  loop_stops e = ground arith

  loop_task :
      ltb now t.timeout ≡ false
      → (t.value == task_timer_value) ≡ true
      → tick_loop (suc fuel) now (t ∷ ts) flag sent
        ≡ tick_loop fuel now (push_timer (task_timer now) ts) true sent
  unfolding tick_loop
  loop_task e f = ground arith

  loop_sends :
      ltb now t.timeout ≡ false
      → (t.value == task_timer_value) ≡ false
      → tick_loop (suc fuel) now (t ∷ ts) flag sent
        ≡ tick_loop fuel now ts flag (sent ++ (timeout_message t ∷ []))
  unfolding tick_loop
  loop_sends e f = ground arith

-- What the loop answers, read off the queue at its start.
abbrev answer :
    ℕ → List Timer → Bool → List (ℕ × Message) → Option (Bool × List Timer × List (ℕ × Message))
answer now ts flag sent = some (
  flag || has_task_timer (due now ts),
  rearmed now (due now ts) (later now ts),
  sent ++ messages (due now ts),
)

tick_loop_lem :
    (fuel now : ℕ) (ts : List Timer) (flag : Bool) (sent : List (ℕ × Message))
    → Sorted ts
    → length (due now ts) < fuel
    → has_later now ts ≡ true
    → now + task_timer_period < word
    → tick_loop fuel now ts flag sent ≡ answer now ts flag sent
tick_loop_lem zero now ts flag sent s lt h small = absurd (omega arith)
tick_loop_lem (suc fuel) now [] flag sent s lt h small = cc
tick_loop_lem (suc fuel) now (t ∷ ts) flag sent s lt h small =
    elim (Bool-cases (ltb now t.timeout)) [
      | inl e ↦
          rw (loop_stops fuel now t ts flag sent e)
            (ground (arith, all_later now t ts s (ground arith), append-nil sent))
      | inr e ↦ elim (Bool-cases (t.value == task_timer_value)) [
        | inl f ↦
            let soon : now < (task_timer now).timeout = omega arith in
            rw (loop_task fuel now t ts flag sent e f) (
              tick_loop_lem fuel now (push_timer (task_timer now) ts) true sent
                (Sorted-push_timer (task_timer now) ts s.1)
                (ground (arith, due-push_timer now (task_timer now) ts soon))
                (has_later-push_timer now (task_timer now) ts soon) small
              ∙ ground (
                arith,
                due-push_timer now (task_timer now) ts soon,
                later-push_timer now (task_timer now) ts soon,
              ))
        | inr f ↦ rw (loop_sends fuel now t ts flag sent e f) (
            tick_loop_lem fuel now ts flag (sent ++ (timeout_message t ∷ [])) s.1 (ground arith)
              (ground arith) small
            ∙ ground (arith, append_assoc sent (timeout_message t ∷ []) (messages (due now ts))))
      ]
    ]

-- What holds of the timers between two operations: the queue's order, and the timer that is never due.
pub record IsValid (tm : TimerManager) : Type 0 where
  pub sorted : Sorted tm.timers
  pub never_due : has_later (word - 2) tm.timers ≡ true

length-due : (now : ℕ) (ts : List Timer) → length (due now ts) ≤ length ts
length-due now [] = omega arith
length-due now (t ∷ ts) = ground (arith, length-due now ts)

has_later_mono : (m n : ℕ) (ts : List Timer) → m ≤ n → has_later n ts ≡ true → has_later m ts ≡ true
has_later_mono m n [] le h = h
has_later_mono m n (t ∷ ts) le h = ground (arith, has_later_mono m n ts le)

has_later-push :
    (n : ℕ) (t : Timer) (ts : List Timer)
    → has_later n ts ≡ true
    → has_later n (push_timer t ts) ≡ true
has_later-push n t [] h = cc
has_later-push n t (u ∷ ts) h = ground (arith, has_later-push n t ts)

has_later-later :
    (m n : ℕ) (ts : List Timer) → m ≤ n → has_later n ts ≡ true → has_later n (later m ts) ≡ true
has_later-later m n [] le h = h
has_later-later m n (t ∷ ts) le h = ground (arith, has_later-later m n ts le)

HeadFrom-later :
    (x now : ℕ) (ts : List Timer) → Sorted ts → HeadFrom x ts → HeadFrom x (later now ts)
HeadFrom-later x now [] s h = tt
HeadFrom-later x now (t ∷ ts) s h = elim (Bool-cases (ltb now t.timeout)) [
  | inl e ↦ rw e h
  | inr e ↦ rw e (HeadFrom-later x now ts s.1 (from_next ts s.0))
]
  where
    from_next : (us : List Timer) → HeadFrom t.timeout us → HeadFrom x us
    from_next [] g = tt
    from_next (u ∷ us) g = omega arith

Sorted-later : (now : ℕ) (ts : List Timer) → Sorted ts → Sorted (later now ts)
Sorted-later now [] s = tt
Sorted-later now (t ∷ ts) s = elim (Bool-cases (ltb now t.timeout)) [
  | inl e ↦ rw e (HeadFrom-later t.timeout now ts s.1 s.0, Sorted-later now ts s.1)
  | inr e ↦ rw e (Sorted-later now ts s.1)
]

due-later : (now : ℕ) (ts : List Timer) → due now (later now ts) ≡ []
due-later now [] = refl
due-later now (t ∷ ts) = ground (arith, due-later now ts)

-- What setting the task timer again keeps of the queue.
abbrev Kept : ℕ → List Timer → Type 0
Kept now queue = Sorted queue × (has_later (word - 2) queue ≡ true) × (due now queue ≡ [])

rearmed-Kept :
    (now : ℕ) (ts queue : List Timer)
    → now + task_timer_period < word
    → Kept now queue
    → Kept now (rearmed now ts queue)
rearmed-Kept now [] queue small k = k
rearmed-Kept now (t ∷ ts) queue small k = elim (Bool-cases (t.value == task_timer_value)) [
  | inl e ↦ rw e (
      rearmed-Kept now ts (push_timer (task_timer now) queue) small (
        Sorted-push_timer (task_timer now) queue k.0,
        has_later-push (word - 2) (task_timer now) queue k.1,
        due-push_timer now (task_timer now) queue (omega arith) ∙ k.2,
      ))
  | inr e ↦ rw e (rearmed-Kept now ts queue small k)
]

-- What `Tick` does from the state `tm`.
pub record Ticked (tm : TimerManager) : Type 0 where
  pub after : TimerManager
  pub answers :
      tick tm
      ≡ some (
        has_task_timer (due (tm.tick + 1) tm.timers),
        after,
        messages (due (tm.tick + 1) tm.timers),
      )
  pub now : after.tick ≡ tm.tick + 1
  pub queue :
      after.timers
      ≡ rearmed (tm.tick + 1) (due (tm.tick + 1) tm.timers) (later (tm.tick + 1) tm.timers)
  pub none_due : due after.tick after.timers ≡ []
  pub valid : IsValid after

tick_at_loop :
    (tm : TimerManager) (now : ℕ) (b : Bool) (ts : List Timer) (sent : List (ℕ × Message))
    → tick_loop (suc (length tm.timers)) now tm.timers false [] ≡ some (b, ts, sent)
    → tick_at tm now ≡ some (b, record { tick = now; timers = ts }, sent)
unfolding tick_at
tick_at_loop tm now b ts sent e = rw (tick_at, e) refl

tick_of_loop :
    (tm : TimerManager) (b : Bool) (ts : List Timer) (sent : List (ℕ × Message))
    → tm.tick + 1 < word
    → tick_loop (suc (length tm.timers)) (tm.tick + 1) tm.timers false [] ≡ some (b, ts, sent)
    → tick tm ≡ some (b, record { tick = tm.tick + 1; timers = ts }, sent)
unfolding tick
tick_of_loop tm b ts sent lt e =
    ap (tick_at tm) (omega arith) ∙ tick_at_loop tm (tm.tick + 1) b ts sent e

-- `Tick` always returns, until the counter comes near 2^64. It goes on by one, sends one message for
-- each timer that is due and is not the task timer, in the queue's order, takes all that are due from
-- the queue, sets the task timer again two ticks later for each time that it was due, and says
-- whether it was. No timer is left that is due, and the queue's order and its last timer stay.
pub tick-Ticked :
    (tm : TimerManager) → IsValid tm → tm.tick + 1 + task_timer_period < word → Ticked tm
tick-Ticked tm v small =
    let now : ℕ = tm.tick + 1 in
    let ts : List Timer = rearmed now (due now tm.timers) (later now tm.timers) in
    let kept : Kept now ts = rearmed-Kept now (due now tm.timers) (later now tm.timers) small (
      Sorted-later now tm.timers v.sorted,
      has_later-later now (word - 2) tm.timers (omega arith) v.never_due,
      due-later now tm.timers,
    ) in
    record {
      after = record { tick = now; timers = ts };
      answers = tick_of_loop tm _ ts _ (omega arith) (
          tick_loop_lem (suc (length tm.timers)) now tm.timers false [] v.sorted
            (omega (arith, length-due now tm.timers))
            (has_later_mono now (word - 2) tm.timers (omega arith) v.never_due) small);
      now = refl;
      queue = refl;
      none_due = kept.2;
      valid = record { sorted = kept.0; never_due = kept.1 };
    }

-- Adding a timer keeps a state valid.
pub add_timer-IsValid : (tm : TimerManager) (t : Timer) → IsValid tm → IsValid (add_timer tm t)
unfolding add_timer
add_timer-IsValid tm t v = record {
  sorted = Sorted-push_timer t tm.timers v.sorted;
  never_due = has_later-push (word - 2) t tm.timers v.never_due;
}
