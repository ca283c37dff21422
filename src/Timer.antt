-- ===== src/Timer.antt =====
-- The timers, kernel/timer.cpp and kernel/timer.hpp: a queue by timeout, which each tick empties of
-- what is due. The `std::priority_queue` is the list of its elements in the order in which `pop` gives
-- them; of two with one timeout, which it may give in any order, the first pushed is first here.
-- `unsigned long` has 64 bits. The messages of a tick are returned, each with its receiver, in order.
use kin_os.Base.{
  ℕ, zero, suc, ◌+◌, ◌-◌, ◌%◌, ◌^◌, Bool, true, false, Option, none, some, List, [], ◌∷◌, ◌++◌,
  ◌==◌, ltb, if◌then◌else◌, length,
}
use kin_os.Message.{Message, timer_timeout, timer_arg}
pub mod Laws
mod Tests

pub record Timer : Type 0 where
  pub timeout : ℕ
  pub value : ℕ
  pub task_id : ℕ

pub record TimerManager : Type 0 where
  pub tick : ℕ
  pub timers : List Timer

abbrev pub word : ℕ
word = 2 ^ 64

abbrev pub task_timer_period : ℕ
task_timer_period = 2

abbrev pub task_timer_value : ℕ
task_timer_value = 2 ^ 31 - 1

-- `push`: behind every timer that is not later.
abbrev pub push_timer : Timer → List Timer → List Timer
push_timer t [] = t ∷ []
push_timer t (u ∷ us) = if ltb t.timeout u.timeout then t ∷ u ∷ us else u ∷ push_timer t us

-- The constructor: a timer that is never due stands in the queue.
unfoldable pub make_timer_manager : TimerManager
make_timer_manager = record {
  tick = 0;
  timers = record { timeout = word - 1; value = 0; task_id = 0 } ∷ [];
}

unfoldable pub add_timer : TimerManager → Timer → TimerManager
add_timer tm t = record tm { timers = push_timer t tm.timers }

abbrev pub timeout_message : Timer → ℕ × Message
timeout_message t =
    (t.task_id, record { type = timer_timeout; src_task = 0; arg = timer_arg t.timeout t.value })

-- The task timer, set again from the tick `now` on.
abbrev pub task_timer : ℕ → Timer
task_timer now = record {
  timeout = (now + task_timer_period) % word;
  value = task_timer_value;
  task_id = 1;
}

-- The loop of `Tick`; `none` if the queue or the fuel runs out.
unfoldable pub tick_loop :
    ℕ → ℕ → List Timer → Bool → List (ℕ × Message) → Option (Bool × List Timer × List (ℕ × Message))
tick_loop zero now ts task_timeout sent = none
tick_loop (suc fuel) now [] task_timeout sent = none
tick_loop (suc fuel) now (t ∷ ts) task_timeout sent = elim (ltb now t.timeout) [
  | true ↦ some (task_timeout, t ∷ ts, sent)
  | false ↦ elim (t.value == task_timer_value) [
    | true ↦ tick_loop fuel now (push_timer (task_timer now) ts) true sent
    | false ↦ tick_loop fuel now ts task_timeout (sent ++ (timeout_message t ∷ []))
  ]
]

-- The rest of `Tick`, once the counter stands at `now`. Each round takes a timer that is due from the
-- queue and puts none that is due there.
unfoldable pub tick_at : TimerManager → ℕ → Option (Bool × TimerManager × List (ℕ × Message))
tick_at tm now = elim (tick_loop (suc (length tm.timers)) now tm.timers false []) [
  | none ↦ none
  | some (task_timeout, timers, sent) ↦
      some (task_timeout, record { tick = now; timers = timers }, sent)
]

unfoldable pub tick : TimerManager → Option (Bool × TimerManager × List (ℕ × Message))
tick tm = tick_at tm ((tm.tick + 1) % word)
