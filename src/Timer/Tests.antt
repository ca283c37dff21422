-- ===== src/Timer/Tests.antt =====
-- Ticks of a few timers, and the theorems at such states.
use kin_os.Base.{◌-◌, ◌≡◌, refl, true, some, [], ◌∷◌, arith}
use kin_os.Timer.{Timer, TimerManager, task_timer, timeout_message, tick_loop, tick_at, tick, word}
use kin_os.Timer.Laws.{IsValid, Ticked, tick-Ticked}

abbrev alarm : Timer
alarm = record { timeout = 10; value = 7; task_id = 3 }

abbrev never : Timer
never = record { timeout = word - 1; value = 0; task_id = 0 }

-- At tick 9 the alarm and the task timer are both due next.
abbrev nine : TimerManager
nine = record { tick = 9; timers = alarm ∷ task_timer 8 ∷ never ∷ [] }

nine-IsValid : IsValid nine
nine-IsValid = record { sorted = omega arith; never_due = refl }

ticks :
    tick nine
    ≡ some (
      true,
      record { tick = 10; timers = task_timer 10 ∷ never ∷ [] },
      timeout_message alarm ∷ [],
    )
unfolding tick tick_at tick_loop
ticks = refl

tick-Ticked_example : Ticked nine
tick-Ticked_example = tick-Ticked nine nine-IsValid (omega arith)
