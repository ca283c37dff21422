-- ===== src/Am/Server/Run.antt =====
-- The loop of `main`, servers/am/am.cpp: `ReceiveMessage`, `HandleMessage` and `SendMessage` in turn, as a
-- step relation, and as a function of the messages that come in.
use mathlib.Core.Option
use kin_os.Base.{ℕ, ◌≡◌, Bool, true, false, Option, none, some, List, [], ◌∷◌, ◌==◌}
use kin_os.Message.{Message}
use kin_os.Am.Apps.{find_app}
use kin_os.Am.Server.{State, state_init, state_pipe, state_waiting_key, Server, Env, start_server}
use kin_os.Am.Server.Receive.{waits, Next, again, moved, receive}
use kin_os.Am.Server.Handle.{handle, send}

-- The call that is next.
pub data Phase : Type 0 where
  receiving handling sending : Phase

pub record Config : Type 0 where
  pub phase : Phase
  pub server : Server

abbrev pub after : Next → Config
after (again s) = record { phase = receiving; server = s }
after (moved s) = record { phase = handling; server = s }

-- Whether the waiting call takes a message from this sender: any in `InitState`, and in the others that of
-- the server or the application that is waited for. (The kernel itself answers the others, with an error
-- that asks to try again.)
abbrev pub accepts : State → Server → ℕ → Bool
accepts state_init s src = true
accepts state_pipe s src = src == s.target_id
accepts state_waiting_key s src = src == s.target_id
accepts _ s src = src == s.fs_id

-- The kernel gives a new task an id that it gave no task before, so that no application has it.
abbrev pub NewTaskIsFresh : Env → Server → Type 0
NewTaskIsFresh env s = (id : ℕ) → env.new_task ≡ some id → find_app id s.app_manager.apps ≡ none

pub data Step : Config → Config → Type 0 where
  gets :
      {s : Server} {n : Next} (env : Env) (m : Message)
      → waits s.state ≡ true
      → accepts s.state s m.src_task ≡ true
      → receive env m s ≡ some n
      → Step (record { phase = receiving; server = s }) (after n)
  passes :
      {s : Server}
      → waits s.state ≡ false
      → Step (record { phase = receiving; server = s }) (record { phase = handling; server = s })
  handles :
      {s s' : Server} (env : Env)
      → NewTaskIsFresh env s
      → handle env s ≡ some s'
      → Step (record { phase = handling; server = s }) (record { phase = sending; server = s' })
  sends :
      {s : Server}
      → Step
          (record { phase = sending; server = s })
          (record { phase = receiving; server = send s })

pub data Reach : Config → Type 0 where
  start : Reach (record { phase = receiving; server = start_server })
  later : {c d : Config} → Reach c → Step c d → Reach d

-- What follows a message: the next message is waited for, or the other two calls are made.
unfoldable pub turn : Env → Next → Option Server
turn env (again s) = some s
turn env (moved s) = Option.map send (handle env s)

unfoldable pub serve : Env → Message → Server → Option Server
unfolding turn
serve env m s = elim (receive env m s) [ none ↦ none | some n ↦ turn env n ]

-- The server after messages that come one after the other, from where it waits.
unfoldable pub run : List (Env × Message) → Server → Option Server
unfolding serve
run [] s = some s
run ((env, m) ∷ ins) s = elim (serve env m s) [ none ↦ none | some s' ↦ run ins s' ]
