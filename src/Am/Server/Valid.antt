-- ===== src/Am/Server/Valid.antt =====
-- The invariant of the application manager's loop, and what `ReceiveMessage` keeps of it.
use kin_os.Base.{ℕ, ◌<◌, ◌≡◌, Bool, true, false, ◌||◌, ◌&&◌, Option, none, some, length, arith}
use kin_os.Message.{MessageType}
use kin_os.Am.Apps.{find_app}
use kin_os.Am.Server.{
  State, state_err, state_init, state_exec_file, state_create_task, state_start_task,
  state_redirect, state_pipe, state_exit, state_open, state_allocate_fd, state_read, state_write,
  state_waiting_key, Server,
}
use kin_os.Am.Server.Receive.{
  waits, Next, again, Kind, fails, others, leads, receive_at, receive_init, receive_fs,
  receive_error, request_state, kind_exec_file, kind_create_task, kind_redirect, kind_open,
}
use kin_os.Am.Server.Run.{Phase, receiving, handling, sending, Config, after}
use kin_os.Am.Server.Phase.{Legal}
use kin_os.Am.Server.Files.{IsSound}

abbrev pub is_some : Option ℕ → Bool
is_some none = false
is_some (some p) = true

abbrev pub is_pipe : State → Bool
is_pipe state_pipe = true
is_pipe _ = false

abbrev pub is_start : State → Bool
is_start state_start_task = true
is_start _ = false

-- A pipe is going to be used: an application is to read it, or its writer has just been made.
abbrev pub needs_pipe : Phase → Server → Bool
needs_pipe receiving s = s.piped || is_pipe s.state
needs_pipe handling s = s.piped
needs_pipe sending s = s.piped || (is_start s.state && s.pipe)

-- A task has been created for which there is no application yet.
abbrev pub expects_app : Phase → State → Bool
expects_app receiving state_create_task = true
expects_app receiving state_redirect = true
expects_app handling state_redirect = true
expects_app handling state_start_task = true
expects_app sending state_create_task = true
expects_app sending state_redirect = true
expects_app _ _ = false

pub record IsValid (c : Config) : Type 0 where
  pub legal : Legal c
  pub files : IsSound c.server.app_manager
  pub place : (p : ℕ) → c.server.pipe_fd ≡ some p → p < length c.server.app_manager.fds
  pub pipe : needs_pipe c.phase c.server ≡ true → is_some c.server.pipe_fd ≡ true
  pub fresh :
      expects_app c.phase c.server.state ≡ true
      → find_app c.server.new_id c.server.app_manager.apps ≡ none

-- What receiving leaves alone, and that it asks for no pipe and no new task that were not asked for.
abbrev pub KeepsNext : Server → Next → Type 0
KeepsNext s n =
    let c = after n in
    (c.server.app_manager ≡ s.app_manager)
    × (c.server.pipe_fd ≡ s.pipe_fd)
    × (c.server.new_id ≡ s.new_id)
    × (needs_pipe c.phase c.server ≡ true → needs_pipe receiving s ≡ true)
    × (expects_app c.phase c.server.state ≡ true → expects_app receiving s.state ≡ true)

request_expects :
    (ty : MessageType) (st : State) → request_state ty ≡ some st → expects_app handling st ≡ false
request_expects ty st e = ground arith

init_Keeps : (fs : Option ℕ) (s : Server) (n : Next) → receive_init fs s ≡ some n → KeepsNext s n
unfolding receive_init
init_Keeps none s n e = ground arith
init_Keeps (some fs) s n e = ground (arith, request_expects s.rm.type)

error_Keeps :
    (err : Option ℕ) (s : Server) (n : Next) → receive_error err s ≡ some n → KeepsNext s n
unfolding receive_error
error_Keeps err s n e = ground arith

fs_Keeps :
    (k : Kind) (err : Option ℕ) (unknown n : Next) (s : Server)
    → KeepsNext s unknown
    → ((st : State)
        → k ≡ leads st
        → expects_app handling st ≡ true
        → expects_app receiving s.state ≡ true)
    → receive_fs k err unknown s ≡ some n
    → KeepsNext s n
unfolding receive_fs
fs_Keeps fails err unknown n s u l e = error_Keeps err s n e
fs_Keeps (leads st) err unknown n s u l e = ground (arith, l st)
fs_Keeps others err unknown n s u l e = ground (arith, u)

pub receive_Keeps :
    (st : State) (fs : Option ℕ) (s : Server) (n : Next)
    → s.state ≡ st
    → waits st ≡ true
    → receive_at st fs s ≡ some n
    → KeepsNext s n
unfolding receive_at
receive_Keeps state_init fs s n p w e = init_Keeps fs s n e
receive_Keeps state_exec_file fs s n p w e =
    fs_Keeps (kind_exec_file s.rm.type) none (again s) n s (ground arith) (λ st q. ground arith) e
receive_Keeps state_create_task fs s n p w e =
    fs_Keeps (kind_create_task s.redirect s.rm.type) _ _ n s (ground arith) (λ st q. ground arith) e
receive_Keeps state_redirect fs s n p w e =
    fs_Keeps (kind_redirect s.rm.type) _ _ n s (ground arith) (λ st q. ground arith) e
receive_Keeps state_open fs s n p w e =
    fs_Keeps (kind_open s.rm.type) _ _ n s (ground arith) (λ st q. ground arith) e
receive_Keeps state_err fs s n p w e = absurd (cc w)
receive_Keeps state_start_task fs s n p w e = absurd (cc w)
receive_Keeps state_pipe fs s n p w e = ground arith
receive_Keeps state_exit fs s n p w e = absurd (cc w)
receive_Keeps state_allocate_fd fs s n p w e = absurd (cc w)
receive_Keeps state_read fs s n p w e = absurd (cc w)
receive_Keeps state_write fs s n p w e = absurd (cc w)
receive_Keeps state_waiting_key fs s n p w e = ground arith
