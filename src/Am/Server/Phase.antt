-- ===== src/Am/Server/Phase.antt =====
-- Which states the application manager can be in before each of its three calls.
use kin_os.Base.{
  List, [], ◌∷◌, map-some, and_then-some, ℕ, ◌≡◌, refl, Bool, true, false, Option, none, some, ◌⊎◌,
  arith,
}
use kin_os.Message.{Message, MessageType}
use kin_os.Am.Pipe.{Sent}
use kin_os.Am.Apps.{FileDescriptor}
use kin_os.Am.Server.{
  State, state_err, state_init, state_exec_file, state_create_task, state_start_task,
  state_redirect, state_pipe, state_exit, state_open, state_allocate_fd, state_read, state_write,
  state_waiting_key, Server, Env, start_server,
}
use kin_os.Am.Server.Receive.{
  waits, Next, again, Kind, fails, others, leads, receive_at, receive_init, receive_fs,
  receive_error, receive, request_state, kind_exec_file, kind_create_task, kind_redirect, kind_open,
}
use kin_os.Am.Server.Handle.{
  handle, handle_at, send, send_at, handle_exec_file, handle_create_task, handle_start_task,
  handle_open, handle_allocate_fd, handle_exit, handle_read, handle_write, handle_waiting_key,
  take_redirect, redirect_file, piped_file, pipe_file, announce, start_files, created, new_fd,
  run_descriptor, handle_file, read_descriptor, write_descriptor, handle_redirect,
}
use kin_os.Am.Server.Run.{
  receiving, handling, sending, Config, after, Step, gets, passes, handles, sends, Reach, start,
  later,
}

-- `InitState` and `PipeState` are left before their other calls are made.
abbrev pub may_handle : State → Bool
may_handle state_init = false
may_handle state_pipe = false
may_handle _ = true

-- `AllocateFDState` and `PipeState` send nothing of their own.
abbrev pub may_send : State → Bool
may_send state_allocate_fd = false
may_send state_pipe = false
may_send _ = true

abbrev pub Legal : Config → Type 0
Legal c = elim c.phase [
  | receiving ↦ waits c.server.state ≡ true
  | handling ↦ may_handle c.server.state ≡ true
  | sending ↦ may_send c.server.state ≡ true
]

request_may_handle :
    (ty : MessageType) (st : State) → request_state ty ≡ some st → may_handle st ≡ true
request_may_handle ty st e = ground arith

-- After a message the loop goes on in a state that waits, or the state that it leads to has a call to make.
init_Legal : (fs : Option ℕ) (s : Server) (n : Next) → receive_init fs s ≡ some n → Legal (after n)
unfolding receive_init
init_Legal none s n e = ground arith
init_Legal (some fs) s n e = ground (arith, request_may_handle s.rm.type)

error_Legal :
    (err : Option ℕ) (s : Server) (n : Next)
    → waits s.state ≡ true
    → receive_error err s ≡ some n
    → Legal (after n)
unfolding receive_error
error_Legal err s n w e = ground arith

fs_Legal :
    (k : Kind) (err : Option ℕ) (unknown n : Next) (s : Server)
    → waits s.state ≡ true
    → ((st : State) → k ≡ leads st → may_handle st ≡ true)
    → Legal (after unknown)
    → receive_fs k err unknown s ≡ some n
    → Legal (after n)
unfolding receive_fs
fs_Legal fails err unknown n s w l u e = error_Legal err s n w e
fs_Legal (leads st) err unknown n s w l u e = ground (arith, l st)
fs_Legal others err unknown n s w l u e = ground (arith, u)

receive_Legal :
    (st : State) (fs : Option ℕ) (s : Server) (n : Next)
    → s.state ≡ st
    → waits st ≡ true
    → receive_at st fs s ≡ some n
    → Legal (after n)
unfolding receive_at
receive_Legal state_err fs s n p w e = cc
receive_Legal state_init fs s n p w e = init_Legal fs s n e
receive_Legal state_exec_file fs s n p w e =
    fs_Legal (kind_exec_file s.rm.type) none (again s) n s (rw p refl) (λ st q. ground arith)
      (rw p refl) e
receive_Legal state_create_task fs s n p w e =
    fs_Legal (kind_create_task s.redirect s.rm.type) _ _ n s (rw p refl) (λ st q. ground arith) refl
      e
receive_Legal state_start_task fs s n p w e = cc
receive_Legal state_redirect fs s n p w e =
    fs_Legal (kind_redirect s.rm.type) _ _ n s (rw p refl) (λ st q. ground arith) refl e
receive_Legal state_pipe fs s n p w e = ground arith
receive_Legal state_exit fs s n p w e = cc
receive_Legal state_open fs s n p w e =
    fs_Legal (kind_open s.rm.type) _ _ n s (rw p refl) (λ st q. ground arith) refl e
receive_Legal state_allocate_fd fs s n p w e = cc
receive_Legal state_read fs s n p w e = cc
receive_Legal state_write fs s n p w e = cc
receive_Legal state_waiting_key fs s n p w e = ground arith

-- A call of `HandleMessage` keeps the state, or leads to `InitState` or `ErrState`.
abbrev SameState : Server → Server → Type 0
SameState s s' = (s'.state ≡ s.state) ⊎ (s'.state ≡ state_init) ⊎ (s'.state ≡ state_err)

take_state : (ms : List Message) (s s' : Server) → take_redirect ms s ≡ some s' → s'.state ≡ s.state
unfolding take_redirect
take_state [] s s' e = cc
take_state (m ∷ ms) s s' e = ground arith

pub exec_state : (env : Env) (s s' : Server) → handle_exec_file env s ≡ some s' → s'.state ≡ s.state
unfolding handle_exec_file
exec_state env s s' e = ground (arith, λ (t : Server). take_state env.replies t)

redirect_state : (s s' : Server) → redirect_file s ≡ some s' → s'.state ≡ s.state
unfolding redirect_file
redirect_state s s' e = ground arith

piped_state : (s s' : Server) → piped_file s ≡ some s' → s'.state ≡ s.state
unfolding piped_file
piped_state s s' e = ground arith

pipe_state : (s s' : Server) → pipe_file s ≡ some s' → s'.state ≡ s.state
unfolding pipe_file
pipe_state s s' e = ground arith

pub start_state :
    (env : Env) (s s' : Server) → handle_start_task env s ≡ some s' → s'.state ≡ s.state
unfolding handle_start_task
start_state env s s' e =
    let (s3, e3, q) = map-some announce (start_files (created env s)) e in
    let (s1, e1, r) = and_then-some (redirect_file (created env s)) _ e3 in
    let (s2, e2, e4) = and_then-some (piped_file s1) pipe_file r in
    ground (arith, pipe_state s2 s3 e4, piped_state s1 s2 e2, redirect_state (created env s) s1 e1)

pub open_SameState : (s s' : Server) → handle_open s ≡ some s' → SameState s s'
unfolding handle_open
open_SameState s s' e = ground arith

fd_state :
    (name : List ℕ) (s : Server) (r : ℕ × Server) → new_fd name s ≡ some r → r.1.state ≡ s.state
unfolding new_fd
fd_state name s r e = ground arith

pub allocate_state : (s s' : Server) → handle_allocate_fd s ≡ some s' → s'.state ≡ state_init
unfolding handle_allocate_fd
allocate_state s s' e = ground arith

pub exit_SameState : (s s' : Server) → handle_exit s ≡ some s' → SameState s s'
unfolding handle_exit
exit_SameState s s' e = ground arith

pub run_state :
    (f : FileDescriptor → Message → Option (FileDescriptor × List Sent)) (place : ℕ) (s s' : Server)
    → run_descriptor f place s ≡ some s'
    → s'.state ≡ s.state
unfolding run_descriptor
run_state f place s s' e = ground arith

file_SameState :
    (f : FileDescriptor → Message → Option (FileDescriptor × List Sent)) (fd : ℕ) (s s' : Server)
    → handle_file f fd s ≡ some s'
    → SameState s s'
unfolding handle_file
file_SameState f fd s s' e = ground (arith, λ (place : ℕ). run_state f place s s')

pub key_state : (s s' : Server) → handle_waiting_key s ≡ some s' → s'.state ≡ s.state
unfolding handle_waiting_key
key_state s s' e = ground arith

pub read_SameState : (env : Env) (s s' : Server) → handle_read env s ≡ some s' → SameState s s'
unfolding handle_read
read_SameState env s s' e =
    ground (arith, λ (fd : ℕ) (t : Server). file_SameState (read_descriptor env) fd t s')

pub write_SameState : (env : Env) (s s' : Server) → handle_write env s ≡ some s' → SameState s s'
unfolding handle_write
write_SameState env s s' e =
    ground (arith, λ (fd : ℕ) (t : Server). file_SameState (write_descriptor env) fd t s')

-- After `HandleMessage` the state has a call of `SendMessage` to make.
pub handle_may_send :
    (st : State) (env : Env) (s s' : Server)
    → s.state ≡ st
    → may_handle st ≡ true
    → handle_at st env s ≡ some s'
    → may_send s'.state ≡ true
unfolding handle_at handle_create_task handle_redirect
handle_may_send state_err env s s' p h e = ground arith
handle_may_send state_init env s s' p h e = cc
handle_may_send state_exec_file env s s' p h e = ground (arith, exec_state env s s' e)
handle_may_send state_create_task env s s' p h e = ground arith
handle_may_send state_start_task env s s' p h e = ground (arith, start_state env s s' e)
handle_may_send state_redirect env s s' p h e = ground arith
handle_may_send state_pipe env s s' p h e = cc
handle_may_send state_exit env s s' p h e = ground (arith, exit_SameState s s' e)
handle_may_send state_open env s s' p h e = ground (arith, open_SameState s s' e)
handle_may_send state_allocate_fd env s s' p h e = ground (arith, allocate_state s s' e)
handle_may_send state_read env s s' p h e = ground (arith, read_SameState env s s' e)
handle_may_send state_write env s s' p h e = ground (arith, write_SameState env s s' e)
handle_may_send state_waiting_key env s s' p h e = ground (arith, key_state s s' e)

pub send_waits :
    (st : State) (s : Server)
    → s.state ≡ st
    → may_send st ≡ true
    → waits (send_at st s).state ≡ true
unfolding send_at
send_waits st s p h = ground arith

-- Every step keeps to the table of states.
pub Step-Legal : {c d : Config} → Step c d → Legal c → Legal d
unfolding receive handle send
Step-Legal (gets {s} {n} env m w a e) l =
    receive_Legal s.state env.fs (record s { rm = m }) n refl w e
Step-Legal (passes w) l = cc
Step-Legal (handles {s} {s'} env f e) l = handle_may_send s.state env s s' refl l e
Step-Legal (sends {s}) l = send_waits s.state s refl l

-- In every configuration that the loop of `main` can reach, the state is one with something to do at the
-- call that is next: before `ReceiveMessage` it waits for a message, so that the loop never spins;
-- `InitState` and `PipeState` never handle one, and `AllocateFDState` and `PipeState` never send.
pub Reach-Legal : {c : Config} → Reach c → Legal c
unfolding start_server
Reach-Legal start = refl
Reach-Legal (later r st) = Step-Legal st (Reach-Legal r)
