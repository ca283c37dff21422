-- ===== src/Am/Server/Receive.antt =====
-- `ReceiveMessage` of the application manager's states, servers/am/serverstate.cpp, one function for them
-- all. `none` is undefined behaviour: a function that ends without a value, or a member of the union that
-- was not written.
use kin_os.Base.{ℕ, Bool, true, false, Option, none, some, ◌==◌, if◌then◌else◌}
use kin_os.Message.{
  Message, MessageType, error, ready, execute_file, read_file, write_file, open_file, open_dir,
  waiting_key, exit_app, key_push, quit, error_of,
}
use kin_os.Am.Pipe.{error_message}
use kin_os.Am.Server.{
  State, state_err, state_init, state_exec_file, state_create_task, state_start_task,
  state_redirect, state_pipe, state_exit, state_open, state_allocate_fd, state_read, state_write,
  state_waiting_key, Server, Env, eagain, send_to, go_to, set_error,
}

-- Whether `ReceiveMessage` of the state waits for a message; the others return at once.
abbrev pub waits : State → Bool
waits state_init = true
waits state_exec_file = true
waits state_create_task = true
waits state_redirect = true
waits state_pipe = true
waits state_open = true
waits state_waiting_key = true
waits _ = false

-- The answer to one message: the loop of `ReceiveMessage` goes on, or it returns.
pub data Next : Type 0 where
  again moved : Server → Next

-- The state for a request; a type that the `switch` does not know ends the function without a value.
abbrev pub request_state : MessageType → Option State
request_state execute_file = some state_exec_file
request_state write_file = some state_write
request_state open_file = some state_open
request_state open_dir = some state_open
request_state read_file = some state_read
request_state waiting_key = some state_waiting_key
request_state exit_app = some state_exit
request_state _ = none

unfoldable pub receive_init : Option ℕ → Server → Option Next
receive_init none s = some (moved (go_to state_err (set_error eagain s)))
receive_init (some fs) s = elim (request_state s.rm.type) [
  | none ↦ none
  | some st ↦ some (moved (go_to st (record s { fs_id = fs })))
]

-- `kError` from the file system server: the message goes out again, or the error to the application.
-- `err` is the error number that it is given instead of the server's own, if there is one.
unfoldable pub receive_error : Option ℕ → Server → Option Next
receive_error err s = elim (error_of s.rm.arg) [
  | none ↦ none
  | some (retry, e) ↦ elim (retry == 0) [
    | false ↦ some (again (send_to s.fs_id s.sm s))
    | true ↦
        let failed = set_error (elim err [ none ↦ e | some own ↦ own ]) s in
        some (moved (go_to state_err (send_to failed.target_id failed.sm failed)))
  ]
]

-- What a state makes of a message, by its type: an error, an answer that leads on, or another.
pub data Kind : Type 0 where
  fails others : Kind
  leads : State → Kind

abbrev pub kind_exec_file : MessageType → Kind
kind_exec_file error = fails
kind_exec_file execute_file = leads state_create_task
kind_exec_file _ = others

abbrev pub kind_create_task : Bool → MessageType → Kind
kind_create_task redirect error = fails
kind_create_task redirect ready = leads (if redirect then state_redirect else state_start_task)
kind_create_task redirect _ = others

abbrev pub kind_redirect : MessageType → Kind
kind_redirect error = fails
kind_redirect open_file = leads state_start_task
kind_redirect _ = others

abbrev pub kind_open : MessageType → Kind
kind_open error = fails
kind_open open_file = leads state_allocate_fd
kind_open open_dir = leads state_allocate_fd
kind_open _ = others

abbrev pub is_execute : MessageType → Bool
is_execute execute_file = true
is_execute _ = false

abbrev pub is_key : MessageType → Bool
is_key key_push = true
is_key quit = true
is_key _ = false

-- The states that wait for the file system server; `unknown` is where another message leads.
unfoldable pub receive_fs : Kind → Option ℕ → Next → Server → Option Next
unfolding receive_error
receive_fs fails err unknown s = receive_error err s
receive_fs (leads st) err unknown s = some (moved (go_to st s))
receive_fs others err unknown s = some unknown

-- `ReceiveMessage` of a state that waits, at the message in `rm_`.
unfoldable pub receive_at : State → Option ℕ → Server → Option Next
unfolding receive_init receive_fs
receive_at state_init fs s = receive_init fs s
receive_at state_exec_file fs s = receive_fs (kind_exec_file s.rm.type) none (again s) s
receive_at state_create_task fs s =
    receive_fs (kind_create_task s.redirect s.rm.type) (some eagain) (moved (go_to state_err s)) s
receive_at state_redirect fs s =
    receive_fs (kind_redirect s.rm.type) none (moved (go_to state_err s)) s
receive_at state_open fs s = receive_fs (kind_open s.rm.type) none (moved (go_to state_err s)) s
receive_at state_pipe fs s = some (
    if is_execute s.rm.type
    then moved (go_to state_exec_file (record s { piped = true }))
    else again s)
receive_at state_waiting_key fs s = some (
    if is_key s.rm.type
    then moved s
    else moved (go_to state_err (send_to s.target_id (error_message 0) s)))
receive_at _ fs s = some (moved s)

unfoldable pub receive : Env → Message → Server → Option Next
unfolding receive_at
receive env m s = receive_at s.state env.fs (record s { rm = m })
