-- ===== src/Am/Server.antt =====
-- `ApplicationManagementServer`, servers/am/am.hpp and servers/am/serverstate.hpp: the fields of the server
-- and of its states, and what the states of servers/am/serverstate.cpp share.
--
-- `main` of servers/am/am.cpp calls `ReceiveMessage`, `HandleMessage` and `SendMessage` of the current
-- state in turn. A call takes the server to the server, and every message that it sends goes to the end
-- of `sent`, with its receiver. The members of the state objects are fields here too; a member that is
-- not initialised is `none`. `State` leaves out `StateSendEvent`, for which there is no state object.
use kin_os.Base.{
  ℕ, Bool, true, false, Option, none, some, List, [], ◌∷◌, ◌++◌, ◌==◌, if◌then◌else◌, ltb, length,
  set, and_then,
}
use kin_os.Message.{
  Message, MessageType, error, received, Arg, unset, error_arg, error_of, execute_of, to_execute,
  ExecuteArg, execute_file,
}
use kin_os.Am.Pipe.{Sent}
use kin_os.Am.Apps.{FileDescriptor, AppInfo, AppManager, find_app, update_app}
pub mod Receive
pub mod Handle
pub mod Run
pub mod Phase
pub mod Files
pub mod Keeps
pub mod Valid
pub mod Starting
pub mod Sound
pub mod Execute
pub mod Safe
mod Tests

pub data State : Type 0 where
  state_err state_init state_exec_file state_create_task state_start_task state_redirect : State
  state_pipe state_exit state_open state_allocate_fd state_read state_write state_waiting_key :
      State

pub data Target : Type 0 where
  file dir : Target

pub record Server : Type 0 where
  pub state : State
  pub sm : Message
  pub rm : Message
  pub app_manager : AppManager
  pub fs_id : ℕ
  pub target_id : ℕ
  pub new_id : ℕ
  pub command : List ℕ
  pub argument : List ℕ
  pub redirect : Bool
  pub pipe : Bool
  pub piped : Bool
  pub redirect_filename : List ℕ
  pub pipe_fd : Option ℕ
  pub open_target : Option Target
  pub fd_target : Option Target
  pub waiting_id : ℕ
  pub waiting : Bool
  pub sent : List Sent

-- What the system calls answer during one call of a method: the id of `servers/fs`, if it runs; the id of
-- the new task, if there is one; the id of `servers/terminal`; and the messages that the waiting calls
-- inside the method receive, in order.
pub record Env : Type 0 where
  pub fs : Option ℕ
  pub new_task : Option ℕ
  pub terminal : ℕ
  pub replies : List Message

abbrev pub eagain : ℕ
eagain = 11

abbrev pub ebadf : ℕ
ebadf = 9

abbrev pub zero_message : Message
zero_message = record { type = error; src_task = 0; arg = unset }

-- After `Initialize`.
unfoldable pub start_server : Server
start_server = record {
  state = state_init;
  sm = zero_message;
  rm = zero_message;
  app_manager = record { apps = []; fds = [] };
  fs_id = 0;
  target_id = 0;
  new_id = 0;
  command = [];
  argument = [];
  redirect = false;
  pipe = false;
  piped = false;
  redirect_filename = [];
  pipe_fd = none;
  open_target = none;
  fd_target = none;
  waiting_id = 0;
  waiting = false;
  sent = [];
}

-- `SyscallSendMessage(&message, id)`.
abbrev pub send_to : ℕ → Message → Server → Server
send_to id message s = record s { sent = s.sent ++ ((id, message) ∷ []) }

abbrev pub go_to : State → Server → Server
go_to st s = record s { state = st }

-- An error that is not to be tried again, in `sm_`.
abbrev pub set_error : ℕ → Server → Server
set_error e s = record s { sm = record s.sm { type = error; arg = error_arg 0 e } }

-- `Files()[i] = fd` for an application; a place out of bounds is undefined behaviour.
abbrev pub put_file : ℕ → Option ℕ → AppInfo → AppInfo
put_file i fd a = record a { files = set a.files i fd }

unfoldable pub set_file : AppManager → ℕ → ℕ → Option ℕ → Option AppManager
set_file m id i fd = elim (find_app id m.apps) [
  | none ↦ none
  | some a ↦ elim (ltb i (length a.files)) [
    | true ↦ some (record m { apps = update_app id (put_file i fd) m.apps })
    | false ↦ none
  ]
]

abbrev pub add_descriptor : FileDescriptor → AppManager → AppManager
add_descriptor d m = record m { fds = m.fds ++ (d ∷ []) }

-- The same with a new descriptor, at a new place of the store.
unfoldable pub set_new_file : AppManager → ℕ → ℕ → FileDescriptor → Option AppManager
unfolding set_file
set_new_file m id i d = set_file (add_descriptor d m) id i (some (length m.fds))
