-- ===== src/Am/Server/Handle/Start.antt =====
-- `HandleMessage` of the states that start an application, `ExecFileState`, `CreateTaskState` and
-- `StartTaskState` of servers/am/serverstate.cpp.
use mathlib.Core.Option
use kin_os.Base.{ℕ, true, false, Option, none, some, List, [], ◌∷◌, ◌==◌, length, and_then, not}
use kin_os.Message.{
  Message, execute_file, start_app, Arg, execute_of, to_execute, ExecuteArg, redirect_of,
  start_task_arg,
}
use kin_os.Am.Pipe.{make_pipe}
use kin_os.Am.Fat.{make_fat}
use kin_os.Am.Apps.{fat, pipe_end, new_app}
use kin_os.Am.Server.{
  state_err, Server, Env, eagain, send_to, go_to, set_error, set_file, set_new_file,
}

-- The text of `rm_.arg.redirect`, which the next message from the application brings.
unfoldable pub take_redirect : List Message → Server → Option Server
take_redirect [] s = none
take_redirect (m ∷ ms) s = elim (redirect_of m.arg) [
  | none ↦ none
  | some name ↦ some (record s { rm = m; redirect = true; redirect_filename = name })
]

-- Fields of a message that the server leaves unset are 0 or empty, unless the same member was in `sm_`.
abbrev pub execute_in : Arg → ExecuteArg
execute_in arg = elim (execute_of arg) [
  | some a ↦ a
  | none ↦ record {
    filename = [];
    argument = [];
    redirect = 0;
    pipe = 0;
    id = 0;
    exist = 0;
    isdirectory = 0;
  }
]

-- `sm_.arg.executefile` with the command, and with an id.
abbrev pub set_command : Server → Server
set_command s = record s {
  sm = record s.sm {
    type = execute_file;
    arg = to_execute (record (execute_in s.sm.arg) { filename = s.command });
  };
}

abbrev pub set_execute_id : ℕ → Server → Server
set_execute_id id s = record s {
  sm = record s.sm {
    type = execute_file;
    arg = to_execute (record (execute_in s.sm.arg) { id = id });
  };
}

unfoldable pub handle_exec_file : Env → Server → Option Server
unfolding take_redirect
handle_exec_file env s = elim (execute_of s.rm.arg) [
  | none ↦ none
  | some a ↦
      let s1 = record s {
        target_id = s.rm.src_task;
        command = a.filename;
        argument = a.argument;
        pipe = not (a.pipe == 0);
      } in
      Option.map set_command (elim (a.redirect == 0) [
        | true ↦ some (record s1 { redirect = false })
        | false ↦ take_redirect env.replies s1
      ])
]

unfoldable pub handle_create_task : Option ℕ → Server → Server
handle_create_task none s =
    let s1 = set_error eagain s in
    go_to state_err (send_to s1.fs_id s1.sm (send_to s1.target_id s1.sm s1))
handle_create_task (some id) s = record (set_execute_id id s) { new_id = id }

-- The files of a new application: the redirection, the pipe that it reads, and the one that it writes.
unfoldable pub redirect_file : Server → Option Server
redirect_file s = elim s.redirect [
  | false ↦ some s
  | true ↦
      Option.map (λ m. record s { app_manager = m })
        (set_new_file s.app_manager s.new_id 1 (fat (make_fat s.new_id s.redirect_filename)))
]

unfoldable pub piped_file : Server → Option Server
piped_file s = elim s.piped [
  | false ↦ some s
  | true ↦
      Option.map (λ m. record s { app_manager = m; piped = false })
        (set_file s.app_manager s.new_id 0 s.pipe_fd)
]

unfoldable pub pipe_file : Server → Option Server
pipe_file s = elim s.pipe [
  | false ↦ some s
  | true ↦
      Option.map (λ m. record s { app_manager = m; pipe_fd = some (length s.app_manager.fds) })
        (set_new_file s.app_manager s.new_id 1 (pipe_end (make_pipe s.new_id)))
]

-- The rest of `StartTaskState::HandleMessage`: the application is told the id of the new one. (The
-- system calls that set its command and argument are not modelled.)
abbrev pub announce : Server → Server
announce s =
    let s1 = set_execute_id s.new_id s in
    let s2 = send_to s1.target_id s1.sm s1 in
    record s2 { sm = record s2.sm { type = start_app; arg = start_task_arg s2.new_id } }

unfoldable pub start_files : Server → Option Server
unfolding redirect_file piped_file pipe_file
start_files s = and_then (redirect_file s) (λ s1. and_then (piped_file s1) pipe_file)

abbrev pub created : Env → Server → Server
created env s = record s { app_manager = new_app env.terminal s.app_manager s.new_id s.target_id }

unfoldable pub handle_start_task : Env → Server → Option Server
unfolding start_files
handle_start_task env s = Option.map announce (start_files (created env s))
