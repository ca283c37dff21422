-- ===== src/Am/Server/Handle.antt =====
-- `HandleMessage` and `SendMessage` of the application manager's states, servers/am/serverstate.cpp, one
-- function for them all. `none` is undefined behaviour: a null pointer, or a member of the union that was
-- not written; or a call that still waits.
use kin_os.Base.{ℕ, Option, none, some, if◌then◌else◌}
use kin_os.Message.{ready, received, Arg, exit_app_of}
use kin_os.Am.Server.{
  State, state_err, state_init, state_exec_file, state_create_task, state_start_task,
  state_redirect, state_pipe, state_exit, state_open, state_allocate_fd, state_read, state_write,
  state_waiting_key, Server, Env, send_to, go_to,
}
pub mod Start
pub mod Files
unfoldable pub use kin_os.Am.Server.Handle.Start.{
  take_redirect, execute_in, set_command, set_execute_id, handle_exec_file, handle_create_task,
  redirect_file, piped_file, pipe_file, announce, start_files, created, handle_start_task,
}
unfoldable pub use kin_os.Am.Server.Handle.Files.{
  creat, open_in, open_dir_in, handle_redirect, handle_exit, stdin_name, target_of, handle_open,
  new_fd, handle_allocate_fd, read_descriptor, write_descriptor, file_at, run_descriptor,
  handle_file, handle_read, handle_write, handle_waiting_key,
}
pub use kin_os.Am.Server.Handle.Files.{Lookup, no_app, bad_fd, open_at}

unfoldable pub handle_at : State → Env → Server → Option Server
unfolding handle_exec_file handle_create_task handle_start_task handle_redirect handle_exit
    handle_open handle_allocate_fd handle_read handle_write handle_waiting_key
handle_at state_exec_file env s = handle_exec_file env s
handle_at state_create_task env s = some (handle_create_task env.new_task s)
handle_at state_start_task env s = handle_start_task env s
handle_at state_redirect env s = some (handle_redirect s)
handle_at state_exit env s = handle_exit s
handle_at state_open env s = handle_open s
handle_at state_allocate_fd env s = handle_allocate_fd s
handle_at state_read env s = handle_read env s
handle_at state_write env s = handle_write env s
handle_at state_waiting_key env s = handle_waiting_key s
handle_at _ env s = some s

unfoldable pub handle : Env → Server → Option Server
unfolding handle_at
handle env s = handle_at s.state env s

-- `SendMessage`.
abbrev pub sent_start : Server → Server
sent_start s =
    let s1 = send_to 1 s.sm s in
    if s.pipe
    then (let s2 = record s1 { sm = record s1.sm { type = ready } } in
        go_to state_pipe (send_to s2.target_id s2.sm s2))
    else go_to state_init s1

-- `exitapp.id` of the message that is answered.
abbrev pub exit_id : Arg → ℕ
exit_id arg = elim (exit_app_of arg) [ none ↦ 0 | some (id, result) ↦ id ]

abbrev pub sent_exit : Server → Server
sent_exit s =
    let s1 = send_to s.target_id s.sm s in
    let s2 = record s1 { sm = record s1.sm { type = received } } in
    go_to state_init (send_to (exit_id s2.rm.arg) s2.sm s2)

abbrev pub sent_key : Server → Server
sent_key s =
    if s.waiting then send_to s.target_id s.sm s else go_to state_init (send_to s.waiting_id s.sm s)

unfoldable pub send_at : State → Server → Server
send_at state_err s = go_to state_init s
send_at state_init s = send_to s.target_id s.sm s
send_at state_exec_file s = send_to s.fs_id s.sm s
send_at state_create_task s = send_to s.fs_id s.sm s
send_at state_start_task s = sent_start s
send_at state_redirect s = send_to s.fs_id s.sm s
send_at state_exit s = sent_exit s
send_at state_open s = send_to s.fs_id s.sm s
send_at state_read s = go_to state_init s
send_at state_write s = go_to state_init s
send_at state_waiting_key s = sent_key s
send_at _ s = s

unfoldable pub send : Server → Server
unfolding send_at
send s = send_at s.state s
