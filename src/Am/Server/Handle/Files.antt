-- ===== src/Am/Server/Handle/Files.antt =====
-- `HandleMessage` of the states that serve the applications, servers/am/serverstate.cpp: files to open, to
-- read and to write, the redirection's file, the end of an application, and keys.
use mathlib.Core.Option
use kin_os.Base.{
  ℕ, true, false, Option, none, some, List, [], ◌∷◌, ◌++◌, ◌==◌, if◌then◌else◌, get_elem?, set,
}
use kin_os.Message.{
  Message, MessageType, received, open_file, open_dir, waiting_key, exit_app, Arg, exit_app_of,
  exit_app_arg, open_of, open_dir_of, to_open, to_open_dir, OpenArg, OpenDirArg, read_of, write_of,
  ReadArg, WriteArg,
}
use kin_os.Task.Buffer.{same_name}
use kin_os.Am.Pipe.{Sent, read as read_pipe, write as write_pipe}
use kin_os.Am.Fat.{make_fat, read_fat, write_fat, read_terminal, write_terminal}
use kin_os.Am.Apps.{
  FileDescriptor, fat, terminal, pipe_end, AppManager, find_app, get_pid, allocate_fd,
  exit_app as end_app,
}
use kin_os.Am.Server.{
  state_err, state_init, Target, file, dir, Server, Env, ebadf, send_to, go_to, set_error,
  set_new_file,
}

abbrev pub creat : ℕ
creat = 0x200

abbrev pub open_in : Arg → OpenArg
open_in arg = elim (open_of arg) [
  | some a ↦ a
  | none ↦ record { filename = []; flags = 0; exist = 0; isdirectory = 0; fd = 0 }
]

abbrev pub open_dir_in : Arg → OpenDirArg
open_dir_in arg = elim (open_dir_of arg) [
  | some a ↦ a
  | none ↦ record { dirname = []; exist = 0; isdirectory = 0; fd = 0 }
]

unfoldable pub handle_redirect : Server → Server
handle_redirect s = record s {
  sm = record s.sm {
    type = open_file;
    arg = to_open (record (open_in s.sm.arg) { filename = s.redirect_filename; flags = creat });
  };
}

unfoldable pub handle_exit : Server → Option Server
handle_exit s = elim (exit_app_of s.rm.arg) [
  | none ↦ none
  | some (id, result) ↦
      let s1 = record s { target_id = get_pid s.app_manager id } in
      elim (s1.target_id == 0) [
        | true ↦ some (go_to state_err s1)
        | false ↦ elim (end_app s1.app_manager id) [
          | none ↦ none
          | some (m, sent) ↦ some (record s1 {
            app_manager = m;
            sent = s1.sent ++ sent;
            sm = record s1.sm { type = exit_app; arg = exit_app_arg id result };
          })
        ]
      ]
]

-- `OpenState::HandleMessage`: the standard input needs no server.
abbrev pub stdin_name : List ℕ
stdin_name = b'@' ∷ b's' ∷ b't' ∷ b'd' ∷ b'i' ∷ b'n' ∷ []

abbrev pub target_of : MessageType → Option Target → Option Target
target_of open_file old = some file
target_of open_dir old = some dir
target_of _ old = old

unfoldable pub handle_open : Server → Option Server
handle_open s =
    let s1 = record s {
      target_id = s.rm.src_task;
      open_target = target_of s.rm.type s.open_target;
    } in
    elim s1.open_target [
      | none ↦ none
      | some file ↦ elim (open_of s.rm.arg) [
        | none ↦ none
        | some a ↦ some (
            if same_name a.filename stdin_name
            then go_to state_init (record s1 {
              sm = record s.sm {
                type = open_file;
                arg = to_open (record (open_in s.sm.arg) { fd = 0; exist = 1; isdirectory = 0 });
              };
            })
            else record s1 {
              sm = record s.sm {
                type = open_file;
                arg =
                    to_open (record (open_in s.sm.arg) { filename = a.filename; flags = a.flags });
              };
            })
      ]
      | some dir ↦ elim (open_dir_of s.rm.arg) [
        | none ↦ none
        | some a ↦ some (record s1 {
          sm = record s.sm {
            type = open_dir;
            arg = to_open_dir (record (open_dir_in s.sm.arg) { dirname = a.dirname });
          };
        })
      ]
    ]

-- A descriptor for the file at the first free place of the application's files.
unfoldable pub new_fd : List ℕ → Server → Option (ℕ × Server)
new_fd name s = elim (allocate_fd s.app_manager s.target_id) [
  | none ↦ none
  | some (fd, m) ↦
      Option.map (λ m'. (fd, record s { app_manager = m' }))
        (set_new_file m s.target_id fd (fat (make_fat s.target_id name)))
]

-- `AllocateFDState::HandleMessage`.
unfoldable pub handle_allocate_fd : Server → Option Server
unfolding new_fd
handle_allocate_fd s =
    let s1 = record s { fd_target = target_of s.rm.type s.fd_target } in
    elim s1.fd_target [
      | none ↦ none
      | some file ↦ elim (open_of s.rm.arg) [
        | none ↦ none
        | some a ↦
            Option.map
              (λ (r : ℕ × Server). go_to state_init (record r.1 {
                sm = record s.sm {
                  type = open_file;
                  arg = to_open (record (open_in s.sm.arg) { fd = r.0 });
                };
              }))
              (new_fd a.filename s1)
      ]
      | some dir ↦ elim (open_dir_of s.rm.arg) [
        | none ↦ none
        | some a ↦
            Option.map
              (λ (r : ℕ × Server). go_to state_init (record r.1 {
                sm = record s.sm {
                  type = open_dir;
                  arg = to_open_dir (record (open_dir_in s.sm.arg) { fd = r.0 });
                };
              }))
              (new_fd a.dirname s1)
      ]
    ]

-- A descriptor's own `Read` and `Write`.
unfoldable pub read_descriptor :
    Env → FileDescriptor → Message → Option (FileDescriptor × List Sent)
read_descriptor env (fat f) msg =
    Option.map (λ r. (fat r.0, r.1)) (read_fat env.fs f msg env.replies)
read_descriptor env (terminal id server) msg =
    Option.map (λ sent. (terminal id server, sent)) (read_terminal id server msg env.replies)
read_descriptor env (pipe_end p) msg =
    Option.map (λ (a : ReadArg). let r = read_pipe p msg.src_task a.count in (pipe_end r.0, r.1))
      (read_of msg.arg)

unfoldable pub write_descriptor :
    Env → FileDescriptor → Message → Option (FileDescriptor × List Sent)
write_descriptor env (fat f) msg =
    Option.map (λ r. (fat r.0, r.1)) (write_fat env.fs f msg env.replies)
write_descriptor env (terminal id server) msg =
    some (terminal id server, write_terminal id server msg)
write_descriptor env (pipe_end p) msg =
    Option.map (λ (a : WriteArg). let r = write_pipe p a.bytes a.len in (pipe_end r.0, r.1))
      (write_of msg.arg)

-- What `Files()[fd]` of an application is.
pub data Lookup : Type 0 where
  no_app bad_fd : Lookup
  open_at : (place : ℕ) → Lookup

unfoldable pub file_at : AppManager → ℕ → ℕ → Lookup
file_at m id fd = elim (find_app id m.apps) [
  | none ↦ no_app
  | some a ↦ elim (get_elem? a.files fd) [
    | none ↦ bad_fd
    | some none ↦ bad_fd
    | some (some place) ↦ open_at place
  ]
]

-- A descriptor's method runs, and what it changes is stored.
unfoldable pub run_descriptor :
    (FileDescriptor → Message → Option (FileDescriptor × List Sent)) → ℕ → Server → Option Server
run_descriptor method place s = elim (get_elem? s.app_manager.fds place) [
  | none ↦ none
  | some d ↦
      Option.map
        (λ r. record s {
          app_manager = record s.app_manager { fds = set s.app_manager.fds place r.0 };
          sent = s.sent ++ r.1;
        })
        (method d s.rm)
]

-- `ReadState::HandleMessage` and `WriteState::HandleMessage`, after the target is set.
unfoldable pub handle_file :
    (FileDescriptor → Message → Option (FileDescriptor × List Sent)) → ℕ → Server → Option Server
unfolding file_at run_descriptor
handle_file method fd s = elim (file_at s.app_manager s.target_id fd) [
  | no_app ↦ none
  | bad_fd ↦ some (go_to state_init (set_error ebadf s))
  | open_at place ↦ run_descriptor method place s
]

unfoldable pub handle_read : Env → Server → Option Server
unfolding handle_file
handle_read env s = elim (read_of s.rm.arg) [
  | none ↦ none
  | some a ↦ handle_file (read_descriptor env) a.fd (record s { target_id = s.rm.src_task })
]

unfoldable pub handle_write : Env → Server → Option Server
unfolding handle_file
handle_write env s = elim (write_of s.rm.arg) [
  | none ↦ none
  | some a ↦ handle_file (write_descriptor env) a.fd (record s { target_id = s.rm.src_task })
]

-- `WaitingKeyState::HandleMessage`: the key that came, or the request to the application's parent.
unfoldable pub handle_waiting_key : Server → Option Server
handle_waiting_key s = elim s.waiting [
  | true ↦ some (record s { sm = s.rm; waiting = false })
  | false ↦
      let s1 = record s { waiting_id = s.rm.src_task; sm = record s.sm { type = received } } in
      let s2 = send_to s1.waiting_id s1.sm s1 in
      elim (find_app s2.waiting_id s2.app_manager.apps) [
        | none ↦ none
        | some a ↦ some (record s2 {
          target_id = a.p_task_id;
          sm = record s2.sm { type = waiting_key };
          waiting = true;
        })
      ]
]
