-- ===== src/Am/Apps.antt =====
-- `AppManager` of servers/am/appmanager.cpp: the applications, their parents and their descriptors.
-- Applications share descriptors by `std::shared_ptr`, so these stand in a store, `fds`, and an entry of
-- `Files()` is the place of one in the store, or `none` for a null pointer. `none` as an answer stands
-- for undefined behaviour, a call through a null pointer.
use kin_os.Base.{
  ℕ, zero, suc, ◌+◌, Bool, true, false, ◌&&◌, Option, none, some, List, [], ◌∷◌, ◌++◌, ◌==◌,
  if◌then◌else◌, length, drop, replicate, and_then,
}
use kin_os.Am.Fat.{FatFileDescriptor}
use kin_os.Am.Pipe.{PipeFileDescriptor, Sent, close}
pub mod Laws
pub mod Exit

-- The classes derived from `FileDescriptor`.
pub data FileDescriptor : Type 0 where
  fat : FatFileDescriptor → FileDescriptor
  terminal : (id terminal_server_id : ℕ) → FileDescriptor
  pipe_end : PipeFileDescriptor → FileDescriptor

pub data AppState : Type 0 where
  run kill : AppState

pub record AppInfo : Type 0 where
  pub task_id : ℕ
  pub p_task_id : ℕ
  pub state : AppState
  pub files : List (Option ℕ)

pub record AppManager : Type 0 where
  pub apps : List AppInfo
  pub fds : List FileDescriptor

abbrev pub is_run : AppState → Bool
is_run run = true
is_run kill = false

abbrev pub find_app : ℕ → List AppInfo → Option AppInfo
find_app id [] = none
find_app id (a ∷ apps) = if a.task_id == id then some a else find_app id apps

-- A write through the pointer that `find_if` gives.
abbrev pub update_app : ℕ → (AppInfo → AppInfo) → List AppInfo → List AppInfo
update_app id f [] = []
update_app id f (a ∷ apps) = if a.task_id == id then f a ∷ apps else a ∷ update_app id f apps

unfoldable pub get_app_info : AppManager → ℕ → Option AppInfo
get_app_info m id = find_app id m.apps

unfoldable pub get_pid : AppManager → ℕ → ℕ
get_pid m id = elim (find_app id m.apps) [ none ↦ 0 | some a ↦ a.p_task_id ]

-- The constructor `AppInfo{task_id, p_task_id}`.
abbrev pub make_app : ℕ → ℕ → AppInfo
make_app id p_id = record { task_id = id; p_task_id = p_id; state = run; files = [] }

-- Three terminals, the first new places of the store.
abbrev pub add_terminals : ℕ → AppInfo → AppInfo
add_terminals next a = record a {
  files = a.files ++ (some next ∷ some (next + 1) ∷ some (next + 2) ∷ []);
}

unfoldable pub initialize_file_descriptor : ℕ → AppManager → ℕ → AppManager
initialize_file_descriptor server m id = elim (find_app id m.apps) [
  | none ↦ m
  | some a ↦
      let t = terminal id server in
      record {
        apps = update_app id (add_terminals (length m.fds)) m.apps;
        fds = m.fds ++ (t ∷ t ∷ t ∷ []);
      }
]

-- The child's files grow by as many null pointers as the parent has files; then the parent's are
-- written from the first place on.
abbrev pub copied : List (Option ℕ) → AppInfo → AppInfo
copied parent a = record a {
  files = parent ++ drop (length parent) (a.files ++ replicate (length parent) none);
}

unfoldable pub copy_file_descriptor : AppManager → ℕ → ℕ → AppManager
copy_file_descriptor m id p_id = elim (find_app id m.apps) [
  | none ↦ m
  | some child ↦ elim (find_app p_id m.apps) [
    | none ↦ m
    | some parent ↦ record m { apps = update_app id (copied parent.files) m.apps }
  ]
]

-- `server` is what `SyscallFindServer` answers to the terminal descriptor's constructor.
unfoldable pub new_app : ℕ → AppManager → ℕ → ℕ → AppManager
new_app server m id p_id =
    let added = record m { apps = m.apps ++ (make_app id p_id ∷ []) } in
    elim (find_app p_id m.apps) [
      | none ↦ initialize_file_descriptor server added id
      | some parent ↦ copy_file_descriptor added id p_id
    ]

-- The first null pointer, or a new one behind all the files.
abbrev pub free_place : List (Option ℕ) → ℕ
free_place [] = 0
free_place (none ∷ fs) = 0
free_place (some d ∷ fs) = suc (free_place fs)

abbrev pub with_place : List (Option ℕ) → List (Option ℕ)
with_place [] = none ∷ []
with_place (none ∷ fs) = none ∷ fs
with_place (some d ∷ fs) = some d ∷ with_place fs

unfoldable pub allocate_fd : AppManager → ℕ → Option (ℕ × AppManager)
allocate_fd m id = elim (find_app id m.apps) [
  | none ↦ none
  | some a ↦ some (
    free_place a.files,
    record m { apps = update_app id (λ b. record b { files = with_place b.files }) m.apps },
  )
]

-- `Close` of a descriptor: only a pipe's does anything.
unfoldable pub close_fd : FileDescriptor → FileDescriptor × List Sent
close_fd (fat f) = (fat f, [])
close_fd (terminal id server) = (terminal id server, [])
close_fd (pipe_end p) = let (p', sent) = close p in (pipe_end p', sent)

-- `Close` of the descriptor at a place of the store.
unfoldable pub close_at : List FileDescriptor → ℕ → Option (List FileDescriptor × List Sent)
unfolding close_fd
close_at [] i = none
close_at (d ∷ ds) zero = let (d', sent) = close_fd d in some (d' ∷ ds, sent)
close_at (d ∷ ds) (suc i) = elim (close_at ds i) [
  | none ↦ none
  | some (ds', sent) ↦ some (d ∷ ds', sent)
]

unfoldable pub close_files :
    List (Option ℕ) → List FileDescriptor → Option (List FileDescriptor × List Sent)
close_files [] fds = some (fds, [])
close_files (none ∷ fs) fds = none
close_files (some i ∷ fs) fds =
    and_then (close_at fds i) (λ r. and_then (close_files fs r.0) (λ q. some (q.0, r.1 ++ q.1)))

abbrev pub runs_as : ℕ → AppInfo → Bool
runs_as id a = (a.task_id == id) && is_run a.state

abbrev pub find_running : ℕ → List AppInfo → Option AppInfo
find_running id [] = none
find_running id (a ∷ apps) = if runs_as id a then some a else find_running id apps

abbrev pub killed : AppInfo → AppInfo
killed a = record a { state = kill; files = [] }

abbrev pub kill_first : ℕ → List AppInfo → List AppInfo
kill_first id [] = []
kill_first id (a ∷ apps) = if runs_as id a then killed a ∷ apps else a ∷ kill_first id apps

-- The loop of `ExitApp`; `none` also if the fuel runs out.
unfoldable pub exit_loop : ℕ → AppManager → ℕ → Option (AppManager × List Sent)
exit_loop zero m id = none
exit_loop (suc fuel) m id = elim (find_running id m.apps) [
  | none ↦ some (m, [])
  | some a ↦ and_then (close_files a.files m.fds) (λ r.
      and_then (exit_loop fuel (record { apps = kill_first id m.apps; fds = r.0 }) id)
        (λ q. some (q.0, r.1 ++ q.1)))
]

-- Each round but the last ends one application.
unfoldable pub exit_app : AppManager → ℕ → Option (AppManager × List Sent)
exit_app m id = exit_loop (suc (length m.apps)) m id
