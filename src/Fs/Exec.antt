-- ===== src/Fs/Exec.antt =====
-- `ExecFileState::HandleMessage`, servers/fs/serverstate.cpp: the file of a command, by its path or in the
-- directory `apps`. `none` is undefined behaviour, a null pointer if there is no `apps` or a member
-- of the union that was not written, or that the fuel runs out. Which sector of the table is in the buffer
-- does not matter to `FindFile`, and is not kept.
use kin_os.Base.{ℕ, Bool, true, false, Option, none, some, List, [], ◌∷◌, ◌==◌}
use kin_os.Message.{Message, error, error_arg, execute_file, execute_of, to_execute, ExecuteArg}
use kin_os.Am.Server.Handle.{execute_in}
use kin_os.Fs.{Fat}
use kin_os.Fs.Volume.{Bpb}
use kin_os.Fs.Entry.{DirectoryEntry, first_cluster}
use kin_os.Fs.Data.{Disk}
use kin_os.Fs.Find.{find_file, directory}
pub mod Laws
mod Tests

pub data State : Type 0 where
  state_err state_init state_exec_file state_expand_buffer state_copy_to_buffer : State
  state_open state_read state_write : State

pub record Exec : Type 0 where
  pub state : State
  pub sm : Message
  pub target_entry : Option DirectoryEntry

abbrev pub enoent : ℕ
enoent = 2

abbrev pub eisdir : ℕ
eisdir = 21

abbrev pub apps : List ℕ
apps = b'a' ∷ b'p' ∷ b'p' ∷ b's' ∷ []

abbrev pub runs : Message → DirectoryEntry → Exec
runs sm e = record {
  state = state_exec_file;
  sm = record sm {
    type = execute_file;
    arg = to_execute (record (execute_in sm.arg) { exist = 1; isdirectory = 0 });
  };
  target_entry = some e;
}

abbrev pub refuses : Message → Option DirectoryEntry → ℕ → Exec
refuses sm target err = record {
  state = state_init;
  sm = record sm { type = error; arg = error_arg 0 err };
  target_entry = target;
}

-- In the directory `apps`.
unfoldable pub in_apps :
    (depth fuel : ℕ)
    → Bpb
    → Disk
    → Fat
    → (path : List ℕ) → Message
    → Option DirectoryEntry
    → Option Exec
in_apps depth fuel b disk s path sm target = elim (find_file depth fuel b disk s apps 0) [
  | none ↦ none
  | some (none, slash) ↦ none
  | some (some d, slash) ↦ elim (find_file depth fuel b disk s path (first_cluster d)) [
    | none ↦ none
    | some (none, slash') ↦ some (refuses sm target enoent)
    | some (some command, slash') ↦ some (runs sm command)
  ]
]

-- `target` is `target_entry_` before the call.
unfoldable pub handle_exec :
    (depth fuel : ℕ)
    → Bpb
    → Disk
    → Fat
    → (rm sm : Message) → (target : Option DirectoryEntry) → Option Exec
unfolding in_apps
handle_exec depth fuel b disk s rm sm target = elim (execute_of rm.arg) [
  | none ↦ none
  | some a ↦ elim (find_file depth fuel b disk s a.filename 0) [
    | none ↦ none
    | some (none, slash) ↦ in_apps depth fuel b disk s a.filename sm target
    | some (some e, slash) ↦ elim (e.attr == directory) [
      | true ↦ some (refuses sm target eisdir)
      | false ↦ some (runs sm e)
    ]
  ]
]
