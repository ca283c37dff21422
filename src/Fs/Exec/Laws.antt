-- ===== src/Fs/Exec/Laws.antt =====
-- A command's file, and what the application manager makes of the answer.
use kin_os.Base.{
  ℕ, ◌<◌, ◌≡◌, refl, Bool, true, false, Option, none, some, List, [], ◌∷◌, ◌==◌, length, arith,
}
use kin_os.Message.{Message, execute_of, ExecuteArg, error_of}
use kin_os.Am.Server.{
  Server, go_to, send_to, set_error, state_exec_file as am_exec_file, state_create_task, state_err,
}
use kin_os.Am.Server.Receive.{moved, receive_at, receive_fs, receive_error}
use kin_os.Fs.{Fat}
use kin_os.Fs.Volume.{Bpb}
use kin_os.Fs.Entry.{DirectoryEntry, first_cluster}
use kin_os.Fs.Data.{Disk}
use kin_os.Fs.Find.{directory}
use kin_os.Fs.Find.Laws.{Finds, path_of, find_file-Finds}
use kin_os.Fs.Exec.{Exec, enoent, eisdir, apps, runs, refuses, in_apps, handle_exec}

-- The application manager goes on to make a task, or tells the application the error.
abbrev pub AmGoesOn : Option ℕ → Server → Message → Type 0
AmGoesOn fs s m =
    receive_at am_exec_file fs (record s { rm = m })
    ≡ some (moved (go_to state_create_task (record s { rm = m })))

abbrev pub AmTells : Option ℕ → Server → Message → ℕ → Type 0
AmTells fs s m err =
    let s1 = set_error err (record s { rm = m }) in
    receive_at am_exec_file fs (record s { rm = m })
    ≡ some (moved (go_to state_err (send_to s.target_id s1.sm s1)))

runs-AmGoesOn :
    (fs : Option ℕ) (s : Server) (sm : Message) (e : DirectoryEntry) → AmGoesOn fs s (runs sm e).sm
unfolding receive_at receive_fs
runs-AmGoesOn fs s sm e = refl

refuses-AmTells :
    (fs : Option ℕ) (s : Server) (sm : Message) (t : Option DirectoryEntry) (err : ℕ)
    → AmTells fs s (refuses sm t err).sm err
unfolding receive_at receive_fs receive_error error_of
refuses-AmTells fs s sm t err = refl

-- What becomes of a command: by its path it is a file, a directory, or nothing, and then it is looked for in `apps`.
pub data Outcome (fuel : ℕ) (b : Bpb) (disk : Disk) (s : Fat) (n : List ℕ) (ms : List (List ℕ))
    : Option DirectoryEntry → ℕ → Type 0 where
  by_path :
      {e : DirectoryEntry} {slash : Bool}
      → Finds fuel b disk s (n ∷ ms) 0 (some e) slash
      → (e.attr == directory) ≡ false
      → Outcome fuel b disk s n ms (some e) 0
  a_directory :
      {e : DirectoryEntry} {slash : Bool}
      → Finds fuel b disk s (n ∷ ms) 0 (some e) slash
      → (e.attr == directory) ≡ true
      → Outcome fuel b disk s n ms none eisdir
  by_apps :
      {d e : DirectoryEntry} {slash slash' slash'' : Bool}
      → Finds fuel b disk s (n ∷ ms) 0 none slash
      → Finds fuel b disk s (apps ∷ []) 0 (some d) slash'
      → Finds fuel b disk s (n ∷ ms) (first_cluster d) (some e) slash''
      → Outcome fuel b disk s n ms (some e) 0
  nowhere :
      {d : DirectoryEntry} {slash slash' slash'' : Bool}
      → Finds fuel b disk s (n ∷ ms) 0 none slash
      → Finds fuel b disk s (apps ∷ []) 0 (some d) slash'
      → Finds fuel b disk s (n ∷ ms) (first_cluster d) none slash''
      → Outcome fuel b disk s n ms none enoent

-- The answer to that, and where the application manager, which waits for it, goes on.
abbrev pub Answers :
    Option ℕ → Server → Exec → Message → Option DirectoryEntry → Option DirectoryEntry → ℕ → Type 0
Answers fs am x sm target (some e) err = (x ≡ runs sm e) × AmGoesOn fs am x.sm
Answers fs am x sm target none err = (x ≡ refuses sm target err) × AmTells fs am x.sm err

-- A command whose path is names, not empty, of at most 12 characters and without a slash, in a volume whose
-- directories have chains that end and which, if the path leads to nothing, has an entry `apps`: the file
-- system server answers, with the file that the path leads to, or else the file of that
-- path in `apps`; with EISDIR if the path leads to a directory, and with ENOENT if both have no such file.
-- The application manager, which waits for the answer, goes on to make a task for a file, and otherwise sends
-- the error to the application that asked.
pub handle_exec-Answers :
    (depth fuel : ℕ) (b : Bpb) (disk : Disk) (s : Fat) (rm sm : Message)
    (target : Option DirectoryEntry) (a : ExecuteArg) (n : List ℕ) (ms : List (List ℕ))
    (fs : Option ℕ) (am : Server) {o : Option DirectoryEntry} {err : ℕ}
    → execute_of rm.arg ≡ some a
    → a.filename ≡ path_of n ms
    → length (n ∷ ms) < depth
    → Outcome fuel b disk s n ms o err
    → (x : Exec) × (handle_exec depth fuel b disk s rm sm target ≡ some x)
      × Answers fs am x sm target o err
unfolding handle_exec in_apps
handle_exec-Answers depth fuel b disk s rm sm target a n ms fs am r p lt (by_path {e = e} f d) =
    let z = find_file-Finds depth fuel b disk s f lt in
    (runs sm e, rw (handle_exec, r) (rw p (rw z (rw d refl))), (refl, runs-AmGoesOn fs am sm e))
handle_exec-Answers depth fuel b disk s rm sm target a n ms fs am r p lt (a_directory f d) =
    let z = find_file-Finds depth fuel b disk s f lt in
    (
      refuses sm target eisdir,
      rw (handle_exec, r) (rw p (rw z (rw d refl))),
      (refl, refuses-AmTells fs am sm target eisdir),
    )
handle_exec-Answers depth fuel b disk s rm sm target a n ms fs am r p lt (by_apps {e = e} f g h) =
    let z = find_file-Finds depth fuel b disk s f lt in
    let y = find_file-Finds depth fuel b disk s g (omega arith) in
    let x = find_file-Finds depth fuel b disk s h lt in
    (
      runs sm e,
      rw (handle_exec, r) (rw p (rw z (rw (in_apps, y) (rw p (rw x refl))))),
      (refl, runs-AmGoesOn fs am sm e),
    )
handle_exec-Answers depth fuel b disk s rm sm target a n ms fs am r p lt (nowhere f g h) =
    let z = find_file-Finds depth fuel b disk s f lt in
    let y = find_file-Finds depth fuel b disk s g (omega arith) in
    let x = find_file-Finds depth fuel b disk s h lt in
    (
      refuses sm target enoent,
      rw (handle_exec, r) (rw p (rw z (rw (in_apps, y) (rw p (rw x refl))))),
      (refl, refuses-AmTells fs am sm target enoent),
    )
