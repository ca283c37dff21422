-- ===== src/Am/Server/Keeps.antt =====
-- What each `HandleMessage` of the application manager does to the files of its applications and to the
-- pipe that the next application is to read.
use kin_os.Base.{
  ℕ, ◌≤◌, ◌≡◌, refl, sym, ap, ◌∙◌, true, Option, none, some, List, [], ◌∷◌, ◌++◌, ◌==◌, length, set,
  length-set, get_elem?, Bool-cases, Option-cases, inl, inr, arith, map-some,
}
use mathlib.Core.Option
use mathlib.Core.Path.{subst}
use kin_os.Message.{
  Message, open_file, open_dir, open_of, open_dir_of, read_of, write_of, exit_app_of, to_open,
  to_open_dir,
}
use kin_os.Am.Pipe.{Sent}
use kin_os.Am.Fat.{make_fat}
use kin_os.Am.Apps.{FileDescriptor, fat, AppManager, exit_app as end_app, allocate_fd, get_pid}
use kin_os.Am.Server.{
  state_init, Server, Env, set_new_file, go_to, set_error, ebadf, Target, file, dir,
}
use kin_os.Am.Server.Handle.{
  handle_exec_file, handle_create_task, handle_open, handle_allocate_fd, handle_exit, handle_read,
  handle_write, handle_waiting_key, handle_redirect, take_redirect, new_fd, run_descriptor,
  handle_file, read_descriptor, write_descriptor, file_at, Lookup, no_app, bad_fd, open_at,
  target_of, open_in, open_dir_in,
}
use kin_os.Am.Server.Files.{IsSound, all_sound, allocate_fd-IsSound, exit_app-IsSound}

-- The files stay sound, no descriptor goes away, and the pipe to be read is the same.
pub record Keeps (s s' : Server) : Type 0 where
  pub files : IsSound s'.app_manager
  pub places : length s.app_manager.fds ≤ length s'.app_manager.fds
  pub pipe_fd : s'.pipe_fd ≡ s.pipe_fd
  pub piped : s'.piped ≡ s.piped

-- Nothing that concerns the files changes.
abbrev Same : Server → Server → Type 0
Same s s' =
    (s'.app_manager ≡ s.app_manager)
    × (s'.pipe_fd ≡ s.pipe_fd)
    × (s'.piped ≡ s.piped)
    × (s'.new_id ≡ s.new_id)

Same-Keeps : (s s' : Server) → IsSound s.app_manager → Same s s' → Keeps s s'
Same-Keeps s s' f (a, p, q, i) = record {
  files = subst IsSound (sym a) f;
  places = omega (arith, ap (λ (m : AppManager). length m.fds) a);
  pipe_fd = p;
  piped = q;
}

take_Same : (ms : List Message) (s s' : Server) → take_redirect ms s ≡ some s' → Same s s'
unfolding take_redirect
take_Same [] s s' e = absurd (cc e)
take_Same (m ∷ ms) s s' e = ground arith

exec_Same : (env : Env) (s s' : Server) → handle_exec_file env s ≡ some s' → Same s s'
unfolding handle_exec_file
exec_Same env s s' e = ground (arith, λ (t : Server). take_Same env.replies t)

pub exec-Keeps :
    (env : Env) (s s' : Server)
    → IsSound s.app_manager
    → handle_exec_file env s ≡ some s'
    → Keeps s s'
exec-Keeps env s s' f e = Same-Keeps s s' f (exec_Same env s s' e)

pub create-Keeps :
    (new : Option ℕ) (s : Server) → IsSound s.app_manager → Keeps s (handle_create_task new s)
unfolding handle_create_task
create-Keeps none s f = record { files = f; places = omega arith; pipe_fd = refl; piped = refl }
create-Keeps (some id) s f = record {
  files = f;
  places = omega arith;
  pipe_fd = refl;
  piped = refl;
}

pub redirect-Keeps : (s : Server) → IsSound s.app_manager → Keeps s (handle_redirect s)
unfolding handle_redirect
redirect-Keeps s f = Same-Keeps s (handle_redirect s) f (refl, refl, refl, refl)

open_Same : (s s' : Server) → handle_open s ≡ some s' → Same s s'
unfolding handle_open
open_Same s s' e = ground arith

pub open-Keeps : (s s' : Server) → IsSound s.app_manager → handle_open s ≡ some s' → Keeps s s'
open-Keeps s s' f e = Same-Keeps s s' f (open_Same s s' e)

key_Same : (s s' : Server) → handle_waiting_key s ≡ some s' → Same s s'
unfolding handle_waiting_key
key_Same s s' e = ground arith

pub key-Keeps :
    (s s' : Server) → IsSound s.app_manager → handle_waiting_key s ≡ some s' → Keeps s s'
key-Keeps s s' f e = Same-Keeps s s' f (key_Same s s' e)

run_Keeps :
    (f : FileDescriptor → Message → Option (FileDescriptor × List Sent)) (place : ℕ) (s s' : Server)
    → IsSound s.app_manager
    → run_descriptor f place s ≡ some s'
    → Keeps s s'
unfolding run_descriptor
run_Keeps f place s s' sound e = elim (Option-cases (get_elem? s.app_manager.fds place)) [
  | inl q ↦ absurd (ground arith)
  | inr (d, q) ↦
      let (r, m, p) = map-some ran (f d s.rm) (run_found q) in
      let l : length (set s.app_manager.fds place r.0) ≡ length s.app_manager.fds =
        length-set s.app_manager.fds place r.0 in
      let p' : ran r ≡ s' = ground (arith, p) in
      subst (Keeps s) p' (record {
        files = subst (λ n. all_sound n s.app_manager.apps ≡ true) (sym l) sound;
        places = omega (arith, l);
        pipe_fd = refl;
        piped = refl;
      })
]
  where
    ran : FileDescriptor × List Sent → Server
    ran r = record s {
      app_manager = record s.app_manager { fds = set s.app_manager.fds place r.0 };
      sent = s.sent ++ r.1;
    }

    run_found :
        {d : FileDescriptor}
        → get_elem? s.app_manager.fds place ≡ some d
        → Option.map ran (f d s.rm) ≡ some s'
    run_found q = ground arith

file_Keeps :
    (f : FileDescriptor → Message → Option (FileDescriptor × List Sent)) (fd : ℕ) (s s' : Server)
    → IsSound s.app_manager
    → handle_file f fd s ≡ some s'
    → Keeps s s'
unfolding handle_file
file_Keeps f fd s s' sound e = at_lookup (file_at s.app_manager s.target_id fd) e
  where
    at_lookup :
        (l : Lookup)
        → (elim l [
          | no_app ↦ none
          | bad_fd ↦ some (go_to state_init (set_error ebadf s))
          | open_at place ↦ run_descriptor f place s
        ])
          ≡ some s'
        → Keeps s s'
    at_lookup no_app q = absurd (cc q)
    at_lookup bad_fd q = Same-Keeps s s' sound (ground arith)
    at_lookup (open_at place) q = run_Keeps f place s s' sound q

pub read-Keeps :
    (env : Env) (s s' : Server) → IsSound s.app_manager → handle_read env s ≡ some s' → Keeps s s'
unfolding handle_read
read-Keeps env s s' f e = elim (Option-cases (read_of s.rm.arg)) [
  | inl q ↦ absurd (ground arith)
  | inr (a, q) ↦
      let k : Keeps (record s { target_id = s.rm.src_task }) s' =
        file_Keeps (read_descriptor env) a.fd (record s { target_id = s.rm.src_task }) s' f
          (ground arith) in
      record { files = k.files; places = k.places; pipe_fd = k.pipe_fd; piped = k.piped }
]

pub write-Keeps :
    (env : Env) (s s' : Server) → IsSound s.app_manager → handle_write env s ≡ some s' → Keeps s s'
unfolding handle_write
write-Keeps env s s' f e = elim (Option-cases (write_of s.rm.arg)) [
  | inl q ↦ absurd (ground arith)
  | inr (a, q) ↦
      let k : Keeps (record s { target_id = s.rm.src_task }) s' =
        file_Keeps (write_descriptor env) a.fd (record s { target_id = s.rm.src_task }) s' f
          (ground arith) in
      record { files = k.files; places = k.places; pipe_fd = k.pipe_fd; piped = k.piped }
]

-- A new descriptor for the file that was opened.
fd_Keeps :
    (name : List ℕ) (s : Server) (r : ℕ × Server)
    → IsSound s.app_manager
    → new_fd name s ≡ some r
    → Keeps s r.1
unfolding new_fd
fd_Keeps name s r f e = elim (Option-cases (allocate_fd s.app_manager s.target_id)) [
  | inl q ↦ absurd (ground arith)
  | inr ((fd, m), q) ↦
      let (m', e1, e2) = map-some (with_fd fd) (new_file fd m) {b = r} (ground arith) in
      let (sound, places) =
        allocate_fd-IsSound s.app_manager m m' s.target_id fd (fat (make_fat s.target_id name)) f q
          e1 in
      let p : with_fd fd m' ≡ r = ground (arith, e2) in
      subst (λ (x : ℕ × Server). Keeps s x.1) p
        (record { files = sound; places = omega (arith, places); pipe_fd = refl; piped = refl })
]
  where
    with_fd : ℕ → AppManager → ℕ × Server
    with_fd fd m' = (fd, record s { app_manager = m' })

    new_file : ℕ → AppManager → Option AppManager
    new_file fd m = set_new_file m s.target_id fd (fat (make_fat s.target_id name))

allocated_Keeps :
    (name : List ℕ) (s s1 s' : Server) (f : ℕ × Server → Server)
    → IsSound s.app_manager
    → Same s s1
    → ((r : ℕ × Server) → Same r.1 (f r))
    → Option.map f (new_fd name s1) ≡ some s'
    → Keeps s s'
allocated_Keeps name s s1 s' f sound (a, p, q, i) same e =
    let (r, e1, e2) = map-some f (new_fd name s1) e in
    let k = fd_Keeps name s1 r (subst IsSound (sym a) sound) e1 in
    let k' = Same-Keeps r.1 (f r) k.files (same r) in
    let places = k.places in
    let places' = k'.places in
    let z : f r ≡ s' = ground (arith, e2) in
    subst (Keeps s) z (record {
      files = k'.files;
      places = omega (arith, ap (λ (m : AppManager). length m.fds) a, places, places');
      pipe_fd = k'.pipe_fd ∙ (k.pipe_fd ∙ p);
      piped = k'.piped ∙ (k.piped ∙ q);
    })

abbrev fd_file : Server → ℕ × Server → Server
fd_file s r = go_to state_init (record r.1 {
  sm = record s.sm { type = open_file; arg = to_open (record (open_in s.sm.arg) { fd = r.0 }) };
})

abbrev fd_dir : Server → ℕ × Server → Server
fd_dir s r = go_to state_init (record r.1 {
  sm = record s.sm {
    type = open_dir;
    arg = to_open_dir (record (open_dir_in s.sm.arg) { fd = r.0 });
  };
})

pub allocate-Keeps :
    (s s' : Server) → IsSound s.app_manager → handle_allocate_fd s ≡ some s' → Keeps s s'
unfolding handle_allocate_fd
allocate-Keeps s s' f e = at_target (target_of s.rm.type s.fd_target) refl
  where
    aimed : Server
    aimed = record s { fd_target = target_of s.rm.type s.fd_target }

    at_target : (t : Option Target) → target_of s.rm.type s.fd_target ≡ t → Keeps s s'
    at_target none q = absurd (ground arith)
    at_target (some file) q = elim (Option-cases (open_of s.rm.arg)) [
      | inl n ↦ absurd (ground arith)
      | inr (a, n) ↦
          allocated_Keeps a.filename s aimed s' (fd_file s) f (refl, refl, refl, refl)
            (λ r. (refl, refl, refl, refl)) (ground arith)
    ]
    at_target (some dir) q = elim (Option-cases (open_dir_of s.rm.arg)) [
      | inl n ↦ absurd (ground arith)
      | inr (a, n) ↦
          allocated_Keeps a.dirname s aimed s' (fd_dir s) f (refl, refl, refl, refl)
            (λ r. (refl, refl, refl, refl)) (ground arith)
    ]

exit_Keeps :
    (id result : ℕ) (s s' : Server)
    → IsSound s.app_manager
    → exit_app_of s.rm.arg ≡ some (id, result)
    → handle_exit s ≡ some s'
    → Keeps s s'
unfolding handle_exit
exit_Keeps id result s s' f q e = elim (Option-cases (end_app s.app_manager id)) [
  | inl n ↦ Same-Keeps s s' f (ground arith)
  | inr ((m, sent), n) ↦ elim (Bool-cases (get_pid s.app_manager id == 0)) [
    | inl z ↦ Same-Keeps s s' f (ground arith)
    | inr z ↦
        let (sound, places) = exit_app-IsSound s.app_manager m id sent f n in
        let k : s'.app_manager ≡ m = ground arith in
        record {
          files = subst IsSound (sym k) sound;
          places = omega (arith, places, ap (λ (x : AppManager). length x.fds) k);
          pipe_fd = ground arith;
          piped = ground arith;
        }
  ]
]

pub exit-Keeps : (s s' : Server) → IsSound s.app_manager → handle_exit s ≡ some s' → Keeps s s'
unfolding handle_exit
exit-Keeps s s' f e = elim (Option-cases (exit_app_of s.rm.arg)) [
  | inl q ↦ absurd (ground arith)
  | inr ((id, result), q) ↦ exit_Keeps id result s s' f q e
]
