-- ===== src/Am/Server/Starting.antt =====
-- The files of a new application: `StartTaskState::HandleMessage` keeps the invariant.
use kin_os.Base.{
  ℕ, ◌<◌, ◌≡◌, refl, ap, Bool, true, false, ◌||◌, Option, none, some, length, Bool-cases, inl, inr,
  arith, map-some, and_then-some,
}
use mathlib.Core.Path.{subst}
use kin_os.Am.Pipe.{make_pipe}
use kin_os.Am.Fat.{make_fat}
use kin_os.Am.Apps.{fat, pipe_end, AppManager, find_app}
use kin_os.Am.Server.{state_start_task, Server, Env, set_file, set_new_file}
use kin_os.Am.Server.Handle.{
  handle_start_task, redirect_file, piped_file, pipe_file, announce, start_files, created,
}
use kin_os.Am.Server.Run.{handling}
use kin_os.Am.Server.Files.{IsSound, set_file-IsSound, set_new_file-IsSound, new_app-IsSound}
use kin_os.Am.Server.Valid.{is_some, expects_app, IsValid}

-- While the files of a new application are set up.
pub record Starting (b : Bool) (s s' : Server) : Type 0 where
  pub files : IsSound s'.app_manager
  pub place : (p : ℕ) → s'.pipe_fd ≡ some p → p < length s'.app_manager.fds
  pub some_pipe : (s'.piped || b) ≡ true → is_some s'.pipe_fd ≡ true
  pub pipe : s'.pipe ≡ s.pipe

created-Starting :
    (env : Env) (s : Server)
    → IsValid (record { phase = handling; server = s })
    → s.state ≡ state_start_task
    → Starting false s (created env s)
created-Starting env s v q =
    let fresh : find_app s.new_id s.app_manager.apps ≡ none =
      v.fresh (ap (expects_app handling) q) in
    let (sound, places) =
      new_app-IsSound env.terminal s.app_manager s.new_id s.target_id fresh v.files in
    let place = v.place in
    let pipe = v.pipe in
    record {
      files = sound;
      place = λ p e. omega (arith, place p e, places);
      some_pipe = λ h. pipe (ground arith);
      pipe = refl;
    }

redirect-Starting :
    (s s1 s2 : Server) → Starting false s s1 → redirect_file s1 ≡ some s2 → Starting false s s2
unfolding redirect_file
redirect-Starting s s1 s2 v e = elim (Bool-cases s1.redirect) [
  | inr r ↦ let q : s1 ≡ s2 = ground arith in subst (Starting false s) q v
  | inl r ↦
      let (m, e1, e2) = map-some with_files files {b = s2} (ground arith) in
      let (sound, places) =
        set_new_file-IsSound s1.app_manager m s1.new_id 1
          (fat (make_fat s1.new_id s1.redirect_filename)) v.files e1 in
      let place = v.place in
      let q : with_files m ≡ s2 = ground (arith, e2) in
      subst (Starting false s) q (record {
        files = sound;
        place = λ p h. omega (arith, place p h, places);
        some_pipe = v.some_pipe;
        pipe = v.pipe;
      })
]
  where
    with_files : AppManager → Server
    with_files m = record s1 { app_manager = m }

    files : Option AppManager
    files = set_new_file s1.app_manager s1.new_id 1 (fat (make_fat s1.new_id s1.redirect_filename))

some_place : (o : Option ℕ) → is_some o ≡ true → (p : ℕ) × (o ≡ some p)
some_place none e = absurd (cc e)
some_place (some p) e = (p, refl)

piped-Starting :
    (s s1 s2 : Server)
    → Starting false s s1
    → piped_file s1 ≡ some s2
    → Starting false s s2 × (s2.piped ≡ false)
unfolding piped_file
piped-Starting s s1 s2 v e = elim (Bool-cases s1.piped) [
  | inr r ↦ let q : s1 ≡ s2 = ground arith in (subst (Starting false s) q v, ground arith)
  | inl r ↦
      let some_pipe = v.some_pipe in
      let (p, h) = some_place s1.pipe_fd (some_pipe (ground arith)) in
      let (m, e1, e2) =
        map-some with_files (set_file s1.app_manager s1.new_id 0 s1.pipe_fd) {b = s2}
          (ground arith) in
      let place = v.place in
      let (sound, places) =
        set_file-IsSound s1.app_manager m s1.new_id 0 p (place p h) v.files
          (subst (λ o. set_file s1.app_manager s1.new_id 0 o ≡ some m) h e1) in
      let q : with_files m ≡ s2 = ground (arith, e2) in
      subst (λ (x : Server). Starting false s x × (x.piped ≡ false)) q
        (
          record {
            files = sound;
            place = λ k h'. omega (arith, place k h', places);
            some_pipe = λ h'. absurd (cc h');
            pipe = v.pipe;
          },
          refl,
        )
]
  where
    with_files : AppManager → Server
    with_files m = record s1 { app_manager = m; piped = false }

pipe-Starting :
    (s s1 s2 : Server)
    → Starting false s s1
    → s1.piped ≡ false
    → pipe_file s1 ≡ some s2
    → Starting s2.pipe s s2
unfolding pipe_file
pipe-Starting s s1 s2 v n e = elim (Bool-cases s1.pipe) [
  | inr r ↦
      let q : s1 ≡ s2 = ground arith in
      subst (λ (x : Server). Starting x.pipe s x) q
        (record {
          files = v.files;
          place = v.place;
          some_pipe = λ h. absurd (ground arith);
          pipe = v.pipe;
        })
  | inl r ↦
      let (m, e1, e2) = map-some with_files files {b = s2} (ground arith) in
      let (sound, places) =
        set_new_file-IsSound s1.app_manager m s1.new_id 1 (pipe_end (make_pipe s1.new_id)) v.files
          e1 in
      let q : with_files m ≡ s2 = ground (arith, e2) in
      subst (λ (x : Server). Starting x.pipe s x) q
        (record {
          files = sound;
          place = λ p h. ground (arith, places);
          some_pipe = λ h. refl;
          pipe = v.pipe;
        })
]
  where
    with_files : AppManager → Server
    with_files m = record s1 { app_manager = m; pipe_fd = some (length s1.app_manager.fds) }

    files : Option AppManager
    files = set_new_file s1.app_manager s1.new_id 1 (pipe_end (make_pipe s1.new_id))

pub started-Starting :
    (env : Env) (s s' : Server)
    → IsValid (record { phase = handling; server = s })
    → s.state ≡ state_start_task
    → handle_start_task env s ≡ some s'
    → Starting s'.pipe s s'
unfolding handle_start_task
started-Starting env s s' v q e =
    let (s3, e3, p) = map-some announce (start_files (created env s)) e in
    let (s1, e1, r) = and_then-some (redirect_file (created env s)) _ e3 in
    let (s2, e2, e4) = and_then-some (piped_file s1) pipe_file r in
    let (v2, n) =
      piped-Starting s s1 s2
        (redirect-Starting s (created env s) s1 (created-Starting env s v q) e1) e2 in
    let v3 = pipe-Starting s s2 s3 v2 n e4 in
    let z : announce s3 ≡ s' = ground (arith, p) in
    subst (λ (x : Server). Starting x.pipe s x) z
      (record { files = v3.files; place = v3.place; some_pipe = v3.some_pipe; pipe = v3.pipe })
