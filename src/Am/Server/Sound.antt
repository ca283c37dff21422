-- ===== src/Am/Server/Sound.antt =====
-- The application manager never follows a dangling descriptor: the invariant of its loop holds.
use kin_os.Base.{
  ℕ, ◌<◌, ◌≡◌, refl, sym, ap, ◌∙◌, Bool, true, false, Option, none, some, length, arith,
}
use mathlib.Core.Path.{subst}
use kin_os.Am.Apps.{AppManager, find_app}
use kin_os.Am.Server.{
  State, state_err, state_init, state_exec_file, state_create_task, state_start_task,
  state_redirect, state_pipe, state_exit, state_open, state_allocate_fd, state_read, state_write,
  state_waiting_key, Server, Env, start_server,
}
use kin_os.Am.Server.Receive.{receive}
use kin_os.Am.Server.Handle.{
  handle, handle_at, send, send_at, handle_create_task, handle_start_task, handle_redirect,
}
use kin_os.Am.Server.Run.{
  Phase, receiving, handling, sending, Config, after, NewTaskIsFresh, Step, gets, passes, handles,
  sends, Reach, start, later,
}
use kin_os.Am.Server.Phase.{
  Legal, may_send, Step-Legal, start_state, handle_may_send, exec_state, exit_SameState,
  open_SameState, allocate_state, read_SameState, write_SameState, key_state,
}
use kin_os.Am.Server.Keeps.{
  Keeps, exec-Keeps, create-Keeps, redirect-Keeps, open-Keeps, key-Keeps, read-Keeps, write-Keeps,
  allocate-Keeps, exit-Keeps,
}
use kin_os.Am.Server.Files.{IsSound}
use kin_os.Am.Server.Valid.{is_some, is_start, needs_pipe, expects_app, IsValid, receive_Keeps}
use kin_os.Am.Server.Starting.{started-Starting}

start-IsValid :
    (env : Env) (s s' : Server)
    → IsValid (record { phase = handling; server = s })
    → s.state ≡ state_start_task
    → handle_start_task env s ≡ some s'
    → may_send s'.state ≡ true
    → IsValid (record { phase = sending; server = s' })
start-IsValid env s s' v q e l =
    let t = started-Starting env s s' v q e in
    let some_pipe = t.some_pipe in
    let st = start_state env s s' e in
    record {
      legal = l;
      files = t.files;
      place = t.place;
      pipe = λ h. some_pipe (ground arith);
      fresh = λ h. absurd (ground arith);
    }

Keeps-IsValid :
    (s s' : Server)
    → IsValid (record { phase = handling; server = s })
    → Keeps s s'
    → is_start s'.state ≡ false
    → may_send s'.state ≡ true
    → (expects_app sending s'.state ≡ true → find_app s'.new_id s'.app_manager.apps ≡ none)
    → IsValid (record { phase = sending; server = s' })
Keeps-IsValid s s' v k st l fresh =
    let place = v.place in
    let pipe = v.pipe in
    let places = k.places in
    let same = k.pipe_fd in
    let piped = k.piped in
    record {
      legal = l;
      files = k.files;
      place = λ p h. omega (arith, place p (sym same ∙ h), places);
      pipe = λ h. ap is_some same ∙ pipe (ground arith);
      fresh = fresh;
    }

create_fresh :
    (new : Option ℕ) (s : Server)
    → ((id : ℕ) → new ≡ some id → find_app id s.app_manager.apps ≡ none)
    → expects_app sending (handle_create_task new s).state ≡ true
    → find_app (handle_create_task new s).new_id (handle_create_task new s).app_manager.apps ≡ none
unfolding handle_create_task
create_fresh none s f e = absurd (cc e)
create_fresh (some id) s f e = f id refl

create_is_start :
    (new : Option ℕ) (s : Server)
    → s.state ≡ state_create_task
    → is_start (handle_create_task new s).state ≡ false
unfolding handle_create_task
create_is_start none s q = refl
create_is_start (some id) s q = ap is_start q

redirect_is_start :
    (s : Server) → s.state ≡ state_redirect → is_start (handle_redirect s).state ≡ false
unfolding handle_redirect
redirect_is_start s q = ap is_start q

err_pipe :
    (s : Server)
    → s.state ≡ state_err
    → (needs_pipe handling s ≡ true → is_some s.pipe_fd ≡ true)
    → needs_pipe sending s ≡ true
    → is_some s.pipe_fd ≡ true
err_pipe s q pipe h = pipe (ground arith)

handle-IsValid :
    (st : State) (env : Env) (s s' : Server)
    → s.state ≡ st
    → IsValid (record { phase = handling; server = s })
    → NewTaskIsFresh env s
    → handle_at st env s ≡ some s'
    → may_send s'.state ≡ true
    → IsValid (record { phase = sending; server = s' })
unfolding handle_at
handle-IsValid state_start_task env s s' q v f e l = start-IsValid env s s' v q e l
handle-IsValid state_exec_file env s s' q v f e l =
    Keeps-IsValid s s' v (exec-Keeps env s s' v.files e) (ground (arith, exec_state env s s' e)) l
      (λ h. absurd (ground (arith, exec_state env s s' e)))
handle-IsValid state_create_task env s s' q v f e l =
    let z : handle_create_task env.new_task s ≡ s' = ground arith in
    let l' : may_send (handle_create_task env.new_task s).state ≡ true =
      subst (λ (x : Server). may_send x.state ≡ true) (sym z) l in
    subst (λ (x : Server). IsValid (record { phase = sending; server = x })) z
      (Keeps-IsValid s (handle_create_task env.new_task s) v (create-Keeps env.new_task s v.files)
        (create_is_start env.new_task s q) l' (create_fresh env.new_task s f))
handle-IsValid state_redirect env s s' q v f e l =
    let fresh = v.fresh in
    let z : handle_redirect s ≡ s' = ground arith in
    let l' : may_send (handle_redirect s).state ≡ true =
      subst (λ (x : Server). may_send x.state ≡ true) (sym z) l in
    subst (λ (x : Server). IsValid (record { phase = sending; server = x })) z
      (Keeps-IsValid s (handle_redirect s) v (redirect-Keeps s v.files) (redirect_is_start s q) l'
        (λ h. fresh (ap (expects_app handling) q)))
handle-IsValid state_exit env s s' q v f e l =
    Keeps-IsValid s s' v (exit-Keeps s s' v.files e) (ground (arith, exit_SameState s s' e)) l
      (λ h. absurd (ground (arith, exit_SameState s s' e)))
handle-IsValid state_open env s s' q v f e l =
    Keeps-IsValid s s' v (open-Keeps s s' v.files e) (ground (arith, open_SameState s s' e)) l
      (λ h. absurd (ground (arith, open_SameState s s' e)))
handle-IsValid state_allocate_fd env s s' q v f e l =
    Keeps-IsValid s s' v (allocate-Keeps s s' v.files e) (ground (arith, allocate_state s s' e)) l
      (λ h. absurd (ground (arith, allocate_state s s' e)))
handle-IsValid state_read env s s' q v f e l =
    Keeps-IsValid s s' v (read-Keeps env s s' v.files e) (ground (arith, read_SameState env s s' e))
      l (λ h. absurd (ground (arith, read_SameState env s s' e)))
handle-IsValid state_write env s s' q v f e l =
    Keeps-IsValid s s' v (write-Keeps env s s' v.files e)
      (ground (arith, write_SameState env s s' e)) l
      (λ h. absurd (ground (arith, write_SameState env s s' e)))
handle-IsValid state_waiting_key env s s' q v f e l =
    Keeps-IsValid s s' v (key-Keeps s s' v.files e) (ground (arith, key_state s s' e)) l
      (λ h. absurd (ground (arith, key_state s s' e)))
handle-IsValid state_err env s s' q v f e l =
    let z : s ≡ s' = ground arith in
    let l' : may_send s.state ≡ true = subst (λ (x : Server). may_send x.state ≡ true) (sym z) l in
    subst (λ (x : Server). IsValid (record { phase = sending; server = x })) z
      (record {
        legal = l';
        files = v.files;
        place = v.place;
        pipe = err_pipe s q v.pipe;
        fresh = λ h. absurd (ground arith);
      })
handle-IsValid state_init env s s' q v f e l = let h = v.legal in absurd (ground arith)
handle-IsValid state_pipe env s s' q v f e l = let h = v.legal in absurd (ground arith)

-- Sending leaves the files alone; it makes a pipe needed only behind a new application that writes to it.
record Sends (s s' : Server) : Type 0 where
  manager : s'.app_manager ≡ s.app_manager
  pipe_fd : s'.pipe_fd ≡ s.pipe_fd
  new_id : s'.new_id ≡ s.new_id
  pipe : needs_pipe receiving s' ≡ true → needs_pipe sending s ≡ true
  fresh : expects_app receiving s'.state ≡ true → expects_app sending s.state ≡ true

send_Sends : (st : State) (s : Server) → s.state ≡ st → may_send st ≡ true → Sends s (send_at st s)
unfolding send_at
send_Sends st s q l = record {
  manager = ground arith;
  pipe_fd = ground arith;
  new_id = ground arith;
  pipe = λ h. ground arith;
  fresh = λ h. ground arith;
}

kept :
    (p p' : Phase) (s s' : Server)
    → IsValid (record { phase = p; server = s })
    → s'.app_manager ≡ s.app_manager
    → s'.pipe_fd ≡ s.pipe_fd
    → s'.new_id ≡ s.new_id
    → (needs_pipe p' s' ≡ true → needs_pipe p s ≡ true)
    → (expects_app p' s'.state ≡ true → expects_app p s.state ≡ true)
    → Legal (record { phase = p'; server = s' })
    → IsValid (record { phase = p'; server = s' })
kept p p' s s' v m fd id pipe fresh l =
    let place = v.place in
    let pipe' = v.pipe in
    let fresh' = v.fresh in
    record {
      legal = l;
      files = subst IsSound (sym m) v.files;
      place = λ k h. subst (λ (x : AppManager). k < length x.fds) (sym m) (place k (sym fd ∙ h));
      pipe = λ h. ap is_some fd ∙ pipe' (pipe h);
      fresh = λ h.
          ap (λ i. find_app i s'.app_manager.apps) id
          ∙ (ap (λ (x : AppManager). find_app s.new_id x.apps) m ∙ fresh' (fresh h));
    }

true-false : {b : Bool} → b ≡ true → b ≡ false → ⊥
true-false p q = cc

pub Step-IsSound : {c d : Config} → Step c d → IsValid c → IsValid d
unfolding receive handle send
Step-IsSound (gets {s} {n} env m w a e) v =
    let (am, fd, id, pipe, fresh) = receive_Keeps s.state env.fs (record s { rm = m }) n refl w e in
    kept receiving (after n).phase s (after n).server v am fd id pipe fresh
      (Step-Legal (gets {s = s} {n = n} env m w a e) v.legal)
Step-IsSound (passes {s} w) v = let l = v.legal in absurd (true-false l w)
Step-IsSound (handles {s} {s'} env f e) v =
    handle-IsValid s.state env s s' refl v f e (handle_may_send s.state env s s' refl v.legal e)
Step-IsSound (sends {s}) v =
    let t = send_Sends s.state s refl v.legal in
    kept sending receiving s (send_at s.state s) v t.manager t.pipe_fd t.new_id t.pipe t.fresh
      (Step-Legal (sends {s = s}) v.legal)

-- In every configuration that the loop of `main` can reach, whatever the messages and whatever the other
-- servers answer, as long as a new task has an id that no application has: every application's files are
-- places of the store, without a null pointer; `pipe_fd_` is the place of a descriptor wherever it is set,
-- and it is set when an application is to read from it or has just been made to write to it; and
-- while an application is being made no other has its id.
pub Reach-IsSound : {c : Config} → Reach c → IsValid c
unfolding start_server
Reach-IsSound start = record {
  legal = refl;
  files = refl;
  place = λ p e. absurd (cc e);
  pipe = λ h. absurd (cc h);
  fresh = λ h. absurd (cc h);
}
Reach-IsSound (later r st) = Step-IsSound st (Reach-IsSound r)
