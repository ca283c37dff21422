-- ===== src/Am/Server/Execute.antt =====
-- A command from the request to the running application: the whole way through the states of the
-- application manager, with as many retries of the file system server as it asks for.
use kin_os.Base.{
  ℕ, ◌≡◌, refl, sym, ap, ◌∙◌, false, none, some, ◌==◌, if◌then◌else◌, List, [], ◌∷◌, ◌++◌, length,
  replicate, arith,
}
use mathlib.Core.List.{append-nil, append_assoc}
use kin_os.Message.{
  Message, Arg, error, ready, execute_file, start_app, ExecuteArg, to_execute, error_arg,
  start_task_arg, execute_of, error_of,
}
use kin_os.Am.Pipe.{Sent}
use kin_os.Am.Apps.{new_app, get_app_info, make_app}
use kin_os.Am.Apps.Laws.{first_files, new_app_lem}
use kin_os.Am.Server.{state_init, state_exec_file, state_create_task, Server, Env, send_to}
use kin_os.Am.Server.Receive.{receive, receive_at, receive_init, receive_fs, receive_error}
use kin_os.Am.Server.Handle.{
  handle, handle_at, send, send_at, handle_exec_file, handle_create_task, handle_start_task,
  start_files, redirect_file, piped_file, pipe_file, execute_in,
}
use kin_os.Am.Server.Run.{run, serve, turn}

-- The file system server's answers: try again, and an answer without more.
abbrev pub retry : ℕ → ℕ → Message
retry fs e = record { type = error; src_task = fs; arg = error_arg 1 e }

abbrev pub retries : Env → ℕ → List ℕ → List (Env × Message) → List (Env × Message)
retries env fs [] rest = rest
retries env fs (e ∷ es) rest = (env, retry fs e) ∷ retries env fs es rest

-- The server after those.
abbrev pub retried : ℕ → List ℕ → Server → Server
retried fs [] s = s
retried fs (e ∷ es) s = retried fs es (send_to s.fs_id s.sm (record s { rm = retry fs e }))

exec_retries :
    (env : Env) (fs : ℕ) (es : List ℕ) (rest : List (Env × Message)) (s : Server)
    → s.state ≡ state_exec_file
    → run (retries env fs es rest) s ≡ run rest (retried fs es s)
unfolding run serve turn receive receive_at receive_fs receive_error error_of
exec_retries env fs [] rest s q = refl
exec_retries env fs (e ∷ es) rest s q =
    let s1 : Server = send_to s.fs_id s.sm (record s { rm = retry fs e }) in
    let z : serve env (retry fs e) s ≡ some s1 = ground arith in
    let ih = exec_retries env fs es rest s1 q in ground (arith, ih, z)

create_retries :
    (env : Env) (fs : ℕ) (es : List ℕ) (rest : List (Env × Message)) (s : Server)
    → s.state ≡ state_create_task
    → run (retries env fs es rest) s ≡ run rest (retried fs es s)
unfolding run serve turn receive receive_at receive_fs receive_error error_of
create_retries env fs [] rest s q = refl
create_retries env fs (e ∷ es) rest s q =
    let s1 : Server = send_to s.fs_id s.sm (record s { rm = retry fs e }) in
    let z : serve env (retry fs e) s ≡ some s1 = ground arith in
    let ih = create_retries env fs es rest s1 q in ground (arith, ih, z)

-- The request goes out once more for every retry, and nothing else changes.
retried_lem :
    (fs : ℕ) (es : List ℕ) (s : Server)
    → (m : Message) × (retried fs es s
        ≡ record s { rm = m; sent = s.sent ++ replicate (length es) (s.fs_id, s.sm) })
retried_lem fs [] s = (s.rm, sym (ap (λ xs. record s { sent = xs }) (append-nil s.sent)))
retried_lem fs (e ∷ es) s =
    let (m, q) = retried_lem fs es (send_to s.fs_id s.sm (record s { rm = retry fs e })) in
    (
      m,
      q
          ∙ ap (λ xs. record s { rm = m; sent = xs })
              (append_assoc s.sent ((s.fs_id, s.sm) ∷ []) (replicate (length es) (s.fs_id, s.sm))),
    )

-- `ExecFileState` at a command without redirection and without a pipe.
abbrev pub request : ℕ → ExecuteArg → Message
request c a = record { type = execute_file; src_task = c; arg = to_execute a }

abbrev pub asked_sm : Server → ExecuteArg → Message
asked_sm s a = record s.sm {
  type = execute_file;
  arg = to_execute (record (execute_in s.sm.arg) { filename = a.filename });
}

abbrev pub asked : ℕ → ℕ → ExecuteArg → Server → Server
asked fs c a s = send_to fs (asked_sm s a) (record s {
  state = state_exec_file;
  sm = asked_sm s a;
  rm = request c a;
  fs_id = fs;
  target_id = c;
  command = a.filename;
  argument = a.argument;
  redirect = false;
  pipe = false;
})

serve-asked :
    (env : Env) (fs c : ℕ) (a : ExecuteArg) (s : Server)
    → s.state ≡ state_init
    → env.fs ≡ some fs
    → a.redirect ≡ 0
    → a.pipe ≡ 0
    → serve env (request c a) s ≡ some (asked fs c a s)
unfolding serve turn receive receive_at receive_init handle handle_at handle_exec_file send send_at
    execute_of
serve-asked env fs c a s q f r p = ground arith

-- `CreateTaskState`.
abbrev pub found : ℕ → Arg → Message
found fs arg = record { type = execute_file; src_task = fs; arg = arg }

abbrev pub made_sm : Server → ℕ → Message
made_sm s id = record s.sm {
  type = execute_file;
  arg = to_execute (record (execute_in s.sm.arg) { id = id });
}

abbrev pub made : ℕ → Arg → ℕ → Server → Server
made fs arg id s =
    send_to s.fs_id (made_sm s id)
      (record s { state = state_create_task; sm = made_sm s id; rm = found fs arg; new_id = id })

serve-made :
    (env : Env) (fs id : ℕ) (arg : Arg) (s : Server)
    → s.state ≡ state_exec_file
    → env.new_task ≡ some id
    → serve env (found fs arg) s ≡ some (made fs arg id s)
unfolding serve turn receive receive_at receive_fs handle handle_at handle_create_task send send_at
serve-made env fs id arg s q n = ground arith

-- `StartTaskState`.
abbrev pub loaded : ℕ → Arg → Message
loaded fs arg = record { type = ready; src_task = fs; arg = arg }

abbrev pub start_message : Server → Message
start_message s = record s.sm { type = start_app; arg = start_task_arg s.new_id }

abbrev pub begun : Env → ℕ → Arg → Server → Server
begun env fs arg s = send_to 1 (start_message s) (
    send_to s.target_id (made_sm s s.new_id) (record s {
      state = state_init;
      sm = start_message s;
      rm = loaded fs arg;
      app_manager = new_app env.terminal s.app_manager s.new_id s.target_id;
    }))

serve-begun :
    (env : Env) (fs : ℕ) (arg : Arg) (s : Server)
    → s.state ≡ state_create_task
    → s.redirect ≡ false
    → s.pipe ≡ false
    → s.piped ≡ false
    → serve env (loaded fs arg) s ≡ some (begun env fs arg s)
unfolding serve turn receive receive_at receive_fs handle handle_at handle_start_task start_files
    redirect_file piped_file pipe_file send send_at
serve-begun env fs arg s q r p d = ground arith

run-served :
    (env : Env) (m : Message) (ins : List (Env × Message)) (s s' : Server)
    → serve env m s ≡ some s'
    → run ((env, m) ∷ ins) s ≡ run ins s'
unfolding run
run-served env m ins s s' e = rw (run, e) refl

in_order :
    (xs : List Sent) (a b c d : Sent) (more later : List Sent)
    → (((((xs ++ (a ∷ [])) ++ more) ++ (b ∷ [])) ++ later) ++ (c ∷ [])) ++ (d ∷ [])
      ≡ xs ++ (a ∷ (more ++ (b ∷ (later ++ (c ∷ d ∷ [])))))
in_order xs a b c d more later = simp append_assoc

-- What the file system server and the application are sent.
abbrev pub load_sm : Server → ExecuteArg → ℕ → Message
load_sm s a id = record s.sm {
  type = execute_file;
  arg = to_execute (record (execute_in s.sm.arg) { filename = a.filename; id = id });
}

abbrev pub outgoing : Server → ℕ → ℕ → ℕ → ExecuteArg → (tries tries' : ℕ) → List Sent
outgoing s fs c id a tries tries' =
    (fs, asked_sm s a)
    ∷ (replicate tries (fs, asked_sm s a)
        ++ ((fs, load_sm s a id)
            ∷ (replicate tries' (fs, load_sm s a id)
                ++ ((c, load_sm s a id)
                    ∷ (1, record s.sm { type = start_app; arg = start_task_arg id })
                    ∷ []))))

-- A command without redirection and pipe, asked for by `c` while `InitState` waits and no pipe is left to
-- be read: however often the file system server asks to try again, both for the file and for the
-- loading, once it has found the file, a task `id` is there, of which there is no application, and it is
-- ready, the server is back in `InitState`, `GetAppInfo` finds under `id` a running application with parent
-- `c` and its files, or three new terminals if `c` is none, and under every other id what it found before, and the messages it has sent are: the request and
-- one more for every retry, then the same with the id for the loading, the id for `c`, and to the kernel
-- to start the task.
pub execute_starts :
    (env : Env) (fs c id : ℕ) (a : ExecuteArg) (es es' : List ℕ) (arg arg' : Arg) (s : Server)
    → s.state ≡ state_init
    → s.piped ≡ false
    → env.fs ≡ some fs
    → env.new_task ≡ some id
    → a.redirect ≡ 0
    → a.pipe ≡ 0
    → get_app_info s.app_manager id ≡ none
    → (s' : Server) × (run
          ((env, request c a)
            ∷ retries env fs es
                ((env, found fs arg) ∷ retries env fs es' ((env, loaded fs arg') ∷ [])))
          s
        ≡ some s')
      × (s'.state ≡ state_init)
      × (s'.app_manager ≡ new_app env.terminal s.app_manager id c)
      × ((j : ℕ)
          → get_app_info s'.app_manager j ≡ (
              if id == j
              then some (record (make_app id c) { files = first_files s.app_manager c })
              else get_app_info s.app_manager j))
      × (s'.sent ≡ s.sent ++ outgoing s fs c id a (length es) (length es'))
unfolding execute_of run
execute_starts env fs c id a es es' arg arg' s q d f n r p new =
    let s1 = asked fs c a s in
    let (m1, q1) = retried_lem fs es s1 in
    let s2 : Server = record s1 { rm = m1; sent = s1.sent ++ replicate (length es) (fs, s1.sm) } in
    let s3 = made fs arg id s2 in
    let (m2, q2) = retried_lem fs es' s3 in
    let s4 : Server = record s3 { rm = m2; sent = s3.sent ++ replicate (length es') (fs, s3.sm) } in
    let s5 = begun env fs arg' s4 in
    let end : List (Env × Message) = (env, loaded fs arg') ∷ [] in
    let mid : List (Env × Message) = (env, found fs arg) ∷ retries env fs es' end in
    let r1 = serve-asked env fs c a s q f r p in
    let r2 : run (retries env fs es mid) s1 ≡ run mid s2 =
      exec_retries env fs es mid s1 refl ∙ ap (run mid) q1 in
    let r3 = serve-made env fs id arg s2 refl n in
    let r4 : run (retries env fs es' end) s3 ≡ run end s4 =
      create_retries env fs es' end s3 refl ∙ ap (run end) q2 in
    let r5 = serve-begun env fs arg' s4 refl refl refl d in
    (
      s5,
      run-served env _ _ s s1 r1
          ∙ (r2 ∙ (run-served env _ _ s2 s3 r3 ∙ (r4 ∙ run-served env _ [] s4 s5 r5))),
      refl,
      refl,
      (λ j. new_app_lem env.terminal s.app_manager id c j new),
      in_order s.sent _ _ _ _ (replicate (length es) (fs, s1.sm))
          (replicate (length es') (fs, s3.sm)),
    )
