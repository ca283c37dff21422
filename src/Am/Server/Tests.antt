-- ===== src/Am/Server/Tests.antt =====
-- The application manager starts a first application, and the theorems at that run.
use kin_os.Base.{ℕ, ◌≡◌, ◌==◌, if◌then◌else◌, refl, some, List, [], ◌∷◌, ◌++◌}
use kin_os.Message.{Message, unset, ExecuteArg, execute_of}
use kin_os.Am.Pipe.{Sent}
use kin_os.Am.Apps.{
  AppManager, new_app, get_app_info, make_app, exit_app, initialize_file_descriptor,
}
use kin_os.Am.Apps.Laws.{first_files}
use kin_os.Am.Apps.Exit.{Exited}
use kin_os.Am.Server.{Server, Env, start_server, state_init}
use kin_os.Am.Server.Receive.{receive, receive_at, receive_init, receive_fs}
use kin_os.Am.Server.Handle.{
  handle, handle_at, handle_exec_file, handle_create_task, handle_start_task, start_files,
  redirect_file, piped_file, pipe_file, send, send_at, file_at, open_at,
}
use kin_os.Am.Server.Run.{Config, Reach, start, later, gets, handles, sends, run}
use kin_os.Am.Server.Phase.{Legal, Reach-Legal}
use kin_os.Am.Server.Valid.{IsValid}
use kin_os.Am.Server.Sound.{Reach-IsSound}
use kin_os.Am.Server.Safe.{Reach-exit_app}
use kin_os.Am.Server.Execute.{execute_starts, request, retries, found, loaded, outgoing}

abbrev command : ExecuteArg
command = record {
  filename = b'c' ∷ b'a' ∷ b't' ∷ [];
  argument = [];
  redirect = 0;
  pipe = 0;
  id = 0;
  exist = 0;
  isdirectory = 0;
}

-- `servers/fs` is task 2, the terminal task 3, and the new task 7.
abbrev env : Env
env = record { fs = some 2; new_task = some 7; terminal = 3; replies = [] }

-- The shell, task 3, asks for the command, the file system server finds and loads it.
abbrev shell_asks : Message
shell_asks = request 3 command

abbrev file_found : Message
file_found = found 2 unset

abbrev file_loaded : Message
file_loaded = loaded 2 unset

abbrev Begun : Type 0
Begun =
    (c : Config) × Reach c
    × (c.server.state ≡ state_init)
    × (file_at c.server.app_manager 7 1 ≡ open_at 1)

begun : Begun
unfolding start_server receive receive_at receive_init receive_fs execute_of handle handle_at
    handle_exec_file handle_create_task handle_start_task start_files redirect_file piped_file
    pipe_file send send_at file_at new_app initialize_file_descriptor
begun = (
  _,
  later
      (later
        (later
          (later
            (later
              (later
                (later
                  (later (later start (gets env shell_asks refl refl refl))
                    (handles env (λ id p. refl) refl))
                  sends)
                (gets env file_found refl refl refl))
              (handles env (λ id p. refl) refl))
            sends)
          (gets env file_loaded refl refl refl))
        (handles env (λ id p. refl) refl))
      sends,
  refl,
  refl,
)

Reach-Legal_example : Legal begun.0
Reach-Legal_example = Reach-Legal begun.1

Reach-IsSound_example : IsValid begun.0
Reach-IsSound_example = Reach-IsSound begun.1

Reach-exit_app_example :
    (m : AppManager) × (sent : List Sent) × (exit_app begun.0.server.app_manager 7 ≡ some (m, sent))
    × Exited begun.0.server.app_manager 7 m
Reach-exit_app_example = Reach-exit_app 7 begun.1

-- The same with two retries for the file and one for the loading.
execute_starts_example :
    (s' : Server) × (run
        ((env, shell_asks)
          ∷ retries env 2
              (5 ∷ 5 ∷ [])
              ((env, file_found) ∷ retries env 2 (5 ∷ []) ((env, file_loaded) ∷ [])))
        start_server
      ≡ some s')
    × (s'.state ≡ state_init)
    × (s'.app_manager ≡ new_app 3 start_server.app_manager 7 3)
    × ((j : ℕ)
        → get_app_info s'.app_manager j ≡ (
            if 7 == j
            then some (record (make_app 7 3) { files = first_files start_server.app_manager 3 })
            else get_app_info start_server.app_manager j))
    × (s'.sent ≡ start_server.sent ++ outgoing start_server 2 3 7 command 2 1)
unfolding start_server get_app_info
execute_starts_example =
    execute_starts env 2 3 7 command (5 ∷ 5 ∷ []) (5 ∷ []) unset unset start_server refl refl refl
      refl refl refl refl
