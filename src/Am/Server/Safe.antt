-- ===== src/Am/Server/Safe.antt =====
-- What follows from the invariant for the descriptors that the application manager uses.
use kin_os.Base.{ℕ, ◌≡◌, some, List}
use kin_os.Am.Pipe.{Sent}
use kin_os.Am.Apps.{AppManager, exit_app}
use kin_os.Am.Apps.Exit.{Exited}
use kin_os.Am.Server.Run.{Config, Reach}
use kin_os.Am.Server.Files.{IsSound-Exited}
use kin_os.Am.Server.Sound.{Reach-IsSound}

-- Wherever the loop of `main` has come to, `ExitApp` of any id returns: it meets no null pointer, ends every
-- application with that id that runs, and closes its files.
pub Reach-exit_app :
    {c : Config} (id : ℕ)
    → Reach c
    → (m : AppManager) × (sent : List Sent) × (exit_app c.server.app_manager id ≡ some (m, sent))
      × Exited c.server.app_manager id m
Reach-exit_app {c} id r = let v = Reach-IsSound r in IsSound-Exited c.server.app_manager id v.files
