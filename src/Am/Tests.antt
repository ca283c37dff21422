-- ===== src/Am/Tests.antt =====
-- A pipe at work, and the theorems at such inputs.
use kin_os.Base.{ℕ, ◌≡◌, refl, true, false, some, List, [], ◌∷◌, ◌++◌, arith, take, replicate}
use kin_os.Am.Pipe.{PipeFileDescriptor, make_pipe, read, write, close, error_message, Sent}
use kin_os.Am.Pipe.Laws.{contents, IsValid, drain, taken, drain-fifo}
use kin_os.Message.{ReadArg, WriteArg, read_of}
use kin_os.Am.Fat.{FatFileDescriptor}
use kin_os.Am.Apps.{
  FileDescriptor, terminal, pipe_end, run, kill, AppInfo, AppManager, new_app, exit_app,
  copy_file_descriptor, exit_loop, close_files, close_at, close_fd,
}
use kin_os.Am.Apps.Exit.{Exited, exit_app-Exited}

abbrev text : List ℕ
text = b'h' ∷ b'e' ∷ b'l' ∷ b'l' ∷ b'o' ∷ replicate 11 0

abbrev hello : PipeFileDescriptor
hello = record { id = 5; bytes = text; len = 5; closed = false }

hello-IsValid : IsValid hello
hello-IsValid = omega arith

abbrev fresh : PipeFileDescriptor
fresh = record { id = 5; bytes = replicate 16 0; len = 0; closed = false }

hello_written : (write (make_pipe 5) text 5).0 ≡ hello
unfolding write make_pipe
hello_written = refl

hello_drained : (drain 3 hello (2 ∷ 9 ∷ 4 ∷ [])).0 ≡ b'h' ∷ b'e' ∷ b'l' ∷ b'l' ∷ b'o' ∷ []
unfolding drain taken read read_of
hello_drained = refl

drain-fifo_example :
    (drain 3 hello (2 ∷ 1 ∷ [])).0 ++ contents (drain 3 hello (2 ∷ 1 ∷ [])).1 ≡ contents hello
drain-fifo_example = drain-fifo 3 hello (2 ∷ 1 ∷ []) hello-IsValid refl

-- A shell with three terminals and a pipe, and its child, which shares them all.
abbrev shell : AppInfo
shell = record {
  task_id = 3;
  p_task_id = 0;
  state = run;
  files = some 0 ∷ some 1 ∷ some 2 ∷ some 3 ∷ [];
}

abbrev child : AppInfo
child = record shell { task_id = 4; p_task_id = 3 }

abbrev store : List FileDescriptor
store = terminal 3 9 ∷ terminal 3 9 ∷ terminal 3 9 ∷ pipe_end hello ∷ []

abbrev manager : AppManager
manager = record { apps = shell ∷ child ∷ []; fds = store }

inherits : (new_app 9 (record manager { apps = shell ∷ [] }) 4 3) ≡ manager
unfolding new_app copy_file_descriptor
inherits = refl

exits :
    exit_app manager 4
    ≡ some (
      record {
        apps = shell ∷ record child { state = kill; files = [] } ∷ [];
        fds =
            terminal 3 9
            ∷ terminal 3 9
            ∷ terminal 3 9
            ∷ pipe_end (record hello { closed = true })
            ∷ [];
      },
      (5, error_message 0) ∷ [],
    )
unfolding exit_app exit_loop close_files close_at close_fd close
exits = refl

exit_app-Exited_example :
    (m' : AppManager) × (sent : List Sent) × (exit_app manager 4 ≡ some (m', sent))
    × Exited manager 4 m'
exit_app-Exited_example = exit_app-Exited manager 4 refl

-- A file from which two parts have been read, and one to which three bytes have been written.
abbrev data_file : FatFileDescriptor
data_file = record { id = 7; filename = b'f' ∷ []; rd_off = 6; rd_cluster = 9; wr_off = 3 }

abbrev some_part : ℕ → ReadArg
some_part n = record {
  filename = [];
  fd = 3;
  bytes = take n text;
  len = n;
  count = 16;
  offset = 0;
  cluster = 9;
}

abbrev some_piece : ℕ → WriteArg
some_piece n = record {
  filename = [];
  fd = 3;
  bytes = take n text;
  len = n;
  count = 16;
  offset = 0;
  cluster = 0;
}
