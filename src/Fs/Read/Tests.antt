-- ===== src/Fs/Read/Tests.antt =====
-- A file of 20 bytes in two clusters of 16, and the theorems on reading and loading it.
use kin_os.Base.{◌-◌, ◌≡◌, refl, false, none, some, List, [], ◌∷◌, ◌++◌, take, replicate, arith}
use kin_os.Error.{success}
use kin_os.Message.{Message, read_file, ReadArg, to_read, read_of}
use kin_os.Task.{Task, TaskManager, find_task}
use kin_os.Task.Buffer.{expand_task_buffer}
use kin_os.Am.Fat.{read_fat, read_request, make_fat}
use kin_os.Am.Fat.Laws.{parts, passed_on, read_on}
use kin_os.Fs.{next_cluster, get_fat}
use kin_os.Fs.Volume.{Bpb, cluster_sector}
use kin_os.Fs.Entry.{DirectoryEntry, first_cluster}
use kin_os.Fs.Data.{Disk, Walk, content, IsFull, bytes_per_cluster, read_cluster}
use kin_os.Fs.Load.{copy_to_buffer}
use kin_os.Fs.Load.Laws.{copy_to_buffer-loads}
use kin_os.Fs.Read.{read_file_data, read_clusters, read_bytes, read_byte, put_byte}
use kin_os.Fs.Read.Laws.{bodies, least}
use kin_os.Fs.Read.File.{read_fat-read_file_data}
use kin_os.Fs.Tests.{volume, bpb}

abbrev small : Bpb
small = record bpb { bytes_per_sector = 16; sectors_per_cluster = 1 }

abbrev disk : Disk
disk n = replicate 16 n

disk-IsFull : IsFull small disk
disk-IsFull n = refl

abbrev notes : DirectoryEntry
notes = record {
  name = replicate 11 0x20;
  attr = 0x20;
  ntres = 0;
  create_time_tenth = 0;
  create_time = 0;
  create_date = 0;
  last_access_date = 0;
  first_cluster_high = 0;
  write_time = 0;
  write_date = 0;
  first_cluster_low = 2;
  file_size = 20;
}

notes-Walk : Walk volume (first_cluster notes) (2 ∷ 3 ∷ [])
unfolding first_cluster next_cluster get_fat
notes-Walk = (refl, refl, (refl, refl, refl))

abbrev blank : ReadArg
blank = record {
  filename = [];
  fd = 0;
  bytes = replicate 16 0;
  len = 0;
  count = 0;
  offset = 0;
  cluster = 0;
}

-- All 20 bytes, in a message of 16 and one of 4.
reads_all :
    read_file_data 3 small disk volume notes 100 0 blank
    ≡ some (
      record blank { bytes = replicate 16 832; len = 16 }
          ∷ record blank { bytes = replicate 4 833 ++ replicate 12 832; len = 4 }
          ∷ [],
      record blank { bytes = replicate 4 833 ++ replicate 12 832; len = 0 },
    )
unfolding read_file_data read_clusters read_bytes read_byte put_byte first_cluster next_cluster
    get_fat read_cluster bytes_per_cluster cluster_sector
reads_all = refl

abbrev ask : ReadArg
ask = record blank { fd = 3; count = 100 }

abbrev asks : Message
asks = record { type = read_file; src_task = 7; arg = to_read ask }

read_fat-read_file_data_example :
    (sent : List ReadArg) × (last : ReadArg) × (read_file_data 3 small disk volume notes 100 0 blank
      ≡ some (sent, last))
    × (read_fat (some 2) (make_fat 7 (b'n' ∷ [])) asks (parts 2 sent last)
        ≡ some (
          read_on sent (make_fat 7 (b'n' ∷ [])),
          (2, read_request (make_fat 7 (b'n' ∷ [])) asks ask) ∷ passed_on 7 (parts 2 sent last),
        ))
    × (bodies sent ≡ take (least (20 - 0) 100) (content small disk (2 ∷ 3 ∷ [])))
unfolding read_of
read_fat-read_file_data_example =
    read_fat-read_file_data 3 2 small disk volume notes (make_fat 7 (b'n' ∷ [])) asks ask blank []
      (2 ∷ 3 ∷ []) refl (omega arith) (omega arith) disk-IsFull notes-Walk (omega arith)
      (omega arith) refl

abbrev task : Task
task = record { id = 3; name = []; msgs = []; level = 1; running = false; buf = []; context = none }

-- The kernel with the new task alone.
abbrev alone : TaskManager
alone = record {
  tasks = task ∷ [];
  latest_id = 3;
  running = λ level. [];
  current_level = 0;
  level_changed = false;
  finish_tasks = λ id. none;
  finish_waiter = λ id. none;
}

third : find_task 3 alone.tasks ≡ some task
third = refl

copy_to_buffer-loads_example :
    (tm1 : TaskManager) × (tm' : TaskManager) × (expand_task_buffer alone 3 20 ≡ (success, tm1))
    × (copy_to_buffer 3 small disk volume 3 tm1 notes ≡ some tm')
    × (find_task 3 tm'.tasks
        ≡ some (record task { buf = take 20 (content small disk (2 ∷ 3 ∷ [])) }))
unfolding bytes_per_cluster
copy_to_buffer-loads_example =
    copy_to_buffer-loads 3 small disk volume alone 3 task notes (2 ∷ 3 ∷ []) (omega arith)
      disk-IsFull notes-Walk (omega arith, omega arith) (omega arith) third
