-- ===== src/Fs/Exec/Tests.antt =====
-- A volume with a directory `apps` and a program in it, and the theorems on finding it.
use kin_os.Base.{
  ℕ, ◌++◌, ◌==◌, ◌≡◌, refl, false, none, some, List, [], ◌∷◌, if◌then◌else◌, replicate, arith,
}
use kin_os.Message.{Message, execute_file, ExecuteArg, to_execute, execute_of}
use kin_os.Am.Server.{start_server}
use kin_os.Fs.{Fat, next_cluster, get_fat}
use kin_os.Fs.Names.{name_is_equal}
use kin_os.Fs.Volume.{Bpb, cluster_sector}
use kin_os.Fs.Entry.{first_cluster}
use kin_os.Fs.Data.{Disk, bytes_per_cluster, read_cluster}
use kin_os.Fs.Find.{entry_of, dir_entries, find_name, find_file}
use kin_os.Fs.Find.Laws.{Finds, ends, enters, path_of, find_file-Finds}
use kin_os.Fs.Exec.{Exec, apps, handle_exec}
use kin_os.Fs.Exec.Laws.{by_apps, Answers, handle_exec-Answers}
use kin_os.Fs.Tests.{bpb}

-- Two entries to a cluster.
abbrev small : Bpb
small = record bpb { bytes_per_sector = 64; sectors_per_cluster = 1 }

-- Every chain has one cluster.
abbrev table : Fat
table = record { per_sector = 16; reserved = 32; volume = λ n i. 0x0fffffff; fat = λ i. 0 }

abbrev bytes_of : List ℕ → (attr cluster size : ℕ) → List ℕ
bytes_of name attr cluster size =
    name ++ (attr ∷ replicate 14 0) ++ (cluster ∷ 0 ∷ size ∷ 0 ∷ 0 ∷ 0 ∷ [])

abbrev apps_bytes : List ℕ
apps_bytes = bytes_of (b'A' ∷ b'P' ∷ b'P' ∷ b'S' ∷ replicate 7 0x20) 0x10 3 0

abbrev cat_bytes : List ℕ
cat_bytes = bytes_of (b'C' ∷ b'A' ∷ b'T' ∷ replicate 8 0x20) 0x20 4 9

-- The root is in cluster 2, `apps` in cluster 3.
abbrev disk : Disk
disk n =
    if n == 832
    then apps_bytes ++ replicate 32 0
    else if n == 833
    then cat_bytes ++ replicate 32 0
    else replicate 64 0

abbrev cat : List ℕ
cat = b'c' ∷ b'a' ∷ b't' ∷ []

cat_in : Finds 2 small disk table (cat ∷ []) 3 (some (entry_of cat_bytes)) false
unfolding find_name name_is_equal dir_entries bytes_per_cluster read_cluster cluster_sector
    next_cluster get_fat
cat_in = ends (3 ∷ []) refl (omega arith) (refl, refl, refl)

apps_in : Finds 2 small disk table (apps ∷ []) 0 (some (entry_of apps_bytes)) false
unfolding find_name name_is_equal dir_entries bytes_per_cluster read_cluster cluster_sector
    next_cluster get_fat
apps_in = ends (2 ∷ []) refl (omega arith) (refl, refl, refl)

not_in_root : Finds 2 small disk table (cat ∷ []) 0 none false
unfolding find_name name_is_equal dir_entries bytes_per_cluster read_cluster cluster_sector
    next_cluster get_fat
not_in_root = ends (2 ∷ []) refl (omega arith) (refl, refl, refl)

apps-cat : Finds 2 small disk table (apps ∷ cat ∷ []) 0 (some (entry_of cat_bytes)) false
unfolding find_name name_is_equal dir_entries bytes_per_cluster read_cluster cluster_sector
    next_cluster get_fat first_cluster
apps-cat =
    enters {e = entry_of apps_bytes} (2 ∷ []) refl refl (omega arith) (refl, refl, refl) refl refl
      cat_in

find_file-Finds_example :
    find_file 3 2 small disk table (path_of apps (cat ∷ [])) 0
    ≡ some (some (entry_of cat_bytes), false)
find_file-Finds_example = find_file-Finds 3 2 small disk table apps-cat (omega arith)

abbrev run_cat : ExecuteArg
run_cat = record {
  filename = cat;
  argument = [];
  redirect = 0;
  pipe = 0;
  id = 0;
  exist = 0;
  isdirectory = 0;
}

abbrev request : Message
request = record { type = execute_file; src_task = 4; arg = to_execute run_cat }

handle_exec-Answers_example :
    (x : Exec) × (handle_exec 2 2 small disk table request request none ≡ some x)
    × Answers (some 2) start_server x request none (some (entry_of cat_bytes)) 0
unfolding execute_of first_cluster
handle_exec-Answers_example =
    handle_exec-Answers 2 2 small disk table request request none run_cat cat [] (some 2)
      start_server refl refl (omega arith) (by_apps not_in_root apps_in cat_in)
