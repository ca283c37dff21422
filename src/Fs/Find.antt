-- ===== src/Fs/Find.antt =====
-- `FindFile`, servers/fs/fs.cpp: from a path to the entry of a directory. The pointer to an entry is the entry
-- itself, as it stands in the cluster's buffer when the function returns. The comparison of `name`, an
-- array, with 0 is never true and has no branch here.
use kin_os.Base.{
  ℕ, zero, suc, ◌+◌, ◌*◌, ◌/◌, Bool, true, false, ◌&&◌, not, Option, none, some, List, [], ◌∷◌,
  ◌++◌, ◌==◌, if◌then◌else◌, take, drop, get_or,
}
use kin_os.Fs.{Fat, next_cluster, end_of_chain}
use kin_os.Fs.Names.{name_is_equal}
use kin_os.Fs.Volume.{Bpb}
use kin_os.Fs.Entry.{DirectoryEntry, first_cluster, next_path_element}
use kin_os.Fs.Data.{Disk, read_cluster, bytes_per_cluster}
pub mod Laws

-- Numbers of two and four bytes, the least byte first.
abbrev pub word16 : List ℕ → ℕ → ℕ
word16 bytes i = get_or bytes i 0 + get_or bytes (i + 1) 0 * 256

abbrev pub word32 : List ℕ → ℕ → ℕ
word32 bytes i = word16 bytes i + word16 bytes (i + 2) * 65536

-- The 32 bytes of an entry, read as a `DirectoryEntry`.
abbrev pub entry_of : List ℕ → DirectoryEntry
entry_of bytes = record {
  name = take 11 bytes;
  attr = get_or bytes 11 0;
  ntres = get_or bytes 12 0;
  create_time_tenth = get_or bytes 13 0;
  create_time = word16 bytes 14;
  create_date = word16 bytes 16;
  last_access_date = word16 bytes 18;
  first_cluster_high = word16 bytes 20;
  write_time = word16 bytes 22;
  write_date = word16 bytes 24;
  first_cluster_low = word16 bytes 26;
  file_size = word32 bytes 28;
}

abbrev pub entry_size : ℕ
entry_size = 32

abbrev pub entries_of : ℕ → List ℕ → List DirectoryEntry
entries_of zero bytes = []
entries_of (suc n) bytes = entry_of (take entry_size bytes) ∷ entries_of n (drop entry_size bytes)

-- `dir` and the bound of the inner loop.
unfoldable pub dir_entries : Bpb → Disk → ℕ → List DirectoryEntry
dir_entries b disk cluster =
    entries_of (bytes_per_cluster b / entry_size) (read_cluster b disk cluster)

-- The inner loop: the first entry with the name.
unfoldable pub find_name : List ℕ → List DirectoryEntry → Option DirectoryEntry
find_name name [] = none
find_name name (e ∷ es) = if name_is_equal e.name name then some e else find_name name es

-- The outer loop; `none` if the fuel runs out.
unfoldable pub scan_directory :
    ℕ
    → Bpb
    → Disk
    → Fat
    → (name : List ℕ) → (directory_cluster : ℕ) → Option (Option DirectoryEntry)
unfolding find_name
scan_directory zero b disk s name cluster = none
scan_directory (suc fuel) b disk s name cluster = elim (cluster == end_of_chain) [
  | true ↦ some none
  | false ↦ elim (find_name name (dir_entries b disk cluster)) [
    | some e ↦ some (some e)
    | none ↦ let (next, s') = next_cluster s cluster in scan_directory fuel b disk s' name next
  ]
]

abbrev pub directory : ℕ
directory = 0x10

-- The path without a leading slash, and the cluster from which it is followed.
abbrev pub begin : Bpb → List ℕ → ℕ → List ℕ × ℕ
begin b [] cluster = ([], if cluster == 0 then b.root_cluster else cluster)
begin b (c ∷ cs) cluster =
    if c == b'/'
    then (cs, b.root_cluster)
    else (c ∷ cs, if cluster == 0 then b.root_cluster else cluster)

abbrev pub path_last : Option (List ℕ) → Bool
path_last none = true
path_last (some []) = true
path_last (some (c ∷ cs)) = false

abbrev pub post_slash : Option (List ℕ) → Bool
post_slash none = false
post_slash (some next) = true

-- What follows the element in an entry that has its name.
abbrev pub rest_of : Option (List ℕ) → List ℕ
rest_of none = []
rest_of (some next) = next

-- The size of `path_elem`.
abbrev pub path_elem_size : ℕ
path_elem_size = 13

-- `depth` bounds the calls of itself, `fuel` each loop. `none` is also an element of more than 12
-- characters, which does not fit into `path_elem`.
unfoldable pub find_file :
    (depth fuel : ℕ)
    → Bpb
    → Disk
    → Fat
    → (path : List ℕ) → (directory_cluster : ℕ) → Option (Option DirectoryEntry × Bool)
unfolding scan_directory
find_file zero fuel b disk s path cluster = none
find_file (suc depth) fuel b disk s path cluster =
    let (path', cluster') = begin b path cluster in
    elim (next_path_element path_elem_size path') [
      | none ↦ none
      | some (path_elem, next) ↦ elim (scan_directory fuel b disk s path_elem cluster') [
        | none ↦ none
        | some none ↦ some (none, post_slash next)
        | some (some e) ↦ elim ((e.attr == directory) && not (path_last next)) [
          | true ↦ find_file depth fuel b disk s (rest_of next) (first_cluster e)
          | false ↦ some (some e, post_slash next)
        ]
      ]
    ]
