-- ===== src/Fs.antt =====
-- The file system server's allocation table, servers/fs/fs.cpp: a FAT of 32-bit entries on the volume,
-- of which the server holds one sector at a time in the buffer `fat_`.
--
-- `volume s i` is entry `i` of the sector `s`. The system calls that read and write a sector are not
-- code of the server: reading one copies it to the buffer and writing one copies the buffer to it, and
-- both succeed (the server does not look at their errors here).
use kin_os.Base.{
  ℕ, zero, suc, ◌+◌, ◌-◌, ◌*◌, ◌/◌, ◌%◌, ◌^◌, Bool, true, false, Option, none, some, List, [], ◌∷◌,
  ◌==◌, ltb, leb, if◌then◌else◌,
}
pub mod Table
pub mod Chain
pub mod Extend
pub mod Names
pub mod Entry
pub mod Volume
pub mod Data
pub mod Find
pub mod Exec
pub mod Load
pub mod Read
pub mod Tests

-- Of the `BPB`: `bytes_per_sector / sizeof(uint32_t)` and `reserved_sector_count`.
pub record Fat : Type 0 where
  pub per_sector : ℕ
  pub reserved : ℕ
  pub volume : ℕ → ℕ → ℕ
  pub fat : ℕ → ℕ

abbrev pub read_volume_image : Fat → ℕ → ℕ → ℕ
read_volume_image s sector = s.volume sector

abbrev pub copy_to_volume_image : Fat → ℕ → ℕ → ℕ → ℕ
copy_to_volume_image s sector j = if sector == j then s.fat else s.volume j

abbrev pub sector_of : Fat → ℕ → ℕ
sector_of s cluster = s.reserved + cluster / s.per_sector

abbrev pub index_of : Fat → ℕ → ℕ
index_of s cluster = cluster - s.per_sector * (cluster / s.per_sector)

-- `GetFAT`: the cluster's sector is in the buffer; its place there.
unfoldable pub get_fat : Fat → ℕ → ℕ × Fat
get_fat s cluster =
    (index_of s cluster, record s { fat = read_volume_image s (sector_of s cluster) })

unfoldable pub update_fat : Fat → ℕ → Fat
update_fat s cluster = record s { volume = copy_to_volume_image s (sector_of s cluster) }

-- `fat_[index] = value`, in 32 bits.
abbrev pub store : Fat → ℕ → ℕ → Fat
store s index value = record s { fat = λ j. if index == j then value % 2 ^ 32 else s.fat j }

abbrev pub end_of_chain : ℕ
end_of_chain = 0x0fffffff

abbrev pub is_end : ℕ → Bool
is_end next = leb 0x0ffffff8 next

unfoldable pub next_cluster : Fat → ℕ → ℕ × Fat
unfolding get_fat
next_cluster s cluster =
    let (index, s') = get_fat s cluster in
    (if is_end (s'.fat index) then end_of_chain else s'.fat index, s')

-- `GetFAT(cluster)`, `fat_[..] = value` and `UpdateFAT(cluster)`.
unfoldable pub set_entry : Fat → ℕ → ℕ → Fat
unfolding get_fat update_fat
set_entry s cluster value =
    let (index, s') = get_fat s cluster in update_fat (store s' index value) cluster

-- The first loop of `ExtendCluster`: to the end of the chain.
unfoldable pub find_end : ℕ → Fat → ℕ → Option (ℕ × Fat)
unfolding get_fat
find_end zero s cluster = none
find_end (suc fuel) s cluster =
    let (index, s') = get_fat s cluster in
    let rest = find_end fuel s' (s'.fat index) in
    if is_end (s'.fat index) then some (cluster, s') else rest

-- The second: the first `n` free clusters from `candidate` on are linked behind `current`; the last of
-- them is the answer.
unfoldable pub link_free : ℕ → Fat → ℕ → ℕ → ℕ → Option (ℕ × Fat)
unfolding get_fat set_entry
link_free fuel s candidate current zero = some (current, s)
link_free zero s candidate current (suc n) = none
link_free (suc fuel) s candidate current (suc n) =
    let (i, s') = get_fat s candidate in
    let skipped = link_free fuel s' (candidate + 1) current (suc n) in
    let linked = link_free fuel (set_entry s' current candidate) (candidate + 1) candidate n in
    if s'.fat i == 0 then linked else skipped

-- `ExtendCluster`; the fuel bounds both loops.
unfoldable pub extend_cluster : ℕ → Fat → ℕ → ℕ → Option (ℕ × Fat)
unfolding find_end link_free set_entry
extend_cluster fuel s eoc_cluster n = elim (find_end fuel s eoc_cluster) [
  | none ↦ none
  | some (eoc, s1) ↦ elim (link_free fuel s1 2 eoc n) [
    | none ↦ none
    | some (current, s2) ↦ some (current, set_entry s2 current end_of_chain)
  ]
]

-- The loop of `AllocateClusterChain`: the first free cluster becomes a chain of its own.
unfoldable pub find_free : ℕ → Fat → ℕ → Option (ℕ × Fat)
unfolding get_fat update_fat
find_free zero s first_cluster = none
find_free (suc fuel) s first_cluster =
    let (i, s') = get_fat s first_cluster in
    let rest = find_free fuel s' (first_cluster + 1) in
    if s'.fat i == 0
    then some (first_cluster, update_fat (store s' i end_of_chain) first_cluster)
    else rest

unfoldable pub allocate_cluster_chain : ℕ → Fat → ℕ → Option (ℕ × Fat)
unfolding find_free extend_cluster
allocate_cluster_chain fuel s n = elim (find_free fuel s 2) [
  | none ↦ none
  | some (first_cluster, s1) ↦
      if ltb 1 n
      then elim (extend_cluster fuel s1 first_cluster (n - 1)) [
        | none ↦ none
        | some (last, s2) ↦ some (first_cluster, s2)
      ]
      else some (first_cluster, s1)
]
