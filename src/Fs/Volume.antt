-- ===== src/Fs/Volume.antt =====
-- The layout of a volume, servers/fs/fs.hpp and servers/fs/fs.cpp: the parameters in its first sector, and
-- where the sectors of a cluster are. `unsigned long` has 64 bits.
use kin_os.Base.{ℕ, ◌+◌, ◌-◌, ◌*◌, ◌/◌, ◌%◌, ◌^◌, ◌≤◌, ◌<◌, ◌≡◌, List, arith}
use kin_os.Fs.{Fat}

pub record Bpb : Type 0 where
  pub jump_boot : List ℕ
  pub oem_name : List ℕ
  pub bytes_per_sector : ℕ
  pub sectors_per_cluster : ℕ
  pub reserved_sector_count : ℕ
  pub num_fats : ℕ
  pub root_entry_count : ℕ
  pub total_sectors_16 : ℕ
  pub media : ℕ
  pub fat_size_16 : ℕ
  pub sectors_per_track : ℕ
  pub num_heads : ℕ
  pub hidden_sectors : ℕ
  pub total_sectors_32 : ℕ
  pub fat_size_32 : ℕ
  pub ext_flags : ℕ
  pub fs_version : ℕ
  pub root_cluster : ℕ
  pub fs_info : ℕ
  pub backup_boot_sector : ℕ
  pub reserved : List ℕ
  pub drive_number : ℕ
  pub reserved1 : ℕ
  pub boot_signature : ℕ
  pub volume_id : ℕ
  pub volume_label : List ℕ
  pub fs_type : List ℕ

-- The table of a volume: an entry has four bytes.
unfoldable pub fat_of : Bpb → (ℕ → ℕ → ℕ) → (ℕ → ℕ) → Fat
fat_of b volume fat = record {
  per_sector = b.bytes_per_sector / 4;
  reserved = b.reserved_sector_count;
  volume = volume;
  fat = fat;
}

-- `sector_offset` of `ReadCluster` and `UpdateCluster`: the cluster's first sector.
unfoldable pub cluster_sector : Bpb → ℕ → ℕ
cluster_sector b cluster =
    (b.reserved_sector_count
      + b.num_fats * b.fat_size_32
      + (cluster + 2 ^ 64 - 2) % 2 ^ 64 * b.sectors_per_cluster)
    % 2 ^ 64

next_multiple : (i j m : ℕ) → i < j → i * m + m ≤ j * m
next_multiple i j m lt = let le : i + 1 ≤ j = omega arith in grind arith

cluster_sector-exact :
    (b : Bpb) (c : ℕ)
    → 2 ≤ c
    → c < 2 ^ 32
    → b.reserved_sector_count + b.num_fats * b.fat_size_32 + (c - 2) * b.sectors_per_cluster
      < 2 ^ 64
    → cluster_sector b c
      ≡ b.reserved_sector_count + b.num_fats * b.fat_size_32 + (c - 2) * b.sectors_per_cluster
unfolding cluster_sector
cluster_sector-exact b c two lt fits =
    let e : (c + 2 ^ 64 - 2) % 2 ^ 64 ≡ c - 2 = omega arith in rw e (omega arith)

-- On a volume of less than 2^64 sectors the sectors of a cluster come behind the tables and end before those
-- of every later cluster begin: a cluster's buffer never reads or writes into another's, or into a table.
pub cluster_sector_disjoint :
    (b : Bpb) (c d : ℕ)
    → 2 ≤ c
    → c < d
    → d < 2 ^ 32
    → b.reserved_sector_count + b.num_fats * b.fat_size_32 + (d - 2) * b.sectors_per_cluster
      < 2 ^ 64
    → (b.reserved_sector_count + b.num_fats * b.fat_size_32 ≤ cluster_sector b c)
      × (cluster_sector b c + b.sectors_per_cluster ≤ cluster_sector b d)
cluster_sector_disjoint b c d two lt small fits =
    let step : (c - 2) * b.sectors_per_cluster + b.sectors_per_cluster
        ≤ (d - 2) * b.sectors_per_cluster =
      next_multiple (c - 2) (d - 2) b.sectors_per_cluster (omega arith) in
    let ec = cluster_sector-exact b c two (omega arith) (omega (arith, step)) in
    let ed = cluster_sector-exact b d (omega arith) small fits in
    (omega (arith, ec), omega (arith, ec, ed, step))
