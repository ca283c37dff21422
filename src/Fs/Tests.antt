-- ===== src/Fs/Tests.antt =====
-- A small volume and some names, and the theorems at such inputs.
use kin_os.Base.{ℕ, ◌≡◌, refl, true, Option, some, List, [], ◌∷◌, ◌==◌, if◌then◌else◌, arith}
use kin_os.Fs.{Fat, set_entry, extend_cluster, allocate_cluster_chain}
use kin_os.Fs.Table.{entry, entry-set_entry}
use kin_os.Fs.Chain.{Leads, at_end, link, count_free}
use kin_os.Fs.Extend.{
  Extended, extend_cluster-Extended, Allocated, allocate_cluster_chain-Allocated,
}
use kin_os.Fs.Names.{name_is_equal, set_file_name, full_name, name_is_equal-set_file_name}
use kin_os.Fs.Entry.{split_element}
use kin_os.Fs.Volume.{Bpb}

abbrev pub sector : ℕ → ℕ → ℕ
sector n i =
    if n == 33
    then 0
    else if i == 0
    then 0x0ffffff8
    else if i == 1
    then 0x0fffffff
    else if i == 2
    then 3
    else 0x0fffffff

-- Four entries to a sector and 32 reserved sectors: the chain of cluster 2 is 2, 3, and 4 to 7 are free.
abbrev pub volume : Fat
volume = record { per_sector = 4; reserved = 32; volume = sector; fat = λ i. 0 }

chain_of_two : Leads volume 1 2 3
unfolding entry
chain_of_two = link refl (at_end refl)

four_free : count_free volume 2 6 ≡ 4
unfolding count_free entry
four_free = refl

entry-set_entry_example : entry (set_entry volume 5 9) 6 ≡ (if 5 == 6 then 9 else entry volume 6)
entry-set_entry_example = entry-set_entry volume 5 9 6

extend_cluster-Extended_example : Extended volume 3 2 (extend_cluster 6 volume 2 2)
extend_cluster-Extended_example =
    extend_cluster-Extended 6 volume 1 2 3 2 chain_of_two (omega arith) (omega (arith, four_free))
      (omega arith)

allocate_cluster_chain-Allocated_example : Allocated volume 3 (allocate_cluster_chain 6 volume 3)
allocate_cluster_chain-Allocated_example =
    allocate_cluster_chain-Allocated 6 volume 3 (omega arith) (omega (arith, four_free))
      (omega arith) (omega arith)

abbrev readme : List ℕ
readme = b'r' ∷ b'e' ∷ b'a' ∷ b'd' ∷ b'm' ∷ b'e' ∷ []

abbrev txt : Option (List ℕ)
txt = some (b't' ∷ b'x' ∷ b't' ∷ [])

name_is_equal-set_file_name_example :
    name_is_equal (set_file_name (full_name readme txt)) (full_name readme txt) ≡ true
name_is_equal-set_file_name_example =
    name_is_equal-set_file_name readme txt (refl, omega arith, refl, omega arith)

-- Eleven characters without a dot are taken for eight and three.
confuses :
    name_is_equal
      (set_file_name
        (b'a' ∷ b'b' ∷ b'c' ∷ b'd' ∷ b'e' ∷ b'f' ∷ b'g' ∷ b'h' ∷ b'.' ∷ b't' ∷ b'x' ∷ b't' ∷ []))
      (b'a' ∷ b'b' ∷ b'c' ∷ b'd' ∷ b'e' ∷ b'f' ∷ b'g' ∷ b'h' ∷ b't' ∷ b'x' ∷ b't' ∷ [])
    ≡ true
unfolding name_is_equal set_file_name
confuses = refl

abbrev path : List ℕ
path = b'a' ∷ b'm' ∷ b'/' ∷ b'x' ∷ b'/' ∷ []

elements : split_element path ≡ (b'a' ∷ b'm' ∷ [], some (b'x' ∷ b'/' ∷ []))
unfolding split_element
elements = refl

abbrev pub bpb : Bpb
bpb = record {
  jump_boot = [];
  oem_name = [];
  bytes_per_sector = 512;
  sectors_per_cluster = 2;
  reserved_sector_count = 32;
  num_fats = 2;
  root_entry_count = 0;
  total_sectors_16 = 0;
  media = 0xf8;
  fat_size_16 = 0;
  sectors_per_track = 32;
  num_heads = 8;
  hidden_sectors = 0;
  total_sectors_32 = 100000;
  fat_size_32 = 400;
  ext_flags = 0;
  fs_version = 0;
  root_cluster = 2;
  fs_info = 1;
  backup_boot_sector = 6;
  reserved = [];
  drive_number = 128;
  reserved1 = 0;
  boot_signature = 41;
  volume_id = 0;
  volume_label = [];
  fs_type = [];
}
