-- ===== src/Fs/Data.antt =====
-- The bytes of files, servers/fs/fs.cpp: `ReadCluster` and the walk along a chain of clusters by
-- `NextCluster`. What is read is never written here, so that the table (entries of 32 bits, in `Fat`) and
-- the bytes of the sectors, `disk`, are two views of one volume; every read of it succeeds.
use kin_os.Base.{
  ℕ, zero, suc, ◌+◌, ◌*◌, ◌≡◌, Bool, true, false, ◌||◌, List, [], ◌∷◌, ◌++◌, ◌==◌, not, length,
  arith, length-append,
}
use kin_os.Fs.{Fat, next_cluster, end_of_chain, get_fat}
use kin_os.Fs.Volume.{Bpb, cluster_sector}

abbrev pub Disk : Type 0
Disk = ℕ → List ℕ

abbrev pub sectors : Disk → ℕ → ℕ → List ℕ
sectors disk first zero = []
sectors disk first (suc n) = disk first ++ sectors disk (first + 1) n

-- `ReadCluster`: the bytes in `cluster_buf_`.
unfoldable pub read_cluster : Bpb → Disk → ℕ → List ℕ
read_cluster b disk cluster = sectors disk (cluster_sector b cluster) b.sectors_per_cluster

unfoldable pub bytes_per_cluster : Bpb → ℕ
bytes_per_cluster b = b.bytes_per_sector * b.sectors_per_cluster

-- `cluster != 0 && cluster != 0x0ffffffflu`.
abbrev pub is_data : ℕ → Bool
is_data cluster = not ((cluster == 0) || (cluster == end_of_chain))

-- The walk from `c` goes through `cs`, and ends behind them.
abbrev pub Walk : Fat → ℕ → List ℕ → Type 0
Walk s c [] = is_data c ≡ false
Walk s c (d ∷ ds) = (c ≡ d) × (is_data c ≡ true) × Walk s (next_cluster s c).0 ds

-- What the clusters hold.
abbrev pub content : Bpb → Disk → List ℕ → List ℕ
content b disk [] = []
content b disk (c ∷ cs) = read_cluster b disk c ++ content b disk cs

-- Every sector of the disk has its bytes.
abbrev pub IsFull : Bpb → Disk → Type 0
IsFull b disk = (sector : ℕ) → length (disk sector) ≡ b.bytes_per_sector

length-sectors :
    (b : Bpb) (disk : Disk) (first n : ℕ)
    → IsFull b disk
    → length (sectors disk first n) ≡ b.bytes_per_sector * n
length-sectors b disk first zero f = omega arith
length-sectors b disk first (suc n) f =
    let e = length-append (disk first) (sectors disk (first + 1) n) in
    let h = length-sectors b disk (first + 1) n f in grind (arith, e, h, f first)

pub length-read_cluster :
    (b : Bpb) (disk : Disk) (c : ℕ)
    → IsFull b disk
    → length (read_cluster b disk c) ≡ bytes_per_cluster b
unfolding read_cluster bytes_per_cluster
length-read_cluster b disk c f = length-sectors b disk (cluster_sector b c) b.sectors_per_cluster f

-- The sector of the table that is in the buffer does not matter for the walk.
pub Walk-buffer : (s : Fat) (c d : ℕ) (cs : List ℕ) → Walk s d cs → Walk (next_cluster s c).1 d cs
unfolding next_cluster get_fat
Walk-buffer s c d [] w = w
Walk-buffer s c d (e ∷ cs) w = (w.0, w.1, Walk-buffer s c (next_cluster s d).0 cs w.2)
