-- ===== src/Fs/Read.antt =====
-- The part of `ReadState::HandleMessage`, servers/fs/serverstate.cpp, that reads a file: byte by byte along
-- its clusters, in messages of 16 bytes. `p` is a place in the buffer of the cluster; a cluster has
-- at least the bytes that are read of it. `sent` are the messages' members `arg.read`.
use mathlib.Core.Option
use kin_os.Base.{
  ℕ, zero, suc, ◌+◌, ◌-◌, Bool, true, false, ◌&&◌, Option, none, some, List, [], ◌∷◌, ◌++◌, ◌==◌,
  leb, ltb, set, get_or,
}
use kin_os.Message.{ReadArg}
use kin_os.Fs.{Fat, next_cluster}
use kin_os.Fs.Volume.{Bpb}
use kin_os.Fs.Entry.{DirectoryEntry, first_cluster}
use kin_os.Fs.Data.{Disk, read_cluster, bytes_per_cluster, is_data}
pub mod Laws
pub mod Clusters
pub mod File
mod Tests

pub record Reading : Type 0 where
  pub p : ℕ
  pub msg_offset : ℕ
  pub sent_bytes : ℕ
  pub total : ℕ
  pub arg : ReadArg
  pub sent : List ReadArg

abbrev pub msg_size : ℕ
msg_size = 16

-- `sm_` with this many bytes.
abbrev pub send_read : ℕ → Reading → Reading
send_read len r =
    let a = record r.arg { len = len } in
    record r { arg = a; sent = r.sent ++ (a ∷ []); msg_offset = 0 }

-- One byte goes to the message, which is sent when it is full.
unfoldable pub put_byte : ℕ → Reading → Reading
put_byte x r =
    let r1 = record r {
      arg = record r.arg { bytes = set r.arg.bytes r.msg_offset x };
      p = r.p + 1;
      msg_offset = r.msg_offset + 1;
      sent_bytes = r.sent_bytes + 1;
    } in
    elim (r1.msg_offset == msg_size) [ true ↦ send_read msg_size r1 | false ↦ r1 ]

-- One round of the inner loop.
unfoldable pub read_byte : List ℕ → (read_offset : ℕ) → Reading → Reading
unfolding put_byte
read_byte buf read_offset r =
    let r1 : Reading = elim (leb read_offset r.total) [
      | true ↦ put_byte (get_or buf r.p 0) r
      | false ↦ r
    ] in
    record r1 { total = r1.total + 1 }

-- The inner loop, from `i` on, `k` bytes before the end of the cluster; and `i` behind it.
unfoldable pub read_bytes : ℕ → List ℕ → (remain count read_offset i : ℕ) → Reading → Reading × ℕ
unfolding read_byte
read_bytes zero buf remain count read_offset i r = (r, i)
read_bytes (suc k) buf remain count read_offset i r =
    elim (ltb i remain && ltb r.sent_bytes count) [
      | true ↦ read_bytes k buf remain count read_offset (i + 1) (read_byte buf read_offset r)
      | false ↦ (r, i)
    ]

-- The outer loop; `none` if the fuel runs out.
unfoldable pub read_clusters :
    ℕ → Bpb → Disk → Fat → (count read_offset cluster remain : ℕ) → Reading → Option Reading
unfolding read_bytes
read_clusters zero b disk s count read_offset cluster remain r = none
read_clusters (suc fuel) b disk s count read_offset cluster remain r =
    elim (is_data cluster && ltb r.sent_bytes count) [
      | true ↦
          let (r1, i) =
            read_bytes (bytes_per_cluster b) (read_cluster b disk cluster) remain count read_offset
              0 (record r { p = 0 }) in
          let (next, s') = next_cluster s cluster in
          read_clusters fuel b disk s' count read_offset next (remain - i) r1
      | false ↦ some r
    ]

-- What is left goes out, and `sm_` is the empty message that `InitState` sends.
abbrev pub finish : Reading → List ReadArg × ReadArg
finish r =
    let r1 : Reading = elim (r.msg_offset == 0) [ true ↦ r | false ↦ send_read r.msg_offset r ] in
    (r1.sent, record r1.arg { len = 0 })

abbrev pub start_reading : ReadArg → Reading
start_reading a = record { p = 0; msg_offset = 0; sent_bytes = 0; total = 0; arg = a; sent = [] }

-- `arg` is `sm_.arg.read` before the call.
unfoldable pub read_file_data :
    ℕ
    → Bpb
    → Disk
    → Fat
    → DirectoryEntry
    → (count read_offset : ℕ) → ReadArg
    → Option (List ReadArg × ReadArg)
unfolding read_clusters
read_file_data fuel b disk s e count read_offset arg = Option.map finish (
    read_clusters fuel b disk s count read_offset (first_cluster e) e.file_size (start_reading arg))
