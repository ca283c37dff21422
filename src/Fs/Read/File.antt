-- ===== src/Fs/Read/File.antt =====
-- A read of a file, from the request of an application to the bytes that it gets: the file system server's
-- messages, and the application manager that passes them on.
use mathlib.Core.Option
use mathlib.Core.List.{append-nil}
use kin_os.Base.{
  ℕ, ◌-◌, ◌*◌, ◌≤◌, ◌<◌, ◌≡◌, refl, sym, ap, ◌∙◌, true, Option, some, List, [], ◌∷◌, ◌++◌, ◌==◌,
  length, take, arith, Bool-cases, inl, inr,
}
use kin_os.Message.{Message, ReadArg, read_of}
use kin_os.Am.Fat.{FatFileDescriptor, read_fat, read_request}
use kin_os.Am.Fat.Laws.{all_full, parts, passed_on, read_on, read_fat_all}
use kin_os.Fs.{Fat}
use kin_os.Fs.Volume.{Bpb}
use kin_os.Fs.Entry.{DirectoryEntry, first_cluster}
use kin_os.Fs.Data.{Disk, bytes_per_cluster, Walk, content, IsFull}
use kin_os.Fs.Read.{Reading, msg_size, finish, start_reading, read_file_data}
use kin_os.Fs.Read.Laws.{bodies, payload, IsReading, least, bodies-append, all_full-append}
use kin_os.Fs.Read.Clusters.{read_from}

finish_lem :
    (r : Reading)
    → IsReading r
    → (bodies (finish r).0 ≡ payload r) × (all_full (finish r).0 ≡ true) × ((finish r).1.len ≡ 0)
finish_lem r g = elim (Bool-cases (r.msg_offset == 0)) [
  | inl z ↦
      let k : r.msg_offset ≡ 0 = ground arith in
      rw (finish, z)
        (
          sym (append-nil (bodies r.sent)) ∙ ap (λ n. bodies r.sent ++ take n r.arg.bytes) (sym k),
          g.full,
          refl,
        )
  | inr n ↦
      let last : ReadArg = record r.arg { len = r.msg_offset } in
      rw (finish, n)
        (
          bodies-append r.sent (last ∷ [])
              ∙ ap (λ zs. bodies r.sent ++ zs) (append-nil (take r.msg_offset r.arg.bytes)),
          all_full-append r.sent last g.full n,
          refl,
        )
]

map-some :
    (f : Reading → List ReadArg × ReadArg) (o : Option Reading) (r : Reading)
    → o ≡ some r
    → Option.map f o ≡ some (f r)
map-some f o r e = ap (Option.map f) e

-- A read of at least one byte of a file, from an offset inside it at which one of its clusters begins,
-- returns: the messages, all with bytes, hold together just the bytes of the file from that cluster on, as
-- many as were asked for or as the file still has, and an empty message is left for the end. Fuel for one
-- round more than there are clusters is enough.
pub read_file_data_lem :
    (fuel : ℕ) (b : Bpb) (disk : Disk) (s : Fat) (e : DirectoryEntry) (count : ℕ) (arg : ReadArg)
    (skipped cs : List ℕ)
    → length (skipped ++ cs) < fuel
    → IsFull b disk
    → Walk s (first_cluster e) (skipped ++ cs)
    → 0 < count
    → length skipped * bytes_per_cluster b ≤ e.file_size
    → length arg.bytes ≡ msg_size
    → (sent : List ReadArg) × (last : ReadArg) × (read_file_data fuel b disk s e count
          (length skipped * bytes_per_cluster b)
          arg
        ≡ some (sent, last))
      × (bodies sent
          ≡ take
              (least (e.file_size - length skipped * bytes_per_cluster b) count)
              (content b disk cs))
      × (all_full sent ≡ true)
      × (last.len ≡ 0)
unfolding read_file_data
read_file_data_lem fuel b disk s e count arg skipped cs lt f w c fits size =
    let off : ℕ = length skipped * bytes_per_cluster b in
    let (r, x, g, p) =
      read_from b disk f count off fuel s (first_cluster e) e.file_size (start_reading arg) skipped
        cs lt w (record { small = omega arith; size = size; full = refl }) c (omega arith) fits in
    let (bytes, full, empty) = finish_lem r g in
    let z : count - 0 ≡ count = omega arith in
    (
      (finish r).0,
      (finish r).1,
      map-some finish _ r x,
      bytes ∙ (p ∙ ap (λ k. take (least (e.file_size - off) k) (content b disk cs)) z),
      full,
      empty,
    )

-- From the request to the bytes: when the application manager passes on a read of a descriptor whose place is
-- the beginning of a cluster of the file, and the file system server answers it with the messages of
-- `ReadState`, then the application gets these messages, which hold together just the bytes of the
-- file from the place on, as many as it asked for or as are there.
pub read_fat-read_file_data :
    (fuel fs : ℕ) (b : Bpb) (disk : Disk) (s : Fat) (e : DirectoryEntry) (fd : FatFileDescriptor)
    (msg : Message) (a arg : ReadArg) (skipped cs : List ℕ)
    → read_of msg.arg ≡ some a
    → fd.rd_off ≡ length skipped * bytes_per_cluster b
    → length (skipped ++ cs) < fuel
    → IsFull b disk
    → Walk s (first_cluster e) (skipped ++ cs)
    → 0 < a.count
    → fd.rd_off ≤ e.file_size
    → length arg.bytes ≡ msg_size
    → (sent : List ReadArg) × (last : ReadArg) × (read_file_data fuel b disk s e a.count fd.rd_off
          arg
        ≡ some (sent, last))
      × (read_fat (some fs) fd msg (parts fs sent last)
          ≡ some
              (read_on sent fd, (fs, read_request fd msg a) ∷ passed_on fd.id (parts fs sent last)))
      × (bodies sent ≡ take (least (e.file_size - fd.rd_off) a.count) (content b disk cs))
read_fat-read_file_data fuel fs b disk s e fd msg a arg skipped cs r place lt f w c fits size =
    let (sent, last, x, bytes, full, empty) =
      read_file_data_lem fuel b disk s e a.count arg skipped cs lt f w c (omega (arith, place))
        size in
    (
      sent,
      last,
      ap (λ k. read_file_data fuel b disk s e a.count k arg) place ∙ x,
      (read_fat_all fs fd msg a sent last r full empty).0,
      bytes ∙ ap (λ k. take (least (e.file_size - k) a.count) (content b disk cs)) (sym place),
    )
