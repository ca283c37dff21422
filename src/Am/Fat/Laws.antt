-- ===== src/Am/Fat/Laws.antt =====
-- Reading and writing through a descriptor for a file: everything is passed on, from where the last call
-- ended, and the descriptor moves on by what went through.
use kin_os.Base.{ℕ, ◌+◌, ◌≡◌, some, List, [], ◌∷◌, ◌++◌, ◌==◌, Bool, true, arith, ◌&&◌, not}
use kin_os.Message.{
  Message, read_file, write_file, ReadArg, WriteArg, read_of, write_of, to_read, to_write,
}
use kin_os.Am.Pipe.{Sent, received_message}
use kin_os.Am.Fat.{
  FatFileDescriptor, advance_read, read_loop, read_request, read_fat, write_loop, write_fat,
}

abbrev pub part : ℕ → ReadArg → Message
part fs a = record { type = read_file; src_task = fs; arg = to_read a }

-- The answers of the file system server to one request: parts with bytes, and an empty one.
abbrev pub parts : ℕ → List ReadArg → ReadArg → List Message
parts fs [] last = part fs last ∷ []
parts fs (a ∷ rest) last = part fs a ∷ parts fs rest last

abbrev pub all_full : List ReadArg → Bool
all_full [] = true
all_full (a ∷ rest) = not (a.len == 0) && all_full rest

abbrev pub total : List ReadArg → ℕ
total [] = 0
total (a ∷ rest) = a.len + total rest

abbrev pub passed_on : ℕ → List Message → List Sent
passed_on id [] = []
passed_on id (m ∷ ms) = (id, m) ∷ passed_on id ms

-- The descriptor behind what was read: the cluster is that of the last part.
abbrev pub read_on : List ReadArg → FatFileDescriptor → FatFileDescriptor
read_on [] fd = fd
read_on (a ∷ rest) fd = read_on rest (advance_read fd a)

read_on_off :
    (rest : List ReadArg) (fd : FatFileDescriptor)
    → (read_on rest fd).rd_off ≡ fd.rd_off + total rest
read_on_off [] fd = omega arith
read_on_off (a ∷ rest) fd = omega (arith, read_on_off rest (advance_read fd a))

read_loop_all :
    (fs : ℕ) (rest : List ReadArg) (last : ReadArg) (fd : FatFileDescriptor)
    → all_full rest ≡ true
    → last.len ≡ 0
    → read_loop fd (parts fs rest last)
      ≡ some (read_on rest fd, passed_on fd.id (parts fs rest last))
unfolding read_loop read_of
read_loop_all fs [] last fd f z = ground arith
read_loop_all fs (a ∷ rest) last fd f z =
    ground (arith, read_loop_all fs rest last (advance_read fd a))

-- A read of a file whose answers are parts with bytes and then an empty one returns: the request goes to
-- the file system server with the descriptor's name, offset and cluster, every answer goes on to the
-- application in order, and the offset grows by the bytes that came.
pub read_fat_all :
    (fs : ℕ) (fd : FatFileDescriptor) (msg : Message) (a : ReadArg) (rest : List ReadArg)
    (last : ReadArg)
    → read_of msg.arg ≡ some a
    → all_full rest ≡ true
    → last.len ≡ 0
    → (read_fat (some fs) fd msg (parts fs rest last)
        ≡ some
            (read_on rest fd, (fs, read_request fd msg a) ∷ passed_on fd.id (parts fs rest last)))
      × ((read_on rest fd).rd_off ≡ fd.rd_off + total rest)
unfolding read_fat
read_fat_all fs fd msg a rest last r f z =
    (ground (arith, r, read_loop_all fs rest last fd f z), read_on_off rest fd)

abbrev pub piece : ℕ → WriteArg → Message
piece id a = record { type = write_file; src_task = id; arg = to_write a }

-- What the application sends behind its request: pieces with bytes, and an empty one.
abbrev pub pieces : ℕ → List WriteArg → WriteArg → List Message
pieces id [] last = piece id last ∷ []
pieces id (a ∷ rest) last = piece id a ∷ pieces id rest last

abbrev pub all_filled : List WriteArg → Bool
all_filled [] = true
all_filled (a ∷ rest) = not (a.len == 0) && all_filled rest

abbrev pub written : List WriteArg → ℕ
written [] = 0
written (a ∷ rest) = a.len + written rest

-- Each piece for the file system server, at the offset where the one before it ended, and the answer.
abbrev pub placed : ℕ → ℕ → List ℕ → ℕ → List WriteArg → List Sent
placed fs id name off [] = []
placed fs id name off (a ∷ rest) =
    (fs, piece id (record a { filename = name; offset = off }))
    ∷ (id, received_message)
    ∷ placed fs id name (off + a.len) rest

write_loop_all :
    (fs off : ℕ) (rest : List WriteArg) (last : WriteArg) (fd : FatFileDescriptor)
    → all_filled rest ≡ true
    → last.len ≡ 0
    → write_loop fs (record fd { wr_off = off }) (pieces fd.id rest last)
      ≡ some (
        record fd { wr_off = off + written rest },
        placed fs fd.id fd.filename off (rest ++ (last ∷ [])),
      )
unfolding write_loop write_of
write_loop_all fs off [] last fd f z = ground arith
write_loop_all fs off (a ∷ rest) last fd f z =
    ground (arith, write_loop_all fs (off + a.len) rest last fd)

-- A write to a file, all of whose pieces but the last have bytes, returns: every piece goes to the file
-- system server with the descriptor's name, each at the offset where the one before it ended and the
-- first at the descriptor's own, each is answered, and the descriptor's offset grows by their bytes.
pub write_fat_all :
    (fs : ℕ) (fd : FatFileDescriptor) (a : WriteArg) (rest : List WriteArg) (last : WriteArg)
    → all_filled rest ≡ true
    → last.len ≡ 0
    → write_fat (some fs) fd (piece fd.id a) (pieces fd.id rest last)
      ≡ some (
        record fd { wr_off = fd.wr_off + written (a ∷ rest) },
        placed fs fd.id fd.filename fd.wr_off (a ∷ (rest ++ (last ∷ []))),
      )
unfolding write_fat write_of
write_fat_all fs fd a rest last f z =
    ground (arith, write_loop_all fs (fd.wr_off + a.len) rest last fd f z)
