-- ===== src/Am/Fat.antt =====
-- `FatFileDescriptor` and `TerminalFileDescriptor` of servers/am/filedescriptor.cpp: descriptors whose
-- methods ask another server and wait for its answers. `replies` are the messages that the waiting
-- calls receive, in order; the answer `none` says that they did not end the call, which still waits, or
-- that a member of the union is read that was not written. Offsets are below 2^32.
use kin_os.Base.{
  ℕ, zero, ◌+◌, Option, none, some, List, [], ◌∷◌, ◌++◌, ◌==◌, if◌then◌else◌, Bool, true, false,
}
use kin_os.Message.{
  Message, MessageType, error, received, read_file, write_file, Arg, read_arg, write_arg, error_arg,
  unset, ReadArg, WriteArg, read_of, write_of, to_read, to_write, is_read, is_write,
}
use kin_os.Am.Pipe.{Sent, error_message, received_message, read_message}
pub mod Laws

pub record FatFileDescriptor : Type 0 where
  pub id : ℕ
  pub filename : List ℕ
  pub rd_off : ℕ
  pub rd_cluster : ℕ
  pub wr_off : ℕ

-- The constructor.
abbrev pub make_fat : ℕ → List ℕ → FatFileDescriptor
make_fat id filename = record {
  id = id;
  filename = filename;
  rd_off = 0;
  rd_cluster = 0;
  wr_off = 0;
}

abbrev pub advance_read : FatFileDescriptor → ReadArg → FatFileDescriptor
advance_read fd a = record fd { rd_off = fd.rd_off + a.len; rd_cluster = a.cluster }

-- The loop of `Read`: each reply goes on to the application, until one is empty.
unfoldable pub read_loop : FatFileDescriptor → List Message → Option (FatFileDescriptor × List Sent)
read_loop fd [] = none
read_loop fd (m ∷ ms) = elim (read_of m.arg) [
  | none ↦ none
  | some a ↦ elim (a.len == 0) [
    | true ↦ some (fd, (fd.id, m) ∷ [])
    | false ↦ elim (read_loop (advance_read fd a) ms) [
      | none ↦ none
      | some (fd', sent) ↦ some (fd', (fd.id, m) ∷ sent)
    ]
  ]
]

-- The request with the descriptor's place in the file.
abbrev pub read_request : FatFileDescriptor → Message → ReadArg → Message
read_request fd msg a = record msg {
  arg = to_read (record a { filename = fd.filename; offset = fd.rd_off; cluster = fd.rd_cluster });
}

-- `Read`, given what `SyscallFindServer` answers for the file system server.
unfoldable pub read_fat :
    Option ℕ → FatFileDescriptor → Message → List Message → Option (FatFileDescriptor × List Sent)
unfolding read_loop
read_fat none fd msg replies =
    some (fd, (fd.id, record msg { type = error; arg = error_arg 0 0 }) ∷ [])
read_fat (some fs) fd msg replies = elim (read_of msg.arg) [
  | none ↦ none
  | some a ↦ elim (read_loop fd replies) [
    | none ↦ none
    | some (fd', sent) ↦ some (fd', (fs, read_request fd msg a) ∷ sent)
  ]
]

abbrev pub advance_write : FatFileDescriptor → WriteArg → FatFileDescriptor
advance_write fd a = record fd { wr_off = fd.wr_off + a.len }

abbrev pub write_request : FatFileDescriptor → Message → WriteArg → Message
write_request fd msg a = record msg {
  arg = to_write (record a { filename = fd.filename; offset = fd.wr_off });
}

-- The loop of `Write`: what the application sends goes on to the server until it is empty; messages of
-- another type are dropped.
unfoldable pub write_loop :
    ℕ → FatFileDescriptor → List Message → Option (FatFileDescriptor × List Sent)
write_loop fs fd [] = none
write_loop fs fd (m ∷ ms) = elim (is_write m.type) [
  | false ↦ write_loop fs fd ms
  | true ↦ elim (write_of m.arg) [
    | none ↦ none
    | some a ↦ elim (a.len == 0) [
      | true ↦
          some (advance_write fd a, (fs, write_request fd m a) ∷ (fd.id, received_message) ∷ [])
      | false ↦ elim (write_loop fs (advance_write fd a) ms) [
        | none ↦ none
        | some (fd', sent) ↦
            some (fd', (fs, write_request fd m a) ∷ (fd.id, received_message) ∷ sent)
      ]
    ]
  ]
]

unfoldable pub write_fat :
    Option ℕ → FatFileDescriptor → Message → List Message → Option (FatFileDescriptor × List Sent)
unfolding write_loop
write_fat none fd msg replies =
    some (fd, (fd.id, record msg { type = error; arg = error_arg 0 0 }) ∷ [])
write_fat (some fs) fd msg replies = elim (write_of msg.arg) [
  | none ↦ none
  | some a ↦ elim (write_loop fs (advance_write fd a) replies) [
    | none ↦ none
    | some (fd', sent) ↦ some (fd', (fs, write_request fd msg a) ∷ (fd.id, received_message) ∷ sent)
  ]
]

-- `TerminalFileDescriptor::Write`.
unfoldable pub write_terminal : ℕ → ℕ → Message → List Sent
write_terminal id server msg = (server, msg) ∷ (id, received_message) ∷ []

-- `TerminalFileDescriptor::Read`: one reply of the terminal, and an empty message behind it.
unfoldable pub read_terminal : ℕ → ℕ → Message → List Message → Option (List Sent)
read_terminal id server msg [] = none
read_terminal id server msg (m ∷ ms) = some (
    (server, msg)
    ∷ (if is_read m.type
        then (id, m) ∷ (id, read_message [] 0) ∷ []
        else (server, error_message 0) ∷ []))
