-- ===== src/Am/Pipe.antt =====
-- `PipeFileDescriptor` of servers/am/filedescriptor.cpp: a buffer of 16 bytes between two applications.
-- A method returns the descriptor and the messages that it sends, each with its receiver, in order.
-- Fields of a message that the source leaves unset are 0 or empty.
use kin_os.Base.{
  ℕ, zero, suc, ◌+◌, ◌-◌, ◌≤◌, Bool, true, false, List, [], ◌∷◌, ◌++◌, ◌==◌, leb, if◌then◌else◌,
  take, drop, replicate,
}
use kin_os.Message.{Message, error, received, read_file, error_arg, read_arg, unset}
pub mod Laws

abbrev pub Sent : Type 0
Sent = ℕ × Message

pub record PipeFileDescriptor : Type 0 where
  pub id : ℕ
  pub bytes : List ℕ
  pub len : ℕ
  pub closed : Bool

abbrev pub pipe_size : ℕ
pipe_size = 16

unfoldable pub make_pipe : ℕ → PipeFileDescriptor
make_pipe id = record { id = id; bytes = replicate pipe_size 0; len = 0; closed = false }

-- A `kRead` message with `len` bytes; with none, it ends the reply.
abbrev pub read_message : List ℕ → ℕ → Message
read_message bytes len = record {
  type = read_file;
  src_task = 0;
  arg = read_arg [] 0 bytes len 0 0 0;
}

abbrev pub error_message : ℕ → Message
error_message retry = record { type = error; src_task = 0; arg = error_arg retry 0 }

abbrev pub received_message : Message
received_message = record { type = received; src_task = 0; arg = unset }

-- The buffer after all its bytes are read, and after the first `count` are.
abbrev pub drained : PipeFileDescriptor → PipeFileDescriptor
drained p = record p { len = 0; bytes = replicate pipe_size 0 }

abbrev pub advanced : PipeFileDescriptor → ℕ → PipeFileDescriptor
advanced p count = record p {
  len = p.len - count;
  bytes = take (p.len - count) (drop count p.bytes) ++ drop (p.len - count) p.bytes;
}

-- `Read` of a message from `src_task` that asks for `count` bytes. The last message of a reply keeps
-- the bytes of the one before it.
unfoldable pub read : PipeFileDescriptor → ℕ → ℕ → PipeFileDescriptor × List Sent
read p src_task count =
    if p.closed
    then (p, (src_task, read_message [] 0) ∷ [])
    else if p.len == 0
    then (p, (src_task, error_message 1) ∷ [])
    else if leb p.len count
    then (
      drained p,
      (src_task, read_message (take p.len p.bytes) p.len)
          ∷ (src_task, read_message (take p.len p.bytes) 0)
          ∷ (p.id, received_message)
          ∷ [],
    )
    else (
      advanced p count,
      (src_task, read_message (take count p.bytes) count)
          ∷ (src_task, read_message (take count p.bytes) 0)
          ∷ [],
    )

-- `Write` of a message with `len` bytes. `memcpy` copies into `data_[16]`, so `len` is at most 16.
unfoldable pub write : PipeFileDescriptor → List ℕ → ℕ → PipeFileDescriptor × List Sent
write p bytes len =
    if p.closed
    then (p, (p.id, error_message 0) ∷ [])
    else if p.len == 0
    then if len == 0
      then (p, (p.id, received_message) ∷ [])
      else (record p { len = len; bytes = take len bytes ++ drop len p.bytes }, [])
    else (p, (p.id, error_message 1) ∷ [])

unfoldable pub close : PipeFileDescriptor → PipeFileDescriptor × List Sent
close p = (record p { closed = true }, (p.id, error_message 0) ∷ [])
