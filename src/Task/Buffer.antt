-- ===== src/Task/Buffer.antt =====
-- The buffers of tasks and the search by name, kernel/task.cpp: `FindTask`, `ExpandTaskBuffer` and
-- `CopyToTaskBuffer`. `int` has 32 bits and `size_t` 64; an `int` is the word that holds it, and the
-- answer `none` is undefined behaviour, a copy past the end of the buffer.
use kin_os.Base.{
  ℕ, zero, suc, ◌+◌, ◌-◌, ◌%◌, ◌^◌, ◌≤◌, ◌<◌, ◌≡◌, refl, Bool, true, false, ◌&&◌, Option, none,
  some, List, [], ◌∷◌, ◌++◌, ◌==◌, ltb, leb, if◌then◌else◌, length, get_elem?, take, replicate,
  arith,
}
use kin_os.Error.{Error, success, no_such_task}
use kin_os.Task.{Task, TaskManager, find_task, update_task}

abbrev pub same_name : List ℕ → List ℕ → Bool
same_name [] [] = true
same_name [] (d ∷ ds) = false
same_name (c ∷ cs) [] = false
same_name (c ∷ cs) (d ∷ ds) = (c == d) && same_name cs ds

abbrev pub named : List ℕ → List Task → ℕ
named name [] = 0
named name (t ∷ ts) = if same_name t.name name then t.id else named name ts

-- `FindTask` by name: the id, or 0.
unfoldable pub find_task_by_name : TaskManager → List ℕ → ℕ
find_task_by_name tm name = named name tm.tasks

-- `resize`: new bytes are 0.
abbrev pub resize : ℕ → List ℕ → List ℕ
resize bytes buf = take bytes buf ++ replicate (bytes - length buf) 0

abbrev pub resize_buf : ℕ → Task → Task
resize_buf bytes t = record t { buf = resize bytes t.buf }

unfoldable pub expand_task_buffer : TaskManager → ℕ → ℕ → Error × TaskManager
expand_task_buffer tm id bytes = elim (find_task id tm.tasks) [
  | none ↦ (no_such_task, tm)
  | some t ↦ (success, record tm { tasks = update_task id (resize_buf bytes) tm.tasks })
]

-- `memcpy` of bytes that end inside the buffer.
abbrev pub overwrite : List ℕ → ℕ → List ℕ → List ℕ
overwrite [] offset bytes = []
overwrite (x ∷ xs) zero [] = x ∷ xs
overwrite (x ∷ xs) zero (b ∷ bs) = b ∷ overwrite xs zero bs
overwrite (x ∷ xs) (suc offset) bytes = x ∷ overwrite xs offset bytes

abbrev pub write_buf : ℕ → List ℕ → Task → Task
write_buf offset bytes t = record t { buf = overwrite t.buf offset bytes }

abbrev pub minus_one : ℕ
minus_one = 2 ^ 32 - 1

-- `int remain_bytes = size - (offset + len)`, computed on 64 bits and cut to 32.
abbrev pub remain_bytes : ℕ → ℕ → ℕ → ℕ
remain_bytes size offset len = (size + 2 ^ 64 - (offset + len) % 2 ^ 64) % 2 ^ 64 % 2 ^ 32

unfoldable pub copy_to_task_buffer : TaskManager → ℕ → List ℕ → ℕ → Option (ℕ × TaskManager)
copy_to_task_buffer tm id bytes offset = elim (find_task id tm.tasks) [
  | none ↦ some (minus_one, tm)
  | some t ↦
      let remain = remain_bytes (length t.buf) offset (length bytes) in
      if leb (2 ^ 31) remain
      then some (minus_one, tm)
      else if leb (offset + length bytes) (length t.buf)
      then some (remain, record tm { tasks = update_task id (write_buf offset bytes) tm.tasks })
      else none
]

-- The bytes of a buffer after the copy, one by one.
get_elem?-overwrite :
    (buf : List ℕ) (offset : ℕ) (bytes : List ℕ) (i : ℕ)
    → offset + length bytes ≤ length buf
    → get_elem? (overwrite buf offset bytes) i ≡ (
        if ltb i offset
        then get_elem? buf i
        else if ltb i (offset + length bytes)
        then get_elem? bytes (i - offset)
        else get_elem? buf i)
get_elem?-overwrite [] offset [] i le = ground arith
get_elem?-overwrite [] offset (b ∷ bs) i le = absurd (omega arith)
get_elem?-overwrite (x ∷ xs) zero [] i le = ground arith
get_elem?-overwrite (x ∷ xs) zero (b ∷ bs) zero le = ground arith
get_elem?-overwrite (x ∷ xs) zero (b ∷ bs) (suc i) le =
    ground (arith, get_elem?-overwrite xs zero bs i)
get_elem?-overwrite (x ∷ xs) (suc offset) bytes zero le = ground arith
get_elem?-overwrite (x ∷ xs) (suc offset) bytes (suc i) le =
    ground (arith, get_elem?-overwrite xs offset bytes i)

pub find_task-update_task :
    (id : ℕ) (f : Task → Task) (ts : List Task) (t : Task)
    → ((u : Task) → (f u).id ≡ u.id)
    → find_task id ts ≡ some t
    → find_task id (update_task id f ts) ≡ some (f t)
find_task-update_task id f [] t keeps h = absurd (ground arith)
find_task-update_task id f (u ∷ ts) t keeps h =
    ground (arith, keeps u, find_task-update_task id f ts t keeps)

-- The copy that fits: the answer, and the task's buffer after it.
pub record Copied (tm : TaskManager) (id : ℕ) (t : Task) (bytes : List ℕ) (offset : ℕ)
    : Type 0 where
  pub after : TaskManager
  pub answers :
      copy_to_task_buffer tm id bytes offset ≡ some (length t.buf - (offset + length bytes), after)
  pub task : Task
  pub found : find_task id after.tasks ≡ some task
  pub content :
      (i : ℕ)
      → get_elem? task.buf i ≡ (
          if ltb i offset
          then get_elem? t.buf i
          else if ltb i (offset + length bytes)
          then get_elem? bytes (i - offset)
          else get_elem? t.buf i)

remain_small :
    (size offset len : ℕ)
    → size < 2 ^ 31
    → offset + len ≤ size
    → remain_bytes size offset len ≡ size - (offset + len)
remain_small size offset len s le =
    let m : (offset + len) % 2 ^ 64 ≡ offset + len = omega arith in
    let n : (size + 2 ^ 64 - (offset + len)) % 2 ^ 64 ≡ size - (offset + len) = omega arith in
    rw m (rw n (omega arith))

remain_negative :
    (size offset len : ℕ)
    → size < 2 ^ 31
    → size < offset + len
    → offset + len ≤ size + 2 ^ 31
    → 2 ^ 31 ≤ remain_bytes size offset len
remain_negative size offset len s lt le =
    let m : (offset + len) % 2 ^ 64 ≡ offset + len = omega arith in
    let n : (size + 2 ^ 64 - (offset + len)) % 2 ^ 64 ≡ size + 2 ^ 64 - (offset + len) =
      omega arith in
    rw m (rw n (omega arith))

-- The copy of bytes that fit, as a change of the task.
pub copy_fits :
    (tm : TaskManager) (id : ℕ) (t : Task) (bytes : List ℕ) (offset : ℕ)
    → find_task id tm.tasks ≡ some t
    → length t.buf < 2 ^ 31
    → offset + length bytes ≤ length t.buf
    → (copy_to_task_buffer tm id bytes offset
        ≡ some (
          length t.buf - (offset + length bytes),
          record tm { tasks = update_task id (write_buf offset bytes) tm.tasks },
        ))
      × (find_task id (update_task id (write_buf offset bytes) tm.tasks)
          ≡ some (write_buf offset bytes t))
unfolding copy_to_task_buffer
copy_fits tm id t bytes offset h s le =
    let r = remain_small (length t.buf) offset (length bytes) s le in
    let b : leb (2 ^ 31) (length t.buf - (offset + length bytes)) ≡ false = ground arith in
    let c : leb (offset + length bytes) (length t.buf) ≡ true = ground arith in
    (
      rw (copy_to_task_buffer, h) (rw r (rw (b, c) refl)),
      find_task-update_task id (write_buf offset bytes) tm.tasks t (λ u. refl) h,
    )

-- `CopyToTaskBuffer` of bytes that fit in a buffer of less than 2^31 bytes answers how many bytes of it
-- are behind them, and the task's buffer has the bytes from `offset` on and is elsewhere as it was.
pub copy_to_task_buffer-Copied :
    (tm : TaskManager) (id : ℕ) (t : Task) (bytes : List ℕ) (offset : ℕ)
    → find_task id tm.tasks ≡ some t
    → length t.buf < 2 ^ 31
    → offset + length bytes ≤ length t.buf
    → Copied tm id t bytes offset
copy_to_task_buffer-Copied tm id t bytes offset h s le =
    let (answers, found) = copy_fits tm id t bytes offset h s le in
    record {
      after = record tm { tasks = update_task id (write_buf offset bytes) tm.tasks };
      answers = answers;
      task = write_buf offset bytes t;
      found = found;
      content = λ i. get_elem?-overwrite t.buf offset bytes i le;
    }

-- Bytes that do not fit, short of 2^31 past the end, are refused with -1 and nothing changes.
pub copy_to_task_buffer_refused :
    (tm : TaskManager) (id : ℕ) (t : Task) (bytes : List ℕ) (offset : ℕ)
    → find_task id tm.tasks ≡ some t
    → length t.buf < 2 ^ 31
    → length t.buf < offset + length bytes
    → offset + length bytes ≤ length t.buf + 2 ^ 31
    → copy_to_task_buffer tm id bytes offset ≡ some (minus_one, tm)
unfolding copy_to_task_buffer
copy_to_task_buffer_refused tm id t bytes offset h s lt le =
    let n = remain_negative (length t.buf) offset (length bytes) s lt le in
    let b : leb (2 ^ 31) (remain_bytes (length t.buf) offset (length bytes)) ≡ true =
      ground arith in
    rw (copy_to_task_buffer, h) (rw b refl)
