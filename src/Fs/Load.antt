-- ===== src/Fs/Load.antt =====
-- `CopyToBufferState::HandleMessage`, servers/fs/serverstate.cpp: a file goes to the buffer of the task that
-- is to run it, cluster by cluster, by the system call `CopyToTaskBuffer` of kernel/syscall.cpp, whose
-- answer is not looked at. `none` is undefined behaviour in it, or that the fuel runs out. `offset` stays
-- below 2^31 and does not wrap around.
use mathlib.Core.Option
use mathlib.Core.Path.{subst}
use mathlib.Core.List.{append-nil, append_assoc}
use kin_os.Base.{
  ℕ, zero, suc, ◌+◌, ◌-◌, ◌*◌, ◌^◌, ◌≤◌, ◌<◌, ◌≡◌, refl, sym, ap, ◌∙◌, Bool, true, false, Option,
  none, some, List, [], ◌∷◌, ◌++◌, ◌==◌, leb, length, take, arith, length-append, and_then,
  Bool-cases, inl, inr, replicate, take_all, take-append, take_first, length-take, take_nil,
  length-replicate,
}
use kin_os.Error.{success}
use kin_os.Task.{Task, TaskManager, find_task, update_task}
use kin_os.Task.Buffer.{
  copy_to_task_buffer, copy_fits, overwrite, write_buf, expand_task_buffer, resize, resize_buf,
  find_task-update_task,
}
use kin_os.Fs.{Fat, next_cluster}
use kin_os.Fs.Volume.{Bpb}
use kin_os.Fs.Entry.{DirectoryEntry, first_cluster}
use kin_os.Fs.Data.{
  Disk, read_cluster, bytes_per_cluster, is_data, Walk, content, IsFull, length-read_cluster,
  Walk-buffer,
}
pub mod Laws

-- The loop, from the cluster `cluster`.
unfoldable pub copy_loop :
    ℕ → Bpb → Disk → Fat → ℕ → TaskManager → (cluster remain offset : ℕ) → Option TaskManager
copy_loop zero b disk s id tm cluster remain offset = none
copy_loop (suc fuel) b disk s id tm cluster remain offset = elim (is_data cluster) [
  | false ↦ some tm
  | true ↦
      let p = read_cluster b disk cluster in
      let (next, s') = next_cluster s cluster in
      let n = bytes_per_cluster b in
      elim (leb n remain) [
        | true ↦
            and_then (copy_to_task_buffer tm id (take n p) offset)
              (λ r. copy_loop fuel b disk s' id r.1 next (remain - n) (offset + n))
        | false ↦
            and_then (copy_to_task_buffer tm id (take remain p) offset)
              (λ r. copy_loop fuel b disk s' id r.1 next remain offset)
      ]
]

unfoldable pub copy_to_buffer :
    ℕ → Bpb → Disk → Fat → ℕ → TaskManager → DirectoryEntry → Option TaskManager
unfolding copy_loop
copy_to_buffer fuel b disk s id tm e = copy_loop fuel b disk s id tm (first_cluster e) e.file_size 0
