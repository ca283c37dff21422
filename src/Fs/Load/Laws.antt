-- ===== src/Fs/Load/Laws.antt =====
-- Loading a program: the buffer of the task holds the file.
use mathlib.Core.Path.{subst}
use mathlib.Core.List.{append-nil, append_assoc}
use kin_os.Base.{
  ℕ, zero, suc, ◌+◌, ◌-◌, ◌*◌, ◌^◌, ◌≤◌, ◌<◌, ◌≡◌, refl, sym, ap, ◌∙◌, true, false, some, List, [],
  ◌∷◌, ◌++◌, leb, length, take, arith, length-append, Bool-cases, inl, inr, replicate, take_all,
  take-append, length-take, take_nil, length-replicate,
}
use kin_os.Error.{success}
use kin_os.Task.{Task, TaskManager, find_task, update_task}
use kin_os.Task.Buffer.{
  copy_fits, overwrite, write_buf, expand_task_buffer, resize, resize_buf, find_task-update_task,
}
use kin_os.Fs.{Fat, next_cluster}
use kin_os.Fs.Volume.{Bpb}
use kin_os.Fs.Entry.{DirectoryEntry, first_cluster}
use kin_os.Fs.Data.{
  Disk, read_cluster, bytes_per_cluster, is_data, Walk, content, IsFull, length-read_cluster,
  Walk-buffer,
}
use kin_os.Fs.Load.{copy_loop, copy_to_buffer}

length-overwrite :
    (buf : List ℕ) (offset : ℕ) (bytes : List ℕ) → length (overwrite buf offset bytes) ≡ length buf
length-overwrite [] offset bytes = refl
length-overwrite (x ∷ xs) zero [] = refl
length-overwrite (x ∷ xs) zero (b ∷ bs) = ap suc (length-overwrite xs zero bs)
length-overwrite (x ∷ xs) (suc offset) bytes = ap suc (length-overwrite xs offset bytes)

take-overwrite :
    (buf : List ℕ) (offset : ℕ) (bytes : List ℕ)
    → offset + length bytes ≤ length buf
    → take (offset + length bytes) (overwrite buf offset bytes) ≡ take offset buf ++ bytes
take-overwrite [] zero [] le = refl
take-overwrite [] zero (b ∷ bs) le = absurd (omega arith)
take-overwrite [] (suc offset) bytes le = absurd (omega arith)
take-overwrite (x ∷ xs) zero [] le = refl
take-overwrite (x ∷ xs) zero (b ∷ bs) le = ground (arith, take-overwrite xs zero bs)
take-overwrite (x ∷ xs) (suc offset) bytes le =
    let e : suc (offset + length bytes) ≡ suc offset + length bytes = omega arith in
    subst (λ k. take k (x ∷ overwrite xs offset bytes) ≡ x ∷ (take offset xs ++ bytes)) e
      (ap (λ zs. x ∷ zs) (take-overwrite xs offset bytes (omega arith)))

-- A chain is as long as the bytes that are left need.
abbrev pub Covers : ℕ → ℕ → ℕ → Type 0
Covers n remain k = (remain ≤ k * n) × (k * n < remain + n)

-- The task has the bytes from `offset` on, and what it had before.
record Filled (tm' : TaskManager) (id : ℕ) (t : Task) (offset : ℕ) (bytes : List ℕ) : Type 0 where
  task : Task
  found : find_task id tm'.tasks ≡ some task
  buf : task.buf ≡ take offset t.buf ++ bytes
  rest : task ≡ record t { buf = task.buf }

-- All of the buffer up to its end.
filled_end :
    (buf : List ℕ) (offset : ℕ) (bytes : List ℕ)
    → length buf ≡ offset + length bytes
    → overwrite buf offset bytes ≡ take offset buf ++ bytes
filled_end buf offset bytes l =
    let k = length-overwrite buf offset bytes in
    sym (take_all (offset + length bytes) (overwrite buf offset bytes) (omega (arith, k)))
    ∙ take-overwrite buf offset bytes (omega arith)

copy_end :
    (fuel : ℕ) (b : Bpb) (disk : Disk) (s : Fat) (id : ℕ) (tm : TaskManager)
    (cluster remain offset : ℕ)
    → 0 < fuel
    → is_data cluster ≡ false
    → copy_loop fuel b disk s id tm cluster remain offset ≡ some tm
unfolding copy_loop
copy_end zero b disk s id tm cluster remain offset lt w = absurd (omega arith)
copy_end (suc fuel) b disk s id tm cluster remain offset lt w = rw (copy_loop, w) refl

no_more : (n remain : ℕ) (cs : List ℕ) → remain < n → suc (length cs) * n < remain + n → cs ≡ []
no_more n remain [] lt c = refl
no_more n remain (d ∷ cs) lt c = absurd (grind arith)

module _ (b : Bpb) (disk : Disk) (id : ℕ) (f : IsFull b disk) where
  Reaches : ℕ → Fat → TaskManager → Task → (cluster remain offset : ℕ) → List ℕ → Type 0
  Reaches fuel s tm t cluster remain offset cs =
      (tm' : TaskManager) × (copy_loop fuel b disk s id tm cluster remain offset ≡ some tm')
      × Filled tm' id t offset (take remain (content b disk cs))

  -- The last cluster of the file.
  copies_last :
      (fuel : ℕ) (s : Fat) (tm : TaskManager) (t : Task) (cluster remain offset : ℕ)
      → 0 < fuel
      → remain < bytes_per_cluster b
      → Walk s cluster (cluster ∷ [])
      → find_task id tm.tasks ≡ some t
      → length t.buf < 2 ^ 31
      → length t.buf ≡ offset + remain
      → Reaches (suc fuel) s tm t cluster remain offset (cluster ∷ [])
  unfolding copy_loop Reaches
  copies_last fuel s tm t cluster remain offset lt small w h bound l =
      let p : List ℕ = read_cluster b disk cluster in
      let len : length p ≡ bytes_per_cluster b = length-read_cluster b disk cluster f in
      let bytes : List ℕ = take remain p in
      let len' : length bytes ≡ remain = length-take remain p (omega (arith, len)) in
      let (e, found) = copy_fits tm id t bytes offset h bound (omega (arith, len')) in
      let tm1 : TaskManager = record tm {
        tasks = update_task id (write_buf offset bytes) tm.tasks;
      } in
      let step : leb (bytes_per_cluster b) remain ≡ false = ground arith in
      (
        tm1,
        rw (copy_loop, w.1) (rw step (rw e (copy_end fuel b disk _ id tm1 _ remain offset lt w.2))),
        record {
          task = write_buf offset bytes t;
          found = found;
          buf =
              filled_end t.buf offset bytes (omega (arith, len'))
              ∙ ap (λ xs. take offset t.buf ++ xs) (ap (take remain) (sym (append-nil p)));
          rest = refl;
        },
      )

  -- One cluster, and the rest behind it.
  copies_more :
      (fuel : ℕ) (s : Fat) (tm : TaskManager) (t : Task) (cluster remain offset : ℕ) (cs : List ℕ)
      → bytes_per_cluster b ≤ remain
      → is_data cluster ≡ true
      → find_task id tm.tasks ≡ some t
      → length t.buf < 2 ^ 31
      → length t.buf ≡ offset + remain
      → ((tm1 : TaskManager) (t1 : Task)
          → find_task id tm1.tasks ≡ some t1
          → length t1.buf ≡ length t.buf
          → Reaches fuel
              (next_cluster s cluster).1
              tm1
              t1
              (next_cluster s cluster).0
              (remain - bytes_per_cluster b)
              (offset + bytes_per_cluster b)
              cs)
      → Reaches (suc fuel) s tm t cluster remain offset (cluster ∷ cs)
  unfolding copy_loop Reaches
  copies_more fuel s tm t cluster remain offset cs le w h bound l rest =
      let n : ℕ = bytes_per_cluster b in
      let p : List ℕ = read_cluster b disk cluster in
      let len : length p ≡ n = length-read_cluster b disk cluster f in
      let whole : take n p ≡ p = take_all n p (omega (arith, len)) in
      let (e, found) = copy_fits tm id t p offset h bound (omega (arith, len)) in
      let tm1 : TaskManager = record tm { tasks = update_task id (write_buf offset p) tm.tasks } in
      let t1 : Task = write_buf offset p t in
      let (tm', e', r) = rest tm1 t1 found (length-overwrite t.buf offset p) in
      let step : leb n remain ≡ true = ground arith in
      let before : take (offset + n) t1.buf ≡ take offset t.buf ++ p =
        ap (λ k. take (offset + k) t1.buf) (sym len)
        ∙ take-overwrite t.buf offset p (omega (arith, len)) in
      let behind : p ++ take (remain - n) (content b disk cs)
          ≡ take remain (p ++ content b disk cs) =
        ap (λ k. p ++ take (remain - k) (content b disk cs)) (sym len)
        ∙ sym (take-append remain p (content b disk cs) (omega (arith, len))) in
      (
        tm',
        rw (copy_loop, w) (rw step (rw (whole, e) e')),
        record {
          task = r.task;
          found = r.found;
          buf =
              r.buf
              ∙ (ap (λ xs. xs ++ take (remain - n) (content b disk cs)) before
                  ∙ (append_assoc (take offset t.buf) p (take (remain - n) (content b disk cs))
                      ∙ ap (λ xs. take offset t.buf ++ xs) behind));
          rest = r.rest;
        },
      )

  copies_all :
      (fuel : ℕ) (s : Fat) (tm : TaskManager) (t : Task) (cluster remain offset : ℕ) (cs : List ℕ)
      → length cs < fuel
      → Walk s cluster cs
      → Covers (bytes_per_cluster b) remain (length cs)
      → find_task id tm.tasks ≡ some t
      → length t.buf < 2 ^ 31
      → length t.buf ≡ offset + remain
      → Reaches fuel s tm t cluster remain offset cs
  unfolding Reaches
  copies_all zero s tm t cluster remain offset cs lt w c h bound l = absurd (omega arith)
  copies_all (suc fuel) s tm t cluster remain offset [] lt w c h bound l = (
    tm,
    copy_end (suc fuel) b disk s id tm cluster remain offset (omega arith) w,
    record {
      task = t;
      found = h;
      buf =
          sym (append-nil t.buf)
          ∙ (ap (λ xs. xs ++ []) (sym (take_all offset t.buf (omega arith)))
              ∙ ap (λ xs. take offset t.buf ++ xs) (sym (take_nil remain)));
      rest = refl;
    },
  )
  copies_all (suc fuel) s tm t cluster remain offset (d ∷ cs) lt w c h bound l =
      let n : ℕ = bytes_per_cluster b in
      let m : suc (length cs) * n ≡ length cs * n + n = grind arith in
      subst (λ x. Reaches (suc fuel) s tm t cluster remain offset (x ∷ cs)) w.0
        (elim (Bool-cases (leb n remain)) [
          | inl le ↦
              copies_more fuel s tm t cluster remain offset cs (ground arith) w.1 h bound l
                (λ tm1 t1 h1 l1.
                  copies_all fuel (next_cluster s cluster).1 tm1 t1 (next_cluster s cluster).0
                    (remain - n) (offset + n) cs (omega arith)
                    (Walk-buffer s cluster (next_cluster s cluster).0 cs w.2)
                    (let g : n ≤ remain = ground arith in
                      (omega (arith, m, g, c.0), omega (arith, m, g, c.1)))
                    h1 (omega arith) (let g : n ≤ remain = ground arith in omega (arith, l, l1, g)))
          | inr gt ↦
              let g : remain < n = ground arith in
              let none_left : cs ≡ [] = no_more n remain cs g c.1 in
              subst (λ xs. Reaches (suc fuel) s tm t cluster remain offset (cluster ∷ xs))
                (sym none_left)
                (copies_last fuel s tm t cluster remain offset (omega arith) g
                  (subst (λ xs. Walk s cluster (cluster ∷ xs)) none_left (refl, w.1, w.2)) h bound
                  l)
        ])

length-resize : (n : ℕ) (buf : List ℕ) → length (resize n buf) ≡ n
length-resize n buf =
    let a = length-append (take n buf) (replicate (n - length buf) 0) in
    let r = length-replicate {A = ℕ} (n - length buf) 0 in
    elim (Bool-cases (leb n (length buf))) [
      | inl le ↦ let k : n ≤ length buf = ground arith in omega (arith, a, r, length-take n buf k)
      | inr gt ↦
          let k : length buf ≤ n = ground arith in omega (arith, a, r, ap length (take_all n buf k))
    ]

expand_found :
    (tm : TaskManager) (id bytes : ℕ) (t : Task)
    → find_task id tm.tasks ≡ some t
    → (tm1 : TaskManager) × (expand_task_buffer tm id bytes ≡ (success, tm1))
      × (find_task id tm1.tasks ≡ some (resize_buf bytes t))
unfolding expand_task_buffer
expand_found tm id bytes t h = (
  record tm { tasks = update_task id (resize_buf bytes) tm.tasks },
  rw (expand_task_buffer, h) refl,
  find_task-update_task id (resize_buf bytes) tm.tasks t (λ u. refl) h,
)

-- Loading a program: for a file of less than 2^31 bytes whose clusters, by the table, are just as many as
-- its size needs, the task's buffer is first expanded to the size of the file, and then
-- `CopyToBufferState` returns and the buffer is what the clusters hold, up to that size, and nothing else of
-- the task is changed. Fuel for one round more than there are clusters is enough.
pub copy_to_buffer-loads :
    (fuel : ℕ) (b : Bpb) (disk : Disk) (s : Fat) (tm : TaskManager) (id : ℕ) (t : Task)
    (e : DirectoryEntry) (cs : List ℕ)
    → length cs < fuel
    → IsFull b disk
    → Walk s (first_cluster e) cs
    → Covers (bytes_per_cluster b) e.file_size (length cs)
    → e.file_size < 2 ^ 31
    → find_task id tm.tasks ≡ some t
    → (tm1 : TaskManager) × (tm' : TaskManager) × (expand_task_buffer tm id e.file_size
        ≡ (success, tm1))
      × (copy_to_buffer fuel b disk s id tm1 e ≡ some tm')
      × (find_task id tm'.tasks ≡ some (record t { buf = take e.file_size (content b disk cs) }))
unfolding copy_to_buffer Reaches
copy_to_buffer-loads fuel b disk s tm id t e cs lt f w c small h =
    let (tm1, x, h1) = expand_found tm id e.file_size t h in
    let l : length (resize e.file_size t.buf) ≡ e.file_size = length-resize e.file_size t.buf in
    let (tm', y, r) =
      copies_all b disk id f fuel s tm1 (resize_buf e.file_size t) (first_cluster e) e.file_size 0
        cs lt w c h1 (omega (arith, l)) (omega (arith, l)) in
    (tm1, tm', x, y, r.found ∙ ap some (r.rest ∙ ap (λ (xs : List ℕ). record t { buf = xs }) r.buf))
