-- ===== src/Paging/Write.antt =====
-- Copy on write, kernel/paging.cpp: `SetPageContent`, `CopyOnePage`, `CopyPageMaps` and
-- `HandlePageFault`.
--
-- `memcpy` of `CopyOnePage` reads through the processor's translation of the address. What frame that
-- is, is an argument, `mmu`.
use kin_os.Base.{
  ℕ, zero, suc, ◌+◌, ◌-◌, ◌/◌, ◌%◌, true, false, ◌&&◌, Option, none, some, ◌==◌, leb, ltb,
  if◌then◌else◌, and_then,
}
use kin_os.Error.{Error, success, already_allocated, index_out_of_range, WithError}
use kin_os.Paging.{
  Machine, store, store_page, part, present, pointer, set_pointer, set_writable, is_error,
  new_page_map, setup_page_maps,
}

unfoldable pub set_page_content : ℕ → ℕ → ℕ → ℕ → Machine → Option (Error × Machine)
set_page_content zero addr table content m = none
set_page_content (suc zero) addr table content m =
    let i = part 1 addr in
    let pointed = store m table i (set_pointer content (m.words table i)) in
    some (success, store pointed table i (set_writable true (pointed.words table i)))
set_page_content (suc level) addr table content m =
    set_page_content level addr (pointer (m.words table (part (suc level) addr))) content m

-- `CopyOnePage`, once `NewPageMap` gave `r`.
unfoldable pub copy_to_new :
    (Machine → ℕ → ℕ) → ℕ → WithError ℕ × Machine → Option (Error × Machine)
copy_to_new mmu causal_addr r =
    if is_error r.0.error
    then some (r.0.error, r.1)
    else set_page_content 4 causal_addr r.1.cr3 r.0.value
        (store_page r.1 r.0.value (r.1.words (mmu r.1 (causal_addr / 4096))))

unfoldable pub copy_one_page : (Machine → ℕ → ℕ) → ℕ → Machine → Option (Error × Machine)
copy_one_page mmu causal_addr m = and_then (new_page_map m) (copy_to_new mmu causal_addr)

-- The loop of `CopyPageMaps` at `part == 1`.
unfoldable pub copy_entries : ℕ → ℕ → ℕ → ℕ → Machine → Machine
copy_entries zero i dest src m = m
copy_entries (suc rounds) i dest src m =
    if present (m.words src i)
    then (let copied = store m dest i (m.words src i) in
        copy_entries rounds (i + 1) dest src
          (store copied dest i (set_writable false (copied.words dest i))))
    else copy_entries rounds (i + 1) dest src m

-- The end of a round of the other loop: the next entry, unless the copy below failed.
unfoldable pub copy_rest :
    (Machine → Option (Error × Machine)) → Error × Machine → Option (Error × Machine)
copy_rest next s = elim (is_error s.0) [ true ↦ some s | false ↦ next s.1 ]

-- A round, once `NewPageMap` gave `r`; `child` copies the maps of the level below, `next` is the rest.
unfoldable pub copy_round :
    (Machine → Option (Error × Machine))
    → (ℕ → ℕ → Machine → Option (Error × Machine))
    → ℕ
    → ℕ
    → ℕ
    → WithError ℕ × Machine
    → Option (Error × Machine)
copy_round next child i dest src r = elim (is_error r.0.error) [
  | true ↦ some (r.0.error, r.1)
  | false ↦
      let copied = store r.1 dest i (r.1.words src i) in
      let linked = store copied dest i (set_pointer r.0.value (copied.words dest i)) in
      and_then (child r.0.value (pointer (linked.words src i)) linked) (copy_rest next)
]

unfoldable pub copy_loop :
    (ℕ → ℕ → Machine → Option (Error × Machine))
    → ℕ
    → ℕ
    → ℕ
    → ℕ
    → Machine
    → Option (Error × Machine)
copy_loop child zero i dest src m = some (success, m)
copy_loop child (suc rounds) i dest src m = elim (present (m.words src i)) [
  | false ↦ copy_loop child rounds (i + 1) dest src m
  | true ↦
      and_then (new_page_map m)
        (copy_round (copy_loop child rounds (i + 1) dest src) child i dest src)
]

unfoldable pub copy_page_maps : ℕ → ℕ → ℕ → ℕ → Machine → Option (Error × Machine)
copy_page_maps zero dest src start m = none
copy_page_maps (suc zero) dest src start m =
    some (success, copy_entries (512 - start) start dest src m)
copy_page_maps (suc part) dest src start m =
    copy_loop (λ table child. copy_page_maps part table child 0) (512 - start) start dest src m

-- What `HandlePageFault` reads of the current task.
pub record DPaging : Type 0 where
  pub begin : ℕ
  pub end : ℕ

unfoldable pub handle_page_fault :
    (Machine → ℕ → ℕ) → DPaging → ℕ → ℕ → Machine → Option (Error × Machine)
handle_page_fault mmu task error_code causal_addr m =
    let present = error_code % 2 == 1 in
    let rw = error_code / 2 % 2 == 1 in
    let user = error_code / 4 % 2 == 1 in
    if present && (rw && user)
    then copy_one_page mmu causal_addr m
    else if present
    then some (already_allocated, m)
    else if leb task.begin causal_addr && ltb causal_addr task.end
    then setup_page_maps causal_addr 1 true m
    else some (index_out_of_range, m)
