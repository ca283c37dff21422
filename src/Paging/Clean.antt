-- ===== src/Paging/Clean.antt =====
-- `CleanPageMap`, kernel/paging.cpp: an application's maps are freed when it ends.
use kin_os.Base.{ℕ, zero, suc, ◌+◌, ◌-◌, true, false, if◌then◌else◌}
use kin_os.Error.{Error, success}
use kin_os.Memory.{free}
use kin_os.Paging.{Machine, store, part, present, writable, pointer, is_error}

-- `page_map` and `addr`; `CleanPageMap` of one level.
abbrev pub Clean : Type 0
Clean = ℕ → ℕ → Machine → Error × Machine

-- The frame of an entry that is writable is freed.
pub free_entry : ℕ → Machine → Error × Machine
free_entry entry m =
    if writable entry
    then (let r = free m.frames (pointer entry) 1 in (r.0, record m { frames = r.1 }))
    else (success, m)

-- The loop from `i` on, at a level whose maps below `child` cleans.
pub clean_loop : Clean → ℕ → ℕ → Clean
clean_loop child zero i page_map addr m = (success, m)
clean_loop child (suc rounds) i page_map addr m =
    let entry = m.words page_map i in
    elim (present entry) [
      | false ↦ clean_loop child rounds (i + 1) page_map addr m
      | true ↦
          let below = child (pointer entry) addr m in
          elim (is_error below.0) [
            | true ↦ below
            | false ↦
                let freed = free_entry entry below.1 in
                elim (is_error freed.0) [
                  | true ↦ freed
                  | false ↦
                      clean_loop child rounds (i + 1) page_map addr (store freed.1 page_map i 0)
                ]
          ]
    ]

-- Below level 1 nothing is cleaned.
pub clean_page_map : ℕ → Clean
clean_page_map zero page_map addr m = (success, m)
clean_page_map (suc level) page_map addr m =
    clean_loop (clean_page_map level) (512 - part (suc level) addr) (part (suc level) addr) page_map
      addr m

pub clean_page_maps : ℕ → Machine → Error × Machine
clean_page_maps addr m = clean_page_map 4 m.cr3 addr m
