-- ===== src/Paging.antt =====
-- The page tables, kernel/paging.cpp and kernel/paging.hpp: mapping of pages, demand paging and copy
-- on write.
--
-- A page is its frame's number, and physical memory gives each page 512 words of 64 bits. Tables are
-- pages: a `PageMapEntry *` always is the start of one, so it is the number of its frame, which
-- `Pointer` and `SetPointer` shift by 12 bits. The bit fields of the two unions are `field` and
-- `set_field` on words. `none` stands for a level outside 1 to 4, which no caller asks for.
-- Registers and the flush of the TLB are not modelled, but for `CR3`.
use kin_os.Base.{
  ℕ, zero, suc, ◌+◌, ◌-◌, ◌*◌, ◌/◌, ◌%◌, ◌^◌, Bool, true, false, ◌&&◌, Option, none, some, ◌==◌,
  leb, ltb, if◌then◌else◌, and_then,
}
use mathlib.Core.Option
use kin_os.Error.{Error, success, already_allocated, index_out_of_range, WithError}
use kin_os.Memory.{BitmapMemoryManager, allocate, free}
pub mod Fields
pub mod Numbers
pub mod Extends
pub mod Entry
pub mod Flags
pub mod Says
pub mod Setup
pub mod Clean
pub mod Identity
mod Tests
pub mod Write
pub mod Ways
pub mod Copy
pub mod Fault
pub mod Share
pub mod CopyMaps
pub mod CopyLoop

-- A bit field whose lowest bit has the weight `low`, and that has `size` values.
abbrev pub field : ℕ → ℕ → ℕ → ℕ
field low size word = word / low % size

abbrev pub set_field : ℕ → ℕ → ℕ → ℕ → ℕ
set_field low size v word = word - (word / low % size) * low + (v % size) * low

-- `LinearAddress4Level::Part`
pub part : ℕ → ℕ → ℕ
part zero addr = field 1 4096 addr
part (suc zero) addr = field 4096 512 addr
part (suc (suc zero)) addr = field 2097152 512 addr
part (suc (suc (suc zero))) addr = field 1073741824 512 addr
part (suc (suc (suc (suc zero)))) addr = field 549755813888 512 addr
part _ addr = 0

pub set_part : ℕ → ℕ → ℕ → ℕ
set_part zero v addr = set_field 1 4096 v addr
set_part (suc zero) v addr = set_field 4096 512 v addr
set_part (suc (suc zero)) v addr = set_field 2097152 512 v addr
set_part (suc (suc (suc zero))) v addr = set_field 1073741824 512 v addr
set_part (suc (suc (suc (suc zero)))) v addr = set_field 549755813888 512 v addr
set_part _ v addr = addr

-- `PageMapEntry`
abbrev pub present : ℕ → Bool
present entry = field 1 2 entry == 1

abbrev pub writable : ℕ → Bool
writable entry = field 2 2 entry == 1

abbrev pub user : ℕ → Bool
user entry = field 4 2 entry == 1

abbrev pub pointer : ℕ → ℕ
pointer entry = field 4096 (2 ^ 40) entry

abbrev pub bit : Bool → ℕ
bit true = 1
bit false = 0

pub set_present : Bool → ℕ → ℕ
set_present b entry = set_field 1 2 (bit b) entry

pub set_writable : Bool → ℕ → ℕ
set_writable b entry = set_field 2 2 (bit b) entry

pub set_user : Bool → ℕ → ℕ
set_user b entry = set_field 4 2 (bit b) entry

pub set_pointer : ℕ → ℕ → ℕ
set_pointer p entry = set_field 4096 (2 ^ 40) p entry

pub record Machine : Type 0 where
  pub words : ℕ → ℕ → ℕ
  pub frames : BitmapMemoryManager
  pub cr3 : ℕ

-- A write of one word of a page.
abbrev pub store : Machine → ℕ → ℕ → ℕ → Machine
store m page i word =
    let words = m.words in
    record m { words = λ p j. if p == page && j == i then word else words p j }

-- A write of all the words of a page.
abbrev pub store_page : Machine → ℕ → (ℕ → ℕ) → Machine
store_page m page content =
    let words = m.words in record m { words = λ p j. if p == page then content j else words p j }

abbrev pub is_error : Error → Bool
is_error success = false
is_error _ = true

pub new_page_map : Machine → Option (WithError ℕ × Machine)
new_page_map m = and_then (allocate m.frames 1) (λ r.
    if is_error r.0.error
    then some (record { value = 0; error = r.0.error }, record m { frames = r.1 })
    else some (
      record { value = r.0.value; error = success },
      store_page (record m { frames = r.1 }) r.0.value (λ _. 0),
    ))

pub free_page_map : ℕ → Machine → Error × Machine
free_page_map table m = let r = free m.frames table 1 in (r.0, record m { frames = r.1 })

-- `SetNewPageMapIfNotPresent(page_map[i])`
pub set_new_page_map_if_not_present : ℕ → ℕ → Machine → Option (WithError ℕ × Machine)
set_new_page_map_if_not_present page_map i m =
    if present (m.words page_map i)
    then some (record { value = pointer (m.words page_map i); error = success }, m)
    else Option.map
        (λ r. if is_error r.0.error then r else (
          r.0,
          store r.1 page_map i (set_present true (set_pointer r.0.value (r.1.words page_map i))),
        ))
        (new_page_map m)

-- `page_map`, `addr`, `num_4kpages` and `writable`; the value is the number of pages that remain.
abbrev pub Setup : Type 0
Setup = ℕ → ℕ → ℕ → Bool → Machine → Option (WithError ℕ × Machine)

-- `for (level = page_map_level - 1; level >= 1; --level) addr.SetPart(level, 0)`
pub clear_parts : ℕ → ℕ → ℕ
clear_parts zero addr = addr
clear_parts (suc level) addr = clear_parts level (set_part (suc level) 0 addr)

pub next_addr : ℕ → ℕ → ℕ
next_addr level addr = clear_parts (level - 1) (set_part level (part level addr + 1) addr)

-- The flags of an entry, and the call for the map below it.
pub setup_entry : ℕ → Setup → ℕ → ℕ → Setup
setup_entry (suc zero) child page_map i child_map addr n w m =
    let user_set = store m page_map i (set_user true (m.words page_map i)) in
    some (
      record { value = n - 1; error = success },
      store user_set page_map i (set_writable w (user_set.words page_map i)),
    )
setup_entry _ child page_map i child_map addr n w m =
    let user_set = store m page_map i (set_user true (m.words page_map i)) in
    child child_map addr n w
      (store user_set page_map i (set_writable true (user_set.words page_map i)))

-- The end of a round of the loop: the next entry, unless there was an error or the map ends. `n` is
-- the number of pages before the round, `next` the other rounds.
pub setup_rest :
    (ℕ → ℕ → Machine → Option (WithError ℕ × Machine))
    → ℕ
    → ℕ
    → ℕ
    → WithError ℕ × Machine
    → Option (WithError ℕ × Machine)
setup_rest next level addr n s = elim (is_error s.0.error) [
  | true ↦ some (record { value = n; error = s.0.error }, s.1)
  | false ↦ elim (part level addr == 511) [
    | true ↦ some (record { value = s.0.value; error = success }, s.1)
    | false ↦ next (next_addr level addr) s.0.value s.1
  ]
]

-- A round, once `SetNewPageMapIfNotPresent` gave `r`.
pub setup_round :
    (ℕ → ℕ → Machine → Option (WithError ℕ × Machine))
    → ℕ
    → Setup
    → ℕ
    → ℕ
    → ℕ
    → Bool
    → WithError ℕ × Machine
    → Option (WithError ℕ × Machine)
setup_round next level child page_map addr n w r = elim (is_error r.0.error) [
  | true ↦ some (record { value = n; error = r.0.error }, r.1)
  | false ↦
      and_then (setup_entry level child page_map (part level addr) r.0.value addr n w r.1)
        (setup_rest next level addr n)
]

-- The `while` loop of `SetupPageMap`. The index grows each round, so that 512 are enough.
pub setup_loop : ℕ → Setup → ℕ → Setup
setup_loop level child zero page_map addr n w m = none
setup_loop level child (suc rounds) page_map addr zero w m =
    some (record { value = 0; error = success }, m)
setup_loop level child (suc rounds) page_map addr (suc n) w m =
    and_then (set_new_page_map_if_not_present page_map (part level addr) m) (
      setup_round (λ addr n m. setup_loop level child rounds page_map addr n w m) level child
        page_map addr (suc n) w)

pub setup_page_map : ℕ → Setup
setup_page_map zero page_map addr n w m = none
setup_page_map (suc level) page_map addr n w m =
    setup_loop (suc level) (setup_page_map level) 512 page_map addr n w m

pub setup_page_maps : ℕ → ℕ → Bool → Machine → Option (Error × Machine)
setup_page_maps addr n w m = Option.map (λ r. (r.0.error, r.1)) (setup_page_map 4 m.cr3 addr n w m)
