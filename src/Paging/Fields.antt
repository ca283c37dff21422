-- ===== src/Paging/Fields.antt =====
-- What a write of one bit field leaves of the others, in entries and in linear addresses.
use kin_os.Base.{
  ℕ, zero, suc, ◌%◌, ◌^◌, ◌≤◌, ◌<◌, ◌≡◌, Bool, true, false, ◌==◌, arith, if◌then◌else◌,
}
use kin_os.Paging.{
  part, set_part, present, writable, user, pointer, set_present, set_writable, set_user,
  set_pointer,
}

-- The four fields of an entry that the code reads.
abbrev pub Reads : ℕ → Bool → Bool → Bool → ℕ → Type 0
Reads entry p w u a =
    (present entry ≡ p) × (writable entry ≡ w) × (user entry ≡ u) × (pointer entry ≡ a)

pub Reads-set_present :
    (b : Bool) (e : ℕ) → Reads (set_present b e) b (writable e) (user e) (pointer e)
unfolding set_present
Reads-set_present true e = ground arith
Reads-set_present false e = ground arith

pub Reads-set_writable :
    (b : Bool) (e : ℕ) → Reads (set_writable b e) (present e) b (user e) (pointer e)
unfolding set_writable
Reads-set_writable true e = ground arith
Reads-set_writable false e = ground arith

pub Reads-set_user :
    (b : Bool) (e : ℕ) → Reads (set_user b e) (present e) (writable e) b (pointer e)
unfolding set_user
Reads-set_user true e = ground arith
Reads-set_user false e = ground arith

pub Reads-set_pointer :
    (p e : ℕ) → p < 2 ^ 40 → Reads (set_pointer p e) (present e) (writable e) (user e) p
unfolding set_pointer
Reads-set_pointer p e h = ground arith

-- What holds of each level holds of all.
up_to_four : (P : ℕ → Type 0) (k : ℕ) → k ≤ 4 → P 0 → P 1 → P 2 → P 3 → P 4 → P k
up_to_four P zero h a b c d e = a
up_to_four P (suc zero) h a b c d e = b
up_to_four P (suc (suc zero)) h a b c d e = c
up_to_four P (suc (suc (suc zero))) h a b c d e = d
up_to_four P (suc (suc (suc (suc zero)))) h a b c d e = e
up_to_four P (suc (suc (suc (suc (suc k))))) h a b c d e = absurd (omega arith)

-- The value that a part of `level` keeps of `v`.
abbrev pub cut : ℕ → ℕ → ℕ
cut zero v = v % 4096
cut (suc level) v = v % 512

-- Part `k` after `SetPart(level, v)`.
abbrev pub part_after : ℕ → ℕ → ℕ → ℕ → ℕ
part_after level v addr k = if k == level then cut level v else part k addr

Kept : ℕ → ℕ → ℕ → ℕ → Type 0
Kept v addr level k = part k (set_part level v addr) ≡ part_after level v addr k

part_of_each : (v addr level : ℕ) → level ≤ 4 → (k : ℕ) → k ≤ 4 → Kept v addr level k
unfolding Kept part set_part
part_of_each v addr level lo k hi =
    up_to_four (λ l. Kept v addr l k) level lo
      (up_to_four (Kept v addr 0) k hi (omega arith) (omega arith) (omega arith) (omega arith)
        (omega arith))
      (up_to_four (Kept v addr 1) k hi (omega arith) (omega arith) (omega arith) (omega arith)
        (omega arith))
      (up_to_four (Kept v addr 2) k hi (omega arith) (omega arith) (omega arith) (omega arith)
        (omega arith))
      (up_to_four (Kept v addr 3) k hi (omega arith) (omega arith) (omega arith) (omega arith)
        (omega arith))
      (up_to_four (Kept v addr 4) k hi (omega arith) (omega arith) (omega arith) (omega arith)
        (omega arith))

-- `SetPart` gives its part the value, as many bits as the part has, and keeps each of the others.
pub part-set_part :
    (level v addr k : ℕ)
    → level ≤ 4
    → k ≤ 4
    → part k (set_part level v addr) ≡ part_after level v addr k
unfolding Kept
part-set_part level v addr k lo hi = part_of_each v addr level lo k hi
