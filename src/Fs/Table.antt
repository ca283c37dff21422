-- ===== src/Fs/Table.antt =====
-- The table behind the one-sector buffer: what reading and writing an entry comes to.
use native.Mathlib.Omega.{div_any}
use kin_os.Base.{
  ℕ, ◌*◌, ◌/◌, ◌%◌, ◌^◌, ◌≡◌, refl, ap, ◌==◌, if◌then◌else◌, Bool-cases, inl, inr, arith,
}
use kin_os.Fs.{
  Fat, sector_of, index_of, get_fat, update_fat, end_of_chain, is_end, next_cluster, set_entry,
}

-- The entry of a cluster, on the volume.
unfoldable pub entry : Fat → ℕ → ℕ
entry s cluster = s.volume (sector_of s cluster) (index_of s cluster)

-- Two clusters with one sector and one place there are the same.
place_inj :
    (s : Fat) (c j : ℕ) → sector_of s c ≡ sector_of s j → index_of s c ≡ index_of s j → c ≡ j
place_inj s c j e f =
    let q : c / s.per_sector ≡ j / s.per_sector = omega arith in
    let m : s.per_sector * (c / s.per_sector) ≡ s.per_sector * (j / s.per_sector) =
      ap (λ k. s.per_sector * k) q in
    omega (arith, m, f, div_any c s.per_sector, div_any j s.per_sector)

-- Reading leaves the volume and gives the entry.
pub get_fat_lem :
    (s : Fat) (c : ℕ)
    → ((get_fat s c).1.fat (get_fat s c).0 ≡ entry s c)
      × ((j : ℕ) → entry (get_fat s c).1 j ≡ entry s j)
unfolding get_fat entry
get_fat_lem s c = (refl, λ j. refl)

-- `GetFAT`, a store to the buffer and `UpdateFAT` write the one entry, in 32 bits: the rest of the
-- sector, and the other sectors, are as they were.
pub entry-set_entry :
    (s : Fat) (c v j : ℕ) → entry (set_entry s c v) j ≡ (if c == j then v % 2 ^ 32 else entry s j)
unfolding entry set_entry get_fat update_fat
entry-set_entry s c v j = elim (Bool-cases (c == j)) [
  | inl e ↦ let p : c ≡ j = ground arith in ground arith
  | inr e ↦ elim (Bool-cases (sector_of s c == sector_of s j)) [
    | inl f ↦ elim (Bool-cases (index_of s c == index_of s j)) [
      | inl g ↦
          let p : c ≡ j = place_inj s c j (ground arith) (ground arith) in absurd (ground arith)
      | inr g ↦ rw e (ground arith)
    ]
    | inr f ↦ rw e (ground arith)
  ]
]

-- `NextCluster`: the entry, every mark of the end as the one; the table stays.
pub next_cluster_lem :
    (s : Fat) (c j : ℕ)
    → ((next_cluster s c).0 ≡ (if is_end (entry s c) then end_of_chain else entry s c))
      × (entry (next_cluster s c).1 j ≡ entry s j)
unfolding next_cluster get_fat entry
next_cluster_lem s c j = (refl, refl)
