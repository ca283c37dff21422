-- ===== src/Paging/Numbers.antt =====
-- Page numbers: the entry that a table of a level has for a page, and where the entry's pages end.
use kin_os.Base.{ℕ, zero, suc, ◌+◌, ◌*◌, ◌/◌, ◌%◌, ◌^◌, ◌≤◌, ◌<◌, ◌≡◌, arith}
use kin_os.Paging.{part, set_part, clear_parts, next_addr}

-- The first page after those of the entry for `page` in a table of level `level + 1`: after those
-- of the table of level `level` itself.
abbrev pub end : ℕ → ℕ → ℕ
end level page = (page / 512 ^ level + 1) * 512 ^ level

abbrev pub index : ℕ → ℕ → ℕ
index level page = page / 512 ^ level % 512

pub part-eq-index : (level addr : ℕ) → level < 4 → part (suc level) addr ≡ index level (addr / 4096)
unfolding part
part-eq-index zero addr h = omega arith
part-eq-index (suc zero) addr h = omega arith
part-eq-index (suc (suc zero)) addr h = omega arith
part-eq-index (suc (suc (suc zero))) addr h = omega arith
part-eq-index (suc (suc (suc (suc level)))) addr h = absurd (omega arith)

pub next_addr-page :
    (level addr : ℕ)
    → level < 4
    → index level (addr / 4096) < 511
    → next_addr (suc level) addr / 4096 ≡ end level (addr / 4096)
unfolding next_addr clear_parts set_part part
next_addr-page zero addr h lt = omega arith
next_addr-page (suc zero) addr h lt = omega arith
next_addr-page (suc (suc zero)) addr h lt = omega arith
next_addr-page (suc (suc (suc zero))) addr h lt = omega arith
next_addr-page (suc (suc (suc (suc level)))) addr h lt = absurd (omega arith)

pub end_above : (level page : ℕ) → level < 4 → page < end level page
end_above zero page h = omega arith
end_above (suc zero) page h = omega arith
end_above (suc (suc zero)) page h = omega arith
end_above (suc (suc (suc zero))) page h = omega arith
end_above (suc (suc (suc (suc level)))) page h = absurd (omega arith)

-- The pages up to the end have the same entry.
pub same_index :
    (level page q : ℕ)
    → level < 4
    → page ≤ q
    → q < end level page
    → index level q ≡ index level page
same_index zero page q h le lt = omega arith
same_index (suc zero) page q h le lt = omega arith
same_index (suc (suc zero)) page q h le lt = omega arith
same_index (suc (suc (suc zero))) page q h le lt = omega arith
same_index (suc (suc (suc (suc level)))) page q h le lt = absurd (omega arith)

pub end_last :
    (level page : ℕ) → level < 4 → index level page ≡ 511 → end (suc level) page ≡ end level page
end_last zero page h e = omega arith
end_last (suc zero) page h e = omega arith
end_last (suc (suc zero)) page h e = omega arith
end_last (suc (suc (suc zero))) page h e = omega arith
end_last (suc (suc (suc (suc level)))) page h e = absurd (omega arith)

-- From the end the next entry begins, in the same table.
pub index-end :
    (level page : ℕ)
    → level < 4
    → index level page < 511
    → (index level (end level page) ≡ index level page + 1)
      × (end (suc level) (end level page) ≡ end (suc level) page)
      × (end level page < end (suc level) page)
index-end zero page h lt = omega arith
index-end (suc zero) page h lt = omega arith
index-end (suc (suc zero)) page h lt = omega arith
index-end (suc (suc (suc zero))) page h lt = omega arith
index-end (suc (suc (suc (suc level)))) page h lt = absurd (omega arith)
