-- ===== src/Fs/Names.antt =====
-- The names of directory entries, servers/fs/fs.cpp: eleven bytes, eight and three, padded with spaces,
-- against a C string, the list of its characters before the final 0.
use mathlib.Core.List.{append-nil}
use kin_os.Base.{
  ℕ, zero, suc, ◌+◌, ◌-◌, ◌≤◌, ◌≡◌, refl, sym, ap, ◌∙◌, Bool, true, false, ◌&&◌, ◌||◌, Option, none,
  some, List, [], ◌∷◌, ◌++◌, ◌==◌, leb, if◌then◌else◌, length, set, replicate, arith,
}

-- `toupper` in the C locale.
abbrev pub to_upper : ℕ → ℕ
to_upper c = if leb b'a' c && leb c b'z' then c - 32 else c

abbrev pub spaces : List ℕ
spaces = replicate 11 0x20

-- The loop of `NameIsEqual`: a dot sets `i83` to 7, which the loop then increments.
abbrev pub name83 : List ℕ → ℕ → List ℕ → List ℕ
name83 [] i83 buf = buf
name83 (c ∷ cs) i83 buf =
    let dot = name83 cs 8 buf in
    let letter = name83 cs (i83 + 1) (set buf i83 (to_upper c)) in
    if leb 11 i83 then buf else if c == b'.' then dot else letter

abbrev pub same_bytes : List ℕ → List ℕ → Bool
same_bytes [] [] = true
same_bytes [] (d ∷ ds) = false
same_bytes (c ∷ cs) [] = false
same_bytes (c ∷ cs) (d ∷ ds) = (c == d) && same_bytes cs ds

unfoldable pub name_is_equal : List ℕ → List ℕ → Bool
name_is_equal entry_name name = same_bytes entry_name (name83 name 0 spaces)

-- `strrchr(name, '.')`: what is before the last dot, and what is behind it.
abbrev pub split_dot : List ℕ → Option (List ℕ × List ℕ)
split_dot [] = none
split_dot (c ∷ cs) = elim (split_dot cs) [
  | some (base, ext) ↦ some (c ∷ base, ext)
  | none ↦ if c == b'.' then some ([], cs) else none
]

-- Up to `n` characters written from `i` on.
abbrev pub put_upper : ℕ → ℕ → List ℕ → List ℕ → List ℕ
put_upper zero i cs buf = buf
put_upper (suc n) i [] buf = buf
put_upper (suc n) i (c ∷ cs) buf = put_upper n (i + 1) cs (set buf i (to_upper c))

unfoldable pub set_file_name : List ℕ → List ℕ
set_file_name name = elim (split_dot name) [
  | some (base, ext) ↦ put_upper 3 8 ext (put_upper 8 0 base spaces)
  | none ↦ put_upper 8 0 name spaces
]

abbrev pub has_dot : List ℕ → Bool
has_dot [] = false
has_dot (c ∷ cs) = (c == b'.') || has_dot cs

split_dot-none : (cs : List ℕ) → has_dot cs ≡ false → split_dot cs ≡ none
split_dot-none [] h = refl
split_dot-none (c ∷ cs) h = ground (arith, split_dot-none cs)

split_dot-some :
    (base ext : List ℕ) → has_dot ext ≡ false → split_dot (base ++ (b'.' ∷ ext)) ≡ some (base, ext)
split_dot-some [] ext h = rw (split_dot-none ext h) refl
split_dot-some (c ∷ base) ext h = rw (split_dot-some base ext h) refl

-- A run without a dot that has room is written as `SetFileName` writes it.
name83-run :
    (cs rest : List ℕ) (n i : ℕ) (buf : List ℕ)
    → has_dot cs ≡ false
    → length cs ≤ n
    → i + length cs ≤ 11
    → name83 (cs ++ rest) i buf ≡ name83 rest (i + length cs) (put_upper n i cs buf)
name83-run [] rest zero i buf h le fits = ap (λ k. name83 rest k buf) (omega arith)
name83-run [] rest (suc n) i buf h le fits = ap (λ k. name83 rest k buf) (omega arith)
name83-run (c ∷ cs) rest zero i buf h le fits = absurd (omega arith)
name83-run (c ∷ cs) rest (suc n) i buf h le fits =
    let room : leb 11 i ≡ false = ground arith in
    let letter : (c == b'.') ≡ false = ground arith in
    rw (room, letter)
      (name83-run cs rest n (i + 1) (set buf i (to_upper c)) (ground arith) (omega arith)
          (omega arith)
        ∙ ap (λ k. name83 rest k (put_upper n (i + 1) cs (set buf i (to_upper c)))) (omega arith))

same_bytes_refl : (cs : List ℕ) → same_bytes cs cs ≡ true
same_bytes_refl [] = refl
same_bytes_refl (c ∷ cs) = ground (arith, same_bytes_refl cs)

-- The same at the end of the name.
name83-end :
    (cs : List ℕ) (n i : ℕ) (buf : List ℕ)
    → has_dot cs ≡ false
    → length cs ≤ n
    → i + length cs ≤ 11
    → name83 cs i buf ≡ put_upper n i cs buf
name83-end cs n i buf h le fits =
    ap (λ ds. name83 ds i buf) (sym (append-nil cs)) ∙ name83-run cs [] n i buf h le fits

-- A name: the base, and the extension behind a dot if there is one.
abbrev pub full_name : List ℕ → Option (List ℕ) → List ℕ
full_name base none = base
full_name base (some ext) = base ++ (b'.' ∷ ext)

-- The name fits an entry: no dot but that one, eight characters and three.
abbrev pub Fits : List ℕ → Option (List ℕ) → Type 0
Fits base none = (has_dot base ≡ false) × (length base ≤ 8)
Fits base (some ext) =
    (has_dot base ≡ false) × (length base ≤ 8) × (has_dot ext ≡ false) × (length ext ≤ 3)

name83-dotted :
    (base ext : List ℕ)
    → Fits base (some ext)
    → name83 (base ++ (b'.' ∷ ext)) 0 spaces ≡ put_upper 3 8 ext (put_upper 8 0 base spaces)
name83-dotted base ext (h, le, g, short) =
    let room : leb 11 (0 + length base) ≡ false = ground arith in
    name83-run base (b'.' ∷ ext) 8 0 spaces h le (omega arith)
    ∙ rw room (name83-end ext 3 8 (put_upper 8 0 base spaces) g short (omega arith))

-- The entry that `SetFileName` writes for a name of up to eight characters, alone or with a dot and up to
-- three more, and no other dot, has that name for `NameIsEqual`.
pub name_is_equal-set_file_name :
    (base : List ℕ) (ext : Option (List ℕ))
    → Fits base ext
    → name_is_equal (set_file_name (full_name base ext)) (full_name base ext) ≡ true
unfolding name_is_equal set_file_name
name_is_equal-set_file_name base none (h, le) =
    let e : name83 base 0 spaces ≡ put_upper 8 0 base spaces =
      name83-end base 8 0 spaces h le (omega arith) in
    rw (name_is_equal, e)
      (rw (set_file_name, split_dot-none base h) (same_bytes_refl (put_upper 8 0 base spaces)))
name_is_equal-set_file_name base (some ext) (h, le, g, short) =
    let e : name83 (base ++ (b'.' ∷ ext)) 0 spaces ≡ put_upper 3 8 ext (put_upper 8 0 base spaces) =
      name83-dotted base ext (h, le, g, short) in
    rw (name_is_equal, e)
      (rw (set_file_name, split_dot-some base ext g)
        (same_bytes_refl (put_upper 3 8 ext (put_upper 8 0 base spaces))))
