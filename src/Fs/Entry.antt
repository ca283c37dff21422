-- ===== src/Fs/Entry.antt =====
-- Directory entries and paths, servers/fs/fs.hpp and servers/fs/fs.cpp. A C string is the list of its
-- characters before the final 0.
use Prim.Native.Nat.{bit_or}
use kin_os.Base.{
  ℕ, ◌*◌, ◌%◌, ◌^◌, ◌≡◌, refl, Bool, false, ◌||◌, Option, none, some, List, [], ◌∷◌, ◌++◌, ◌==◌,
  if◌then◌else◌, take, drop, arith, ltb, length,
}

pub record DirectoryEntry : Type 0 where
  pub name : List ℕ
  pub attr : ℕ
  pub ntres : ℕ
  pub create_time_tenth : ℕ
  pub create_time : ℕ
  pub create_date : ℕ
  pub last_access_date : ℕ
  pub first_cluster_high : ℕ
  pub write_time : ℕ
  pub write_date : ℕ
  pub first_cluster_low : ℕ
  pub file_size : ℕ

unfoldable pub first_cluster : DirectoryEntry → ℕ
first_cluster e = bit_or e.first_cluster_low (e.first_cluster_high * 2 ^ 16 % 2 ^ 32)

-- The element before the first slash, and what is behind the slash if there is one.
unfoldable pub split_element : List ℕ → List ℕ × Option (List ℕ)
split_element [] = ([], none)
split_element (c ∷ cs) =
    let (elem, next) = split_element cs in if c == b'/' then ([], some cs) else (c ∷ elem, next)

-- `NextPathElement` into an array of `room` characters; an element that does not fit with its 0 at the end
-- is undefined behaviour.
unfoldable pub next_path_element : (room : ℕ) → List ℕ → Option (List ℕ × Option (List ℕ))
unfolding split_element
next_path_element room path =
    let r = split_element path in if ltb (length r.0) room then some r else none

-- Spaces at the end go.
abbrev pub strip : List ℕ → List ℕ
strip [] = []
strip (c ∷ cs) = elim (strip cs) [ [] ↦ if c == 0x20 then [] else c ∷ [] | d ∷ ds ↦ c ∷ d ∷ ds ]

-- `ReadName`: the base and the extension.
unfoldable pub read_name : DirectoryEntry → List ℕ × List ℕ
read_name e = (strip (take 8 e.name), strip (take 3 (drop 8 e.name)))

abbrev pub has_slash : List ℕ → Bool
has_slash [] = false
has_slash (c ∷ cs) = (c == b'/') || has_slash cs

abbrev pub joined : List ℕ → Option (List ℕ) → List ℕ
joined elem none = elem
joined elem (some next) = elem ++ (b'/' ∷ next)

next_cons :
    (c : ℕ) (cs : List ℕ)
    → split_element (c ∷ cs)
      ≡ (if c == b'/' then ([], some cs) else (c ∷ (split_element cs).0, (split_element cs).1))
unfolding split_element
next_cons c cs = refl

joined_cons :
    (c : ℕ) (elem : List ℕ) (next : Option (List ℕ)) → joined (c ∷ elem) next ≡ c ∷ joined elem next
joined_cons c elem none = refl
joined_cons c elem (some next) = refl

-- The element and the rest, with the slash between them if there was one, are the path, and the element
-- has no slash.
pub split_element-joined :
    (path : List ℕ)
    → (joined (split_element path).0 (split_element path).1 ≡ path)
      × (has_slash (split_element path).0 ≡ false)
split_element-joined [] = unfold split_element in (refl, refl)
split_element-joined (c ∷ cs) = ground (
  arith,
  next_cons c cs,
  joined_cons c (split_element cs).0 (split_element cs).1,
  split_element-joined cs,
)
