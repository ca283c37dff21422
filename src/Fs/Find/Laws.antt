-- ===== src/Fs/Find/Laws.antt =====
-- What `FindFile` finds, by the names of the path.
use mathlib.Core.Path.{subst}
use mathlib.Core.List.{append-nil}
use kin_os.Base.{
  ℕ, zero, suc, ◌<◌, ◌≡◌, refl, sym, ap, ◌∙◌, Bool, true, false, ◌&&◌, not, Option, none, some,
  List, [], ◌∷◌, ◌++◌, ◌==◌, if◌then◌else◌, ltb, length, arith, Bool-cases, Option-cases, inl, inr,
}
use kin_os.Fs.{Fat, next_cluster, end_of_chain, get_fat}
use kin_os.Fs.Names.{name_is_equal}
use kin_os.Fs.Volume.{Bpb}
use kin_os.Fs.Entry.{DirectoryEntry, first_cluster, next_path_element, split_element, has_slash}
use kin_os.Fs.Data.{Disk}
use kin_os.Fs.Find.{
  dir_entries, find_name, scan_directory, directory, begin, path_last, post_slash, rest_of,
  find_file, path_elem_size,
}

-- The clusters of a directory, up to the end of its chain.
abbrev pub DirWalk : Fat → ℕ → List ℕ → Type 0
DirWalk s c [] = (c == end_of_chain) ≡ true
DirWalk s c (d ∷ ds) = (c ≡ d) × ((c == end_of_chain) ≡ false) × DirWalk s (next_cluster s c).0 ds

abbrev pub listing : Bpb → Disk → List ℕ → List DirectoryEntry
listing b disk [] = []
listing b disk (c ∷ cs) = dir_entries b disk c ++ listing b disk cs

DirWalk-buffer :
    (s : Fat) (c d : ℕ) (cs : List ℕ) → DirWalk s d cs → DirWalk (next_cluster s c).1 d cs
unfolding next_cluster get_fat
DirWalk-buffer s c d [] w = w
DirWalk-buffer s c d (e ∷ cs) w = (w.0, w.1, DirWalk-buffer s c (next_cluster s d).0 cs w.2)

find_name-append :
    (name : List ℕ) (xs ys : List DirectoryEntry)
    → find_name name (xs ++ ys)
      ≡ (elim (find_name name xs) [ some e ↦ some e | none ↦ find_name name ys ])
unfolding find_name
find_name-append name [] ys = refl
find_name-append name (x ∷ xs) ys = elim (Bool-cases (name_is_equal x.name name)) [
  | inl e ↦ rw e refl
  | inr e ↦ rw e (find_name-append name xs ys)
]

scan_directory_lem :
    (fuel : ℕ) (b : Bpb) (disk : Disk) (s : Fat) (name : List ℕ) (c : ℕ) (cs : List ℕ)
    → length cs < fuel
    → DirWalk s c cs
    → scan_directory fuel b disk s name c ≡ some (find_name name (listing b disk cs))
unfolding scan_directory find_name
scan_directory_lem zero b disk s name c cs lt w = absurd (omega arith)
scan_directory_lem (suc fuel) b disk s name c [] lt w = rw (scan_directory, w) refl
scan_directory_lem (suc fuel) b disk s name c (d ∷ cs) lt w =
    let here : find_name name (dir_entries b disk d) ≡ find_name name (dir_entries b disk c) =
      ap (λ k. find_name name (dir_entries b disk k)) (sym w.0) in
    let all = find_name-append name (dir_entries b disk d) (listing b disk cs) in
    elim (Option-cases (find_name name (dir_entries b disk c))) [
      | inl n ↦
          let ih =
            scan_directory_lem fuel b disk (next_cluster s c).1 name (next_cluster s c).0 cs
              (omega arith) (DirWalk-buffer s c (next_cluster s c).0 cs w.2) in
          let m : find_name name (dir_entries b disk d) ≡ none = here ∙ n in
          rw (scan_directory, w.1) (rw n (ih ∙ ap some (sym (all ∙ rw m refl))))
      | inr (e, y) ↦
          let m : find_name name (dir_entries b disk d) ≡ some e = here ∙ y in
          rw (scan_directory, w.1) (rw y (ap some (sym (all ∙ rw m refl))))
    ]

-- Names with slashes between them.
abbrev pub path_of : List ℕ → List (List ℕ) → List ℕ
path_of n [] = n
path_of n (m ∷ ms) = n ++ (b'/' ∷ path_of m ms)

-- A name of a path: not empty, without a slash, and not longer than `path_elem` can hold.
abbrev pub is_name : List ℕ → Bool
is_name [] = false
is_name (c ∷ cs) = not (has_slash (c ∷ cs)) && ltb (length (c ∷ cs)) path_elem_size

abbrev pub from : Bpb → ℕ → ℕ
from b c = if c == 0 then b.root_cluster else c

-- What a path leads to from a directory: names, the directory's first cluster, the entry, and whether a slash
-- follows the name at which the search ends.
pub data Finds (fuel : ℕ) (b : Bpb) (disk : Disk) (s : Fat)
    : List (List ℕ) → ℕ → Option DirectoryEntry → Bool → Type 0 where
  ends :
      {n : List ℕ} {c : ℕ} (cs : List ℕ)
      → is_name n ≡ true
      → length cs < fuel
      → DirWalk s (from b c) cs
      → Finds fuel b disk s (n ∷ []) c (find_name n (listing b disk cs)) false
  misses :
      {n m : List ℕ} {ms : List (List ℕ)} {c : ℕ} (cs : List ℕ)
      → is_name n ≡ true
      → is_name m ≡ true
      → length cs < fuel
      → DirWalk s (from b c) cs
      → find_name n (listing b disk cs) ≡ none
      → Finds fuel b disk s (n ∷ m ∷ ms) c none true
  stops :
      {n m : List ℕ} {ms : List (List ℕ)} {c : ℕ} {e : DirectoryEntry} (cs : List ℕ)
      → is_name n ≡ true
      → is_name m ≡ true
      → length cs < fuel
      → DirWalk s (from b c) cs
      → find_name n (listing b disk cs) ≡ some e
      → (e.attr == directory) ≡ false
      → Finds fuel b disk s (n ∷ m ∷ ms) c (some e) true
  enters :
      {n m : List ℕ} {ms : List (List ℕ)} {c : ℕ} {e : DirectoryEntry} {r : Option DirectoryEntry}
      {slash : Bool} (cs : List ℕ)
      → is_name n ≡ true
      → is_name m ≡ true
      → length cs < fuel
      → DirWalk s (from b c) cs
      → find_name n (listing b disk cs) ≡ some e
      → (e.attr == directory) ≡ true
      → Finds fuel b disk s (m ∷ ms) (first_cluster e) r slash
      → Finds fuel b disk s (n ∷ m ∷ ms) c r slash

element_last : (n : List ℕ) → has_slash n ≡ false → split_element n ≡ (n, none)
unfolding split_element
element_last [] h = refl
element_last (c ∷ cs) h = let ih = element_last cs (ground arith) in ground (arith, ih)

element_first :
    (n rest : List ℕ) → has_slash n ≡ false → split_element (n ++ (b'/' ∷ rest)) ≡ (n, some rest)
unfolding split_element
element_first [] rest h = refl
element_first (c ∷ cs) rest h = let ih = element_first cs rest (ground arith) in ground (arith, ih)

-- An element that fits is stored.
stores_element :
    (path n : List ℕ) (next : Option (List ℕ))
    → split_element path ≡ (n, next)
    → ltb (length n) path_elem_size ≡ true
    → next_path_element path_elem_size path ≡ some (n, next)
unfolding next_path_element
stores_element path n next e h = rw (next_path_element, e) (rw h refl)

name_fits : (n : List ℕ) → is_name n ≡ true → ltb (length n) path_elem_size ≡ true
name_fits [] h = absurd (cc h)
name_fits (c ∷ cs) h = ground arith

begin_lem :
    (b : Bpb) (n rest : List ℕ) (c : ℕ)
    → is_name n ≡ true
    → begin b (n ++ rest) c ≡ (n ++ rest, from b c)
begin_lem b [] rest c h = absurd (cc h)
begin_lem b (x ∷ n) rest c h = ground arith

name_slash : (n : List ℕ) → is_name n ≡ true → has_slash n ≡ false
name_slash [] h = absurd (cc h)
name_slash (c ∷ cs) h = ground arith

more_last :
    (m : List ℕ) (ms : List (List ℕ)) → is_name m ≡ true → path_last (some (path_of m ms)) ≡ false
more_last [] ms h = absurd (cc h)
more_last (c ∷ cs) [] h = refl
more_last (c ∷ cs) (m ∷ ms) h = refl

module _ (fuel : ℕ) (b : Bpb) (disk : Disk) (s : Fat) where
  -- How `find_file` goes on from what the directory has under the first name.
  abbrev goes_on :
      ℕ → Option (List ℕ) → Option DirectoryEntry → Option (Option DirectoryEntry × Bool)
  goes_on depth next none = some (none, post_slash next)
  goes_on depth next (some e) = elim ((e.attr == directory) && not (path_last next)) [
    | true ↦ find_file depth fuel b disk s (rest_of next) (first_cluster e)
    | false ↦ some (some e, post_slash next)
  ]

  abbrev with_entry :
      ℕ → Option (List ℕ) → Option (Option DirectoryEntry) → Option (Option DirectoryEntry × Bool)
  with_entry depth next none = none
  with_entry depth next (some r) = goes_on depth next r

  abbrev with_element :
      ℕ → ℕ → Option (List ℕ × Option (List ℕ)) → Option (Option DirectoryEntry × Bool)
  with_element depth cluster none = none
  with_element depth cluster (some (n, next)) =
      with_entry depth next (scan_directory fuel b disk s n cluster)

  one_name :
      (depth : ℕ) (path n : List ℕ) (next : Option (List ℕ)) (c : ℕ) (cs : List ℕ)
      → begin b path c ≡ (path, from b c)
      → next_path_element path_elem_size path ≡ some (n, next)
      → length cs < fuel
      → DirWalk s (from b c) cs
      → find_file (suc depth) fuel b disk s path c
        ≡ goes_on depth next (find_name n (listing b disk cs))
  unfolding find_file
  one_name depth path n next c cs p q lt w =
      ap (λ (x : List ℕ × ℕ). with_element depth x.1 (next_path_element path_elem_size x.0)) p
      ∙ (ap (with_element depth (from b c)) q
          ∙ ap (with_entry depth next) (scan_directory_lem fuel b disk s n (from b c) cs lt w))

  at_last : (depth : ℕ) (r : Option DirectoryEntry) → goes_on depth none r ≡ some (r, false)
  at_last depth none = refl
  at_last depth (some e) = elim (Bool-cases (e.attr == directory)) [
    | inl d ↦ rw (goes_on, d) refl
    | inr d ↦ rw (goes_on, d) refl
  ]

  path_all : List (List ℕ) → List ℕ
  path_all [] = []
  path_all (n ∷ ms) = path_of n ms

  find_file_all :
      (depth : ℕ) {ns : List (List ℕ)} {c : ℕ} {r : Option DirectoryEntry} {slash : Bool}
      → Finds fuel b disk s ns c r slash
      → length ns < depth
      → find_file depth fuel b disk s (path_all ns) c ≡ some (r, slash)
  unfolding path_all
  find_file_all zero f lt = absurd (omega arith)
  find_file_all (suc depth) (ends {n} {c} cs i fits w) lt =
      subst
        (λ p.
          find_file (suc depth) fuel b disk s p c ≡ some (find_name n (listing b disk cs), false))
        (append-nil n)
        (one_name depth (n ++ []) n none c cs (begin_lem b n [] c i)
            (stores_element (n ++ []) n none
              (ap split_element (append-nil n) ∙ element_last n (name_slash n i)) (name_fits n i))
            fits w
          ∙ at_last depth (find_name n (listing b disk cs)))
  find_file_all (suc depth) (misses {n} {m} {ms} {c} cs i j fits w e) lt =
      one_name depth (path_of n (m ∷ ms)) n (some (path_of m ms)) c cs
        (begin_lem b n (b'/' ∷ path_of m ms) c i)
        (stores_element (path_of n (m ∷ ms)) n (some (path_of m ms))
          (element_first n (path_of m ms) (name_slash n i)) (name_fits n i))
        fits w
      ∙ ap (goes_on depth (some (path_of m ms))) e
  find_file_all (suc depth) (stops {n} {m} {ms} {c} cs i j fits w e d) lt =
      one_name depth (path_of n (m ∷ ms)) n (some (path_of m ms)) c cs
        (begin_lem b n (b'/' ∷ path_of m ms) c i)
        (stores_element (path_of n (m ∷ ms)) n (some (path_of m ms))
          (element_first n (path_of m ms) (name_slash n i)) (name_fits n i))
        fits w
      ∙ (ap (goes_on depth (some (path_of m ms))) e ∙ rw (goes_on, d) refl)
  find_file_all (suc depth) (enters {n} {m} {ms} {c} cs i j fits w e d f) lt =
      one_name depth (path_of n (m ∷ ms)) n (some (path_of m ms)) c cs
        (begin_lem b n (b'/' ∷ path_of m ms) c i)
        (stores_element (path_of n (m ∷ ms)) n (some (path_of m ms))
          (element_first n (path_of m ms) (name_slash n i)) (name_fits n i))
        fits w
      ∙ (ap (goes_on depth (some (path_of m ms))) e
          ∙ rw (goes_on, d) (rw (more_last m ms j) (find_file_all depth f (omega arith))))

-- `FindFile` returns for every path of names, not empty, of at most 12 characters and without a slash, whose
-- directories have chains that end: at each directory it goes on from the first entry with the name in the whole chain, enters it
-- if it is a directory and a name follows, and otherwise answers with it, or with null if there is none.
-- Fuel for one round more than a directory has clusters, and for one call more than there are names, is enough.
pub find_file-Finds :
    (depth fuel : ℕ) (b : Bpb) (disk : Disk) (s : Fat) {n : List ℕ} {ms : List (List ℕ)} {c : ℕ}
    {r : Option DirectoryEntry} {slash : Bool}
    → Finds fuel b disk s (n ∷ ms) c r slash
    → length (n ∷ ms) < depth
    → find_file depth fuel b disk s (path_of n ms) c ≡ some (r, slash)
unfolding path_all
find_file-Finds depth fuel b disk s f lt = find_file_all fuel b disk s depth f lt
