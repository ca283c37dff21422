-- ===== src/Am/Apps/Exit.antt =====
-- What `ExitApp` does.
use mathlib.Core.Option
use kin_os.Base.{
  ℕ, zero, suc, ◌≤◌, ◌<◌, ◌≡◌, refl, sym, ap, ◌∙◌, Bool, true, false, not, ◌||◌, ◌&&◌, Option, none,
  some, List, [], ◌∷◌, ◌++◌, ◌==◌, ltb, if◌then◌else◌, length, get_elem?, Bool-cases, Option-cases,
  inl, inr, arith,
}
use kin_os.Am.Pipe.{Sent, close}
use kin_os.Am.Apps.{
  FileDescriptor, fat, terminal, pipe_end, AppInfo, AppManager, close_fd, close_at, close_files,
  runs_as, find_running, killed, kill, kill_first, exit_loop, exit_app,
}

-- Every file is a place of a store of `n` descriptors: there is no null pointer.
abbrev pub opens : ℕ → List (Option ℕ) → Bool
opens n [] = true
opens n (none ∷ fs) = false
opens n (some i ∷ fs) = ltb i n && opens n fs

-- So it is for all the applications that run under the id.
abbrev pub all_open : ℕ → ℕ → List AppInfo → Bool
all_open n id [] = true
all_open n id (a ∷ apps) = (not (runs_as id a) || opens n a.files) && all_open n id apps

abbrev pub has_file : ℕ → List (Option ℕ) → Bool
has_file i [] = false
has_file i (none ∷ fs) = has_file i fs
has_file i (some d ∷ fs) = (d == i) || has_file i fs

-- An application that runs under the id has the descriptor.
abbrev pub held : ℕ → ℕ → List AppInfo → Bool
held id i [] = false
held id i (a ∷ apps) = (runs_as id a && has_file i a.files) || held id i apps

abbrev pub kill_all : ℕ → List AppInfo → List AppInfo
kill_all id [] = []
kill_all id (a ∷ apps) =
    (if runs_as id a then record a { state = kill; files = [] } else a) ∷ kill_all id apps

abbrev pub closed_if : Bool → FileDescriptor → FileDescriptor
closed_if b d = if b then (close_fd d).0 else d

closed_if-twice :
    (a b : Bool) (d : FileDescriptor) → closed_if b (closed_if a d) ≡ closed_if (a || b) d
unfolding close_fd close
closed_if-twice false b d = refl
closed_if-twice true false d = refl
closed_if-twice true true (fat f) = refl
closed_if-twice true true (terminal id server) = refl
closed_if-twice true true (pipe_end p) = refl

map_same : (o : Option FileDescriptor) → o ≡ Option.map (closed_if false) o
map_same none = refl
map_same (some x) = refl

map_twice :
    (a b : Bool) (o : Option FileDescriptor)
    → Option.map (closed_if b) (Option.map (closed_if a) o) ≡ Option.map (closed_if (a || b)) o
map_twice a b none = refl
map_twice a b (some d) = ap some (closed_if-twice a b d)

-- What closing comes to: an answer, a store as long, and at each place what `shut` says of it.
abbrev Closes : List FileDescriptor → (ℕ → Bool) → Option (List FileDescriptor × List Sent) → Type 0
Closes fds shut out =
    (fds' : List FileDescriptor) × (sent : List Sent) × (out ≡ some (fds', sent))
    × (length fds' ≡ length fds)
    × ((j : ℕ) → get_elem? fds' j ≡ Option.map (closed_if (shut j)) (get_elem? fds j))

close_at-Closes :
    (fds : List FileDescriptor) (i : ℕ) → i < length fds → Closes fds (λ j. i == j) (close_at fds i)
unfolding close_at
close_at-Closes [] i lt = absurd (omega arith)
close_at-Closes (d ∷ fds) zero lt = ((close_fd d).0 ∷ fds, (close_fd d).1, refl, refl, at)
  where
    at :
        (j : ℕ)
        → get_elem? ((close_fd d).0 ∷ fds) j
          ≡ Option.map (closed_if (zero == j)) (get_elem? (d ∷ fds) j)
    at zero = refl
    at (suc j) = ground (arith, map_same (get_elem? fds j))
close_at-Closes (d ∷ fds) (suc i) lt =
    let (fds', sent, e, len, at) = close_at-Closes fds i (omega arith) in
    (d ∷ fds', sent, rw e refl, ap suc len, λ j. here fds' at j)
  where
    here :
        (fds' : List FileDescriptor)
        → ((j : ℕ) → get_elem? fds' j ≡ Option.map (closed_if (i == j)) (get_elem? fds j))
        → (j : ℕ)
        → get_elem? (d ∷ fds') j ≡ Option.map (closed_if (suc i == j)) (get_elem? (d ∷ fds) j)
    here fds' at zero = ground arith
    here fds' at (suc j) = ground (arith, at j)

close_files-Closes :
    (fs : List (Option ℕ)) (fds : List FileDescriptor)
    → opens (length fds) fs ≡ true
    → Closes fds (λ j. has_file j fs) (close_files fs fds)
unfolding close_files
close_files-Closes [] fds h = (fds, [], refl, refl, λ j. map_same (get_elem? fds j))
close_files-Closes (none ∷ fs) fds h = absurd (ground arith)
close_files-Closes (some i ∷ fs) fds h =
    let (fds1, sent1, e1, len1, at1) = close_at-Closes fds i (ground arith) in
    let o : opens (length fds1) fs ≡ true = rw len1 (ground arith) in
    let (fds2, sent2, e2, len2, at2) = close_files-Closes fs fds1 o in
    (
      fds2,
      sent1 ++ sent2,
      rw e1 (rw e2 refl),
      len2 ∙ len1,
      λ j.
          at2 j
          ∙ (ap (Option.map (closed_if (has_file j fs))) (at1 j)
              ∙ map_twice (i == j) (has_file j fs) (get_elem? fds j)),
    )

-- How many applications run under the id.
abbrev count_running : ℕ → List AppInfo → ℕ
count_running id [] = 0
count_running id (a ∷ apps) =
    if runs_as id a then suc (count_running id apps) else count_running id apps

count_running_le : (id : ℕ) (apps : List AppInfo) → count_running id apps ≤ length apps
count_running_le id [] = omega arith
count_running_le id (a ∷ apps) = ground (arith, count_running_le id apps)

-- What one round takes off the work that is left.
record Round (id n : ℕ) (apps : List AppInfo) (a : AppInfo) : Type 0 where
  fewer : suc (count_running id (kill_first id apps)) ≡ count_running id apps
  same_end : kill_all id (kill_first id apps) ≡ kill_all id apps
  still_open : all_open n id (kill_first id apps) ≡ true
  first_open : opens n a.files ≡ true
  split : (j : ℕ) → has_file j a.files || held id j (kill_first id apps) ≡ held id j apps

runs_as-killed : (id : ℕ) (a : AppInfo) → runs_as id (killed a) ≡ false
runs_as-killed id a = ground arith

round :
    (id n : ℕ) (apps : List AppInfo) (a : AppInfo)
    → find_running id apps ≡ some a
    → all_open n id apps ≡ true
    → Round id n apps a
round id n [] a e h = absurd (ground arith)
round id n (b ∷ apps) a e h = elim (Bool-cases (runs_as id b)) [
  | inl r ↦
      let p : b ≡ a = ground arith in
      record {
        fewer = ground (arith, runs_as-killed id b);
        same_end = ground (arith, runs_as-killed id b);
        still_open = ground (arith, runs_as-killed id b);
        first_open = ground arith;
        split = λ j. ground (arith, runs_as-killed id b);
      }
  | inr r ↦
      let q : Round id n apps a = round id n apps a (ground arith) (ground arith) in
      record {
        fewer = ground (arith, q.fewer);
        same_end = ground (arith, q.same_end);
        still_open = ground (arith, q.still_open);
        first_open = q.first_open;
        split = λ j. ground (arith, q.split j);
      }
]

none_running :
    (id j : ℕ) (apps : List AppInfo)
    → find_running id apps ≡ none
    → (kill_all id apps ≡ apps) × (held id j apps ≡ false) × (count_running id apps ≡ 0)
none_running id j [] e = ground arith
none_running id j (a ∷ apps) e = ground (arith, none_running id j apps)

-- What `ExitApp` of an id promises of the manager after it.
pub record Exited (m : AppManager) (id : ℕ) (m' : AppManager) : Type 0 where
  pub apps : m'.apps ≡ kill_all id m.apps
  pub places : length m'.fds ≡ length m.fds
  pub closed :
      (j : ℕ) → get_elem? m'.fds j ≡ Option.map (closed_if (held id j m.apps)) (get_elem? m.fds j)

exit_loop-Exited :
    (fuel : ℕ) (m : AppManager) (id : ℕ)
    → count_running id m.apps < fuel
    → all_open (length m.fds) id m.apps ≡ true
    → (m' : AppManager) × (sent : List Sent) × (exit_loop fuel m id ≡ some (m', sent))
      × Exited m id m'
unfolding exit_loop
exit_loop-Exited zero m id lt h = absurd (omega arith)
exit_loop-Exited (suc fuel) m id lt h = elim (Option-cases (find_running id m.apps)) [
  | inl e ↦ (
    m,
    [],
    rw (exit_loop, e) refl,
    record {
      apps = sym (none_running id 0 m.apps e).0;
      places = refl;
      closed = λ j. rw (none_running id j m.apps e).1 (map_same (get_elem? m.fds j));
    },
  )
  | inr (a, e) ↦
      let q : Round id (length m.fds) m.apps a = round id (length m.fds) m.apps a e h in
      let (fds1, sent1, e1, len1, at1) = close_files-Closes a.files m.fds q.first_open in
      let m1 : AppManager = record { apps = kill_first id m.apps; fds = fds1 } in
      let o : all_open (length fds1) id (kill_first id m.apps) ≡ true = rw len1 q.still_open in
      let (m2, sent2, e2, x) = exit_loop-Exited fuel m1 id (omega (arith, q.fewer)) o in
      (
        m2,
        sent1 ++ sent2,
        rw (exit_loop, e) (rw e1 (rw e2 refl)),
        record {
          apps = x.apps ∙ q.same_end;
          places = x.places ∙ len1;
          closed = λ j.
              x.closed j
              ∙ (ap (Option.map (closed_if (held id j (kill_first id m.apps)))) (at1 j)
                  ∙ (map_twice (has_file j a.files) (held id j (kill_first id m.apps))
                        (get_elem? m.fds j)
                      ∙ ap (λ b. Option.map (closed_if b) (get_elem? m.fds j)) (q.split j)));
        },
      )
]

-- `ExitApp` always returns if no application that runs under the id has a null pointer among its files.
-- Every such application is then killed and has no file, the others are as they were, and of the
-- descriptors those that such an application had are closed, for all that share them, and no other.
pub exit_app-Exited :
    (m : AppManager) (id : ℕ)
    → all_open (length m.fds) id m.apps ≡ true
    → (m' : AppManager) × (sent : List Sent) × (exit_app m id ≡ some (m', sent)) × Exited m id m'
unfolding exit_app
exit_app-Exited m id h =
    exit_loop-Exited (suc (length m.apps)) m id (omega (arith, count_running_le id m.apps)) h
