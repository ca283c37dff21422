-- ===== src/Am/Apps/Laws.antt =====
-- What the application manager's operations do to its applications and descriptors.
use mathlib.Core.Option
use mathlib.Core.List.{append-nil}
use kin_os.Base.{
  ℕ, zero, suc, ◌+◌, ◌<◌, ◌≡◌, ◌≢◌, refl, ap, ◌∙◌, Option, none, some, List, [], ◌∷◌, ◌++◌, ◌==◌,
  if◌then◌else◌, length, drop, replicate, get_elem?, Option-cases, inl, inr, arith,
}
use kin_os.Am.Apps.{
  AppInfo, AppManager, find_app, update_app, get_app_info, make_app, add_terminals,
  initialize_file_descriptor, copied, copy_file_descriptor, new_app, free_place, with_place,
  allocate_fd,
}

pub find_app-append :
    (id j : ℕ) (a : AppInfo) (apps : List AppInfo)
    → a.task_id ≡ id
    → find_app id apps ≡ none
    → find_app j (apps ++ (a ∷ [])) ≡ (if id == j then some a else find_app j apps)
find_app-append id j a [] e h = ground arith
find_app-append id j a (b ∷ apps) e h = ground (arith, find_app-append id j a apps e)

-- A change that keeps the id is seen under that id only.
pub find_app-update_app :
    (id j : ℕ) (f : AppInfo → AppInfo) (apps : List AppInfo)
    → ((a : AppInfo) → (f a).task_id ≡ a.task_id)
    → find_app j (update_app id f apps)
      ≡ (if id == j then Option.map f (find_app j apps) else find_app j apps)
find_app-update_app id j f [] keeps = ground arith
find_app-update_app id j f (a ∷ apps) keeps =
    ground (arith, keeps a, find_app-update_app id j f apps keeps)

-- What a new application has for files: its parent's, the same descriptors, or the next three places.
abbrev pub first_files : AppManager → ℕ → List (Option ℕ)
first_files m p_id = elim (find_app p_id m.apps) [
  | none ↦ some (length m.fds) ∷ some (length m.fds + 1) ∷ some (length m.fds + 2) ∷ []
  | some parent ↦ parent.files
]

drop-replicate : (n : ℕ) (x : Option ℕ) → drop n (replicate n x) ≡ []
drop-replicate zero x = refl
drop-replicate (suc n) x = drop-replicate n x

pub copied-make_app :
    (fs : List (Option ℕ)) (id p_id : ℕ)
    → copied fs (make_app id p_id) ≡ record (make_app id p_id) { files = fs }
copied-make_app fs id p_id =
    ap (λ gs. record (make_app id p_id) { files = gs })
      (ap (λ gs. fs ++ gs) (drop-replicate (length fs) none) ∙ append-nil fs)

new_app-with_parent :
    (server : ℕ) (m : AppManager) (id p_id j : ℕ) (parent : AppInfo)
    → find_app id m.apps ≡ none
    → find_app p_id m.apps ≡ some parent
    → get_app_info (new_app server m id p_id) j ≡ (
        if id == j
        then some (record (make_app id p_id) { files = parent.files })
        else get_app_info m j)
unfolding new_app copy_file_descriptor get_app_info
new_app-with_parent server m id p_id j parent h e = ground (
  arith,
  find_app-append id id (make_app id p_id) m.apps refl h,
  find_app-append id p_id (make_app id p_id) m.apps refl h,
  find_app-append id j (make_app id p_id) m.apps refl h,
  find_app-update_app id j (copied parent.files) (m.apps ++ (make_app id p_id ∷ [])) (λ a. refl),
  copied-make_app parent.files id p_id,
)

new_app-alone :
    (server : ℕ) (m : AppManager) (id p_id j : ℕ)
    → find_app id m.apps ≡ none
    → find_app p_id m.apps ≡ none
    → get_app_info (new_app server m id p_id) j ≡ (
        if id == j
        then some (record (make_app id p_id) { files = first_files m p_id })
        else get_app_info m j)
unfolding new_app initialize_file_descriptor get_app_info
new_app-alone server m id p_id j h e = ground (
  arith,
  find_app-append id id (make_app id p_id) m.apps refl h,
  find_app-append id j (make_app id p_id) m.apps refl h,
  find_app-update_app id j (add_terminals (length m.fds)) (m.apps ++ (make_app id p_id ∷ []))
      (λ a. refl),
)

-- `NewApp` of an id that no application has: `GetAppInfo` finds a running application under the id, with
-- the parent as given, whose files are the parent's, shared and not copied, or, if there is no such
-- parent, the first three places behind the store. Under every other id it finds what it found before.
pub new_app_lem :
    (server : ℕ) (m : AppManager) (id p_id j : ℕ)
    → get_app_info m id ≡ none
    → get_app_info (new_app server m id p_id) j ≡ (
        if id == j
        then some (record (make_app id p_id) { files = first_files m p_id })
        else get_app_info m j)
unfolding get_app_info
new_app_lem server m id p_id j h = elim (Option-cases (find_app p_id m.apps)) [
  | inl e ↦ new_app-alone server m id p_id j h e
  | inr (parent, e) ↦ new_app-with_parent server m id p_id j parent h e ∙ rw (first_files, e) refl
]

-- What `AllocateFD` of an application's files promises.
free_place_lem :
    (fs : List (Option ℕ)) (j : ℕ)
    → (get_elem? (with_place fs) (free_place fs) ≡ some none)
      × (j ≢ free_place fs → get_elem? (with_place fs) j ≡ get_elem? fs j)
      × (j < free_place fs → get_elem? fs j ≢ some none)
free_place_lem [] zero = ground arith
free_place_lem [] (suc j) = ground arith
free_place_lem (none ∷ fs) j = ground arith
free_place_lem (some d ∷ fs) zero = ground (arith, free_place_lem fs zero)
free_place_lem (some d ∷ fs) (suc j) = ground (arith, free_place_lem fs j)

-- What `AllocateFD` of the place `n` for the application `a` promises.
pub record Allocated (m : AppManager) (id : ℕ) (a : AppInfo) (n : ℕ) (m' : AppManager)
    : Type 0 where
  pub info : get_app_info m' id ≡ some (record a { files = with_place a.files })
  pub other_apps : (j : ℕ) → id ≢ j → get_app_info m' j ≡ get_app_info m j
  pub null_there : get_elem? (with_place a.files) n ≡ some none
  pub others : (j : ℕ) → j ≢ n → get_elem? (with_place a.files) j ≡ get_elem? a.files j
  pub first : (j : ℕ) → j < n → get_elem? a.files j ≢ some none

-- `AllocateFD` for an application gives the first place of its files that is a null pointer, or a new
-- one behind them. There is a null pointer there afterwards, and every other place is as it was; the
-- other applications are too.
pub allocate_fd-Allocated :
    (m : AppManager) (id : ℕ) (a : AppInfo)
    → get_app_info m id ≡ some a
    → (n : ℕ) × (m' : AppManager) × (allocate_fd m id ≡ some (n, m')) × Allocated m id a n m'
unfolding allocate_fd get_app_info
allocate_fd-Allocated m id a h =
    let f : AppInfo → AppInfo = λ b. record b { files = with_place b.files } in
    let found : find_app id m.apps ≡ some a = h in
    (
      free_place a.files,
      record m { apps = update_app id f m.apps },
      rw (allocate_fd, found) refl,
      record {
        info = find_app-update_app id id f m.apps (λ b. refl) ∙ ground arith;
        other_apps = λ j ne. find_app-update_app id j f m.apps (λ b. refl) ∙ ground arith;
        null_there = (free_place_lem a.files 0).0;
        others = λ j. (free_place_lem a.files j).1;
        first = λ j. (free_place_lem a.files j).2;
      },
    )
