-- ===== src/Am/Server/Files.antt =====
-- The application manager's files stay sound: no application has a null pointer or a place out of the
-- store among its files, whatever is done to them.
use kin_os.Base.{
  ℕ, zero, suc, ◌+◌, ◌≤◌, ◌<◌, ◌≡◌, refl, sym, ap, ◌∙◌, Bool, true, ◌&&◌, Option, none, some, List,
  [], ◌∷◌, ◌++◌, ◌==◌, length, set, Bool-cases, Option-cases, inl, inr, arith, length-append,
}
use mathlib.Core.Path.{subst}
use kin_os.Am.Pipe.{Sent}
use kin_os.Am.Apps.{
  FileDescriptor, terminal, AppInfo, AppManager, find_app, update_app, make_app, add_terminals,
  initialize_file_descriptor, copied, copy_file_descriptor, new_app, free_place, with_place,
  allocate_fd, exit_app,
}
use kin_os.Am.Apps.Laws.{copied-make_app, find_app-append}
use kin_os.Am.Apps.Exit.{opens, all_open, kill_all, Exited, exit_app-Exited}
use kin_os.Am.Server.{put_file, set_file, add_descriptor, set_new_file}

abbrev pub all_sound : ℕ → List AppInfo → Bool
all_sound n [] = true
all_sound n (a ∷ apps) = opens n a.files && all_sound n apps

abbrev pub IsSound : AppManager → Type 0
IsSound m = all_sound (length m.fds) m.apps ≡ true

opens_mono : (n k : ℕ) (fs : List (Option ℕ)) → n ≤ k → opens n fs ≡ true → opens k fs ≡ true
opens_mono n k [] le o = refl
opens_mono n k (none ∷ fs) le o = cc
opens_mono n k (some i ∷ fs) le o = ground (arith, opens_mono n k fs le)

all_sound_mono :
    (n k : ℕ) (apps : List AppInfo) → n ≤ k → all_sound n apps ≡ true → all_sound k apps ≡ true
all_sound_mono n k [] le o = refl
all_sound_mono n k (a ∷ apps) le o =
    ground (arith, opens_mono n k a.files le, all_sound_mono n k apps le)

opens-append : (n : ℕ) (fs gs : List (Option ℕ)) → opens n (fs ++ gs) ≡ (opens n fs && opens n gs)
opens-append n [] gs = refl
opens-append n (none ∷ fs) gs = refl
opens-append n (some i ∷ fs) gs = ground (arith, opens-append n fs gs)

opens-set :
    (n i p : ℕ) (fs : List (Option ℕ))
    → p < n
    → opens n fs ≡ true
    → opens n (set fs i (some p)) ≡ true
opens-set n i p [] lt o = refl
opens-set n i p (none ∷ fs) lt o = cc
opens-set n zero p (some d ∷ fs) lt o = ground arith
opens-set n (suc i) p (some d ∷ fs) lt o = ground (arith, opens-set n i p fs lt)

-- A new file at the place that `AllocateFD` gives.
opens-place :
    (n p : ℕ) (fs : List (Option ℕ))
    → p < n
    → opens n fs ≡ true
    → opens n (set (with_place fs) (free_place fs) (some p)) ≡ true
opens-place n p [] lt o = ground arith
opens-place n p (none ∷ fs) lt o = cc
opens-place n p (some d ∷ fs) lt o = ground (arith, opens-place n p fs lt)

found_sound :
    (n id : ℕ) (apps : List AppInfo) {a : AppInfo}
    → find_app id apps ≡ some a
    → all_sound n apps ≡ true
    → opens n a.files ≡ true
found_sound n id [] e s = absurd (cc e)
found_sound n id (b ∷ apps) {a} e s = elim (Bool-cases (b.task_id == id)) [
  | inl t ↦ let p : b ≡ a = ground arith in subst (λ c. opens n c.files ≡ true) p (ground arith)
  | inr t ↦ found_sound n id apps {a = a} (ground arith) (ground arith)
]

updated_sound :
    (n id : ℕ) (f : AppInfo → AppInfo) (apps : List AppInfo) {a : AppInfo}
    → find_app id apps ≡ some a
    → opens n (f a).files ≡ true
    → all_sound n apps ≡ true
    → all_sound n (update_app id f apps) ≡ true
updated_sound n id f [] e o s = refl
updated_sound n id f (b ∷ apps) {a} e o s = elim (Bool-cases (b.task_id == id)) [
  | inl t ↦
      let p : a ≡ b = ground arith in
      let q : opens n (f b).files ≡ true = subst (λ c. opens n (f c).files ≡ true) p o in
      ground (arith, q)
  | inr t ↦ ground (arith, updated_sound n id f apps (ground arith) o (ground arith))
]

all_sound-append :
    (n : ℕ) (xs ys : List AppInfo) → all_sound n (xs ++ ys) ≡ (all_sound n xs && all_sound n ys)
all_sound-append n [] ys = refl
all_sound-append n (a ∷ xs) ys = ground (arith, all_sound-append n xs ys)

pub set_file-IsSound :
    (m m' : AppManager) (id i p : ℕ)
    → p < length m.fds
    → IsSound m
    → set_file m id i (some p) ≡ some m'
    → IsSound m' × (length m'.fds ≡ length m.fds)
unfolding set_file
set_file-IsSound m m' id i p lt s e = elim (Option-cases (find_app id m.apps)) [
  | inl f ↦ absurd (ground arith)
  | inr (a, f) ↦
      let o : opens (length m.fds) (put_file i (some p) a).files ≡ true =
        opens-set (length m.fds) i p a.files lt (found_sound (length m.fds) id m.apps f s) in
      let u : all_sound (length m.fds) (update_app id (put_file i (some p)) m.apps) ≡ true =
        updated_sound (length m.fds) id (put_file i (some p)) m.apps f o s in
      let q : m' ≡ record m { apps = update_app id (put_file i (some p)) m.apps } = ground arith in
      subst (λ (x : AppManager). IsSound x × (length x.fds ≡ length m.fds)) (sym q) (u, refl)
]

pub add-IsSound :
    (d : FileDescriptor) (m : AppManager)
    → IsSound m
    → IsSound (add_descriptor d m) × (length (add_descriptor d m).fds ≡ length m.fds + 1)
add-IsSound d m s =
    let e : length (m.fds ++ (d ∷ [])) ≡ length m.fds + 1 = length-append m.fds (d ∷ []) in
    (all_sound_mono (length m.fds) (length (m.fds ++ (d ∷ []))) m.apps (omega (arith, e)) s, e)

pub set_new_file-IsSound :
    (m m' : AppManager) (id i : ℕ) (d : FileDescriptor)
    → IsSound m
    → set_new_file m id i d ≡ some m'
    → IsSound m' × (length m'.fds ≡ length m.fds + 1)
unfolding set_new_file
set_new_file-IsSound m m' id i d s e =
    let (s1, l1) = add-IsSound d m s in
    let (s2, l2) =
      set_file-IsSound (add_descriptor d m) m' id i (length m.fds) (omega (arith, l1)) s1 e in
    (s2, l2 ∙ l1)

-- A new application under an id that no application has.
added_sound :
    (n id p_id : ℕ) (apps : List AppInfo)
    → all_sound n apps ≡ true
    → all_sound n (apps ++ (make_app id p_id ∷ [])) ≡ true
added_sound n id p_id apps s = ground (arith, all_sound-append n apps (make_app id p_id ∷ []))

with_parent_IsSound :
    (m : AppManager) (id p_id : ℕ) (parent : AppInfo)
    → find_app id m.apps ≡ none
    → find_app p_id m.apps ≡ some parent
    → IsSound m
    → IsSound (copy_file_descriptor (record m { apps = m.apps ++ (make_app id p_id ∷ []) }) id p_id)
unfolding copy_file_descriptor
with_parent_IsSound m id p_id parent h e s =
    let child : find_app id (m.apps ++ (make_app id p_id ∷ [])) ≡ some (make_app id p_id) =
      ground (arith, find_app-append id id (make_app id p_id) m.apps refl h) in
    let found : find_app p_id (m.apps ++ (make_app id p_id ∷ [])) ≡ some parent =
      ground (arith, find_app-append id p_id (make_app id p_id) m.apps refl h) in
    let o : opens (length m.fds) (copied parent.files (make_app id p_id)).files ≡ true =
      subst (λ (x : AppInfo). opens (length m.fds) x.files ≡ true)
        (sym (copied-make_app parent.files id p_id)) (found_sound (length m.fds) p_id m.apps e s) in
    rw (copy_file_descriptor, child)
      (rw found (
        updated_sound (length m.fds) id (copied parent.files) (m.apps ++ (make_app id p_id ∷ []))
          child o (added_sound (length m.fds) id p_id m.apps s)))

alone_IsSound :
    (server : ℕ) (m : AppManager) (id p_id : ℕ)
    → find_app id m.apps ≡ none
    → IsSound m
    → IsSound (
        initialize_file_descriptor server
          (record m { apps = m.apps ++ (make_app id p_id ∷ []) })
          id)
unfolding initialize_file_descriptor
alone_IsSound server m id p_id h s =
    let t : FileDescriptor = terminal id server in
    let fds : List FileDescriptor = m.fds ++ (t ∷ t ∷ t ∷ []) in
    let l : length fds ≡ length m.fds + 3 = length-append m.fds (t ∷ t ∷ t ∷ []) in
    let child : find_app id (m.apps ++ (make_app id p_id ∷ [])) ≡ some (make_app id p_id) =
      ground (arith, find_app-append id id (make_app id p_id) m.apps refl h) in
    let o : opens (length fds) (add_terminals (length m.fds) (make_app id p_id)).files ≡ true =
      ground (arith, l) in
    rw (initialize_file_descriptor, child)
      (updated_sound (length fds) id (add_terminals (length m.fds))
        (m.apps ++ (make_app id p_id ∷ [])) child o
        (added_sound (length fds) id p_id m.apps
          (all_sound_mono (length m.fds) (length fds) m.apps (omega (arith, l)) s)))

copy_fds : (m : AppManager) (id p_id : ℕ) → (copy_file_descriptor m id p_id).fds ≡ m.fds
unfolding copy_file_descriptor
copy_fds m id p_id = ground arith

initialize_fds :
    (server : ℕ) (m : AppManager) (id : ℕ)
    → length m.fds ≤ length (initialize_file_descriptor server m id).fds
unfolding initialize_file_descriptor
initialize_fds server m id =
    let t : FileDescriptor = terminal id server in
    ground (arith, length-append m.fds (t ∷ t ∷ t ∷ []))

pub new_app-IsSound :
    (server : ℕ) (m : AppManager) (id p_id : ℕ)
    → find_app id m.apps ≡ none
    → IsSound m
    → IsSound (new_app server m id p_id) × (length m.fds ≤ length (new_app server m id p_id).fds)
unfolding new_app
new_app-IsSound server m id p_id h s = elim (Option-cases (find_app p_id m.apps)) [
  | inl e ↦
      rw (new_app, e)
        (
          alone_IsSound server m id p_id h s,
          initialize_fds server (record m { apps = m.apps ++ (make_app id p_id ∷ []) }) id,
        )
  | inr (parent, e) ↦
      rw (new_app, e)
        (
          with_parent_IsSound m id p_id parent h e s,
          omega (
            arith,
            ap length (copy_fds (record m { apps = m.apps ++ (make_app id p_id ∷ []) }) id p_id),
          ),
        )
]

-- `AllocateFD`, and the descriptor that is put there at once.
abbrev with_fd : ℕ → ℕ → AppInfo → AppInfo
with_fd fd p a = put_file fd (some p) (record a { files = with_place a.files })

update-update :
    (id : ℕ) (f g : AppInfo → AppInfo) (apps : List AppInfo)
    → ((a : AppInfo) → (f a).task_id ≡ a.task_id)
    → update_app id g (update_app id f apps) ≡ update_app id (λ a. g (f a)) apps
update-update id f g [] keeps = refl
update-update id f g (a ∷ apps) keeps = ground (arith, keeps a, update-update id f g apps keeps)

set_new_file_inv :
    (m m' : AppManager) (id i : ℕ) (d : FileDescriptor)
    → set_new_file m id i d ≡ some m'
    → (m'.apps ≡ update_app id (put_file i (some (length m.fds))) m.apps)
      × (m'.fds ≡ m.fds ++ (d ∷ []))
unfolding set_new_file set_file
set_new_file_inv m m' id i d e = ground arith

pub allocate_fd-IsSound :
    (m m1 m2 : AppManager) (id fd : ℕ) (d : FileDescriptor)
    → IsSound m
    → allocate_fd m id ≡ some (fd, m1)
    → set_new_file m1 id fd d ≡ some m2
    → IsSound m2 × (length m2.fds ≡ length m.fds + 1)
unfolding allocate_fd
allocate_fd-IsSound m m1 m2 id fd d s e f = elim (Option-cases (find_app id m.apps)) [
  | inl no_app ↦ absurd (ground arith)
  | inr (a, found) ↦
      let place : AppInfo → AppInfo = λ b. record b { files = with_place b.files } in
      let q : m1 ≡ record m { apps = update_app id place m.apps } = ground arith in
      let r : fd ≡ free_place a.files = ground arith in
      let n : ℕ = length (m.fds ++ (d ∷ [])) in
      let l : n ≡ length m.fds + 1 = length-append m.fds (d ∷ []) in
      let s' : all_sound n m.apps ≡ true =
        all_sound_mono (length m.fds) n m.apps (omega (arith, l)) s in
      let o : opens n (with_fd (free_place a.files) (length m.fds) a).files ≡ true =
        opens-place n (length m.fds) a.files (omega (arith, l))
          (found_sound n id m.apps found s') in
      let u : all_sound n (update_app id (with_fd (free_place a.files) (length m.fds)) m.apps)
          ≡ true =
        updated_sound n id (with_fd (free_place a.files) (length m.fds)) m.apps found o s' in
      let (apps, fds) = set_new_file_inv m1 m2 id fd d f in
      let fds' : m2.fds ≡ m.fds ++ (d ∷ []) = fds ∙ ap (λ (x : AppManager). x.fds ++ (d ∷ [])) q in
      let apps' : m2.apps ≡ update_app id (with_fd (free_place a.files) (length m.fds)) m.apps =
        apps
        ∙ (ap (λ (x : AppManager). update_app id (put_file fd (some (length x.fds))) x.apps) q
            ∙ (ap
                  (λ k.
                    update_app id (put_file k (some (length m.fds))) (update_app id place m.apps))
                  r
                ∙ update-update id place (put_file (free_place a.files) (some (length m.fds)))
                    m.apps (λ b. refl))) in
      (
        subst (λ xs. all_sound (length m2.fds) xs ≡ true) (sym apps')
            (subst
              (λ k.
                all_sound k (update_app id (with_fd (free_place a.files) (length m.fds)) m.apps)
                ≡ true)
              (sym (ap length fds')) u),
        ap length fds' ∙ l,
      )
]

-- `ExitApp`.
sound-all_open :
    (n id : ℕ) (apps : List AppInfo) → all_sound n apps ≡ true → all_open n id apps ≡ true
sound-all_open n id [] s = refl
sound-all_open n id (a ∷ apps) s = ground (arith, sound-all_open n id apps)

kill_all_sound :
    (n id : ℕ) (apps : List AppInfo)
    → all_sound n apps ≡ true
    → all_sound n (kill_all id apps) ≡ true
kill_all_sound n id [] s = refl
kill_all_sound n id (a ∷ apps) s = ground (arith, kill_all_sound n id apps)

pub IsSound-Exited :
    (m : AppManager) (id : ℕ)
    → IsSound m
    → (m' : AppManager) × (sent : List Sent) × (exit_app m id ≡ some (m', sent)) × Exited m id m'
IsSound-Exited m id s = exit_app-Exited m id (sound-all_open (length m.fds) id m.apps s)

pub exit_app-IsSound :
    (m m' : AppManager) (id : ℕ) (sent : List Sent)
    → IsSound m
    → exit_app m id ≡ some (m', sent)
    → IsSound m' × (length m'.fds ≡ length m.fds)
exit_app-IsSound m m' id sent s e =
    let (m1, sent1, e1, x) = IsSound-Exited m id s in
    let p : m1 ≡ m' = ground (arith, e, e1) in
    subst (λ (y : AppManager). IsSound y × (length y.fds ≡ length m.fds)) p
      (
        subst (λ k. all_sound k m1.apps ≡ true) (sym x.places)
            (subst (λ xs. all_sound (length m.fds) xs ≡ true) (sym x.apps)
              (kill_all_sound (length m.fds) id m.apps s)),
        x.places,
      )
