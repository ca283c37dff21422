-- ===== src/Task/Lists.antt =====
-- Run queues as lists of ids and the task table as a list: membership, lookup and their updates.
use mathlib.Core.Option
use kin_os.Base.{
  ℕ, zero, suc, ◌≤◌, ◌<◌, ◌≡◌, refl, Bool, true, false, not, ◌&&◌, ◌||◌, none, some, List, [], ◌∷◌,
  ◌++◌, ◌==◌, if◌then◌else◌, Bool-cases, inl, inr, arith,
}
use kin_os.Task.{Task, find_task, update_task, erase, is_empty, pop_front, front, highest}
use kin_os.Task.Manager.{remove_task}

abbrev pub elem : ℕ → List ℕ → Bool
elem x [] = false
elem x (y ∷ ys) = y == x || elem x ys

-- No id stands in a queue twice.
abbrev pub Unique : List ℕ → Type 0
Unique [] = Unit {0}
Unique (x ∷ xs) = (elem x xs ≡ false) × Unique xs

pub elem-append : (x : ℕ) (xs ys : List ℕ) → elem x (xs ++ ys) ≡ (elem x xs || elem x ys)
elem-append x [] ys = refl
elem-append x (y ∷ xs) ys = ground (arith, elem-append x xs ys)

pub elem-erase : (x y : ℕ) (xs : List ℕ) → elem x (erase y xs) ≡ (not (x == y) && elem x xs)
elem-erase x y [] = ground arith
elem-erase x y (z ∷ xs) = ground (arith, elem-erase x y xs)

pub Unique-append : (x : ℕ) (xs : List ℕ) → Unique xs → elem x xs ≡ false → Unique (xs ++ (x ∷ []))
Unique-append x [] u h = (refl, tt)
Unique-append x (y ∷ xs) u h =
    (ground (arith, elem-append y xs (x ∷ [])), Unique-append x xs u.1 (ground arith))

pub Unique-erase : (y : ℕ) (xs : List ℕ) → Unique xs → Unique (erase y xs)
Unique-erase y [] u = tt
Unique-erase y (x ∷ xs) u = elim (Bool-cases (x == y)) [
  | inl e ↦ rw e (Unique-erase y xs u.1)
  | inr e ↦ rw e (ground (arith, elem-erase x y xs), Unique-erase y xs u.1)
]

pub Unique-pop_front : (xs : List ℕ) → Unique xs → Unique (pop_front xs)
Unique-pop_front [] u = tt
Unique-pop_front (x ∷ xs) u = u.1

-- The front's own entry is all that `pop_front` takes from a queue.
pub elem-pop_front :
    (xs : List ℕ) (x y : ℕ)
    → Unique xs
    → front xs ≡ some x
    → elem y (pop_front xs) ≡ (not (x == y) && elem y xs)
elem-pop_front [] x y u h = cc
elem-pop_front (z ∷ xs) x y u h = ground arith

pub elem-front : (xs : List ℕ) (x : ℕ) → front xs ≡ some x → elem x xs ≡ true
elem-front [] x h = cc
elem-front (z ∷ xs) x h = ground arith

pub is_empty-front : (xs : List ℕ) → is_empty xs ≡ false → (x : ℕ) × (front xs ≡ some x)
is_empty-front [] h = cc
is_empty-front (x ∷ xs) h = (x, refl)

pub is_empty-elem : (xs : List ℕ) (x : ℕ) → elem x xs ≡ true → is_empty xs ≡ false
is_empty-elem [] x h = cc
is_empty-elem (y ∷ xs) x h = refl

pub elem_of_is_empty : (xs : List ℕ) (x : ℕ) → is_empty xs ≡ true → elem x xs ≡ false
elem_of_is_empty [] x h = refl
elem_of_is_empty (y ∷ xs) x h = cc

pub is_empty-append : (xs : List ℕ) (x : ℕ) → is_empty (xs ++ (x ∷ [])) ≡ false
is_empty-append [] x = refl
is_empty-append (y ∷ xs) x = refl

pub is_empty-erase : (y : ℕ) (xs : List ℕ) → is_empty xs ≡ true → is_empty (erase y xs) ≡ true
is_empty-erase y [] h = refl
is_empty-erase y (x ∷ xs) h = cc

pub find_task-id : (id : ℕ) (ts : List Task) (t : Task) → find_task id ts ≡ some t → t.id ≡ id
find_task-id id [] t h = cc
find_task-id id (u ∷ ts) t h = ground (arith, find_task-id id ts t)

pub find_task-update_task :
    (id j : ℕ) (f : Task → Task) (ts : List Task)
    → ((t : Task) → (f t).id ≡ t.id)
    → find_task j (update_task id f ts)
      ≡ (if id == j then Option.map f (find_task id ts) else find_task j ts)
find_task-update_task id j f [] h = ground arith
find_task-update_task id j f (t ∷ ts) h = ground (arith, h t, find_task-update_task id j f ts h)

pub find_task-append :
    (j : ℕ) (ts : List Task) (t : Task)
    → find_task j (ts ++ (t ∷ []))
      ≡ elim (find_task j ts) [ some u ↦ some u | none ↦ if t.id == j then some t else none ]
find_task-append j [] t = ground arith
find_task-append j (u ∷ ts) t = ground (arith, find_task-append j ts t)

-- No two tasks of the table share an id.
abbrev pub UniqueIds : List Task → Type 0
UniqueIds [] = Unit {0}
UniqueIds (t ∷ ts) = (find_task t.id ts ≡ none) × UniqueIds ts

pub find_task-remove_task :
    (id j : ℕ) (ts : List Task)
    → UniqueIds ts
    → find_task j (remove_task id ts) ≡ (if id == j then none else find_task j ts)
find_task-remove_task id j [] u = ground arith
find_task-remove_task id j (t ∷ ts) u = elim (Bool-cases (t.id == id)) [
  | inl e ↦ let p : t.id ≡ id = ground arith in rw e (ground (arith, rw p at (u.0)))
  | inr e ↦ rw e (ground (arith, find_task-remove_task id j ts u.1))
]

pub UniqueIds-update_task :
    (id : ℕ) (f : Task → Task) (ts : List Task)
    → ((t : Task) → (f t).id ≡ t.id)
    → UniqueIds ts
    → UniqueIds (update_task id f ts)
UniqueIds-update_task id f [] h u = tt
UniqueIds-update_task id f (t ∷ ts) h u = elim (Bool-cases (t.id == id)) [
  | inl e ↦ rw e (rw (h t) u.0, u.1)
  | inr e ↦
      rw e
        (ground (arith, find_task-update_task id t.id f ts h), UniqueIds-update_task id f ts h u.1)
]

pub UniqueIds-remove_task : (id : ℕ) (ts : List Task) → UniqueIds ts → UniqueIds (remove_task id ts)
UniqueIds-remove_task id [] u = tt
UniqueIds-remove_task id (t ∷ ts) u = elim (Bool-cases (t.id == id)) [
  | inl e ↦ rw e u.1
  | inr e ↦
      rw e (ground (arith, find_task-remove_task id t.id ts u.1), UniqueIds-remove_task id ts u.1)
]

pub UniqueIds-append :
    (ts : List Task) (t : Task)
    → UniqueIds ts
    → find_task t.id ts ≡ none
    → UniqueIds (ts ++ (t ∷ []))
UniqueIds-append [] t u h = (refl, tt)
UniqueIds-append (v ∷ ts) t u h = elim (Bool-cases (v.id == t.id)) [
  | inl e ↦ absurd (ground arith)
  | inr e ↦ (ground (arith, find_task-append v.id ts t), UniqueIds-append ts t u.1 (ground arith))
]

-- `hi` is the highest level whose queue is not empty, of those up to `top`.
abbrev pub IsHighest : (ℕ → List ℕ) → ℕ → ℕ → Type 0
IsHighest running top hi =
    (is_empty (running hi) ≡ false)
    × (hi ≤ top)
    × ((k : ℕ) → hi < k → k ≤ top → is_empty (running k) ≡ true)

skip_top :
    (running : ℕ → List ℕ) (top hi : ℕ)
    → is_empty (running (suc top)) ≡ true
    → IsHighest running top hi
    → IsHighest running (suc top) hi
skip_top running top hi p h = (
  h.0,
  omega arith,
  λ k lo up. elim (Bool-cases (k == suc top)) [
    | inl e ↦ let q : k ≡ suc top = ground arith in rw q p
    | inr e ↦ h.2 k lo (ground arith)
  ],
)

-- What the scan of `RotateCurrentRunQueue` finds: a queue that is not empty, with none above it.
pub highest_lem :
    (running : ℕ → List ℕ) (top old lv : ℕ)
    → lv ≤ top
    → is_empty (running lv) ≡ false
    → IsHighest running top (highest running top old)
unfolding highest
highest_lem running zero old lv h e =
    let q : lv ≡ 0 = omega arith in
    let e0 : is_empty (running 0) ≡ false = rw q at e in
    rw e0 (e0, omega arith, λ k lo hi. absurd (omega arith))
highest_lem running (suc top) old lv h e = elim (Bool-cases (is_empty (running (suc top)))) [
  | inl p ↦ rw p (
      skip_top running top (highest running top old) p
        (highest_lem running top old lv (ground arith) e))
  | inr p ↦ rw p (p, omega arith, λ k lo hi. absurd (omega arith))
]
