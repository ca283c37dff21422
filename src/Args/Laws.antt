-- ===== src/Args/Laws.antt =====
-- What the application finds in its `argv`: the command and the words of the string, each with a 0 at its
-- end.
use kin_os.Base.{
  ℕ, suc, ◌+◌, ◌<◌, ◌≤◌, ◌≡◌, refl, ap, ◌∙◌, Bool, Option, none, some, List, [], ◌∷◌, ◌++◌,
  if◌then◌else◌, length, length-append, arith, Bool-cases, Option-cases, inl, inr, ◌⊎◌, ◌==◌, leb,
  ◌||◌,
}
use mathlib.Core.List.{append-nil, append_assoc}
use kin_os.Error.{Error, success, full}
use kin_os.Args.{ArgVector, Lengths, strcpy, push_to_argv, is_success, make_arg_vector}
use kin_os.Args.Words.{words, push_all, args_loop-push_all}

-- The string stands in the buffer at a place.
abbrev pub At : (ℕ → ℕ) → ℕ → List ℕ → Type 0
At buf at [] = buf at ≡ 0
At buf at (c ∷ cs) = (buf at ≡ c) × At buf (suc at) cs

-- The pointers show the strings, all of them below a limit.
pub data Holds (buf : ℕ → ℕ) (limit : ℕ) : List ℕ → List (List ℕ) → Type 0 where
  no_string : Holds buf limit [] []
  one_more :
      {p : ℕ} {ps : List ℕ} {s : List ℕ} {others : List (List ℕ)}
      → p + length s < limit
      → At buf p s
      → Holds buf limit ps others
      → Holds buf limit (p ∷ ps) (s ∷ others)

-- What strings take of the buffer, each with its 0.
abbrev pub total : List (List ℕ) → ℕ
total [] = 0
total (s ∷ others) = length s + 1 + total others

total-append : (xs : List (List ℕ)) (s : List ℕ) → total (xs ++ s ∷ []) ≡ total xs + (length s + 1)
total-append [] s = omega arith
total-append (x ∷ xs) s = omega (arith, total-append xs s)

-- The vector holds the strings, no more than it has room for, one behind the other within the buffer.
abbrev pub HoldsAll : Lengths → ArgVector → List (List ℕ) → Type 0
HoldsAll n v strings =
    Holds v.argbuf v.argbuf_index v.argv strings
    × (v.argc ≡ length strings)
    × (v.argc ≤ n.argv_len)
    × (v.argbuf_index ≡ total strings)
    × (v.argbuf_index ≤ n.argbuf_len)

strcpy_below : (at : ℕ) (s : List ℕ) (buf : ℕ → ℕ) (i : ℕ) → i < at → strcpy at s buf i ≡ buf i
strcpy_below at [] buf i lt = ground arith
strcpy_below at (c ∷ cs) buf i lt =
    strcpy_below (suc at) cs (λ j. if j == at then c else buf j) i (omega arith) ∙ ground arith

strcpy-At : (at : ℕ) (s : List ℕ) (buf : ℕ → ℕ) → At (strcpy at s buf) at s
strcpy-At at [] buf = ground arith
strcpy-At at (c ∷ cs) buf =
    let buf' : ℕ → ℕ = λ i. if i == at then c else buf i in
    (strcpy_below (suc at) cs buf' at (omega arith) ∙ ground arith, strcpy-At (suc at) cs buf')

At-same :
    (buf buf' : ℕ → ℕ) (at : ℕ) (s : List ℕ) (limit : ℕ)
    → ((i : ℕ) → i < limit → buf' i ≡ buf i)
    → at + length s < limit
    → At buf at s
    → At buf' at s
At-same buf buf' at [] limit same lt h = same at (omega arith) ∙ h
At-same buf buf' at (c ∷ cs) limit same lt h =
    (same at (omega arith) ∙ h.0, At-same buf buf' (suc at) cs limit same (omega arith) h.1)

Holds-append :
    (buf buf' : ℕ → ℕ) (limit : ℕ) (s : List ℕ) (ps : List ℕ) (strings : List (List ℕ))
    → ((i : ℕ) → i < limit → buf' i ≡ buf i)
    → At buf' limit s
    → Holds buf limit ps strings
    → Holds buf' (limit + (length s + 1)) (ps ++ limit ∷ []) (strings ++ s ∷ [])
Holds-append buf buf' limit s _ _ same at no_string = one_more (omega arith) at no_string
Holds-append buf buf' limit s _ _ same at
      (one_more {p = p} {ps = ps} {s = t} {others = others} lt here h) =
    one_more (omega arith) (At-same buf buf' p t limit same lt here)
      (Holds-append buf buf' limit s ps others same at h)

-- There is no room left for a pointer, or for a character.
abbrev pub NoRoom : Lengths → ArgVector → Type 0
NoRoom n v = (n.argv_len ≤ v.argc) ⊎ (n.argbuf_len ≤ v.argbuf_index)

-- There is room for a pointer and a character, and not for the string with its 0.
abbrev pub Overruns : Lengths → ArgVector → List ℕ → Type 0
Overruns n v s =
    (v.argc < n.argv_len)
    × (v.argbuf_index < n.argbuf_len)
    × (n.argbuf_len < v.argbuf_index + (length s + 1))

-- A push that does not store its string: there is no room, or it goes past the buffer.
abbrev pub Fails : Lengths → ArgVector → List ℕ → Option (Error × ArgVector) → Type 0
Fails n v s o = ((o ≡ some (full, v)) × NoRoom n v) ⊎ ((o ≡ none) × Overruns n v s)

-- What a push does.
abbrev Pushed : Lengths → List (List ℕ) → List ℕ → ArgVector → Option (Error × ArgVector) → Type 0
Pushed n before s v o =
    ((w : ArgVector) × (o ≡ some (success, w)) × HoldsAll n w (before ++ s ∷ [])) ⊎ Fails n v s o

push_to_argv-Pushed :
    (n : Lengths) (before : List (List ℕ)) (s : List ℕ) (v : ArgVector)
    → HoldsAll n v before
    → Pushed n before s v (push_to_argv n s v)
unfolding push_to_argv
push_to_argv-Pushed n before s v h =
    elim (Bool-cases (leb n.argv_len v.argc || leb n.argbuf_len v.argbuf_index)) [
      | inl e ↦ rw e (inr (inl (refl, ground arith)))
      | inr e ↦ rw e (elim (Bool-cases (leb (v.argbuf_index + (length s + 1)) n.argbuf_len)) [
        | inr k ↦ rw k (inr (inr (refl, (ground arith, ground arith, ground arith))))
        | inl k ↦ rw k (
            inl (
              _,
              refl,
              (
                Holds-append v.argbuf (strcpy v.argbuf_index s v.argbuf) v.argbuf_index s v.argv
                    before (strcpy_below v.argbuf_index s v.argbuf)
                    (strcpy-At v.argbuf_index s v.argbuf) h.0,
                omega (arith, h.1, length-append before (s ∷ [])),
                ground arith,
                omega (arith, h.3, total-append before s),
                ground arith,
              ),
            ))
      ])
    ]

-- All the strings were pushed, or the first of them, up to one whose push failed.
abbrev pub Pushes : Lengths → List (List ℕ) → List (List ℕ) → Option (Error × ArgVector) → Type 0
Pushes n before strings o =
    ((v : ArgVector) × (o ≡ some (success, v)) × HoldsAll n v (before ++ strings))
    ⊎ ((pushed : List (List ℕ)) × (s : List ℕ) × (others : List (List ℕ)) × (v : ArgVector)
        × (strings ≡ pushed ++ s ∷ others)
        × HoldsAll n v (before ++ pushed)
        × Fails n v s o)

push_all-Pushes :
    (n : Lengths) (before strings : List (List ℕ)) (v : ArgVector)
    → HoldsAll n v before
    → Pushes n before strings (push_all n strings v)
push_all-Pushes n before [] v h = inl (v, refl, rw (append-nil before) h)
push_all-Pushes n before (s ∷ others) v h = elim (push_to_argv-Pushed n before s v h) [
  | inl (w, e, holds) ↦
      rw (e, push_all)
        (elim (push_all-Pushes n (before ++ s ∷ []) others w holds) [
          | inl (x, e', all) ↦ inl (x, e', rw (append_assoc before (s ∷ []) others) at all)
          | inr (pushed, t, rest, x, split, some_held, fails) ↦ inr (
            s ∷ pushed,
            t,
            rest,
            x,
            ap (λ l. s ∷ l) split,
            rw (append_assoc before (s ∷ []) pushed) at some_held,
            fails,
          )
        ])
  | inr (inl (e, room)) ↦
      rw (e, push_all) (inr ([], s, others, v, refl, rw (append-nil before) h, inl (refl, room)))
  | inr (inr (e, over)) ↦
      rw (e, push_all) (inr ([], s, others, v, refl, rw (append-nil before) h, inr (refl, over)))
]

-- The command, and the words of the string if there is one.
abbrev pub arguments : (ℕ → Bool) → List ℕ → Option (List ℕ) → List (List ℕ)
arguments isspace command none = command ∷ []
arguments isspace command (some p) = command ∷ words isspace p

-- `MakeArgVector` is the pushes of the command and the words in turn.
make_arg_vector-push_all :
    (isspace : ℕ → Bool) (n : Lengths) (command : List ℕ) (first_arg : Option (List ℕ))
    (argbuf : ℕ → ℕ)
    → make_arg_vector isspace n command first_arg argbuf
      ≡ push_all n
          (arguments isspace command first_arg)
          (record { argc = 0; argbuf_index = 0; argv = []; argbuf = argbuf })
unfolding make_arg_vector
make_arg_vector-push_all isspace n command none argbuf =
    let start : ArgVector = record { argc = 0; argbuf_index = 0; argv = []; argbuf = argbuf } in
    elim (Option-cases (push_to_argv n command start)) [
      | inl o ↦ rw (o, make_arg_vector, push_all) refl
      | inr ((err, v), o) ↦ elim (Bool-cases (is_success err)) [
        | inl e ↦ rw (o, e, make_arg_vector, push_all) refl
        | inr e ↦ rw (o, e, make_arg_vector, push_all) refl
      ]
    ]
make_arg_vector-push_all isspace n command (some p) argbuf =
    let start : ArgVector = record { argc = 0; argbuf_index = 0; argv = []; argbuf = argbuf } in
    elim (Option-cases (push_to_argv n command start)) [
      | inl o ↦ rw (o, make_arg_vector, push_all) refl
      | inr ((err, v), o) ↦ elim (Bool-cases (is_success err)) [
        | inl e ↦
            rw (o, e, make_arg_vector, push_all)
              (args_loop-push_all isspace n (suc (length p)) p v (omega arith))
        | inr e ↦ rw (o, e, make_arg_vector, push_all) refl
      ]
    ]

-- `MakeArgVector` pushes the command and the words of the string in order. Either the vector holds them all,
-- each with a 0 at its end, within the buffer; or it holds the first of them, up to one for which the
-- vector or the buffer had no room left, and the error says so; or one of them, behind those that it holds,
-- begins in the buffer and does not end there, which is the only undefined behaviour.
pub make_arg_vector-Pushes :
    (isspace : ℕ → Bool) (n : Lengths) (command : List ℕ) (first_arg : Option (List ℕ))
    (argbuf : ℕ → ℕ)
    → Pushes n []
        (arguments isspace command first_arg)
        (make_arg_vector isspace n command first_arg argbuf)
make_arg_vector-Pushes isspace n command first_arg argbuf =
    let start : ArgVector = record { argc = 0; argbuf_index = 0; argv = []; argbuf = argbuf } in
    rw (make_arg_vector-push_all isspace n command first_arg argbuf) (
      push_all-Pushes n [] (arguments isspace command first_arg) start
        (no_string, refl, omega arith, refl, omega arith))
