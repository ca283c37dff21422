-- ===== src/Args/Words.antt =====
-- The loop over a command's arguments pushes the words of the string, one after the other.
use kin_os.Base.{
  ℕ, zero, suc, ◌<◌, ◌≤◌, ◌≡◌, refl, ap, ◌∙◌, sym, Bool, true, false, Option, none, some, List, [],
  ◌∷◌, ◌++◌, if◌then◌else◌, length, arith, Bool-cases, Option-cases, inl, inr, ◌⊎◌,
}
use mathlib.Core.List.{append-nil, append_assoc}
use kin_os.Error.{Error, success}
use kin_os.Args.{
  ArgVector, Lengths, push_to_argv, is_success, skip_spaces, take_word, drop_word, args_loop,
}

-- The words of a string, character by character: `w` is the word so far.
abbrev pub flush : List ℕ → List (List ℕ) → List (List ℕ)
flush [] others = others
flush (c ∷ cs) others = (c ∷ cs) ∷ others

module _ (isspace : ℕ → Bool) where
  abbrev pub words_from : List ℕ → List ℕ → List (List ℕ)
  words_from w [] = flush w []
  words_from w (c ∷ cs) =
      if isspace c then flush w (words_from [] cs) else words_from (w ++ c ∷ []) cs

abbrev pub words : (ℕ → Bool) → List ℕ → List (List ℕ)
words isspace p = words_from isspace [] p

-- The pushes of a list of strings, up to the first that fails or is undefined.
abbrev pub push_all : Lengths → List (List ℕ) → ArgVector → Option (Error × ArgVector)
push_all n [] v = some (success, v)
push_all n (a ∷ others) v = elim (push_to_argv n a v) [
  | none ↦ none
  | some (err, w) ↦ elim (is_success err) [ false ↦ some (err, w) | true ↦ push_all n others w ]
]

module _ (isspace : ℕ → Bool) where
  -- What follows the word that a string begins with.
  abbrev words_behind : List ℕ → List (List ℕ)
  words_behind [] = []
  words_behind (c ∷ cs) = words isspace cs

  words-skip_spaces : (p : List ℕ) → words isspace p ≡ words isspace (skip_spaces isspace p)
  words-skip_spaces [] = refl
  words-skip_spaces (c ∷ cs) = elim (Bool-cases (isspace c)) [
    | inl e ↦ rw e (words-skip_spaces cs)
    | inr e ↦ rw e (rw e refl)
  ]

  words_from-take_word :
      (w p : List ℕ)
      → words_from isspace w p
        ≡ flush (w ++ take_word isspace p) (words_behind (drop_word isspace p))
  words_from-take_word w [] = ap (λ t. flush t []) (sym (append-nil w))
  words_from-take_word w (c ∷ cs) = elim (Bool-cases (isspace c)) [
    | inl e ↦ rw e (ap (λ t. flush t (words isspace cs)) (sym (append-nil w)))
    | inr e ↦ rw e (
        words_from-take_word (w ++ c ∷ []) cs
        ∙ ap (λ t. flush t (words_behind (drop_word isspace cs)))
            (append_assoc w (c ∷ []) (take_word isspace cs)))
  ]

  skip_spaces-cases :
      (p : List ℕ)
      → (skip_spaces isspace p ≡ [])
        ⊎ ((c : ℕ) × (cs : List ℕ) × (skip_spaces isspace p ≡ c ∷ cs)
            × (isspace c ≡ false)
            × (length cs < length p))
  skip_spaces-cases [] = inl refl
  skip_spaces-cases (c ∷ cs) = elim (Bool-cases (isspace c)) [
    | inl e ↦ rw e (elim (skip_spaces-cases cs) [
      | inl h ↦ inl h
      | inr (d, ds, h, k, lt) ↦ inr (d, ds, h, k, omega (arith, lt))
    ])
    | inr e ↦ rw e (inr (c, cs, refl, e, omega arith))
  ]

  drop_word-le : (p : List ℕ) → length (drop_word isspace p) ≤ length p
  drop_word-le [] = omega arith
  drop_word-le (c ∷ cs) = elim (Bool-cases (isspace c)) [
    | inl e ↦ rw e (omega arith)
    | inr e ↦ rw e (omega (arith, drop_word-le cs))
  ]

  -- A word, and what the loop does after it.
  words-word :
      (c : ℕ) (cs : List ℕ)
      → isspace c ≡ false
      → words isspace (c ∷ cs)
        ≡ take_word isspace (c ∷ cs) ∷ words_behind (drop_word isspace (c ∷ cs))
  words-word c cs h = words_from-take_word [] (c ∷ cs) ∙ rw h refl

  -- The end of a round, behind its word.
  rest-push_all :
      (n : Lengths) (fuel : ℕ) (d : List ℕ) (v : ArgVector)
      → length d ≤ fuel
      → ((more : List ℕ)
          → length more < fuel
          → args_loop isspace n fuel more v ≡ push_all n (words isspace more) v)
      → elim d as (λ _. Option (Error × ArgVector)) [
        | [] ↦ some (success, v)
        | space ∷ more ↦ args_loop isspace n fuel more v
      ]
        ≡ push_all n (words_behind d) v
  rest-push_all n fuel [] v le others = refl
  rest-push_all n fuel (c ∷ cs) v le others = others cs (omega arith)

  pub args_loop-push_all :
      (n : Lengths) (fuel : ℕ) (p : List ℕ) (v : ArgVector)
      → length p < fuel
      → args_loop isspace n fuel p v ≡ push_all n (words isspace p) v
  unfolding args_loop
  args_loop-push_all n zero p v enough = absurd (omega arith)
  args_loop-push_all n (suc fuel) p v enough = elim (skip_spaces-cases p) [
    | inl h ↦ rw (words-skip_spaces p) (rw (h, args_loop) refl)
    | inr (c, cs, h, k, lt) ↦ rw (words-skip_spaces p) (
        rw (h, args_loop)
          (rw (words-word c cs k) (
            let shorter : length (drop_word isspace (c ∷ cs)) ≤ fuel =
              omega (arith, drop_word-le (c ∷ cs), drop_word-le cs) in
            elim (Option-cases (push_to_argv n (take_word isspace (c ∷ cs)) v)) [
              | inl o ↦ rw (o, push_all) refl
              | inr ((err, w), o) ↦
                  rw (o, push_all)
                    (elim (Bool-cases (is_success err)) [
                      | inl e ↦ rw e (
                          rest-push_all n fuel (drop_word isspace (c ∷ cs)) w shorter
                            (λ more lt. args_loop-push_all n fuel more w lt))
                      | inr e ↦ rw e refl
                    ])
            ])))
  ]
