-- ===== src/Args/Tests.antt =====
-- A command with two arguments, and one that does not fit.
use kin_os.Base.{ℕ, ◌≡◌, refl, Bool, Option, none, some, List, [], ◌∷◌, ◌==◌}
use mathlib.Core.Option
use kin_os.Error.{Error, success, full}
use kin_os.Args.{ArgVector, page_lengths, push_to_argv, args_loop, make_arg_vector}
use kin_os.Args.Words.{words}
use kin_os.Args.Laws.{Pushes, arguments, make_arg_vector-Pushes}

abbrev is_blank : ℕ → Bool
is_blank c = c == 32

-- `" ab  c"`
abbrev line : List ℕ
line = 32 ∷ 97 ∷ 98 ∷ 32 ∷ 32 ∷ 99 ∷ []

two_words : words is_blank line ≡ (97 ∷ 98 ∷ []) ∷ (99 ∷ []) ∷ []
two_words = refl

-- The errors and the places in the buffer.
abbrev outcome : Option (Error × ArgVector) → Option (Error × List ℕ)
outcome r = Option.map (λ p. (p.0, p.1.argv)) r

splits :
    outcome (make_arg_vector is_blank page_lengths (101 ∷ []) (some line) (λ i. 0))
    ≡ some (success, 0 ∷ 2 ∷ 5 ∷ [])
unfolding make_arg_vector args_loop push_to_argv
splits = refl

-- Room for one pointer only.
refuses :
    outcome (
      make_arg_vector is_blank
        (record page_lengths { argv_len = 1 })
        (101 ∷ [])
        (some line)
        (λ i. 0))
    ≡ some (full, 0 ∷ [])
unfolding make_arg_vector args_loop push_to_argv
refuses = refl

-- A buffer that ends within the second word.
overruns :
    outcome (
      make_arg_vector is_blank
        (record page_lengths { argbuf_len = 6 })
        (101 ∷ [])
        (some line)
        (λ i. 0))
    ≡ none
unfolding make_arg_vector args_loop push_to_argv
overruns = refl

make_arg_vector-Pushes_example :
    Pushes page_lengths []
      (arguments is_blank (101 ∷ []) (some line))
      (make_arg_vector is_blank page_lengths (101 ∷ []) (some line) (λ i. 0))
make_arg_vector-Pushes_example =
    make_arg_vector-Pushes is_blank page_lengths (101 ∷ []) (some line) (λ i. 0)
