-- ===== src/Args.antt =====
-- The arguments of a command, `MakeArgVector` of kernel/system.cpp: they are cut at spaces and laid out
-- in the buffer of the new application.
--
-- A C string is the list of its characters, without the 0 at its end; `isspace` is newlib's, an
-- argument, which is not asked about that 0. The buffer is a function from places to characters, and
-- `argv` the list of the places that its pointers show. A string that does not end within `argbuf_len` is
-- copied past the buffer, which is undefined behaviour, `none`. The `int` places stay far below 2 ^ 31.
use kin_os.Base.{
  ℕ, zero, suc, ◌+◌, ◌-◌, ◌*◌, Bool, true, false, ◌||◌, Option, none, some, List, [], ◌∷◌, ◌++◌,
  ◌==◌, leb, if◌then◌else◌, length, and_then,
}
use mathlib.Core.Option
use kin_os.Error.{Error, success, full}
pub mod Words
pub mod Laws
mod Tests

pub record ArgVector : Type 0 where
  pub argc : ℕ
  pub argbuf_index : ℕ
  pub argv : List ℕ
  pub argbuf : ℕ → ℕ

-- `strcpy`, the 0 at the end included.
abbrev pub strcpy : ℕ → List ℕ → (ℕ → ℕ) → ℕ → ℕ
strcpy at [] buf = λ i. if i == at then 0 else buf i
strcpy at (c ∷ cs) buf = strcpy (suc at) cs (λ i. if i == at then c else buf i)

pub record Lengths : Type 0 where
  pub argv_len : ℕ
  pub argbuf_len : ℕ

-- The lengths that `ExecuteApp` and `ExecuteServer` give: one page for both.
abbrev pub page_lengths : Lengths
page_lengths = record { argv_len = 32; argbuf_len = 4096 - 8 * 32 }

pub push_to_argv : Lengths → List ℕ → ArgVector → Option (Error × ArgVector)
push_to_argv n s v =
    if leb n.argv_len v.argc || leb n.argbuf_len v.argbuf_index
    then some (full, v)
    else if leb (v.argbuf_index + (length s + 1)) n.argbuf_len
    then some (
      success,
      record {
        argc = v.argc + 1;
        argbuf_index = v.argbuf_index + (length s + 1);
        argv = v.argv ++ v.argbuf_index ∷ [];
        argbuf = strcpy v.argbuf_index s v.argbuf;
      },
    )
    else none

abbrev pub is_success : Error → Bool
is_success success = true
is_success _ = false

module _ (isspace : ℕ → Bool) where
  -- `while (isspace(p[0])) ++p`
  abbrev pub skip_spaces : List ℕ → List ℕ
  skip_spaces [] = []
  skip_spaces (c ∷ cs) = if isspace c then skip_spaces cs else c ∷ cs

  -- `while (p[0] != 0 && !isspace(p[0])) ++p`: what it goes over, and what it comes to.
  abbrev pub take_word : List ℕ → List ℕ
  take_word [] = []
  take_word (c ∷ cs) = if isspace c then [] else c ∷ take_word cs

  abbrev pub drop_word : List ℕ → List ℕ
  drop_word [] = []
  drop_word (c ∷ cs) = if isspace c then c ∷ cs else drop_word cs

  -- The outer loop, `p` its string; `none` is undefined behaviour, or that the fuel ran out.
  pub args_loop : Lengths → ℕ → List ℕ → ArgVector → Option (Error × ArgVector)
  args_loop n zero p v = none
  args_loop n (suc fuel) p v = elim (skip_spaces p) [
    | [] ↦ some (success, v)
    | c ∷ cs ↦ elim (push_to_argv n (take_word (c ∷ cs)) v) [
      | none ↦ none
      | some (err, w) ↦ elim (is_success err) [
        | false ↦ some (err, w)
        | true ↦ elim (drop_word (c ∷ cs)) [
          | [] ↦ some (success, w)
          | space ∷ more ↦ args_loop n fuel more w
        ]
      ]
    ]
  ]

  -- Each round goes over a character at least.
  pub make_arg_vector : Lengths → List ℕ → Option (List ℕ) → (ℕ → ℕ) → Option (Error × ArgVector)
  make_arg_vector n command first_arg argbuf =
      let start : ArgVector = record { argc = 0; argbuf_index = 0; argv = []; argbuf = argbuf } in
      elim (push_to_argv n command start) [
        | none ↦ none
        | some (err, v) ↦ elim (is_success err) [
          | false ↦ some (err, v)
          | true ↦ elim first_arg [
            | none ↦ some (success, v)
            | some p ↦ args_loop n (suc (length p)) p v
          ]
        ]
      ]
