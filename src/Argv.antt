-- ===== src/Argv.antt =====
-- misc.c: a command line cut into its arguments.
pub mod Words
mod Tests
use pc_env_vu.Base.{
  ℕ, zero, suc, ◌+◌, Option, none, some, List, [], ◌∷◌, ◌++◌, Bool, true, false, ◌||◌, ◌&&◌, length,
  ◌==◌, if◌then◌else◌, ◌>>=◌,
}

abbrev pub space : ℕ
space = b' '

abbrev pub newline : ℕ
newline = 10

-- `match_char`
abbrev pub match_char : ℕ → Bool
match_char ch = ch == space || ch == 0 || ch == newline

-- The loop of `argl_to_argv`, with the bytes `arg` since the last cut. A space before a space is
-- passed over, which leaves it in the argument. `none` is a line with no end, which is read past.
unfoldable pub arguments : (arg : List ℕ) → List ℕ → Option (List (List ℕ))
arguments arg [] = none
arguments arg (c ∷ []) = if c == space then none else if match_char c then some (arg ∷ []) else none
arguments arg (c ∷ d ∷ argl) =
    let passed = arguments (arg ++ (c ∷ [])) (d ∷ argl) in
    let cut = arguments [] (d ∷ argl) in
    if c == space && d == space
    then passed
    else if c == space
    then (cut >>= λ argv. some (arg ∷ argv))
    else if match_char c
    then some (arg ∷ [])
    else passed

-- Where the allocations succeed. The inner `none` is the NULL for an empty line; `argc` is the number
-- of the arguments.
unfoldable pub argl_to_argv : List ℕ → Option (Option (List (List ℕ)))
unfolding arguments
argl_to_argv [] = none
argl_to_argv (c ∷ argl) =
    if c == 0 then some none else (arguments [] (c ∷ argl) >>= λ argv. some (some argv))
