-- ===== src/Argv/Tests.antt =====
-- Runs of the cutter, and its theorems at them.
use pc_env_vu.Base.{ℕ, ◌≡◌, refl, some, List, [], ◌∷◌, ◌++◌, arith}
use pc_env_vu.Argv.{space, newline, argl_to_argv}
use pc_env_vu.Argv.Words.{AllWords, spaced, argl_to_argv-spaced, space_kept}

abbrev ls : List ℕ
ls = b'l' ∷ b's' ∷ []

abbrev opt : List ℕ
opt = b'-' ∷ b'a' ∷ []

-- "ls -a\n"
run_ls : argl_to_argv (ls ++ spaced (opt ∷ []) (newline ∷ [])) ≡ some (some (ls ∷ opt ∷ []))
unfolding argl_to_argv
run_ls = refl

words : AllWords (ls ∷ opt ∷ [])
words = ((refl, (refl, tt)), omega arith, ((refl, (refl, tt)), omega arith, tt))

argl_to_argv-spaced_example :
    argl_to_argv (ls ++ spaced (opt ∷ []) (newline ∷ [])) ≡ some (some (ls ∷ opt ∷ []))
argl_to_argv-spaced_example =
    argl_to_argv-spaced ls (opt ∷ []) newline [] words refl (λ e. omega (arith, e))

space_kept_run :
    argl_to_argv (ls ++ (space ∷ spaced (opt ∷ []) (0 ∷ [])))
    ≡ some (some ((ls ++ (space ∷ [])) ∷ opt ∷ []))
space_kept_run = space_kept ls opt 0 [] words refl (λ e. omega (arith, e))
