-- ===== src/Argv/Words.antt =====
-- The arguments are the words of the line.
use pc_env_vu.Base.{
  ℕ, ◌<◌, ◌≡◌, ◌≢◌, refl, sym, ap, ◌∙◌, some, true, false, List, [], ◌∷◌, ◌++◌, arith, length,
}
use mathlib.Core.List.{append_assoc, append-nil}
use pc_env_vu.Argv.{space, match_char, arguments, argl_to_argv}

-- No byte ends an argument.
abbrev pub IsPlain : List ℕ → Type 0
IsPlain [] = Unit
IsPlain (c ∷ cs) = (match_char c ≡ false) × IsPlain cs

-- Words with at least one byte.
abbrev pub AllWords : List (List ℕ) → Type 0
AllWords [] = Unit
AllWords (w ∷ ws) = IsPlain w × (0 < length w) × AllWords ws

-- The words behind a first one, with one space before each, and what is behind them.
abbrev pub spaced : List (List ℕ) → List ℕ → List ℕ
spaced [] rest = rest
spaced (w ∷ ws) rest = space ∷ (w ++ spaced ws rest)

plain_step :
    (arg : List ℕ) (c d : ℕ) (rest : List ℕ)
    → match_char c ≡ false
    → arguments arg (c ∷ d ∷ rest) ≡ arguments (arg ++ (c ∷ [])) (d ∷ rest)
unfolding arguments
plain_step arg c d rest p = ground arith

-- The bytes of a word are taken one by one.
plain_taken :
    (w arg : List ℕ) (c : ℕ) (rest : List ℕ)
    → IsPlain w
    → arguments arg (w ++ (c ∷ rest)) ≡ arguments (arg ++ w) (c ∷ rest)
plain_taken [] arg c rest p = ap (λ a. arguments a (c ∷ rest)) (sym (append-nil arg))
plain_taken (x ∷ []) arg c rest p = plain_step arg x c rest p.0
plain_taken (x ∷ y ∷ w) arg c rest p =
    plain_step arg x y (w ++ (c ∷ rest)) p.0
    ∙ plain_taken (y ∷ w) (arg ++ (x ∷ [])) c rest p.1
    ∙ ap (λ a. arguments a (c ∷ rest)) (append_assoc arg (x ∷ []) (y ∷ w))

end_step :
    (arg : List ℕ) (c : ℕ) (rest : List ℕ)
    → match_char c ≡ true
    → c ≢ space
    → arguments arg (c ∷ rest) ≡ some (arg ∷ [])
unfolding arguments
end_step arg c [] m n = ground arith
end_step arg c (d ∷ rest) m n = ground arith

space_step :
    (arg : List ℕ) (d : ℕ) (rest : List ℕ) (argv : List (List ℕ))
    → d ≢ space
    → arguments [] (d ∷ rest) ≡ some argv
    → arguments arg (space ∷ d ∷ rest) ≡ some (arg ∷ argv)
unfolding arguments
space_step arg d rest argv n e = rw e (ground arith)

double_step :
    (arg rest : List ℕ)
    → arguments arg (space ∷ space ∷ rest) ≡ arguments (arg ++ (space ∷ [])) (space ∷ rest)
unfolding arguments
double_step arg rest = refl

plain_no_space : (c : ℕ) → match_char c ≡ false → c ≢ space
plain_no_space c p e = absurd (ground arith)

module _ (end : ℕ) (rest : List ℕ) (ends : match_char end ≡ true) (no_space : end ≢ space) where
  arguments-spaced :
      (ws : List (List ℕ)) (w : List ℕ)
      → IsPlain w
      → AllWords ws
      → arguments [] (w ++ spaced ws (end ∷ rest)) ≡ some (w ∷ ws)
  arguments-spaced [] w p all = plain_taken w [] end rest p ∙ end_step w end rest ends no_space
  arguments-spaced ([] ∷ ws) w p all = absurd (omega (arith, all.1))
  arguments-spaced ((x ∷ v) ∷ ws) w p all =
      plain_taken w [] space ((x ∷ v) ++ spaced ws (end ∷ rest)) p
      ∙ space_step w x (v ++ spaced ws (end ∷ rest)) ((x ∷ v) ∷ ws) (plain_no_space x all.0.0)
          (arguments-spaced ws (x ∷ v) all.0 all.2)

  argl_lem :
      (w line : List ℕ) {argv : List (List ℕ)}
      → IsPlain w
      → 0 < length w
      → arguments [] (w ++ line) ≡ some argv
      → argl_to_argv (w ++ line) ≡ some (some argv)
  unfolding argl_to_argv
  argl_lem [] line p some_byte e = absurd (omega (arith, some_byte))
  argl_lem (x ∷ w) line p some_byte e = rw e (ground (arith, p.0))

-- A line of words with one space between two of them, up to the newline or the end mark, is cut into
-- these words.
pub argl_to_argv-spaced :
    (w : List ℕ) (ws : List (List ℕ)) (end : ℕ) (rest : List ℕ)
    → AllWords (w ∷ ws)
    → match_char end ≡ true
    → end ≢ space
    → argl_to_argv (w ++ spaced ws (end ∷ rest)) ≡ some (some (w ∷ ws))
argl_to_argv-spaced w ws end rest all ends no_space =
    argl_lem end rest ends no_space w (spaced ws (end ∷ rest)) all.0 all.1
      (arguments-spaced end rest ends no_space ws w all.0 all.2)

-- Of two spaces between two words, the first stays at the end of the first argument.
pub space_kept :
    (w v : List ℕ) (end : ℕ) (rest : List ℕ)
    → AllWords (w ∷ v ∷ [])
    → match_char end ≡ true
    → end ≢ space
    → argl_to_argv (w ++ (space ∷ spaced (v ∷ []) (end ∷ rest)))
      ≡ some (some ((w ++ (space ∷ [])) ∷ v ∷ []))
space_kept w [] end rest all ends no_space = absurd (omega (arith, all.2.1))
space_kept w (x ∷ v) end rest all ends no_space =
    argl_lem end rest ends no_space w (space ∷ spaced ((x ∷ v) ∷ []) (end ∷ rest)) all.0 all.1 (
      plain_taken w [] space (spaced ((x ∷ v) ∷ []) (end ∷ rest)) all.0
      ∙ double_step w ((x ∷ v) ++ (end ∷ rest))
      ∙ space_step (w ++ (space ∷ [])) x (v ++ (end ∷ rest)) ((x ∷ v) ∷ [])
          (plain_no_space x all.2.0.0)
          (arguments-spaced end rest ends no_space [] (x ∷ v) all.2.0 tt))
