-- ===== src/UserFifo/Frames.antt =====
-- The commands come out as they went in.
use pc_env_vu.Base.{
  split_at, Lacks, split_at-Lacks, split_at_found, behind-Lacks, ℕ, zero, suc, ◌≤◌, ◌≡◌, refl, ap,
  ◌∙◌, Option, none, some, List, [], ◌∷◌, ◌++◌, arith, length, length-append,
}
use pc_env_vu.UserFifo.{prefix, suffix, commands_from, commands}

-- Bytes between two commands, and a command.
pub record Item : Type 0 where
  pub noise : List ℕ
  pub command : List ℕ

abbrev pub AllSound : List Item → Type 0
AllSound [] = Unit
AllSound (i ∷ is) = Lacks prefix i.noise × Lacks suffix i.command × AllSound is

-- What a writer sends for the items, and what is in the block behind them.
abbrev pub stream : List Item → List ℕ → List ℕ
stream [] rest = rest
stream (i ∷ is) rest = i.noise ++ (prefix ∷ (i.command ++ (suffix ∷ stream is rest)))

abbrev pub commands_of : List Item → List (List ℕ)
commands_of [] = []
commands_of (i ∷ is) = i.command ∷ commands_of is

after_prefix :
    (fuel : ℕ) (buf skipped contex rest : List ℕ) {cmd : List ℕ}
    → split_at prefix buf ≡ some (skipped, cmd)
    → split_at suffix cmd ≡ some (contex, rest)
    → commands_from (suc fuel) buf ≡ contex ∷ commands_from fuel rest
unfolding commands_from
after_prefix fuel buf skipped contex rest e f = rw (e, commands_from) (rw (f, commands_from) refl)

none_left :
    (fuel : ℕ) (rest : List ℕ) (o : Option (List ℕ × List ℕ))
    → Lacks suffix rest
    → split_at prefix rest ≡ o
    → commands_from fuel rest ≡ []
unfolding commands_from
none_left zero rest o h e = refl
none_left (suc fuel) rest none h e = rw (e, commands_from) refl
none_left (suc fuel) rest (some (skipped, cmd)) h e =
    rw (e, commands_from)
      (rw (split_at-Lacks suffix cmd (behind-Lacks prefix suffix rest h e), commands_from) refl)

commands_from-stream :
    (is : List Item) (fuel : ℕ) (rest : List ℕ)
    → AllSound is
    → Lacks suffix rest
    → length (stream is rest) ≤ fuel
    → commands_from fuel (stream is rest) ≡ commands_of is
commands_from-stream [] fuel rest sound h enough = none_left fuel rest _ h refl
commands_from-stream (i ∷ is) zero rest sound h enough = absurd (
    omega
      (arith, enough, length-append i.noise (prefix ∷ (i.command ++ (suffix ∷ stream is rest)))))
commands_from-stream (i ∷ is) (suc fuel) rest sound h enough =
    after_prefix fuel (stream (i ∷ is) rest) i.noise i.command (stream is rest)
      (split_at_found prefix i.noise (i.command ++ (suffix ∷ stream is rest)) sound.0)
      (split_at_found suffix i.command (stream is rest) sound.1)
    ∙ ap (λ r. i.command ∷ r)
        (commands_from-stream is fuel rest sound.2 h (
          omega (
            arith,
            enough,
            length-append i.noise (prefix ∷ (i.command ++ (suffix ∷ stream is rest))),
            length-append i.command (suffix ∷ stream is rest),
          )))

-- From a block of commands between their marks, with bytes between them that are no start mark, and
-- bytes behind them that have no end mark, the reader takes these commands, in order, and nothing
-- else: of a command whose end mark is not in the block, nothing is kept.
pub commands-stream :
    (is : List Item) (rest : List ℕ)
    → AllSound is
    → Lacks suffix rest
    → commands (stream is rest) ≡ commands_of is
unfolding commands
commands-stream is rest sound h =
    commands_from-stream is (length (stream is rest)) rest sound h (omega arith)
