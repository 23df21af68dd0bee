-- ===== src/UserFifo/Dispatch.antt =====
-- Which handler a command line runs.
use pc_env_vu.Base.{
  ℕ, ◌≡◌, refl, ap, ◌∙◌, some, true, false, List, [], ◌∷◌, ◌++◌, arith, if◌then◌else◌,
}
use pc_env_vu.Argv.{newline}
use pc_env_vu.Argv.Words.{AllWords, spaced, argl_to_argv-spaced}
use pc_env_vu.UserFifo.{Entry, succeeded, failure, matches, dispatch, user_fifo_cmd_handle}

-- No entry is taken for the word.
abbrev pub NoneMatches : List ℕ → List Entry → Type 0
NoneMatches w [] = Unit
NoneMatches w (i ∷ is) = (matches i.cmd w ≡ false) × NoneMatches w is

dispatch_first :
    (earlier : List Entry) (i : Entry) (later : List Entry) (argv : List (List ℕ)) (w : List ℕ)
    → NoneMatches w earlier
    → matches i.cmd w ≡ true
    → dispatch (earlier ++ (i ∷ later)) argv w ≡ (if i.handle argv then failure else succeeded)
unfolding dispatch
dispatch_first [] i later argv w none_earlier hit = rw hit refl
dispatch_first (e ∷ earlier) i later argv w none_earlier hit =
    rw (none_earlier.0) (dispatch_first earlier i later argv w none_earlier.1 hit)

-- A word matches every name that starts with it.
matches-append : (w v : List ℕ) → matches (w ++ v) w ≡ true
unfolding matches
matches-append [] [] = refl
matches-append [] (y ∷ v) = refl
matches-append (x ∷ w) v = ground (arith, matches-append w v)

-- A command line of words runs the handler of the first entry that matches its first word, on all
-- its words, and any start of a name is taken for the name: here `v` may be empty or not.
pub cmd_handle_first :
    (earlier : List Entry) (i : Entry) (later : List Entry) (w v : List ℕ) (ws : List (List ℕ))
    (rest : List ℕ)
    → AllWords (w ∷ ws)
    → NoneMatches w earlier
    → i.cmd ≡ w ++ v
    → user_fifo_cmd_handle (earlier ++ (i ∷ later)) (w ++ spaced ws (newline ∷ rest))
      ≡ some (if i.handle (w ∷ ws) then failure else succeeded)
unfolding user_fifo_cmd_handle
cmd_handle_first earlier i later w v ws rest all none_earlier name =
    rw (argl_to_argv-spaced w ws newline rest all refl (λ e. omega (arith, e))) (
      ap some (
        dispatch_first earlier i later (w ∷ ws) w none_earlier
          (ap (λ c. matches c w) name ∙ matches-append w v)))
