-- ===== src/SelectServer/Tests.antt =====
-- The theorems at a table of four slots.
use pc_env_vu.Base.{ltb, ℕ, ◌≡◌, refl, none, some, List, [], ◌∷◌, ◌++◌, ◌==◌, true}
use pc_env_vu.SelectServer.{Slots, un_accept, in_accept, serve, serve_datagrams}
use pc_env_vu.SelectServer.Datagrams.{serve_datagrams-serve}
use pc_env_vu.SelectServer.Slots.{
  IsFull, connected, un_accept_once, in_accept-connected, serve-ready,
}

abbrev four : Slots
four = some 5 ∷ none ∷ some 7 ∷ some 8 ∷ []

un_accept_once_run : IsFull (un_accept four 9) × (un_accept (un_accept four 9) 6 ≡ un_accept four 9)
un_accept_once_run = un_accept_once four 9 6

in_accept-connected_run :
    (xs : List ℕ) × (ys : List ℕ) × (5 ∷ 7 ∷ 8 ∷ [] ≡ xs ++ ys)
    × (connected (in_accept four 9) ≡ xs ++ (9 ∷ ys))
in_accept-connected_run = in_accept-connected four 9 (λ f. f)

-- 7 is ready, and closes.
serve-ready_run :
    (connected (serve (λ c. c == 7) (λ c. true) 1 four).0 ≡ 5 ∷ 8 ∷ [])
    × ((serve (λ c. c == 7) (λ c. true) 1 four).1 ≡ 7 ∷ [])
serve-ready_run = serve-ready (λ c. c == 7) (λ c. true) four 1 refl

-- 5 and 7 are ready; 7 closes.
serve_datagrams-serve_example :
    ((serve_datagrams (λ c. ltb c 8) (λ c. c == 7) 2 four).0
      ≡ (serve (λ c. ltb c 8) (λ c. c == 7) 2 four).0)
    × ((serve_datagrams (λ c. ltb c 8) (λ c. c == 7) 2 four).1 ≡ 5 ∷ 7 ∷ [])
    × ((serve_datagrams (λ c. ltb c 8) (λ c. c == 7) 2 four).2 ≡ 5 ∷ [])
unfolding serve
serve_datagrams-serve_example = serve_datagrams-serve (λ c. ltb c 8) (λ c. c == 7) four 2
