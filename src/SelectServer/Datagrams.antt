-- ===== src/SelectServer/Datagrams.antt =====
-- The servers for datagrams and those for streams have the same loop over their table.
use pc_env_vu.Base.{
  ℕ, ◌-◌, ◌≡◌, refl, none, some, List, [], ◌∷◌, Bool, arith, if◌then◌else◌, Bool-cases, inl, inr,
}
use pc_env_vu.SelectServer.{Slots, serve, serve_datagrams}

module _ (is_set closes : ℕ → Bool) where
  -- The descriptors that do not close.
  abbrev pub open_ones : List ℕ → List ℕ
  open_ones [] = []
  open_ones (c ∷ cs) = if closes c then open_ones cs else c ∷ open_ones cs

  -- Whatever count `select` gives, the loop over a table of sockets for datagrams leaves the table and
  -- reads the descriptors that the loop for streams does, and it writes to those read that do not close.
  pub serve_datagrams-serve :
      (t : Slots) (n : ℕ)
      → ((serve_datagrams is_set closes n t).0 ≡ (serve is_set closes n t).0)
        × ((serve_datagrams is_set closes n t).1 ≡ (serve is_set closes n t).1)
        × ((serve_datagrams is_set closes n t).2 ≡ open_ones (serve is_set closes n t).1)
  unfolding serve serve_datagrams
  serve_datagrams-serve [] n = (refl, refl, refl)
  serve_datagrams-serve (none ∷ t) n =
      let (a, b, c) = serve_datagrams-serve t n in (ground (arith, a), b, c)
  serve_datagrams-serve (some fd ∷ t) n = elim (Bool-cases (is_set fd)) [
    | inl hit ↦
        let (a, b, c) = serve_datagrams-serve t (n - 1) in
        (ground (arith, a, b, c, hit), ground (arith, a, b, c, hit), ground (arith, a, b, c, hit))
    | inr miss ↦
        let (a, b, c) = serve_datagrams-serve t n in
        (
          ground (arith, a, b, c, miss),
          ground (arith, a, b, c, miss),
          ground (arith, a, b, c, miss),
        )
  ]
