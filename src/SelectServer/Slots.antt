-- ===== src/SelectServer/Slots.antt =====
-- Who is in the table.
use pc_env_vu.Base.{
  ℕ, ◌-◌, ◌≡◌, refl, ap, none, some, List, [], ◌∷◌, ◌++◌, Bool, arith, ◌==◌, if◌then◌else◌, length,
  Bool-cases, inl, inr,
}
use pc_env_vu.SelectServer.{Slots, un_accept, in_accept, serve}

-- No slot is free.
abbrev pub IsFull : Slots → Type 0
IsFull [] = Unit
IsFull (none ∷ t) = ⊥
IsFull (some c ∷ t) = IsFull t

abbrev pub connected : Slots → List ℕ
connected [] = []
connected (none ∷ t) = connected t
connected (some c ∷ t) = c ∷ connected t

un_accept-IsFull : (t : Slots) (conn : ℕ) → IsFull (un_accept t conn)
unfolding un_accept
un_accept-IsFull [] conn = tt
un_accept-IsFull (none ∷ t) conn = un_accept-IsFull t conn
un_accept-IsFull (some c ∷ t) conn = un_accept-IsFull t conn

full_kept : (t : Slots) (conn : ℕ) → IsFull t → un_accept t conn ≡ t
unfolding un_accept
full_kept [] conn f = refl
full_kept (none ∷ t) conn f = absurd f
full_kept (some c ∷ t) conn f = ap (λ r. some c ∷ r) (full_kept t conn f)

-- The first client of `un_select_tcp_server` takes every free slot, so that a second one gets none.
pub un_accept_once :
    (t : Slots) (a b : ℕ) → IsFull (un_accept t a) × (un_accept (un_accept t a) b ≡ un_accept t a)
un_accept_once t a b = (un_accept-IsFull t a, full_kept (un_accept t a) b (un_accept-IsFull t a))

-- Where a slot is free, `in_select_tcp_server` adds the client, once, and keeps the others in order.
pub in_accept-connected :
    (t : Slots) (conn : ℕ)
    → (IsFull t → ⊥)
    → (xs : List ℕ) × (ys : List ℕ) × (connected t ≡ xs ++ ys)
      × (connected (in_accept t conn) ≡ xs ++ (conn ∷ ys))
unfolding in_accept
in_accept-connected [] conn free = absurd (free tt)
in_accept-connected (none ∷ t) conn free = ([], connected t, refl, refl)
in_accept-connected (some c ∷ t) conn free =
    let (xs, ys, e, f) = in_accept-connected t conn free in
    (c ∷ xs, ys, ap (λ r. c ∷ r) e, ap (λ r. c ∷ r) f)

module _ (is_set closes : ℕ → Bool) where
  -- The descriptors that `select` names, of those in the table.
  abbrev pub ready : List ℕ → List ℕ
  ready [] = []
  ready (c ∷ cs) = if is_set c then c ∷ ready cs else ready cs

  abbrev pub staying : List ℕ → List ℕ
  staying [] = []
  staying (c ∷ cs) =
      if is_set c then (if closes c then staying cs else c ∷ staying cs) else c ∷ staying cs

  pub nothing_ready : (cs : List ℕ) → length (ready cs) ≡ 0 → (ready cs ≡ []) × (staying cs ≡ cs)
  nothing_ready [] e = (refl, refl)
  nothing_ready (c ∷ cs) e = elim (Bool-cases (is_set c)) [
    | inl hit ↦ absurd (ground (arith, e))
    | inr miss ↦
        let (a, b) = nothing_ready cs (ground arith) in (ground (arith, a), ground (arith, b))
  ]

  -- Where the count is that of the ready descriptors in the table, each of these is read once, in the
  -- order of the table, and exactly those whose read callback returns 1 leave it.
  pub serve-ready :
      (t : Slots) (n : ℕ)
      → length (ready (connected t)) ≡ n
      → (connected (serve is_set closes n t).0 ≡ staying (connected t))
        × ((serve is_set closes n t).1 ≡ ready (connected t))
  unfolding serve
  serve-ready [] n e = (refl, refl)
  serve-ready (none ∷ t) n e = serve-ready t n e
  serve-ready (some c ∷ t) n e = elim (Bool-cases (is_set c)) [
    | inl hit ↦
        let rest = serve-ready t (n - 1) (ground (arith, e)) in
        elim (Bool-cases (n - 1 == 0)) [
          | inl over ↦
              let still = nothing_ready (connected t) (ground (arith, e)) in
              (ground (arith, still.1), ground (arith, still.0))
          | inr more ↦ (ground (arith, rest.0), ground (arith, rest.1))
        ]
    | inr miss ↦
        let rest = serve-ready t n (ground (arith, e)) in
        elim (Bool-cases (n == 0)) [
          | inl over ↦
              let still = nothing_ready (connected t) (ground (arith, e)) in
              (ground (arith, still.1), ground (arith, still.0))
          | inr more ↦ (ground (arith, rest.0), ground (arith, rest.1))
        ]
  ]
