-- ===== src/SelectServer/Rounds.antt =====
-- A round of the select servers reads all clients that are ready.
use pc_env_vu.Base.{
  ℕ, ◌≡◌, Option, none, some, List, [], ◌∷◌, ◌||◌, Bool, false, ◌==◌, if◌then◌else◌,
}
use pc_env_vu.SelectServer.{Slots}

-- The descriptors without their repetitions: `select` counts those in its set.
abbrev pub is_among : ℕ → List ℕ → Bool
is_among c [] = false
is_among c (d ∷ cs) = c == d || is_among c cs

abbrev pub distinct : List ℕ → List ℕ
distinct [] = []
distinct (c ∷ cs) = if is_among c cs then distinct cs else c ∷ distinct cs

-- No descriptor stands twice.
abbrev pub IsSingle : List ℕ → Type 0
IsSingle [] = Unit
IsSingle (c ∷ cs) = (is_among c cs ≡ false) × IsSingle cs

-- The client that connects is not in the set yet.
abbrev pub IsNew : (rset : ℕ → Bool) → Option ℕ → Type 0
IsNew rset none = Unit
IsNew rset (some c) = rset c ≡ false
