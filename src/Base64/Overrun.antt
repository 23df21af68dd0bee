-- ===== src/Base64/Overrun.antt =====
-- Where the decoder leaves its buffer, or reads past the text.
use pc_env_vu.Base.{
  ℕ, zero, suc, ◌+◌, ◌-◌, ◌*◌, ◌≤◌, ◌<◌, ◌≡◌, ap, ◌∙◌, none, some, List, [], ◌∷◌, ◌++◌, arith,
  length, if◌then◌else◌, ◌==◌,
}
use pc_env_vu.Base64.{
  Alphabet, pad, first, second, third, fourth, decode_from, decode, find, byte_0, byte_1, byte_2,
}
use pc_env_vu.Base64.Encode.{groups, groups-eq, text}
use pc_env_vu.Base64.RoundTrip.{
  IsAlphabet, AllBytes, decode_group, third-lt, fourth-lt, decode_enters,
}

groups-pos : (w : ℕ) (xs : List ℕ) → 0 < groups (w ∷ xs)
groups-pos w xs = omega (arith, groups-eq (w ∷ xs))

module _ {a : Alphabet} (ok : IsAlphabet a) (size : ℕ) where
  -- The last group does not fit.
  decode_last :
      (j left : ℕ) (x y z : ℕ) (tail : List ℕ)
      → y < 256
      → z < 256
      → size < j + 3
      → decode_from a size j
          (suc left)
          (a (first x) ∷ a (second x y) ∷ a (third y z) ∷ a (fourth z) ∷ tail)
        ≡ none
  unfolding decode_from
  decode_last j left x y z tail hy hz short =
      ground
        (arith, ok.unpadded (third y z) (third-lt hy hz), ok.unpadded (fourth z) (fourth-lt hz))

  decode_from-short :
      (rest : List ℕ) (j left : ℕ) (bin : List ℕ)
      → left ≡ 4 * groups bin
      → AllBytes bin
      → length bin ≡ 3 * groups bin
      → 0 < groups bin
      → j + length bin ≤ size + 3
      → size < j + length bin
      → decode_from a size j left (text a bin ++ rest) ≡ none
  decode_from-short rest j left [] e h whole pos least short = absurd (omega arith)
  decode_from-short rest j left (x ∷ []) e h whole pos least short = absurd (omega arith)
  decode_from-short rest j left (x ∷ y ∷ []) e h whole pos least short = absurd (omega arith)
  decode_from-short rest j zero (x ∷ y ∷ z ∷ xs) e h whole pos least short = absurd (omega arith)
  decode_from-short rest j (suc left) (x ∷ y ∷ z ∷ []) e h whole pos least short =
      decode_last j left x y z rest h.1.0 h.1.1.0 (omega arith)
  decode_from-short rest j (suc left) (x ∷ y ∷ z ∷ w ∷ xs) e h whole pos least short =
      let more = groups-pos w xs in
      let later =
        decode_from-short rest (j + 3) (suc left - 4) (w ∷ xs) (omega arith) h.1.1.1 (omega arith)
          more (omega arith) (omega arith) in
      decode_group ok size j left x y z (text a (w ∷ xs) ++ rest) h.0 h.1.0 h.1.1.0 (omega arith)
      ∙ rw later (ground arith)

-- The test at the entry lets the last group pass unchecked: the text of whole groups, decoded into a
-- buffer that holds all of them but the last, or the last in part, is written past its end.
pub decode_overruns :
    {a : Alphabet} (size count : ℕ) (bin rest : List ℕ)
    → IsAlphabet a
    → AllBytes bin
    → 0 < count
    → length bin ≡ 3 * count
    → 3 * (count - 1) ≤ size
    → size < 3 * count
    → decode a size (4 * count) (text a bin ++ rest) ≡ none
decode_overruns {a} size count bin rest ok h pos whole least short =
    decode_enters a size (4 * count) (text a bin ++ rest) (omega arith) (omega arith)
    ∙ decode_from-short ok size rest 0 (4 * count) bin (omega (arith, groups-eq bin)) h
        (omega (arith, groups-eq bin)) (omega (arith, groups-eq bin)) (omega arith) (omega arith)

-- What the loop makes of a line's newline, its end mark and the two bytes behind it.
pub junk : Alphabet → ℕ → ℕ → List ℕ
junk a u v =
    let b = byte_0 (find a 10) (find a 0) in
    let c = byte_1 (find a 0) (find a u) in
    let d = byte_2 (find a u) (find a v) in
    if u == pad then b ∷ [] else if v == pad then b ∷ c ∷ [] else b ∷ c ∷ d ∷ []

junk-pos : (a : Alphabet) (u v : ℕ) → 0 < length (junk a u v)
unfolding junk
junk-pos a u v = ground arith

module _ {a : Alphabet} (ok : IsAlphabet a) (size u v : ℕ) (rest : List ℕ) where
  decode_newline :
      (j left : ℕ)
      → left ≡ 1
      → j + 3 ≤ size
      → decode_from a size j left (10 ∷ 0 ∷ u ∷ v ∷ rest)
        ≡ some (j + length (junk a u v), junk a u v)
  unfolding decode_from junk
  decode_newline j zero e room = absurd (omega arith)
  decode_newline j (suc left) e room = ground arith

  decode_from-line :
      (j left : ℕ) (bin : List ℕ)
      → left ≡ 4 * groups bin + 1
      → AllBytes bin
      → length bin ≡ 3 * groups bin
      → j + length bin + 3 ≤ size
      → decode_from a size j left (text a bin ++ (10 ∷ 0 ∷ u ∷ v ∷ rest))
        ≡ some (j + length bin + length (junk a u v), bin ++ junk a u v)
  decode_from-line j left [] e h whole room = ground (arith, decode_newline j left)
  decode_from-line j left (x ∷ []) e h whole room = absurd (omega arith)
  decode_from-line j left (x ∷ y ∷ []) e h whole room = absurd (omega arith)
  decode_from-line j zero (x ∷ y ∷ z ∷ xs) e h whole room = absurd (omega arith)
  decode_from-line j (suc left) (x ∷ y ∷ z ∷ xs) e h whole room =
      decode_group ok size j left x y z (text a xs ++ (10 ∷ 0 ∷ u ∷ v ∷ rest)) h.0 h.1.0 h.1.1.0
        (omega arith)
      ∙ ground (arith, decode_from-line (j + 3) (suc left - 4) xs)

-- A line of whole groups that is decoded with its newline, as both programs do, yields more bytes
-- than were encoded: those that the loop makes of the newline, the end mark and what is behind.
pub decode_line :
    {a : Alphabet} (size count : ℕ) (bin : List ℕ) (u v : ℕ) (rest : List ℕ)
    → IsAlphabet a
    → AllBytes bin
    → 0 < count
    → length bin ≡ 3 * count
    → length bin + 3 ≤ size
    → (decode a size (4 * count + 1) (text a bin ++ (10 ∷ 0 ∷ u ∷ v ∷ rest))
        ≡ some (length bin + length (junk a u v), bin ++ junk a u v))
      × (0 < length (junk a u v))
decode_line {a} size count bin u v rest ok h pos whole room = (
  decode_enters a size (4 * count + 1) (text a bin ++ (10 ∷ 0 ∷ u ∷ v ∷ rest)) (omega arith)
        (omega arith)
      ∙ decode_from-line ok size u v rest 0 (4 * count + 1) bin (omega (arith, groups-eq bin)) h
          (omega (arith, groups-eq bin)) (omega arith)
      ∙ ap (λ n. some (n + length (junk a u v), bin ++ junk a u v)) {x = 0 + length bin}
          {y = length bin} (omega arith),
  junk-pos a u v,
)
