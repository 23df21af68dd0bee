-- ===== src/Base64/Tests.antt =====
-- Runs of the coder, and the theorems at them.
use pc_env_vu.Base.{
  ℕ, ◌+◌, ◌<◌, ◌≤◌, ◌≡◌, refl, none, some, List, [], ◌∷◌, ◌++◌, arith, length, size_max,
}
use pc_env_vu.Base64.{
  codes, standard, digits_first, first, second, third, fourth, third_high, second_high, encode,
  find, byte_0, byte_1, byte_2, decode,
}
use pc_env_vu.Base64.Encode.{text, encode-text, encode_full}
use pc_env_vu.Base64.RoundTrip.{standard-IsAlphabet, digits_first-IsAlphabet, decode-encode}
use pc_env_vu.Base64.Overrun.{junk, decode_overruns, decode_line}

encode_hello : encode standard 16 (codes "Hello") ≡ some (8, codes "SGVsbG8=" ++ (0 ∷ []))
unfolding encode standard first second third fourth third_high second_high
encode_hello = refl

decode_hello : decode standard 16 8 (codes "SGVsbG8=") ≡ some (5, codes "Hello")
unfolding decode standard byte_0 byte_1 byte_2 find
decode_hello = refl

-- A text of no characters is refused.
decode_nothing : decode standard 16 0 [] ≡ some (size_max, [])
unfolding decode
decode_nothing = refl

encode-text_run :
    encode standard 16 (codes "Hello") ≡ some (8, text standard (codes "Hello") ++ (0 ∷ []))
encode-text_run = encode-text standard 16 (codes "Hello") (omega arith)

encode_full_run :
    (out : List ℕ) × (encode standard 8 (codes "Hello") ≡ some (size_max, out)) × (length out ≤ 8)
encode_full_run = encode_full standard 8 (codes "Hello") (omega arith) (omega arith)

decode-encode_example :
    (len : ℕ) × (out : List ℕ) × (encode digits_first 9 (codes "Hello") ≡ some (len, out))
    × (decode digits_first 5 len out ≡ some (5, codes "Hello"))
decode-encode_example =
    decode-encode 9 5 (codes "Hello") digits_first-IsAlphabet (omega arith) (omega arith)
      (omega arith) (omega arith)

decode_overruns_example : decode standard 4 8 (text standard (codes "abcdef") ++ []) ≡ none
decode_overruns_example =
    decode_overruns 4 2 (codes "abcdef") [] standard-IsAlphabet (omega arith) (omega arith)
      (omega arith) (omega arith) (omega arith)

decode_line_run :
    (decode standard 512 5 (text standard (codes "abc") ++ (10 ∷ 0 ∷ 0 ∷ 0 ∷ []))
      ≡ some (3 + length (junk standard 0 0), codes "abc" ++ junk standard 0 0))
    × (0 < length (junk standard 0 0))
decode_line_run =
    decode_line 512 1 (codes "abc") 0 0 [] standard-IsAlphabet (omega arith) (omega arith)
      (omega arith) (omega arith)
