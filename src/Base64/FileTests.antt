-- ===== src/Base64/FileTests.antt =====
-- Files of 17 bytes, and of 3.
use pc_env_vu.Base.{split_at, ◌≡◌, refl, some, [], ◌∷◌, ◌++◌, arith, inr, Text}
use pc_env_vu.Base64.{
  codes, digits_first, first, second, third, fourth, third_high, second_high, encode, find, byte_0,
  byte_1, byte_2, decode,
}
use pc_env_vu.Base64.Files.{encode_file, getline, decode_file}
use pc_env_vu.Base64.FileTrip.{decode_file-encode_file}

abbrev four_nulls : Text → Text
four_nulls line = 0 ∷ 0 ∷ 0 ∷ 0 ∷ []

decode_file-encode_file_example :
    (file : Text) × (encode_file 18 (codes "Hello, dear world") ≡ some file)
    × (decode_file four_nulls 18 file ≡ some (codes "Hello, dear world"))
decode_file-encode_file_example =
    decode_file-encode_file four_nulls 18 18 (codes "Hello, dear world") (omega arith) (omega arith)
      (inr (λ e. omega (arith, e))) (omega arith)

encodes_lines :
    encode_file 18 (codes "Hello, dear world")
    ≡ some (codes "I6LiR6yi86HbON8WTszoR0==" ++ (10 ∷ (codes "P0==" ++ (10 ∷ []))))
unfolding encode_file encode digits_first first second third fourth third_high second_high
encodes_lines = refl

-- Three bytes fill their group, and the decoder reads on over the newline.
grows :
    decode_file four_nulls 4 (codes "OM9Z" ++ (10 ∷ []))
    ≡ some (codes "abc" ++ (255 ∷ 255 ∷ 255 ∷ []))
unfolding decode_file getline decode find digits_first byte_0 byte_1 byte_2 split_at
grows = refl
