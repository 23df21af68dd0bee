-- ===== src/Base64/FileTrip.antt =====
-- A file that is encoded and decoded again.
use pc_env_vu.Base.{
  ℕ, zero, suc, ◌+◌, ◌*◌, ◌/◌, ◌%◌, ◌≤◌, ◌<◌, ◌≡◌, refl, sym, ap, ap₂, ◌∙◌, ◌≢◌, ◌⊎◌, inl, inr,
  some, [], ◌∷◌, ◌++◌, true, false, arith, length, take, drop, length-take, length-drop,
  length-append, take-append-drop, take_whole, ltb, ◌==◌, split_at_found, Lacks, Text, Bool-cases,
  if◌then◌else◌, take_front,
}
use pc_env_vu.Base64.{digits_first, encode, decode}
use pc_env_vu.Base64.Encode.{groups-eq, text, encode-text}
use pc_env_vu.Base64.RoundTrip.{AllBytes}
use pc_env_vu.Base64.Lines.{length-text, text-Lacks, decode_line_padded}
use pc_env_vu.Base64.Files.{newline, is_positive, encode_file, getline, decode_file}

-- The last line holds no whole number of groups: a file of lines of 16 bytes, or whose last line is of a
-- length that is no multiple of 3.
abbrev pub IsReadable : Text → Type 0
IsReadable bin = (length bin % 16 ≡ 0) ⊎ (length bin % 16 % 3 ≢ 0)

nil_of : (bin : Text) → length bin ≡ 0 → bin ≡ []
nil_of [] e = refl
nil_of (x ∷ xs) e = absurd (omega (arith, e))

-- The lines of a file.
abbrev pub encoded : (fuel : ℕ) → Text → Text
encoded zero bin = []
encoded (suc fuel) bin =
    let rest = encoded fuel (drop 16 bin) in
    if length bin == 0 then [] else text digits_first (take 16 bin) ++ (newline ∷ rest)

encoded_nil : (fuel : ℕ) (bin : Text) → length bin ≡ 0 → encoded fuel bin ≡ []
encoded_nil zero bin e = refl
encoded_nil (suc fuel) bin e = ground (arith, e)

take-AllBytes : (n : ℕ) (bin : Text) → AllBytes bin → AllBytes (take n bin)
take-AllBytes zero bin h = tt
take-AllBytes (suc n) [] h = tt
take-AllBytes (suc n) (x ∷ xs) h = (h.0, take-AllBytes n xs h.1)

drop-AllBytes : (n : ℕ) (bin : Text) → AllBytes bin → AllBytes (drop n bin)
drop-AllBytes zero bin h = h
drop-AllBytes (suc n) [] h = tt
drop-AllBytes (suc n) (x ∷ xs) h = drop-AllBytes n xs h.1

encode_one :
    (bin : Text)
    → 0 < length bin
    → (res : ℕ) × (out : Text) × (encode digits_first 511 (take 16 bin) ≡ some (res, out))
      × (is_positive res ≡ true)
      × (take res out ≡ text digits_first (take 16 bin))
encode_one bin some_bytes =
    let few = length-take 16 bin in
    let res : ℕ = 4 * ((length (take 16 bin) + 2) / 3) in
    (
      res,
      text digits_first (take 16 bin) ++ (0 ∷ []),
      encode-text digits_first 511 (take 16 bin) (omega (arith, few)),
      ground (arith, few, some_bytes),
      take_front res (text digits_first (take 16 bin)) (0 ∷ [])
          (omega (arith, length-text (take 16 bin), groups-eq (take 16 bin))),
    )

encode_last :
    (fuel : ℕ) (bin : Text) {res : ℕ} {out : Text}
    → (length bin == 0) ≡ false
    → ltb (length bin) 16 ≡ true
    → encode digits_first 511 (take 16 bin) ≡ some (res, out)
    → is_positive res ≡ true
    → encode_file (suc fuel) bin ≡ some (take res out ++ (newline ∷ []))
unfolding encode_file
encode_last fuel bin more short e pos = rw more (rw (e, encode_file) (rw pos (rw short refl)))

encode_next :
    (fuel : ℕ) (bin : Text) {res : ℕ} {out rest : Text}
    → (length bin == 0) ≡ false
    → ltb (length bin) 16 ≡ false
    → encode digits_first 511 (take 16 bin) ≡ some (res, out)
    → is_positive res ≡ true
    → encode_file fuel (drop 16 bin) ≡ some rest
    → encode_file (suc fuel) bin ≡ some (take res out ++ (newline ∷ rest))
unfolding encode_file
encode_next fuel bin more long e pos f =
    rw more (rw (e, encode_file) (rw pos (rw long (rw (f, encode_file) refl))))

encode_file-eq :
    (fuel : ℕ) (bin : Text) → length bin < fuel → encode_file fuel bin ≡ some (encoded fuel bin)
encode_file-eq zero bin lt = absurd (omega (arith, lt))
encode_file-eq (suc fuel) bin lt = elim (Bool-cases (length bin == 0)) [
  | inl over ↦ unfold encode_file in rw over refl
  | inr more ↦
      let (res, out, e, pos, front) = encode_one bin (ground (arith, more)) in
      let left = length-drop 16 bin in
      elim (Bool-cases (ltb (length bin) 16)) [
        | inl short ↦
            encode_last fuel bin more short e pos
            ∙ rw more (
                ap₂ (λ t r. some (t ++ (newline ∷ r))) front
                  (sym (encoded_nil fuel (drop 16 bin) (ground (arith, left, short)))))
        | inr long ↦
            encode_next fuel bin more long e pos
              (encode_file-eq fuel (drop 16 bin) (ground (arith, left, long, lt)))
            ∙ rw more (ap (λ t. some (t ++ (newline ∷ encoded fuel (drop 16 bin)))) front)
      ]
]

first_odd : (bin : Text) → 0 < length bin → IsReadable bin → length (take 16 bin) % 3 ≢ 0
first_odd bin pos (inl e) z = absurd (omega (arith, length-take 16 bin, pos, e, z))
first_odd bin pos (inr odd) z = elim (Bool-cases (ltb (length bin) 16)) [
  | inl short ↦
      let lt : length bin < 16 = ground (arith, short) in
      odd (omega (arith, lt, length-take 16 bin, z))
  | inr long ↦
      let le : 16 ≤ length bin = ground (arith, long) in
      absurd (omega (arith, le, length-take 16 bin, z))
]

rest_padded : (bin : Text) → IsReadable bin → IsReadable (drop 16 bin)
rest_padded bin (inl e) = inl (omega (arith, length-drop 16 bin, e))
rest_padded bin (inr odd) = elim (Bool-cases (ltb (length bin) 16)) [
  | inl short ↦
      let lt : length bin < 16 = ground (arith, short) in
      inl (omega (arith, lt, length-drop 16 bin))
  | inr long ↦
      let le : 16 ≤ length bin = ground (arith, long) in
      inr (λ z. odd (omega (arith, le, length-drop 16 bin, z)))
]

decode_nil :
    (behind : Text → Text) (g : ℕ) (file : Text)
    → length file ≡ 0
    → decode_file behind (suc g) file ≡ some []
unfolding decode_file
decode_nil behind g file e = ground (arith, e)

decode_next :
    (behind : Text → Text) (g : ℕ) (file line left : Text) {res : ℕ} {out rest : Text}
    → getline file ≡ (line, left, false)
    → (length file == 0) ≡ false
    → decode digits_first 512 (length line) (line ++ (0 ∷ behind line)) ≡ some (res, out)
    → is_positive res ≡ true
    → decode_file behind g left ≡ some rest
    → decode_file behind (suc g) file ≡ some (take res out ++ rest)
unfolding decode_file
decode_next behind g file line left e more d pos f =
    rw (e, decode_file) (rw more (rw (d, decode_file) (rw pos (rw (f, decode_file) refl))))

getline_line :
    (line rest : Text)
    → Lacks newline line
    → getline (line ++ (newline ∷ rest)) ≡ (line ++ (newline ∷ []), rest, false)
unfolding getline
getline_line line rest h = rw (split_at_found newline line rest h, getline) refl

positive_length : (n : ℕ) → 0 < n → n ≤ 16 → is_positive n ≡ true
positive_length n pos few = ground (arith, pos, few)

-- A line of a file, before the others.
decode_first :
    (behind : Text → Text) (g : ℕ) (bin file rest : Text)
    → length bin % 3 ≢ 0
    → length bin ≤ 16
    → AllBytes bin
    → decode_file behind g file ≡ some rest
    → decode_file behind (suc g) (text digits_first bin ++ (newline ∷ file)) ≡ some (bin ++ rest)
decode_first behind g bin file rest odd few h e =
    let line : Text = text digits_first bin in
    let whole = decode_line_padded (0 ∷ behind (line ++ (newline ∷ []))) bin odd few h in
    decode_next behind g (line ++ (newline ∷ file)) (line ++ (newline ∷ [])) file
      (getline_line line file (text-Lacks bin h))
      (ground (arith, length-append line (newline ∷ file))) whole
      (positive_length (length bin) (omega (arith, odd)) few) e
    ∙ ap (λ t. some (t ++ rest)) (take_whole (length bin) bin (omega arith))

encoded_cons :
    (fuel : ℕ) (bin : Text)
    → (length bin == 0) ≡ false
    → encoded (suc fuel) bin
      ≡ text digits_first (take 16 bin) ++ (newline ∷ encoded fuel (drop 16 bin))
encoded_cons fuel bin more = rw more refl

decode_file-eq :
    (behind : Text → Text) (fuel g : ℕ) (bin : Text)
    → length bin < fuel
    → length bin < g
    → IsReadable bin
    → AllBytes bin
    → decode_file behind g (encoded fuel bin) ≡ some bin
decode_file-eq behind zero g bin lt lt' padded h = absurd (omega (arith, lt))
decode_file-eq behind (suc fuel) zero bin lt lt' padded h = absurd (omega (arith, lt'))
decode_file-eq behind (suc fuel) (suc g) bin lt lt' padded h = elim (Bool-cases (length bin == 0)) [
  | inl over ↦
      let z : length bin ≡ 0 = ground (arith, over) in
      ap (decode_file behind (suc g)) (encoded_nil (suc fuel) bin z)
      ∙ decode_nil behind g [] refl
      ∙ ap some (sym (nil_of bin z))
  | inr more ↦
      let left = length-drop 16 bin in
      let pos : 0 < length bin = ground (arith, more) in
      let rest =
        decode_file-eq behind fuel g (drop 16 bin) (omega (arith, left, pos, lt))
          (omega (arith, left, pos, lt')) (rest_padded bin padded) (drop-AllBytes 16 bin h) in
      ap (decode_file behind (suc g)) (encoded_cons fuel bin more)
      ∙ decode_first behind g (take 16 bin) (encoded fuel (drop 16 bin)) (drop 16 bin)
          (first_odd bin pos padded) (omega (arith, length-take 16 bin)) (take-AllBytes 16 bin h)
          rest
      ∙ ap some (take-append-drop 16 bin)
]

-- A file of bytes whose last line of 16 is whole, or is of a length that is no multiple of 3, comes
-- back from the loop that encodes and the loop that decodes, for any fuel above the number of its
-- bytes, whatever stands in memory behind the lines.
pub decode_file-encode_file :
    (behind : Text → Text) (fuel g : ℕ) (bin : Text)
    → length bin < fuel
    → length bin < g
    → IsReadable bin
    → AllBytes bin
    → (file : Text) × (encode_file fuel bin ≡ some file) × (decode_file behind g file ≡ some bin)
decode_file-encode_file behind fuel g bin lt lt' padded h =
    (encoded fuel bin, encode_file-eq fuel bin lt, decode_file-eq behind fuel g bin lt lt' padded h)
