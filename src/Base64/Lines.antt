-- ===== src/Base64/Lines.antt =====
-- A line of a file: a padded text, with its newline.
use mathlib.Core.List.{append_assoc}
use pc_env_vu.Base.{
  ℕ, zero, suc, ◌+◌, ◌-◌, ◌*◌, ◌%◌, ◌≤◌, ◌<◌, ◌≡◌, refl, ap, ◌∙◌, ◌≢◌, some, [], ◌∷◌, ◌++◌, not,
  arith, length, length-append, ◌==◌, tabulate, tabulate-apply, Lacks, Text,
}
use pc_env_vu.Base64.{digits_first, pad, decode_from, decode}
use pc_env_vu.Base64.Encode.{groups, groups-eq, text}
use pc_env_vu.Base64.RoundTrip.{
  AllBytes, digits_first-IsAlphabet, decode_one, decode_two, decode_group, decode_enters, first-lt,
  second_high-lt, second-lt, third_high-lt, third-lt, fourth-lt,
}
use pc_env_vu.Base64.Files.{newline}

unbroken : (k : ℕ) → k < 64 → digits_first k ≢ newline
unfolding digits_first tabulate
unbroken k lt e =
    ground (arith, e, tabulate-apply (λ k. not (digits_first k == newline)) {count = 64} refl k lt)

unbroken_pad : pad ≢ newline
unbroken_pad e = absurd (omega (arith, e))

pub length-text : (bin : Text) → length (text digits_first bin) ≡ 4 * groups bin
length-text [] = refl
length-text (x ∷ []) = refl
length-text (x ∷ y ∷ []) = refl
length-text (x ∷ y ∷ z ∷ xs) = omega (arith, length-text xs)

pub text-Lacks : (bin : Text) → AllBytes bin → Lacks newline (text digits_first bin)
text-Lacks [] h = tt
text-Lacks (x ∷ []) (hx, h) =
    (unbroken _ (first-lt hx), (unbroken _ (second_high-lt hx), (unbroken_pad, (unbroken_pad, tt))))
text-Lacks (x ∷ y ∷ []) (hx, (hy, h)) = (
  unbroken _ (first-lt hx),
  (unbroken _ (second-lt hx hy), (unbroken _ (third_high-lt hy), (unbroken_pad, tt))),
)
text-Lacks (x ∷ y ∷ z ∷ xs) (hx, (hy, (hz, h))) = (
  unbroken _ (first-lt hx),
  (
    unbroken _ (second-lt hx hy),
    (unbroken _ (third-lt hy hz), (unbroken _ (fourth-lt hz), text-Lacks xs h)),
  ),
)

-- A text that ends in `=` is decoded whatever stands behind it, also where more is to be read.
decode_from-padded :
    (rest : Text) (size j left : ℕ) (bin : Text)
    → 4 * groups bin ≤ left
    → length bin % 3 ≢ 0
    → AllBytes bin
    → j + length bin ≤ size
    → decode_from digits_first size j left (text digits_first bin ++ rest)
      ≡ some (j + length bin, bin)
decode_from-padded rest size j left [] le odd h room = absurd (odd refl)
decode_from-padded rest size j zero (x ∷ []) le odd h room = absurd (omega (arith, le))
decode_from-padded rest size j (suc left) (x ∷ []) le odd h room =
    decode_one digits_first-IsAlphabet size j left x rest h.0 room
decode_from-padded rest size j zero (x ∷ y ∷ []) le odd h room = absurd (omega (arith, le))
decode_from-padded rest size j (suc left) (x ∷ y ∷ []) le odd h room =
    decode_two digits_first-IsAlphabet size j left x y rest h.0 h.1.0 room
decode_from-padded rest size j zero (x ∷ y ∷ z ∷ xs) le odd h room = absurd (omega (arith, le))
decode_from-padded rest size j (suc left) (x ∷ y ∷ z ∷ xs) le odd h room =
    decode_group digits_first-IsAlphabet size j left x y z (text digits_first xs ++ rest) h.0 h.1.0
      h.1.1.0 (omega (arith, room))
    ∙ ground (
      arith,
      decode_from-padded rest size (j + 3) (suc left - 4) xs (omega (arith, le))
          (λ e. odd (omega (arith, e))) h.1.1.1 (omega (arith, room)),
    )

-- A line of a padded text, with its newline.
pub decode_line_padded :
    (behind bin : Text)
    → length bin % 3 ≢ 0
    → length bin ≤ 16
    → AllBytes bin
    → decode digits_first 512
        (length (text digits_first bin ++ (newline ∷ [])))
        ((text digits_first bin ++ (newline ∷ [])) ++ behind)
      ≡ some (length bin, bin)
decode_line_padded behind bin odd few h =
    let len : length (text digits_first bin ++ (newline ∷ [])) ≡ 4 * groups bin + 1 =
      omega (arith, length-append (text digits_first bin) (newline ∷ []), length-text bin) in
    let count = groups-eq bin in
    decode_enters digits_first 512 _ _ (omega (arith, len, count, odd))
      (omega (arith, len, count, few))
    ∙ ap (decode_from digits_first 512 0 _)
        (append_assoc (text digits_first bin) (newline ∷ []) behind)
    ∙ decode_from-padded ((newline ∷ []) ++ behind) 512 0 _ bin (omega (arith, len)) odd h
        (omega (arith, few))
    ∙ ap (λ n. some (n, bin)) {x = 0 + length bin} {y = length bin} (omega arith)
