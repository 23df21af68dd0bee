-- ===== src/Base64/Files.antt =====
-- The loops of fileBase64 (package/app/fileBase64/src/main.c): a file is encoded in lines of 16 bytes
-- each, and decoded line by line. Files are the bytes that are left to read, and those written, all of
-- which `fwrite` takes.
use pc_env_vu.Base.{
  ℕ, zero, suc, ◌^◌, Option, none, some, [], ◌∷◌, ◌++◌, Bool, true, false, ◌&&◌, ◌==◌, ltb,
  if◌then◌else◌, ◌>>=◌, length, take, drop, split_at, Text,
}
use pc_env_vu.Base64.{digits_first, encode, decode}

abbrev pub newline : ℕ
newline = 10

abbrev pub max_user_buf_bytes : ℕ
max_user_buf_bytes = 512

abbrev pub user_buf_bytes_one : ℕ
user_buf_bytes_one = 16

-- `res > 0`, of a `size_t` kept as `ssize_t`.
abbrev pub is_positive : ℕ → Bool
is_positive res = ltb 0 res && ltb res (2 ^ 63)

-- The loop that encodes. `none` is a fault of the coder, or the end of the fuel. A read of fewer bytes
-- than asked for has met the end of the file.
unfoldable pub encode_file : (fuel : ℕ) → Text → Option Text
encode_file zero bin = none
encode_file (suc fuel) bin =
    let rest = encode_file fuel (drop user_buf_bytes_one bin) in
    if length bin == 0
    then some []
    else encode digits_first 511 (take user_buf_bytes_one bin) >>= λ (res, out).
        if is_positive res
        then (if ltb (length bin) user_buf_bytes_one
            then some (take res out ++ (newline ∷ []))
            else (rest >>= λ more. some (take res out ++ (newline ∷ more))))
        else some []

-- `getline`: a line with its newline, what is behind it, and whether the end of the file was met.
unfoldable pub getline : Text → Text × Text × Bool
getline file = elim (split_at newline file) [
  | none ↦ (file, [], true)
  | some (line, rest) ↦ (line ++ (newline ∷ []), rest, false)
]

-- What stands in memory behind the end mark of a line.
module _ (behind : Text → Text) where
  unfoldable pub decode_file : (fuel : ℕ) → Text → Option Text
  unfolding getline
  decode_file zero file = none
  decode_file (suc fuel) file =
      let (line, left, at_end) = getline file in
      let rest = decode_file fuel left in
      if length file == 0
      then some []
      else decode digits_first max_user_buf_bytes (length line) (line ++ (0 ∷ behind line))
        >>= λ (res, out).
            if is_positive res
            then (if at_end
                then some (take res out)
                else (rest >>= λ more. some (take res out ++ more)))
            else some []
