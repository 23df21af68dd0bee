-- ===== src/Autom/Reread.antt =====
-- A write behind a read that left bytes.
use pc_env_vu.Base.{
  ℕ, zero, suc, ◌+◌, ◌-◌, ◌≤◌, ◌<◌, ◌^◌, ◌≡◌, refl, ap, ◌∙◌, Option, some, List, ◌∷◌, ◌++◌, arith,
  length, take, length-take, Block, slice,
}
use pc_env_vu.Autom.{Autom, write, read}
use pc_env_vu.Autom.Content.{Holds, Written, Reallocates, write-Written}

take-slice : (f : ℕ → ℕ) (i n m : ℕ) → n ≤ m → slice f i n ≡ take n (slice f i m)
take-slice f i zero m lt = refl
take-slice f i (suc n) zero lt = absurd (omega (arith, lt))
take-slice f i (suc n) (suc m) lt = ap (λ r. f i ∷ r) (take-slice f (i + 1) n m (omega (arith, lt)))

-- A buffer that holds `xs` after a write gives a pointer to the first of them to a reader of `n`
-- bytes, and counts as if it held the others, but these are the last, and it holds the first.
read-Holds :
    {a : Autom} {xs : List ℕ} (n : ℕ)
    → Written xs a
    → n ≤ length xs
    → length xs < 2 ^ 63
    → (read a n ≡ some (some 0, record a { cur_bytes = length xs - n }))
      × Holds (record a { cur_bytes = length xs - n }) (take (length xs - n) xs)
unfolding read
read-Holds {a} {xs} n w few small = (
  ground arith,
  record {
    block = w.holds.block;
    at_head = w.holds.at_head;
    counted = omega (arith, length-take (length xs - n) xs);
    fits = omega (arith, w.holds.counted, w.holds.fits);
    room = w.holds.room;
    content =
        ap {A = ℕ} (slice w.holds.block.byte 0) (omega (arith, length-take (length xs - n) xs))
        ∙ take-slice w.holds.block.byte 0 (length xs - n) (length xs) (omega arith)
        ∙ ap (take (length xs - n)) w.holds.content;
  },
)

-- A write behind a read of `n` of the bytes `xs` loses the last `n` of them, and not those that were
-- read: `autom_write` writes behind `cur_bytes` bytes from the start.
pub write_behind_read :
    (realloc : Option Block → ℕ → Option Block) {a : Autom} {xs : List ℕ} (n : ℕ) (ys : List ℕ)
    → Reallocates realloc
    → Written xs a
    → n ≤ length xs
    → length xs + length ys + 1 < 2 ^ 63
    → (a1 : Autom) × (a2 : Autom) × (read a n ≡ some (some 0, a1))
      × (write realloc a1 ys ≡ some (some (length ys), a2))
      × Written (take (length xs - n) xs ++ ys) a2
write_behind_read realloc {a} {xs} n ys grows w few small =
    let (e1, h1) = read-Holds n w few (omega arith) in
    let (a2, e2, w2) =
      write-Written realloc ys grows h1 (omega (arith, length-take (length xs - n) xs)) in
    (record a { cur_bytes = length xs - n }, a2, e1, e2, w2)
