-- ===== src/Autom/Shrunk.antt =====
-- A write behind a reset that shrank the block.
use pc_env_vu.Base.{
  ℕ, ◌+◌, ◌≤◌, ◌<◌, ◌^◌, ◌≡◌, refl, true, Option, some, none, List, arith, length, Block, poke,
  memcpy, fill, lt→ltb, le→ltb, ◌∙◌,
}
use pc_env_vu.Autom.{Autom, write, breset, store}
use pc_env_vu.Autom.Content.{Reallocates, write_stay}

store_past :
    (a : Autom) (b : Block) (ys : List ℕ)
    → a.head ≡ some b
    → b.size < 2 ^ 63
    → b.size < a.cur_bytes + length ys + 1
    → a.cur_bytes + length ys + 1 < 2 ^ 63
    → store a (a.cur_bytes + length ys + 1) ys ≡ none
unfolding store fill memcpy poke
store_past a b ys e small past fits = ground arith

-- `autom_breset` to fewer bytes than the buffer has leaves `pre_bytes` as it was. A write that
-- fits `pre_bytes` but not the smaller block goes past its end.
pub breset_overruns :
    (realloc : Option Block → ℕ → Option Block) (a : Autom) (t bytes : ℕ) (ys : List ℕ)
    → Reallocates realloc
    → a.tail ≡ some t
    → bytes < a.pre_bytes
    → a.pre_bytes < 2 ^ 63
    → t + length ys + 1 ≤ a.pre_bytes
    → bytes < t + length ys + 1
    → (a' : Autom) × (breset realloc a bytes ≡ some (true, a')) × (write realloc a' ys ≡ none)
unfolding breset
breset_overruns realloc a t bytes ys grows at less small fits past =
    let (b, r, g) = grows a.head bytes in
    let a' = record a { cur_bytes = t; head = some b; tail = none } in
    (
      a',
      rw at (rw (lt→ltb bytes a.pre_bytes less) (rw r refl)),
      write_stay realloc a' ys (omega arith) (le→ltb a.pre_bytes (t + length ys + 1) fits)
          ∙ store_past a' b ys refl (omega (arith, g.sized)) (omega (arith, g.sized)) (omega arith),
    )
