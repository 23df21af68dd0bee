-- ===== src/Autom.antt =====
-- autom.c: a byte buffer that grows as it is written.
pub mod Content
pub mod Writes
pub mod Reread
pub mod Shrunk
mod Tests
use pc_env_vu.Base.{
  ℕ, zero, suc, ◌+◌, Bool, true, false, ◌&&◌, Option, none, some, List, length, ltb, leb,
  if◌then◌else◌, ◌>>=◌, add_size, sub_size, Block, poke, fill,
}

-- `autom_t`. `none` for `head` is NULL. `tail` is an offset from `head`, and `none` where the block that
-- it points into is gone.
pub record Autom : Type 0 where
  pub pre_bytes : ℕ
  pub cur_bytes : ℕ
  pub head : Option Block
  pub tail : Option ℕ
  pub is_malloc : Bool

-- The flags say whether the two calls of `calloc` succeed.
pub create : (struct_ok head_ok : Bool) → (head : Option Block) → (pre_bytes : ℕ) → Option Autom
create false head_ok head n = none
create true head_ok (some b) n =
    some (record { pre_bytes = n; cur_bytes = n; head = some b; tail = some n; is_malloc = false })
create true true none n = some (record {
  pre_bytes = n;
  cur_bytes = 0;
  head = some (record { size = n; byte = λ i. 0 });
  tail = some 0;
  is_malloc = true;
})
create true false none n = none

-- The part of `autom_write` behind the growth. The outer `none` is an access outside the block.
unfoldable pub store : Autom → (need : ℕ) → List ℕ → Option (Option ℕ × Autom)
store a need buf = a.head >>= λ b. fill b a.cur_bytes buf >>= λ b'.
    poke b' (sub_size need 1) 0 >>= λ b''. some (
      some (length buf),
      record a {
        head = some b'';
        cur_bytes = add_size a.cur_bytes (length buf);
        tail = some (add_size a.cur_bytes (length buf));
      },
    )

-- `realloc`, which moves the block: it takes NULL too, and gives NULL where it fails.
module _ (realloc : Option Block → ℕ → Option Block) where
  -- The inner `none` is the -1 that is returned.
  unfoldable pub write : Autom → List ℕ → Option (Option ℕ × Autom)
  unfolding store
  write a buf =
      let need = add_size (add_size a.cur_bytes (length buf)) 1 in
      if ltb a.pre_bytes need
      then elim (realloc a.head need) [
        | none ↦ some (none, record a { pre_bytes = need; head = none; tail = none })
        | some b ↦ store (record a { pre_bytes = need; head = some b; tail = none }) need buf
      ]
      else store a need buf

  -- The result says whether 0 is returned. The outer `none` is a difference with a pointer into a
  -- block that is gone.
  unfoldable pub breset : Autom → ℕ → Option (Bool × Autom)
  breset a bytes = a.tail >>= λ t.
      if ltb bytes a.pre_bytes
      then elim (realloc a.head bytes) [
        | none ↦ some (false, record a { cur_bytes = t; head = none; tail = none })
        | some b ↦ some (true, record a { cur_bytes = t; head = some b; tail = none })
      ]
      else some (true, record a { cur_bytes = t })

-- The offset of the pointer that is returned, `none` for NULL.
unfoldable pub read : Autom → ℕ → Option (Option ℕ × Autom)
read a bytes =
    if ltb a.cur_bytes bytes
    then some (none, a)
    else (a.tail >>= λ t.
        some (some (sub_size t a.cur_bytes), record a { cur_bytes = sub_size a.cur_bytes bytes }))

unfoldable pub reset : Autom → Option Autom
reset a = a.tail >>= λ t. some (record a { cur_bytes = t })

unfoldable pub clear : Autom → Option Autom
clear a = a.head >>= λ b.
    if leb a.cur_bytes b.size
    then some (record a {
      head = some (record b { byte = λ i. if ltb i a.cur_bytes then 0 else b.byte i });
      cur_bytes = 0;
      tail = some 0;
    })
    else none

-- Whether `autom_destroy` frees the block along with the handle.
pub destroy : Autom → Bool
destroy a = a.is_malloc && elim (a.head) [ none ↦ false | some b ↦ true ]
