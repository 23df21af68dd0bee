-- ===== src/Ccsrb.antt =====
-- ccsrb.c: a ring buffer that serves a unit which runs over the end from a block of its own. The
-- functions run under the handle's mutex, one at a time.
pub mod Client
pub mod Inv
pub mod Refine
pub mod ShortWrite
mod Tests
use pc_env_vu.Base.{
  ℕ, ◌+◌, Option, none, some, Bool, true, false, ltb, leb, if◌then◌else◌, ◌>>=◌, add_size, sub_size,
  Block, memcpy,
}

-- `ccsrb_t`: `mm` is the main memory, `rcm` and `wcm` are the side blocks of the reader and the
-- writer, `none` for NULL.
pub record Ccsrb : Type 0 where
  pub ri : ℕ
  pub contex : ℕ
  pub rcm : Option Block
  pub wi : ℕ
  pub empty : ℕ
  pub wcm : Option Block
  pub c_bytes : ℕ
  pub mm : Block

-- Where a pointer that a query returns points.
pub data Place : Type 0 where
  main : ℕ → Place
  side : Place

-- The flag says whether both allocations succeed; `mm` is what `malloc` returns.
pub create : (allocated : Bool) → (ℕ → ℕ) → ℕ → Option Ccsrb
create false junk size = none
create true junk size = some (record {
  ri = 0;
  contex = 0;
  rcm = none;
  wi = 0;
  empty = size;
  wcm = none;
  c_bytes = size;
  mm = record { size = size; byte = junk };
})

-- A NULL that a query returns is `none` in the pair. `fresh` is what `malloc` returns there.
unfoldable pub write_query : Ccsrb → Option Block → ℕ → Option Place × Ccsrb
write_query c fresh size =
    if leb size c.empty
    then (if ltb (add_size c.wi size) c.c_bytes then (some (main c.wi), c) else elim fresh [
      | none ↦ (none, record c { wcm = none })
      | some b ↦ (some side, record c { wcm = some b })
    ])
    else (none, c)

-- `none` is a `memcpy` outside its blocks.
unfoldable pub write_sync : Ccsrb → ℕ → Option Ccsrb
write_sync c size =
    let room = sub_size c.c_bytes c.wi in
    let over = sub_size size room in
    let counted =
      λ (d : Ccsrb). record d { empty = sub_size c.empty size; contex = add_size c.contex size } in
    elim c.wcm [
      | none ↦ some (counted (record c { wi = add_size c.wi size }))
      | some w ↦ memcpy c.mm c.wi w 0 room >>= λ m. memcpy m 0 w room over >>= λ m'.
          some (counted (record c { mm = m'; wcm = none; wi = over }))
    ]

-- The outer `none` is an access outside a block, or through the NULL of a failed `calloc`.
unfoldable pub read_query : Ccsrb → (allocated : Bool) → ℕ → Option (Option Place × Ccsrb)
read_query c allocated size =
    let room = sub_size c.c_bytes c.ri in
    if leb size c.contex
    then (if ltb (add_size c.ri size) c.c_bytes
        then some (some (main c.ri), c)
        else if allocated
        then (memcpy (record { size = size; byte = λ i. 0 }) 0 c.mm c.ri room >>= λ b.
            memcpy b room c.mm 0 (sub_size size room) >>= λ b'.
            some (some side, record c { rcm = some b' }))
        else none)
    else some (none, c)

unfoldable pub read_sync : Ccsrb → ℕ → Ccsrb
read_sync c size =
    let counted =
      λ (d : Ccsrb). record d { contex = sub_size c.contex size; empty = add_size c.empty size } in
    elim c.rcm [
      | none ↦ counted (record c { ri = add_size c.ri size })
      | some b ↦ counted (record c { ri = sub_size size (sub_size c.c_bytes c.ri); rcm = none })
    ]

-- The side blocks stay as they are.
pub clear : Ccsrb → Ccsrb
clear c = record c { wi = 0; ri = 0; contex = 0; empty = c.c_bytes }
