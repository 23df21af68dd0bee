-- ===== src/Csrb.antt =====
-- csrb.c: a ring buffer whose storage is doubled, so that a unit that runs over the end of the
-- ring is contiguous in the second half. The functions run under the handle's mutex, one at a time.
pub mod Inv
pub mod Client
pub mod Refine
pub mod Mirror
pub mod Aligned
mod Tests
use pc_env_vu.Base.{
  ℕ, ◌+◌, ◌-◌, ◌*◌, Bool, true, false, not, Option, none, some, ltb, if◌then◌else◌, ◌>>=◌, add_size,
  sub_size, Block, copy_bytes,
}

-- The counters of `csrb_t`, and the memory that starts at `head`.
pub record Ring : Type 0 where
  pub ri : ℕ
  pub wi : ℕ
  pub contex : ℕ
  pub empty : ℕ
  pub capacity : ℕ
  pub buf : Block

-- `csrb_t`: `alloc` is set when the caller supplied the buffer.
pub record Handle : Type 0 where
  pub ring : Ring
  pub alloc : Bool

abbrev pub zeroed : ℕ → Block
zeroed n = record { size = n; byte = λ i. 0 }

abbrev pub fresh : Block → ℕ → Ring
fresh buf size = record { ri = 0; wi = 0; contex = 0; empty = size; capacity = size; buf = buf }

-- The flags say whether the two calls of `calloc` succeed; `none` is the NULL that is returned.
pub create : (struct_ok buf_ok : Bool) → Option Block → ℕ → Option Handle
create false buf_ok head size = none
create true buf_ok (some b) size = some (record { ring = fresh b size; alloc = true })
create true true none size = some (record { ring = fresh (zeroed (2 * size)) size; alloc = false })
create true false none size = none

-- Whether `csrb_destroy` frees the buffer along with the handle.
pub destroy : Handle → Bool
destroy h = not h.alloc

-- The offset from `head` of the pointer that is returned, `none` for NULL.
unfoldable pub write_query : Ring → ℕ → Option ℕ
write_query r size = if ltb r.empty size then none else some r.wi

unfoldable pub read_query : Ring → ℕ → Option ℕ
read_query r size = if ltb r.contex size then none else some r.ri

-- The data movement of `csrb_write_sync`, with the new write index. The loop index is an `int`,
-- which `wi` fits below 2 ^ 31.
unfoldable pub shift : Ring → ℕ → Option Ring
shift r size =
    let room = sub_size r.capacity r.wi in
    let over = sub_size size room in
    if ltb (add_size r.wi size) r.capacity
    then (copy_bytes (size - r.wi) r.wi (r.capacity + r.wi) r.buf >>= λ b.
        some (record r { buf = b; wi = add_size r.wi size }))
    else (copy_bytes (room - r.wi) r.wi (r.capacity + r.wi) r.buf >>= λ b.
        copy_bytes over r.capacity 0 b >>= λ b'. some (record r { buf = b'; wi = over }))

-- The counters of `csrb_write_sync`.
unfoldable pub commit_write : Ring → ℕ → Ring
commit_write r size = record r { empty = sub_size r.empty size; contex = add_size r.contex size }

unfoldable pub write_sync : Ring → ℕ → Option Ring
write_sync r size = shift r size >>= λ r'. some (commit_write r' size)

-- The read index of `csrb_read_sync`.
unfoldable pub advance : Ring → ℕ → Ring
advance r size =
    if ltb (add_size r.ri size) r.capacity
    then record r { ri = add_size r.ri size }
    else record r { ri = sub_size size (sub_size r.capacity r.ri) }

unfoldable pub commit_read : Ring → ℕ → Ring
commit_read r size = record r { contex = sub_size r.contex size; empty = add_size r.empty size }

unfoldable pub read_sync : Ring → ℕ → Ring
read_sync r size = commit_read (advance r size) size

unfoldable pub clear : Ring → Ring
clear r = record r { wi = 0; ri = 0; contex = 0; empty = r.capacity }
