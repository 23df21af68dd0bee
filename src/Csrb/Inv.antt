-- ===== src/Csrb/Inv.antt =====
-- The invariant of `csrb_t`, kept by every call that its query allows.
use pc_env_vu.Base.{
  ℕ, ◌+◌, ◌-◌, ◌≤◌, ◌<◌, ◌^◌, ◌≡◌, ◌⊎◌, ◌↔◌, Bool, true, false, Option, none, some, arith, Block,
  spliced, copy_bytes_lem, ltb, if◌then◌else◌,
}
use pc_env_vu.Window.{wrap}
use pc_env_vu.Csrb.{
  Ring, Handle, create, destroy, shift, commit_write, write_sync, advance, commit_read, read_sync,
  clear,
}

-- The indices lie in the ring, the storage is doubled, and the counters make up the capacity.
pub record IsShaped (r : Ring) : Type 0 where
  pub small : r.capacity < 2 ^ 31
  pub storage : r.capacity + r.capacity ≤ r.buf.size
  pub ri_in : r.ri < r.capacity
  pub wi_in : r.wi < r.capacity
  pub counted : r.contex + r.empty ≡ r.capacity

-- Besides, the write index is where the stored bytes end.
pub record IsValid (r : Ring) : Type 0 where
  pub small : r.capacity < 2 ^ 31
  pub storage : r.capacity + r.capacity ≤ r.buf.size
  pub ri_in : r.ri < r.capacity
  pub wi_in : r.wi < r.capacity
  pub counted : r.contex + r.empty ≡ r.capacity
  pub linked : (r.ri + r.contex ≡ r.wi) ⊎ (r.ri + r.contex ≡ r.wi + r.capacity)

pub shape : {r : Ring} → IsValid r → IsShaped r
shape v = omega arith

-- The buffer after `csrb_write_sync`: bytes carried into the mirror, or from it.
unfoldable pub moved : Ring → ℕ → ℕ → ℕ
moved r size =
    let cap = r.capacity in
    let copied = spliced r.buf.byte (cap + r.wi) r.buf.byte r.wi (cap - r.wi - r.wi) in
    if ltb (r.wi + size) cap
    then spliced r.buf.byte (cap + r.wi) r.buf.byte r.wi (size - r.wi)
    else spliced copied 0 copied cap (size - (cap - r.wi))

-- `csrb_write_sync` stays inside the buffer.
pub shift-some :
    {r : Ring} (size : ℕ)
    → IsShaped r
    → size ≤ r.empty
    → shift r size
      ≡ some (record r {
        buf = record { size = r.buf.size; byte = moved r size };
        wi = wrap r.capacity (r.wi + size);
      })
unfolding shift moved
shift-some {r} size v fits = ground (
  arith,
  copy_bytes_lem (size - r.wi) r.wi (r.capacity + r.wi) r.buf,
  copy_bytes_lem (r.capacity - r.wi - r.wi) r.wi (r.capacity + r.wi) r.buf,
  copy_bytes_lem (size - (r.capacity - r.wi)) r.capacity 0 (record {
    size = r.buf.size;
    byte = spliced r.buf.byte (r.capacity + r.wi) r.buf.byte r.wi (r.capacity - r.wi - r.wi);
  }),
)

-- The handle after `csrb_write_sync`.
abbrev pub written : Ring → ℕ → Ring
written r size = record r {
  buf = record { size = r.buf.size; byte = moved r size };
  wi = wrap r.capacity (r.wi + size);
  empty = r.empty - size;
  contex = r.contex + size;
}

pub write_sync-some :
    {r : Ring} (size : ℕ) → IsValid r → size ≤ r.empty → write_sync r size ≡ some (written r size)
unfolding write_sync commit_write
write_sync-some {r} size v fits = rw (shift-some size (shape v) fits) (ground arith)

-- The handle after `csrb_read_sync`.
abbrev pub consumed : Ring → ℕ → Ring
consumed r size = record r {
  ri = wrap r.capacity (r.ri + size);
  contex = r.contex - size;
  empty = r.empty + size;
}

pub read_sync-eq :
    {r : Ring} (size : ℕ) → IsValid r → size ≤ r.contex → read_sync r size ≡ consumed r size
unfolding read_sync advance commit_read
read_sync-eq {r} size v fits = ground arith

pub written-IsValid : {r : Ring} (size : ℕ) → IsValid r → size ≤ r.empty → IsValid (written r size)
written-IsValid {r} size v fits = ground arith

pub consumed-IsValid :
    {r : Ring} (size : ℕ) → IsValid r → size ≤ r.contex → IsValid (consumed r size)
consumed-IsValid {r} size v fits = ground arith

-- What `csrb_create` returns for a positive size below 2 ^ 31 is valid and empty, if a buffer of
-- the caller's has twice that size; and `csrb_destroy` frees the buffer exactly when the caller
-- supplied none.
pub create-IsValid :
    (head : Option Block) (size : ℕ) (struct_ok buf_ok : Bool) {h : Handle}
    → 0 < size
    → size < 2 ^ 31
    → ((b : Block) → head ≡ some b → size + size ≤ b.size)
    → create struct_ok buf_ok head size ≡ some h
    → IsValid h.ring
      × (h.ring.contex ≡ 0)
      × (h.ring.capacity ≡ size)
      × ((destroy h ≡ true) ↔ (head ≡ none))
unfolding create destroy
create-IsValid (some b) size true buf_ok pos small own e = ground (arith, own b)
create-IsValid none size true true pos small own e = ground arith
create-IsValid none size true false pos small own e = ground arith
create-IsValid head size false buf_ok pos small own e = ground arith

-- `csrb_clear` keeps the invariant and empties the ring.
pub clear-IsValid : {r : Ring} → IsValid r → IsValid (clear r) × ((clear r).contex ≡ 0)
unfolding clear
clear-IsValid v = ground arith
