-- ===== src/Shrb.antt =====
-- shrb.c: the ring of csrb.c in shared memory. Its indices and bytes are moved without the lock,
-- and only the two counters change under it.
pub mod Sides
pub mod Exclusion
mod Tests
use pc_env_vu.Base.{ℕ, add_size, mul_size, Bool, true, false, Option, none, some, ◌>>=◌}
use pc_env_vu.Csrb
use pc_env_vu.Csrb.{Ring}

-- `shrb_t`. `name` stands for the pointer to the object's name.
pub record Shrb : Type 0 where
  pub name : ℕ
  pub bytes : ℕ
  pub ring : Ring

-- What `mmap` returns: NULL, MAP_FAILED, or an address at which the object's memory stands.
pub data Mapping : Type 0 where
  null map_failed : Mapping
  mapped : Shrb → Mapping

-- What a call returns and leaves behind: whether it closed the descriptor, whether it unlinked the
-- object. `fault` is an access through MAP_FAILED.
pub data Result : Type 0 where
  shared : Shrb → Result
  refused : (closed unlinked : Bool) → Result
  fault : Result

-- `create`, from the results of `shm_open`, `ftruncate` and `mmap`. The counter `contex` keeps
-- what the memory held, which is 0 in a new object. `header` is `sizeof(shrb_t)`.
pub create : (header : ℕ) → (opened truncated : Bool) → Mapping → ℕ → ℕ → Result
create header false truncated map name size = refused false false
create header true false map name size = refused true true
create header true true null name size = refused true true
create header true true map_failed name size = fault
create header true true (mapped s) name size = shared (record {
  name = name;
  bytes = add_size header (mul_size size 2);
  ring = record s.ring { wi = 0; ri = 0; empty = size; capacity = size };
})

-- `shrb_get` opens an object, or creates one where that fails. It writes nothing to an object that
-- it finds, so MAP_FAILED is returned as a handle, `none` here.
pub get : (header : ℕ) → (found : Bool) → Mapping → (created : Result) → Option Result
get header false map created = some created
get header true null created = some (refused true true)
get header true map_failed created = none
get header true (mapped s) created = some (shared s)

unfoldable pub write_query : Shrb → ℕ → Option ℕ
unfolding Csrb.write_query
write_query s size = Csrb.write_query s.ring size

unfoldable pub read_query : Shrb → ℕ → Option ℕ
unfolding Csrb.read_query
read_query s size = Csrb.read_query s.ring size

-- The part of `shrb_write_sync` before the lock, and the part under it.
unfoldable pub shift : Shrb → ℕ → Option Shrb
shift s size = Csrb.shift s.ring size >>= λ r. some (record s { ring = r })

unfoldable pub commit_write : Shrb → ℕ → Shrb
commit_write s size = record s { ring = Csrb.commit_write s.ring size }

unfoldable pub write_sync : Shrb → ℕ → Option Shrb
unfolding shift commit_write
write_sync s size = shift s size >>= λ s'. some (commit_write s' size)

-- The part of `shrb_read_sync` before the lock, and the part under it.
unfoldable pub advance : Shrb → ℕ → Shrb
advance s size = record s { ring = Csrb.advance s.ring size }

unfoldable pub commit_read : Shrb → ℕ → Shrb
commit_read s size = record s { ring = Csrb.commit_read s.ring size }

unfoldable pub read_sync : Shrb → ℕ → Shrb
unfolding advance commit_read
read_sync s size = commit_read (advance s size) size

pub clear : Shrb → Shrb
unfolding Csrb.clear
clear s = record s { ring = Csrb.clear s.ring }
