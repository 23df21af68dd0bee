-- ===== src/Ccsrb/ShortWrite.antt =====
-- A writer that reports fewer bytes than it asked room for.
use pc_env_vu.Base.{ℕ, ◌+◌, ◌-◌, ◌≤◌, ◌<◌, ◌^◌, ◌≡◌, none, some, arith, Block, memcpy}
use pc_env_vu.Ccsrb.{Ccsrb, write_query, write_sync}
use pc_env_vu.Ccsrb.Inv.{IsValid}

-- If the room asked for runs over the end of the ring, and the bytes reported do not reach the end,
-- then `ccsrb_write_sync` copies outside its blocks: the length of its second `memcpy` wraps.
pub short_write_faults :
    {c : Ccsrb} (b : Block) (n m : ℕ)
    → IsValid c
    → c.mm.size < 2 ^ 63
    → n ≤ c.empty
    → c.c_bytes ≤ c.wi + n
    → m < c.c_bytes - c.wi
    → write_sync (write_query c (some b) n).1 m ≡ none
unfolding write_query write_sync memcpy
short_write_faults b n m v mem room over short = ground arith
