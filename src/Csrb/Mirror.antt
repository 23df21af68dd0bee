-- ===== src/Csrb/Mirror.antt =====
-- What the second half of the storage holds.
use pc_env_vu.Base.{ℕ, ◌+◌, ◌≤◌, ◌<◌, ◌≡◌, some, List, arith, length}
use pc_env_vu.Csrb.{Ring}
use pc_env_vu.Csrb.Inv.{IsValid, moved}
use pc_env_vu.Csrb.Client.{put}
use pc_env_vu.Csrb.Refine.{after, put-eq}

-- Bytes written from the start of the ring, short of its end, are mirrored.
pub mirror_from_start :
    {r : Ring} (xs : List ℕ) (k : ℕ)
    → IsValid r
    → length xs ≤ r.empty
    → r.wi ≡ 0
    → length xs < r.capacity
    → k < length xs
    → (r' : Ring) × (put r xs ≡ some r') × (r'.buf.byte (r.capacity + k) ≡ r'.buf.byte k)
mirror_from_start {r} xs k v fits start short lt =
    (after xs v fits, put-eq xs v fits, unfold moved in ground arith)

-- Bytes written further on than their number are not: such a write leaves the whole second half of
-- the storage as it was, so a read that runs over the end gets the bytes of an older round.
pub mirror_stale :
    {r : Ring} (xs : List ℕ) (j : ℕ)
    → IsValid r
    → length xs ≤ r.empty
    → length xs ≤ r.wi
    → r.wi + length xs < r.capacity
    → r.capacity ≤ j
    → (r' : Ring) × (put r xs ≡ some r') × (r'.buf.byte j ≡ r.buf.byte j)
mirror_stale {r} xs j v fits far short high =
    (after xs v fits, put-eq xs v fits, unfold moved in ground arith)
