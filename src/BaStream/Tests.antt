-- ===== src/BaStream/Tests.antt =====
-- The theorem at two frames, of which one is half read.
use pc_env_vu.Base.{◌≡◌, ◌⊎◌, some, [], ◌∷◌, ◌++◌, false, arith}
use pc_env_vu.BaStream.{FrameData, Reading, read_bufs}
use pc_env_vu.BaStream.Bytes.{pending, read_bufs-pending}

abbrev first_frame : FrameData
first_frame = record { bytes = 1 ∷ 2 ∷ 3 ∷ []; flags = 0 }

abbrev second_frame : FrameData
second_frame = record { bytes = 4 ∷ 5 ∷ []; flags = 0 }

-- 1 is read; 4 and 5 wait in the queue.
abbrev half_read : Reading
half_read = record {
  stream = record {
    befor = record { q = second_frame ∷ []; max_count = 8; is_wait_was_exited = false };
    after = record { q = []; max_count = 8; is_wait_was_exited = false };
  };
  frame = some first_frame;
  ri = 1;
  ctx = 2;
}

read_bufs-pending_example :
    ((read_bufs half_read (1 ∷ 8 ∷ 1 ∷ 4 ∷ 4 ∷ [])).0
        ++ pending (read_bufs half_read (1 ∷ 8 ∷ 1 ∷ 4 ∷ 4 ∷ [])).1
      ≡ 2 ∷ 3 ∷ 4 ∷ 5 ∷ [])
    × (((read_bufs half_read (1 ∷ 8 ∷ 1 ∷ 4 ∷ 4 ∷ [])).2 ≡ false)
        ⊎ (pending (read_bufs half_read (1 ∷ 8 ∷ 1 ∷ 4 ∷ 4 ∷ [])).1 ≡ []))
read_bufs-pending_example = read_bufs-pending (1 ∷ 8 ∷ 1 ∷ 4 ∷ 4 ∷ []) half_read (ground arith)
