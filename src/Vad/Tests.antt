-- ===== src/Vad/Tests.antt =====
-- Runs of the detector on chunks of ten units of one sample, and the theorems at them.
use pc_env_vu.Base.{◌≡◌, refl, true, false, some, [], ◌∷◌, arith, Block, peek}
use pc_env_vu.Vad.{
  idel, started, speaking, finished, Args, square_at, unit_sums, chunk_unit_compare, over_times,
  is_chunk_speaking, get_vad_status,
}
use pc_env_vu.Vad.Bounds.{IsValid, Next, get_vad_status_forward}
use pc_env_vu.Vad.Counting.{feed, Judged, Counted, feed_starts, feed_finishes, count_broken}

abbrev loud : Block
loud = record { size = 20; byte = λ i. 200 }

abbrev silent : Block
silent = record { size = 20; byte = λ i. 0 }

abbrev args : Args
args = record {
  sample = loud;
  bytes = 20;
  saved_status = idel;
  confirm_count = 0;
  vad_threshold = 100;
  started_confirm_count = 2;
  finished_confirm_count = 2;
  unit_bytes = 2;
}

abbrev talking : Args
talking = record args { saved_status = speaking; confirm_count = 1 }

args-IsValid : IsValid args
args-IsValid = omega arith

loud-Judged : Judged true args (loud ∷ loud ∷ [])
unfolding is_chunk_speaking over_times chunk_unit_compare unit_sums square_at peek
loud-Judged = (refl, (refl, tt))

silent-Judged : Judged false talking (silent ∷ [])
unfolding is_chunk_speaking over_times chunk_unit_compare unit_sums square_at peek
silent-Judged = (refl, tt)

get_vad_status_forward_example :
    (a' : Args) × (get_vad_status args ≡ some a') × Next idel a'.saved_status
get_vad_status_forward_example = get_vad_status_forward args args-IsValid

feed_starts_example :
    (a' : Args) × (feed args (loud ∷ loud ∷ []) ≡ some a') × Counted idel started 2 2 a'
feed_starts_example =
    feed_starts args (loud ∷ loud ∷ []) refl refl (omega arith) (omega arith) (omega arith)
      loud-Judged

feed_finishes_run :
    (a' : Args) × (feed talking (silent ∷ []) ≡ some a') × Counted speaking finished 2 2 a'
feed_finishes_run =
    feed_finishes talking (silent ∷ []) refl (omega arith) (omega arith) (omega arith) silent-Judged

count_broken_run : get_vad_status talking ≡ some (record talking { confirm_count = 0 })
unfolding is_chunk_speaking over_times chunk_unit_compare unit_sums square_at peek
count_broken_run = count_broken talking true refl refl
