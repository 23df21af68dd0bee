-- ===== src/AnyStream/Tests.antt =====
-- A stream of three slots.
use mathlib.Core.List.{map}
use pc_env_vu.Base.{◌≡◌, refl, List, [], ◌∷◌, arith, length, ltb, Text}
use pc_env_vu.AnyStream.{
  AnyStream, create, nulls, outside, clear, reads, cyc_writes, writes, clears, cyc_write, get_sync,
  write_next, next, call, calls,
}
use pc_env_vu.AnyStream.Bounds.{IsBounded, call-IsBounded}
use pc_env_vu.AnyStream.Silent.{AllSilent, clear_silent}
use pc_env_vu.AnyStream.Overrun.{goes_on, cyc_write_overruns}

abbrev three : AnyStream
three = record { vct = nulls 3; max = 3; ri = 2; wi = 1 }

abbrev three_frames : List Text
three_frames = (1 ∷ []) ∷ (2 ∷ []) ∷ (3 ∷ 4 ∷ []) ∷ []

created : create 3 2 1 ≡ three
unfolding create
created = refl

call-IsBounded_example : IsBounded three (call three (cyc_writes (5 ∷ [])))
call-IsBounded_example =
    call-IsBounded three (cyc_writes (5 ∷ []))
      (record { slots = refl; ri_bound = omega arith; wi_bound = omega arith })

clear_silent_example :
    AllSilent
      (calls (clear three) (cyc_writes (1 ∷ []) ∷ reads ∷ writes (2 ∷ []) ∷ reads ∷ clears ∷ [])).0
clear_silent_example =
    clear_silent three (cyc_writes (1 ∷ []) ∷ reads ∷ writes (2 ∷ []) ∷ reads ∷ clears ∷ [])

cyc_write_overruns_example :
    goes_on (calls (clear three) (map cyc_writes three_frames)).1 ≡ ltb (length three_frames) 3
cyc_write_overruns_example = cyc_write_overruns three three_frames (omega arith) refl

-- At the last slot the write goes one past it.
past_the_end : cyc_write (record three { ri = 2; wi = 2 }) (9 ∷ []) ≡ outside 3
unfolding cyc_write get_sync write_next next
past_the_end = refl
