-- ===== src/Autom/Tests.antt =====
-- Runs of the buffer, and the theorems at them.
use pc_env_vu.Base.{ℕ, ◌≡◌, refl, true, Option, none, some, List, [], ◌∷◌, arith, Block}
use pc_env_vu.Autom.{Autom, create, write, read, breset}
use pc_env_vu.Autom.Content.{Holds, Written, Reallocates, IsGrown, write-Written}
use pc_env_vu.Autom.Writes.{created-Holds, write_all, created_takes_all}
use pc_env_vu.Autom.Reread.{write_behind_read}
use pc_env_vu.Autom.Shrunk.{breset_overruns}

abbrev byte_of : Option Block → ℕ → ℕ
byte_of none i = 0
byte_of (some b) i = b.byte i

-- A `realloc` that never fails.
abbrev moved : Option Block → ℕ → Option Block
moved h n = some (record { size = n; byte = byte_of h })

moved-IsGrown : (h : Option Block) (n : ℕ) → IsGrown h n (record { size = n; byte = byte_of h })
moved-IsGrown none n = record { sized = refl; kept = λ i e small less. absurd (ground arith) }
moved-IsGrown (some b) n = record { sized = refl; kept = λ i e small less. ground arith }

moved-Reallocates : Reallocates moved
moved-Reallocates h n = (record { size = n; byte = byte_of h }, refl, moved-IsGrown h n)

abbrev four : Autom
four = record {
  pre_bytes = 4;
  cur_bytes = 0;
  head = some (record { size = 4; byte = λ i. 0 });
  tail = some 0;
  is_malloc = true;
}

created_four : create true true none 4 ≡ some four
unfolding create
created_four = refl

four-Holds : Holds four []
four-Holds = created-Holds 4 created_four

abbrev pieces : List (List ℕ)
pieces = (1 ∷ 2 ∷ 3 ∷ []) ∷ [] ∷ (4 ∷ 5 ∷ []) ∷ []

created_takes_all_example :
    (a' : Autom) × (write_all moved four pieces ≡ some a') × Holds a' (1 ∷ 2 ∷ 3 ∷ 4 ∷ 5 ∷ [])
created_takes_all_example =
    created_takes_all moved 4 pieces moved-Reallocates created_four (omega arith)

write-Written_run :
    (a' : Autom) × (write moved four (7 ∷ 8 ∷ []) ≡ some (some 2, a')) × Written (7 ∷ 8 ∷ []) a'
write-Written_run = write-Written moved (7 ∷ 8 ∷ []) moved-Reallocates four-Holds (omega arith)

abbrev full : Autom
full = (write-Written moved (7 ∷ 8 ∷ []) moved-Reallocates four-Holds (omega arith)).0

write_behind_read_example :
    (a1 : Autom) × (a2 : Autom) × (read full 1 ≡ some (some 0, a1))
    × (write moved a1 (9 ∷ []) ≡ some (some 1, a2))
    × Written (7 ∷ 9 ∷ []) a2
write_behind_read_example =
    write_behind_read moved 1 (9 ∷ []) moved-Reallocates
      (write-Written moved (7 ∷ 8 ∷ []) moved-Reallocates four-Holds (omega arith)).2 (omega arith)
      (omega arith)

breset_overruns_run :
    (a' : Autom) × (breset moved four 2 ≡ some (true, a')) × (write moved a' (7 ∷ 8 ∷ []) ≡ none)
breset_overruns_run =
    breset_overruns moved four 0 2 (7 ∷ 8 ∷ []) moved-Reallocates refl (omega arith) (omega arith)
      (omega arith) (omega arith)
