-- ===== src/Ccsrb/Tests.antt =====
-- Runs of ccsrb.c on a ring of six bytes, and the theorems at it.
use pc_env_vu.Base.{
  ℕ, ◌≡◌, refl, true, Option, none, some, List, [], ◌∷◌, arith, Block, fill, fetch, memcpy,
}
use pc_env_vu.Queue
use pc_env_vu.Queue.{Op}
use pc_env_vu.Queue.Impl.{run}
use pc_env_vu.Ccsrb.{Ccsrb, create, write_query, read_query, write_sync, read_sync}
use pc_env_vu.Ccsrb.Client.{put, get, step}
use pc_env_vu.Ccsrb.Inv.{IsValid, Allocates, create-IsValid}
use pc_env_vu.Ccsrb.Refine.{run_refines}
use pc_env_vu.Ccsrb.ShortWrite.{short_write_faults}

abbrev block : ℕ → Block
block n = record { size = n; byte = λ i. 0 }

abbrev malloc : ℕ → Option Block
malloc n = some (block n)

malloc-Allocates : Allocates malloc
malloc-Allocates n = (block n, refl, refl)

abbrev six : Ccsrb
six = record {
  ri = 4;
  contex = 0;
  rcm = none;
  wi = 4;
  empty = 6;
  wcm = none;
  c_bytes = 6;
  mm = block 6;
}

six-IsValid : IsValid six
six-IsValid = ground arith

abbrev script : List Op
script =
    Op.put (1 ∷ 2 ∷ 3 ∷ 4 ∷ 5 ∷ [])
    ∷ Op.get 3
    ∷ Op.put (6 ∷ 7 ∷ 8 ∷ 9 ∷ [])
    ∷ Op.get 6
    ∷ Op.get 1
    ∷ []

replies :
    run (step malloc) six script
    ≡ some [] ∷ some (1 ∷ 2 ∷ 3 ∷ []) ∷ some [] ∷ some (4 ∷ 5 ∷ 6 ∷ 7 ∷ 8 ∷ 9 ∷ []) ∷ none ∷ []
unfolding run step put get fill fetch memcpy write_query read_query write_sync read_sync
replies = refl

created_six :
    IsValid (record six { ri = 0; wi = 0; mm = block 6 }) × ◌≡◌ {A = ℕ} 0 0 × ◌≡◌ {A = ℕ} 6 6
unfolding create
created_six = create-IsValid true (λ i. 0) 6 (omega arith) (omega arith) refl

run_refines_example : run (step malloc) six script ≡ Queue.run 6 [] script
run_refines_example = run_refines malloc script six malloc-Allocates six-IsValid

-- Room for four bytes, of which one is reported.
short_write_faults_run : write_sync (write_query six (some (block 4)) 4).1 1 ≡ none
short_write_faults_run =
    short_write_faults (block 4) 4 1 six-IsValid (omega arith) (omega arith) (omega arith)
      (omega arith)
