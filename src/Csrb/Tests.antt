-- ===== src/Csrb/Tests.antt =====
-- Runs of csrb.c on a ring of six bytes, and the theorems at it.
use pc_env_vu.Base.{
  ◌≡◌, refl, true, none, some, List, [], ◌∷◌, arith, get_or, fill, fetch, copy_bytes, ◌↔◌,
}
use pc_env_vu.Queue
use pc_env_vu.Queue.{Op}
use pc_env_vu.Queue.Impl.{run}
use pc_env_vu.Csrb.{
  Ring, fresh, zeroed, create, destroy, clear, write_query, read_query, write_sync, shift,
  commit_write, read_sync, advance, commit_read,
}
use pc_env_vu.Csrb.Inv.{IsValid, create-IsValid, clear-IsValid}
use pc_env_vu.Csrb.Client.{put, get, contents}
use pc_env_vu.Csrb.Refine.{put-append, get-take}
use pc_env_vu.Csrb.Mirror.{mirror_from_start, mirror_stale}
use pc_env_vu.Csrb.Aligned.{step, IsAligned, aligned-queue}

abbrev six : Ring
six = fresh (zeroed 12) 6

-- Two bytes, 7 and 8, of which the second stands at the start.
abbrev turned : Ring
turned = record {
  ri = 5;
  wi = 1;
  contex = 2;
  empty = 4;
  capacity = 6;
  buf = record { size = 12; byte = λ i. get_or (8 ∷ 1 ∷ 2 ∷ 3 ∷ 4 ∷ 7 ∷ 8 ∷ []) i 0 };
}

abbrev script : List Op
script =
    Op.put (1 ∷ 2 ∷ 3 ∷ 4 ∷ 5 ∷ [])
    ∷ Op.get 3
    ∷ Op.put (6 ∷ 7 ∷ 8 ∷ 9 ∷ [])
    ∷ Op.get 3
    ∷ Op.get 3
    ∷ Op.put (1 ∷ 2 ∷ 3 ∷ 4 ∷ 5 ∷ 6 ∷ 7 ∷ [])
    ∷ []

six-IsValid : IsValid six
six-IsValid = omega arith

turned-IsValid : IsValid turned
turned-IsValid = omega arith

six-IsAligned : IsAligned 3 six
six-IsAligned = record { rounds = 2; place = 0; whole = refl; start = refl }

replies :
    run step six script
    ≡ some []
      ∷ some (1 ∷ 2 ∷ 3 ∷ [])
      ∷ some []
      ∷ some (4 ∷ 5 ∷ 6 ∷ [])
      ∷ some (7 ∷ 8 ∷ 9 ∷ [])
      ∷ none
      ∷ []
unfolding run step put get fill fetch write_query read_query write_sync shift commit_write read_sync
    advance commit_read copy_bytes
replies = refl

create-IsValid_run :
    IsValid six
    × (six.contex ≡ 0)
    × (six.capacity ≡ 6)
    × ((destroy (record { ring = six; alloc = true }) ≡ true) ↔ (some (zeroed 12) ≡ none))
unfolding create
create-IsValid_run =
    create-IsValid (some (zeroed 12)) 6 true true (omega arith) (omega arith) (λ b e. ground arith)
      refl

-- The window turns: the write goes on from the start.
put-append_example :
    (r' : Ring) × (put turned (1 ∷ 2 ∷ 3 ∷ []) ≡ some r')
    × IsValid r'
    × (contents r' ≡ 7 ∷ 8 ∷ 1 ∷ 2 ∷ 3 ∷ [])
    × (r'.capacity ≡ 6)
    × (r'.ri ≡ 5)
put-append_example = put-append (1 ∷ 2 ∷ 3 ∷ []) turned-IsValid (omega arith)

get-take_run :
    (r' : Ring) × (get turned 1 ≡ some (7 ∷ [], r'))
    × IsValid r'
    × (contents r' ≡ 8 ∷ [])
    × (r'.capacity ≡ 6)
    × (r'.ri ≡ 0)
get-take_run = get-take 1 turned-IsValid (omega arith) (omega arith)

mirror_from_start_run :
    (r' : Ring) × (put six (4 ∷ 5 ∷ []) ≡ some r') × (r'.buf.byte 7 ≡ r'.buf.byte 1)
mirror_from_start_run =
    mirror_from_start (4 ∷ 5 ∷ []) 1 six-IsValid (omega arith) refl (omega arith) (omega arith)

mirror_stale_run : (r' : Ring) × (put turned (4 ∷ []) ≡ some r') × (r'.buf.byte 7 ≡ 0)
mirror_stale_run =
    mirror_stale (4 ∷ []) 7 turned-IsValid (omega arith) (omega arith) (omega arith) (omega arith)

aligned-queue_example : run step six script ≡ Queue.run 6 [] script
aligned-queue_example = aligned-queue 3 script six six-IsAligned six-IsValid (omega arith)

cleared_turned : IsValid (clear turned) × ((clear turned).contex ≡ 0)
cleared_turned = clear-IsValid turned-IsValid
