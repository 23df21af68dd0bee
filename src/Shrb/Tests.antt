-- ===== src/Shrb/Tests.antt =====
-- A writer and a reader at a shared ring of six bytes.
use pc_env_vu.Base.{ℕ, ◌≡◌, refl, arith, some, leb, ltb, ◌&&◌, if◌then◌else◌}
use pc_env_vu.Csrb.{fresh, zeroed}
use pc_env_vu.Csrb.Inv.{IsValid, shape, shift-some, moved}
use pc_env_vu.Shrb.{Shrb, write_query, read_query, shift, commit_write}
use pc_env_vu.Shrb.Sides.{
  idle, busy, Sides, with_bytes, Step, ask_write, store, move_write, end_write, ask_read, Reach,
  here, next,
}
use pc_env_vu.Shrb.Exclusion.{reader_undisturbed, Reach-IsValid}

-- Two bytes are stored from offset 2 on.
abbrev six : Shrb
six = record {
  name = 0;
  bytes = 100;
  ring = record (fresh (zeroed 12) 6) { ri = 2; wi = 4; contex = 2; empty = 4 };
}

abbrev start : Sides
start = record { shrb = six; writer = idle; reader = idle }

six-IsValid : IsValid six.ring
six-IsValid = omega arith

abbrev both : Sides
both = record { shrb = six; writer = busy 3; reader = busy 2 }

Reach-both : Reach start both
unfolding write_query read_query
Reach-both = next (next here (ask_write 3 4 refl refl)) (ask_read 2 2 refl refl)

abbrev stored : ℕ → ℕ
stored i = if leb 4 i && ltb i 7 then 9 else 0

store_both : Step both (record both { shrb = with_bytes six stored })
store_both = store 3 stored refl (λ j out. ground arith)

reader_undisturbed_example : stored 3 ≡ 0
reader_undisturbed_example =
    reader_undisturbed six 2 1 six-IsValid Reach-both store_both refl (omega arith)

-- The writer reports three bytes; its index turns.
abbrev turned : Shrb
turned = record six {
  ring = record (six.ring) { wi = 1; buf = record { size = 12; byte = moved six.ring 3 } };
}

abbrev filled : Sides
filled = record { shrb = commit_write turned 3; writer = idle; reader = idle }

shift-six : shift six 3 ≡ some turned
unfolding shift
shift-six = rw (shift-some 3 (shape six-IsValid) (omega arith)) refl

Reach-filled : Reach start filled
unfolding write_query
Reach-filled =
    next (next (next here (ask_write 3 4 refl refl)) (move_write 3 turned refl shift-six))
      (end_write 3 refl)

Reach-IsValid_example : IsValid filled.shrb.ring
Reach-IsValid_example = Reach-IsValid six six-IsValid Reach-filled refl refl
