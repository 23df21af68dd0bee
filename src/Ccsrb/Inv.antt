-- ===== src/Ccsrb/Inv.antt =====
-- The invariant of `ccsrb_t` between the calls of a client.
use pc_env_vu.Base.{
  ℕ, ◌+◌, ◌-◌, ◌≤◌, ◌<◌, ◌^◌, ◌≡◌, ◌⊎◌, Bool, true, false, Option, none, some, List, arith, Block,
  spliced, ltb, if◌then◌else◌, length, get_or, memcpy, fill, Bool-cases, inl, inr,
}
use mathlib.Core.Path.{fun_ext, ap, ◌∙◌}
use pc_env_vu.Window.{wrap}
use pc_env_vu.Ccsrb.{Ccsrb, create, write_query, write_sync, clear}
use pc_env_vu.Ccsrb.Client.{put}

pub record IsValid (c : Ccsrb) : Type 0 where
  pub small : c.c_bytes < 2 ^ 63
  pub storage : c.c_bytes ≤ c.mm.size
  pub ri_in : c.ri < c.c_bytes
  pub wi_in : c.wi < c.c_bytes
  pub counted : c.contex + c.empty ≡ c.c_bytes
  pub linked : (c.ri + c.contex ≡ c.wi) ⊎ (c.ri + c.contex ≡ c.wi + c.c_bytes)
  pub no_reader : c.rcm ≡ none
  pub no_writer : c.wcm ≡ none

-- What `ccsrb_create` returns for a positive size below 2 ^ 63 is valid and empty.
pub create-IsValid :
    (allocated : Bool) (junk : ℕ → ℕ) (size : ℕ) {c : Ccsrb}
    → 0 < size
    → size < 2 ^ 63
    → create allocated junk size ≡ some c
    → IsValid c × (c.contex ≡ 0) × (c.c_bytes ≡ size)
unfolding create
create-IsValid true junk size pos small e = ground arith
create-IsValid false junk size pos small e = ground arith

-- `ccsrb_clear` between two calls keeps the invariant and empties the ring.
pub clear-IsValid : {c : Ccsrb} → IsValid c → IsValid (clear c) × ((clear c).contex ≡ 0)
unfolding clear
clear-IsValid v = ground arith

-- `malloc(n)` returns a block of `n` bytes.
abbrev pub Allocates : (ℕ → Option Block) → Type 0
Allocates alloc = (n : ℕ) → (b : Block) × (alloc n ≡ some b) × (b.size ≡ n)

-- The main memory after a write of `xs`.
abbrev pub stored_byte : Ccsrb → List ℕ → ℕ → ℕ
stored_byte c xs j =
    let n = length xs in
    let room = c.c_bytes - c.wi in
    if ltb (c.wi + n) c.c_bytes
    then spliced c.mm.byte c.wi (λ i. get_or xs i 0) 0 n j
    else spliced (spliced c.mm.byte c.wi (λ i. get_or xs i 0) 0 room) 0 (λ i. get_or xs i 0) room
        (n - room) j

abbrev pub after : Ccsrb → List ℕ → Ccsrb
after c xs = record c {
  mm = record { size = c.mm.size; byte = stored_byte c xs };
  wi = wrap c.c_bytes (c.wi + length xs);
  empty = c.empty - length xs;
  contex = c.contex + length xs;
}

-- A write that runs over the end goes through the side block `w`.
side_byte : Ccsrb → (ℕ → ℕ) → List ℕ → ℕ → ℕ
side_byte c w xs =
    let n = length xs in
    let room = c.c_bytes - c.wi in
    let filled = spliced w 0 (λ i. get_or xs i 0) 0 n in
    spliced (spliced c.mm.byte c.wi filled 0 room) 0 filled room (n - room)

side_byte_lem :
    (c : Ccsrb) (w : ℕ → ℕ) (xs : List ℕ)
    → ltb (c.wi + length xs) c.c_bytes ≡ false
    → side_byte c w xs ≡ stored_byte c xs
unfolding side_byte
side_byte_lem c w xs over = fun_ext λ j. ground arith

put-side :
    (alloc : ℕ → Option Block) {c : Ccsrb} (xs : List ℕ) (b : Block)
    → alloc (length xs) ≡ some b
    → b.size ≡ length xs
    → IsValid c
    → length xs ≤ c.empty
    → ltb (c.wi + length xs) c.c_bytes ≡ false
    → put alloc c xs
      ≡ some
          (record (after c xs) { mm = record { size = c.mm.size; byte = side_byte c b.byte xs } })
unfolding put write_query write_sync fill memcpy side_byte
put-side alloc {c} xs b got size v fits over = ground arith

-- A write that fits succeeds inside the blocks, and leaves the memory as told above.
pub put-eq :
    (alloc : ℕ → Option Block) {c : Ccsrb} (xs : List ℕ)
    → Allocates alloc
    → IsValid c
    → length xs ≤ c.empty
    → put alloc c xs ≡ some (after c xs)
put-eq alloc {c} xs al v fits = elim (Bool-cases (ltb (c.wi + length xs) c.c_bytes)) [
  | inl inside ↦ unfold put write_query write_sync fill memcpy in ground arith
  | inr over ↦
      let (b, got, size) = al (length xs) in
      put-side alloc xs b got size v fits over
      ∙ ap (λ f. some (record (after c xs) { mm = record { size = c.mm.size; byte = f } }))
          (side_byte_lem c b.byte xs over)
]

pub put-full :
    (alloc : ℕ → Option Block) (c : Ccsrb) (xs : List ℕ)
    → c.empty < length xs
    → put alloc c xs ≡ none
unfolding put write_query
put-full alloc c xs h = ground arith

pub after-IsValid :
    {c : Ccsrb} (xs : List ℕ) → IsValid c → length xs ≤ c.empty → IsValid (after c xs)
after-IsValid {c} xs v fits = ground arith

abbrev pub consumed : Ccsrb → ℕ → Ccsrb
consumed c n = record c {
  ri = wrap c.c_bytes (c.ri + n);
  contex = c.contex - n;
  empty = c.empty + n;
}

pub consumed-IsValid : {c : Ccsrb} (n : ℕ) → IsValid c → n ≤ c.contex → IsValid (consumed c n)
consumed-IsValid {c} n v fits = ground arith
