-- ===== src/Ccsrb/Refine.antt =====
-- A valid ring is a bounded queue of bytes to its clients, for calls of any size.
use pc_env_vu.Base.{
  ℕ, ◌+◌, ◌-◌, ◌≤◌, ◌<◌, ◌≡◌, refl, sym, ◌∙◌, ap, ap₂, inl, inr, false, Option, none, some, List,
  [], ◌∷◌, ◌++◌, arith, Block, spliced, ltb, length, get_or, slice, slice_ext, memcpy, fetch,
  Bool-cases, take, drop,
}
use pc_env_vu.Window.{
  wrap, window, window_as_slice, length-window, window-append, window_ext, window_turn,
  window-slice, take-window, drop-window, window_of_list,
}
use pc_env_vu.Queue
use pc_env_vu.Queue.{Op, Reply, All}
use pc_env_vu.Queue.Impl.{Follows, Impl, run, run-queue}
use pc_env_vu.Ccsrb.{Ccsrb, read_query, read_sync}
use pc_env_vu.Ccsrb.Client.{get, step, contents}
use pc_env_vu.Ccsrb.Inv.{
  IsValid, Allocates, stored_byte, after, put-eq, put-full, after-IsValid, consumed,
  consumed-IsValid,
}

module _ {c : Ccsrb} (xs : List ℕ) (v : IsValid c) (fits : length xs ≤ c.empty) where
  stored_new :
      (k : ℕ) → k < length xs → stored_byte c xs (wrap c.c_bytes (c.wi + k)) ≡ get_or xs k 0
  stored_new k lt = ground arith

  stored_old :
      (k : ℕ)
      → k < c.contex
      → stored_byte c xs (wrap c.c_bytes (c.ri + k)) ≡ c.mm.byte (wrap c.c_bytes (c.ri + k))
  stored_old k lt = ground arith

  new_part : window (stored_byte c xs) c.c_bytes (c.ri + c.contex) (length xs) ≡ xs
  new_part = elim v.linked [
    | inl e ↦ rw e (window_of_list (stored_byte c xs) c.c_bytes c.wi xs stored_new)
    | inr e ↦
        ap (λ h. window (stored_byte c xs) c.c_bytes h (length xs)) {x = c.ri + c.contex}
          {y = c.c_bytes + c.wi} (omega arith)
        ∙ window_turn (stored_byte c xs) c.c_bytes c.wi (length xs) (omega arith)
        ∙ window_of_list (stored_byte c xs) c.c_bytes c.wi xs stored_new
  ]

  contents-after : contents (after c xs) ≡ contents c ++ xs
  contents-after =
      window-append (stored_byte c xs) c.c_bytes c.ri c.contex (length xs)
      ∙ ap₂ ◌++◌ (window_ext (stored_byte c xs) c.mm.byte c.c_bytes c.ri c.ri c.contex stored_old)
          new_part

module _ {c : Ccsrb} (n : ℕ) (v : IsValid c) (fits : n ≤ c.contex) where
  contents-consumed : contents (consumed c n) ≡ drop n (contents c)
  contents-consumed = turn ∙ sym (drop-window c.mm.byte c.c_bytes c.ri n c.contex fits)
    where
      turn :
          window c.mm.byte c.c_bytes (wrap c.c_bytes (c.ri + n)) (c.contex - n)
          ≡ window c.mm.byte c.c_bytes (c.ri + n) (c.contex - n)
      turn =
          window_ext c.mm.byte c.mm.byte c.c_bytes (wrap c.c_bytes (c.ri + n)) (c.ri + n)
            (c.contex - n) λ k lt. ground arith

  -- The side block of a read that runs over the end.
  joined : ℕ → ℕ
  joined =
      spliced (spliced (λ i. 0) 0 c.mm.byte c.ri (c.c_bytes - c.ri)) (c.c_bytes - c.ri) c.mm.byte 0
        (n - (c.c_bytes - c.ri))

  joined_lem :
      ltb (c.ri + n) c.c_bytes ≡ false → slice joined 0 n ≡ window c.mm.byte c.c_bytes c.ri n
  joined_lem over =
      slice_ext joined (λ h. c.mm.byte (wrap c.c_bytes h)) 0 c.ri n
        (λ k lt. unfold joined in ground arith)
      ∙ sym (window_as_slice c.mm.byte c.c_bytes c.ri n)

  get-eq : get c n ≡ some (take n (contents c), consumed c n)
  get-eq = elim (Bool-cases (ltb (c.ri + n) c.c_bytes)) [
    | inl inside ↦
        unfold get read_query read_sync fetch in
        ground (
          arith,
          take-window c.mm.byte c.c_bytes c.ri n c.contex fits,
          window-slice c.mm.byte c.c_bytes c.ri n,
        )
    | inr over ↦
        unfold get read_query read_sync fetch memcpy joined in
        ground (arith, take-window c.mm.byte c.c_bytes c.ri n c.contex fits, joined_lem over)
  ]

-- More bytes than the ring holds are refused.
get-empty : (c : Ccsrb) (n : ℕ) → c.contex < n → get c n ≡ none
unfolding get read_query
get-empty c n h = ground arith

module _ (alloc : ℕ → Option Block) (al : Allocates alloc) (capacity : ℕ) where
  abbrev IsReady : Ccsrb → Type 0
  IsReady c = IsValid c × (c.c_bytes ≡ capacity)

  abbrev FollowsAt : Ccsrb → Op → Type 0
  FollowsAt c op = Follows capacity (step alloc) contents IsReady c op

  put_follows : {c : Ccsrb} (xs : List ℕ) → IsReady c → FollowsAt c (Op.put xs)
  put_follows {c} xs (v, e) = elim (Bool-cases (ltb capacity (length (contents c) + length xs))) [
    | inl full ↦ record {
      next = c;
      returns =
          unfold step Queue.step in
          ground (arith, put-full alloc c xs, length-window c.mm.byte c.c_bytes c.ri c.contex);
      holds = unfold Queue.step in ground arith;
      valid = (v, e);
    }
    | inr fits ↦
        let room : length xs ≤ c.empty =
          ground (arith, length-window c.mm.byte c.c_bytes c.ri c.contex) in
        let done = put-eq alloc xs al v room in
        record {
          next = after c xs;
          returns = unfold step Queue.step in ground arith;
          holds = unfold Queue.step in rw fits (contents-after xs v room);
          valid = (after-IsValid xs v room, e);
        }
  ]

  get_follows : {c : Ccsrb} (n : ℕ) → IsReady c → FollowsAt c (Op.get n)
  get_follows {c} n (v, e) = elim (Bool-cases (ltb (length (contents c)) n)) [
    | inl short ↦ record {
      next = c;
      returns =
          unfold step Queue.step in
          ground (arith, get-empty c n, length-window c.mm.byte c.c_bytes c.ri c.contex);
      holds = unfold Queue.step in ground arith;
      valid = (v, e);
    }
    | inr held ↦
        let enough : n ≤ c.contex =
          ground (arith, length-window c.mm.byte c.c_bytes c.ri c.contex) in
        let done = get-eq n v enough in
        record {
          next = consumed c n;
          returns = unfold step Queue.step in ground arith;
          holds = unfold Queue.step in rw held (contents-consumed n v enough);
          valid = (consumed-IsValid n v enough, e);
        }
  ]

  follows : (c : Ccsrb) (op : Op) → IsReady c → Unit {0} → FollowsAt c op
  follows c (Op.put xs) ready ok = put_follows xs ready
  follows c (Op.get n) ready ok = get_follows n ready

abbrev any_call : (ops : List Op) → All (λ op. Unit) ops
any_call [] = tt
any_call (op ∷ ops) = (tt, any_call ops)

-- Where malloc and calloc succeed, a valid ring answers any sequence of whole writes and reads as
-- the bounded queue of its bytes does. A whole write or read of ccsrb is a query, the move of the
-- bytes, and a sync of the size that the query asked for, and it may be of any size; where the
-- query is refused, nothing is moved or synced.
pub run_refines :
    (alloc : ℕ → Option Block) (ops : List Op) (c : Ccsrb)
    → Allocates alloc
    → IsValid c
    → run (step alloc) c ops ≡ Queue.run c.c_bytes (contents c) ops
run_refines alloc ops c al v = run-queue ccsrb_impl ops c (v, refl) (any_call ops)
  where
    ccsrb_impl : Impl
    ccsrb_impl = record {
      State = Ccsrb;
      capacity = c.c_bytes;
      step = step alloc;
      contents = contents;
      Valid = IsReady alloc al c.c_bytes;
      Allowed = λ op. Unit;
      follows = follows alloc al c.c_bytes;
    }
