-- ===== src/Csrb/Refine.antt =====
-- A valid ring behaves as a bounded queue of bytes, as long as no read runs over the end.
use pc_env_vu.Base.{
  ℕ, ◌+◌, ◌-◌, ◌≤◌, ◌<◌, ◌≡◌, refl, sym, ◌∙◌, inl, inr, ap, ap₂, none, some, List, ◌++◌, arith,
  spliced, length, take, drop, get_or, fill, fetch, memcpy,
}
use pc_env_vu.Window.{
  wrap, window, window-append, window_ext, window_turn, window-slice, take-window, drop-window,
  window_of_list,
}
use pc_env_vu.Csrb.{Ring, write_query, read_query}
use pc_env_vu.Csrb.Inv.{
  IsValid, moved, written, consumed, write_sync-some, read_sync-eq, written-IsValid,
  consumed-IsValid,
}
use pc_env_vu.Csrb.Client.{put, get, contents}

-- The handle when the writer has stored its bytes, before `csrb_write_sync`.
abbrev pub stored : Ring → List ℕ → Ring
stored r xs = record r {
  buf = record {
    size = r.buf.size;
    byte = spliced r.buf.byte r.wi (λ i. get_or xs i 0) 0 (length xs);
  };
}

module _ {r : Ring} (xs : List ℕ) (v : IsValid r) (fits : length xs ≤ r.empty) where
  stored-IsValid : IsValid (stored r xs)
  stored-IsValid = ground arith

  moved_new :
      (k : ℕ)
      → k < length xs
      → moved (stored r xs) (length xs) (wrap r.capacity (r.wi + k)) ≡ get_or xs k 0
  unfolding moved
  moved_new k lt = ground arith

  moved_old :
      (k : ℕ)
      → k < r.contex
      → moved (stored r xs) (length xs) (wrap r.capacity (r.ri + k))
        ≡ r.buf.byte (wrap r.capacity (r.ri + k))
  unfolding moved
  moved_old k lt = ground arith

  abbrev pub after : Ring
  after = written (stored r xs) (length xs)

  -- The new bytes stand behind the old ones, wherever the ring turns.
  new_part : window after.buf.byte r.capacity (r.ri + r.contex) (length xs) ≡ xs
  new_part = elim v.linked [
    | inl e ↦ rw e (window_of_list after.buf.byte r.capacity r.wi xs moved_new)
    | inr e ↦
        ap (λ h. window after.buf.byte r.capacity h (length xs)) {x = r.ri + r.contex}
          {y = r.capacity + r.wi} (omega arith)
        ∙ window_turn after.buf.byte r.capacity r.wi (length xs) (omega arith)
        ∙ window_of_list after.buf.byte r.capacity r.wi xs moved_new
  ]

  contents-after : contents after ≡ contents r ++ xs
  contents-after =
      window-append after.buf.byte r.capacity r.ri r.contex (length xs)
      ∙ ap₂ ◌++◌ (window_ext after.buf.byte r.buf.byte r.capacity r.ri r.ri r.contex moved_old)
          new_part

  pub put-eq : put r xs ≡ some after
  unfolding put write_query fill memcpy
  put-eq = ground (arith, write_sync-some {r = stored r xs} (length xs) stored-IsValid fits)

-- Storing bytes that fit succeeds inside the buffer, keeps the invariant, the capacity and the read
-- index, and appends exactly those bytes, in order.
pub put-append :
    {r : Ring} (xs : List ℕ)
    → IsValid r
    → length xs ≤ r.empty
    → (r' : Ring) × (put r xs ≡ some r')
      × IsValid r'
      × (contents r' ≡ contents r ++ xs)
      × (r'.capacity ≡ r.capacity)
      × (r'.ri ≡ r.ri)
put-append {r} xs v fits = (
  after xs v fits,
  put-eq xs v fits,
  written-IsValid (length xs) (stored-IsValid xs v fits) fits,
  contents-after xs v fits,
  refl,
  refl,
)

-- Bytes that do not fit are refused.
pub put-full : (r : Ring) (xs : List ℕ) → r.empty < length xs → put r xs ≡ none
unfolding put write_query
put-full r xs h = ground arith

module _ {r : Ring} (n : ℕ) (v : IsValid r) (fits : n ≤ r.contex) where
  contents-consumed : contents (consumed r n) ≡ drop n (contents r)
  contents-consumed = turn ∙ sym (drop-window r.buf.byte r.capacity r.ri n r.contex fits)
    where
      turn :
          window r.buf.byte r.capacity (wrap r.capacity (r.ri + n)) (r.contex - n)
          ≡ window r.buf.byte r.capacity (r.ri + n) (r.contex - n)
      turn =
          window_ext r.buf.byte r.buf.byte r.capacity (wrap r.capacity (r.ri + n)) (r.ri + n)
            (r.contex - n) λ k lt. ground arith

-- Reading bytes that the ring holds, short of its end, returns the oldest ones, drops them, keeps
-- the invariant and the capacity, and moves the read index past them.
pub get-take :
    {r : Ring} (n : ℕ)
    → IsValid r
    → n ≤ r.contex
    → r.ri + n ≤ r.capacity
    → (r' : Ring) × (get r n ≡ some (take n (contents r), r'))
      × IsValid r'
      × (contents r' ≡ drop n (contents r))
      × (r'.capacity ≡ r.capacity)
      × (r'.ri ≡ wrap r.capacity (r.ri + n))
unfolding get read_query fetch
get-take {r} n v fits ends = (
  consumed r n,
  ground (
    arith,
    read_sync-eq n v fits,
    take-window r.buf.byte r.capacity r.ri n r.contex fits,
    window-slice r.buf.byte r.capacity r.ri n ends,
  ),
  consumed-IsValid n v fits,
  contents-consumed n v fits,
  refl,
  refl,
)

-- More bytes than the ring holds are refused.
pub get-empty : (r : Ring) (n : ℕ) → r.contex < n → get r n ≡ none
unfolding get read_query
get-empty r n h = ground arith
