-- ===== src/AnyStream/Silent.antt =====
-- A cleared stream has equal indices, and they stay equal.
use pc_env_vu.Base.{
  ℕ, ◌≡◌, refl, ap, Option, none, some, List, [], ◌∷◌, true, arith, leb, ◌==◌, Text, inl, inr, ◌⊎◌,
}
use pc_env_vu.AnyStream.{
  AnyStream, Use, returned, outside, put, next, get_one, get_sync, read_one, write_next, cyc_write,
  write_one, done, clear, Op, reads, cyc_writes, writes, clears, Told, read_told, cyc_told,
  write_told, nothing, copy_out, call, calls,
}

-- No frame is read, and `writeOne` takes none.
abbrev pub IsSilent : Told → Type 0
IsSilent (read_told frame) = frame ≡ none
IsSilent (cyc_told ok) = ok ≡ true
IsSilent (write_told status) = status ≡ done
IsSilent nothing = Unit

abbrev pub AllSilent : List Told → Type 0
AllSilent [] = Unit
AllSilent (t ∷ ts) = IsSilent t × AllSilent ts

abbrev IsEven : Use Told → Type 0
IsEven (returned t s) = IsSilent t × (s.ri ≡ s.wi)
IsEven (outside i) = Unit

-- `cycWrite` on equal indices: both move on, or the call goes outside.
cyc_write_cases :
    (s : AnyStream) (frame : Text)
    → s.ri ≡ s.wi
    → ((i : ℕ) × (cyc_write s frame ≡ outside i))
      ⊎ ((vct : List (Option Text)) × (cyc_write s frame
            ≡ returned true (record s { vct = vct; ri = next s s.ri; wi = next s s.wi })))
unfolding cyc_write get_sync write_next next
cyc_write_cases s frame e = first (put s.vct s.ri none) refl
  where
    second :
        (v : List (Option Text)) (o : Option (List (Option Text)))
        → put s.vct s.ri none ≡ some v
        → put v (next s s.wi) (some frame) ≡ o
        → ((i : ℕ) × (cyc_write s frame ≡ outside i))
          ⊎ ((vct : List (Option Text)) × (cyc_write s frame
                ≡ returned true (record s { vct = vct; ri = next s s.ri; wi = next s s.wi })))
    second v none f g = inl (next s s.wi, ground (arith, e, f, g))
    second v (some w) f g = inr (w, ground (arith, e, f, g))

    first :
        (o : Option (List (Option Text)))
        → put s.vct s.ri none ≡ o
        → ((i : ℕ) × (cyc_write s frame ≡ outside i))
          ⊎ ((vct : List (Option Text)) × (cyc_write s frame
                ≡ returned true (record s { vct = vct; ri = next s s.ri; wi = next s s.wi })))
    first none f = inl (s.ri, ground (arith, e, f))
    first (some v) f = second v (put v (next s s.wi) (some frame)) f refl

call-IsEven : (s : AnyStream) (op : Op) → s.ri ≡ s.wi → IsEven (call s op)
unfolding call read_one get_one copy_out write_one clear
call-IsEven s reads e = let same : (s.wi == s.ri) ≡ true = ground (arith, e) in rw same (refl, e)
call-IsEven s (cyc_writes frame) e = elim (cyc_write_cases s frame e) [
  | inl (i, f) ↦ rw f tt
  | inr (vct, f) ↦ rw f (refl, ap (next s) e)
]
call-IsEven s (writes frame) e =
    let full : leb s.ri s.wi ≡ true = ground (arith, e) in rw full (refl, e)
call-IsEven s clears e = (tt, refl)

calls_silent : (ops : List Op) (s : AnyStream) → s.ri ≡ s.wi → AllSilent (calls s ops).0
unfolding calls
calls_silent [] s e = tt
calls_silent (op ∷ ops) s e =
    go (call s op) refl (call-IsEven s op e) (λ s' e'. calls_silent ops s' e')
  where
    go :
        (u : Use Told)
        → call s op ≡ u
        → IsEven u
        → ((s' : AnyStream) → s'.ri ≡ s'.wi → AllSilent (calls s' ops).0)
        → AllSilent (calls s (op ∷ ops)).0
    go (outside i) f b ih = rw (f, calls) tt
    go (returned t s') f (silent, even) ih = rw (f, calls) (silent, ih s' even)

-- Whatever calls follow a `clear`, no `readOne` gives a frame, and no `writeOne` takes one.
pub clear_silent : (s : AnyStream) (ops : List Op) → AllSilent (calls (clear s) ops).0
unfolding clear
clear_silent s ops = calls_silent ops (clear s) refl
