-- ===== src/AnyStream/Overrun.antt =====
-- `cycWrite` after a `clear`, until it leaves the vector.
use mathlib.Core.List.{map}
use pc_env_vu.Base.{
  ℕ, zero, suc, ◌+◌, ◌≤◌, ◌<◌, ◌≡◌, refl, ap, ◌∙◌, Option, none, some, List, [], ◌∷◌, Bool, true,
  false, arith, ltb, length, Text, Bool-cases, inl, inr,
}
use pc_env_vu.AnyStream.{
  AnyStream, returned, outside, put, next, get_sync, write_next, cyc_write, clear, cyc_writes, call,
  calls,
}
use pc_env_vu.AnyStream.Bounds.{length-put, length-erase}

put_within :
    (xs : List (Option Text)) (i : ℕ) (x : Option Text)
    → i < length xs
    → (ys : List (Option Text)) × (put xs i x ≡ some ys)
put_within [] i x lt = absurd (omega (arith, lt))
put_within (y ∷ ys) zero x lt = (x ∷ ys, refl)
put_within (y ∷ ys) (suc i) x lt =
    let (zs, e) = put_within ys i x (omega (arith, lt)) in (y ∷ zs, rw e refl)

put_past : (xs : List (Option Text)) (i : ℕ) (x : Option Text) → length xs ≤ i → put xs i x ≡ none
put_past [] i x le = refl
put_past (y ∷ ys) zero x le = absurd (omega (arith, le))
put_past (y ∷ ys) (suc i) x le = rw (put_past ys i x (omega (arith, le))) refl

-- Both indices are `i`, and the vector has its slots.
record IsAt (i n : ℕ) (s : AnyStream) : Type 0 where
  pub ri_eq : s.ri ≡ i
  pub wi_eq : s.wi ≡ i
  pub max_eq : s.max ≡ n
  pub slots : length s.vct ≡ n

inside :
    (i n : ℕ) (s : AnyStream) (frame : Text)
    → IsAt i n s
    → suc i < n
    → (s' : AnyStream) × (cyc_write s frame ≡ returned true s') × IsAt (suc i) n s'
unfolding cyc_write get_sync write_next next
inside i n s frame at lt =
    let (v, e) = put_within s.vct s.ri none (omega (arith, lt, at.ri_eq, at.slots)) in
    let (w, f) =
      put_within v (suc i) (some frame)
        (omega (arith, lt, length-put s.vct s.ri none e, at.slots)) in
    (
      record s { vct = w; ri = suc i; wi = suc i },
      ground (arith, e, f, at.ri_eq, at.wi_eq, at.max_eq, lt),
      record {
        ri_eq = refl;
        wi_eq = refl;
        max_eq = at.max_eq;
        slots = length-put v (suc i) (some frame) f ∙ length-put s.vct s.ri none e ∙ at.slots;
      },
    )

past :
    (i n : ℕ) (s : AnyStream) (frame : Text)
    → IsAt i n s
    → suc i ≡ n
    → cyc_write s frame ≡ outside n
unfolding cyc_write get_sync write_next next
past i n s frame at last =
    let (v, e) = put_within s.vct s.ri none (omega (arith, last, at.ri_eq, at.slots)) in
    let f : put v (suc i) (some frame) ≡ none =
      put_past v (suc i) (some frame)
        (omega (arith, last, length-put s.vct s.ri none e, at.slots)) in
    ground (arith, e, f, at.ri_eq, at.wi_eq, at.max_eq, last)

-- Whether the stream is still within its vector.
abbrev pub goes_on : Option AnyStream → Bool
goes_on none = false
goes_on (some s) = true

calls_go_on :
    (frames : List Text) (i n : ℕ) (s : AnyStream)
    → IsAt i n s
    → i < n
    → goes_on (calls s (map cyc_writes frames)).1 ≡ ltb (i + length frames) n
unfolding calls call
calls_go_on [] i n s at lt = ground arith
calls_go_on (frame ∷ frames) i n s at lt = elim (Bool-cases (ltb (suc i) n)) [
  | inl more ↦
      let (s', e, at') = inside i n s frame at (ground (arith, more)) in
      rw (e, calls, call)
        (calls_go_on frames (suc i) n s' at' (ground (arith, more))
          ∙ ap (λ k. ltb k n) (omega arith))
  | inr last ↦
      rw (past i n s frame at (ground (arith, lt, last)), calls, call) (ground (arith, lt, last))
]

-- After a `clear` of a stream with a slot for each number below its bound, which is not 0, `cycWrite` in
-- a row stays within the vector as long as there are fewer frames than slots, and no longer.
pub cyc_write_overruns :
    (s : AnyStream) (frames : List Text)
    → 0 < s.max
    → length s.vct ≡ s.max
    → goes_on (calls (clear s) (map cyc_writes frames)).1 ≡ ltb (length frames) s.max
unfolding clear
cyc_write_overruns s frames pos slots =
    calls_go_on frames 0 s.max (clear s)
      (record {
        ri_eq = refl;
        wi_eq = refl;
        max_eq = refl;
        slots = length-erase s.max s.vct ∙ slots;
      })
      pos
    ∙ ap (λ k. ltb k s.max) (omega arith)
