-- ===== src/AnyStream/Bounds.antt =====
-- The indices stay within the vector or one past it.
use pc_env_vu.Base.{
  ℕ, zero, suc, ◌≤◌, ◌≡◌, refl, ap, ◌∙◌, Option, none, some, List, [], Bool, ◌∷◌, true, false,
  arith, leb, ◌==◌, length, Text, Bool-cases, inl, inr, if◌then◌else◌,
}
use pc_env_vu.AnyStream.{
  AnyStream, Use, returned, outside, slot, put, next, get_one, get_sync, read_one, write_next,
  cyc_write, write_one, erase, clear, Op, reads, cyc_writes, writes, clears, read_told, cyc_told,
  write_told, succeed, and_then, copy_out, call,
}

pub record IsValid (s : AnyStream) : Type 0 where
  pub slots : length s.vct ≡ s.max
  pub ri_bound : s.ri ≤ s.max
  pub wi_bound : s.wi ≤ s.max

-- A call leaves a valid stream, or is outside the vector by one.
abbrev pub IsBounded : {R : Type 0} → AnyStream → Use R → Type 0
IsBounded s (returned r s') = IsValid s' × (s'.max ≡ s.max)
IsBounded s (outside i) = i ≡ s.max

slot-none : (xs : List (Option Text)) (i : ℕ) → slot xs i ≡ none → length xs ≤ i
slot-none [] i e = omega arith
slot-none (x ∷ xs) zero e = absurd (ground (arith, e))
slot-none (x ∷ xs) (suc i) e = omega (arith, slot-none xs i e)

pub put_none :
    (xs : List (Option Text)) (i : ℕ) (x : Option Text) → put xs i x ≡ none → length xs ≤ i
put_none [] i x e = omega arith
put_none (y ∷ ys) zero x e = absurd (ground (arith, e))
put_none (y ∷ ys) (suc i) x e = omega (arith, put_none ys i x (ground (arith, e)))

pub length-put :
    (xs : List (Option Text)) (i : ℕ) (x : Option Text) {ys : List (Option Text)}
    → put xs i x ≡ some ys
    → length ys ≡ length xs
length-put [] i x e = absurd (ground (arith, e))
length-put (y ∷ ys) zero x e = ground (arith, e)
length-put (y ∷ ys) (suc i) x {ys = zs} e = go (put ys i x) refl (λ ws f. length-put ys i x f)
  where
    go :
        (o : Option (List (Option Text)))
        → put ys i x ≡ o
        → ((ws : List (Option Text)) → put ys i x ≡ some ws → length ws ≡ length ys)
        → length zs ≡ suc (length ys)
    go none f ih = absurd (ground (arith, e, f))
    go (some ws) f ih = ground (arith, e, f, ih ws f)

pub length-erase : (n : ℕ) (xs : List (Option Text)) → length (erase n xs) ≡ length xs
length-erase zero xs = refl
length-erase (suc n) [] = refl
length-erase (suc n) (x ∷ xs) = ap suc (length-erase n xs)

next_bound : (s : AnyStream) (i : ℕ) → i ≤ s.max → next s i ≤ s.max
unfolding next
next_bound s i le = ground arith

get_sync-IsBounded : (s : AnyStream) → IsValid s → IsBounded s (get_sync s)
unfolding get_sync
get_sync-IsBounded s v = go (put s.vct s.ri none) refl
  where
    go : (o : Option (List (Option Text))) → put s.vct s.ri none ≡ o → IsBounded s (get_sync s)
    go none e = rw (e, get_sync) (omega (arith, put_none s.vct s.ri none e, v.slots, v.ri_bound))
    go (some vct) e =
        rw (e, get_sync)
          (
            record {
              slots = length-put s.vct s.ri none e ∙ v.slots;
              ri_bound = next_bound s s.ri v.ri_bound;
              wi_bound = v.wi_bound;
            },
            refl,
          )

write_next-IsBounded :
    {R : Type 0} (r : R) (s : AnyStream) (frame : Text)
    → IsValid s
    → IsBounded s (write_next r s frame)
unfolding write_next
write_next-IsBounded r s frame v = go (put s.vct (next s s.wi) (some frame)) refl
  where
    go :
        (o : Option (List (Option Text)))
        → put s.vct (next s s.wi) (some frame) ≡ o
        → IsBounded s (write_next r s frame)
    go none e =
        rw (e, write_next)
          (omega (
            arith,
            put_none s.vct (next s s.wi) (some frame) e,
            v.slots,
            next_bound s s.wi v.wi_bound,
          ))
    go (some vct) e =
        rw (e, write_next)
          (
            record {
              slots = length-put s.vct (next s s.wi) (some frame) e ∙ v.slots;
              ri_bound = v.ri_bound;
              wi_bound = next_bound s s.wi v.wi_bound;
            },
            refl,
          )

IsBounded-cast :
    {R : Type 0} (s s' : AnyStream) (u : Use R) → s'.max ≡ s.max → IsBounded s' u → IsBounded s u
IsBounded-cast s s' (returned r s'') e (v, f) = (v, f ∙ e)
IsBounded-cast s s' (outside i) e f = f ∙ e

and_then-IsBounded :
    {R Q : Type 0} (s : AnyStream) (u : Use R) (f : R → AnyStream → Use Q)
    → IsBounded s u
    → ((r : R) (s' : AnyStream) → IsValid s' → IsBounded s' (f r s'))
    → IsBounded s (and_then u f)
and_then-IsBounded s (returned r s') f (v, e) k = IsBounded-cast s s' (f r s') e (k r s' v)
and_then-IsBounded s (outside i) f b k = b

get_one-IsBounded : (s : AnyStream) → IsValid s → IsBounded s (get_one s)
unfolding get_one
get_one-IsBounded s v = elim (Bool-cases (s.wi == s.ri)) [
  | inl same ↦ rw same (v, refl)
  | inr more ↦ rw more (go (slot s.vct s.ri) refl)
]
  where
    go :
        (o : Option (Option Text))
        → slot s.vct s.ri ≡ o
        → IsBounded s
            (elim (slot s.vct s.ri) [ none ↦ outside s.ri | some frame ↦ returned frame s ])
    go none e = rw e (omega (arith, slot-none s.vct s.ri e, v.slots, v.ri_bound))
    go (some frame) e = rw e (v, refl)

copy_out-IsBounded :
    (frame : Option Text) (s : AnyStream) → IsValid s → IsBounded s (copy_out frame s)
unfolding copy_out
copy_out-IsBounded none s v = (v, refl)
copy_out-IsBounded (some frame) s v =
    and_then-IsBounded s (get_sync s) (λ u s'. returned (some frame) s') (get_sync-IsBounded s v)
      (λ u s' v'. (v', refl))

read_one-IsBounded : (s : AnyStream) → IsValid s → IsBounded s (read_one s)
unfolding read_one
read_one-IsBounded s v =
    and_then-IsBounded s (get_one s) copy_out (get_one-IsBounded s v) copy_out-IsBounded

cyc_write-IsBounded : (s : AnyStream) (frame : Text) → IsValid s → IsBounded s (cyc_write s frame)
unfolding cyc_write
cyc_write-IsBounded s frame v =
    and_then-IsBounded s (if leb s.ri s.wi then get_sync s else returned tt s)
      (λ u s'. write_next true s' frame) (room (leb s.ri s.wi))
      (λ u s' v'. write_next-IsBounded true s' frame v')
  where
    room : (full : Bool) → IsBounded s (if full then get_sync s else returned tt s)
    room true = get_sync-IsBounded s v
    room false = (v, refl)

write_one-IsBounded : (s : AnyStream) (frame : Text) → IsValid s → IsBounded s (write_one s frame)
unfolding write_one
write_one-IsBounded s frame v = elim (Bool-cases (leb s.ri s.wi)) [
  | inl full ↦ rw full (v, refl)
  | inr room ↦ rw room (write_next-IsBounded succeed s frame v)
]

-- From a stream with a slot for each number below the bound and indices up to the bound, each call
-- leaves one of the same bound, or it uses the vector at the index that is the bound, one past the end:
-- no call goes further out.
pub call-IsBounded : (s : AnyStream) (op : Op) → IsValid s → IsBounded s (call s op)
unfolding call clear
call-IsBounded s reads v =
    and_then-IsBounded s (read_one s) (λ r s'. returned (read_told r) s') (read_one-IsBounded s v)
      (λ r s' v'. (v', refl))
call-IsBounded s (cyc_writes frame) v =
    and_then-IsBounded s (cyc_write s frame) (λ r s'. returned (cyc_told r) s')
      (cyc_write-IsBounded s frame v) (λ r s' v'. (v', refl))
call-IsBounded s (writes frame) v =
    and_then-IsBounded s (write_one s frame) (λ r s'. returned (write_told r) s')
      (write_one-IsBounded s frame v) (λ r s' v'. (v', refl))
call-IsBounded s clears v = (
  record {
    slots = length-erase s.max s.vct ∙ v.slots;
    ri_bound = omega arith;
    wi_bound = omega arith;
  },
  refl,
)
