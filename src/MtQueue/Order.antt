-- ===== src/MtQueue/Order.antt =====
-- Elements leave in the order in which they came, and none is lost or comes twice.
use mathlib.Core.Path.{subst}
use mathlib.Core.List.{append_assoc, append-nil, reverse, reverse-cons}
use pc_env_vu.Base.{
  suc, ◌≤◌, ◌<◌, ◌≡◌, refl, sym, ap, ◌∙◌, ◌≢◌, Option, some, none, List, [], ◌∷◌, ◌++◌, true, false,
  arith, length, leb, Bool-cases, inl, inr,
}
use pc_env_vu.MtQueue.{back, pop_back, MtQueue, read, read_for, write, write_for, cyc_write, clear}
use pc_env_vu.MtQueue.Calls.{
  Call, read_call, read_for_call, write_call, write_for_call, cyc_write_call, clear_call, Moved,
  step, run, IsInOrder,
}

module _ {A : Type 0} where
  pub reverse-back : (q : List A) {x : A} → back q ≡ some x → reverse q ≡ x ∷ reverse (pop_back q)
  reverse-back [] e = absurd (ground arith)
  reverse-back (y ∷ []) {x} e = ground arith
  reverse-back (y ∷ z ∷ q) {x} e =
      reverse-cons y (z ∷ q)
      ∙ ap (λ r. r ++ (y ∷ [])) (reverse-back (z ∷ q) e)
      ∙ ap (λ r. x ∷ r) (sym (reverse-cons y (pop_back (z ∷ q))))

  length-pop_back : (q : List A) {x : A} → back q ≡ some x → length q ≡ suc (length (pop_back q))
  length-pop_back [] e = absurd (ground arith)
  length-pop_back (y ∷ []) e = refl
  length-pop_back (y ∷ z ∷ q) e = ap suc (length-pop_back (z ∷ q) e)

  -- The four ways in which a call changes the queue.
  pub kept :
      (m : MtQueue A)
      → length m.q ≤ m.max_count
      → IsInOrder m (record { entered = []; left = []; after = m })
  kept m few = record {
    in_order = sym (append-nil (reverse m.q));
    bounded = few;
    same_bound = refl;
  }

  taken :
      (m : MtQueue A) {x : A}
      → back m.q ≡ some x
      → length m.q ≤ m.max_count
      → IsInOrder m (record { entered = []; left = x ∷ []; after = record m { q = pop_back m.q } })
  taken m e few = record {
    in_order = sym (reverse-back m.q e) ∙ sym (append-nil (reverse m.q));
    bounded = omega (arith, few, length-pop_back m.q e);
    same_bound = refl;
  }

  added :
      (m : MtQueue A) (x : A)
      → leb m.max_count (length m.q) ≡ false
      → IsInOrder m (record { entered = x ∷ []; left = []; after = record m { q = x ∷ m.q } })
  added m x room = record {
    in_order = reverse-cons x m.q;
    bounded = ground arith;
    same_bound = refl;
  }

  replaced :
      (m : MtQueue A) (x : A) {old : A}
      → back m.q ≡ some old
      → length m.q ≤ m.max_count
      → IsInOrder m
          (record { entered = x ∷ []; left = old ∷ []; after = record m { q = x ∷ pop_back m.q } })
  replaced m x {old} e few = record {
    in_order =
        ap (λ r. old ∷ r) (reverse-cons x (pop_back m.q))
        ∙ ap (λ r. r ++ (x ∷ [])) (sym (reverse-back m.q e));
    bounded = omega (arith, few, length-pop_back m.q e);
    same_bound = refl;
  }

  pub emptied :
      (m : MtQueue A)
      → IsInOrder m (record { entered = []; left = reverse m.q; after = record m { q = [] } })
  emptied m = record { in_order = refl; bounded = omega arith; same_bound = refl }

  cycled :
      (m : MtQueue A) (x : A) (o : Option A) {s : Moved A}
      → back m.q ≡ o
      → length m.q ≤ m.max_count
      → leb m.max_count (length m.q) ≡ true
      → step m (cyc_write_call x) ≡ some s
      → IsInOrder m s
  unfolding step cyc_write
  cycled m x none b few full e = absurd (ground arith)
  cycled m x (some old) b few full e = subst (IsInOrder m) (ground arith) (replaced m x b few)

  pub step-IsInOrder :
      (m : MtQueue A) (c : Call A) (o : Option A) {s : Moved A}
      → back m.q ≡ o
      → length m.q ≤ m.max_count
      → step m c ≡ some s
      → IsInOrder m s
  unfolding step read read_for write write_for cyc_write clear
  step-IsInOrder m read_call none b few e = subst (IsInOrder m) (ground arith) (kept m few)
  step-IsInOrder m read_call (some x) b few e = subst (IsInOrder m) (ground arith) (taken m b few)
  step-IsInOrder m (read_for_call expired) none b few e =
      subst (IsInOrder m) (ground arith) (kept m few)
  step-IsInOrder m (read_for_call expired) (some x) b few e =
      subst (IsInOrder m) (ground arith) (taken m b few)
  step-IsInOrder m (write_call x) o b few e = elim (Bool-cases (leb m.max_count (length m.q))) [
    | inl full ↦ subst (IsInOrder m) (ground arith) (kept m few)
    | inr room ↦ subst (IsInOrder m) (ground arith) (added m x room)
  ]
  step-IsInOrder m (write_for_call expired x) o b few e =
      elim (Bool-cases (leb m.max_count (length m.q))) [
        | inl full ↦ subst (IsInOrder m) (ground arith) (kept m few)
        | inr room ↦ subst (IsInOrder m) (ground arith) (added m x room)
      ]
  step-IsInOrder m (cyc_write_call x) o b few e = elim (Bool-cases (leb m.max_count (length m.q))) [
    | inl full ↦ cycled m x o b few full e
    | inr room ↦ subst (IsInOrder m) (ground arith) (added m x room)
  ]
  step-IsInOrder m clear_call o b few e = subst (IsInOrder m) (ground arith) (emptied m)

  run_cons :
      (m : MtQueue A) (c : Call A) (cs : List (Call A)) {s r : Moved A}
      → step m c ≡ some s
      → run s.after cs ≡ some r
      → run m (c ∷ cs)
        ≡ some
            (record { entered = s.entered ++ r.entered; left = s.left ++ r.left; after = r.after })
  unfolding run
  run_cons m c cs e f = rw e (rw f refl)

  back-none : (q : List A) → back q ≡ none → length q ≡ 0
  back-none [] e = refl
  back-none (x ∷ []) e = absurd (ground arith)
  back-none (x ∷ y ∷ q) e = absurd (omega (arith, back-none (y ∷ q) e))

  -- Where the bound is not 0, no call is undefined.
  pub step-ne-none :
      (m : MtQueue A) (c : Call A) (o : Option A) → back m.q ≡ o → 0 < m.max_count → step m c ≢ none
  unfolding step read read_for write write_for cyc_write
  step-ne-none m read_call none b pos e = ground arith
  step-ne-none m read_call (some x) b pos e = ground arith
  step-ne-none m (read_for_call expired) none b pos e = ground arith
  step-ne-none m (read_for_call expired) (some x) b pos e = ground arith
  step-ne-none m (write_call x) o b pos e = ground arith
  step-ne-none m (write_for_call expired x) o b pos e = ground arith
  step-ne-none m (cyc_write_call x) none b pos e = ground (arith, back-none m.q b)
  step-ne-none m (cyc_write_call x) (some old) b pos e = ground arith
  step-ne-none m clear_call o b pos e = ground arith

  pub step_total :
      (m : MtQueue A) (c : Call A) → 0 < m.max_count → (s : Moved A) × (step m c ≡ some s)
  step_total m c pos = go (step m c) (step-ne-none m c (back m.q) refl pos)
    where
      go : (o : Option (Moved A)) → o ≢ none → (s : Moved A) × (o ≡ some s)
      go none n = absurd (n refl)
      go (some s) n = (s, refl)

  pub joined :
      {m : MtQueue A} {s r : Moved A}
      → IsInOrder m s
      → IsInOrder s.after r
      → IsInOrder m
          (record { entered = s.entered ++ r.entered; left = s.left ++ r.left; after = r.after })
  joined {m} {s} {r} a b = record {
    in_order =
        append_assoc s.left r.left (reverse r.after.q)
        ∙ ap (λ l. s.left ++ l) b.in_order
        ∙ sym (append_assoc s.left (reverse s.after.q) r.entered)
        ∙ ap (λ l. l ++ r.entered) a.in_order
        ∙ append_assoc (reverse m.q) s.entered r.entered;
    bounded = omega (arith, b.bounded, a.same_bound);
    same_bound = b.same_bound ∙ a.same_bound;
  }

  -- Whatever calls the threads make of a queue whose bound is not 0, and in whatever order they come by
  -- the lock: what has left, followed by what is still there, is what was there followed by what has
  -- entered, oldest first, so that nothing is lost, comes twice or overtakes; and the queue stays
  -- within its bound.
  pub run-IsInOrder :
      (cs : List (Call A)) (m : MtQueue A)
      → 0 < m.max_count
      → length m.q ≤ m.max_count
      → (r : Moved A) × (run m cs ≡ some r) × IsInOrder m r
  run-IsInOrder [] m pos few =
      (record { entered = []; left = []; after = m }, unfold run in refl, kept m few)
  run-IsInOrder (c ∷ cs) m pos few =
      let (s, e) = step_total m c pos in
      let a = step-IsInOrder m c (back m.q) refl few e in
      let (r, f, b) =
        run-IsInOrder cs s.after (omega (arith, pos, a.same_bound))
          (omega (arith, a.bounded, a.same_bound)) in
      (
        record { entered = s.entered ++ r.entered; left = s.left ++ r.left; after = r.after },
        run_cons m c cs e f,
        joined a b,
      )
