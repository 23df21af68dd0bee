-- ===== src/RtPlayer/Flow.antt =====
-- Chunks are played in the order in which they were recorded.
use mathlib.Core.List.{Sublistᴰ, reverse}
use mathlib.Core.List.Sublistᴰ.{slnil, cons, cons-cons}
use pc_env_vu.Base.{
  ℕ, ◌≤◌, ◌<◌, ◌≡◌, refl, Option, some, none, List, [], ◌∷◌, ◌++◌, Bool, Text, length, arith, ◌==◌,
  Bool-cases, inl, inr, take, to_size,
}
use pc_env_vu.MtQueue
use pc_env_vu.MtQueue.{MtQueue, Outcome, returns, waits, undefined}
use pc_env_vu.MtQueue.Calls.{IsInOrder, list_of}
use pc_env_vu.MtQueue.Order.{joined, kept, emptied}
use pc_env_vu.MtQueue.Single.{
  cyc_write-IsInOrder, read_for-IsInOrder, cyc_write_defined, read_for_defined,
}
use pc_env_vu.AlsaCtrl.{Round, alsa_ctrl_read_stream}
use pc_env_vu.RtPlayer.{
  RtPlayer, Effect, silent, Step, rec_tests, rec_reads, starts, ply_tests, ply_plays, pauses,
  clears, resumes, record_chunk, read_chunk, play_chunk, is_at_work, step, run,
}

-- What has left the queue, in order; what is played is among it.
pub record Flow (p : RtPlayer) (e : Effect) : Type 0 where
  pub gone : List Text
  pub in_order :
      IsInOrder p.queue (record { entered = e.recorded; left = gone; after = e.after.queue })
  pub among : Sublistᴰ e.played gone

-- The queue of a player can take chunks.
pub record IsValid (p : RtPlayer) : Type 0 where
  pub room : 0 < p.queue.max_count
  pub bounded : length p.queue.q ≤ p.queue.max_count

abbrev Flows : RtPlayer → Option Effect → Type 0
Flows p o = (e : Effect) × (o ≡ some e) × Flow p e

nil_among : {A : Type 0} (xs : List A) → Sublistᴰ [] xs
nil_among [] = slnil
nil_among (x ∷ xs) = cons (nil_among xs)

self_among : {A : Type 0} (xs : List A) → Sublistᴰ xs xs
self_among [] = slnil
self_among (x ∷ xs) = cons-cons refl (self_among xs)

among_append :
    {A : Type 0} (xs : List A) {ys us vs : List A}
    → Sublistᴰ us xs
    → Sublistᴰ vs ys
    → Sublistᴰ (us ++ vs) (xs ++ ys)
among_append xs slnil t = t
among_append (x ∷ xs) (cons s) t = cons (among_append xs s t)
among_append (x ∷ xs) (cons-cons e s) t = cons-cons e (among_append xs s t)

-- A step that leaves the queue.
queue_kept :
    (p : RtPlayer) (p' : RtPlayer) → IsValid p → p'.queue ≡ p.queue → Flows p (some (silent p'))
queue_kept p p' v e =
    (silent p', refl, record { gone = []; in_order = rw e (kept p.queue v.bounded); among = slnil })

record_chunk-Flow : (p : RtPlayer) (chunk : Text) → IsValid p → Flows p (record_chunk p chunk)
unfolding record_chunk
record_chunk-Flow p chunk v = go (MtQueue.cyc_write p.queue chunk) refl
  where
    go :
        (o : Outcome Text (Option Text))
        → MtQueue.cyc_write p.queue chunk ≡ o
        → Flows p (record_chunk p chunk)
    go (returns old queue) e =
        rw (e, record_chunk)
          (
            _,
            refl,
            record {
              gone = list_of old;
              in_order = cyc_write-IsInOrder p.queue chunk v.bounded e;
              among = nil_among (list_of old);
            },
          )
    go waits e = rw (e, record_chunk) (queue_kept p p v refl)
    go undefined e = absurd (cyc_write_defined p.queue chunk v.room e)

play_chunk-Flow : (p : RtPlayer) (expired : Bool) → IsValid p → Flows p (play_chunk p expired)
unfolding play_chunk
play_chunk-Flow p expired v = go (MtQueue.read_for expired p.queue) refl
  where
    go :
        (o : Outcome Text (Option Text))
        → MtQueue.read_for expired p.queue ≡ o
        → Flows p (play_chunk p expired)
    go (returns none queue) e =
        rw (e, play_chunk)
          (
            _,
            refl,
            record {
              gone = [];
              in_order = read_for-IsInOrder p.queue expired v.bounded e;
              among = slnil;
            },
          )
    go (returns (some chunk) queue) e =
        rw (e, play_chunk)
          (
            _,
            refl,
            record {
              gone = chunk ∷ [];
              in_order = read_for-IsInOrder p.queue expired v.bounded e;
              among = self_among (chunk ∷ []);
            },
          )
    go waits e = rw (e, play_chunk) (queue_kept p p v refl)
    go undefined e = absurd (read_for_defined p.queue expired v.room e)

read_chunk-Flow :
    (p : RtPlayer) (rounds : List Round) (buf : Text)
    → IsValid p
    → Flows p (read_chunk p rounds buf)
unfolding read_chunk
read_chunk-Flow p rounds buf v = go (alsa_ctrl_read_stream p.rec p.chunk_bytes rounds) refl
  where
    go :
        (o : Option (Option ℕ))
        → alsa_ctrl_read_stream p.rec p.chunk_bytes rounds ≡ o
        → Flows p (read_chunk p rounds buf)
    go none e = rw (e, read_chunk) (queue_kept p p v refl)
    go (some none) e = rw (e, read_chunk) (queue_kept p _ v refl)
    go (some (some n)) e = elim (Bool-cases (to_size n == p.chunk_bytes)) [
      | inl whole ↦ rw (e, read_chunk) (rw whole (record_chunk-Flow p (take (to_size n) buf) v))
      | inr short ↦ rw (e, read_chunk) (rw short (queue_kept p _ v refl))
    ]

pub run_cons :
    (p : RtPlayer) (s : Step) (steps : List Step) {e r : Effect}
    → step p s ≡ some e
    → run e.after steps ≡ some r
    → run p (s ∷ steps)
      ≡ some (record {
        recorded = e.recorded ++ r.recorded;
        played = e.played ++ r.played;
        after = r.after;
      })
unfolding run
run_cons p s steps e f = rw (e, run) (rw f refl)

pub step-Flow : (p : RtPlayer) (s : Step) → IsValid p → Flows p (step p s)
unfolding step MtQueue.clear
step-Flow p rec_tests v = queue_kept p _ v refl
step-Flow p (rec_reads rounds buf) v = elim (Bool-cases (is_at_work p.recorder)) [
  | inl there ↦ rw there (read_chunk-Flow p rounds buf v)
  | inr elsewhere ↦ rw elsewhere (queue_kept p p v refl)
]
step-Flow p starts v = queue_kept p _ v refl
step-Flow p ply_tests v = queue_kept p _ v refl
step-Flow p (ply_plays expired) v = elim (Bool-cases (is_at_work p.player)) [
  | inl there ↦ rw there (play_chunk-Flow p expired v)
  | inr elsewhere ↦ rw elsewhere (queue_kept p p v refl)
]
step-Flow p pauses v = queue_kept p _ v refl
step-Flow p clears v = (
  _,
  refl,
  record {
    gone = reverse p.queue.q;
    in_order = emptied p.queue;
    among = nil_among (reverse p.queue.q);
  },
)
step-Flow p resumes v = queue_kept p _ v refl

pub Flow-IsValid : {p : RtPlayer} {e : Effect} → Flow p e → IsValid p → IsValid e.after
Flow-IsValid f v = record {
  room = omega (arith, v.room, f.in_order.same_bound);
  bounded = omega (arith, f.in_order.bounded, f.in_order.same_bound);
}

-- In whatever order the steps of the two threads and of the handler come, from a player whose queue has
-- a bound that is not 0 and is within it: the run is defined. What was waiting and what is recorded is,
-- in that order, what has left the queue followed by what waits behind the run; what is played is
-- among what has left it, in that order, so that no chunk is played twice or before an earlier one;
-- and the queue stays within its bound.
pub run-Flow :
    (steps : List Step) (p : RtPlayer)
    → IsValid p
    → (e : Effect) × (run p steps ≡ some e) × Flow p e
run-Flow [] p v = (
  silent p,
  unfold run in refl,
  record { gone = []; in_order = kept p.queue v.bounded; among = slnil },
)
run-Flow (s ∷ steps) p v =
    let (e, e_eq, f) = step-Flow p s v in
    let v' = Flow-IsValid f v in
    let (r, r_eq, g) = run-Flow steps e.after v' in
    (
      record {
        recorded = e.recorded ++ r.recorded;
        played = e.played ++ r.played;
        after = r.after;
      },
      run_cons p s steps e_eq r_eq,
      record {
        gone = f.gone ++ g.gone;
        in_order = joined f.in_order g.in_order;
        among = among_append f.gone f.among g.among;
      },
    )
