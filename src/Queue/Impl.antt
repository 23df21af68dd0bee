-- ===== src/Queue/Impl.antt =====
-- The contract between a ring buffer and its clients: on the calls that it allows, it answers as
-- the queue of its bytes does.
use pc_env_vu.Base.{ℕ, ◌≡◌, refl, List, [], ◌∷◌}
use pc_env_vu.Queue
use pc_env_vu.Queue.{Op, Reply, All}

-- What a call does beside the queue: the same reply, the same bytes left, and a valid state.
pub record Follows {S : Type 0} (capacity : ℕ) (step : S → Op → Reply × S) (contents : S → List ℕ)
    (Valid : S → Type 0) (s : S) (op : Op) : Type 0 where
  pub next : S
  pub returns : step s op ≡ ((Queue.step capacity (contents s) op).0, next)
  pub holds : contents next ≡ (Queue.step capacity (contents s) op).1
  pub valid : Valid next

pub record Impl : Type 1 where
  pub State : Type 0
  pub capacity : ℕ
  pub step : State → Op → Reply × State
  pub contents : State → List ℕ
  pub Valid : State → Type 0
  pub Allowed : Op → Type 0
  pub follows :
      (s : State) (op : Op) → Valid s → Allowed op → Follows capacity step contents Valid s op

module _ {S : Type 0} (step : S → Op → Reply × S) where
  -- A client's calls in order, with what each hands over.
  unfoldable pub run : S → List Op → List Reply
  run s [] = []
  run s (op ∷ ops) = let (out, s') = step s op in out ∷ run s' ops

  run-cons :
      (s : S) (op : Op) (ops : List Op) → run s (op ∷ ops) ≡ (step s op).0 ∷ run (step s op).1 ops
  unfolding run
  run-cons s op ops = refl

-- No sequence of allowed calls tells an implementation from the queue of its bytes.
pub run-queue :
    (i : Impl) (ops : List Op) (s : i.State)
    → i.Valid s
    → All i.Allowed ops
    → run i.step s ops ≡ Queue.run i.capacity (i.contents s) ops
run-queue i [] s v ok = unfold run Queue.run in refl
run-queue i (op ∷ ops) s v ok =
    let f = i.follows s op v ok.0 in
    rw (
      run-cons i.step s op ops,
      Queue.run-cons,
      f.returns,
      run-queue i ops f.next f.valid ok.1,
      f.holds,
    )
