-- ===== src/Csrb/Aligned.antt =====
-- csrb.h asks for a capacity that is a common multiple of the units of both sides. With it, no
-- read runs over the end, and the ring is a queue to its clients.
use pc_env_vu.Base.{
  ℕ, ◌+◌, ◌*◌, ◌≤◌, ◌<◌, ◌≡◌, refl, ◌∙◌, inl, inr, none, some, List, [], arith, ltb, length,
  Bool-cases,
}
use pc_env_vu.Window.{wrap, length-window}
use pc_env_vu.Queue
use pc_env_vu.Queue.{Op, Reply, All}
use pc_env_vu.Queue.Impl.{Follows, Impl, run, run-queue}
use mathlib.Core.Path.{subst}
use pc_env_vu.Csrb.{Ring}
use pc_env_vu.Csrb.Inv.{IsValid}
use pc_env_vu.Csrb.Client.{put, get, contents}
use pc_env_vu.Csrb.Refine.{put-append, put-full, get-take, get-empty}

-- A client's call, and what it hands over. A refused call leaves the ring as it was.
unfoldable pub step : Ring → Op → Reply × Ring
step r (Op.put xs) = elim (put r xs) [ none ↦ (none, r) | some r' ↦ (some [], r') ]
step r (Op.get n) = elim (get r n) [ none ↦ (none, r) | some (xs, r') ↦ (some xs, r') ]

-- The capacity is `rounds` units of the reader, and the read index is at the start of one.
pub record IsAligned (unit : ℕ) (r : Ring) : Type 0 where
  pub rounds : ℕ
  pub place : ℕ
  pub whole : r.capacity ≡ unit * rounds
  pub start : r.ri ≡ unit * place

-- Every read is of one unit; writes are of any size.
abbrev pub ReadsBy : ℕ → Op → Type 0
ReadsBy unit (Op.put xs) = Unit
ReadsBy unit (Op.get n) = n ≡ unit

lt_of_mul : (u k m : ℕ) → u * k < u * m → k < m
lt_of_mul u k m h = grind arith

unit_fits : (u k m : ℕ) → u * k < u * m → u * k + u ≤ u * m
unit_fits u k m h = let lt = lt_of_mul u k m h in grind arith

read_ends : {unit : ℕ} {r : Ring} → IsAligned unit r → IsValid r → r.ri + unit ≤ r.capacity
read_ends {unit} {r} a v =
    omega (arith, unit_fits unit a.place a.rounds (omega (arith, a.whole, a.start, v.ri_in)))

next_place :
    {unit : ℕ} {r r' : Ring}
    → IsAligned unit r
    → IsValid r
    → r'.capacity ≡ r.capacity
    → r'.ri ≡ wrap r.capacity (r.ri + unit)
    → IsAligned unit r'
next_place {unit} {r} a v same moved = elim (Bool-cases (ltb (r.ri + unit) r.capacity)) [
  | inl inside ↦ record {
    rounds = a.rounds;
    place = a.place + 1;
    whole = same ∙ a.whole;
    start = ground (arith, a.start);
  }
  | inr past ↦ record {
    rounds = a.rounds;
    place = 0;
    whole = same ∙ a.whole;
    start = ground (arith, read_ends a v);
  }
]

abbrev pub IsReady : ℕ → ℕ → Ring → Type 0
IsReady unit capacity r = IsAligned unit r × IsValid r × (r.capacity ≡ capacity)

abbrev FollowsBy : ℕ → Ring → Op → Type 0
FollowsBy unit r op = Follows r.capacity step contents (IsReady unit r.capacity) r op

put_follows :
    {unit : ℕ} {r : Ring} (xs : List ℕ)
    → IsAligned unit r
    → IsValid r
    → FollowsBy unit r (Op.put xs)
put_follows {unit} {r} xs a v =
    elim (Bool-cases (ltb r.capacity (length (contents r) + length xs))) [
      | inl full ↦ record {
        next = r;
        returns =
            unfold step Queue.step in
            ground
              (arith, put-full r xs, length-window r.buf.byte r.capacity r.ri r.contex, v.counted);
        holds = unfold Queue.step in ground arith;
        valid = (a, v, refl);
      }
      | inr fits ↦
          let room : length xs ≤ r.empty =
            ground (arith, length-window r.buf.byte r.capacity r.ri r.contex, v.counted) in
          let (r', stored, valid, bytes, same, place) = put-append xs v room in
          record {
            next = r';
            returns = unfold step Queue.step in ground arith;
            holds = unfold Queue.step in ground arith;
            valid = (
              record {
                rounds = a.rounds;
                place = a.place;
                whole = same ∙ a.whole;
                start = place ∙ a.start;
              },
              valid,
              same,
            );
          }
    ]

get_follows : {unit : ℕ} {r : Ring} → IsAligned unit r → IsValid r → FollowsBy unit r (Op.get unit)
get_follows {unit} {r} a v = elim (Bool-cases (ltb (length (contents r)) unit)) [
  | inl short ↦ record {
    next = r;
    returns =
        unfold step Queue.step in
        ground (arith, get-empty r unit, length-window r.buf.byte r.capacity r.ri r.contex);
    holds = unfold Queue.step in ground arith;
    valid = (a, v, refl);
  }
  | inr held ↦
      let enough : unit ≤ r.contex =
        ground (arith, length-window r.buf.byte r.capacity r.ri r.contex) in
      let (r', taken, valid, bytes, same, place) = get-take unit v enough (read_ends a v) in
      record {
        next = r';
        returns = unfold step Queue.step in ground arith;
        holds = unfold Queue.step in ground arith;
        valid = (next_place a v same place, valid, same);
      }
]

at_capacity :
    {unit c : ℕ} {r : Ring} {op : Op}
    → r.capacity ≡ c
    → FollowsBy unit r op
    → Follows c step contents (IsReady unit c) r op
at_capacity {unit} {r = r} {op = op} e f =
    subst (λ c. Follows c step contents (IsReady unit c) r op) e f

pub follows :
    (unit capacity : ℕ) (r : Ring) (op : Op)
    → IsReady unit capacity r
    → ReadsBy unit op
    → Follows capacity step contents (IsReady unit capacity) r op
follows unit capacity r (Op.put xs) (a, v, e) reads = at_capacity e (put_follows xs a v)
follows unit capacity r (Op.get n) (a, v, e) reads = rw reads (at_capacity e (get_follows a v))

abbrev pub csrb_impl : ℕ → ℕ → Impl
csrb_impl unit capacity = record {
  State = Ring;
  capacity = capacity;
  step = step;
  contents = contents;
  Valid = IsReady unit capacity;
  Allowed = ReadsBy unit;
  follows = follows unit capacity;
}

-- A valid ring whose capacity is a multiple of a unit, with its read index at the start of one,
-- answers any sequence of whole writes of any size and whole reads of one unit as the bounded
-- queue of its bytes does. A whole write or read of csrb is a query, the move of the bytes, and a
-- sync of the size that the query asked for; where the query is refused, nothing is moved or
-- synced.
pub aligned-queue :
    (unit : ℕ) (ops : List Op) (r : Ring)
    → IsAligned unit r
    → IsValid r
    → All (ReadsBy unit) ops
    → run step r ops ≡ Queue.run r.capacity (contents r) ops
aligned-queue unit ops r a v reads = run-queue (csrb_impl unit r.capacity) ops r (a, v, refl) reads
