-- ===== src/FdFile/Copy.antt =====
-- What a copy has of its source.
use pc_env_vu.Base.{
  ◌<◌, ◌^◌, to_int, is_negative, int_kept, int_positive, take, take_whole, length-append, ◌≤◌, ◌≡◌,
  refl, sym, ap, ◌∙◌, Option, none, some, [], ◌∷◌, ◌++◌, Bool, true, false, arith, ltb, length,
  Text,
}
use pc_env_vu.FdOp.{Moved, un_write, un_read}
use pc_env_vu.FdOp.Front.{Honest, un_write-IsFront}
use pc_env_vu.FdOp.Whole.{un_read-IsFront}
use pc_env_vu.FdFile.{fd_read_file, fd_write_file, Calls, is_copied, fd_cpoy_file}

-- The calls that a copy which returns 0 came by: what was read, and what of it was written.
pub record IsMade (c : Calls) (src old out : Text) : Type 0 where
  pub got : Moved
  pub put : Moved
  pub read_eq : un_read (length src) src c.reads ≡ some got
  pub write_eq : un_write got.bytes c.writes ≡ some put
  pub enough : ltb put.count (length got.bytes) ≡ false
  pub out_eq : put.bytes ≡ out

-- What was read of a source below 2 ^ 31 bytes: its count is no negative `int`, and is that of the bytes
-- which are written then.
record IsKept (got : Moved) : Type 0 where
  positive : is_negative (to_int got.count) ≡ false
  all_kept : take (to_int got.count) got.bytes ≡ got.bytes

module _ (c : Calls) (src old : Text) (s : c.source ≡ some src) (t : c.target ≡ some old)
    (small : length src < 2 ^ 31) (hr : Honest (length src) c.reads) where
  kept_lem : (got : Moved) → un_read (length src) src c.reads ≡ some got → IsKept got
  kept_lem got r =
      let front = un_read-IsFront src c.reads hr r in
      let few : got.count < 2 ^ 31 =
        omega (
          arith,
          small,
          front.counted,
          length-append got.bytes front.rest,
          ap length front.front,
        ) in
      record {
        positive = int_positive got.count few;
        all_kept =
            ap (λ n. take n got.bytes) (int_kept got.count few)
            ∙ take_whole got.count got.bytes (omega (arith, front.counted));
      }

  made : {out : Text} → fd_cpoy_file c ≡ some (is_copied, some out) → IsMade c src old out
  unfolding fd_cpoy_file fd_read_file fd_write_file
  made {out} e = by_block c.is_allocated refl
    where
      by_test :
          (got put : Moved) (b : Bool)
          → c.is_allocated ≡ true
          → un_read (length src) src c.reads ≡ some got
          → IsKept got
          → un_write got.bytes c.writes ≡ some put
          → ltb put.count (length got.bytes) ≡ b
          → IsMade c src old out
      by_test got put true a r k w q =
          absurd (ground (arith, e, s, t, a, r, k.positive, k.all_kept, w, q))
      by_test got put false a r k w q = record {
        got = got;
        put = put;
        read_eq = r;
        write_eq = w;
        enough = q;
        out_eq = ground (arith, e, s, t, a, r, k.positive, k.all_kept, w, q);
      }

      by_write :
          (got : Moved) (o : Option Moved)
          → c.is_allocated ≡ true
          → un_read (length src) src c.reads ≡ some got
          → IsKept got
          → un_write got.bytes c.writes ≡ o
          → IsMade c src old out
      by_write got none a r k w = absurd (ground (arith, e, s, t, a, r, k.positive, k.all_kept, w))
      by_write got (some put) a r k w =
          by_test got put (ltb put.count (length got.bytes)) a r k w refl

      by_read :
          (o : Option Moved)
          → c.is_allocated ≡ true
          → un_read (length src) src c.reads ≡ o
          → IsMade c src old out
      by_read none a r = absurd (ground (arith, e, s, a, r))
      by_read (some got) a r = by_write got (un_write got.bytes c.writes) a r (kept_lem got r) refl

      by_block : (b : Bool) → c.is_allocated ≡ b → IsMade c src old out
      by_block false a = absurd (ground (arith, e, s, a))
      by_block true a = by_read (un_read (length src) src c.reads) a refl

whole_front : (xs out rest : Text) → out ++ rest ≡ xs → length xs ≤ length out → out ≡ xs
whole_front [] [] rest e le = refl
whole_front [] (y ∷ out) rest e le = absurd (ground (arith, e))
whole_front (x ∷ xs) [] rest e le = absurd (omega (arith, le))
whole_front (x ∷ xs) (y ∷ out) rest e le = ground (arith, e, whole_front xs out rest, le)

-- Where the source has fewer than 2^31 bytes and no call moves more than it is offered, a copy
-- that returns 0 leaves in the target what un_read has taken from the source, all of it: a front
-- part of the source, as long as the count of that read.
pub fd_cpoy_file-front :
    (c : Calls) (src old out : Text)
    → c.source ≡ some src
    → c.target ≡ some old
    → length src < 2 ^ 31
    → Honest (length src) c.reads
    → ((got : Moved)
        → un_read (length src) src c.reads ≡ some got
        → Honest (length got.bytes) c.writes)
    → fd_cpoy_file c ≡ some (is_copied, some out)
    → (got : Moved) × (rest : Text) × (un_read (length src) src c.reads ≡ some got)
      × (got.count ≡ length out)
      × (out ++ rest ≡ src)
fd_cpoy_file-front c src old out s t small hr hw e =
    let made_of = made c src old s t small hr e in
    let front = un_read-IsFront src c.reads hr made_of.read_eq in
    let sent =
      un_write-IsFront made_of.got.bytes c.writes (hw made_of.got made_of.read_eq)
        made_of.write_eq in
    let all : length made_of.got.bytes ≤ length made_of.put.bytes =
      ground (arith, made_of.enough, sent.counted) in
    let same : out ≡ made_of.got.bytes =
      sym made_of.out_eq
      ∙ whole_front made_of.got.bytes made_of.put.bytes sent.rest sent.front all in
    let long : length out ≡ length made_of.got.bytes = ap length same in
    (
      made_of.got,
      front.rest,
      made_of.read_eq,
      omega (arith, front.counted, long),
      ap (λ l. l ++ front.rest) same ∙ front.front,
    )
