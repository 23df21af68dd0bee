-- ===== src/Autom/Content.antt =====
-- What the buffer holds after writes.
use pc_env_vu.Base.{
  ℕ, zero, suc, ◌+◌, ◌≤◌, ◌<◌, ◌^◌, ◌≡◌, refl, ap, ap₂, ◌∙◌, true, false, Option, none, some, List,
  ◌∷◌, ◌++◌, arith, length, ltb, get_or, Block, update, spliced, slice, poke, memcpy, fill,
  add_size, slice_ext, slice-get_or, length-append, Bool-cases, inl, inr,
}
use pc_env_vu.Autom.{Autom, store, write}

-- `b'` is what `realloc` makes of the block `h` at `n` bytes: a block of that size that starts with
-- the bytes of the old one.
pub record IsGrown (h : Option Block) (n : ℕ) (b' : Block) : Type 0 where
  pub sized : b'.size ≡ n
  pub kept : {b : Block} (i : ℕ) → h ≡ some b → i < b.size → i < n → b'.byte i ≡ b.byte i

abbrev pub Reallocates : (Option Block → ℕ → Option Block) → Type 0
Reallocates realloc =
    (h : Option Block) (n : ℕ) → (b' : Block) × (realloc h n ≡ some b') × IsGrown h n b'

-- The first `cur_bytes` bytes are `xs`, in a block of at least `pre_bytes` bytes.
pub record Holds (a : Autom) (xs : List ℕ) : Type 0 where
  pub block : Block
  pub at_head : a.head ≡ some block
  pub counted : a.cur_bytes ≡ length xs
  pub fits : a.cur_bytes ≤ block.size
  pub room : a.pre_bytes ≤ block.size
  pub content : slice block.byte 0 (length xs) ≡ xs

pub slice-append : (f : ℕ → ℕ) (i n m : ℕ) → slice f i (n + m) ≡ slice f i n ++ slice f (i + n) m
slice-append f i zero m = ground arith
slice-append f i (suc n) m =
    ap {A = ℕ} (slice f i) {y = suc (n + m)} (omega arith)
    ∙ ap (λ r. f i ∷ r)
        (slice-append f (i + 1) n m
          ∙ ap (λ j. slice f (i + 1) n ++ slice f j m) {x = i + 1 + n} {y = i + suc n}
              (omega arith))

-- The bytes of the block after `ys` and an end mark at offset `n`.
stored : (ℕ → ℕ) → ℕ → List ℕ → ℕ → ℕ
stored f n ys = update (spliced f n (λ i. get_or ys i 0) 0 (length ys)) (n + length ys) 0

slice-stored :
    (f : ℕ → ℕ) (xs ys : List ℕ)
    → slice f 0 (length xs) ≡ xs
    → slice (stored f (length xs) ys) 0 (length (xs ++ ys)) ≡ xs ++ ys
unfolding stored
slice-stored f xs ys e =
    ap {A = ℕ} (slice (stored f (length xs) ys) 0) (length-append xs ys)
    ∙ slice-append (stored f (length xs) ys) 0 (length xs) (length ys)
    ∙ ap₂ ◌++◌ (slice_ext (stored f (length xs) ys) f 0 0 (length xs) (λ k lt. ground arith) ∙ e) (
        slice_ext (stored f (length xs) ys) (λ i. get_or ys i 0) (0 + length xs) 0 (length ys)
          (λ k lt. ground arith)
        ∙ slice-get_or ys)

-- A write that returns its number of bytes: the content, the end mark behind it, and the tail.
pub record Written (xs : List ℕ) (a : Autom) : Type 0 where
  pub holds : Holds a xs
  pub marked : (holds.block).byte (length xs) ≡ 0
  pub at_tail : a.tail ≡ some (length xs)

-- The buffer after `ys` is stored, and `b` its block.
after : Autom → Block → List ℕ → Autom
after a b ys = record a {
  head = some (record b { byte = stored b.byte a.cur_bytes ys });
  cur_bytes = a.cur_bytes + length ys;
  tail = some (a.cur_bytes + length ys);
}

store-after :
    (a : Autom) (b : Block) (ys : List ℕ)
    → a.head ≡ some b
    → a.cur_bytes + length ys + 1 < 2 ^ 63
    → a.cur_bytes + length ys + 1 ≤ b.size
    → store a (a.cur_bytes + length ys + 1) ys ≡ some (some (length ys), after a b ys)
unfolding store fill memcpy poke after stored
store-after a b ys e small room = ground arith

stored_end : (f : ℕ → ℕ) (n m : ℕ) (ys : List ℕ) → m ≡ n + length ys → stored f n ys m ≡ 0
unfolding stored
stored_end f n m ys e = ground arith

after-Written :
    (a : Autom) (xs ys : List ℕ) (h : Holds a xs)
    → a.cur_bytes + length ys + 1 ≤ h.block.size
    → Written (xs ++ ys) (after a h.block ys)
unfolding after
after-Written a xs ys h room = record {
  holds = record {
    block = record (h.block) { byte = stored h.block.byte a.cur_bytes ys };
    at_head = refl;
    counted = omega (arith, h.counted, length-append xs ys);
    fits = omega (arith, room);
    room = h.room;
    content =
        ap (λ n. slice (stored h.block.byte n ys) 0 (length (xs ++ ys))) h.counted
        ∙ slice-stored h.block.byte xs ys h.content;
  };
  marked =
      stored_end h.block.byte a.cur_bytes (length (xs ++ ys)) ys
        (omega (arith, h.counted, length-append xs ys));
  at_tail = ap some (omega (arith, h.counted, length-append xs ys));
}

-- The buffer before the store, where it grows.
grown-Holds :
    (a : Autom) (xs : List ℕ) (b : Block) (need : ℕ)
    → Holds a xs
    → IsGrown a.head need b
    → length xs < need
    → Holds (record a { pre_bytes = need; head = some b; tail = none }) xs
grown-Holds a xs b need h g lt = record {
  block = b;
  at_head = refl;
  counted = h.counted;
  fits = omega (arith, h.counted, g.sized);
  room = omega (arith, g.sized);
  content =
      slice_ext b.byte h.block.byte 0 0 (length xs)
        (λ k kl. g.kept (0 + k) h.at_head (omega (arith, h.counted, h.fits)) (omega arith))
      ∙ h.content;
}

need-eq : (n m : ℕ) → n + m + 1 < 2 ^ 63 → add_size (add_size n m) 1 ≡ n + m + 1
need-eq n m small = omega arith

stays :
    (a : Autom) {xs : List ℕ} (h : Holds a xs) (ys : List ℕ)
    → ltb a.pre_bytes (a.cur_bytes + length ys + 1) ≡ false
    → a.cur_bytes + length ys + 1 ≤ h.block.size
stays a h ys e = ground (arith, h.room)

module _ (realloc : Option Block → ℕ → Option Block) where
  pub write_stay :
      (a : Autom) (ys : List ℕ)
      → a.cur_bytes + length ys + 1 < 2 ^ 63
      → ltb a.pre_bytes (a.cur_bytes + length ys + 1) ≡ false
      → write realloc a ys ≡ store a (a.cur_bytes + length ys + 1) ys
  unfolding write
  write_stay a ys small e = rw (need-eq a.cur_bytes (length ys) small) (rw e refl)

  write_grow :
      (a : Autom) (ys : List ℕ) (b : Block)
      → a.cur_bytes + length ys + 1 < 2 ^ 63
      → ltb a.pre_bytes (a.cur_bytes + length ys + 1) ≡ true
      → realloc a.head (a.cur_bytes + length ys + 1) ≡ some b
      → write realloc a ys
        ≡ store
            (record a { pre_bytes = a.cur_bytes + length ys + 1; head = some b; tail = none })
            (a.cur_bytes + length ys + 1)
            ys
  unfolding write
  write_grow a ys b small e r = rw (need-eq a.cur_bytes (length ys) small) (
      rw e (
        rw r (
          ap (λ n. store (record a { pre_bytes = n; head = some b; tail = none }) n ys)
            (need-eq a.cur_bytes (length ys) small))))

  -- Where `realloc` gives a block, a write to a buffer that holds `xs` returns its number of bytes,
  -- stays inside the block, and leaves the buffer with `xs` and the new bytes behind them, an end
  -- mark behind those, and `tail` at the mark.
  pub write-Written :
      {a : Autom} {xs : List ℕ} (ys : List ℕ)
      → Reallocates realloc
      → Holds a xs
      → length xs + length ys + 1 < 2 ^ 63
      → (a' : Autom) × (write realloc a ys ≡ some (some (length ys), a')) × Written (xs ++ ys) a'
  unfolding grown-Holds
  write-Written {a} {xs} ys grows h small =
      let (b, r, g) = grows a.head (a.cur_bytes + length ys + 1) in
      elim (Bool-cases (ltb a.pre_bytes (a.cur_bytes + length ys + 1))) [
        | inl grow ↦
            let h' =
              grown-Holds a xs b (a.cur_bytes + length ys + 1) h g (omega (arith, h.counted)) in
            (
              after
                  (record a { pre_bytes = a.cur_bytes + length ys + 1; head = some b; tail = none })
                  b ys,
              write_grow a ys b (omega (arith, h.counted)) grow r
                  ∙ store-after _ b ys refl (omega (arith, h.counted)) (omega (arith, g.sized)),
              after-Written _ xs ys h' (omega (arith, g.sized)),
            )
        | inr stay ↦ (
          after a h.block ys,
          write_stay a ys (omega (arith, h.counted)) stay
              ∙ store-after a h.block ys h.at_head (omega (arith, h.counted)) (stays a h ys stay),
          after-Written a xs ys h (stays a h ys stay),
        )
      ]
