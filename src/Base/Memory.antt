-- ===== src/Base/Memory.antt =====
-- A block of memory: its bytes, and accesses that fault outside it.
use Prim.Native.Nat.{ℕ, zero, suc, ◌+◌, ◌-◌, ◌≤◌, ◌<◌}
use mathlib.Core.Logic.{◌⊎◌}
use mathlib.Core.Path.{fun_ext, ◌≡◌, refl, ap, ap₂, ◌∙◌}
use mathlib.Core.Bool.{◌&&◌}
use mathlib.Core.Option.{Option, none, some}
use mathlib.Core.List.{List, [], ◌∷◌}
use native.Mathlib.Omega.{arith}
use pc_env_vu.Base.Tests.{◌>>=◌, ltb, leb, ◌==◌, if◌then◌else◌}
use pc_env_vu.Base.Lists.{length, get_or}

-- `size` bytes, of which `byte i` is the one at offset `i`.
pub record Block : Type 0 where
  pub size : ℕ
  pub byte : ℕ → ℕ

abbrev pub update : (ℕ → ℕ) → ℕ → ℕ → ℕ → ℕ
update f i v j = if j == i then v else f j

-- `b[i]`
unfoldable pub peek : Block → ℕ → Option ℕ
peek b i = if ltb i b.size then some (b.byte i) else none

-- `b[i] = v`
unfoldable pub poke : Block → ℕ → ℕ → Option Block
poke b i v = if ltb i b.size then some (record b { byte = update b.byte i v }) else none

-- `memcpy(dst + to, src + from, n)` between two blocks
abbrev pub spliced : (ℕ → ℕ) → ℕ → (ℕ → ℕ) → ℕ → ℕ → ℕ → ℕ
spliced dst to src from n j = if leb to j && ltb j (to + n) then src (from + (j - to)) else dst j

unfoldable pub memcpy : Block → ℕ → Block → ℕ → ℕ → Option Block
memcpy dst to src from n =
    if leb (to + n) dst.size && leb (from + n) src.size
    then some (record dst { byte = spliced dst.byte to src.byte from n })
    else none

-- A list as the bytes of a block.
abbrev pub of_list : List ℕ → Block
of_list xs = record { size = length xs; byte = λ i. get_or xs i 0 }

-- `n` bytes from offset `i` on
abbrev pub slice : (ℕ → ℕ) → ℕ → ℕ → List ℕ
slice f i zero = []
slice f i (suc n) = f i ∷ slice f (i + 1) n

-- What a caller reads from a pointer into the block.
unfoldable pub fetch : Block → ℕ → ℕ → Option (List ℕ)
fetch b i n = if leb (i + n) b.size then some (slice b.byte i n) else none

-- What a caller stores through a pointer into the block.
unfoldable pub fill : Block → ℕ → List ℕ → Option Block
unfolding memcpy
fill b i xs = memcpy b i (of_list xs) 0 (length xs)

pub peek-some : (b : Block) (i : ℕ) → i < b.size → peek b i ≡ some (b.byte i)
unfolding peek
peek-some b i h = ground arith

pub poke-some :
    (b : Block) (i v : ℕ) → i < b.size → poke b i v ≡ some (record b { byte = update b.byte i v })
unfolding poke
poke-some b i v h = ground arith

-- `for (; n > 0; n--) b[dst++] = b[src++];`
unfoldable pub copy_bytes : ℕ → ℕ → ℕ → Block → Option Block
unfolding peek poke
copy_bytes zero src dst b = some b
copy_bytes (suc n) src dst b =
    peek b src >>= λ v. poke b dst v >>= λ b'. copy_bytes n (src + 1) (dst + 1) b'

copy_step :
    (f : ℕ → ℕ) (src dst n j : ℕ)
    → (src + suc n ≤ dst) ⊎ (dst + suc n ≤ src)
    → spliced (update f dst (f src)) (dst + 1) (update f dst (f src)) (src + 1) n j
      ≡ spliced f dst f src (suc n) j
copy_step f src dst n j h = ground arith

-- The loop is a `memcpy` when the two ranges are apart.
pub copy_bytes_lem :
    (n src dst : ℕ) (b : Block)
    → src + n ≤ b.size
    → dst + n ≤ b.size
    → (src + n ≤ dst) ⊎ (dst + n ≤ src)
    → copy_bytes n src dst b ≡ some (record b { byte = spliced b.byte dst b.byte src n })
unfolding copy_bytes
copy_bytes_lem zero src dst b hs hd apart =
    ap some (ap (λ f. record b { byte = f }) (fun_ext λ j. ground arith))
copy_bytes_lem (suc n) src dst b hs hd apart = rw (peek-some b src (omega arith)) (
    rw (poke-some b dst (b.byte src) (omega arith)) (
      copy_bytes_lem n (src + 1) (dst + 1) (record b { byte = update b.byte dst (b.byte src) })
        (omega arith) (omega arith) (omega arith)
      ∙ ap some
          (ap (λ f. record b { byte = f }) (fun_ext λ j. copy_step b.byte src dst n j apart))))

pub length-slice : (f : ℕ → ℕ) (i n : ℕ) → length (slice f i n) ≡ n
length-slice f i zero = refl
length-slice f i (suc n) = ap suc (length-slice f (i + 1) n)

pub slice_ext :
    (f g : ℕ → ℕ) (i j n : ℕ)
    → ((k : ℕ) → k < n → f (i + k) ≡ g (j + k))
    → slice f i n ≡ slice g j n
slice_ext f g i j zero h = refl
slice_ext f g i j (suc n) h =
    ap₂ ◌∷◌ (ap f {y = i + 0} (omega arith) ∙ h 0 (omega arith) ∙ ap g {x = j + 0} (omega arith)) (
      slice_ext f g (i + 1) (j + 1) n
        λ k lt. ap f (omega arith) ∙ h (suc k) (omega arith) ∙ ap g (omega arith))

-- The slice of a list's bytes is the list.
pub slice-get_or : (xs : List ℕ) → slice (λ k. get_or xs k 0) 0 (length xs) ≡ xs
slice-get_or [] = refl
slice-get_or (x ∷ xs) =
    ap (λ r. x ∷ r)
      (slice_ext (λ k. get_or (x ∷ xs) k 0) (λ k. get_or xs k 0) 1 0 (length xs) shifted
        ∙ slice-get_or xs)
  where
    shifted : (k : ℕ) → k < length xs → get_or (x ∷ xs) (1 + k) 0 ≡ get_or xs (0 + k) 0
    shifted k lt = ap (λ i. get_or (x ∷ xs) i 0) {x = 1 + k} {y = suc (0 + k)} (omega arith)
