-- ===== src/Base/CString.antt =====
-- A buffer that bytes are read into, and the C string that it holds.
use Prim.Native.Nat.{ℕ, zero, suc, ◌<◌}
use mathlib.Core.Path.{◌≡◌}
use mathlib.Core.Option.{Option, none, some}
use mathlib.Core.List.{List, [], ◌∷◌}
use native.Mathlib.Omega.{arith}
use pc_env_vu.Base.Tests.{◌==◌, if◌then◌else◌, ◌>>=◌}
use pc_env_vu.Base.Lists.{length}
use pc_env_vu.Base.Texts.{Text}
use pc_env_vu.Base.Marks.{Lacks}

-- A C string in a buffer: the bytes before the first 0. `none` is a read past the buffer.
unfoldable pub c_string : List ℕ → Option Text
c_string [] = none
c_string (c ∷ cs) =
    let rest = c_string cs in if c == 0 then some [] else (rest >>= λ s. some (c ∷ s))

abbrev pub zeros : ℕ → List ℕ
zeros zero = []
zeros (suc n) = 0 ∷ zeros n

-- `buf`, cleared, once the bytes are read into it.
abbrev pub buffer : (left : ℕ) → List ℕ → List ℕ
buffer left [] = zeros left
buffer zero (c ∷ cs) = []
buffer (suc left) (c ∷ cs) = c ∷ buffer left cs

pub c_string-buffer :
    (left : ℕ) (bytes : List ℕ)
    → length bytes < left
    → Lacks 0 bytes
    → c_string (buffer left bytes) ≡ some bytes
unfolding c_string
c_string-buffer zero [] lt h = absurd (omega (arith, lt))
c_string-buffer (suc left) [] lt h = ground arith
c_string-buffer zero (c ∷ cs) lt h = absurd (omega (arith, lt))
c_string-buffer (suc left) (c ∷ cs) lt h = ground (arith, c_string-buffer left cs)
