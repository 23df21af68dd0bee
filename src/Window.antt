-- ===== src/Window.antt =====
-- The abstract view of the ring buffers: the bytes of a window that goes round a buffer.
use pc_env_vu.Base.{
  ℕ, zero, suc, ◌+◌, ◌-◌, ◌≤◌, ◌<◌, ◌≡◌, refl, ap, ap₂, ◌∙◌, List, [], ◌∷◌, ◌++◌, arith, ltb,
  if◌then◌else◌, length, take, drop, get_or, slice,
}

-- The place of position `i` in a ring of `cap` bytes, for `i` below `cap + cap`.
abbrev pub wrap : ℕ → ℕ → ℕ
wrap cap i = if ltb i cap then i else i - cap

-- The `n` bytes from position `h` on.
abbrev pub window : (ℕ → ℕ) → ℕ → ℕ → ℕ → List ℕ
window f cap h zero = []
window f cap h (suc n) = f (wrap cap h) ∷ window f cap (h + 1) n

pub length-window : (f : ℕ → ℕ) (cap h n : ℕ) → length (window f cap h n) ≡ n
length-window f cap h zero = refl
length-window f cap h (suc n) = ap suc (length-window f cap (h + 1) n)

pub window-append :
    (f : ℕ → ℕ) (cap h n m : ℕ)
    → window f cap h (n + m) ≡ window f cap h n ++ window f cap (h + n) m
window-append f cap h zero m = ground (arith)
window-append f cap h (suc n) m =
    ap {A = ℕ} (window f cap h) {y = suc (n + m)} (omega arith)
    ∙ ap (λ r. f (wrap cap h) ∷ r)
        (window-append f cap (h + 1) n m
          ∙ ap (λ i. window f cap (h + 1) n ++ window f cap i m) {x = h + 1 + n} {y = h + suc n}
              (omega arith))

pub window_ext :
    (f g : ℕ → ℕ) (cap h i n : ℕ)
    → ((k : ℕ) → k < n → f (wrap cap (h + k)) ≡ g (wrap cap (i + k)))
    → window f cap h n ≡ window g cap i n
window_ext f g cap h i zero e = refl
window_ext f g cap h i (suc n) e =
    ap₂ ◌∷◌ (ground (arith, e 0))
      (window_ext f g cap (h + 1) (i + 1) n λ k lt. ground (arith, e (suc k)))

-- Past the end the window goes on from the start.
pub window_turn :
    (f : ℕ → ℕ) (cap h n : ℕ) → h + n ≤ cap → window f cap (cap + h) n ≡ window f cap h n
window_turn f cap h n fits = window_ext f f cap (cap + h) h n λ k lt. ground arith

-- Inside the ring a window is a slice.
pub window-slice : (f : ℕ → ℕ) (cap h n : ℕ) → h + n ≤ cap → window f cap h n ≡ slice f h n
window-slice f cap h zero fits = refl
window-slice f cap h (suc n) fits =
    ap₂ ◌∷◌ (ground arith) (window-slice f cap (h + 1) n (omega arith))

pub take-window : (f : ℕ → ℕ) (cap h n m : ℕ) → n ≤ m → take n (window f cap h m) ≡ window f cap h n
take-window f cap h zero m le = refl
take-window f cap h (suc n) zero le = absurd (omega arith)
take-window f cap h (suc n) (suc m) le =
    ap (λ r. f (wrap cap h) ∷ r) (take-window f cap (h + 1) n m (omega arith))

pub drop-window :
    (f : ℕ → ℕ) (cap h n m : ℕ) → n ≤ m → drop n (window f cap h m) ≡ window f cap (h + n) (m - n)
drop-window f cap h zero m le = ground arith
drop-window f cap h (suc n) zero le = absurd (omega arith)
drop-window f cap h (suc n) (suc m) le = ground (arith, drop-window f cap (h + 1) n m)

-- A window that holds a list at each of its places is that list.
pub window_of_list :
    (f : ℕ → ℕ) (cap h : ℕ) (xs : List ℕ)
    → ((k : ℕ) → k < length xs → f (wrap cap (h + k)) ≡ get_or xs k 0)
    → window f cap h (length xs) ≡ xs
window_of_list f cap h [] e = refl
window_of_list f cap h (x ∷ xs) e =
    ap₂ ◌∷◌ (ground (arith, e 0))
      (window_of_list f cap (h + 1) xs λ k lt. ground (arith, e (suc k)))

-- A window is a slice of the ring unrolled.
pub window_as_slice : (f : ℕ → ℕ) (cap h n : ℕ) → window f cap h n ≡ slice (λ i. f (wrap cap i)) h n
window_as_slice f cap h zero = refl
window_as_slice f cap h (suc n) = ap (λ r. f (wrap cap h) ∷ r) (window_as_slice f cap (h + 1) n)
