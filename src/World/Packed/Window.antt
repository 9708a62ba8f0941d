-- ===== src/World/Packed/Window.antt =====
-- A list of 64-bit words as one number, and the reading of some of its bits.
use pico_server_rs.Base.{
  unwrap_or, ℕ, zero, suc, ◌+◌, ◌*◌, ◌/◌, ◌%◌, ◌^◌, ◌<◌, ◌≡◌, sym, ap, ◌∙◌, List, [], ◌∷◌, some,
  get_elem?, All, arith,
}
use pico_server_rs.Base.Words.{IsU64}
use pico_server_rs.Base.Bits.{pow_two_pos, pow_add}
use native.Mathlib.Nat.{
  add-mul-div_left, add-mul-mod_self_left, div-div-eq-div-mul, mul_assoc, div-one, div-eq_of_lt,
}

-- The number whose digits are the words, the lowest first.
unfoldable pub number_of : List ℕ → ℕ
number_of [] = 0
number_of (w ∷ ws) = w + 2 ^ 64 * number_of ws

-- A shift to the right splits at a bit above it.
pub shift-sum : (s d a b : ℕ) → (a + 2 ^ (s + d) * b) / 2 ^ s ≡ a / 2 ^ s + 2 ^ d * b
shift-sum s d a b =
    rw (pow_add s d, mul_assoc (2 ^ s) (2 ^ d) b) (add-mul-div_left a (2 ^ d * b) (pow_two_pos s))

-- The lowest k bits do not depend on what stands above them.
pub low-sum : (k e a b : ℕ) → (a + 2 ^ (k + e) * b) % 2 ^ k ≡ a % 2 ^ k
low-sum k e a b =
    rw (pow_add k e, mul_assoc (2 ^ k) (2 ^ e) b) (add-mul-mod_self_left a (2 ^ k) (2 ^ e * b))

-- What stands in the words from word q on: the word, the one behind it, and the rest.
abbrev pub Window : List ℕ → ℕ → ℕ → Type 0
Window words q low =
    (t : ℕ) × (number_of words / 2 ^ (64 * q)
      ≡ low + 2 ^ 64 * (unwrap_or 0 (get_elem? words (suc q)) + 2 ^ 64 * t))

-- The digits of a number of base 2 ^ k above the lowest one.
pub drop_digit : (k w n q : ℕ) → w < 2 ^ k → (w + 2 ^ k * n) / 2 ^ (k * suc q) ≡ n / 2 ^ (k * q)
drop_digit k w n q h =
    let power : 2 ^ (k * suc q) ≡ 2 ^ k * 2 ^ (k * q) =
      ap (λ (j : ℕ). 2 ^ j) (grind arith) ∙ pow_add k (k * q) in
    let first : (w + 2 ^ k * n) / 2 ^ k ≡ n =
      add-mul-div_left w n (pow_two_pos k) ∙ ap (λ (j : ℕ). j + n) (div-eq_of_lt h) ∙ omega arith in
    rw power (sym (div-div-eq-div-mul (w + 2 ^ k * n) (2 ^ k) (2 ^ (k * q))))
    ∙ ap (λ (j : ℕ). j / 2 ^ (k * q)) first

pub Window-of :
    (words : List ℕ) (q low : ℕ)
    → All IsU64 words
    → get_elem? words q ≡ some low
    → Window words q low
unfolding number_of
Window-of [] q low hs e = cc
Window-of (w ∷ []) zero low hs e = (0, div-one _ ∙ omega (arith, ap (λ o. unwrap_or 0 o) e))
Window-of (w ∷ v ∷ ws) zero low hs e =
    (number_of ws, div-one _ ∙ omega (arith, ap (λ o. unwrap_or 0 o) e))
Window-of (w ∷ ws) (suc q) low (h, hs) e =
    let (t, eq) = Window-of ws q low hs e in (t, drop_digit 64 w (number_of ws) q h ∙ eq)
