-- ===== src/Base/Bits.antt =====
-- Masks and disjoint unions of bits as arithmetic, at every width.
use Prim.Native.Nat.{
  ℕ, zero, suc, ◌+◌, ◌-◌, ◌*◌, ◌/◌, ◌%◌, ◌^◌, ◌≤◌, ◌<◌, min, max, bit_and, bit_or, digits,
  bit_and-bitwise, bit_or-bitwise,
}
use mathlib.Core.Path.{◌≡◌, refl, ap, sym, ◌∙◌}
use native.Mathlib.Omega.{arith}
use native.Mathlib.Nat.{
  pow-suc, div-add-mod, mul-add-mod_self_left, mod-eq_of_lt, mod-lt, div-div-eq-div-mul, add-zero,
  add-suc, add-mul-div_right, add-mul-mod_self_right, div-eq_of_lt,
}

-- The operations on digits run on a count that only has to be large enough.
module _ (z : ℕ → ℕ) (f : ℕ → ℕ → ℕ) where
  rounds_enough : (n m a b : ℕ) → a ≤ n → a ≤ m → digits z f n a b ≡ digits z f m a b
  rounds_enough zero zero a b p q = refl
  rounds_enough zero (suc m) zero b p q = refl
  rounds_enough zero (suc m) (suc a) b p q = absurd (omega arith)
  rounds_enough (suc n) zero zero b p q = refl
  rounds_enough (suc n) zero (suc a) b p q = absurd (omega arith)
  rounds_enough (suc n) (suc m) zero b p q = refl
  rounds_enough (suc n) (suc m) (suc a) b p q =
      rw (rounds_enough n m (suc a / 2) (b / 2) (omega arith) (omega arith))

pub bit_and_zero_left : (b : ℕ) → bit_and 0 b ≡ 0
bit_and_zero_left b = bit_and-bitwise 0 b

pub bit_or_zero_left : (b : ℕ) → bit_or 0 b ≡ b
bit_or_zero_left b = bit_or-bitwise 0 b

-- The lowest digit of the result comes from the lowest digits.
bit_and_digit : (a b : ℕ) → bit_and a b ≡ bit_and (a / 2) (b / 2) * 2 + min (a % 2) (b % 2)
bit_and_digit zero b = omega (arith, bit_and_zero_left b, bit_and_zero_left (b / 2))
bit_and_digit (suc a) b = omega (
  arith,
  bit_and-bitwise (suc a) b,
  bit_and-bitwise (suc a / 2) (b / 2),
  rounds_enough (λ b. zero) min a (suc a / 2) (suc a / 2) (b / 2) (omega arith) (omega arith),
)

bit_or_digit : (a b : ℕ) → bit_or a b ≡ bit_or (a / 2) (b / 2) * 2 + max (a % 2) (b % 2)
bit_or_digit zero b = omega (arith, bit_or_zero_left b, bit_or_zero_left (b / 2))
bit_or_digit (suc a) b = omega (
  arith,
  bit_or-bitwise (suc a) b,
  bit_or-bitwise (suc a / 2) (b / 2),
  rounds_enough (λ b. b) max a (suc a / 2) (suc a / 2) (b / 2) (omega arith) (omega arith),
)

bit_and_zero_below : (n a : ℕ) → a ≤ n → bit_and a 0 ≡ 0
bit_and_zero_below n zero h = bit_and_zero_left 0
bit_and_zero_below zero (suc a) h = absurd (omega arith)
bit_and_zero_below (suc n) (suc a) h =
    omega (arith, bit_and_digit (suc a) 0, bit_and_zero_below n (suc a / 2) (omega arith))

pub bit_and_zero_right : (a : ℕ) → bit_and a 0 ≡ 0
bit_and_zero_right a = bit_and_zero_below a a (omega arith)

pub pow_two_pos : (k : ℕ) → 0 < 2 ^ k
pow_two_pos zero = omega arith
pow_two_pos (suc k) = omega (arith, pow_two_pos k, pow-suc 2 k)

-- A remainder by a product, from its last digit up.
pub mod-mul : (p m a : ℕ) → 0 < p → 0 < m → a % (m * p) ≡ m * (a / m % p) + a % m
mod-mul p m a hp hm =
    let q = a / m / p in
    let r = m * (a / m % p) + a % m in
    let whole : m * p * q + r ≡ a =
      grind (arith, div-add-mod a m, ap (λ (t : ℕ). m * t) (div-add-mod (a / m) p)) in
    let small : r < m * p = grind (arith, mod-lt (a / m) hp, mod-lt a hm) in
    ap (λ (t : ℕ). t % (m * p)) (sym whole) ∙ mul-add-mod_self_left (m * p) q r ∙ mod-eq_of_lt small

-- Keeping the lowest k bits is the remainder by 2 ^ k.
pub low_bits : (k a : ℕ) → bit_and a (2 ^ k - 1) ≡ a % 2 ^ k
low_bits zero a = omega (arith, bit_and_zero_right a)
low_bits (suc k) a =
    let two : 2 ^ suc k ≡ 2 * 2 ^ k = omega (arith, pow-suc 2 k) in
    let half : (2 ^ suc k - 1) / 2 ≡ 2 ^ k - 1 = omega (arith, two, pow_two_pos k) in
    let odd : (2 ^ suc k - 1) % 2 ≡ 1 = omega (arith, two, pow_two_pos k) in
    bit_and_digit a (2 ^ suc k - 1)
    ∙ rw (half, odd, low_bits k (a / 2), two, mod-mul (2 ^ k) 2 a (pow_two_pos k) (omega arith))
        (omega arith)

-- Bits that do not overlap are added.
pub bit_or_disjoint : (k x y : ℕ) → x < 2 ^ k → bit_or x (y * 2 ^ k) ≡ x + y * 2 ^ k
bit_or_disjoint zero zero y h = omega (arith, bit_or_zero_left (y * 1))
bit_or_disjoint zero (suc x) y h = absurd (omega arith)
bit_or_disjoint (suc k) x y h =
    let two : 2 ^ suc k ≡ 2 * 2 ^ k = omega (arith, pow-suc 2 k) in
    let shifted : y * 2 ^ suc k ≡ 2 * (y * 2 ^ k) = rw two (omega arith) in
    let half : (y * 2 ^ suc k) / 2 ≡ y * 2 ^ k = omega (arith, shifted) in
    let even : (y * 2 ^ suc k) % 2 ≡ 0 = omega (arith, shifted) in
    bit_or_digit x (y * 2 ^ suc k)
    ∙ rw (half, even, bit_or_disjoint k (x / 2) y (omega (arith, two))) (omega (arith, shifted))

-- Keeping bit k alone.
pub single_bit : (k a : ℕ) → bit_and a (2 ^ k) ≡ a / 2 ^ k % 2 * 2 ^ k
single_bit zero a = omega (arith, low_bits 1 a)
single_bit (suc k) a =
    let two : 2 ^ suc k ≡ 2 * 2 ^ k = omega (arith, pow-suc 2 k) in
    let half : 2 ^ suc k / 2 ≡ 2 ^ k = omega (arith, two) in
    let even : 2 ^ suc k % 2 ≡ 0 = omega (arith, two) in
    bit_and_digit a (2 ^ suc k)
    ∙ rw (half, even, single_bit k (a / 2), two, div-div-eq-div-mul a 2 (2 ^ k)) (omega arith)

-- The two masks of a group of seven bits.
pub low_seven : (a : ℕ) → bit_and a 0x7f ≡ a % 128
low_seven a = low_bits 7 a

pub top_bit : (a : ℕ) → a < 256 → bit_and a 0x80 ≡ a / 128 * 128
top_bit a h = omega (arith, single_bit 7 a)

pub set_top_bit : (a : ℕ) → a < 128 → bit_or a 0x80 ≡ a + 128
set_top_bit a h = bit_or_disjoint 7 a 1 h

pub pow_add : (s d : ℕ) → 2 ^ (s + d) ≡ 2 ^ s * 2 ^ d
pow_add s zero = rw add-zero (omega arith)
pow_add s (suc d) = rw add-suc (
    omega (
      arith,
      pow-suc 2 (s + d),
      ap (λ (t : ℕ). t * 2) (pow_add s d),
      ap (λ (t : ℕ). 2 ^ s * t) (pow-suc 2 d),
    ))

-- The word of 2 ^ d groups above bit s.
pub word_split :
    (s d value g : ℕ)
    → value < 2 ^ s
    → (value + g * 2 ^ s) % (2 ^ s * 2 ^ d) ≡ value + g % 2 ^ d * 2 ^ s
word_split s d value g h =
    let S = 2 ^ s in
    let high : (value + g * S) / S ≡ g =
      add-mul-div_right value g (pow_two_pos s)
      ∙ ap (λ (t : ℕ). t + g) (div-eq_of_lt h)
      ∙ omega arith in
    let low : (value + g * S) % S ≡ value = add-mul-mod_self_right value g S ∙ mod-eq_of_lt h in
    mod-mul (2 ^ d) S (value + g * S) (pow_two_pos d) (pow_two_pos s) ∙ rw (high, low) (omega arith)
