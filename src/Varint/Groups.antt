-- ===== src/Varint/Groups.antt =====
-- An independent description of the format: the digits of a number to the base 128.
use pico_server_rs.Base.{
  ℕ, zero, suc, ◌+◌, ◌/◌, ◌%◌, ◌^◌, ◌≤◌, ◌<◌, ◌≡◌, refl, ◌⊎◌, inl, inr, [], ◌∷◌, length, All, ltb,
  ltb→lt, Bool-cases, arith,
}
use pico_server_rs.Base.Words.{Bytes, IsByte}
use native.Mathlib.Nat.{pow-suc}

-- `n + 1` groups of `v`: a padded form where `v` has fewer digits.
unfoldable pub groups : ℕ → ℕ → Bytes
groups zero v = v ∷ []
groups (suc n) v = (128 + v % 128) ∷ groups n (v / 128)

-- The groups above the lowest one: `n + 1` is the number of digits of `v`.
pub record HasDigits (n v : ℕ) : Type 0 where
  pub fits : v < 128 ^ suc n
  pub needed : (n ≡ 0) ⊎ (128 ^ n ≤ v)

pub length-groups : (n v : ℕ) → length (groups n v) ≡ n + 1
unfolding groups
length-groups zero v = omega arith
length-groups (suc n) v = omega (arith, length-groups n (v / 128))

pub groups-IsByte : (n v : ℕ) → v < 128 ^ suc n → All IsByte (groups n v)
unfolding groups
groups-IsByte zero v h = omega arith
groups-IsByte (suc n) v h =
    (omega arith, groups-IsByte n (v / 128) (omega (arith, pow-suc 128 (suc n))))

pub HasDigits-div : {n v : ℕ} → HasDigits (suc n) v → HasDigits n (v / 128)
HasDigits-div {n} {v} d = record {
  fits = omega (arith, d.fits, pow-suc 128 (suc n));
  needed = inr (omega (arith, d.needed, pow-suc 128 n));
}

needed_above : (n v : ℕ) → 128 ≤ v → (n ≡ 0) ⊎ (128 ^ n ≤ v / 128) → 128 ^ suc n ≤ v
needed_above n v h (inl e) = rw e h
needed_above n v h (inr k) = omega (arith, pow-suc 128 n)

HasDigits-suc : {n v : ℕ} → 128 ≤ v → HasDigits n (v / 128) → HasDigits (suc n) v
HasDigits-suc {n} {v} h d = record {
  fits = omega (arith, d.fits, pow-suc 128 (suc n));
  needed = inr (needed_above n v h d.needed);
}

pub HasDigits-exists : (k v : ℕ) → v < 128 ^ suc k → (n : ℕ) × (n ≤ k) × HasDigits n v
HasDigits-exists zero v h = (0, omega arith, record { fits = h; needed = inl refl })
HasDigits-exists (suc k) v h =
    let (n, le, d) = HasDigits-exists k (v / 128) (omega (arith, pow-suc 128 (suc k))) in
    elim (Bool-cases (ltb v 128)) [
      | inl small ↦ (0, omega arith, record { fits = ltb→lt v 128 small; needed = inl refl })
      | inr big ↦ (suc n, omega arith, HasDigits-suc (ground arith) d)
    ]
