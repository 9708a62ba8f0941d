-- ===== src/Base/Words.antt =====
-- Bytes, machine words and their big-endian form. A signed word is the bit pattern of its two's
-- complement, as a number below 2 ^ w.
use Prim.Native.Nat.{ℕ, zero, suc, ◌+◌, ◌-◌, ◌*◌, ◌/◌, ◌%◌, ◌^◌, ◌≤◌, ◌<◌}
use mathlib.Core.Path.{◌≡◌, refl, ◌∙◌}
use mathlib.Core.Bool.{Bool}
use mathlib.Core.List.{List, [], ◌∷◌, ◌++◌}
use native.Mathlib.Omega.{arith}
use native.Mathlib.Nat.{pow-suc, mul-le-mul_right}
use pico_server_rs.Base.Tests.{ltb, leb, if◌then◌else◌}
use pico_server_rs.Base.Lists.{length, All, All-append, length-append}

abbrev pub Bytes : Type 0
Bytes = List ℕ

abbrev pub IsByte : ℕ → Type 0
IsByte b = b < 256

abbrev pub IsU16 : ℕ → Type 0
IsU16 v = v < 2 ^ 16

abbrev pub IsU32 : ℕ → Type 0
IsU32 v = v < 2 ^ 32

abbrev pub IsU64 : ℕ → Type 0
IsU64 v = v < 2 ^ 64

abbrev pub IsU128 : ℕ → Type 0
IsU128 v = v < 2 ^ 128

-- Is the i32 with this bit pattern negative?
abbrev pub is_negative : ℕ → Bool
is_negative v = ltb (2 ^ 31 - 1) v

-- `v as usize` for an i32 extends the sign to 64 bits.
abbrev pub as_usize : ℕ → ℕ
as_usize v = if ltb v (2 ^ 31) then v else v + (2 ^ 64 - 2 ^ 32)

-- `n as i32` for a usize.
abbrev pub as_i32 : ℕ → ℕ
as_i32 n = n % 2 ^ 32

-- The n bytes of `to_be_bytes`, the highest first.
unfoldable pub be_bytes : ℕ → ℕ → Bytes
be_bytes zero v = []
be_bytes (suc n) v = be_bytes n (v / 256) ++ (v % 256) ∷ []

unfoldable pub of_be : ℕ → Bytes → ℕ
of_be acc [] = acc
of_be acc (b ∷ bs) = of_be (acc * 256 + b) bs

of_be-append : (acc : ℕ) (xs : Bytes) (b : ℕ) → of_be acc (xs ++ b ∷ []) ≡ of_be acc xs * 256 + b
unfolding of_be
of_be-append acc [] b = refl
of_be-append acc (x ∷ xs) b = of_be-append (acc * 256 + x) xs b

pub of_be-be_bytes : (n v : ℕ) → v < 256 ^ n → of_be 0 (be_bytes n v) ≡ v
unfolding of_be be_bytes
of_be-be_bytes zero v h = omega arith
of_be-be_bytes (suc n) v h =
    of_be-append 0 (be_bytes n (v / 256)) (v % 256)
    ∙ omega (arith, of_be-be_bytes n (v / 256) (omega (arith, pow-suc 256 n)))

pub length-be_bytes : (n v : ℕ) → length (be_bytes n v) ≡ n
unfolding be_bytes
length-be_bytes zero v = refl
length-be_bytes (suc n) v =
    length-append (be_bytes n (v / 256)) _ ∙ omega (arith, length-be_bytes n (v / 256))

pub be_bytes-IsByte : (n v : ℕ) → All IsByte (be_bytes n v)
unfolding be_bytes
be_bytes-IsByte zero v = tt
be_bytes-IsByte (suc n) v =
    All-append IsByte (be_bytes n (v / 256)) _ (be_bytes-IsByte n (v / 256)) (omega arith)

of_be_bound :
    (n acc : ℕ) (xs : Bytes) → All IsByte xs → length xs ≡ n → of_be acc xs < (acc + 1) * 256 ^ n
unfolding of_be
of_be_bound zero acc [] h e = omega arith
of_be_bound zero acc (x ∷ xs) h e = absurd (omega arith)
of_be_bound (suc n) acc [] h e = absurd (omega arith)
of_be_bound (suc n) acc (x ∷ xs) (h, hs) e =
    let head : acc * 256 + x + 1 ≤ (acc + 1) * 256 = omega arith in
    rw (pow-suc 256 n) (
      omega
        (arith, of_be_bound n (acc * 256 + x) xs hs (omega arith), mul-le-mul_right (256 ^ n) head))

-- What n bytes stand for fits n bytes.
pub of_be-lt : (n : ℕ) (xs : Bytes) → All IsByte xs → length xs ≡ n → of_be 0 xs < 256 ^ n
of_be-lt n xs h e = omega (arith, of_be_bound n 0 xs h e)

-- Signed comparison and wrapping arithmetic on the patterns of an i32.
abbrev pub flip_sign : ℕ → ℕ
flip_sign v = (v + 2 ^ 31) % 2 ^ 32

abbrev pub lt_i32 : ℕ → ℕ → Bool
lt_i32 a b = ltb (flip_sign a) (flip_sign b)

abbrev pub le_i32 : ℕ → ℕ → Bool
le_i32 a b = leb (flip_sign a) (flip_sign b)

abbrev pub min_i32 : ℕ → ℕ → ℕ
min_i32 a b = if lt_i32 b a then b else a

abbrev pub add_i32 : ℕ → ℕ → ℕ
add_i32 a b = (a + b) % 2 ^ 32

abbrev pub sub_i32 : ℕ → ℕ → ℕ
sub_i32 a b = (a + 2 ^ 32 - b) % 2 ^ 32
