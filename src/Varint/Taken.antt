-- ===== src/Varint/Taken.antt =====
-- What a successful `VarInt::read` takes off its input.
use pico_server_rs.Base.{
  ℕ, suc, ◌+◌, ◌%◌, ◌^◌, ◌≤◌, ◌<◌, ◌≡◌, sym, ap, ◌∙◌, ◌⊎◌, inl, inr, [], ◌∷◌, ◌++◌, append_assoc,
  length, length-append_bytes, All, arith, ltb, ltb→lt, Bool-cases,
}
use pico_server_rs.Base.Words.{Bytes, IsByte, IsU32}
use pico_server_rs.Base.Read.{ok}
use pico_server_rs.Varint.{too_large, read_var_int, var_int_len}
use pico_server_rs.Varint.Groups.{HasDigits, HasDigits-exists}
use pico_server_rs.Varint.Encode.{var_int_len-eq}
use pico_server_rs.Varint.Decode.{IsMore, IsLast, payload}
use pico_server_rs.Varint.Outcome.{
  Outcome, accepted, refused, ran_out, read_var_int-Outcome, read_var_int_accepts,
}
use mathlib.Core.Path.{subst, subst₂}
use native.Mathlib.Nat.{pow-suc, mod-le, mod-lt, pow-le-pow_right}

payload-lt : (xs : Bytes) → payload xs < 128 ^ length xs
unfolding payload
payload-lt [] = omega arith
payload-lt (x ∷ xs) = omega (arith, payload-lt xs, pow-suc 128 (length xs))

-- A number below 128 ^ k has at most k digits.
digits_le : (k n v : ℕ) → v < 128 ^ suc k → HasDigits n v → n ≤ k
digits_le k n v h d = elim (Bool-cases (ltb k n)) [
  | inl more ↦ absurd (too_many (ltb→lt k n more) d.needed)
  | inr fine ↦ ground arith
]
  where
    too_many : k < n → (n ≡ 0) ⊎ (128 ^ n ≤ v) → ⊥
    too_many lt (inl e) = omega arith
    too_many lt (inr le) = omega (arith, pow-le-pow_right {n = 128} (omega arith) lt)

pub record Taken (src : Bytes) (v : ℕ) (rest : Bytes) : Type 0 where
  pub taken : Bytes
  pub src_eq : src ≡ taken ++ rest
  pub in_range : IsU32 v
  pub longest : length taken ≤ 5
  pub shortest : var_int_len v ≤ length taken
  pub again : (more : Bytes) → read_var_int (taken ++ more) ≡ ok v more

number-Taken :
    (xs : Bytes) (b : ℕ) (src rest : Bytes)
    → All IsMore xs
    → length xs ≤ 4
    → IsLast b
    → src ≡ xs ++ b ∷ rest
    → Taken src (payload (xs ++ b ∷ []) % 2 ^ 32) rest
number-Taken xs b src rest hs le hb e =
    let bs = xs ++ b ∷ [] in
    let v = payload bs % 2 ^ 32 in
    let size : length bs ≡ length xs + 1 = length-append_bytes xs (b ∷ []) in
    let small : v < 2 ^ 32 = mod-lt (payload bs) (omega arith) in
    let (n, n_le, d) = HasDigits-exists 4 v (omega arith) in
    let size' : length bs ≡ suc (length xs) = omega (arith, size) in
    let fits : v < 128 ^ suc (length xs) = omega (
      arith,
      mod-le (payload bs) (2 ^ 32),
      subst (λ (t : ℕ). payload bs < 128 ^ t) size' (payload-lt bs),
    ) in
    record {
      taken = bs;
      src_eq = e ∙ sym (append_assoc xs (b ∷ []) rest);
      in_range = small;
      longest = omega arith;
      shortest = omega (arith, var_int_len-eq n v n_le d, digits_le (length xs) n v fits d);
      again = λ more.
          ap read_var_int (append_assoc xs (b ∷ []) more) ∙ read_var_int_accepts xs b more hs le hb;
    }

pub read_var_int-Taken :
    (src : Bytes) (v : ℕ) (rest : Bytes)
    → All IsByte src
    → read_var_int src ≡ ok v rest
    → Taken src v rest
read_var_int-Taken src v rest h e = Outcome-Taken (read_var_int-Outcome src h)
  where
    Outcome-Taken : Outcome 32 4 too_large src (read_var_int src) → Taken src v rest
    Outcome-Taken (accepted xs b rest' hs le hb p r) =
        subst₂ (λ u t. Taken src u t) (cc) (cc) (number-Taken xs b src rest' hs le hb p)
    Outcome-Taken (refused xs b rest' hs le hb p r) = cc
    Outcome-Taken (ran_out hs le r) = cc

-- On bytes, a successful `VarInt::read` takes one to five of them, at least as many as its value
-- needs, leaves the rest as it was, and returns a 32-bit value; bytes added behind the input only
-- join the rest.
pub read_var_int_takes :
    (src : Bytes) (v : ℕ) (rest : Bytes)
    → All IsByte src
    → read_var_int src ≡ ok v rest
    → (taken : Bytes) × (src ≡ taken ++ rest)
      × (var_int_len v ≤ length taken)
      × (length taken ≤ 5)
      × IsU32 v
      × ((more : Bytes) → read_var_int (src ++ more) ≡ ok v (rest ++ more))
read_var_int_takes src v rest h e =
    let t = read_var_int-Taken src v rest h e in
    (
      t.taken,
      t.src_eq,
      t.shortest,
      t.longest,
      t.in_range,
      λ more.
          ap read_var_int (ap (λ (s : Bytes). s ++ more) t.src_eq ∙ append_assoc t.taken rest more)
          ∙ t.again (rest ++ more),
    )
