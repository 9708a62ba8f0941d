-- ===== src/Varint/Decode.antt =====
-- The readers of varint.rs on a run of bytes that goes on, and a last byte.
use pico_server_rs.Base.{
  ℕ, ◌+◌, ◌-◌, ◌*◌, ◌%◌, ◌^◌, ◌≤◌, ◌<◌, ◌≡◌, refl, sym, ap, ◌∙◌, [], ◌∷◌, ◌++◌, length, All, arith,
}
use pico_server_rs.Base.Bits.{low_seven, top_bit, bit_or_disjoint, pow_two_pos, pow_add, word_split}
use pico_server_rs.Base.Words.{Bytes}
use pico_server_rs.Base.Read.{ok, err}
use pico_server_rs.Varint.{VarIntError, incomplete, add_group, read_loop}
use native.Mathlib.Nat.{zero-add, mod-add-mod, mod-le, mul-le-mul_right, pow-le-pow_right}
use native.Mathlib.Numerals.{towards_suc}

-- A byte with the top bit set, and one without.
abbrev pub IsMore : ℕ → Type 0
IsMore b = (128 ≤ b) × (b < 256)

abbrev pub IsLast : ℕ → Type 0
IsLast b = b < 128

-- The number that the groups of the bytes stand for, at any length.
unfoldable pub payload : Bytes → ℕ
payload [] = 0
payload (b ∷ bs) = b % 128 + 128 * payload bs

shift_seven : (s : ℕ) → 2 ^ (s + 7) ≡ 128 * 2 ^ s
shift_seven s = simp towards_suc (omega arith)

pow_mono : (s w : ℕ) → s ≤ w → 2 ^ s ≤ 2 ^ w
pow_mono s w h = pow-le-pow_right {n = 2} (omega arith) h

-- One group joins the value, and what passes the word size is cut off.
add_group_lem :
    (w value shift b : ℕ)
    → value < 2 ^ shift
    → shift ≤ w
    → add_group w value shift b ≡ (value + b % 128 * 2 ^ shift) % 2 ^ w
unfolding add_group
add_group_lem w value shift b h le =
    let d = w - shift in
    let word : 2 ^ w ≡ 2 ^ shift * 2 ^ d = ap (λ (t : ℕ). 2 ^ t) (omega arith) ∙ pow_add shift d in
    let group : b % 128 * 2 ^ shift % (2 ^ shift * 2 ^ d) ≡ b % 128 % 2 ^ d * 2 ^ shift =
      simp zero-add at (word_split shift d 0 (b % 128) (pow_two_pos shift)) in
    rw (low_seven b, word)
      (rw group (
        bit_or_disjoint shift value (b % 128 % 2 ^ d) h
        ∙ sym (word_split shift d value (b % 128) h)))

-- The value stays below the next shift.
add_group-lt :
    (w value shift b : ℕ)
    → value < 2 ^ shift
    → shift ≤ w
    → add_group w value shift b < 2 ^ (shift + 7)
add_group-lt w value shift b h le =
    let group : b % 128 ≤ 127 = omega arith in
    rw (add_group_lem w value shift b h le, shift_seven shift)
      (omega
        (arith, mod-le (value + b % 128 * 2 ^ shift) (2 ^ w), mul-le-mul_right (2 ^ shift) group))

-- Two steps of the sum: the value so far, one group, and the payload `p` of what follows.
add_group-payload :
    (w value shift b p : ℕ)
    → value < 2 ^ shift
    → shift ≤ w
    → (add_group w value shift b + p * 2 ^ (shift + 7)) % 2 ^ w
      ≡ (value + (b % 128 + 128 * p) * 2 ^ shift) % 2 ^ w
add_group-payload w value shift b p h le =
    rw (add_group_lem w value shift b h le, shift_seven shift, mod-add-mod)
      (ap (λ (t : ℕ). t % 2 ^ w) (omega arith))

module _ (w limit : ℕ) (too_long : VarIntError) where
  -- A byte without the top bit ends the number.
  read_loop_last :
      (b value shift : ℕ) (rest : Bytes)
      → IsLast b
      → value < 2 ^ shift
      → shift ≤ w
      → read_loop w limit too_long value shift (b ∷ rest)
        ≡ ok ((value + b % 128 * 2 ^ shift) % 2 ^ w) rest
  unfolding read_loop
  read_loop_last b value shift rest h lt le =
      ground (arith, top_bit b, add_group_lem w value shift b lt le)

  read_loop_more :
      (b value shift : ℕ) (rest : Bytes)
      → IsMore b
      → shift + 7 < limit
      → read_loop w limit too_long value shift (b ∷ rest)
        ≡ read_loop w limit too_long (add_group w value shift b) (shift + 7) rest
  unfolding read_loop
  read_loop_more b value shift rest h lt = ground (arith, top_bit b)

  -- The byte that would take the shift past its limit is an error.
  read_loop_stop :
      (b value shift : ℕ) (rest : Bytes)
      → IsMore b
      → limit ≤ shift + 7
      → read_loop w limit too_long value shift (b ∷ rest) ≡ err too_long rest
  unfolding read_loop
  read_loop_stop b value shift rest h le = ground (arith, top_bit b)

  -- A run that ends with a last byte gives its payload, cut to the word size.
  pub read_loop-accept :
      (xs : Bytes) (b value shift : ℕ) (rest : Bytes)
      → All IsMore xs
      → IsLast b
      → value < 2 ^ shift
      → limit ≤ w + 7
      → shift + 7 * length xs + 7 ≤ limit
      → read_loop w limit too_long value shift (xs ++ b ∷ rest)
        ≡ ok ((value + payload (xs ++ b ∷ []) * 2 ^ shift) % 2 ^ w) rest
  unfolding payload
  read_loop-accept [] b value shift rest hs hb lt le room =
      read_loop_last b value shift rest hb lt (omega arith)
      ∙ ap (λ (t : ℕ). ok ((value + t * 2 ^ shift) % 2 ^ w) rest) (omega arith)
  read_loop-accept (x ∷ xs) b value shift rest (hx, hs) hb lt le room =
      read_loop_more x value shift (xs ++ b ∷ rest) hx (omega arith)
      ∙ read_loop-accept xs b (add_group w value shift x) (shift + 7) rest hs hb
          (add_group-lt w value shift x lt (omega arith)) le (omega arith)
      ∙ ap (λ (t : ℕ). ok t rest)
          (add_group-payload w value shift x (payload (xs ++ b ∷ [])) lt (omega arith))

  -- A run that reaches the limit is refused, and the bytes behind it stay.
  pub read_loop-refuse :
      (xs : Bytes) (b value shift : ℕ) (rest : Bytes)
      → All IsMore xs
      → IsMore b
      → shift + 7 * length xs < limit
      → limit ≤ shift + 7 * length xs + 7
      → read_loop w limit too_long value shift (xs ++ b ∷ rest) ≡ err too_long rest
  read_loop-refuse [] b value shift rest hs hb lt le =
      read_loop_stop b value shift rest hb (omega arith)
  read_loop-refuse (x ∷ xs) b value shift rest (hx, hs) hb lt le =
      read_loop_more x value shift (xs ++ b ∷ rest) hx (omega arith)
      ∙ read_loop-refuse xs b (add_group w value shift x) (shift + 7) rest hs hb (omega arith)
          (omega arith)

  -- A run that stops short of a last byte is incomplete, and all of it is gone.
  pub read_loop-incomplete :
      (xs : Bytes) (value shift : ℕ)
      → All IsMore xs
      → shift + 7 * length xs < limit
      → read_loop w limit too_long value shift xs ≡ err incomplete []
  read_loop-incomplete [] value shift hs lt = unfold read_loop in refl
  read_loop-incomplete (x ∷ xs) value shift (hx, hs) lt =
      read_loop_more x value shift xs hx (omega arith)
      ∙ read_loop-incomplete xs (add_group w value shift x) (shift + 7) hs (omega arith)
