-- ===== src/Varint/Encode.antt =====
-- The writers of varint.rs and `encoded_len` against the digits of the number.
use pico_server_rs.Base.{
  ℕ, zero, suc, ◌+◌, ◌/◌, ◌%◌, ◌≤◌, ◌<◌, ◌≡◌, [], ◌∷◌, ◌++◌, append_assoc, length, lengths, bit_and,
  bit_or, arith,
}
use pico_server_rs.Base.Order.{lt_wf}
use pico_server_rs.Base.Bits.{low_seven, set_top_bit}
use pico_server_rs.Base.Words.{Bytes, IsU32, IsU64}
use pico_server_rs.Base.Codec.{Appends}
use pico_server_rs.Varint.{
  write_loop, var_int_len, write_var_int, count_loop, var_long_len, write_var_long,
}
use pico_server_rs.Varint.Groups.{groups, HasDigits, length-groups, HasDigits-div, HasDigits-exists}
use mathlib.Core.WellFounded.{Acc}
use native.Mathlib.Nat.{pow-suc, one-le-pow}

low_group : (v : ℕ) → bit_and v 0x7f % 256 ≡ v % 128
low_group v = omega (arith, low_seven v)

inner_group : (v : ℕ) → bit_or (bit_and v 0x7f % 256) 0x80 ≡ 128 + v % 128
inner_group v = rw (low_group v) (omega (arith, set_top_bit (v % 128) (omega arith)))

more_groups : {n v : ℕ} → HasDigits (suc n) v → 0 < v / 128
more_groups {n} {v} d = omega (arith, d.needed, pow-suc 128 n, one-le-pow n 128 (omega arith))

write_loop-groups :
    (n v : ℕ) (w : Acc ◌<◌ v) → HasDigits n v → Appends (write_loop v w) (groups n v)
unfolding write_loop groups
write_loop-groups zero v (Acc.intro _ smaller) d buf = ground (arith, low_group v, d.fits)
write_loop-groups (suc n) v (Acc.intro _ smaller) d buf =
    let head : Bytes = (128 + v % 128) ∷ [] in
    grind (
      arith,
      inner_group v,
      more_groups d,
      λ (w : Acc ◌<◌ (v / 128)). write_loop-groups n (v / 128) w (HasDigits-div d) (buf ++ head),
      append_assoc buf head (groups n (v / 128)),
    )

-- The tests of `VarInt::encoded_len` find the number of digits.
pub var_int_len-eq : (n v : ℕ) → n ≤ 4 → HasDigits n v → var_int_len v ≡ n + 1
unfolding var_int_len
var_int_len-eq zero v h d = ground (arith, d.fits)
var_int_len-eq (suc zero) v h d = ground (arith, d.fits, d.needed)
var_int_len-eq (suc (suc zero)) v h d = ground (arith, d.fits, d.needed)
var_int_len-eq (suc (suc (suc zero))) v h d = ground (arith, d.fits, d.needed)
var_int_len-eq (suc (suc (suc (suc zero)))) v h d = ground (arith, d.fits, d.needed)
var_int_len-eq (suc (suc (suc (suc (suc n))))) v h d = absurd (omega arith)

pub var_int_len_bounds : (v : ℕ) → (1 ≤ var_int_len v) × (var_int_len v ≤ 5)
unfolding var_int_len
var_int_len_bounds v = ground arith

count_loop-eq : (n v len : ℕ) (w : Acc ◌<◌ v) → HasDigits n v → count_loop len v w ≡ len + (n + 1)
unfolding count_loop
count_loop-eq zero v len (Acc.intro _ smaller) d = ground (arith, d.fits)
count_loop-eq (suc n) v len (Acc.intro _ smaller) d = grind (
  arith,
  more_groups d,
  λ (w : Acc ◌<◌ (v / 128)). count_loop-eq n (v / 128) (len + 1) w (HasDigits-div d),
)

pub write_var_int-groups : (n v : ℕ) → HasDigits n v → Appends (write_var_int v) (groups n v)
unfolding write_var_int
write_var_int-groups n v d buf = write_loop-groups n v (lt_wf.apply v) d buf

pub write_var_long-groups : (n v : ℕ) → HasDigits n v → Appends (write_var_long v) (groups n v)
unfolding write_var_long
write_var_long-groups n v d buf = write_loop-groups n v (lt_wf.apply v) d buf

-- `write` appends the digits of the number, as many as `encoded_len` says.
pub record Written (limit v len : ℕ) (bs out : Bytes) : Type 0 where
  pub digits : ℕ
  pub digits_of : HasDigits digits v
  pub digits_le : digits ≤ limit
  pub out_eq : out ≡ bs ++ groups digits v
  pub len_eq : len ≡ digits + 1

pub write_var_int-Written :
    (v : ℕ) (buf : Bytes) → IsU32 v → Written 4 v (var_int_len v) buf (write_var_int v buf)
unfolding write_var_int
write_var_int-Written v buf h =
    let (n, le, d) = HasDigits-exists 4 v (omega arith) in
    record {
      digits = n;
      digits_of = d;
      digits_le = le;
      out_eq = write_loop-groups n v (lt_wf.apply v) d buf;
      len_eq = var_int_len-eq n v le d;
    }

pub write_var_long-Written :
    (v : ℕ) (buf : Bytes) → IsU64 v → Written 9 v (var_long_len v) buf (write_var_long v buf)
unfolding write_var_long var_long_len
write_var_long-Written v buf h =
    let (n, le, d) = HasDigits-exists 9 v (omega arith) in
    record {
      digits = n;
      digits_of = d;
      digits_le = le;
      out_eq = write_loop-groups n v (lt_wf.apply v) d buf;
      len_eq = omega (arith, count_loop-eq n v 0 (lt_wf.apply v) d);
    }

-- `VarInt::encoded_len` is the length of what `write` appends for a 32-bit pattern, and that is
-- one to five bytes.
pub length-write_var_int :
    (v : ℕ) (buf : Bytes)
    → IsU32 v
    → (length (write_var_int v buf) ≡ length buf + var_int_len v)
      × (1 ≤ var_int_len v)
      × (var_int_len v ≤ 5)
length-write_var_int v buf h =
    let w = write_var_int-Written v buf h in
    rw (w.out_eq, w.len_eq) (omega (lengths, w.digits_le, length-groups w.digits v))

-- `VarLong::encoded_len` is the length of what `write` appends for a 64-bit pattern, and that is
-- one to ten bytes.
pub length-write_var_long :
    (v : ℕ) (buf : Bytes)
    → IsU64 v
    → (length (write_var_long v buf) ≡ length buf + var_long_len v)
      × (1 ≤ var_long_len v)
      × (var_long_len v ≤ 10)
length-write_var_long v buf h =
    let w = write_var_long-Written v buf h in
    rw (w.out_eq, w.len_eq) (omega (lengths, w.digits_le, length-groups w.digits v))
