-- ===== src/Varint.antt =====
-- crates/mc-core/src/varint.rs: integers in groups of seven bits, lowest group first, the top bit
-- set on every byte but the last. An i32 or i64 is its bit pattern, so `as u32` changes nothing.
pub mod Groups
pub mod Encode
pub mod Decode
pub mod Outcome
pub mod RoundTrip
pub mod Taken
pub mod Peek
pub mod Long
mod Examples
use pico_server_rs.Base.{
  ℕ, suc, ◌+◌, ◌-◌, ◌*◌, ◌/◌, ◌%◌, ◌^◌, ◌<◌, bit_and, bit_or, Bool, [], ◌∷◌, ◌++◌, ltb, leb, ◌==◌,
  if◌then◌else◌, length, dec_lt, arith,
}
use pico_server_rs.Base.Order.{lt_wf}
use pico_server_rs.Base.Words.{Bytes}
use pico_server_rs.Base.Read.{Read, ok, err, panic, Reader}
use pico_server_rs.Base.Codec.{Writer}
use mathlib.Core.Logic.{dite}
use mathlib.Core.WellFounded.{Acc}

pub data VarIntError : Type 0 where
  too_large var_long_too_large incomplete : VarIntError

pub shift_shrinks : (v : ℕ) → 0 < v / 128 → v / 128 < v
shift_shrinks v h = omega arith

-- The loop of both `write` methods: `v >>= 7` is `v / 128`, and the loop goes on while that is not 0.
pub write_loop : (v : ℕ) → Acc ◌<◌ v → Writer
write_loop v (Acc.intro _ smaller) buf =
    let b = bit_and v 0x7f % 256 in
    dite (dec_lt 0 (v / 128))
      (λ more. write_loop (v / 128) (smaller _ (shift_shrinks v more)) (buf ++ bit_or b 0x80 ∷ []))
      (λ _. buf ++ b ∷ [])

-- `value |= ((b & 0x7F) as uw) << shift`
unfoldable pub add_group : ℕ → ℕ → ℕ → ℕ → ℕ
add_group w value shift b = bit_or value (bit_and b 0x7f * 2 ^ shift % 2 ^ w)

-- The loop of both `read` methods, at the word size, the shift that is refused and the error.
unfoldable pub read_loop : ℕ → ℕ → VarIntError → ℕ → ℕ → Reader VarIntError ℕ
read_loop w limit too_long value shift [] = err incomplete []
read_loop w limit too_long value shift (b ∷ rest) =
    let value' = add_group w value shift b in
    let more = read_loop w limit too_long value' (shift + 7) rest in
    if bit_and b 0x80 == 0
    then ok value' rest
    else if leb limit (shift + 7)
    then err too_long rest
    else more

-- `VarInt::encoded_len`.
unfoldable pub var_int_len : ℕ → ℕ
var_int_len v =
    if ltb v 0x80
    then 1
    else if ltb v 0x4000
    then 2
    else if ltb v 0x200000
    then 3
    else if ltb v 0x10000000
    then 4
    else 5

-- `VarInt::write`.
unfoldable pub write_var_int : ℕ → Writer
unfolding write_loop lt_wf dec_lt
write_var_int v = write_loop v (lt_wf.apply v)

-- `VarInt::read`.
unfoldable pub read_var_int : Reader VarIntError ℕ
unfolding read_loop add_group
read_var_int = read_loop 32 35 too_large 0 0

-- `VarInt::to_bytes`.
pub var_int_to_bytes : ℕ → Bytes
unfolding write_var_int
var_int_to_bytes v = write_var_int v []

-- The value, and the number of bytes that the read on a copy of `src` took; `src` stays whole.
abbrev pub peeked : Bytes → Read VarIntError ℕ → Read VarIntError (ℕ × ℕ)
peeked src (ok v rest) = ok (v, length src - length rest) src
peeked src (err e rest) = err e src
peeked src panic = panic

-- `VarInt::from_bytes`.
unfoldable pub var_int_from_bytes : Reader VarIntError (ℕ × ℕ)
var_int_from_bytes src = peeked src (read_var_int src)

-- The loop of `VarLong::encoded_len`.
count_loop : ℕ → (v : ℕ) → Acc ◌<◌ v → ℕ
count_loop len v (Acc.intro _ smaller) =
    dite (dec_lt 0 (v / 128))
      (λ more. count_loop (len + 1) (v / 128) (smaller _ (shift_shrinks v more))) (λ _. len + 1)

-- `VarLong::encoded_len`.
pub var_long_len : ℕ → ℕ
unfolding count_loop lt_wf dec_lt
var_long_len v = count_loop 0 v (lt_wf.apply v)

-- `VarLong::write`.
pub write_var_long : ℕ → Writer
unfolding write_loop lt_wf dec_lt
write_var_long v = write_loop v (lt_wf.apply v)

-- `VarLong::read`.
pub read_var_long : Reader VarIntError ℕ
unfolding read_loop add_group
read_var_long = read_loop 64 70 var_long_too_large 0 0

-- `VarLong::to_bytes`.
pub var_long_to_bytes : ℕ → Bytes
unfolding write_var_long
var_long_to_bytes v = write_var_long v []

-- `VarLong::from_bytes`.
unfoldable pub var_long_from_bytes : Reader VarIntError (ℕ × ℕ)
var_long_from_bytes src = peeked src (read_var_long src)
