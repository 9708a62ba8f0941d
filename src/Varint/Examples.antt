-- ===== src/Varint/Examples.antt =====
-- Concrete runs of the readers and writers, and the theorems about them at concrete inputs.
use pico_server_rs.Base.{◌+◌, ◌≤◌, ◌≡◌, refl, [], ◌∷◌, ◌++◌, length, arith}
use pico_server_rs.Base.Words.{Bytes, IsU32}
use pico_server_rs.Base.Read.{ok, err}
use pico_server_rs.Varint.{
  too_large, read_var_int, read_var_long, write_var_int, write_var_long, var_int_len, var_long_len,
  var_int_from_bytes,
}
use pico_server_rs.Varint.Encode.{length-write_var_int}
use pico_server_rs.Varint.Outcome.{Outcome, read_var_int-Outcome}
use pico_server_rs.Varint.RoundTrip.{read-write_var_int}
use pico_server_rs.Varint.Long.{var_long-RoundTrip}
use pico_server_rs.Varint.Taken.{read_var_int_takes}

write_max : write_var_int 0x7fff_ffff [] ≡ 0xff ∷ 0xff ∷ 0xff ∷ 0xff ∷ 0x07 ∷ []
unfolding write_var_int
write_max = refl

-- The i32 -1 is written as its 32-bit pattern.
write_minus_one : write_var_int 0xffff_ffff [] ≡ 0xff ∷ 0xff ∷ 0xff ∷ 0xff ∷ 0x0f ∷ []
unfolding write_var_int
write_minus_one = refl

read_five_continuations :
    read_var_int (0x80 ∷ 0x80 ∷ 0x80 ∷ 0x80 ∷ 0x80 ∷ 7 ∷ []) ≡ err too_large (7 ∷ [])
unfolding read_var_int
read_five_continuations = refl

-- A padded form is accepted, and the bits above the 32nd are dropped.
read_padded : read_var_int (0x80 ∷ 0x00 ∷ 9 ∷ []) ≡ ok 0 (9 ∷ [])
unfolding read_var_int
read_padded = refl

read_cut : read_var_int (0xff ∷ 0xff ∷ 0xff ∷ 0xff ∷ 0x7f ∷ []) ≡ ok 0xffff_ffff []
unfolding read_var_int
read_cut = refl

long_len : var_long_len 0xffff_ffff_ffff_ffff ≡ 10
unfolding var_long_len
long_len = refl

peek_300 : var_int_from_bytes (0xac ∷ 0x02 ∷ 5 ∷ []) ≡ ok (300, 2) (0xac ∷ 0x02 ∷ 5 ∷ [])
unfolding var_int_from_bytes read_var_int
peek_300 = refl

length-write_var_int_example :
    (length (write_var_int 300 (1 ∷ [])) ≡ 1 + var_int_len 300)
    × (1 ≤ var_int_len 300)
    × (var_int_len 300 ≤ 5)
length-write_var_int_example = length-write_var_int 300 (1 ∷ []) (omega arith)

read_var_int-Outcome_example :
    Outcome 32 4 too_large (0xac ∷ 0x02 ∷ 5 ∷ []) (read_var_int (0xac ∷ 0x02 ∷ 5 ∷ []))
read_var_int-Outcome_example = read_var_int-Outcome (0xac ∷ 0x02 ∷ 5 ∷ []) (omega arith)

read-write_var_int_example : read_var_int (write_var_int 300 [] ++ 9 ∷ []) ≡ ok 300 (9 ∷ [])
read-write_var_int_example = read-write_var_int 300 (9 ∷ []) (omega arith)

write_300 : write_var_int 300 [] ≡ 0xac ∷ 0x02 ∷ []
unfolding write_var_int
write_300 = refl

read_var_int_takes_example :
    (taken : Bytes) × (0x80 ∷ 0x00 ∷ 9 ∷ [] ≡ taken ++ 9 ∷ [])
    × (var_int_len 0 ≤ length taken)
    × (length taken ≤ 5)
    × IsU32 0
    × ((more : Bytes) → read_var_int (0x80 ∷ 0x00 ∷ 9 ∷ more) ≡ ok 0 (9 ∷ more))
read_var_int_takes_example =
    read_var_int_takes (0x80 ∷ 0x00 ∷ 9 ∷ []) 0 (9 ∷ []) (omega arith) read_padded

var_long-RoundTrip_example :
    (read_var_long (write_var_long 300 [] ++ 9 ∷ []) ≡ ok 300 (9 ∷ []))
    × (length (write_var_long 300 (1 ∷ [])) ≡ 1 + var_long_len 300)
    × (1 ≤ var_long_len 300)
    × (var_long_len 300 ≤ 10)
var_long-RoundTrip_example = var_long-RoundTrip 300 (1 ∷ []) (9 ∷ []) (omega arith)
