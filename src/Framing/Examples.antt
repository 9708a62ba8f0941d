-- ===== src/Framing/Examples.antt =====
-- The theorems about frames at concrete buffers.
use pico_server_rs.Base.{ℕ, ◌≡◌, ◌↔◌, refl, ap, [], ◌∷◌, Option, some, arith}
use pico_server_rs.Base.Words.{Bytes}
use pico_server_rs.Base.Read.{ok, Reader}
use pico_server_rs.Varint.{VarIntError, var_int_len, var_int_from_bytes, read_var_int}
use pico_server_rs.Varint.Peek.{Peeked}
use pico_server_rs.Framing.{read_packet_id}
use pico_server_rs.Framing.PacketId.{read_packet_id_exact_iff}

-- The id 3 in two bytes.
padded_three : var_int_from_bytes (0x83 ∷ 0x00 ∷ 7 ∷ []) ≡ ok (3, 2) (0x83 ∷ 0x00 ∷ 7 ∷ [])
unfolding var_int_from_bytes read_var_int
padded_three = refl

padded_three-Peeked : Peeked (0x83 ∷ 0x00 ∷ 7 ∷ []) 3 2
unfolding var_int_from_bytes read_var_int var_int_len
padded_three-Peeked = record {
  prefix = 0x83 ∷ 0x00 ∷ [];
  rest = 7 ∷ [];
  src_eq = refl;
  count_eq = refl;
  in_range = omega arith;
  longest = omega arith;
  shortest = omega arith;
  again = λ more. ap (λ (k : ℕ). ok (3, k) (0x83 ∷ 0x00 ∷ more)) (omega arith);
}

read_packet_id_exact_iff_example :
    (read_packet_id (0x83 ∷ 0x00 ∷ 7 ∷ []) ≡ ok 3 padded_three-Peeked.rest) ↔ (var_int_len 3 ≡ 2)
read_packet_id_exact_iff_example =
    read_packet_id_exact_iff (0x83 ∷ 0x00 ∷ 7 ∷ []) 3 2 padded_three-Peeked padded_three

-- A frame around the bytes of a number.
abbrev raw_bytes : Bytes → Reader VarIntError (Option Bytes)
raw_bytes raw rest = ok (some raw) rest
