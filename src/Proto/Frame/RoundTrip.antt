-- ===== src/Proto/Frame/RoundTrip.antt =====
-- `try_read_frame` on what `encode_packet` writes.
use pico_server_rs.Base.{
  ℕ, ◌+◌, ◌^◌, ◌<◌, ◌≡◌, ap, ◌∙◌, [], ◌++◌, append_assoc, some, length, lengths, arith,
}
use pico_server_rs.Base.Words.{Bytes, as_i32, IsU32}
use pico_server_rs.Base.Read.{ok}
use pico_server_rs.Varint.{var_int_len, write_var_int}
use pico_server_rs.Varint.Encode.{length-write_var_int}
use pico_server_rs.Varint.RoundTrip.{Codec-var_int}
use pico_server_rs.Framing.{read_packet_id}
use pico_server_rs.Framing.Whole.{frame_or_wait-whole, read_packet_id-write}
use pico_server_rs.Proto.Frame.{frame_of, try_read_frame, encode_packet}

-- What `encode_packet` writes: the length, the id and the body.
encode_packet-eq :
    (id : ℕ) (body : Bytes)
    → IsU32 id
    → var_int_len id + length body < 2 ^ 31
    → encode_packet id body
      ≡ write_var_int (var_int_len id + length body) [] ++ (write_var_int id [] ++ body)
unfolding encode_packet
encode_packet-eq id body h fits =
    let total = var_int_len id + length body in
    let same : as_i32 total ≡ total = omega (arith, fits) in
    rw (same, (Codec-var_int id h).appends (write_var_int total []))
      (append_assoc (write_var_int total []) (write_var_int id []) body)

-- Where the id is a 32-bit pattern and the length of the frame fits an i32, `try_read_frame` gives
-- back the id and body that `encode_packet` framed, and what follows the frame stays in the
-- buffer.
pub try_read_frame-encode_packet :
    (id : ℕ) (body rest : Bytes)
    → IsU32 id
    → var_int_len id + length body < 2 ^ 31
    → try_read_frame (encode_packet id body ++ rest)
      ≡ ok (some (record { id = id; body = body })) rest
unfolding try_read_frame
try_read_frame-encode_packet id body rest h fits =
    let raw = write_var_int id [] ++ body in
    let total = var_int_len id + length body in
    ap (λ (t : Bytes). try_read_frame (t ++ rest)) (encode_packet-eq id body h fits)
    ∙ ap try_read_frame (append_assoc (write_var_int total []) raw rest)
    ∙ frame_or_wait-whole (λ raw. frame_of (read_packet_id raw)) total raw rest fits
        (omega (lengths, length-write_var_int id [] h))
    ∙ ap (λ r. frame_of r rest) (read_packet_id-write id body h)
