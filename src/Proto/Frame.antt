-- ===== src/Proto/Frame.antt =====
-- The frames of crates/mc-proto/src/packet.rs: a length, then a packet id and a body.
pub mod RoundTrip
pub mod Panic
use pico_server_rs.Base.{ℕ, ◌+◌, [], Option, some, length}
use pico_server_rs.Base.Words.{Bytes, as_i32}
use pico_server_rs.Base.Read.{Read, ok, err, panic, Reader}
use pico_server_rs.Base.Codec.{◌▹◌, put}
use pico_server_rs.Varint.{VarIntError, var_int_len, write_var_int}
use pico_server_rs.Framing.{frame_or_wait, read_packet_id}
use pico_server_rs.Proto.Error.{PacketError, var_int}

pub record PacketFrame : Type 0 where
  pub id : ℕ
  pub body : Bytes

-- The frame in front of what remains of the buffer; an id that cannot be read is an error.
abbrev pub frame_of : Read VarIntError ℕ → Reader PacketError (Option PacketFrame)
frame_of (ok id body) rest = ok (some (record { id = id; body = body })) rest
frame_of (err e _) rest = err (var_int e) rest
frame_of panic rest = panic

-- `try_read_frame`.
unfoldable pub try_read_frame : Reader PacketError (Option PacketFrame)
try_read_frame = frame_or_wait (λ raw. frame_of (read_packet_id raw))

-- `encode_packet`.
unfoldable pub encode_packet : ℕ → Bytes → Bytes
encode_packet id body =
    let total_len = var_int_len id + length body in
    (write_var_int (as_i32 total_len) ▹ write_var_int id ▹ put body) []
