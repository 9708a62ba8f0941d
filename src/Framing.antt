-- ===== src/Framing.antt =====
-- The length prefix of a frame, as crates/mc-proto/src/packet.rs and
-- crates/mc-proxy/src/config_handler.rs both take it off a buffer.
pub mod Whole
pub mod Cases
pub mod PacketId
pub mod Stream
pub mod Drain
mod Examples
use pico_server_rs.Base.{
  ℕ, ◌+◌, ◌%◌, ◌^◌, [], ◌∷◌, ◌++◌, Option, none, some, ltb, if◌then◌else◌, length,
}
use pico_server_rs.Base.Words.{Bytes, as_usize}
use pico_server_rs.Base.Read.{Read, ok, err, panic, Reader, pure, advance, split_to, ◌>>=◌, ◌>>◌}
use pico_server_rs.Varint.{VarIntError, var_int_len, var_int_from_bytes}

module _ {ℓ κ} {E : Type ℓ} {F : Type κ} (unwrap : Bytes → Reader E (Option F)) where
  -- Behind a length prefix that could be read: `frame_start + length` wraps at 64 bits, and a frame
  -- that is whole is split off and unwrapped in front of what remains.
  unfoldable pub take_framed : ℕ → ℕ → Reader E (Option F)
  take_framed length_word len_bytes buf =
      let n = as_usize length_word in
      let framed : Reader E (Option F) = do advance len_bytes; body ← split_to n; unwrap body
      in if ltb (length buf) ((len_bytes + n) % 2 ^ 64) then ok none buf else framed buf

  -- No frame, and the buffer as it was, where the buffer is empty, its length prefix cannot be read,
  -- or the frame is not whole.
  unfoldable pub frame_or_wait : Reader E (Option F)
  frame_or_wait [] = ok none []
  frame_or_wait (b ∷ bs) = elim (var_int_from_bytes (b ∷ bs)) [
    | ok (length_word, len_bytes) _ ↦ take_framed length_word len_bytes (b ∷ bs)
    | err _ _ ↦ ok none (b ∷ bs)
    | panic ↦ panic
  ]

-- The packet id at the front of a frame's bytes, which are skipped by the length that the id would
-- have when written.
unfoldable pub read_packet_id : Reader VarIntError ℕ
read_packet_id = do
  (packet_id, _) ← var_int_from_bytes
  advance (var_int_len packet_id)
  pure packet_id
