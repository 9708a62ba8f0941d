-- ===== src/Proxy/Frames.antt =====
-- The frames of crates/mc-proxy/src/config_handler.rs, with and without compression.
pub mod RoundTrip
pub mod Stream
use pico_server_rs.Base.{
  ℕ, ◌+◌, ◌≡◌, [], ◌++◌, Bool, true, false, Option, none, some, leb, ◌==◌, if◌then◌else◌, length,
  drop, All,
}
use pico_server_rs.Base.Words.{Bytes, as_i32, as_usize, IsByte}
use pico_server_rs.Base.Read.{Read, ok, err, panic, Reader}
use pico_server_rs.Base.Codec.{◌▹◌, put}
use pico_server_rs.Varint.{VarIntError, var_int_len, write_var_int, var_int_from_bytes}
use pico_server_rs.Framing.{frame_or_wait, read_packet_id}
use pico_server_rs.Framing.Drain.{drain}

-- What the frames use of the crate `flate2`: bytes that a `ZlibEncoder` compresses are given back by
-- a `ZlibDecoder` on its output, and that output is bytes. `none` is an error of the decoder.
pub record Zlib : Type 0 where
  pub compress : Bytes → Bytes
  pub decompress : Bytes → Option Bytes
  pub decompress-compress : (bs : Bytes) → decompress (compress bs) ≡ some bs
  pub compress-IsByte : (bs : Bytes) → All IsByte (compress bs)

-- A packet id and a body that have been taken off the buffer; a packet without a readable id is
-- dropped.
abbrev pub packet_of : Read VarIntError ℕ → Reader ⊥ (Option (ℕ × Bytes))
packet_of (ok id body) rest = ok (some (id, body)) rest
packet_of (err _ _) rest = ok none rest
packet_of panic rest = panic

module _ (zlib : Zlib) where
  -- `frame_packet`.
  unfoldable pub frame_packet : ℕ → Bytes → Bool → Bytes
  frame_packet packet_id body compression =
      let id_len = var_int_len packet_id in
      let total = id_len + length body in
      let uncompressed = (write_var_int packet_id ▹ put body) [] in
      let compressed = zlib.compress uncompressed in
      let large =
        let outer_len = var_int_len (as_i32 total) + length compressed in
        (write_var_int (as_i32 outer_len) ▹ write_var_int (as_i32 total) ▹ put compressed) [] in
      let small =
        let outer_len = var_int_len 0 + id_len + length body in
        (write_var_int (as_i32 outer_len) ▹ write_var_int 0 ▹ write_var_int packet_id ▹ put body)
          [] in
      let plain = (write_var_int (as_i32 total) ▹ write_var_int packet_id ▹ put body) [] in
      if compression then (if leb 256 total then large else small) else plain

  -- What is inside a frame with compression: the length of the data, 0 where it is not compressed.
  abbrev pub open_data : Bytes → Read VarIntError (ℕ × ℕ) → Reader ⊥ (Option (ℕ × Bytes))
  open_data raw (ok (data_len, dl_bytes) _) rest =
      let inner = drop dl_bytes raw in
      let decompressed : Read ⊥ (Option (ℕ × Bytes)) = elim (zlib.decompress inner) [
        | some bs ↦ packet_of (read_packet_id bs) rest
        | none ↦ ok none rest
      ] in
      if as_usize data_len == 0 then packet_of (read_packet_id inner) rest else decompressed
  open_data raw (err _ _) rest = ok none rest
  open_data raw panic rest = panic

  -- The part of `try_read_frame_compressed` behind the length.
  unfoldable pub open_frame : Bool → Bytes → Reader ⊥ (Option (ℕ × Bytes))
  open_frame true raw = open_data raw (var_int_from_bytes raw)
  open_frame false raw = packet_of (read_packet_id raw)

  -- `try_read_frame_compressed`.
  unfoldable pub try_read_frame_compressed : Bool → Reader ⊥ (Option (ℕ × Bytes))
  try_read_frame_compressed compressed = frame_or_wait (open_frame compressed)
