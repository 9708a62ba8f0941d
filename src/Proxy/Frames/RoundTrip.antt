-- ===== src/Proxy/Frames/RoundTrip.antt =====
-- `try_read_frame_compressed` of config_handler.rs on what `frame_packet` writes.
use pico_server_rs.Base.{
  ℕ, ◌+◌, ◌^◌, ◌≤◌, ◌<◌, ◌≡◌, refl, ap, ◌∙◌, [], ◌++◌, append_assoc, some, Bool, true, false,
  Bool-cases, inl, inr, leb, leb→le, length, lengths, drop, drop-append, arith, ◌==◌, if◌then◌else◌,
}
use pico_server_rs.Base.Words.{Bytes, as_i32, as_usize, IsU32}
use pico_server_rs.Base.Read.{ok}
use pico_server_rs.Varint.{var_int_len, write_var_int}
use pico_server_rs.Varint.Encode.{length-write_var_int}
use pico_server_rs.Varint.RoundTrip.{Codec-var_int}
use pico_server_rs.Varint.Peek.{var_int_from_bytes-write}
use pico_server_rs.Framing.{read_packet_id}
use pico_server_rs.Framing.Whole.{frame_or_wait-whole, read_packet_id-write}
use pico_server_rs.Proxy.Frames.{
  Zlib, packet_of, frame_packet, open_data, open_frame, try_read_frame_compressed,
}

-- One number, and two numbers, written in front of some bytes.
one_number :
    (a : ℕ) (buf bs : Bytes)
    → IsU32 a
    → write_var_int a buf ++ bs ≡ buf ++ (write_var_int a [] ++ bs)
one_number a buf bs h =
    ap (λ (t : Bytes). t ++ bs) ((Codec-var_int a h).appends buf)
    ∙ append_assoc buf (write_var_int a []) bs

two_numbers :
    (a b : ℕ) (buf bs : Bytes)
    → IsU32 a
    → IsU32 b
    → write_var_int b (write_var_int a buf) ++ bs
      ≡ buf ++ (write_var_int a [] ++ (write_var_int b [] ++ bs))
two_numbers a b buf bs ha hb =
    one_number b (write_var_int a buf) bs hb ∙ one_number a buf (write_var_int b [] ++ bs) ha

module _ (zlib : Zlib) where
  -- The bytes inside the frame that `frame_packet` writes.
  unfoldable pub inside : ℕ → Bytes → Bool → Bytes
  inside id body compression =
      let total = var_int_len id + length body in
      let uncompressed = write_var_int id [] ++ body in
      if compression
      then (if leb 256 total
          then write_var_int total [] ++ zlib.compress uncompressed
          else write_var_int 0 [] ++ uncompressed)
      else uncompressed

  -- A packet whose sizes fit an i32.
  pub record Fits (id : ℕ) (body : Bytes) (compression : Bool) : Type 0 where
    pub id_word : IsU32 id
    pub total_fits : var_int_len id + length body < 2 ^ 31
    pub inside_fits : length (inside id body compression) < 2 ^ 31

  pub frame_packet-eq :
      (id : ℕ) (body : Bytes) (compression : Bool)
      → Fits id body compression
      → frame_packet zlib id body compression
        ≡ write_var_int (length (inside id body compression)) [] ++ inside id body compression
  unfolding frame_packet inside
  frame_packet-eq id body false h =
      let total = var_int_len id + length body in
      let same : as_i32 total ≡ length (write_var_int id [] ++ body) =
        omega (lengths, length-write_var_int id [] h.id_word, h.total_fits) in
      rw same (one_number id _ body h.id_word)
  frame_packet-eq id body true h =
      let total = var_int_len id + length body in
      let word : as_i32 total ≡ total = omega (arith, h.total_fits) in
      let id_size = length-write_var_int id [] h.id_word in
      let uncompressed = write_var_int id [] ++ body in
      elim (Bool-cases (leb 256 total)) [
        | inl big ↦
            let data_ = zlib.compress uncompressed in
            let fits : length (write_var_int total [] ++ data_) < 2 ^ 31 =
              rw big at h.inside_fits in
            let same : as_i32 (var_int_len total + length data_)
                ≡ length (write_var_int total [] ++ data_) =
              omega (lengths, fits, length-write_var_int total [] (omega (arith, h.total_fits))) in
            rw (big, word) (rw same (one_number total _ data_ (omega (arith, h.total_fits))))
        | inr little ↦
            let fits : length (write_var_int 0 [] ++ uncompressed) < 2 ^ 31 =
              rw little at h.inside_fits in
            let same : as_i32 (var_int_len 0 + var_int_len id + length body)
                ≡ length (write_var_int 0 [] ++ uncompressed) =
              omega (lengths, fits, id_size, length-write_var_int 0 [] (omega arith)) in
            rw little (rw same (two_numbers 0 id _ body (omega arith) h.id_word))
      ]

  -- Data behind the length 0 is taken as it is.
  open_data-plain :
      (bs rest : Bytes)
      → open_frame zlib true (write_var_int 0 [] ++ bs) rest ≡ packet_of (read_packet_id bs) rest
  unfolding open_frame
  open_data-plain bs rest =
      let src = write_var_int 0 [] ++ bs in
      let behind : drop (var_int_len 0) src ≡ bs =
        drop-append (var_int_len 0) (write_var_int 0 []) bs
          (omega (arith, length-write_var_int 0 [] (omega arith))) in
      ap (λ r. open_data zlib src r rest) (var_int_from_bytes-write 0 bs (omega arith))
      ∙ ap (λ (t : Bytes). packet_of (read_packet_id t) rest) behind

  -- Data behind any other length is decompressed first.
  open_data-compressed :
      (total : ℕ) (bs rest : Bytes)
      → 256 ≤ total
      → total < 2 ^ 31
      → open_frame zlib true (write_var_int total [] ++ zlib.compress bs) rest
        ≡ packet_of (read_packet_id bs) rest
  unfolding open_frame
  open_data-compressed total bs rest big fits =
      let src = write_var_int total [] ++ zlib.compress bs in
      let behind : drop (var_int_len total) src ≡ zlib.compress bs =
        drop-append (var_int_len total) (write_var_int total []) (zlib.compress bs)
          (omega (arith, length-write_var_int total [] (omega arith))) in
      let given : (as_usize total == 0) ≡ false = ground arith in
      ap (λ r. open_data zlib src r rest)
        (var_int_from_bytes-write total (zlib.compress bs) (omega arith))
      ∙ rw given (rw behind (rw (zlib.decompress-compress bs)))

  open_frame-inside :
      (id : ℕ) (body : Bytes) (compression : Bool) (rest : Bytes)
      → Fits id body compression
      → open_frame zlib compression (inside id body compression) rest ≡ ok (some (id, body)) rest
  unfolding open_frame inside
  open_frame-inside id body false rest h =
      ap (λ r. packet_of r rest) (read_packet_id-write id body h.id_word)
  open_frame-inside id body true rest h =
      let total = var_int_len id + length body in
      let uncompressed = write_var_int id [] ++ body in
      let packet = ap (λ r. packet_of r rest) (read_packet_id-write id body h.id_word) in
      elim (Bool-cases (leb 256 total)) [
        | inl big ↦ rw big (
            open_data-compressed total uncompressed rest (leb→le 256 total big) h.total_fits
            ∙ packet)
        | inr little ↦ rw little (open_data-plain uncompressed rest ∙ packet)
      ]

  -- `try_read_frame_compressed` gives back the packet that `frame_packet` framed, with and without
  -- compression and on both sides of the threshold, and leaves whatever follows the frame, where
  -- the id is a 32-bit pattern and the sizes of the packet and of what is in the frame fit an i32.
  pub try_read_frame_compressed-frame_packet :
      (id : ℕ) (body : Bytes) (compression : Bool) (rest : Bytes)
      → Fits id body compression
      → try_read_frame_compressed zlib compression (frame_packet zlib id body compression ++ rest)
        ≡ ok (some (id, body)) rest
  unfolding try_read_frame_compressed
  try_read_frame_compressed-frame_packet id body compression rest h =
      let raw = inside id body compression in
      ap (λ (t : Bytes). try_read_frame_compressed zlib compression (t ++ rest))
        (frame_packet-eq id body compression h)
      ∙ ap (try_read_frame_compressed zlib compression)
          (append_assoc (write_var_int (length raw) []) raw rest)
      ∙ frame_or_wait-whole (open_frame zlib compression) (length raw) raw rest h.inside_fits refl
      ∙ open_frame-inside id body compression rest h
