-- ===== src/Proxy/Frames/Stream.antt =====
-- Packets that are framed by `frame_packet` and arrive in pieces.
use pico_server_rs.Base.{
  ℕ, ◌+◌, ◌^◌, ◌<◌, ◌≡◌, sym, ap, ◌∙◌, List, [], ◌∷◌, ◌++◌, append-nil, Option, none, some, Bool,
  true, false, Bool-cases, inl, inr, leb, length, lengths, All, All-append, All-prefix, arith, drop,
}
use pico_server_rs.Base.Words.{Bytes, IsU32, IsByte}
use pico_server_rs.Base.Read.{Read, ok, err, panic}
use pico_server_rs.Varint.{VarIntError, var_int_len, write_var_int, var_int_from_bytes}
use pico_server_rs.Varint.Encode.{length-write_var_int}
use pico_server_rs.Varint.RoundTrip.{write_var_int-IsByte}
use pico_server_rs.Framing.{read_packet_id, frame_or_wait}
use pico_server_rs.Framing.Stream.{Passes, frame_or_wait-prefix}
use pico_server_rs.Framing.Drain.{encoded, Framed, CutAt, drain-CutAt}
use pico_server_rs.Proxy.Frames.{
  Zlib, packet_of, frame_packet, open_data, open_frame, try_read_frame_compressed,
}
use pico_server_rs.Proxy.Frames.RoundTrip.{
  Fits, inside, frame_packet-eq, try_read_frame_compressed-frame_packet,
}
use mathlib.Core.Path.{subst}

packet_of-passes :
    (r : Read VarIntError ℕ) (rest : Bytes) (f : Option (ℕ × Bytes)) (rest' : Bytes)
    → packet_of r rest ≡ ok f rest'
    → rest' ≡ rest
packet_of-passes (ok id body) rest f rest' e = cc
packet_of-passes (err x b) rest f rest' e = cc
packet_of-passes panic rest f rest' e = cc

module _ (zlib : Zlib) where
  open_data-passes :
      (raw : Bytes) (r : Read VarIntError (ℕ × ℕ)) (rest : Bytes) (f : Option (ℕ × Bytes))
      (rest' : Bytes)
      → open_data zlib raw r rest ≡ ok f rest'
      → rest' ≡ rest
  open_data-passes raw (err x b) rest f rest' e = cc
  open_data-passes raw panic rest f rest' e = cc
  open_data-passes raw (ok (n, k) b) rest f rest' e = ground (
    arith,
    packet_of-passes (read_packet_id (drop k raw)) rest f rest',
    opened (zlib.decompress (drop k raw)),
  )
    where
      opened :
          (o : Option Bytes)
          → (elim o [ some bs ↦ packet_of (read_packet_id bs) rest | none ↦ ok none rest ])
            ≡ ok f rest'
          → rest' ≡ rest
      opened none q = cc
      opened (some bs) q = packet_of-passes (read_packet_id bs) rest f rest' q

  open_frame-Passes : (compression : Bool) → Passes (open_frame zlib compression)
  unfolding open_frame
  open_frame-Passes true raw rest f rest' e =
      open_data-passes raw (var_int_from_bytes raw) rest f rest' e
  open_frame-Passes false raw rest f rest' e = packet_of-passes (read_packet_id raw) rest f rest' e

  -- A packet that can be framed: its sizes fit, and its body is bytes.
  abbrev pub CanFrame : Bool → ℕ × Bytes → Type 0
  CanFrame compression (id, body) = Fits zlib id body compression × All IsByte body

  abbrev pub framed_packet : Bool → ℕ × Bytes → Bytes
  framed_packet compression (id, body) = frame_packet zlib id body compression

  inside-IsByte :
      (compression : Bool) (id : ℕ) (body : Bytes)
      → CanFrame compression (id, body)
      → All IsByte (inside zlib id body compression)
  unfolding inside
  inside-IsByte false id body (h, hb) =
      All-append IsByte _ body (write_var_int-IsByte id h.id_word) hb
  inside-IsByte true id body (h, hb) =
      let total = var_int_len id + length body in
      let plain = All-append IsByte _ body (write_var_int-IsByte id h.id_word) hb in
      let big =
        All-append IsByte _ (zlib.compress (write_var_int id [] ++ body))
          (write_var_int-IsByte total (omega (arith, h.total_fits))) (zlib.compress-IsByte _) in
      let little = All-append IsByte _ _ (write_var_int-IsByte 0 (omega arith)) plain in
      elim (Bool-cases (leb 256 total)) [ inl t ↦ rw t big | inr t ↦ rw t little ]

  frame_packet-IsByte :
      (compression : Bool) (f : ℕ × Bytes)
      → CanFrame compression f
      → All IsByte (framed_packet compression f) × (length (framed_packet compression f) < 2 ^ 63)
  frame_packet-IsByte compression (id, body) (h, hb) =
      let raw = inside zlib id body compression in
      let n = length raw in
      let word : IsU32 n = omega (arith, h.inside_fits) in
      rw (frame_packet-eq zlib id body compression h) (
        All-append IsByte _ raw (write_var_int-IsByte n word)
            (inside-IsByte compression id body (h, hb)),
        omega (lengths, h.inside_fits, length-write_var_int n [] word),
      )

  packet_whole :
      (compression : Bool) (f : ℕ × Bytes)
      → CanFrame compression f
      → (rest : Bytes)
      → frame_or_wait (open_frame zlib compression) (framed_packet compression f ++ rest)
        ≡ ok (some f) rest
  unfolding try_read_frame_compressed
  packet_whole compression (id, body) (h, hb) rest =
      try_read_frame_compressed-frame_packet zlib id body compression rest h

  packet_alone :
      (compression : Bool) (f : ℕ × Bytes)
      → CanFrame compression f
      → frame_or_wait (open_frame zlib compression) (framed_packet compression f) ≡ ok (some f) []
  packet_alone compression f h =
      ap (frame_or_wait (open_frame zlib compression))
        (sym (append-nil (framed_packet compression f)))
      ∙ packet_whole compression f h []

  pub packets-Framed :
      (compression : Bool)
      → Framed (open_frame zlib compression) (CanFrame compression) (framed_packet compression)
  packets-Framed compression = record {
    whole = packet_whole compression;
    part = λ f h front x back e.
        let (bytes, size) = frame_packet-IsByte compression f h in
        let bytes' = subst (All IsByte) e bytes in
        let size' = subst (λ (t : Bytes). length t < 2 ^ 63) e size in
        frame_or_wait-prefix (open_frame zlib compression) (open_frame-Passes compression) front x
          back (some f) (All-prefix IsByte front (x ∷ back) bytes') size'
          (subst (λ (t : Bytes). frame_or_wait (open_frame zlib compression) t ≡ ok (some f) []) e
            (packet_alone compression f h));
  }

  -- Where packets whose bodies are bytes and whose sizes fit an i32 are framed one behind the
  -- other, and the frames arrive in two reads, cut anywhere, the loop over the buffer, with more
  -- rounds than there are packets, gives in the first read the packets that are whole, keeps the
  -- part of the next one, and gives the others in the second read: together all packets in order,
  -- with nothing left.
  pub drain-frame_packet :
      (compression : Bool) (packets : List (ℕ × Bytes)) (n : ℕ) (c d : Bytes)
      → All (CanFrame compression) packets
      → length packets < n
      → encoded (open_frame zlib compression) (framed_packet compression) packets ≡ c ++ d
      → CutAt
          (open_frame zlib compression)
          (CanFrame compression)
          (framed_packet compression)
          n
          packets
          c
          d
  drain-frame_packet compression packets n c d hs h e =
      drain-CutAt (open_frame zlib compression) (CanFrame compression) (framed_packet compression)
        (packets-Framed compression) packets n c d hs h e
