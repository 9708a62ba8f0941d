-- ===== src/Framing/Whole.antt =====
-- Whole frames at the front of a buffer.
use pico_server_rs.Base.{
  ℕ, ◌+◌, ◌%◌, ◌^◌, ◌<◌, ◌≡◌, refl, sym, ◌∙◌, [], ◌∷◌, ◌++◌, Option, none, true, false, ltb, leb,
  le→ltb, le→leb, lt→ltb, length, drop-append, lengths, arith,
}
use pico_server_rs.Base.Words.{Bytes, as_usize, IsU32}
use pico_server_rs.Base.Read.{ok, err, Reader}
use pico_server_rs.Base.Codec.{split_to-append}
use pico_server_rs.Varint.{VarIntError, var_int_len, var_int_from_bytes, write_var_int}
use pico_server_rs.Varint.Encode.{length-write_var_int}
use pico_server_rs.Varint.Peek.{var_int_from_bytes_nil, var_int_from_bytes-write}
use pico_server_rs.Framing.{take_framed, frame_or_wait, read_packet_id}
use native.Mathlib.Nat.{mod-eq_of_lt}

-- What was written as a packet id and a body is taken apart again.
pub read_packet_id-write :
    (id : ℕ) (body : Bytes) → IsU32 id → read_packet_id (write_var_int id [] ++ body) ≡ ok id body
unfolding read_packet_id
read_packet_id-write id body h =
    let prefix = write_var_int id [] in
    let size : length prefix ≡ var_int_len id = omega (arith, length-write_var_int id [] h) in
    let room : leb (var_int_len id) (length (prefix ++ body)) ≡ true =
      le→leb _ _ (omega (lengths, size)) in
    rw (var_int_from_bytes-write id body h)
      (rw (room, drop-append (var_int_len id) prefix body size))

module _ {ℓ κ} {E : Type ℓ} {F : Type κ} (unwrap : Bytes → Reader E (Option F)) where
  -- With a readable length prefix all depends on what stands behind it.
  pub frame_or_wait-framed :
      (src : Bytes) (v k : ℕ) (src' : Bytes)
      → var_int_from_bytes src ≡ ok (v, k) src'
      → frame_or_wait unwrap src ≡ take_framed unwrap v k src
  unfolding frame_or_wait
  frame_or_wait-framed [] v k src' e = cc var_int_from_bytes_nil
  frame_or_wait-framed (b ∷ bs) v k src' e = rw (e, frame_or_wait)

  pub frame_or_wait-unreadable :
      (src : Bytes) (x : VarIntError) (src' : Bytes)
      → var_int_from_bytes src ≡ err x src'
      → frame_or_wait unwrap src ≡ ok none src
  unfolding frame_or_wait
  frame_or_wait-unreadable [] x src' e = refl
  frame_or_wait-unreadable (b ∷ bs) x src' e = rw (e, frame_or_wait)

  -- A prefix of `k` bytes and a body of the length that it names are split off.
  pub take_framed-whole :
      (v k : ℕ) (prefix body rest : Bytes)
      → length prefix ≡ k
      → length body ≡ as_usize v
      → k + as_usize v < 2 ^ 64
      → take_framed unwrap v k (prefix ++ (body ++ rest)) ≡ unwrap body rest
  unfolding take_framed
  take_framed-whole v k prefix body rest hk hn fits =
      let n = as_usize v in
      let size : length (prefix ++ (body ++ rest)) ≡ k + (n + length rest) =
        omega (lengths, hk, hn) in
      let whole : ltb (length (prefix ++ (body ++ rest))) ((k + n) % 2 ^ 64) ≡ false =
        rw (mod-eq_of_lt fits, size) (le→ltb _ _ (omega arith)) in
      let room : leb k (length (prefix ++ (body ++ rest))) ≡ true =
        rw size (le→leb _ _ (omega arith)) in
      rw whole (
        rw (room, drop-append k prefix (body ++ rest) hk)
          (rw (split_to-append {E = E} n body rest hn)))

  -- A buffer that is shorter than the prefix and the body keeps waiting.
  pub take_framed-short :
      (v k : ℕ) (buf : Bytes)
      → length buf < k + as_usize v
      → k + as_usize v < 2 ^ 64
      → take_framed unwrap v k buf ≡ ok none buf
  unfolding take_framed
  take_framed-short v k buf lt fits =
      let short : ltb (length buf) ((k + as_usize v) % 2 ^ 64) ≡ true =
        rw (mod-eq_of_lt fits) (lt→ltb _ _ lt) in
      rw short

  -- The frame of a body, in front of any further bytes.
  pub frame_or_wait-whole :
      (v : ℕ) (body rest : Bytes)
      → v < 2 ^ 31
      → length body ≡ v
      → frame_or_wait unwrap (write_var_int v [] ++ (body ++ rest)) ≡ unwrap body rest
  frame_or_wait-whole v body rest h e =
      let n : as_usize v ≡ v = ground arith in
      frame_or_wait-framed _ v (var_int_len v) _
        (var_int_from_bytes-write v (body ++ rest) (omega arith))
      ∙ take_framed-whole v (var_int_len v) (write_var_int v []) body rest
          (omega (arith, length-write_var_int v [] (omega arith))) (e ∙ sym n)
          (omega (arith, n, length-write_var_int v [] (omega arith)))
