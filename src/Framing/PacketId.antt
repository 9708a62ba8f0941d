-- ===== src/Framing/PacketId.antt =====
-- The packet id at the front of a frame's bytes.
use pico_server_rs.Base.{
  ℕ, ◌+◌, ◌≤◌, ◌≡◌, ◌≢◌, ◌↔◌, sym, ap, ◌∙◌, ◌++◌, true, leb, le→leb, length, drop, drop-append,
  lengths, All, arith,
}
use pico_server_rs.Base.Words.{Bytes, IsByte}
use pico_server_rs.Base.Read.{ok, err, panic}
use pico_server_rs.Varint.{VarIntError, var_int_len, var_int_from_bytes}
use pico_server_rs.Varint.Peek.{Peek-of, found, missing, Peeked}
use pico_server_rs.Framing.{read_packet_id}

read_packet_id-found :
    (body : Bytes) (v count : ℕ)
    → var_int_from_bytes body ≡ ok (v, count) body
    → Peeked body v count
    → read_packet_id body ≡ ok v (drop (var_int_len v) body)
unfolding read_packet_id
read_packet_id-found body v count e p =
    let size : length body ≡ count + length p.rest =
      omega (lengths, ap length p.src_eq, p.count_eq) in
    let room : leb (var_int_len v) (length body) ≡ true =
      le→leb _ _ (omega (arith, size, p.shortest)) in
    rw e (rw room)

read_packet_id-missing :
    (body : Bytes) (x : VarIntError)
    → var_int_from_bytes body ≡ err x body
    → read_packet_id body ≡ err x body
unfolding read_packet_id
read_packet_id-missing body x e = rw e

-- Taking the packet id off the front of a frame, which consists of bytes, never panics.
pub read_packet_id-ne-panic : (body : Bytes) → All IsByte body → read_packet_id body ≢ panic
read_packet_id-ne-panic body h = elim (Peek-of body h) [
  | found v count e p ↦ λ q. cc (read_packet_id-found body v count e p)
  | missing x e ↦ λ q. cc (read_packet_id-missing body x e)
]

drop_all_iff : (n : ℕ) (xs ys : Bytes) → n ≤ length xs → (drop n (xs ++ ys) ≡ ys) ↔ (n ≡ length xs)
drop_all_iff n xs ys h = (λ e. omega (lengths, ap length e), λ e. drop-append n xs ys (sym e))

-- Where a packet id can be read from `count` bytes at the front of a frame, the body starts right
-- behind them exactly when the id in its shortest form has `count` bytes: those that pad an id are
-- left in front of the body.
pub read_packet_id_exact_iff :
    (body : Bytes) (v count : ℕ) (p : Peeked body v count)
    → var_int_from_bytes body ≡ ok (v, count) body
    → (read_packet_id body ≡ ok v p.rest) ↔ (var_int_len v ≡ count)
read_packet_id_exact_iff body v count p e =
    let got = read_packet_id-found body v count e p in
    let split : drop (var_int_len v) body ≡ drop (var_int_len v) (p.prefix ++ p.rest) =
      ap (drop (var_int_len v)) p.src_eq in
    let exact =
      drop_all_iff (var_int_len v) p.prefix p.rest (omega (arith, p.shortest, p.count_eq)) in
    (
      λ q.
          let same : drop (var_int_len v) (p.prefix ++ p.rest) ≡ p.rest = cc in
          exact.0 same ∙ p.count_eq,
      λ q. got ∙ ap (λ (t : Bytes). ok v t) (split ∙ exact.1 (q ∙ sym p.count_eq)),
    )
