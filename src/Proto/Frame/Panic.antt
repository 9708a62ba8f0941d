-- ===== src/Proto/Frame/Panic.antt =====
-- `try_read_frame` of crates/mc-proto/src/packet.rs on length prefixes that no writer makes.
use pico_server_rs.Base.{
  ℕ, ◌^◌, ◌<◌, ◌≡◌, ◌↔◌, refl, sym, ◌∙◌, ◌∷◌, ◌++◌, none, length, All, All-prefix, All-suffix,
  arith,
}
use pico_server_rs.Base.Words.{Bytes, IsByte}
use pico_server_rs.Base.Read.{Read, ok, err, panic}
use pico_server_rs.Varint.{VarIntError, var_int_from_bytes, too_large}
use pico_server_rs.Varint.Decode.{IsMore}
use pico_server_rs.Varint.Outcome.{read_var_int_refuses}
use pico_server_rs.Varint.Peek.{Peeked, var_int_from_bytes-err}
use pico_server_rs.Framing.{frame_or_wait, read_packet_id}
use pico_server_rs.Framing.Whole.{frame_or_wait-unreadable}
use pico_server_rs.Framing.PacketId.{read_packet_id-ne-panic}
use pico_server_rs.Framing.Cases.{
  FrameCase, unreadable, wrapped, waiting, framed, frame_or_wait-FrameCase, Wraps,
}
use pico_server_rs.Proto.Frame.{frame_of, try_read_frame}
use mathlib.Core.Path.{subst}

frame_of_panic : (r : Read VarIntError ℕ) (rest : Bytes) → frame_of r rest ≡ panic → r ≡ panic
frame_of_panic (ok id body) rest e = cc
frame_of_panic (err x b) rest e = cc
frame_of_panic panic rest e = refl

-- The bytes of a frame are bytes of the buffer.
body-IsByte :
    {v count : ℕ} (buf : Bytes) (p : Peeked buf v count) (body rest : Bytes)
    → All IsByte buf
    → p.rest ≡ body ++ rest
    → All IsByte body
body-IsByte buf p body rest h e =
    All-prefix IsByte body rest
      (subst (All IsByte) e (All-suffix IsByte p.prefix p.rest (subst (All IsByte) p.src_eq h)))

abbrev pub HasWrappingLength : Bytes → Type 0
HasWrappingLength buf =
    (v : ℕ) × (count : ℕ) × (var_int_from_bytes buf ≡ ok (v, count) buf) × Wraps v count

-- On fewer than 2 ^ 63 bytes, `try_read_frame` panics exactly when the buffer begins with a length
-- of -1 to -5, as an i32, whose sum with the length of its prefix wraps at 64 bits, so that the
-- frame cannot be split off.
pub try_read_frame_panic_iff :
    (buf : Bytes)
    → All IsByte buf
    → length buf < 2 ^ 63
    → (try_read_frame buf ≡ panic) ↔ HasWrappingLength buf
unfolding try_read_frame
try_read_frame_panic_iff buf hb h =
    let c = frame_or_wait-FrameCase (λ raw. frame_of (read_packet_id raw)) buf hb h in
    (λ e. forth e c, λ w. back w c)
  where
    forth :
        frame_or_wait (λ raw. frame_of (read_packet_id raw)) buf ≡ panic
        → FrameCase
            (λ raw. frame_of (read_packet_id raw))
            buf
            (frame_or_wait (λ raw. frame_of (read_packet_id raw)) buf)
        → HasWrappingLength buf
    forth e (unreadable x q r) = cc
    forth e (wrapped v count p q w r) = (v, count, q, w)
    forth e (waiting v count q w lt r) = cc
    forth e (framed v count p body rest q w pr pb r) = absurd (
        read_packet_id-ne-panic body (body-IsByte buf p body rest hb pr)
          (frame_of_panic (read_packet_id body) rest (sym r ∙ e)))

    back :
        HasWrappingLength buf
        → FrameCase
            (λ raw. frame_of (read_packet_id raw))
            buf
            (frame_or_wait (λ raw. frame_of (read_packet_id raw)) buf)
        → frame_or_wait (λ raw. frame_of (read_packet_id raw)) buf ≡ panic
    back (v, count, e, w) (unreadable x q r) = cc
    back (v, count, e, w) (wrapped v' count' p q w' r) = r
    back (v, count, e, w) (waiting v' count' q w' lt r) =
        let same_v : v ≡ v' = cc in let same_count : count ≡ count' = cc in absurd (omega arith)
    back (v, count, e, w) (framed v' count' p body rest q w' pr pb r) =
        let same_v : v ≡ v' = cc in let same_count : count ≡ count' = cc in absurd (omega arith)

-- A length prefix of five bytes that all go on is never completed: whatever arrives behind it,
-- `try_read_frame` returns no frame, no error, and the buffer as it was.
pub try_read_frame_stalls :
    (xs : Bytes) (b : ℕ) (more : Bytes)
    → All IsMore xs
    → length xs ≡ 4
    → IsMore b
    → try_read_frame (xs ++ b ∷ more) ≡ ok none (xs ++ b ∷ more)
unfolding try_read_frame
try_read_frame_stalls xs b more hs e hb =
    let src = xs ++ b ∷ more in
    frame_or_wait-unreadable (λ raw. frame_of (read_packet_id raw)) src too_large src
      (var_int_from_bytes-err src too_large more (read_var_int_refuses xs b more hs e hb))
