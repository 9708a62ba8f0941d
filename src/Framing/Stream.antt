-- ===== src/Framing/Stream.antt =====
-- A stream of frames that arrives in pieces: the part of a frame in a buffer.
use pico_server_rs.Base.{
  ℕ, ◌^◌, ◌<◌, ◌≡◌, sym, ap, ◌∙◌, [], ◌∷◌, ◌++◌, Option, none, length, length-append_bytes, lengths,
  All,
}
use pico_server_rs.Base.Words.{Bytes, IsByte}
use pico_server_rs.Base.Read.{ok, Reader}
use pico_server_rs.Framing.{frame_or_wait}
use pico_server_rs.Framing.Cases.{
  unreadable, wrapped, waiting, framed, frame_or_wait-FrameCase, frame_or_wait-more,
  frame_or_wait-Wraps,
}

-- Unwrapping the bytes of a frame leaves the buffer behind it alone.
abbrev pub Passes {ℓ κ} : {E : Type ℓ} {F : Type κ} → (Bytes → Reader E (Option F)) → Type (ℓ ⊔ κ)
Passes {E = E} {F = F} unwrap =
    (raw rest : Bytes) (f : Option F) (rest' : Bytes) → unwrap raw rest ≡ ok f rest' → rest' ≡ rest

module _ {ℓ κ} {E : Type ℓ} {F : Type κ} (unwrap : Bytes → Reader E (Option F))
    (passes : Passes unwrap) where
  -- Where a buffer of less than 2 ^ 63 elements is one frame, and unwrapping leaves the buffer
  -- behind a frame alone, a proper prefix of it that consists of bytes is kept as it is and waited
  -- on.
  pub frame_or_wait-prefix :
      (front : Bytes) (x : ℕ) (back : Bytes) (f : Option F)
      → All IsByte front
      → length (front ++ x ∷ back) < 2 ^ 63
      → frame_or_wait unwrap (front ++ x ∷ back) ≡ ok f []
      → frame_or_wait unwrap front ≡ ok none front
  frame_or_wait-prefix front x back f hb h e =
      elim (frame_or_wait-FrameCase unwrap front hb
        (omega (lengths, length-append_bytes front (x ∷ back)))) [
          | unreadable y p r ↦ r
          | wrapped v count p q w r ↦ cc (frame_or_wait-Wraps unwrap v count front (x ∷ back) p w h)
          | waiting v count q w lt r ↦ r
          | framed v count p body rest q w pr pb r ↦
              let more = frame_or_wait-more unwrap v count front (x ∷ back) p body rest w pr pb in
              let left : [] ≡ rest ++ x ∷ back =
                passes body (rest ++ x ∷ back) f [] (sym more ∙ e) in
              absurd (omega (lengths, ap length left))
        ]
