-- ===== src/Framing/Cases.antt =====
-- The four things that can happen to a buffer in front of a frame.
use pico_server_rs.Base.{
  ℕ, ◌+◌, ◌-◌, ◌%◌, ◌^◌, ◌≤◌, ◌<◌, ◌≡◌, sym, ap, ◌∙◌, ◌++◌, Option, none, true, false, ltb, leb,
  le→ltb, le→leb, lt→leb, ltb→lt, leb→le, leb_false→lt, length-take_bytes, Bool-cases, inl, inr,
  length, take, drop, drop-append, take-append-drop, lengths, All, append_assoc, arith,
}
use pico_server_rs.Base.Words.{Bytes, as_usize, IsByte}
use pico_server_rs.Base.Read.{Read, ok, err, panic, Reader}
use pico_server_rs.Varint.{VarIntError, var_int_from_bytes}
use pico_server_rs.Varint.Peek.{Peek-of, found, missing, Peeked}
use pico_server_rs.Framing.{take_framed, frame_or_wait}
use pico_server_rs.Framing.Whole.{
  frame_or_wait-framed, frame_or_wait-unreadable, take_framed-whole, take_framed-short,
}

-- A length of -1 to -5, as an i32, wraps round when the length of its prefix is added to it.
abbrev pub Wraps : ℕ → ℕ → Type 0
Wraps v count = 2 ^ 32 ≤ v + count

module _ {ℓ κ} {E : Type ℓ} {F : Type κ} (unwrap : Bytes → Reader E (Option F)) where
  pub data FrameCase (buf : Bytes) (r : Read E (Option F)) : Type (ℓ ⊔ κ) where
    unreadable :
        (x : VarIntError) → var_int_from_bytes buf ≡ err x buf → r ≡ ok none buf → FrameCase buf r
    wrapped :
        (v count : ℕ)
        → Peeked buf v count
        → var_int_from_bytes buf ≡ ok (v, count) buf
        → Wraps v count
        → r ≡ panic
        → FrameCase buf r
    waiting :
        (v count : ℕ)
        → var_int_from_bytes buf ≡ ok (v, count) buf
        → v + count < 2 ^ 32
        → length buf < count + as_usize v
        → r ≡ ok none buf
        → FrameCase buf r
    framed :
        (v count : ℕ) (p : Peeked buf v count) (body rest : Bytes)
        → var_int_from_bytes buf ≡ ok (v, count) buf
        → v + count < 2 ^ 32
        → p.rest ≡ body ++ rest
        → length body ≡ as_usize v
        → r ≡ unwrap body rest
        → FrameCase buf r

  take_framed-wrapped :
      (v count : ℕ) (prefix rest : Bytes)
      → length prefix ≡ count
      → count ≤ 5
      → v < 2 ^ 32
      → Wraps v count
      → length rest < 2 ^ 63
      → take_framed unwrap v count (prefix ++ rest) ≡ panic
  unfolding take_framed
  take_framed-wrapped v count prefix rest e le hv w h =
      let n : as_usize v ≡ v + (2 ^ 64 - 2 ^ 32) = ground arith in
      let size : length (prefix ++ rest) ≡ count + length rest = omega (lengths, e) in
      let passed : ltb (length (prefix ++ rest)) ((count + as_usize v) % 2 ^ 64) ≡ false =
        le→ltb _ _ (omega (arith, n, size)) in
      let room : leb count (length (prefix ++ rest)) ≡ true = le→leb _ _ (omega (arith, size)) in
      let huge : leb (as_usize v) (length rest) ≡ false = lt→leb _ _ (omega (arith, n)) in
      rw passed (rw (room, drop-append count prefix rest e) (rw huge))

  FrameCase-found :
      (buf : Bytes) (v count : ℕ)
      → length buf < 2 ^ 63
      → var_int_from_bytes buf ≡ ok (v, count) buf
      → Peeked buf v count
      → FrameCase buf (frame_or_wait unwrap buf)
  FrameCase-found buf v count h e p =
      let n = as_usize v in
      let step = frame_or_wait-framed unwrap buf v count buf e in
      let size : length buf ≡ count + length p.rest =
        omega (lengths, ap length p.src_eq, p.count_eq) in
      elim (Bool-cases (ltb (v + count) (2 ^ 32))) [
        | inr wraps ↦ wrapped v count p e (ground arith) (
            step
            ∙ ap (take_framed unwrap v count) p.src_eq
            ∙ take_framed-wrapped v count p.prefix p.rest p.count_eq p.longest p.in_range
                (ground arith) (omega (arith, size)))
        | inl fine ↦
            let no_wrap : v + count < 2 ^ 32 = ltb→lt _ _ fine in
            let fits : count + n < 2 ^ 64 = ground (arith, p.longest) in
            elim (Bool-cases (leb n (length p.rest))) [
              | inl whole ↦
                  let body_length : length (take n p.rest) ≡ n =
                    omega (arith, length-take_bytes n p.rest, leb→le n (length p.rest) whole) in
                  framed v count p (take n p.rest) (drop n p.rest) e no_wrap
                    (sym (take-append-drop n p.rest)) body_length
                    (step
                      ∙ ap (take_framed unwrap v count) (
                          p.src_eq
                          ∙ ap (λ (t : Bytes). p.prefix ++ t) (sym (take-append-drop n p.rest)))
                      ∙ take_framed-whole unwrap v count p.prefix (take n p.rest) (drop n p.rest)
                          p.count_eq body_length fits)
              | inr short ↦
                  let lt : length buf < count + n =
                    omega (arith, size, leb_false→lt n (length p.rest) short) in
                  waiting v count e no_wrap lt (step ∙ take_framed-short unwrap v count buf lt fits)
            ]
      ]

  -- Every buffer is in one of the cases.
  pub frame_or_wait-FrameCase :
      (buf : Bytes)
      → All IsByte buf
      → length buf < 2 ^ 63
      → FrameCase buf (frame_or_wait unwrap buf)
  frame_or_wait-FrameCase buf hb h = elim (Peek-of buf hb) [
    | found v count e p ↦ FrameCase-found buf v count h e p
    | missing x e ↦ unreadable x e (frame_or_wait-unreadable unwrap buf x buf e)
  ]

  -- More bytes behind a whole frame join what remains of the buffer.
  pub frame_or_wait-more :
      (v count : ℕ) (buf more : Bytes) (p : Peeked buf v count) (body rest : Bytes)
      → v + count < 2 ^ 32
      → p.rest ≡ body ++ rest
      → length body ≡ as_usize v
      → frame_or_wait unwrap (buf ++ more) ≡ unwrap body (rest ++ more)
  frame_or_wait-more v count buf more p body rest h e hb =
      let tail = body ++ (rest ++ more) in
      let whole : buf ++ more ≡ p.prefix ++ tail = rw (p.src_eq, e) (simp append_assoc) in
      ap (frame_or_wait unwrap) whole
      ∙ frame_or_wait-framed unwrap (p.prefix ++ tail) v count _ (p.again tail)
      ∙ take_framed-whole unwrap v count p.prefix body (rest ++ more) p.count_eq hb
          (ground (arith, p.longest))

  -- A length that wraps stops the read with a panic, whatever follows.
  pub frame_or_wait-Wraps :
      (v count : ℕ) (buf more : Bytes)
      → Peeked buf v count
      → Wraps v count
      → length (buf ++ more) < 2 ^ 63
      → frame_or_wait unwrap (buf ++ more) ≡ panic
  frame_or_wait-Wraps v count buf more p w h =
      let split : buf ++ more ≡ p.prefix ++ (p.rest ++ more) =
        rw p.src_eq (append_assoc p.prefix p.rest more) in
      ap (frame_or_wait unwrap) split
      ∙ frame_or_wait-framed unwrap (p.prefix ++ (p.rest ++ more)) v count _
          (p.again (p.rest ++ more))
      ∙ take_framed-wrapped v count p.prefix (p.rest ++ more) p.count_eq p.longest p.in_range w
          (omega (lengths, ap length split))
