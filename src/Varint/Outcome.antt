-- ===== src/Varint/Outcome.antt =====
-- The readers of varint.rs on every input.
use pico_server_rs.Base.{
  ℕ, zero, suc, ◌+◌, ◌*◌, ◌%◌, ◌^◌, ◌≤◌, ◌≡◌, refl, ap, ◌∙◌, inl, inr, [], ◌∷◌, ◌++◌, length, All,
  arith, ltb, ltb→lt, Bool-cases,
}
use pico_server_rs.Base.Words.{Bytes, IsByte}
use pico_server_rs.Base.Read.{Read, ok, err}
use pico_server_rs.Varint.{
  VarIntError, too_large, var_long_too_large, incomplete, read_loop, read_var_int, read_var_long,
}
use pico_server_rs.Varint.Decode.{
  IsMore, IsLast, payload, read_loop-accept, read_loop-refuse, read_loop-incomplete,
}

-- A run of bytes with the top bit set, and what stands behind it, where at most `k` may precede the
-- last byte of a number.
pub data Shape (k : ℕ) (src : Bytes) : Type 0 where
  number :
      (xs : Bytes) (b : ℕ) (rest : Bytes)
      → All IsMore xs
      → length xs ≤ k
      → IsLast b
      → src ≡ xs ++ b ∷ rest
      → Shape k src
  long_run :
      (xs : Bytes) (b : ℕ) (rest : Bytes)
      → All IsMore xs
      → length xs ≡ k
      → IsMore b
      → src ≡ xs ++ b ∷ rest
      → Shape k src
  short_run : All IsMore src → length src ≤ k → Shape k src

Shape-cons : {k b : ℕ} {src : Bytes} → IsMore b → Shape k src → Shape (suc k) (b ∷ src)
Shape-cons {b = b} h (number xs c rest hs le hc e) =
    number (b ∷ xs) c rest (h, hs) (omega arith) hc (ap (λ (t : Bytes). b ∷ t) e)
Shape-cons {b = b} h (long_run xs c rest hs le hc e) =
    long_run (b ∷ xs) c rest (h, hs) (omega arith) hc (ap (λ (t : Bytes). b ∷ t) e)
Shape-cons h (short_run hs le) = short_run (h, hs) (omega arith)

Shape-of : (k : ℕ) (src : Bytes) → All IsByte src → Shape k src
Shape-of k [] h = short_run tt (omega arith)
Shape-of zero (b ∷ bs) (hb, hs) = elim (Bool-cases (ltb b 128)) [
  | inl last ↦ number [] b bs tt (omega arith) (ltb→lt b 128 last) refl
  | inr more ↦ long_run [] b bs tt refl (ground arith) refl
]
Shape-of (suc k) (b ∷ bs) (hb, hs) =
    let behind = Shape-of k bs hs in
    elim (Bool-cases (ltb b 128)) [
      | inl last ↦ number [] b bs tt (omega arith) (ltb→lt b 128 last) refl
      | inr more ↦ Shape-cons (ground arith) behind
    ]

-- What a reader of `w`-bit numbers that takes at most `k + 1` bytes returns on an input.
pub data Outcome (w k : ℕ) (e : VarIntError) (src : Bytes) (r : Read VarIntError ℕ) : Type 0 where
  accepted :
      (xs : Bytes) (b : ℕ) (rest : Bytes)
      → All IsMore xs
      → length xs ≤ k
      → IsLast b
      → src ≡ xs ++ b ∷ rest
      → r ≡ ok (payload (xs ++ b ∷ []) % 2 ^ w) rest
      → Outcome w k e src r
  refused :
      (xs : Bytes) (b : ℕ) (rest : Bytes)
      → All IsMore xs
      → length xs ≡ k
      → IsMore b
      → src ≡ xs ++ b ∷ rest
      → r ≡ err e rest
      → Outcome w k e src r
  ran_out : All IsMore src → length src ≤ k → r ≡ err incomplete [] → Outcome w k e src r

read_loop-Outcome :
    (w k limit : ℕ) (e : VarIntError) (src : Bytes)
    → limit ≡ 7 * (k + 1)
    → limit ≤ w + 7
    → Shape k src
    → Outcome w k e src (read_loop w limit e 0 0 src)
read_loop-Outcome w k limit e src hl hw (number xs b rest hs le hb p) =
    accepted xs b rest hs le hb p (
      ap (read_loop w limit e 0 0) p
      ∙ read_loop-accept w limit e xs b 0 0 rest hs hb (omega arith) hw (omega arith)
      ∙ ap (λ (t : ℕ). ok (t % 2 ^ w) rest) (omega arith))
read_loop-Outcome w k limit e src hl hw (long_run xs b rest hs le hb p) =
    refused xs b rest hs le hb p (
      ap (read_loop w limit e 0 0) p
      ∙ read_loop-refuse w limit e xs b 0 0 rest hs hb (omega arith) (omega arith))
read_loop-Outcome w k limit e src hl hw (short_run hs le) =
    ran_out hs le (read_loop-incomplete w limit e src 0 0 hs (omega arith))

-- On every input of bytes, `VarInt::read` reads a run of at most four bytes with the top bit set
-- and a byte without it as its payload modulo 2 ^ 32, refuses a run of five as too large, and
-- finds a shorter run alone incomplete.
pub read_var_int-Outcome :
    (src : Bytes) → All IsByte src → Outcome 32 4 too_large src (read_var_int src)
unfolding read_var_int
read_var_int-Outcome src h =
    read_loop-Outcome 32 4 35 too_large src refl (omega arith) (Shape-of 4 src h)

-- On every input of bytes, `VarLong::read` reads a run of at most nine bytes with the top bit set
-- and a byte without it as its payload modulo 2 ^ 64, refuses a run of ten as too large, and finds
-- a shorter run alone incomplete.
pub read_var_long-Outcome :
    (src : Bytes) → All IsByte src → Outcome 64 9 var_long_too_large src (read_var_long src)
unfolding read_var_long
read_var_long-Outcome src h =
    read_loop-Outcome 64 9 70 var_long_too_large src refl (omega arith) (Shape-of 9 src h)

-- A run of at most four bytes and a last byte, whatever follows them.
pub read_var_int_accepts :
    (xs : Bytes) (b : ℕ) (rest : Bytes)
    → All IsMore xs
    → length xs ≤ 4
    → IsLast b
    → read_var_int (xs ++ b ∷ rest) ≡ ok (payload (xs ++ b ∷ []) % 2 ^ 32) rest
unfolding read_var_int
read_var_int_accepts xs b rest hs le hb =
    read_loop-accept 32 35 too_large xs b 0 0 rest hs hb (omega arith) (omega arith) (omega arith)
    ∙ ap (λ (t : ℕ). ok (t % 2 ^ 32) rest) (omega arith)

-- Five bytes with the top bit set are refused, whatever follows them.
pub read_var_int_refuses :
    (xs : Bytes) (b : ℕ) (rest : Bytes)
    → All IsMore xs
    → length xs ≡ 4
    → IsMore b
    → read_var_int (xs ++ b ∷ rest) ≡ err too_large rest
unfolding read_var_int
read_var_int_refuses xs b rest hs e hb =
    read_loop-refuse 32 35 too_large xs b 0 0 rest hs hb (omega arith) (omega arith)
