-- ===== src/Proxy/Chunk/Slice.antt =====
-- The VarInt of a slice against the reader of crates/mc-core/src/varint.rs.
use pico_server_rs.Base.{
  ℕ, ◌+◌, ◌-◌, ◌*◌, ◌≡◌, refl, [], ◌∷◌, Option, none, some, bit_and, ◌==◌, leb, length, Bool-cases,
  inl, inr, arith, ap, sym, ◌∙◌, suc,
}
use pico_server_rs.Base.Words.{Bytes}
use pico_server_rs.Base.Read.{Read, ok, err, panic}
use pico_server_rs.Varint.{VarIntError, too_large, add_group, read_loop, read_var_int}
use pico_server_rs.Proxy.Chunk.{slice_loop, read_varint_from_slice}

-- The value and the number of bytes that a read of n bytes took, and nothing where it failed.
abbrev pub taken : ℕ → Read VarIntError ℕ → Option (ℕ × ℕ)
taken n (ok v rest) = some (v, n - length rest)
taken n (err e rest) = none
taken n panic = none

slice_loop-read_loop :
    (value pos : ℕ) (src : Bytes)
    → slice_loop value pos src
      ≡ taken (pos + length src) (read_loop 32 35 too_large value (pos * 7) src)
unfolding slice_loop read_loop
slice_loop-read_loop value pos [] = refl
slice_loop-read_loop value pos (b ∷ rest) =
    let value' = add_group 32 value (pos * 7) b in
    let shift : (pos + 1) * 7 ≡ pos * 7 + 7 = omega arith in
    let size : pos + 1 + length rest ≡ pos + suc (length rest) = omega arith in
    let limit : leb 35 (pos * 7 + 7) ≡ leb 5 (pos + 1) = ground arith in
    let ih = slice_loop-read_loop value' (pos + 1) rest in
    elim (Bool-cases (bit_and b 0x80 == 0)) [
      | inl last ↦ rw last (ap (λ n. some (value', n)) (omega arith))
      | inr more ↦ elim (Bool-cases (leb 5 (pos + 1))) [
        | inl t ↦ rw (more, limit, t)
        | inr f ↦ rw (more, limit, f, sym shift, sym size, ih)
      ]
    ]

-- On every slice, `read_varint_from_slice` gives the value that `VarInt::read` gives and the number of
-- bytes that it takes, and gives nothing exactly where that fails.
pub read_varint_from_slice-read_var_int :
    (src : Bytes) → read_varint_from_slice src ≡ taken (length src) (read_var_int src)
unfolding read_varint_from_slice read_var_int
read_varint_from_slice-read_var_int src =
    slice_loop-read_loop 0 0 src ∙ ap (λ n. taken n (read_var_int src)) (omega arith)
