-- ===== src/Varint/RoundTrip.antt =====
-- The readers of varint.rs on what the writers write.
use pico_server_rs.Base.{
  ℕ, zero, suc, ◌+◌, ◌*◌, ◌/◌, ◌%◌, ◌^◌, ◌≤◌, ◌<◌, ◌≡◌, refl, sym, ap, ◌∙◌, [], ◌∷◌, ◌++◌,
  append_assoc, length, length-append_bytes, All, arith,
}
use pico_server_rs.Base.Words.{Bytes, IsByte, IsU32, IsU64}
use pico_server_rs.Base.Read.{ok, err}
use pico_server_rs.Base.Codec.{Codec, Reads, read-write}
use pico_server_rs.Varint.{
  VarIntError, too_large, var_long_too_large, incomplete, read_loop, read_var_int, read_var_long,
  write_var_int, write_var_long,
}
use pico_server_rs.Varint.Groups.{groups, HasDigits-exists, groups-IsByte}
use mathlib.Core.Path.{subst}
use pico_server_rs.Varint.Encode.{write_var_int-groups, write_var_long-groups}
use pico_server_rs.Varint.Decode.{IsMore, IsLast, payload, read_loop-accept, read_loop-incomplete}
use native.Mathlib.Nat.{pow-suc, mod-eq_of_lt}

-- The digits of a number are a run that goes on and a last byte, and stand for the number.
record Run (n v : ℕ) : Type 0 where
  more : Bytes
  last : ℕ
  more_all : All IsMore more
  more_length : length more ≡ n
  last_small : IsLast last
  run_eq : groups n v ≡ more ++ last ∷ []
  payload_eq : payload (more ++ last ∷ []) ≡ v

groups-Run : (n v : ℕ) → v < 128 ^ suc n → Run n v
unfolding groups payload
groups-Run zero v h = record {
  more = [];
  last = v;
  more_all = tt;
  more_length = refl;
  last_small = h;
  run_eq = refl;
  payload_eq = omega arith;
}
groups-Run (suc n) v h =
    let below = groups-Run n (v / 128) (omega (arith, pow-suc 128 (suc n))) in
    record {
      more = (128 + v % 128) ∷ below.more;
      last = below.last;
      more_all = (omega arith, below.more_all);
      more_length = ap suc below.more_length;
      last_small = below.last_small;
      run_eq = ap (λ (t : Bytes). (128 + v % 128) ∷ t) below.run_eq;
      payload_eq = omega (arith, below.payload_eq);
    }

-- Padded forms included: a run within the limit that stands for `v` is read as `v`.
read_loop-groups :
    (w limit : ℕ) (e : VarIntError) (n v : ℕ)
    → v < 128 ^ suc n
    → v < 2 ^ w
    → limit ≤ w + 7
    → 7 * n + 7 ≤ limit
    → Reads (read_loop w limit e 0 0) (groups n v) v
read_loop-groups w limit e n v h hw le room rest =
    let run = groups-Run n v h in
    ap (λ (t : Bytes). read_loop w limit e 0 0 (t ++ rest)) run.run_eq
    ∙ ap (read_loop w limit e 0 0) (append_assoc run.more (run.last ∷ []) rest)
    ∙ read_loop-accept w limit e run.more run.last 0 0 rest run.more_all run.last_small
        (omega arith) le (omega (arith, run.more_length))
    ∙ ap (λ (t : ℕ). ok t rest)
        (ap (λ (t : ℕ). t % 2 ^ w) (omega (arith, run.payload_eq)) ∙ mod-eq_of_lt hw)

pub Codec-var_int : (v : ℕ) → IsU32 v → Codec (write_var_int v) read_var_int (write_var_int v []) v
unfolding read_var_int
Codec-var_int v h =
    let (n, le, d) = HasDigits-exists 4 v (omega arith) in
    record {
      appends = λ buf.
          let written = write_var_int-groups n v d in
          written buf ∙ ap (λ (t : Bytes). buf ++ t) (sym (written []));
      reads = λ rest.
          ap (λ (t : Bytes). (read_loop 32 35 too_large 0 0) (t ++ rest))
            (write_var_int-groups n v d [])
          ∙ read_loop-groups 32 35 too_large n v d.fits h (omega arith) (omega arith) rest;
    }

pub Codec-var_long :
    (v : ℕ) → IsU64 v → Codec (write_var_long v) read_var_long (write_var_long v []) v
unfolding read_var_long
Codec-var_long v h =
    let (n, le, d) = HasDigits-exists 9 v (omega arith) in
    record {
      appends = λ buf.
          let written = write_var_long-groups n v d in
          written buf ∙ ap (λ (t : Bytes). buf ++ t) (sym (written []));
      reads = λ rest.
          ap (λ (t : Bytes). (read_loop 64 70 var_long_too_large 0 0) (t ++ rest))
            (write_var_long-groups n v d [])
          ∙ read_loop-groups 64 70 var_long_too_large n v d.fits h (omega arith) (omega arith) rest;
    }

-- `VarInt::read` gives back what `VarInt::write` wrote of any 32-bit pattern, and leaves whatever
-- follows it.
pub read-write_var_int :
    (v : ℕ) (rest : Bytes) → IsU32 v → read_var_int (write_var_int v [] ++ rest) ≡ ok v rest
read-write_var_int v rest h = read-write (Codec-var_int v h) rest

-- `VarLong::read` gives back what `VarLong::write` wrote of any 64-bit pattern, and leaves
-- whatever follows it.
pub read-write_var_long :
    (v : ℕ) (rest : Bytes) → IsU64 v → read_var_long (write_var_long v [] ++ rest) ≡ ok v rest
read-write_var_long v rest h = read-write (Codec-var_long v h) rest

-- The run in front of a proper prefix of the digits goes on.
groups_prefix :
    (n v : ℕ) (front : Bytes) (x : ℕ) (back : Bytes)
    → groups n v ≡ front ++ x ∷ back
    → All IsMore front × (length front ≤ n)
unfolding groups
groups_prefix n v [] x back e = (tt, omega arith)
groups_prefix zero v (y ∷ front) x back e =
    absurd (omega (arith, ap length e, length-append_bytes front (x ∷ back)))
groups_prefix (suc n) v (y ∷ front) x back e =
    let head : 128 + v % 128 ≡ y = cc in
    let (more, len) = groups_prefix n (v / 128) front x back (cc) in
    ((omega (arith, head), more), omega arith)

-- Every proper prefix of what `VarInt::write` writes is incomplete: a number that is cut anywhere is
-- never taken for another number, nor for one that is too large.
pub read-write_var_int_prefix :
    (v : ℕ) (front : Bytes) (x : ℕ) (back : Bytes)
    → IsU32 v
    → write_var_int v [] ≡ front ++ x ∷ back
    → read_var_int front ≡ err incomplete []
unfolding read_var_int
read-write_var_int_prefix v front x back h e =
    let (n, le, d) = HasDigits-exists 4 v (omega arith) in
    let (more, len) = groups_prefix n v front x back (sym (write_var_int-groups n v d []) ∙ e) in
    read_loop-incomplete 32 35 too_large front 0 0 more (omega arith)

-- What is written for a 32-bit value is bytes.
pub write_var_int-IsByte : (v : ℕ) → IsU32 v → All IsByte (write_var_int v [])
write_var_int-IsByte v h =
    let (n, le, d) = HasDigits-exists 4 v (omega arith) in
    subst (All IsByte) (sym (write_var_int-groups n v d [])) (groups-IsByte n v d.fits)
