-- ===== src/Varint/Peek.antt =====
-- `VarInt::from_bytes`: a read on a copy of the bytes.
use pico_server_rs.Base.{ℕ, ◌-◌, ◌≤◌, ◌≡◌, refl, ap, ◌∙◌, [], ◌++◌, length, lengths, All, arith}
use pico_server_rs.Base.Words.{Bytes, IsByte, IsU32}
use pico_server_rs.Base.Read.{ok, err}
use pico_server_rs.Varint.{
  VarIntError, incomplete, peeked, var_int_len, var_int_from_bytes, read_var_int, write_var_int,
}
use pico_server_rs.Varint.Encode.{length-write_var_int}
use pico_server_rs.Varint.RoundTrip.{read-write_var_int}
use pico_server_rs.Varint.Taken.{read_var_int-Taken, Taken}
use pico_server_rs.Varint.Outcome.{read_var_int-Outcome, accepted, refused, ran_out}

-- The value of the read, and the number of bytes that it took.
pub var_int_from_bytes-ok :
    (src : Bytes) (v : ℕ) (rest : Bytes)
    → read_var_int src ≡ ok v rest
    → var_int_from_bytes src ≡ ok (v, length src - length rest) src
unfolding var_int_from_bytes
var_int_from_bytes-ok src v rest e = ap (peeked src) e

pub var_int_from_bytes-err :
    (src : Bytes) (x : VarIntError) (rest : Bytes)
    → read_var_int src ≡ err x rest
    → var_int_from_bytes src ≡ err x src
unfolding var_int_from_bytes
var_int_from_bytes-err src x rest e = ap (peeked src) e

pub var_int_from_bytes_nil : var_int_from_bytes [] ≡ err incomplete []
unfolding var_int_from_bytes read_var_int
var_int_from_bytes_nil = refl

pub var_int_from_bytes-write :
    (v : ℕ) (rest : Bytes)
    → IsU32 v
    → var_int_from_bytes (write_var_int v [] ++ rest)
      ≡ ok (v, var_int_len v) (write_var_int v [] ++ rest)
var_int_from_bytes-write v rest h =
    let src = write_var_int v [] ++ rest in
    let size : length src - length rest ≡ var_int_len v =
      omega (lengths, length-write_var_int v [] h) in
    var_int_from_bytes-ok src v rest (read-write_var_int v rest h)
    ∙ ap (λ (k : ℕ). ok (v, k) src) size

-- What a successful `from_bytes` says of its bytes: they begin with `count` bytes that are read as
-- the value, whatever follows.
pub record Peeked (src : Bytes) (v count : ℕ) : Type 0 where
  pub prefix : Bytes
  pub rest : Bytes
  pub src_eq : src ≡ prefix ++ rest
  pub count_eq : length prefix ≡ count
  pub in_range : IsU32 v
  pub longest : count ≤ 5
  pub shortest : var_int_len v ≤ count
  pub again : (more : Bytes) → var_int_from_bytes (prefix ++ more) ≡ ok (v, count) (prefix ++ more)

-- `from_bytes` returns a value or an error, and never panics.
pub data Peek (src : Bytes) : Type 0 where
  found : (v count : ℕ) → var_int_from_bytes src ≡ ok (v, count) src → Peeked src v count → Peek src
  missing : (x : VarIntError) → var_int_from_bytes src ≡ err x src → Peek src

Taken-Peek :
    (src : Bytes) (v : ℕ) (rest : Bytes)
    → read_var_int src ≡ ok v rest
    → Taken src v rest
    → Peek src
Taken-Peek src v rest e t =
    let count = length src - length rest in
    let size : length t.taken ≡ count = omega (lengths, ap length t.src_eq) in
    found v count (var_int_from_bytes-ok src v rest e) (record {
      prefix = t.taken;
      rest = rest;
      src_eq = t.src_eq;
      count_eq = size;
      in_range = t.in_range;
      longest = omega (arith, size, t.longest);
      shortest = omega (arith, size, t.shortest);
      again = λ more.
          var_int_from_bytes-ok (t.taken ++ more) v more (t.again more)
          ∙ ap (λ (k : ℕ). ok (v, k) (t.taken ++ more)) (omega (lengths, size));
    })

pub Peek-of : (src : Bytes) → All IsByte src → Peek src
Peek-of src h = elim (read_var_int-Outcome src h) [
  | accepted xs b rest hs le hb p r ↦ Taken-Peek src _ rest r (read_var_int-Taken src _ rest h r)
  | refused xs b rest hs le hb p r ↦ missing _ (var_int_from_bytes-err src _ rest r)
  | ran_out hs le r ↦ missing _ (var_int_from_bytes-err src _ [] r)
]
