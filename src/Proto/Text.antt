-- ===== src/Proto/Text.antt =====
-- `read_string` and `write_string` of crates/mc-proto/src/handshake.rs.
use pico_server_rs.Base.{ℕ, ◌^◌, ◌<◌, ◌≡◌, sym, [], ◌++◌, true, if◌then◌else◌, length, arith}
use pico_server_rs.Base.Words.{Bytes, as_usize, as_i32}
use pico_server_rs.Base.Read.{Reader, pure, throw, lift, require, split_to, ◌>>=◌, ◌>>◌}
use pico_server_rs.Base.Codec.{
  Writer, ◌▹◌, put, Codec, Codec-then, Codec-lift, Codec-require, Codec-put, Codec-map,
}
use pico_server_rs.Base.Utf8.{is_utf8}
use pico_server_rs.Varint.{read_var_int, write_var_int}
use pico_server_rs.Varint.RoundTrip.{Codec-var_int}
use pico_server_rs.Proto.Error.{PacketError, var_int, incomplete, io}

-- `String::from_utf8(...).map_err(...)`.
unfoldable pub from_utf8 : Bytes → Reader PacketError Bytes
from_utf8 bs = if is_utf8 bs then pure bs else throw io

-- `read_string`.
unfoldable pub read_string : Reader PacketError Bytes
unfolding from_utf8
read_string = do
  len ← lift var_int read_var_int
  let n = as_usize len
  require n (incomplete n)
  bytes ← split_to n
  from_utf8 bytes

-- `write_string`.
unfoldable pub write_string : Bytes → Writer
write_string s = write_var_int (as_i32 (length s)) ▹ put s

-- A `String` whose length fits an i32.
pub record IsText (s : Bytes) : Type 0 where
  pub utf8 : is_utf8 s ≡ true
  pub short : length s < 2 ^ 31

pub as_usize-as_i32 : (n : ℕ) → n < 2 ^ 31 → as_usize (as_i32 n) ≡ n
as_usize-as_i32 n h = ground arith

-- The part of `read_string` behind the length.
abbrev text_of : ℕ → Reader PacketError Bytes
text_of n = require n (incomplete n) >> (split_to n >>= from_utf8)

Codec-text_of : (n : ℕ) (s : Bytes) → length s ≡ n → IsText s → Codec (put s) (text_of n) s s
unfolding from_utf8
Codec-text_of n s e t =
    Codec-require n (incomplete n) s (omega arith)
      (Codec-map from_utf8 (Codec-put n s e) (λ rest. rw t.utf8))

-- The bytes of a string on the wire.
abbrev pub text_bytes : Bytes → Bytes
text_bytes s = write_var_int (as_i32 (length s)) [] ++ s

pub Codec-string : (s : Bytes) → IsText s → Codec (write_string s) read_string (text_bytes s) s
unfolding write_string read_string
Codec-string s t =
    let n = length s in
    Codec-then (λ len. text_of (as_usize len))
      (Codec-lift var_int (Codec-var_int (as_i32 n) (omega arith)))
      (Codec-text_of (as_usize (as_i32 n)) s (sym (as_usize-as_i32 n t.short)) t)
