-- ===== src/Varint/Long.antt =====
-- `VarLong` of crates/mc-core/src/varint.rs, written and read.
use pico_server_rs.Base.{ℕ, ◌+◌, ◌≤◌, ◌≡◌, [], ◌++◌, length}
use pico_server_rs.Base.Words.{Bytes, IsU64}
use pico_server_rs.Base.Read.{ok}
use pico_server_rs.Varint.{read_var_long, write_var_long, var_long_len}
use pico_server_rs.Varint.Encode.{length-write_var_long}
use pico_server_rs.Varint.RoundTrip.{read-write_var_long}

-- `VarLong::read` gives back what `VarLong::write` wrote of any 64-bit pattern, and leaves
-- whatever follows it. `write` appends `encoded_len` bytes, one to ten of them.
pub var_long-RoundTrip :
    (v : ℕ) (buf rest : Bytes)
    → IsU64 v
    → (read_var_long (write_var_long v [] ++ rest) ≡ ok v rest)
      × (length (write_var_long v buf) ≡ length buf + var_long_len v)
      × (1 ≤ var_long_len v)
      × (var_long_len v ≤ 10)
var_long-RoundTrip v buf rest h =
    let (appended, least, most) = length-write_var_long v buf h in
    (read-write_var_long v rest h, appended, least, most)
