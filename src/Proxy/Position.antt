-- ===== src/Proxy/Position.antt =====
-- The block positions that crates/mc-proxy/src/server.rs unpacks in `handle_sb_packet`.
pub mod Unpack
use pico_server_rs.Base.{ℕ, ◌+◌, ◌-◌, ◌*◌, ◌/◌, ◌%◌, ◌^◌, bit_and, ltb, if◌then◌else◌}

-- `v >> k` on an i64: the shift of a negative pattern fills with ones.
abbrev pub shift_right : ℕ → ℕ → ℕ
shift_right v k = if ltb v (2 ^ 63) then v / 2 ^ k else v / 2 ^ k + (2 ^ 64 - 2 ^ (64 - k))

-- `(pos >> 38) as i32`
unfoldable pub block_x : ℕ → ℕ
block_x pos = shift_right pos 38 % 2 ^ 32

-- `(pos << 52 >> 52) as i32`
unfoldable pub block_y : ℕ → ℕ
block_y pos = shift_right (pos * 2 ^ 52 % 2 ^ 64) 52 % 2 ^ 32

-- `((pos >> 12) & 0x3FFFFFF) as i32`
unfoldable pub block_z : ℕ → ℕ
block_z pos = bit_and (shift_right pos 12) 0x3FFFFFF % 2 ^ 32
