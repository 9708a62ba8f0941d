-- ===== src/Proxy/Position/Unpack.antt =====
-- What comes out of a packed block position, against the layout x: 26 bits, z: 26 bits, y: 12 bits.
use pico_server_rs.Base.{ℕ, ◌+◌, ◌-◌, ◌*◌, ◌^◌, ◌<◌, ◌≡◌, ltb, if◌then◌else◌, arith}
use pico_server_rs.Base.Bits.{low_bits}
use pico_server_rs.Proxy.Position.{shift_right, block_x, block_y, block_z}

-- The i32 that a word of n bits stands for, where its highest bit is the sign.
abbrev pub signed : ℕ → ℕ → ℕ
signed n v = if ltb v (2 ^ (n - 1)) then v else v + (2 ^ 32 - 2 ^ n)

abbrev pub packed : ℕ → ℕ → ℕ → ℕ
packed x y z = x * 2 ^ 38 + z * 2 ^ 12 + y

block_x-packed :
    (x y z : ℕ) → x < 2 ^ 26 → y < 2 ^ 12 → z < 2 ^ 26 → block_x (packed x y z) ≡ signed 26 x
unfolding block_x
block_x-packed x y z hx hy hz = ground arith

block_y-packed :
    (x y z : ℕ) → x < 2 ^ 26 → y < 2 ^ 12 → z < 2 ^ 26 → block_y (packed x y z) ≡ signed 12 y
unfolding block_y
block_y-packed x y z hx hy hz = ground arith

block_z-packed : (x y z : ℕ) → x < 2 ^ 26 → y < 2 ^ 12 → z < 2 ^ 26 → block_z (packed x y z) ≡ z
unfolding block_z
block_z-packed x y z hx hy hz = rw (low_bits 26 (shift_right (packed x y z) 12)) (ground arith)

-- From a position that is packed as x * 2^38 + z * 2^12 + y, of words of 26, 26 and 12 bits, x and y
-- come back with their sign, and z comes back without one: a negative z is read as z + 2^26.
pub unpack-packed :
    (x y z : ℕ)
    → x < 2 ^ 26
    → y < 2 ^ 12
    → z < 2 ^ 26
    → (block_x (packed x y z) ≡ signed 26 x)
      × (block_y (packed x y z) ≡ signed 12 y)
      × (block_z (packed x y z) ≡ z)
unpack-packed x y z hx hy hz =
    (block_x-packed x y z hx hy hz, block_y-packed x y z hx hy hz, block_z-packed x y z hx hy hz)
