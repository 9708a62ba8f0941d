-- ===== src/World/Packed.antt =====
-- `extract_packed` and `calculate_bits_per_block` of crates/mc-world/src/chunk.rs. `none` is a panic.
pub mod Window
pub mod Extract
pub mod Width
use pico_server_rs.Base.{
  ℕ, zero, suc, ◌+◌, ◌-◌, ◌*◌, ◌/◌, ◌%◌, ◌^◌, List, Bool, true, false, Option, none, some, ltb, leb,
  ◌==◌, if◌then◌else◌, get_elem?, bit_and, bit_or, unwrap_or,
}

-- `1u64 << bits`: a shift by 64 or more goes by its remainder.
abbrev pub one_shifted : ℕ → ℕ
one_shifted bits = 2 ^ (bits % 64)

-- `x << k` on a u64.
abbrev pub shift_left : ℕ → ℕ → ℕ
shift_left x k = x * 2 ^ (k % 64) % 2 ^ 64

-- The two branches of `extract_packed` behind the read of the first word. `next` is the word
-- behind it.
abbrev pub from_words : ℕ → ℕ → ℕ → Option ℕ → ℕ
from_words bits shift low next =
    let value = low / 2 ^ shift in
    let mask = one_shifted bits - 1 in
    if ltb 64 (shift + bits)
    then bit_and (bit_or value (shift_left (unwrap_or 0 next) (64 - shift))) mask
    else bit_and value mask

-- `data[long_idx]`, which panics out of bounds, and what follows it.
abbrev pub with_word : ℕ → ℕ → Option ℕ → Option ℕ → Option ℕ
with_word bits shift next none = none
with_word bits shift next (some low) = some (from_words bits shift low next)

-- `extract_packed` behind the computation of `bit_offset`.
abbrev pub extract_at : List ℕ → ℕ → ℕ → Option ℕ
extract_at words bits bit_offset =
    let long_idx = bit_offset / 64 in
    with_word bits (bit_offset % 64) (get_elem? words (suc long_idx)) (get_elem? words long_idx)

-- `extract_packed`. The words and the result are bit patterns.
unfoldable pub extract_packed : List ℕ → ℕ → ℕ → Option ℕ
extract_packed words bits index =
    if bits == 0 then some 0 else extract_at words bits (index * bits % 2 ^ 64)

-- `while (1u64 << bits) < palette_size { bits += 1 }`, on fuel.
unfoldable pub grow_bits : ℕ → ℕ → ℕ → ℕ
grow_bits zero size bits = bits
grow_bits (suc fuel) size bits =
    let more = grow_bits fuel size (suc bits) in if ltb (one_shifted bits) size then more else bits

-- `bits.min(16)`
abbrev pub at_most_16 : ℕ → ℕ
at_most_16 bits = if ltb 16 bits then 16 else bits

-- `calculate_bits_per_block`. A size is below 2 ^ 63, so the loop stops at 63 at the latest.
unfoldable pub calculate_bits_per_block : ℕ → ℕ
unfolding grow_bits
calculate_bits_per_block palette_size =
    if leb palette_size 1 then 0 else at_most_16 (grow_bits 60 palette_size 4)
