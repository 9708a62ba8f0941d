-- ===== src/World/Packed/Width.antt =====
-- `calculate_bits_per_block` of crates/mc-world/src/chunk.rs.
use pico_server_rs.Base.{
  ℕ, zero, suc, ◌+◌, ◌-◌, ◌^◌, ◌<◌, ◌≤◌, ◌≡◌, refl, ap, ltb, ◌⊎◌, inl, inr, arith, Bool-cases,
  ltb→lt, ltb_false→le, lt→leb,
}
use pico_server_rs.World.Packed.{one_shifted, grow_bits, at_most_16, calculate_bits_per_block}

-- The least width from `start` on that numbers all of `size` entries.
pub record Least (size start width : ℕ) : Type 0 where
  pub above : start ≤ width
  pub enough : size ≤ 2 ^ width
  pub least : (width ≡ start) ⊎ (2 ^ (width - 1) < size)

one_shifted-small : (bits : ℕ) → bits ≤ 63 → one_shifted bits ≡ 2 ^ bits
one_shifted-small bits h = ap (λ (k : ℕ). 2 ^ k) (omega arith)

Least-earlier :
    (size start width : ℕ)
    → 2 ^ start < size
    → Least size (suc start) width
    → Least size start width
Least-earlier size start width h l = record {
  above = omega (arith, l.above);
  enough = l.enough;
  least = elim l.least [
    | inl e ↦
        let before : width - 1 ≡ start = omega (arith, e) in
        inr (omega (arith, h, ap (λ (k : ℕ). 2 ^ k) before))
    | inr less ↦ inr less
  ];
}

not_last : (size bits : ℕ) → bits ≤ 63 → size ≤ 2 ^ 63 → 2 ^ bits < size → suc bits ≤ 63
not_last size bits low small less = elim (Bool-cases (ltb bits 63)) [
  | inl h ↦ omega (arith, ltb→lt _ _ h)
  | inr h ↦
      let last : bits ≡ 63 = omega (arith, ltb_false→le _ _ h) in
      absurd (omega (arith, ap (λ (k : ℕ). 2 ^ k) last))
]

grow_bits-Least :
    (fuel size bits : ℕ)
    → 64 ≤ bits + fuel
    → bits ≤ 63
    → size ≤ 2 ^ 63
    → Least size bits (grow_bits fuel size bits)
unfolding grow_bits
grow_bits-Least zero size bits room low small = absurd (omega arith)
grow_bits-Least (suc fuel) size bits room low small =
    elim (Bool-cases (ltb (one_shifted bits) size)) [
      | inl more ↦
          let less : 2 ^ bits < size = omega (arith, ltb→lt _ _ more, one_shifted-small bits low) in
          let next = not_last size bits low small less in
          let later = grow_bits-Least fuel size (suc bits) (omega arith) next small in
          rw more (Least-earlier size bits _ less later)
      | inr stop ↦
          let bound : size ≤ 2 ^ bits =
            omega (arith, ltb_false→le _ _ stop, one_shifted-small bits low) in
          rw stop (record { above = omega arith; enough = bound; least = inl refl })
    ]

-- For a palette of 2 to 2 ^ 63 entries the width is the least one from 4 on that numbers every
-- entry, or 16 where that is more.
pub calculate_bits_per_block-Least :
    (size : ℕ)
    → 1 < size
    → size ≤ 2 ^ 63
    → (width : ℕ) × Least size 4 width × (calculate_bits_per_block size ≡ at_most_16 width)
unfolding calculate_bits_per_block
calculate_bits_per_block-Least size h small = (
  grow_bits 60 size 4,
  grow_bits-Least 60 size 4 (omega arith) (omega arith) small,
  rw (lt→leb size 1 h) refl,
)
