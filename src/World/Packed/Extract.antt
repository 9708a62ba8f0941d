-- ===== src/World/Packed/Extract.antt =====
-- `extract_packed` of crates/mc-world/src/chunk.rs.
use pico_server_rs.Base.{
  unwrap_or, ℕ, suc, ◌+◌, ◌-◌, ◌*◌, ◌/◌, ◌%◌, ◌^◌, ◌<◌, ◌≤◌, ◌≡◌, sym, ap, ◌∙◌, List, Option, none,
  some, false, ltb, ◌==◌, get_elem?, All, get_elem?-inside, get_elem?-outside, All-get_elem?,
  length, arith, Bool-cases, inl, inr, bit_and, bit_or, if◌then◌else◌, ltb→lt, ltb_false→le,
}
use pico_server_rs.Base.Words.{IsU64}
use pico_server_rs.Base.Bits.{pow_two_pos, pow_add, low_bits, bit_or_disjoint, word_split}
use native.Mathlib.Nat.{div-lt_iff_lt-mul, div-add-mod, div-div-eq-div-mul}
use pico_server_rs.World.Packed.{from_words, with_word, extract_at, extract_packed}
use pico_server_rs.World.Packed.Window.{number_of, shift-sum, low-sum, Window-of}

pow_64 : (k : ℕ) → k ≡ 64 → 2 ^ 64 ≡ 2 ^ k
pow_64 k e = ap (λ (j : ℕ). 2 ^ j) (sym e)

-- The word in front, shifted, fits below the bits of the next one.
low_fits : (s d low : ℕ) → s + d ≡ 64 → low < 2 ^ 64 → low / 2 ^ s < 2 ^ d
low_fits s d low e h =
    let power : 2 ^ 64 ≡ 2 ^ d * 2 ^ s = pow_64 (d + s) (omega arith) ∙ pow_add d s in
    (div-lt_iff_lt-mul (pow_two_pos s)).1 (omega (arith, power))

-- The branch of a value in one word.
one_word :
    (bits s low rest : ℕ)
    → s + bits ≤ 64
    → (low + 2 ^ 64 * rest) / 2 ^ s % 2 ^ bits ≡ bit_and (low / 2 ^ s) (2 ^ bits - 1)
one_word bits s low rest h =
    let e = 64 - s - bits in
    let power : 2 ^ 64 ≡ 2 ^ (s + (bits + e)) = pow_64 (s + (bits + e)) (omega arith) in
    ap (λ (p : ℕ). (low + p * rest) / 2 ^ s % 2 ^ bits) power
    ∙ ap (λ (p : ℕ). p % 2 ^ bits) (shift-sum s (bits + e) low rest)
    ∙ low-sum bits e (low / 2 ^ s) rest
    ∙ sym (low_bits bits (low / 2 ^ s))

regroup :
    (S D W a r t h L : ℕ)
    → W ≡ S * D
    → S * a + r ≡ h
    → L + D * (h + W * t) ≡ L + r * D + W * (a + D * t)
regroup S D W a r t h L w e = grind (arith, ap (λ (x : ℕ). D * x) e, ap (λ (x : ℕ). x * a) w)

-- What two words hold above bit s, with the bits that a shift of the second one drops set apart.
above :
    (s d low high t : ℕ)
    → s + d ≡ 64
    → (low + 2 ^ 64 * (high + 2 ^ 64 * t)) / 2 ^ s
      ≡ low / 2 ^ s + high % 2 ^ s * 2 ^ d + 2 ^ 64 * (high / 2 ^ s + 2 ^ d * t)
above s d low high t e =
    let rest = high + 2 ^ 64 * t in
    let power : 2 ^ 64 ≡ 2 ^ (s + d) = pow_64 (s + d) e in
    let product : 2 ^ 64 ≡ 2 ^ s * 2 ^ d = power ∙ pow_add s d in
    ap (λ (p : ℕ). (low + p * rest) / 2 ^ s) power
    ∙ shift-sum s d low rest
    ∙ regroup (2 ^ s) (2 ^ d) (2 ^ 64) (high / 2 ^ s) (high % 2 ^ s) t high (low / 2 ^ s) product
        (div-add-mod high (2 ^ s))

shifted_word : (d s high : ℕ) → high * 2 ^ d % (2 ^ d * 2 ^ s) ≡ high % 2 ^ s * 2 ^ d
shifted_word d s high =
    let zero_in_front : high * 2 ^ d ≡ 0 + high * 2 ^ d = omega arith in
    ap (λ (p : ℕ). p % (2 ^ d * 2 ^ s)) zero_in_front
    ∙ word_split d s 0 high (pow_two_pos d)
    ∙ omega arith

-- The branch of a value across two words.
two_words :
    (bits s d low high t : ℕ)
    → s + d ≡ 64
    → bits ≤ 64
    → low < 2 ^ 64
    → (low + 2 ^ 64 * (high + 2 ^ 64 * t)) / 2 ^ s % 2 ^ bits
      ≡ bit_and (bit_or (low / 2 ^ s) (high * 2 ^ d % 2 ^ 64)) (2 ^ bits - 1)
two_words bits s d low high t e small h =
    let kept = low / 2 ^ s + high % 2 ^ s * 2 ^ d in
    let power : 2 ^ 64 ≡ 2 ^ (bits + (64 - bits)) = pow_64 (bits + (64 - bits)) (omega arith) in
    let product : 2 ^ 64 ≡ 2 ^ d * 2 ^ s = pow_64 (d + s) (omega arith) ∙ pow_add d s in
    let shifted : high * 2 ^ d % 2 ^ 64 ≡ high % 2 ^ s * 2 ^ d =
      ap (λ (p : ℕ). high * 2 ^ d % p) product ∙ shifted_word d s high in
    let joined : bit_or (low / 2 ^ s) (high * 2 ^ d % 2 ^ 64) ≡ kept =
      ap (λ (p : ℕ). bit_or (low / 2 ^ s) p) shifted
      ∙ bit_or_disjoint d (low / 2 ^ s) (high % 2 ^ s) (low_fits s d low e h) in
    ap (λ (p : ℕ). p % 2 ^ bits) (above s d low high t e)
    ∙ ap (λ (p : ℕ). (kept + p * (high / 2 ^ s + 2 ^ d * t)) % 2 ^ bits) power
    ∙ low-sum bits (64 - bits) kept (high / 2 ^ s + 2 ^ d * t)
    ∙ sym (ap (λ (p : ℕ). bit_and p (2 ^ bits - 1)) joined ∙ low_bits bits kept)

-- Both branches at once: the bits that the code takes from two words are those above bit s.
from_words-window :
    (bits s low t : ℕ) (next : Option ℕ)
    → 1 ≤ bits
    → bits ≤ 63
    → s < 64
    → low < 2 ^ 64
    → from_words bits s low next
      ≡ (low + 2 ^ 64 * (unwrap_or 0 next + 2 ^ 64 * t)) / 2 ^ s % 2 ^ bits
from_words-window bits s low t next one small inside h =
    let width : bits % 64 ≡ bits = omega arith in
    let high = unwrap_or 0 next in
    elim (Bool-cases (ltb 64 (s + bits))) [
      | inl over ↦
          let spans = ltb→lt 64 (s + bits) over in
          let away : (64 - s) % 64 ≡ 64 - s = omega arith in
          rw (over, width, away)
            (sym (two_words bits s (64 - s) low high t (omega arith) (omega arith) h))
      | inr within ↦
          let fits = ltb_false→le 64 (s + bits) within in
          rw (within, width) (sym (one_word bits s low (high + 2 ^ 64 * t) fits))
    ]

at_bit :
    (words : List ℕ) (bits off q s low : ℕ)
    → All IsU64 words
    → 1 ≤ bits
    → bits ≤ 63
    → off ≡ 64 * q + s
    → s < 64
    → get_elem? words q ≡ some low
    → from_words bits s low (get_elem? words (suc q)) ≡ number_of words / 2 ^ off % 2 ^ bits
at_bit words bits off q s low hs one small split inside e =
    let (t, window) = Window-of words q low hs e in
    let bound = All-get_elem? IsU64 words q low hs e in
    let whole : 2 ^ off ≡ 2 ^ (64 * q) * 2 ^ s = ap (λ (k : ℕ). 2 ^ k) split ∙ pow_add (64 * q) s in
    let shifted : number_of words / 2 ^ off ≡ number_of words / 2 ^ (64 * q) / 2 ^ s =
      ap (λ (k : ℕ). number_of words / k) whole
      ∙ sym (div-div-eq-div-mul (number_of words) (2 ^ (64 * q)) (2 ^ s)) in
    from_words-window bits s low t (get_elem? words (suc q)) one small inside bound
    ∙ sym (ap (λ (k : ℕ). k % 2 ^ bits) (shifted ∙ ap (λ (k : ℕ). k / 2 ^ s) window))

-- Entry `index` of width `bits`, from 1 to 63, is the `bits` bits from bit `index * bits` on of the
-- number that the words make, the lowest word first, where that first bit lies in a word; the code
-- panics where it lies behind the last word. Every word is below 2 ^ 64, and the product does not
-- wrap around.
pub extract_packed-number_of :
    (words : List ℕ) (bits index : ℕ)
    → All IsU64 words
    → 1 ≤ bits
    → bits ≤ 63
    → index * bits < 2 ^ 64
    → extract_packed words bits index ≡ (
        if ltb (index * bits) (64 * length words)
        then some (number_of words / 2 ^ (index * bits) % 2 ^ bits)
        else none)
unfolding extract_packed
extract_packed-number_of words bits index hs one small room =
    let off = index * bits in
    let q = off / 64 in
    let s = off % 64 in
    let nonzero : (bits == 0) ≡ false = ground arith in
    let straight : off % 2 ^ 64 ≡ off = omega arith in
    let start : extract_packed words bits index ≡ extract_at words bits off =
      rw nonzero (ap (λ (k : ℕ). extract_at words bits k) straight) in
    start ∙ elim (Bool-cases (ltb off (64 * length words))) [
      | inl within ↦
          let (low, e) = get_elem?-inside words q (omega (arith, ltb→lt _ _ within)) in
          let value = at_bit words bits off q s low hs one small (omega arith) (omega arith) e in
          rw within (ap (λ o. with_word bits s (get_elem? words (suc q)) o) e ∙ ap some value)
      | inr beyond ↦
          let out = get_elem?-outside words q (omega (arith, ltb_false→le _ _ beyond)) in
          rw beyond (ap (λ o. with_word bits s (get_elem? words (suc q)) o) out)
    ]
