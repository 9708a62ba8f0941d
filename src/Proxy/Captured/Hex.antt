-- ===== src/Proxy/Captured/Hex.antt =====
-- The hexadecimal numbers in the names of captured packets, written by relay.rs of
-- crates/mc-proxy/src and read by server.rs.
use pico_server_rs.Base.{
  ℕ, zero, suc, ◌+◌, ◌-◌, ◌*◌, ◌/◌, ◌%◌, ◌^◌, ◌<◌, ◌≤◌, ◌≡◌, refl, sym, ap, ◌∙◌, [], ◌∷◌, Bool,
  true, false, some, ◌==◌, ◌&&◌, leb, ltb, if◌then◌else◌, and_then, All, arith, Bool-cases, inl,
  inr, ltb→lt, lt→ltb,
}
use native.Mathlib.Nat.{pow-suc}
use pico_server_rs.Base.Words.{Bytes}
use pico_server_rs.World.Region.Name.{below}
use pico_server_rs.Proxy.Captured.{hex_char, hex_digits, hex_02, hex_digit, hex_value, parse_hex}

hex_digit-hex_char : (d : ℕ) → d < 16 → hex_digit (hex_char d) ≡ some d
hex_digit-hex_char d h = elim (Bool-cases (ltb d 10)) [
  | inl low ↦
      let inside : (leb 48 (48 + d) && leb (48 + d) 57) ≡ true = ground arith in
      let back : 48 + d - 48 ≡ d = omega arith in rw (low, inside, back) refl
  | inr high ↦
      let past : (leb 48 (87 + d) && leb (87 + d) 57) ≡ false = ground arith in
      let inside : (leb 97 (87 + d) && leb (87 + d) 102) ≡ true = ground arith in
      let back : 87 + d - 87 ≡ d = omega arith in rw (high, past, inside, back) refl
]

hex_value-hex_char :
    (acc d : ℕ) (s : Bytes) → d < 16 → hex_value acc (hex_char d ∷ s) ≡ hex_value (acc * 16 + d) s
unfolding hex_value
hex_value-hex_char acc d s h =
    ap (λ o. and_then o (λ d. hex_value (acc * 16 + d) s)) (hex_digit-hex_char d h)

hex_last :
    (v : ℕ) (rest : Bytes) → v < 16 → hex_value 0 (hex_char (v % 16) ∷ rest) ≡ hex_value v rest
hex_last v rest h =
    let whole : 0 * 16 + v % 16 ≡ v = omega arith in
    hex_value-hex_char 0 (v % 16) rest (omega arith) ∙ ap (λ a. hex_value a rest) whole

hex_value-hex_digits :
    (places v : ℕ) (rest : Bytes)
    → v < 16 ^ places
    → 1 ≤ places
    → hex_value 0 (hex_digits places v rest) ≡ hex_value v rest
unfolding hex_digits
hex_value-hex_digits zero v rest h p = absurd (omega arith)
hex_value-hex_digits (suc zero) v rest h p =
    let small : ltb v 16 ≡ true = lt→ltb v 16 (omega arith) in
    ap (λ b. hex_value 0 (if b then hex_char (v % 16) ∷ rest else hex_char (v % 16) ∷ rest)) small
    ∙ hex_last v rest (omega arith)
hex_value-hex_digits (suc (suc places)) v rest h p =
    let longer = hex_digits (suc places) (v / 16) (hex_char (v % 16) ∷ rest) in
    elim (Bool-cases (ltb v 16)) [
      | inl small ↦
          ap (λ b. hex_value 0 (if b then hex_char (v % 16) ∷ rest else longer)) small
          ∙ hex_last v rest (ltb→lt _ _ small)
      | inr more ↦
          let whole : v / 16 * 16 + v % 16 ≡ v = omega arith in
          let fits : v / 16 < 16 ^ suc places = omega (arith, pow-suc 16 (suc places)) in
          ap (λ b. hex_value 0 (if b then hex_char (v % 16) ∷ rest else longer)) more
          ∙ hex_value-hex_digits (suc places) (v / 16) (hex_char (v % 16) ∷ rest) fits (omega arith)
          ∙ hex_value-hex_char (v / 16) (v % 16) rest (omega arith)
          ∙ ap (λ a. hex_value a rest) whole
    ]

-- Some bytes from "0" on.
abbrev pub Text : Bytes → Type 0
Text s = (c : ℕ) × (t : Bytes) × (s ≡ c ∷ t) × (48 ≤ c) × All (λ b. 48 ≤ b) t

hex_char-high : (d : ℕ) → 48 ≤ hex_char d
hex_char-high d = elim (Bool-cases (ltb d 10)) [
  | inl low ↦ rw low (omega arith)
  | inr high ↦ rw high (omega arith)
]

Text-before : (d : ℕ) (s : Bytes) → Text s → Text (hex_char d ∷ s)
Text-before d s (c, t, e, high, rest) = (hex_char d, s, refl, hex_char-high d, rw e (high, rest))

if-Text : (b : Bool) (s t : Bytes) → Text s → Text t → Text (if b then s else t)
if-Text true s t h k = h
if-Text false s t h k = k

hex_digits-Text : (places v : ℕ) (rest : Bytes) → Text rest → Text (hex_digits places v rest)
unfolding hex_digits
hex_digits-Text zero v rest h = h
hex_digits-Text (suc places) v rest h =
    let here = Text-before (v % 16) rest h in
    if-Text (ltb v 16) _ _ here (hex_digits-Text places (v / 16) (hex_char (v % 16) ∷ rest) here)

one_char-Text : (d : ℕ) → Text (hex_char d ∷ [])
one_char-Text d = (hex_char d, [], refl, hex_char-high d, tt)

pub hex_02-Text : (v : ℕ) → Text (hex_02 v)
unfolding hex_02 hex_digits
hex_02-Text v =
    if-Text (ltb v 16) _ _ (48, hex_char v ∷ [], refl, omega arith, (hex_char-high v, tt))
      (if-Text (ltb v 16) _ _ (one_char-Text (v % 16))
        (hex_digits-Text 7 (v / 16) (hex_char (v % 16) ∷ []) (one_char-Text (v % 16))))

parse_hex-Text : (s : Bytes) → Text s → parse_hex s ≡ and_then (hex_value 0 s) (below (2 ^ 31))
unfolding parse_hex
parse_hex-Text s (c, [], e, high, hs) = rw e refl
parse_hex-Text s (c, d ∷ t, e, high, hs) =
    let minus : (c == 45) ≡ false = ground arith in
    let plus : (c == 43) ≡ false = ground arith in
    ap parse_hex e
    ∙ rw (minus, plus) refl
    ∙ ap (λ s. and_then (hex_value 0 s) (below (2 ^ 31))) (sym e)

hex_value-hex_02 : (v : ℕ) → v < 2 ^ 32 → hex_value 0 (hex_02 v) ≡ some v
unfolding hex_02 hex_value
hex_value-hex_02 v h = elim (Bool-cases (ltb v 16)) [
  | inl small ↦
      ap (λ b. hex_value 0 (if b then 48 ∷ hex_char v ∷ [] else hex_digits 8 v [])) small
      ∙ hex_value-hex_char 0 v [] (ltb→lt _ _ small)
      ∙ ap some (omega arith)
  | inr more ↦
      ap (λ b. hex_value 0 (if b then 48 ∷ hex_char v ∷ [] else hex_digits 8 v [])) more
      ∙ hex_value-hex_digits 8 v [] (omega arith) (omega arith)
]

pub parse_hex-hex_02 : (v : ℕ) → v < 2 ^ 31 → parse_hex (hex_02 v) ≡ some v
parse_hex-hex_02 v h =
    parse_hex-Text (hex_02 v) (hex_02-Text v)
    ∙ ap (λ o. and_then o (below (2 ^ 31))) (hex_value-hex_02 v (omega arith))
    ∙ rw (lt→ltb v (2 ^ 31) h) refl
