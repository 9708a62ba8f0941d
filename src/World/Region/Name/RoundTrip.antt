-- ===== src/World/Region/Name/RoundTrip.antt =====
-- The name that crates/mc-world/src/world.rs writes, read by crates/mc-world/src/region.rs.
use pico_server_rs.Base.{
  ℕ, zero, suc, ◌+◌, ◌-◌, ◌*◌, ◌/◌, ◌%◌, ◌^◌, ◌<◌, ◌≤◌, ◌≡◌, refl, sym, ap, ◌∙◌, [], ◌∷◌, ◌++◌,
  true, false, some, ◌==◌, ◌&&◌, leb, ltb, and_then, All, arith, append_assoc, Bool-cases, inl, inr,
  ltb→lt, ltb_false→le, lt→ltb,
}
use native.Mathlib.Nat.{pow-suc}
use pico_server_rs.Base.Words.{Bytes}
use pico_server_rs.World.Chunk.Parse.{digits_of, to_string}
use pico_server_rs.World.Region.Name.{
  last_dot, before_last_dot, stem_or, file_stem, split_dots, digits_value, below, parse_i32,
  from_parts, region_of_name, region_name,
}

abbrev pub IsDigit : ℕ → Type 0
IsDigit c = (48 ≤ c) × (c ≤ 57)

-- A list that starts with a digit.
abbrev pub Starts : Bytes → Type 0
Starts s = (c : ℕ) × (t : Bytes) × (s ≡ c ∷ t) × IsDigit c

digits_value-digit :
    (acc d : ℕ) (s : Bytes)
    → d < 10
    → digits_value acc ((48 + d) ∷ s) ≡ digits_value (acc * 10 + d) s
unfolding digits_value
digits_value-digit acc d s h =
    let inside : (leb 48 (48 + d) && leb (48 + d) 57) ≡ true = ground arith in
    let back : 48 + d - 48 ≡ d = omega arith in rw (inside, back) refl

one_digit :
    (v : ℕ) (rest : Bytes) → v < 10 → digits_value 0 ((48 + v % 10) ∷ rest) ≡ digits_value v rest
one_digit v rest h =
    let whole : 0 * 10 + v % 10 ≡ v = omega arith in
    digits_value-digit 0 (v % 10) rest (omega arith) ∙ rw whole refl

-- The digits that are written stand for the number, whatever is read behind them.
pub digits_value-digits_of :
    (places v : ℕ) (rest : Bytes)
    → v < 10 ^ places
    → 1 ≤ places
    → digits_value 0 (digits_of places v rest) ≡ digits_value v rest
digits_value-digits_of zero v rest h p = absurd (omega arith)
digits_value-digits_of (suc zero) v rest h p =
    let small : ltb v 10 ≡ true = lt→ltb v 10 (omega arith) in
    rw small (one_digit v rest (omega arith))
digits_value-digits_of (suc (suc places)) v rest h p = elim (Bool-cases (ltb v 10)) [
  | inl small ↦ rw small (one_digit v rest (ltb→lt _ _ small))
  | inr more ↦
      let whole : v / 10 * 10 + v % 10 ≡ v = omega arith in
      let fits : v / 10 < 10 ^ suc places = omega (arith, pow-suc 10 (suc places)) in
      rw more (
        digits_value-digits_of (suc places) (v / 10) ((48 + v % 10) ∷ rest) fits (omega arith)
        ∙ digits_value-digit (v / 10) (v % 10) rest (omega arith)
        ∙ rw whole refl)
]

-- They are digits, and there is one at least.
pub digits_of-IsDigit :
    (places v : ℕ) (rest : Bytes) → All IsDigit rest → All IsDigit (digits_of places v rest)
digits_of-IsDigit zero v rest h = h
digits_of-IsDigit (suc places) v rest h =
    let here : IsDigit (48 + v % 10) = (omega arith, omega arith) in
    elim (Bool-cases (ltb v 10)) [
      | inl small ↦ rw small (here, h)
      | inr more ↦ rw more (digits_of-IsDigit places (v / 10) ((48 + v % 10) ∷ rest) (here, h))
    ]

pub digits_of-Starts :
    (places v : ℕ) (rest : Bytes) → Starts rest → Starts (digits_of places v rest)
digits_of-Starts zero v rest h = h
digits_of-Starts (suc places) v rest h =
    let here : Starts ((48 + v % 10) ∷ rest) =
      (48 + v % 10, rest, refl, (omega arith, omega arith)) in
    elim (Bool-cases (ltb v 10)) [
      | inl small ↦ rw small here
      | inr more ↦ rw more (digits_of-Starts places (v / 10) ((48 + v % 10) ∷ rest) here)
    ]

pub decimal-Starts : (v : ℕ) → Starts (digits_of 10 v [])
decimal-Starts v =
    let here : Starts ((48 + v % 10) ∷ []) = (48 + v % 10, [], refl, (omega arith, omega arith)) in
    elim (Bool-cases (ltb v 10)) [
      | inl small ↦ rw small here
      | inr more ↦ rw more (digits_of-Starts 9 (v / 10) ((48 + v % 10) ∷ []) here)
    ]

-- `parse::<i32>()` on digits alone.
parse_i32-digits :
    (s : Bytes) → Starts s → parse_i32 s ≡ and_then (digits_value 0 s) (below (2 ^ 31))
unfolding parse_i32
parse_i32-digits s (c, [], e, (lo, hi)) = rw e refl
parse_i32-digits s (c, d ∷ t, e, (lo, hi)) =
    let minus : (c == 45) ≡ false = ground arith in
    let plus : (c == 43) ≡ false = ground arith in rw e (rw (minus, plus) refl)

-- Behind a minus sign.
parse_i32-minus :
    (s : Bytes)
    → Starts s
    → parse_i32 (45 ∷ s)
      ≡ and_then
          (and_then (digits_value 0 s) (below (2 ^ 31 + 1)))
          (λ w. some ((2 ^ 32 - w) % 2 ^ 32))
unfolding parse_i32
parse_i32-minus s (c, t, e, h) = rw e refl

pub decimal : (v : ℕ) → v < 2 ^ 32 → digits_value 0 (digits_of 10 v []) ≡ some v
unfolding digits_value
decimal v h = digits_value-digits_of 10 v [] (omega arith) (omega arith)

-- The decimal text of an i32 is read back as that i32.
parse_i32-to_string : (v : ℕ) → v < 2 ^ 32 → parse_i32 (to_string 32 v) ≡ some v
unfolding to_string
parse_i32-to_string v h = elim (Bool-cases (ltb v (2 ^ 31))) [
  | inl positive ↦ rw positive (
      parse_i32-digits (digits_of 10 v []) (decimal-Starts v)
      ∙ ap (λ o. and_then o (below (2 ^ 31))) (decimal v h)
      ∙ rw positive refl)
  | inr negative ↦
      let m = 2 ^ 32 - v in
      let low : ltb m (2 ^ 31 + 1) ≡ true =
        lt→ltb m (2 ^ 31 + 1) (omega (arith, ltb_false→le _ _ negative)) in
      let back : (2 ^ 32 - m) % 2 ^ 32 ≡ v = omega (arith, ltb_false→le _ _ negative) in
      rw negative (
        parse_i32-minus (digits_of 10 m []) (decimal-Starts m)
        ∙ ap (λ o. and_then (and_then o (below (2 ^ 31 + 1))) (λ w. some ((2 ^ 32 - w) % 2 ^ 32)))
            (decimal m (omega (arith, ltb_false→le _ _ negative)))
        ∙ rw low (ap some back))
]

abbrev IsPart : Bytes → Type 0
IsPart s = All (λ c. (c == 46) ≡ false) s

IsDigit-IsPart : (s : Bytes) → All IsDigit s → IsPart s
IsDigit-IsPart [] h = tt
IsDigit-IsPart (c ∷ s) ((lo, hi), hs) = (ground arith, IsDigit-IsPart s hs)

to_string-IsPart : (v : ℕ) → IsPart (to_string 32 v)
unfolding to_string
to_string-IsPart v = elim (Bool-cases (ltb v (2 ^ 31))) [
  | inl positive ↦ rw positive (IsDigit-IsPart _ (digits_of-IsDigit 10 v [] tt))
  | inr negative ↦ rw negative (refl, IsDigit-IsPart _ (digits_of-IsDigit 10 (2 ^ 32 - v) [] tt))
]

split_dots-IsPart : (s : Bytes) → IsPart s → split_dots s ≡ s ∷ []
unfolding split_dots
split_dots-IsPart [] h = refl
split_dots-IsPart (c ∷ s) (h, hs) = rw (h, split_dots-IsPart s hs) refl

split_dots-append : (s t : Bytes) → IsPart s → split_dots (s ++ (46 ∷ t)) ≡ s ∷ split_dots t
unfolding split_dots
split_dots-append [] t h = refl
split_dots-append (c ∷ s) t (h, hs) = rw (h, split_dots-append s t hs) refl

-- ".mca"
abbrev extension : Bytes
extension = 46 ∷ 109 ∷ 99 ∷ 97 ∷ []

before_last_dot-extension : (s : Bytes) → before_last_dot (s ++ extension) ≡ some s
unfolding before_last_dot
before_last_dot-extension [] = refl
before_last_dot-extension (c ∷ s) = ap (last_dot c) (before_last_dot-extension s)

file_stem-extension : (c : ℕ) (s : Bytes) → file_stem (c ∷ (s ++ extension)) ≡ c ∷ s
unfolding file_stem
file_stem-extension c s = ap (stem_or (c ∷ (s ++ extension))) (before_last_dot-extension (c ∷ s))

-- The name of the file of a region gives back the coordinates of that region, negative ones too.
pub region_of_name-region_name :
    (rx rz : ℕ) → rx < 2 ^ 32 → rz < 2 ^ 32 → region_of_name (region_name rx rz) ≡ (rx, rz)
unfolding region_of_name region_name from_parts split_dots
region_of_name-region_name rx rz hx hz =
    let x = to_string 32 rx in
    let z = to_string 32 rz in
    let body = x ++ (46 ∷ z) in
    let joined : x ++ (46 ∷ (z ++ extension)) ≡ body ++ extension =
      sym (append_assoc x (46 ∷ z) extension) in
    let stem : file_stem (region_name rx rz) ≡ 114 ∷ 46 ∷ body =
      ap (λ (t : Bytes). file_stem (114 ∷ 46 ∷ t)) joined ∙ file_stem-extension 114 (46 ∷ body) in
    let parts : split_dots body ≡ x ∷ z ∷ [] =
      split_dots-append x z (to_string-IsPart rx)
      ∙ ap (λ ps. x ∷ ps) (split_dots-IsPart z (to_string-IsPart rz)) in
    ap (λ (t : Bytes). from_parts (split_dots t)) stem
    ∙ ap (λ ps. from_parts ((114 ∷ []) ∷ ps)) parts
    ∙ rw (parse_i32-to_string rx hx, parse_i32-to_string rz hz) refl
