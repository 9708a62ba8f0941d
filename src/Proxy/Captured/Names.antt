-- ===== src/Proxy/Captured/Names.antt =====
-- The name that relay.rs of crates/mc-proxy/src gives to a captured packet, read by server.rs.
use pico_server_rs.Base.{
  ℕ, ◌^◌, ◌<◌, ◌≤◌, ◌≡◌, refl, ap, ◌∙◌, [], ◌∷◌, ◌++◌, true, false, none, some, ◌==◌, leb,
  if◌then◌else◌, and_then, All, arith, lt→ltb,
}
use pico_server_rs.Base.Words.{Bytes}
use pico_server_rs.World.Chunk.Parse.{digits_of}
use pico_server_rs.World.Region.Name.{digits_value, below}
use pico_server_rs.World.Region.Name.RoundTrip.{
  IsDigit, Starts, digits_of-IsDigit, decimal-Starts, decimal,
}
use pico_server_rs.Proxy.Captured.{
  play_pkt, dot_bin, id_0x, hex_02, play_name, starts_with, ends_with, before, behind_id, parse_u32,
  parse_hex, packet_of, captured_name,
}
use pico_server_rs.Proxy.Captured.Hex.{Text, hex_02-Text, parse_hex-hex_02}

-- A byte other than `stop`.
abbrev IsPlain : ℕ → ℕ → Type 0
IsPlain stop c = (c == stop) ≡ false

before-append :
    (stop : ℕ) (s t : Bytes) → All (IsPlain stop) s → before stop (s ++ (stop ∷ t)) ≡ some s
unfolding before
before-append stop [] t h = let here : (stop == stop) ≡ true = ground arith in rw here refl
before-append stop (c ∷ s) t (h, hs) = rw (h, before-append stop s t hs) refl

behind_id-append : (s t : Bytes) → All (IsPlain 105) s → behind_id (s ++ t) ≡ behind_id t
unfolding behind_id starts_with
behind_id-append [] t h = refl
behind_id-append (c ∷ s) t (h, hs) =
    let other : (105 == c) ≡ false = ground arith in rw other (behind_id-append s t hs)

IsDigit-IsPlain : (stop : ℕ) (s : Bytes) → 58 ≤ stop → All IsDigit s → All (IsPlain stop) s
IsDigit-IsPlain stop [] far h = tt
IsDigit-IsPlain stop (c ∷ s) far ((lo, hi), hs) = (ground arith, IsDigit-IsPlain stop s far hs)

ends_with-append :
    (suffix s t : Bytes) → ends_with suffix t ≡ true → ends_with suffix (s ++ t) ≡ true
unfolding ends_with
ends_with-append suffix [] t h = h
ends_with-append suffix (c ∷ s) t h = rw (ends_with-append suffix s t h) refl

parse_u32-digits :
    (s : Bytes) → Starts s → parse_u32 s ≡ and_then (digits_value 0 s) (below (2 ^ 32))
unfolding parse_u32
parse_u32-digits s (c, [], e, (lo, hi)) = rw e refl
parse_u32-digits s (c, d ∷ t, e, (lo, hi)) =
    let plus : (c == 43) ≡ false = ground arith in rw e (rw plus refl)

parse_u32-digits_of : (n : ℕ) → n < 2 ^ 32 → parse_u32 (digits_of 10 n []) ≡ some n
parse_u32-digits_of n h =
    parse_u32-digits (digits_of 10 n []) (decimal-Starts n)
    ∙ ap (λ o. and_then o (below (2 ^ 32))) (decimal n h)
    ∙ rw (lt→ltb n (2 ^ 32) h) refl

high-IsPlain : (s : Bytes) → All (λ b. 48 ≤ b) s → All (IsPlain 46) s
high-IsPlain [] h = tt
high-IsPlain (c ∷ s) (high, hs) = (ground arith, high-IsPlain s hs)

Text-IsPlain : (s : Bytes) → Text s → All (IsPlain 46) s
Text-IsPlain s (c, t, e, high, hs) = rw e (ground arith, high-IsPlain t hs)

-- What follows the number of a packet in the name of its file.
abbrev behind_number : ℕ → ℕ → Bytes
behind_number id pid = digits_of 20 id [] ++ (95 ∷ (id_0x ++ (hex_02 pid ++ dot_bin)))

digits-IsPlain : (stop places v : ℕ) → 58 ≤ stop → All (IsPlain stop) (digits_of places v [])
digits-IsPlain stop places v h =
    IsDigit-IsPlain stop (digits_of places v []) h (digits_of-IsDigit places v [] tt)

play_name-ends : (n id pid : ℕ) → ends_with dot_bin (play_name n id pid) ≡ true
unfolding play_name ends_with
play_name-ends n id pid =
    let code = hex_02 pid ++ dot_bin in
    let connection = digits_of 20 id [] ++ (95 ∷ (id_0x ++ code)) in
    let number = digits_of 10 n [] ++ (95 ∷ connection) in
    ends_with-append dot_bin play_pkt number (
      ends_with-append dot_bin (digits_of 10 n []) (95 ∷ connection) (
        ends_with-append dot_bin (95 ∷ []) connection (
          ends_with-append dot_bin (digits_of 20 id []) (95 ∷ (id_0x ++ code)) (
            ends_with-append dot_bin (95 ∷ id_0x) code
              (ends_with-append dot_bin (hex_02 pid) dot_bin refl)))))

behind_id-play_name :
    (n id pid : ℕ)
    → behind_id (digits_of 10 n [] ++ (95 ∷ behind_number id pid)) ≡ some (hex_02 pid ++ dot_bin)
unfolding behind_id starts_with
behind_id-play_name n id pid =
    behind_id-append (digits_of 10 n []) _ (digits-IsPlain 105 10 n (omega arith))
    ∙ behind_id-append (digits_of 20 id []) _ (digits-IsPlain 105 20 id (omega arith))

packet_of-play_name :
    (n id pid : ℕ)
    → pid < 2 ^ 31
    → packet_of (digits_of 10 n [] ++ (95 ∷ behind_number id pid)) ≡ some pid
packet_of-play_name n id pid h =
    ap (λ o. and_then o (λ id_rest. and_then (before 46 id_rest) parse_hex))
      (behind_id-play_name n id pid)
    ∙ ap (λ o. and_then o parse_hex)
        (before-append 46 (hex_02 pid) _ (Text-IsPlain (hex_02 pid) (hex_02-Text pid)))
    ∙ parse_hex-hex_02 pid h

-- The name that the relay gives to the file of a captured packet, of any number, connection and packet
-- id that is not negative, is read back by the server as that number and packet id from the number 35
-- on, and the packets before it are not used.
pub captured_name-play_name :
    (n id pid : ℕ)
    → n < 2 ^ 32
    → pid < 2 ^ 31
    → captured_name (play_name n id pid) ≡ (if leb 35 n then some (n, pid) else none)
unfolding captured_name play_name starts_with
captured_name-play_name n id pid hn hp =
    let rest = digits_of 10 n [] ++ (95 ∷ behind_number id pid) in
    let number : and_then (before 95 rest) parse_u32 ≡ some n =
      ap (λ o. and_then o parse_u32)
        (before-append 95 (digits_of 10 n []) (behind_number id pid)
          (digits-IsPlain 95 10 n (omega arith)))
      ∙ parse_u32-digits_of n hn in
    ap
      (λ b.
        if b
        then and_then (and_then (before 95 rest) parse_u32)
            (λ n. if leb 35 n then and_then (packet_of rest) (λ pid. some (n, pid)) else none)
        else none)
      (play_name-ends n id pid)
    ∙ ap
        (λ o.
          and_then o
            (λ n. if leb 35 n then and_then (packet_of rest) (λ pid. some (n, pid)) else none))
        number
    ∙ ap (λ o. if leb 35 n then and_then o (λ pid. some (n, pid)) else none)
        (packet_of-play_name n id pid hp)
