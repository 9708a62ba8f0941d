-- ===== src/Proxy/Captured.antt =====
-- The files of captured packets: relay.rs of crates/mc-proxy/src writes them, and `run_play_phase` of
-- crates/mc-proxy/src/server.rs looks for them. A name is the list of its bytes; a directory is a list
-- of the names and of what reading each file gives.
pub mod Hex
pub mod Names
pub mod Order
mod Examples
use pico_server_rs.Base.{
  ℕ, zero, suc, ◌+◌, ◌-◌, ◌/◌, ◌%◌, ◌^◌, List, [], ◌∷◌, ◌++◌, Bool, true, false, Option, none, some,
  ◌==◌, ◌*◌, ◌&&◌, ◌||◌, leb, ltb, if◌then◌else◌, and_then, drop, take,
}
use pico_server_rs.Base.Words.{Bytes}
use pico_server_rs.World.Text.{same_text}
use pico_server_rs.World.Chunk.Parse.{digits_of}
use pico_server_rs.World.Region.Name.{digits_value, below}

-- "play_pkt_"
abbrev pub play_pkt : Bytes
play_pkt = 112 ∷ 108 ∷ 97 ∷ 121 ∷ 95 ∷ 112 ∷ 107 ∷ 116 ∷ 95 ∷ []

-- ".bin"
abbrev pub dot_bin : Bytes
dot_bin = 46 ∷ 98 ∷ 105 ∷ 110 ∷ []

-- "id0x"
abbrev pub id_0x : Bytes
id_0x = 105 ∷ 100 ∷ 48 ∷ 120 ∷ []

abbrev pub hex_char : ℕ → ℕ
hex_char d = if ltb d 10 then 48 + d else 87 + d

-- The hexadecimal digits of a number, in front of `rest`.
unfoldable pub hex_digits : ℕ → ℕ → Bytes → Bytes
hex_digits zero v rest = rest
hex_digits (suc places) v rest =
    let longer = hex_digits places (v / 16) (hex_char (v % 16) ∷ rest) in
    if ltb v 16 then hex_char (v % 16) ∷ rest else longer

-- `{:02x}` of an i32.
unfoldable pub hex_02 : ℕ → Bytes
unfolding hex_digits
hex_02 v = if ltb v 16 then 48 ∷ hex_char v ∷ [] else hex_digits 8 v []

-- `format!("play_pkt_{n}_{id}_id0x{pid:02x}.bin")`
unfoldable pub play_name : ℕ → ℕ → ℕ → Bytes
unfolding hex_02
play_name n id pid =
    play_pkt
    ++ (digits_of 10 n []
        ++ (95 ∷ (digits_of 20 id [] ++ (95 ∷ (id_0x ++ (hex_02 pid ++ dot_bin))))))

unfoldable pub starts_with : Bytes → Bytes → Bool
starts_with [] s = true
starts_with (p ∷ ps) [] = false
starts_with (p ∷ ps) (c ∷ s) = p == c && starts_with ps s

unfoldable pub ends_with : Bytes → Bytes → Bool
ends_with suffix [] = same_text suffix []
ends_with suffix (c ∷ s) = ends_with suffix s || same_text suffix (c ∷ s)

abbrev pub onto : ℕ → Option Bytes → Option Bytes
onto c none = none
onto c (some s) = some (c ∷ s)

-- What stands in front of the first `stop`.
unfoldable pub before : ℕ → Bytes → Option Bytes
before stop [] = none
before stop (c ∷ s) = let rest = before stop s in if c == stop then some [] else onto c rest

-- What stands behind the first "id0x".
unfoldable pub behind_id : Bytes → Option Bytes
unfolding starts_with
behind_id [] = none
behind_id (c ∷ s) =
    let rest = behind_id s in if starts_with id_0x (c ∷ s) then some (drop 3 s) else rest

-- `parse::<u32>()`
unfoldable pub parse_u32 : Bytes → Option ℕ
unfolding digits_value
parse_u32 [] = none
parse_u32 (c ∷ []) = and_then (digits_value 0 (c ∷ [])) (below (2 ^ 32))
parse_u32 (c ∷ d ∷ s) =
    and_then (digits_value 0 (if c == 43 then d ∷ s else c ∷ d ∷ s)) (below (2 ^ 32))

abbrev pub hex_digit : ℕ → Option ℕ
hex_digit c =
    if leb 48 c && leb c 57
    then some (c - 48)
    else if leb 97 c && leb c 102
    then some (c - 87)
    else if leb 65 c && leb c 70
    then some (c - 55)
    else none

-- The number that hexadecimal digits stand for, behind `acc`.
unfoldable pub hex_value : ℕ → Bytes → Option ℕ
hex_value acc [] = some acc
hex_value acc (c ∷ s) = and_then (hex_digit c) (λ d. hex_value (acc * 16 + d) s)

-- `i32::from_str_radix(.., 16)`
unfoldable pub parse_hex : Bytes → Option ℕ
unfolding hex_value
parse_hex [] = none
parse_hex (c ∷ []) = and_then (hex_value 0 (c ∷ [])) (below (2 ^ 31))
parse_hex (c ∷ d ∷ s) =
    if c == 45
    then and_then (and_then (hex_value 0 (d ∷ s)) (below (2 ^ 31 + 1)))
        (λ w. some ((2 ^ 32 - w) % 2 ^ 32))
    else and_then (hex_value 0 (if c == 43 then d ∷ s else c ∷ d ∷ s)) (below (2 ^ 31))

-- The packet id in the rest of a name.
abbrev pub packet_of : Bytes → Option ℕ
packet_of rest = and_then (behind_id rest) λ id_rest. and_then (before 46 id_rest) parse_hex

-- The number and the packet id in the name of a file, where it is one of a captured packet that is
-- used.
unfoldable pub captured_name : Bytes → Option (ℕ × ℕ)
unfolding starts_with ends_with before behind_id parse_u32 parse_hex
captured_name name =
    let rest = drop 9 name in
    if starts_with play_pkt name && ends_with dot_bin name
    then and_then (and_then (before 95 rest) parse_u32)
        (λ n. if leb 35 n then and_then (packet_of rest) (λ pid. some (n, pid)) else none)
    else none

-- `BTreeMap::insert`, on the list of the entries by ascending numbers.
unfoldable pub insert_packet : ℕ → ℕ × Bytes → List (ℕ × (ℕ × Bytes)) → List (ℕ × (ℕ × Bytes))
insert_packet n packet [] = (n, packet) ∷ []
insert_packet n packet ((m, other) ∷ entries) =
    let rest = insert_packet n packet entries in
    if ltb n m
    then (n, packet) ∷ (m, other) ∷ entries
    else if n == m
    then (n, packet) ∷ entries
    else (m, other) ∷ rest

abbrev pub with_file :
    List (ℕ × (ℕ × Bytes)) → Option (ℕ × ℕ) → Option Bytes → List (ℕ × (ℕ × Bytes))
with_file entries (some (n, pid)) (some body) = insert_packet n (pid, body) entries
with_file entries name file = entries

-- The loop over the directory.
unfoldable pub pkt_map :
    List (ℕ × (ℕ × Bytes)) → List (Bytes × Option Bytes) → List (ℕ × (ℕ × Bytes))
unfolding captured_name insert_packet
pkt_map entries [] = entries
pkt_map entries ((name, file) ∷ files) = pkt_map (with_file entries (captured_name name) file) files

abbrev pub values : List (ℕ × (ℕ × Bytes)) → List (ℕ × Bytes)
values [] = []
values ((n, packet) ∷ entries) = packet ∷ values entries

-- The captured packets, as `run_play_phase` takes them from its directory.
unfoldable pub play_packets : List (Bytes × Option Bytes) → List (ℕ × Bytes)
unfolding pkt_map
play_packets files = take 213 (values (pkt_map [] files))
