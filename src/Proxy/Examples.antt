-- ===== src/Proxy/Examples.antt =====
-- The theorems of crates/mc-proxy at concrete inputs.
use pico_server_rs.Base.{
  ℕ, zero, suc, ◌+◌, ◌-◌, ◌^◌, ◌≡◌, refl, ap, ◌∙◌, [], ◌∷◌, ◌++◌, true, Option, none, some, All,
  arith, inr, replicate, length, ◌≤◌,
}
use pico_server_rs.Base.Words.{Bytes, IsByte, of_be}
use pico_server_rs.Base.Read.{ok, panic}
use pico_server_rs.Base.Utf8.{is_utf8}
use pico_server_rs.Varint.{read_var_int, var_int_len, write_var_int}
use pico_server_rs.Framing.Drain.{CutAt}
use pico_server_rs.Proto.State.{login, to_handshake_value}
use pico_server_rs.Proto.Packet.{RoundTrips}
use pico_server_rs.Proto.Handshake.{Handshake, handshake_packet, write_handshake}
use pico_server_rs.Proxy.Relay.{
  parse_handshake_next, on_client_frame, st_handshake, st_login, handshake-Relayed,
}
use pico_server_rs.Proxy.Chunk.{read_varint_from_slice}
use pico_server_rs.Proxy.Chunk.Slice.{taken, read_varint_from_slice-read_var_int}
use pico_server_rs.Proxy.Chunk.Sections.{
  found, panics, layers_from, parse_chunk_sections, parse_template_block_palette,
}
use pico_server_rs.Proxy.Chunk.Layers.{Stacked, parse_chunk_sections-Stacked}
use pico_server_rs.Proxy.Frames.{Zlib, frame_packet, open_frame, try_read_frame_compressed}
use pico_server_rs.Proxy.Frames.RoundTrip.{Fits, inside, try_read_frame_compressed-frame_packet}
use pico_server_rs.Proxy.Frames.Stream.{CanFrame, framed_packet, drain-frame_packet}
use pico_server_rs.Proxy.LoginPacket.{default_login, login_bytes}
use pico_server_rs.Proxy.LoginPacket.RoundTrip.{IsLogin, read_login, read_login-login_bytes}
use pico_server_rs.Proxy.Session.Greeting.{
  overworld-IsText, the_end-IsText, the_nether-IsText, empty-IsText,
}
use pico_server_rs.Proxy.Position.{block_x, block_y, block_z}
use pico_server_rs.Proxy.Position.Unpack.{signed, packed, unpack-packed}

-- A compressor that writes each number in unary, with ones behind it.
unary : ℕ → Bytes → Bytes
unary zero bs = 1 ∷ bs
unary (suc n) bs = 0 ∷ unary n bs

squeeze : Bytes → Bytes
unfolding unary
squeeze [] = []
squeeze (b ∷ bs) = unary b (squeeze bs)

in_front : ℕ → Option Bytes → Option Bytes
in_front b none = none
in_front b (some bs) = some (b ∷ bs)

expand : ℕ → Bytes → Option Bytes
unfolding in_front
expand acc [] = some []
expand acc (zero ∷ bs) = expand (suc acc) bs
expand acc (suc _ ∷ bs) = in_front acc (expand 0 bs)

expand-unary : (n acc : ℕ) (bs : Bytes) → expand acc (unary n bs) ≡ in_front (acc + n) (expand 0 bs)
unfolding expand unary
expand-unary zero acc bs = ap (λ (k : ℕ). in_front k (expand 0 bs)) (omega arith)
expand-unary (suc n) acc bs =
    expand-unary n (suc acc) bs ∙ ap (λ (k : ℕ). in_front k (expand 0 bs)) (omega arith)

expand-squeeze : (bs : Bytes) → expand 0 (squeeze bs) ≡ some bs
unfolding expand squeeze in_front
expand-squeeze [] = refl
expand-squeeze (b ∷ bs) =
    expand-unary b 0 (squeeze bs)
    ∙ rw (expand-squeeze bs) (ap (λ (k : ℕ). some (k ∷ bs)) (omega arith))

unary-IsByte : (n : ℕ) (bs : Bytes) → All IsByte bs → All IsByte (unary n bs)
unfolding unary
unary-IsByte zero bs h = (omega arith, h)
unary-IsByte (suc n) bs h = (omega arith, unary-IsByte n bs h)

squeeze-IsByte : (bs : Bytes) → All IsByte (squeeze bs)
unfolding squeeze
squeeze-IsByte [] = tt
squeeze-IsByte (b ∷ bs) = unary-IsByte b (squeeze bs) (squeeze-IsByte bs)

abbrev unary_zlib : Zlib
unary_zlib = record {
  compress = squeeze;
  decompress = expand 0;
  decompress-compress = expand-squeeze;
  compress-IsByte = squeeze-IsByte;
}

two_bytes-Fits : Fits unary_zlib 5 (7 ∷ 8 ∷ []) true
unfolding var_int_len write_var_int inside
two_bytes-Fits = record {
  id_word = omega arith;
  total_fits = omega arith;
  inside_fits = omega arith;
}

try_read_frame_compressed-frame_packet_example :
    try_read_frame_compressed unary_zlib true
      (frame_packet unary_zlib 5 (7 ∷ 8 ∷ []) true ++ 9 ∷ [])
    ≡ ok (some (5, 7 ∷ 8 ∷ [])) (9 ∷ [])
try_read_frame_compressed-frame_packet_example =
    try_read_frame_compressed-frame_packet unary_zlib 5 (7 ∷ 8 ∷ []) true (9 ∷ []) two_bytes-Fits

drain-frame_packet_example :
    CutAt
      (open_frame unary_zlib true)
      (CanFrame unary_zlib true)
      (framed_packet unary_zlib true)
      2
      ((5, 7 ∷ 8 ∷ []) ∷ [])
      (4 ∷ 0 ∷ [])
      (5 ∷ 7 ∷ 8 ∷ [])
unfolding frame_packet write_var_int var_int_len
drain-frame_packet_example =
    drain-frame_packet unary_zlib true ((5, 7 ∷ 8 ∷ []) ∷ []) 2 (4 ∷ 0 ∷ []) (5 ∷ 7 ∷ 8 ∷ [])
      ((two_bytes-Fits, omega arith), tt) (omega arith) refl

read_varint_from_slice-read_var_int_example :
    read_varint_from_slice (0xac ∷ 0x02 ∷ 5 ∷ []) ≡ taken 3 (read_var_int (0xac ∷ 0x02 ∷ 5 ∷ []))
read_varint_from_slice-read_var_int_example =
    read_varint_from_slice-read_var_int (0xac ∷ 0x02 ∷ 5 ∷ [])

-- The block at x = -1, y = -61, z = 3.
unpack-packed_example :
    (block_x (packed (2 ^ 26 - 1) (2 ^ 12 - 61) 3) ≡ signed 26 (2 ^ 26 - 1))
    × (block_y (packed (2 ^ 26 - 1) (2 ^ 12 - 61) 3) ≡ signed 12 (2 ^ 12 - 61))
    × (block_z (packed (2 ^ 26 - 1) (2 ^ 12 - 61) 3) ≡ 3)
unpack-packed_example =
    unpack-packed (2 ^ 26 - 1) (2 ^ 12 - 61) 3 (omega arith) (omega arith) (omega arith)

default_login-IsLogin : IsLogin default_login
default_login-IsLogin = record {
  entity_word = omega arith;
  few_dimensions = omega arith;
  dimension_texts = (overworld-IsText, (the_end-IsText, (the_nether-IsText, tt)));
  players_word = omega arith;
  view_word = omega arith;
  sim_word = omega arith;
  type_text = empty-IsText;
  name_text = overworld-IsText;
  seed_word = omega arith;
  game_word = omega arith;
  previous_word = omega arith;
  death_valid = tt;
  cooldown_word = omega arith;
  sea_word = omega arith;
}

read_login-login_bytes_example :
    read_login (login_bytes default_login ++ 9 ∷ []) ≡ ok default_login (9 ∷ [])
read_login-login_bytes_example = read_login-login_bytes default_login (9 ∷ []) default_login-IsLogin

abbrev joining : Handshake
joining = record {
  protocol_version = 776;
  server_address = 104 ∷ 105 ∷ [];
  server_port = 25565;
  next_state = login;
}

handshake-Relayed_example :
    RoundTrips handshake_packet joining
    × (parse_handshake_next (write_handshake joining []) ≡ ok 2 [])
    × (on_client_frame st_handshake (0, write_handshake joining []) ≡ ok st_login [])
unfolding is_utf8 to_handshake_value
handshake-Relayed_example = handshake-Relayed joining record {
  version_word = omega arith;
  address_text = record { utf8 = refl; short = omega arith };
  port_word = omega arith;
  asks_for = inr refl;
}

-- The relay panics on a handshake that ends inside its address.
relay_short : parse_handshake_next (0 ∷ 5 ∷ 1 ∷ []) ≡ panic
unfolding parse_handshake_next read_var_int
relay_short = refl

-- A section with the palette entry 9 at position 905.
abbrev one_section : Bytes
one_section = replicate 905 0 ++ 0 ∷ 16 ∷ 0 ∷ 9 ∷ []

-- It fills the layers from -64 on.
one_section-layers :
    parse_chunk_sections one_section ≡ found (layers_from 16 (2 ^ 32 - 64) (9 ∷ []))
unfolding parse_chunk_sections read_varint_from_slice of_be
one_section-layers = refl

parse_chunk_sections-Stacked_example :
    (1 ≤ length (layers_from 16 (2 ^ 32 - 64) (9 ∷ [])))
    × Stacked 0 384 (layers_from 16 (2 ^ 32 - 64) (9 ∷ []))
    × (parse_template_block_palette one_section ≡ found (layers_from 16 (2 ^ 32 - 64) (9 ∷ [])))
parse_chunk_sections-Stacked_example =
    parse_chunk_sections-Stacked one_section (layers_from 16 (2 ^ 32 - 64) (9 ∷ []))
      one_section-layers

-- A palette with the count -1 panics.
negative_palette :
    parse_chunk_sections (replicate 905 0 ++ 0 ∷ 16 ∷ 4 ∷ 255 ∷ 255 ∷ 255 ∷ 255 ∷ 15 ∷ []) ≡ panics
unfolding parse_chunk_sections read_varint_from_slice of_be
negative_palette = refl
