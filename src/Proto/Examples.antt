-- ===== src/Proto/Examples.antt =====
-- The theorems of crates/mc-proto at concrete packets.
use pico_server_rs.Base.{
  ℕ, ◌≡◌, ◌↔◌, refl, [], ◌∷◌, ◌++◌, Bool, true, false, none, some, ◌==◌, ◌^◌, ◌<◌, arith,
}
use pico_server_rs.Base.Words.{Bytes}
use pico_server_rs.Base.Read.{ok, panic}
use pico_server_rs.Base.Utf8.{is_utf8}
use pico_server_rs.Varint.{var_int_len}
use pico_server_rs.Proto.State.{status}
use pico_server_rs.Proto.Packet.{RoundTrips}
use pico_server_rs.Proto.Rounds.{early_packets-RoundTrip}
use pico_server_rs.Proto.Text.{IsText}
use pico_server_rs.Proto.Frame.{try_read_frame, encode_packet}
use pico_server_rs.Proto.Frame.RoundTrip.{try_read_frame-encode_packet}
use pico_server_rs.Proto.Frame.Panic.{HasWrappingLength, try_read_frame_panic_iff}
use pico_server_rs.Proto.Handshake.{Handshake}
use pico_server_rs.Proto.Login.{UuidCrate, LoginStart, login_start_packet, login_disconnect_packet}
use pico_server_rs.Proto.Status.{
  status_request_packet, status_response_packet, ping_request_packet, pong_response_packet,
}
use pico_server_rs.Proto.Config.Registry.{ClientboundRegistryData, registry_packet}
use pico_server_rs.Proto.Config.Lists.{
  ClientboundUpdateEnabledFeatures, ClientboundSelectKnownPacks, features_packet,
  known_packs_packet,
}
use pico_server_rs.Proto.Config.Packets.{config_packets-RoundTrip}
use pico_server_rs.Proto.Config.Client.{ClientInformation, client_information_packet}

-- "hi", and "é" in two bytes.
abbrev hi : Bytes
hi = 104 ∷ 105 ∷ []

abbrev accent : Bytes
accent = 0xc3 ∷ 0xa9 ∷ []

hi-IsText : IsText hi
unfolding is_utf8
hi-IsText = record { utf8 = refl; short = omega arith }

accent-IsText : IsText accent
unfolding is_utf8
accent-IsText = record { utf8 = refl; short = omega arith }

abbrev greeting : Handshake
greeting = record {
  protocol_version = 776;
  server_address = hi;
  server_port = 25565;
  next_state = status;
}

-- A uuid that is only nil or not.
abbrev small_uuid : UuidCrate
small_uuid = record {
  Uuid = Bool;
  from_u128 = λ v. v == 1;
  as_u128 = bits;
  as_u128-lt = bits-lt;
  from-as = same;
}
  where
    bits : Bool → ℕ
    bits true = 1
    bits false = 0

    bits-lt : (u : Bool) → bits u < 2 ^ 128
    bits-lt true = omega arith
    bits-lt false = omega arith

    same : (u : Bool) → (bits u == 1) ≡ u
    same true = refl
    same false = refl

abbrev start : LoginStart small_uuid
start = record { name = hi; uuid = true }

abbrev registry : ClientboundRegistryData
registry = record { registry_key = hi; entries = record { id = accent; content = none } ∷ [] }

abbrev features : ClientboundUpdateEnabledFeatures
features = record { features = hi ∷ accent ∷ [] }

abbrev packs : ClientboundSelectKnownPacks
packs = record { known_packs = record { namespace = hi; id = hi; version = accent } ∷ [] }

abbrev client : ClientInformation
client = record {
  locale = hi;
  view_distance = 12;
  chat_mode = 1;
  chat_colors = true;
  displayed_skin_parts = 127;
  main_hand = 1;
  enable_text_filtering = false;
  allow_server_listings = true;
}

try_read_frame-encode_packet_example :
    try_read_frame (encode_packet 3 (7 ∷ 8 ∷ []) ++ 9 ∷ [])
    ≡ ok (some (record { id = 3; body = 7 ∷ 8 ∷ [] })) (9 ∷ [])
unfolding var_int_len
try_read_frame-encode_packet_example =
    try_read_frame-encode_packet 3 (7 ∷ 8 ∷ []) (9 ∷ []) (omega arith) (omega arith)

-- The length -1.
abbrev minus_one : Bytes
minus_one = 0xff ∷ 0xff ∷ 0xff ∷ 0xff ∷ 0x0f ∷ []

try_read_frame_panic_iff_example : (try_read_frame minus_one ≡ panic) ↔ HasWrappingLength minus_one
try_read_frame_panic_iff_example = try_read_frame_panic_iff minus_one (omega arith) (omega arith)

config_packets-RoundTrip_example :
    RoundTrips registry_packet registry
    × RoundTrips features_packet features
    × RoundTrips known_packs_packet packs
    × RoundTrips client_information_packet client
config_packets-RoundTrip_example =
    config_packets-RoundTrip registry features packs client hi-IsText (omega arith)
      (record { id_text = accent-IsText; bare = refl }, tt) (omega arith)
      (hi-IsText, (accent-IsText, tt)) (omega arith)
      (record { namespace_text = hi-IsText; id_text = hi-IsText; version_text = accent-IsText }, tt)
      record {
        locale_text = hi-IsText;
        distance_byte = omega arith;
        mode_word = omega arith;
        parts_byte = omega arith;
        hand_word = omega arith;
      }

early_packets-RoundTrip_example :
    RoundTrips status_request_packet tt
    × RoundTrips status_response_packet (record { json = accent })
    × RoundTrips ping_request_packet (record { payload = 7 })
    × RoundTrips pong_response_packet (record { payload = 8 })
    × RoundTrips (login_start_packet small_uuid) start
    × RoundTrips login_disconnect_packet (record { reason = accent })
early_packets-RoundTrip_example =
    early_packets-RoundTrip small_uuid accent 7 8 start (record { reason = accent }) accent-IsText
      (omega arith) (omega arith) hi-IsText accent-IsText
