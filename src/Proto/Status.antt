-- ===== src/Proto/Status.antt =====
-- crates/mc-proto/src/status.rs: the server list ping.
use pico_server_rs.Base.{ℕ, refl}
use pico_server_rs.Base.Words.{Bytes, IsU64}
use pico_server_rs.Base.Read.{Reader, pure, require, get_be, ◌>>=◌, ◌>>◌}
use pico_server_rs.Base.Codec.{Writer, skip, put_be, Codec-last_word, Codec-map, read-write}
use pico_server_rs.Proto.Error.{PacketError, incomplete}
use pico_server_rs.Proto.Packet.{Packet, RoundTrips}
use pico_server_rs.Proto.Text.{read_string, write_string, IsText, Codec-string}

-- A packet with no payload.
abbrev pub StatusRequest : Type 0
StatusRequest = Unit {0}

unfoldable pub write_status_request : StatusRequest → Writer
write_status_request p = skip

unfoldable pub read_status_request : Reader PacketError StatusRequest
read_status_request = pure tt

abbrev pub status_request_packet : Packet StatusRequest
status_request_packet = record {
  id = 0x00;
  write = write_status_request;
  read = read_status_request;
}

pub record StatusResponse : Type 0 where
  pub json : Bytes

unfoldable pub write_status_response : StatusResponse → Writer
write_status_response p = write_string p.json

unfoldable pub read_status_response : Reader PacketError StatusResponse
read_status_response = do json ← read_string; pure (record { json = json })

abbrev pub status_response_packet : Packet StatusResponse
status_response_packet = record {
  id = 0x00;
  write = write_status_response;
  read = read_status_response;
}

-- A ping, and the pong that echoes its payload: an i64.
pub record PingRequest : Type 0 where
  pub payload : ℕ

unfoldable pub write_ping_request : PingRequest → Writer
write_ping_request p = put_be 8 p.payload

unfoldable pub read_ping_request : Reader PacketError PingRequest
read_ping_request = do
  require 8 (incomplete 8)
  payload ← get_be 8
  pure (record { payload = payload })

abbrev pub ping_request_packet : Packet PingRequest
ping_request_packet = record { id = 0x01; write = write_ping_request; read = read_ping_request }

pub record PongResponse : Type 0 where
  pub payload : ℕ

unfoldable pub write_pong_response : PongResponse → Writer
write_pong_response p = put_be 8 p.payload

unfoldable pub read_pong_response : Reader PacketError PongResponse
read_pong_response = do
  require 8 (incomplete 8)
  payload ← get_be 8
  pure (record { payload = payload })

abbrev pub pong_response_packet : Packet PongResponse
pong_response_packet = record { id = 0x01; write = write_pong_response; read = read_pong_response }

-- The packets of the status state are read back as they were written, where the JSON text fits a
-- string and the payloads are 64-bit words.
pub status_packets-RoundTrip :
    (json : Bytes) (ping pong : ℕ)
    → IsText json
    → IsU64 ping
    → IsU64 pong
    → RoundTrips status_request_packet tt
      × RoundTrips status_response_packet (record { json = json })
      × RoundTrips ping_request_packet (record { payload = ping })
      × RoundTrips pong_response_packet (record { payload = pong })
unfolding write_status_request read_status_request write_status_response read_status_response
    write_ping_request read_ping_request write_pong_response read_pong_response
status_packets-RoundTrip json ping pong hj hi ho = (
  λ rest. refl,
  read-write (Codec-map _ (Codec-string json hj) (λ rest. refl)),
  read-write (Codec-last_word 8 (incomplete 8) ping _ hi (λ rest. refl)),
  read-write (Codec-last_word 8 (incomplete 8) pong _ ho (λ rest. refl)),
)
