-- ===== src/Proto/Rounds.antt =====
-- The packets of the status and login states, crates/mc-proto/src/status.rs and login.rs, together.
use pico_server_rs.Base.{ℕ}
use pico_server_rs.Base.Words.{Bytes, IsU64}
use pico_server_rs.Proto.Packet.{RoundTrips}
use pico_server_rs.Proto.Text.{IsText}
use pico_server_rs.Proto.Login.{
  UuidCrate, LoginStart, LoginDisconnect, login_start_packet, login_disconnect_packet,
  login_packets-RoundTrip,
}
use pico_server_rs.Proto.Status.{
  status_request_packet, status_response_packet, ping_request_packet, pong_response_packet,
  status_packets-RoundTrip,
}

-- The packets of the status and login states are read back as they were written, where the JSON text,
-- the name and the reason are UTF-8 of a length that fits an i32 and the payloads are 64-bit words.
pub early_packets-RoundTrip :
    (crate : UuidCrate) (json : Bytes) (ping pong : ℕ) (p : LoginStart crate) (q : LoginDisconnect)
    → IsText json
    → IsU64 ping
    → IsU64 pong
    → IsText p.name
    → IsText q.reason
    → RoundTrips status_request_packet tt
      × RoundTrips status_response_packet (record { json = json })
      × RoundTrips ping_request_packet (record { payload = ping })
      × RoundTrips pong_response_packet (record { payload = pong })
      × RoundTrips (login_start_packet crate) p
      × RoundTrips login_disconnect_packet q
early_packets-RoundTrip crate json ping pong p q hj hi ho hp hq =
    let (request, response, pinged, ponged) = status_packets-RoundTrip json ping pong hj hi ho in
    let (start, disconnect) = login_packets-RoundTrip crate p q hp hq in
    (request, response, pinged, ponged, start, disconnect)
