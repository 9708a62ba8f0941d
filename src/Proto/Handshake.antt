-- ===== src/Proto/Handshake.antt =====
-- crates/mc-proto/src/handshake.rs: the first packet of a connection.
use pico_server_rs.Base.{ℕ, ◌<◌, ◌≡◌, ◌⊎◌, Option, none, some, arith}
use pico_server_rs.Base.Words.{Bytes, IsU32, IsU16}
use pico_server_rs.Base.Read.{Reader, pure, throw, lift, require, get_be, ◌>>=◌, ◌>>◌}
use pico_server_rs.Base.Codec.{
  Writer, ◌▹◌, put_be, Codec-then, Codec-lift, Codec-word, Codec-map, read-write,
}
use pico_server_rs.Varint.{read_var_int, write_var_int}
use pico_server_rs.Varint.RoundTrip.{Codec-var_int}
use pico_server_rs.Proto.State.{
  State, handshake, status, login, from_handshake_next_state, to_handshake_value,
  from-to_handshake_value,
}
use pico_server_rs.Proto.Error.{PacketError, var_int, incomplete, invalid_packet_id}
use pico_server_rs.Proto.Packet.{Packet, RoundTrips}
use pico_server_rs.Proto.Text.{read_string, write_string, IsText, Codec-string}

pub record Handshake : Type 0 where
  pub protocol_version : ℕ
  pub server_address : Bytes
  pub server_port : ℕ
  pub next_state : State

-- `ok_or(e)?`
abbrev pub ok_or {ℓ} : {A : Type ℓ} → PacketError → Option A → Reader PacketError A
ok_or e none = throw e
ok_or e (some a) = pure a

unfoldable pub write_handshake : Handshake → Writer
write_handshake h =
    write_var_int h.protocol_version
    ▹ write_string h.server_address
    ▹ put_be 2 h.server_port
    ▹ write_var_int (to_handshake_value h.next_state)

unfoldable pub read_handshake : Reader PacketError Handshake
read_handshake = do
  proto_ver ← lift var_int read_var_int
  addr ← read_string
  require 2 (incomplete 2)
  port ← get_be 2
  next_state_val ← lift var_int read_var_int
  next_state ←
      ok_or (invalid_packet_id next_state_val handshake) (from_handshake_next_state next_state_val)
  pure (record {
    protocol_version = proto_ver;
    server_address = addr;
    server_port = port;
    next_state = next_state;
  })

abbrev pub handshake_packet : Packet Handshake
handshake_packet = record { id = 0x00; write = write_handshake; read = read_handshake }

pub record IsValid (h : Handshake) : Type 0 where
  pub version_word : IsU32 h.protocol_version
  pub address_text : IsText h.server_address
  pub port_word : IsU16 h.server_port
  pub asks_for : (h.next_state ≡ status) ⊎ (h.next_state ≡ login)

pub to_handshake_value-lt : (s : State) → to_handshake_value s < 3
unfolding to_handshake_value
to_handshake_value-lt handshake = omega arith
to_handshake_value-lt _ = omega arith

-- A handshake that asks for the status or the login state, whose numbers fit their types and whose
-- address is a string of a length that fits an i32, is read back as it was written.
pub Handshake-RoundTrips : (h : Handshake) → IsValid h → RoundTrips handshake_packet h
unfolding write_handshake read_handshake
Handshake-RoundTrips h v =
    let value = to_handshake_value h.next_state in
    let known = (from-to_handshake_value h.next_state).1 v.asks_for in
    read-write (
      Codec-then _ (Codec-lift var_int (Codec-var_int h.protocol_version v.version_word)) (
        Codec-then _ (Codec-string h.server_address v.address_text) (
          Codec-word 2 (incomplete 2) h.server_port _ v.port_word (
            Codec-map _
              (Codec-lift var_int
                (Codec-var_int value (omega (arith, to_handshake_value-lt h.next_state))))
              (λ rest. rw known)))))
