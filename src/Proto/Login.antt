-- ===== src/Proto/Login.antt =====
-- crates/mc-proto/src/login.rs: the packets of the login state.
use pico_server_rs.Base.{ℕ, ◌≡◌, refl}
use pico_server_rs.Base.Words.{Bytes, IsU128}
use pico_server_rs.Base.Read.{Reader, pure, require, get_be, ◌>>=◌, ◌>>◌}
use pico_server_rs.Base.Codec.{
  Writer, ◌▹◌, put_be, Codec-then, Codec-last_word, Codec-map, read-write,
}
use pico_server_rs.Proto.Error.{PacketError, incomplete}
use pico_server_rs.Proto.Packet.{Packet, RoundTrips}
use pico_server_rs.Proto.Text.{read_string, write_string, IsText, Codec-string}

-- What the packets use of the crate `uuid`: a `Uuid` is made from a u128 and gives it back.
pub record UuidCrate : Type 1 where
  pub Uuid : Type 0
  pub from_u128 : ℕ → Uuid
  pub as_u128 : Uuid → ℕ
  pub as_u128-lt : (u : Uuid) → IsU128 (as_u128 u)
  pub from-as : (u : Uuid) → from_u128 (as_u128 u) ≡ u

module _ (crate : UuidCrate) where
  open crate use {Uuid, from_u128, as_u128, as_u128-lt, from-as}

  pub record LoginStart : Type 0 where
    pub name : Bytes
    pub uuid : Uuid

  unfoldable pub write_login_start : LoginStart → Writer
  write_login_start p = write_string p.name ▹ put_be 16 (as_u128 p.uuid)

  unfoldable pub read_login_start : Reader PacketError LoginStart
  read_login_start = do
    name ← read_string
    require 16 (incomplete 16)
    bits ← get_be 16
    pure (record { name = name; uuid = from_u128 bits })

  abbrev pub login_start_packet : Packet LoginStart
  login_start_packet = record { id = 0x00; write = write_login_start; read = read_login_start }

  -- A login start whose name is UTF-8 of a length that fits an i32 is read back as it was written.
  pub LoginStart-RoundTrips : (p : LoginStart) → IsText p.name → RoundTrips login_start_packet p
  unfolding write_login_start read_login_start
  LoginStart-RoundTrips p h = read-write (
      Codec-then _ (Codec-string p.name h) (
        Codec-last_word 16 (incomplete 16) (as_u128 p.uuid) _ (as_u128-lt p.uuid)
          (λ rest. rw (from-as p.uuid))))

pub record LoginDisconnect : Type 0 where
  pub reason : Bytes

unfoldable pub write_login_disconnect : LoginDisconnect → Writer
write_login_disconnect p = write_string p.reason

unfoldable pub read_login_disconnect : Reader PacketError LoginDisconnect
read_login_disconnect = do reason ← read_string; pure (record { reason = reason })

abbrev pub login_disconnect_packet : Packet LoginDisconnect
login_disconnect_packet = record {
  id = 0x00;
  write = write_login_disconnect;
  read = read_login_disconnect;
}

-- A disconnect whose reason is UTF-8 of a length that fits an i32 is read back as it was written.
pub LoginDisconnect-RoundTrips :
    (p : LoginDisconnect) → IsText p.reason → RoundTrips login_disconnect_packet p
unfolding write_login_disconnect read_login_disconnect
LoginDisconnect-RoundTrips p h = read-write (Codec-map _ (Codec-string p.reason h) (λ rest. refl))

-- The packets of the login state are read back as they were written, where the name and the reason
-- are UTF-8 of a length that fits an i32.
pub login_packets-RoundTrip :
    (crate : UuidCrate) (p : LoginStart crate) (q : LoginDisconnect)
    → IsText p.name
    → IsText q.reason
    → RoundTrips (login_start_packet crate) p × RoundTrips login_disconnect_packet q
login_packets-RoundTrip crate p q hp hq =
    (LoginStart-RoundTrips crate p hp, LoginDisconnect-RoundTrips q hq)
