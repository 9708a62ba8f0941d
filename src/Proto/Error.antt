-- ===== src/Proto/Error.antt =====
-- `PacketError` of crates/mc-proto/src/packet.rs. What an I/O error carries is left out.
use pico_server_rs.Base.{ℕ}
use pico_server_rs.Varint.{VarIntError}
use pico_server_rs.Proto.State.{State}

pub data PacketError : Type 0 where
  var_int : VarIntError → PacketError
  incomplete : ℕ → ℕ → PacketError
  invalid_packet_id : ℕ → State → PacketError
  io : PacketError
