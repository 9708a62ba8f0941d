-- ===== src/Proto/Packet.antt =====
-- The trait `Packet` of crates/mc-proto/src/packet.rs, as a record of its constant and methods.
use pico_server_rs.Base.{ℕ, ◌≡◌, [], ◌++◌}
use pico_server_rs.Base.Words.{Bytes}
use pico_server_rs.Base.Read.{Reader, ok}
use pico_server_rs.Base.Codec.{Writer}
use pico_server_rs.Proto.Error.{PacketError}

pub record Packet (T : Type 0) : Type 0 where
  pub id : ℕ
  pub write : T → Writer
  pub read : Reader PacketError T

-- `read` gives back the packet that `write` wrote, and leaves whatever follows it.
abbrev pub RoundTrips : {T : Type 0} → Packet T → T → Type 0
RoundTrips p t = (rest : Bytes) → p.read (p.write t [] ++ rest) ≡ ok t rest
