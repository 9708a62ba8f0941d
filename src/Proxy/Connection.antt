-- ===== src/Proxy/Connection.antt =====
-- `handle_connection` of crates/mc-proxy/src/server.rs: what each frame does in each phase. The packets
-- that `build_registry_packets` makes and the uuid that a login draws are arguments; what is sent is
-- the list of packet ids and bodies, and a failing socket is left out.
pub mod Join
pub mod Order
mod Examples
use pico_server_rs.Base.{ℕ, ◌≡◌, List, [], ◌∷◌, ◌++◌, Bool, true, false, ◌==◌, if◌then◌else◌}
use pico_server_rs.Base.Words.{Bytes}
use pico_server_rs.Base.Read.{Read, ok, err, panic, Reader, pure, lift, get_be, ◌>>=◌}
use pico_server_rs.Base.Codec.{Writer, ◌▹◌, put_be}
use pico_server_rs.Varint.{VarIntError, read_var_int, write_var_int}
use pico_server_rs.Proto.Login.{UuidCrate}
use pico_server_rs.Proto.Text.{write_string}
use pico_server_rs.Proxy.Play.{TextError, read_text}

-- The names of the phases.
pub data Phase : Type 0 where
  in_handshake in_login in_config : Phase

-- The variables of the loop.
pub record Connection : Type 0 where
  pub phase : Phase
  pub player_uuid : ℕ

abbrev pub new_connection : Connection
new_connection = record { phase = in_handshake; player_uuid = 0 }

-- The errors that end a connection.
pub data ConnectionError : Type 0 where
  number : VarIntError → ConnectionError
  text : TextError → ConnectionError
  not_a_handshake not_a_login : ℕ → ConnectionError

abbrev pub Packets : Type 0
Packets = List (ℕ × Bytes)

-- After a frame the connection goes on, enters the play phase, ends with an error, or panics; with all
-- that was sent.
pub data Outcome : Type 0 where
  next : Connection → Packets → Outcome
  play : ℕ → Packets → Outcome
  failed : ConnectionError → Packets → Outcome
  panicked : Outcome

-- The body of a handshake: its `next`.
unfoldable pub read_next : Reader ConnectionError ℕ
read_next = do
  _ ← lift number read_var_int
  _ ← lift text read_text
  _ ← get_be 2
  lift number read_var_int

abbrev pub enter_login : Connection → Packets → Read ConnectionError ℕ → Outcome
enter_login c sent (ok v _) =
    if v == 2 then next (record c { phase = in_login }) sent else failed (not_a_login v) sent
enter_login c sent (err e _) = failed e sent
enter_login c sent panic = panicked

-- "minecraft:brand" and "vanilla".
abbrev pub brand_key : Bytes
brand_key = 109 ∷ 105 ∷ 110 ∷ 101 ∷ 99 ∷ 114 ∷ 97 ∷ 102 ∷ 116 ∷ 58 ∷ 98 ∷ 114 ∷ 97 ∷ 110 ∷ 100 ∷ []

abbrev pub brand : Bytes
brand = 118 ∷ 97 ∷ 110 ∷ 105 ∷ 108 ∷ 108 ∷ 97 ∷ []

-- One step after the other, while the connection goes on.
abbrev pub go_on : Outcome → (Connection → Packets → Outcome) → Outcome
go_on (next c sent) f = f c sent
go_on (play u sent) f = play u sent
go_on (failed e sent) f = failed e sent
go_on panicked f = panicked

module _ (crate : UuidCrate) (registry_packets : Packets) where
  open crate use {from_u128, as_u128}

  -- The name of a login start, and its uuid as a number.
  unfoldable pub read_login_start : Reader ConnectionError (Bytes × ℕ)
  read_login_start = do
    name ← lift text read_text
    bits ← get_be 16
    pure (name, as_u128 (from_u128 bits))

  -- The two answers to a login start.
  abbrev pub login_answer : ℕ → Bytes → ℕ → Packets
  login_answer fresh name uuid =
      (0x02, (put_be 16 uuid ▹ write_string name ▹ write_var_int 0 ▹ put_be 16 fresh) [])
      ∷ (0x01, (write_string brand_key ▹ write_string brand) [])
      ∷ []

  abbrev pub answer_login : ℕ → Connection → Packets → Read ConnectionError (Bytes × ℕ) → Outcome
  answer_login fresh c sent (ok (name, uuid) _) =
      next (record c { player_uuid = uuid }) (sent ++ login_answer fresh name uuid)
  answer_login fresh c sent (err e _) = failed e sent
  answer_login fresh c sent panic = panicked

  -- The `match` on the phase, with the uuid that a login start would draw.
  unfoldable pub handle_frame : ℕ → ℕ × Bytes → Connection → Packets → Outcome
  unfolding read_next read_login_start
  handle_frame fresh (id, frame_data) c sent = in_phase c.phase
    where
      in_phase : Phase → Outcome
      in_phase in_handshake =
          if id == 0x00
          then enter_login c sent (read_next frame_data)
          else failed (not_a_handshake id) sent
      in_phase in_login =
          if id == 0x00
          then answer_login fresh c sent (read_login_start frame_data)
          else if id == 0x03
          then next (record c { phase = in_config }) (sent ++ registry_packets)
          else next c sent
      in_phase in_config = if id == 0x03 then play c.player_uuid sent else next c sent

  -- The frames of a connection one after the other, each with its fresh uuid.
  unfoldable pub handle_frames : List (ℕ × (ℕ × Bytes)) → Connection → Packets → Outcome
  unfolding handle_frame
  handle_frames [] c sent = next c sent
  handle_frames ((fresh, frame) ∷ frames) c sent =
      go_on (handle_frame fresh frame c sent) (handle_frames frames)
