-- ===== src/Proto/State.antt =====
-- crates/mc-proto/src/state.rs, with the conversion back from handshake.rs.
use pico_server_rs.Base.{
  ℕ, ◌≡◌, refl, ◌⊎◌, inl, inr, Bool, true, Option, none, some, leb, ◌==◌, if◌then◌else◌, ◌↔◌, arith,
}
use pico_server_rs.Base.Words.{is_negative}
use mathlib.Core.Bool.{not, ◌&&◌}

pub data State : Type 0 where
  handshake status login configuration play : State

-- `State::from_handshake_next_state`.
unfoldable pub from_handshake_next_state : ℕ → Option State
from_handshake_next_state value =
    if value == 1 then some status else if value == 2 then some login else none

-- `State::to_handshake_value`.
unfoldable pub to_handshake_value : State → ℕ
to_handshake_value status = 1
to_handshake_value login = 2
to_handshake_value _ = 0

-- `(0x00..=hi).contains(&id)` on an i32.
abbrev from_zero_to : ℕ → ℕ → Bool
from_zero_to hi id = not (is_negative id) && leb id hi

-- `State::is_valid_packet_id`.
unfoldable pub is_valid_packet_id : State → ℕ → Bool
is_valid_packet_id handshake id = id == 0x00
is_valid_packet_id status id = from_zero_to 0x01 id
is_valid_packet_id login id = from_zero_to 0x04 id
is_valid_packet_id configuration id = from_zero_to 0x09 id
is_valid_packet_id play id = true

-- The value that a state is written as names that state again exactly for the two states that a
-- handshake can ask for.
pub from-to_handshake_value :
    (s : State)
    → (from_handshake_next_state (to_handshake_value s) ≡ some s) ↔ ((s ≡ status) ⊎ (s ≡ login))
unfolding from_handshake_next_state to_handshake_value
from-to_handshake_value handshake = (λ e. cc, λ e. ground arith)
from-to_handshake_value status = (λ e. inl refl, λ e. refl)
from-to_handshake_value login = (λ e. inr refl, λ e. refl)
from-to_handshake_value configuration = (λ e. cc, λ e. ground arith)
from-to_handshake_value play = (λ e. cc, λ e. ground arith)
