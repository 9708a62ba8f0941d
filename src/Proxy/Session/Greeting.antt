-- ===== src/Proxy/Session/Greeting.antt =====
-- The login packet and the burst of `run_play_phase` in crates/mc-proxy/src/server.rs, as a client
-- reads them.
use pico_server_rs.Base.{
  ℕ, ◌≡◌, refl, sym, ap, ◌∙◌, [], ◌∷◌, Option, none, some, and_then, drop, arith, append-nil,
}
use pico_server_rs.Base.Words.{IsU32, IsU64}
use pico_server_rs.Base.Utf8.{is_utf8}
use pico_server_rs.Base.Read.{ok}
use pico_server_rs.Base.Codec.{Codec-then, Codec-map, Codec-be, read-write}
use pico_server_rs.Varint.RoundTrip.{Codec-var_int}
use pico_server_rs.Proto.Text.{IsText}
use pico_server_rs.Proxy.Ids.Clientbound.{cb_login}
use pico_server_rs.Proxy.LoginPacket.{overworld, the_end, the_nether, login_bytes}
use pico_server_rs.Proxy.LoginPacket.RoundTrip.{IsLogin, read_login, read_login-login_bytes}
use pico_server_rs.Proxy.Pickup.{Sent}
use pico_server_rs.Proxy.State.{
  Floats, Player, ServerState, new_state, default_player, next_teleport_id,
}
use pico_server_rs.Proxy.Burst.{send_each, without_template, burst_ids, play_login, position_body}
use pico_server_rs.Proxy.Session.Client.{
  Spot, nobody, joined, read_spot, front, receive, receive_all,
}

pub overworld-IsText : IsText overworld
unfolding is_utf8
overworld-IsText = record { utf8 = refl; short = omega arith }

pub the_end-IsText : IsText the_end
unfolding is_utf8
the_end-IsText = record { utf8 = refl; short = omega arith }

pub the_nether-IsText : IsText the_nether
unfolding is_utf8
the_nether-IsText = record { utf8 = refl; short = omega arith }

pub empty-IsText : IsText []
unfolding is_utf8
empty-IsText = record { utf8 = refl; short = omega arith }

play_login-IsLogin : IsLogin play_login
play_login-IsLogin = record {
  entity_word = omega arith;
  few_dimensions = omega arith;
  dimension_texts = (overworld-IsText, (the_end-IsText, (the_nether-IsText, tt)));
  players_word = omega arith;
  view_word = omega arith;
  sim_word = omega arith;
  type_text = empty-IsText;
  name_text = overworld-IsText;
  seed_word = omega arith;
  game_word = omega arith;
  previous_word = omega arith;
  death_valid = tt;
  cooldown_word = omega arith;
  sea_word = omega arith;
}

read_play_login : read_login (login_bytes play_login) ≡ ok play_login []
read_play_login =
    ap read_login (sym (append-nil (login_bytes play_login)))
    ∙ read_login-login_bytes play_login [] play_login-IsLogin

module _ (floats : Floats) where
  open floats use {F64, to_bits, as_i32, from_i32}

  -- An f64 has 64 bits, and `as i32` gives an i32.
  pub record IsSized : Type 0 where
    pub bits : (v : F64) → IsU64 (to_bits v)
    pub word : (v : F64) → IsU32 (as_i32 v)

  -- Where the player stands, as the position packet says it.
  abbrev pub spot_of : ℕ → Player floats → Spot
  spot_of teleport p = record {
    teleport = teleport;
    x = to_bits p.x;
    y = to_bits p.y;
    z = to_bits p.z;
  }

  read_position :
      (id : ℕ) (s : ServerState floats)
      → IsSized
      → IsU32 id
      → IsU32 s.player.yaw
      → IsU32 s.player.pitch
      → read_spot (position_body floats id s []) ≡ ok (spot_of id s.player) []
  read_position id s sized h hy hp =
      ap read_spot (sym (append-nil (position_body floats id s [])))
      ∙ read-write
          (Codec-then _ (Codec-var_int id h) (
            Codec-then _ (Codec-be 8 (to_bits s.player.x) (omega (arith, sized.bits s.player.x))) (
              Codec-then _ (Codec-be 8 (to_bits s.player.y) (omega (arith, sized.bits s.player.y)))
                (Codec-then _
                  (Codec-be 8 (to_bits s.player.z) (omega (arith, sized.bits s.player.z)))
                  (Codec-then _ (Codec-be 8 0 (omega arith)) (
                    Codec-then _ (Codec-be 8 0 (omega arith)) (
                      Codec-then _ (Codec-be 8 0 (omega arith)) (
                        Codec-then _ (Codec-be 4 s.player.yaw (omega arith)) (
                          Codec-then _ (Codec-be 4 s.player.pitch (omega arith))
                            (Codec-map _ (Codec-be 4 0 (omega arith)) (λ r. refl)))))))))))
          []

  -- What the burst leaves: one teleport id is taken.
  abbrev pub after_burst : ℕ → ServerState floats
  after_burst uuid = record (new_state floats uuid) { teleport_id = 1 }

  abbrev pub burst_sent : ℕ → Sent
  burst_sent uuid = (send_each floats (new_state floats uuid) (without_template burst_ids)).1

  -- The login packet and the burst, as a client reads them.
  abbrev pub here : ℕ → Option Spot
  here uuid = some (spot_of 1 (default_player floats))

  pub burst-read :
      (uuid : ℕ)
      → IsSized
      → receive_all nobody ((cb_login, login_bytes play_login) ∷ burst_sent uuid)
        ≡ some (joined 1352 (here uuid) none [] [])
  unfolding receive_all receive send_each next_teleport_id
  burst-read uuid sized =
      ap
        (λ r.
          and_then (front r (λ p. joined p.entity_id none none [] []))
            (λ c. receive_all c (burst_sent uuid)))
        read_play_login
      ∙ ap
          (λ r.
            and_then (front r (λ spot. joined 1352 (some spot) none [] []))
              (λ c. receive_all c (drop 4 (burst_sent uuid))))
          (read_position 1 (record (new_state floats uuid) { teleport_id = 1 }) sized (omega arith)
            (omega arith) (omega arith))
