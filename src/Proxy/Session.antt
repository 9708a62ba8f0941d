-- ===== src/Proxy/Session.antt =====
-- The play phase from `finish_play_start` of crates/mc-proxy/src/server.rs on: its start, and its loop
-- as steps over what arrives and over ticks. The frames of a read are given taken apart, each with the
-- uuid that it may draw; `none` is a panic, and a failing socket is left out.
pub mod Steps
pub mod Client
pub mod View
pub mod Greeting
pub mod Start
mod Examples
use pico_server_rs.Base.{ℕ, ◌≡◌, List, [], ◌∷◌, ◌++◌, Option, none, some, and_then}
use pico_server_rs.Base.Words.{Bytes}
use pico_server_rs.Base.Read.{Read, ok, err, panic}
use pico_server_rs.Base.Codec.{◌▹◌, put_be}
use pico_server_rs.Varint.{write_var_int}
use pico_server_rs.Proxy.Ids.Clientbound.{cb_block_update}
use pico_server_rs.Proxy.Pickup.{Sent}
use pico_server_rs.Proxy.State.{Floats, ServerState, new_state, visible_chunks}
use pico_server_rs.Proxy.Follow.{flush, follow_player, on_tick, send_chunks, center_packet}
use pico_server_rs.Proxy.Play.{World, handle_sb_packet}
use pico_server_rs.Proxy.Burst.{initial_burst}

-- A frame from the client, with the uuid that is drawn if a block breaks.
pub record Incoming : Type 0 where
  pub uuid : ℕ
  pub pid : ℕ
  pub body : Bytes

-- The updates of all blocks that were mined before.
unfoldable pub replay : List ℕ → Sent
replay [] = []
replay (pos ∷ changes) = (cb_block_update, (put_be 8 pos ▹ write_var_int 0) []) ∷ replay changes

module _ (floats : Floats) where
  -- What follows a handled packet: the pending updates and spawns.
  abbrev pub flushed : Read ⊥ (World floats) → Option (World floats × Sent)
  unfolding flush
  flushed (ok (s, changes) rest) = let (s', sent) = flush floats s in some ((s', changes), sent)
  flushed (err e rest) = none
  flushed panic = none

  -- A packet of the client.
  unfoldable pub on_frame : World floats → Incoming → Option (World floats × Sent)
  unfolding handle_sb_packet flushed
  on_frame w frame = flushed (handle_sb_packet floats frame.uuid frame.pid w frame.body)

  -- The packets of a read, in order.
  unfoldable pub on_frames : World floats → List Incoming → Option (World floats × Sent)
  unfolding on_frame
  on_frames w [] = some (w, [])
  on_frames w (frame ∷ frames) =
      and_then (on_frame w frame)
        λ (w', sent). and_then (on_frames w' frames) (λ (w'', rest). some (w'', sent ++ rest))

  module _ (template : Bytes) where
    -- A read of the loop: the packets, and then the chunks that came into view.
    unfoldable pub on_read : World floats → List Incoming → Option (World floats × Sent)
    unfolding on_frames follow_player
    on_read w frames = and_then (on_frames w frames) λ ((s, changes), sent).
        and_then (follow_player floats template s)
          λ (s', chunks). some ((s', changes), sent ++ chunks)

    -- `finish_play_start` up to its loop.
    unfoldable pub play_start : World floats → Option (World floats × Sent)
    unfolding replay send_chunks
    play_start (s, changes) =
        and_then (send_chunks floats template (visible_chunks floats s) s) λ (s', chunks).
          some ((s', changes), chunks ++ (center_packet s'.last_chunk ∷ replay changes))

    -- `run_play_phase` up to that loop, with the captured packets and the blocks mined before.
    unfoldable pub enter_play : List (ℕ × Bytes) → ℕ → List ℕ → Option (World floats × Sent)
    unfolding initial_burst play_start
    enter_play captured uuid changes =
        and_then (initial_burst floats template captured (new_state floats uuid))
          λ (s, burst). and_then (play_start (s, changes)) (λ (w, sent). some (w, burst ++ sent))

    -- A round of the loop, one of the branches of its `select!`. BLOCK_CHANGES is shared: another
    -- connection may have added to it between the rounds.
    pub data Step : World floats → World floats → Sent → Type 0 where
      read_step :
          (w w' : World floats) (sent : Sent) (frames : List Incoming)
          → on_read w frames ≡ some (w', sent)
          → Step w w' sent
      tick_step :
          (s s' : ServerState floats) (changes : List ℕ) (sent : Sent)
          → on_tick floats s ≡ some (s', sent)
          → Step (s, changes) (s', changes) sent
      changes_step :
          (s : ServerState floats) (changes changes' : List ℕ) → Step (s, changes) (s, changes') []

    -- The states that the loop can reach, with all that was sent on the way.
    pub data Reach : World floats → World floats → Sent → Type 0 where
      here : (w : World floats) → Reach w w []
      after :
          (w w' w'' : World floats) (past sent : Sent)
          → Reach w w' past
          → Step w' w'' sent
          → Reach w w'' (past ++ sent)
