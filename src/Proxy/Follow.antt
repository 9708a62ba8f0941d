-- ===== src/Proxy/Follow.antt =====
-- What crates/mc-proxy/src/server.rs sends as the player moves, for each packet and for each tick:
-- `send_chunks`, and the parts of the loop in `finish_play_start`. What is sent is the list of packet
-- ids and bodies; `none` is a panic, and a failing socket is left out.
pub mod Loaded
use pico_server_rs.Base.{
  ℕ, List, [], ◌∷◌, ◌++◌, Bool, true, false, Option, none, some, if◌then◌else◌, length, and_then,
}
use pico_server_rs.Base.Words.{Bytes, as_i32}
use pico_server_rs.Base.Codec.{◌▹◌, put_be}
use pico_server_rs.Varint.{write_var_int}
use pico_server_rs.Proxy.Chunk.{LevelChunk, to_bytes}
use pico_server_rs.Proxy.Ids.Clientbound.{
  cb_block_update, cb_chunk_batch_start, cb_chunk_batch_finished, cb_level_chunk_with_light,
  cb_set_chunk_cache_center, cb_keep_alive, cb_set_time, cb_ticking_state, cb_ticking_step,
}
use pico_server_rs.Proxy.Pickup.{Sent, pickup_tick}
use pico_server_rs.Proxy.State.{
  Floats, Position, ServerState, advance_tick, chunk_changed, new_visible_chunks,
  mark_chunks_loaded,
}

-- `while let Some((pos, block)) = pending_block_updates.pop() { ... }`: the last one first.
unfoldable pub block_updates : List (ℕ × ℕ) → Sent
block_updates [] = []
block_updates ((pos, block) ∷ updates) =
    block_updates updates ++ (cb_block_update, (put_be 8 pos ▹ write_var_int block) []) ∷ []

-- `for &(cx, cz) in chunks { ... }`
unfoldable pub chunk_packets : Bytes → List Position → Option Sent
chunk_packets template [] = some []
chunk_packets template ((cx, cz) ∷ chunks) =
    and_then (to_bytes template (record { chunk_x = cx; chunk_z = cz })) λ body.
      and_then (chunk_packets template chunks)
        λ rest. some ((cb_level_chunk_with_light, body) ∷ rest)

-- The packets of n chunks between the start and the end of their batch.
abbrev pub batch : ℕ → Sent → Sent
batch n packets =
    (cb_chunk_batch_start, [])
    ∷ (packets ++ (cb_chunk_batch_finished, write_var_int (as_i32 n) []) ∷ [])

abbrev pub center_packet : Position → ℕ × Bytes
center_packet (cx, cz) = (cb_set_chunk_cache_center, (write_var_int cx ▹ write_var_int cz) [])

module _ (floats : Floats) where
  -- What is sent behind each packet of the client: the block updates, and the spawns in order.
  unfoldable pub flush : ServerState floats → ServerState floats × Sent
  unfolding block_updates
  flush s = (
    record s { pending_block_updates = []; pending_spawns = [] },
    block_updates s.pending_block_updates ++ s.pending_spawns,
  )

  -- `send_chunks`.
  unfoldable pub send_chunks :
      Bytes → List Position → ServerState floats → Option (ServerState floats × Sent)
  unfolding chunk_packets
  send_chunks template [] s = some (s, [])
  send_chunks template (c ∷ cs) s =
      and_then (chunk_packets template (c ∷ cs))
        λ packets. some (mark_chunks_loaded floats (c ∷ cs) s, batch (length (c ∷ cs)) packets)

  -- The chunks that came into view, and then the new centre; nothing where none did.
  abbrev pub send_new :
      Bytes → List Position → ServerState floats → Option (ServerState floats × Sent)
  send_new template [] s = some (s, [])
  send_new template (c ∷ cs) s =
      and_then (send_chunks template (c ∷ cs) s)
        λ (s', sent). some (s', sent ++ center_packet s'.last_chunk ∷ [])

  -- `if state.chunk_changed() { ... }`
  unfoldable pub follow_player : Bytes → ServerState floats → Option (ServerState floats × Sent)
  unfolding send_chunks
  follow_player template s =
      if chunk_changed floats s
      then send_new template (new_visible_chunks floats s) s
      else some (s, [])

  -- The packets of every tick; the f32 20.0 is its pattern.
  unfoldable pub tick_packets : ServerState floats → Sent
  tick_packets s =
      (cb_keep_alive, put_be 8 s.tick_count [])
      ∷ (cb_set_time, (put_be 8 s.tick_count ▹ put_be 1 0x00) [])
      ∷ (cb_ticking_state, (put_be 4 0x41a00000 ▹ put_be 1 0) [])
      ∷ (cb_ticking_step, write_var_int 0 [])
      ∷ []

  -- A tick of the loop: `advance_tick` and `send_per_tick`.
  unfoldable pub on_tick : ServerState floats → Option (ServerState floats × Sent)
  unfolding tick_packets
  on_tick s =
      let s' = advance_tick floats s in
      and_then (pickup_tick floats s') λ (s'', sent). some (s'', tick_packets s' ++ sent)
