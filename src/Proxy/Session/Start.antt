-- ===== src/Proxy/Session/Start.antt =====
-- What a client is sent when it enters play: `run_play_phase` and the start of `finish_play_start` of
-- crates/mc-proxy/src/server.rs.
use pico_server_rs.Base.{
  ℕ, ◌≤◌, ◌≡◌, refl, ap, ◌∙◌, List, [], ◌∷◌, ◌++◌, Option, none, some, and_then, length, All, arith,
  append_assoc, true, false,
}
use mathlib.Core.Bool.{not}
use pico_server_rs.Base.Words.{Bytes, IsU64}
use pico_server_rs.Proxy.Ids.Clientbound.{cb_login}
use pico_server_rs.Proxy.LoginPacket.{login_bytes}
use pico_server_rs.Proxy.Pickup.{Sent}
use pico_server_rs.Proxy.State.{
  Floats, Position, ServerState, new_state, default_player, visible_chunks, player_chunk,
  chunk_changed, mark_chunks_loaded, next_teleport_id, chunk_of, rows, offsets, contains, load_all,
}
use pico_server_rs.Proxy.State.Chunks.{load_all-loads, same_position_refl}
use pico_server_rs.Proxy.Follow.{send_chunks, chunk_packets, center_packet, batch}
use pico_server_rs.Proxy.Burst.{
  initial_burst, dynamic_burst, send_each, without_template, burst_ids, play_login,
}
use pico_server_rs.Proxy.Session.{replay, play_start, enter_play}
use pico_server_rs.Proxy.Session.Client.{
  Client, nobody, joined, receive_all, receive_all-append, receive-center, receive_all-replay,
}
use pico_server_rs.Proxy.Session.View.{rows-IsPlace, chunk_packets-read, batch-read}
use pico_server_rs.Proxy.Session.Greeting.{
  IsSized, spot_of, after_burst, burst_sent, here, burst-read,
}

module _ (floats : Floats) where
  -- The chunks in view of a new player.
  abbrev view : List Position
  view = rows (chunk_of floats (default_player floats)) offsets offsets

  -- The state of the server that has entered play, what it has sent, and what a client reads in that.
  pub record Started (template : Bytes) (uuid : ℕ) (mined : List ℕ) : Type 0 where
    pub server : ServerState floats
    pub sent : Sent
    pub client : Client
    pub returns : enter_play floats template [] uuid mined ≡ some ((server, mined), sent)
    pub received : receive_all nobody sent ≡ some client
    pub same_entity : client.entity ≡ some server.player.entity_id
    pub same_spot : client.spot ≡ some (spot_of floats server.teleport_id server.player)
    pub same_centre : client.centre ≡ some (player_chunk floats server)
    pub settled : chunk_changed floats server ≡ false
    pub twice : client.chunks ≡ visible_chunks floats server ++ visible_chunks floats server
    pub loaded : All (λ c. contains c server.loaded_chunks ≡ true) (visible_chunks floats server)
    pub all_gone : client.gone ≡ mined

  abbrev loaded_twice : ℕ → ServerState floats
  loaded_twice uuid =
      mark_chunks_loaded floats view (mark_chunks_loaded floats view (after_burst floats uuid))

  -- What is sent, with the packets of a batch.
  abbrev all_sent : ℕ → List ℕ → Sent → Sent
  all_sent uuid mined packets =
      ((cb_login, login_bytes play_login)
        ∷ (burst_sent floats uuid ++ (batch 81 packets ++ center_packet (0, 0) ∷ [])))
      ++ (batch 81 packets
          ++ (center_packet (chunk_of floats (default_player floats)) ∷ replay mined))

  send_each-burst :
      (uuid : ℕ)
      → send_each floats (new_state floats uuid) (without_template burst_ids)
        ≡ (after_burst floats uuid, burst_sent floats uuid)
  unfolding send_each next_teleport_id
  send_each-burst uuid = refl

  -- The chunks in view, in a batch.
  send_visible :
      (template : Bytes) (s : ServerState floats) (packets : Sent)
      → chunk_packets template (visible_chunks floats s) ≡ some packets
      → send_chunks floats template (visible_chunks floats s) s
        ≡ some (mark_chunks_loaded floats (visible_chunks floats s) s, batch 81 packets)
  unfolding send_chunks visible_chunks player_chunk
  send_visible template s packets e =
      ap
        (λ o.
          and_then o
            λ ps. some (mark_chunks_loaded floats (visible_chunks floats s) s, batch 81 ps))
        e

  dynamic_burst-sent :
      (template : Bytes) (uuid : ℕ) (packets : Sent)
      → chunk_packets template view ≡ some packets
      → dynamic_burst floats template (new_state floats uuid)
        ≡ some (
          mark_chunks_loaded floats view (after_burst floats uuid),
          (cb_login, login_bytes play_login)
              ∷ (burst_sent floats uuid ++ (batch 81 packets ++ center_packet (0, 0) ∷ [])),
        )
  unfolding dynamic_burst visible_chunks player_chunk
  dynamic_burst-sent template uuid packets e =
      let after : Sent → Option (ServerState floats × Sent) → Option (ServerState floats × Sent) =
        λ burst o. and_then o λ (s'', chunks). some (
          s'',
          (cb_login, login_bytes play_login) ∷ (burst ++ (chunks ++ center_packet (0, 0) ∷ [])),
        ) in
      ap
        (λ (t : ServerState floats × Sent).
          after t.1 (send_chunks floats template (visible_chunks floats t.0) t.0))
        (send_each-burst uuid)
      ∙ ap (after (burst_sent floats uuid))
          (send_visible template (after_burst floats uuid) packets e)

  play_start-sent :
      (template : Bytes) (uuid : ℕ) (mined : List ℕ) (packets : Sent)
      → chunk_packets template view ≡ some packets
      → play_start floats template (mark_chunks_loaded floats view (after_burst floats uuid), mined)
        ≡ some (
          (loaded_twice uuid, mined),
          batch 81 packets
              ++ (center_packet (chunk_of floats (default_player floats)) ∷ replay mined),
        )
  unfolding play_start visible_chunks player_chunk mark_chunks_loaded
  play_start-sent template uuid mined packets e =
      ap
        (λ o. and_then o λ (s', chunks).
          some ((s', mined), chunks ++ (center_packet s'.last_chunk ∷ replay mined)))
        (send_visible template (mark_chunks_loaded floats view (after_burst floats uuid)) packets e)

  enter_play-sent :
      (template : Bytes) (uuid : ℕ) (mined : List ℕ) (packets : Sent)
      → chunk_packets template view ≡ some packets
      → enter_play floats template [] uuid mined
        ≡ some ((loaded_twice uuid, mined), all_sent uuid mined packets)
  unfolding enter_play initial_burst
  enter_play-sent template uuid mined packets e =
      ap
        (λ o. and_then o λ (s', burst).
          and_then (play_start floats template (s', mined)) (λ (w, sent). some (w, burst ++ sent)))
        (dynamic_burst-sent template uuid packets e)
      ∙ ap
          (λ o. and_then o (λ (w, sent). some (
            w,
            ((cb_login, login_bytes play_login)
                  ∷ (burst_sent floats uuid ++ (batch 81 packets ++ center_packet (0, 0) ∷ [])))
                ++ sent,
          )))
          (play_start-sent template uuid mined packets e)

  start-read :
      (uuid : ℕ) (mined : List ℕ) (packets : Sent)
      → IsSized floats
      → All IsU64 mined
      → ((centre : Option Position) (before : List Position)
          → receive_all (joined 1352 (here floats uuid) centre before []) packets
            ≡ some (joined 1352 (here floats uuid) centre (before ++ view) []))
      → receive_all nobody (all_sent uuid mined packets)
        ≡ some (
            joined 1352
              (here floats uuid)
              (some (chunk_of floats (default_player floats)))
              (view ++ view)
              mined)
  unfolding receive_all
  start-read uuid mined packets sized h read =
      let spot = here floats uuid in
      let home = chunk_of floats (default_player floats) in
      let one = batch 81 packets in
      let hello = (cb_login, login_bytes play_login) ∷ burst_sent floats uuid in
      let origin : Option Position = some (0, 0) in
      let login = burst-read floats uuid sized in
      let first = batch-read 1352 spot [] 81 none [] view packets (read none []) in
      let second = batch-read 1352 spot [] 81 origin view view packets (read origin view) in
      let centred = receive-center 1352 spot none view [] (0, 0) (omega arith) (omega arith) in
      let last =
        receive-center 1352 spot origin (view ++ view) [] home (sized.word _) (sized.word _) in
      let end = replay mined in
      let back = one ++ (center_packet home ∷ end) in
      let parts : all_sent uuid mined packets ≡ hello ++ (one ++ (center_packet (0, 0) ∷ back)) =
        append_assoc hello (one ++ center_packet (0, 0) ∷ []) back
        ∙ ap (λ (t : Sent). hello ++ t) (append_assoc one (center_packet (0, 0) ∷ []) back) in
      ap (λ (t : Sent). receive_all nobody t) parts
      ∙ receive_all-append nobody (joined 1352 spot none [] []) hello
          (one ++ (center_packet (0, 0) ∷ back)) login
      ∙ receive_all-append (joined 1352 spot none [] []) (joined 1352 spot none view []) one
          (center_packet (0, 0) ∷ back) first
      ∙ ap (λ o. and_then o (λ c. receive_all c back)) centred
      ∙ receive_all-append (joined 1352 spot origin view [])
          (joined 1352 spot origin (view ++ view) []) one (center_packet home ∷ end) second
      ∙ ap (λ o. and_then o (λ c. receive_all c end)) last
      ∙ receive_all-replay 1352 spot (some home) (view ++ view) [] mined h

  -- With a template of eight bytes or more and no captured packets, entering play returns without a
  -- panic, and what a client reads agrees with the state of the server: the login comes first and names
  -- the entity of the player; the position packet has the coordinates and the teleport id of the
  -- server; the centre of the view, where it is left, is the chunk of the player, which is also the
  -- last one that the server noted; the chunks that came in are the chunks in view, in order and each
  -- twice, and all of them count as loaded; and the blocks that are gone are those that were mined,
  -- where their positions are 64-bit patterns. Of f64 it is assumed that its patterns have 64 bits and
  -- that its conversion to an i32 fits.
  pub enter_play-Started :
      (template : Bytes) (uuid : ℕ) (mined : List ℕ)
      → IsSized floats
      → 8 ≤ length template
      → All IsU64 mined
      → Started template uuid mined
  unfolding chunk_changed visible_chunks player_chunk mark_chunks_loaded send_each next_teleport_id
  enter_play-Started template uuid mined sized h k =
      let home = chunk_of floats (default_player floats) in
      let (packets, e, read) =
        chunk_packets-read 1352 (here floats uuid) [] template view h
          (rows-IsPlace home offsets offsets) in
      record {
        server = loaded_twice uuid;
        sent = all_sent uuid mined packets;
        client = joined 1352 (here floats uuid) (some home) (view ++ view) mined;
        returns = enter_play-sent template uuid mined packets e;
        received = start-read uuid mined packets sized k read;
        same_entity = refl;
        same_spot = refl;
        same_centre = refl;
        settled = ap not (same_position_refl home);
        twice = refl;
        loaded = load_all-loads view (load_all view []);
        all_gone = refl;
      }
