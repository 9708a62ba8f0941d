-- ===== src/Proxy/Play.antt =====
-- `handle_sb_packet` of crates/mc-proxy/src/server.rs. A handler reads the body and gives the new
-- state, with the set BLOCK_CHANGES as the list of its elements. The lines that are only printed are
-- left out; what a handler reads for them is read.
pub mod Ends
pub mod Stocked
pub mod Returns
pub mod Held
pub mod Examples
use pico_server_rs.Base.{
  ℕ, ◌+◌, ◌-◌, ◌*◌, ◌%◌, ◌^◌, List, [], ◌∷◌, ◌++◌, Bool, true, false, ◌||◌, Option, none, some, leb,
  ◌==◌, if◌then◌else◌, get_elem?, set, length,
}
use pico_server_rs.Base.Words.{Bytes, add_i32, sub_i32, le_i32, as_usize}
use pico_server_rs.Base.Read.{
  Read, ok, err, panic, Reader, lift, pure, throw, require, split_to, get_be, ◌>>=◌, ◌>>◌,
}
use pico_server_rs.Base.Codec.{◌▹◌, put_be}
use pico_server_rs.Base.Utf8.{is_utf8}
use pico_server_rs.Varint.{VarIntError, read_var_int, write_var_int}
use pico_server_rs.Proxy.Ids.Clientbound.{cb_add_entity, cb_set_entity_data}
use pico_server_rs.Proxy.Ids.Serverbound.{
  sb_client_tick_end, sb_move_player_pos, sb_move_player_pos_rot, sb_move_player_rot, sb_swing,
  sb_client_command, sb_player_action, sb_use_item_on, sb_set_carried_item, sb_keep_alive,
  sb_chat_command,
}
use pico_server_rs.Proxy.Chunk.{get_drop_item_id}
use pico_server_rs.Proxy.Position.{block_x, block_y, block_z}
use pico_server_rs.Proxy.State.{Floats, ItemStack, Player, ItemEntity, ServerState, advance_tick}

-- `VarInt::read(body).unwrap_or(VarInt(0)).0`
abbrev pub or_zero : Read VarIntError ℕ → Read ⊥ ℕ
or_zero (ok v rest) = ok v rest
or_zero (err e rest) = ok 0 rest
or_zero panic = panic

abbrev pub read_or_zero : Reader ⊥ ℕ
read_or_zero src = or_zero (read_var_int src)

-- An error of `anyhow` in `read_string`: of the VarInt, too short, not UTF-8.
pub data TextError : Type 0 where
  length_error : VarIntError → TextError
  too_short not_utf8 : TextError

-- `String::from_utf8(...)?`
abbrev pub checked_text : Bytes → Reader TextError Bytes
checked_text bytes = if is_utf8 bytes then pure bytes else throw not_utf8

-- `read_string` of server.rs.
unfoldable pub read_text : Reader TextError Bytes
read_text = do
  len ← lift length_error read_var_int
  require (as_usize len) (λ _. too_short)
  bytes ← split_to (as_usize len)
  checked_text bytes

-- `HashSet::insert` of an i64 pattern.
abbrev pub insert_position : ℕ → List ℕ → List ℕ
insert_position pos ps = if has ps then ps else pos ∷ ps
  where
    has : List ℕ → Bool
    has [] = false
    has (p ∷ ps) = (pos == p) || has ps

-- One item less in a slot.
abbrev pub use_one : Option ItemStack → Option ItemStack
use_one none = none
use_one (some stack) =
    let count = sub_i32 stack.count 1 in
    if le_i32 count 0 then none else some (record stack { count = count })

module _ (floats : Floats) where
  open floats use {F64, from_bits, to_bits, from_i32, add, half}

  abbrev pub World : Type 0
  World = ServerState floats × List ℕ

  abbrev pub get_f64 : Reader ⊥ F64
  get_f64 = do v ← get_be 8; pure (from_bits v)

  -- `state.player = ...`
  abbrev pub with_player : World → Player floats → World
  with_player (s, changes) p = (record s { player = p }, changes)

  -- SB_MOVE_PLAYER_POS
  unfoldable pub move_player_pos : World → Reader ⊥ World
  move_player_pos (s, changes) body =
      let moved : Reader ⊥ World = do
        x ← get_f64
        y ← get_f64
        z ← get_f64
        _ ← get_be 1
        pure (with_player (s, changes) (record s.player { x = x; y = y; z = z }))
      in if leb 25 (length body) then moved body else ok (s, changes) body

  -- SB_MOVE_PLAYER_POS_ROT
  unfoldable pub move_player_pos_rot : World → Reader ⊥ World
  move_player_pos_rot (s, changes) body =
      let moved : Reader ⊥ World = do
        x ← get_f64
        y ← get_f64
        z ← get_f64
        yaw ← get_be 4
        pitch ← get_be 4
        _ ← get_be 1
        pure (
            with_player (s, changes)
              (record s.player { x = x; y = y; z = z; yaw = yaw; pitch = pitch }))
      in if leb 33 (length body) then moved body else ok (s, changes) body

  -- SB_MOVE_PLAYER_ROT
  unfoldable pub move_player_rot : World → Reader ⊥ World
  move_player_rot (s, changes) body =
      let moved : Reader ⊥ World = do
        yaw ← get_be 4
        pitch ← get_be 4
        _ ← get_be 1
        pure (with_player (s, changes) (record s.player { yaw = yaw; pitch = pitch }))
      in if leb 9 (length body) then moved body else ok (s, changes) body

  -- The body of AddEntity for a dropped item: type 71, no rotation, no data, no velocity.
  abbrev pub add_item_body : ℕ → ℕ → F64 → F64 → F64 → Bytes
  add_item_body eid uuid ex ey ez =
      (write_var_int eid
          ▹ put_be 16 uuid
          ▹ write_var_int 71
          ▹ put_be 8 (to_bits ex)
          ▹ put_be 8 (to_bits ey)
          ▹ put_be 8 (to_bits ez)
          ▹ put_be 1 0
          ▹ put_be 1 0
          ▹ put_be 1 0
          ▹ write_var_int 0
          ▹ put_be 1 0)
        []

  -- The body of SetEntityData: one item of that id, and no components.
  abbrev pub item_data_body : ℕ → ℕ → Bytes
  item_data_body eid item =
      (write_var_int eid
          ▹ put_be 1 8
          ▹ write_var_int 7
          ▹ write_var_int 1
          ▹ write_var_int item
          ▹ write_var_int 0
          ▹ write_var_int 0
          ▹ put_be 1 0xff)
        []

  -- A block that has been dug is air, and its item lies in the middle of it.
  unfoldable pub finish_dig : ℕ → ℕ → World → World
  finish_dig uuid pos (s, changes) =
      let eid = s.next_entity_id in
      let ex = add (from_i32 (block_x pos)) half in
      let ey = add (from_i32 (block_y pos)) half in
      let ez = add (from_i32 (block_z pos)) half in
      let item = get_drop_item_id (block_y pos) in
      let entity : ItemEntity floats = record {
        entity_id = eid;
        item_id = item;
        count = 1;
        x = ex;
        y = ey;
        z = ez;
      } in
      (
        record s {
          pending_block_updates = s.pending_block_updates ++ (pos, 0) ∷ [];
          next_entity_id = add_i32 eid 1;
          pending_spawns =
              s.pending_spawns
              ++ (cb_add_entity, add_item_body eid uuid ex ey ez)
                ∷ (cb_set_entity_data, item_data_body eid item)
                ∷ [];
          item_entities = s.item_entities ++ entity ∷ [];
        },
        insert_position pos changes,
      )

  -- SB_PLAYER_ACTION, with the fresh uuid that action 2 would draw.
  unfoldable pub player_action : ℕ → World → Reader ⊥ World
  unfolding finish_dig
  player_action uuid w = do
    a ← read_or_zero
    pos ← get_be 8
    _ ← get_be 1
    _ ← read_or_zero
    pure (if a == 2 then finish_dig uuid pos w else w)

  -- The held item is used up by one; an index past the end of the inventory panics.
  abbrev pub use_held : World → Option (Option ItemStack) → Reader ⊥ World
  use_held (s, changes) none body = panic
  use_held (s, changes) (some slot) body =
      ok (record s { inventory = set s.inventory s.held_slot (use_one slot) }, changes) body

  -- SB_USE_ITEM_ON
  unfoldable pub use_item_on : World → Reader ⊥ World
  use_item_on (s, changes) = do
    _ ← read_or_zero
    _ ← get_be 8
    _ ← read_or_zero
    _ ← get_be 4
    _ ← get_be 4
    _ ← get_be 4
    _ ← get_be 1
    _ ← read_or_zero
    use_held (s, changes) (get_elem? s.inventory s.held_slot)

  -- SB_SET_CARRIED_ITEM: `as u16` keeps the low 16 bits.
  unfoldable pub set_carried_item : World → Reader ⊥ World
  set_carried_item (s, changes) = do
    slot ← read_or_zero
    pure (record s { held_slot = slot % 2 ^ 16 }, changes)

  -- What is only read to be printed.
  abbrev pub read_number : World → Reader ⊥ World
  read_number w = do _ ← read_or_zero; pure w

  abbrev pub ignored : World → Read TextError Bytes → Read ⊥ World
  ignored w (ok _ rest) = ok w rest
  ignored w (err _ rest) = ok w rest
  ignored w panic = panic

  -- SB_CHAT_COMMAND
  unfoldable pub chat_command : World → Reader ⊥ World
  unfolding read_text
  chat_command w body = ignored w (read_text body)

  -- `handle_sb_packet`; the ids that do nothing are those of the last case.
  unfoldable pub handle_sb_packet : ℕ → ℕ → World → Reader ⊥ World
  unfolding move_player_pos move_player_pos_rot move_player_rot player_action use_item_on
      set_carried_item chat_command
  handle_sb_packet uuid pid (s, changes) =
      let w : World = (s, changes) in
      if pid == sb_client_tick_end
      then pure (advance_tick floats s, changes)
      else if pid == sb_move_player_pos
      then move_player_pos w
      else if pid == sb_move_player_pos_rot
      then move_player_pos_rot w
      else if pid == sb_move_player_rot
      then move_player_rot w
      else if pid == sb_swing
      then read_number w
      else if pid == sb_client_command
      then read_number w
      else if pid == sb_player_action
      then player_action uuid w
      else if pid == sb_use_item_on
      then use_item_on w
      else if pid == sb_set_carried_item
      then set_carried_item w
      else if pid == sb_keep_alive
      then read_number w
      else if pid == sb_chat_command
      then chat_command w
      else pure w
