-- ===== src/Proxy/Pickup.antt =====
-- The item pickup in `send_per_tick` of crates/mc-proxy/src/server.rs. What the server sends is the
-- list of packet ids and bodies that it frames without compression; `none` is a panic. A write that
-- fails is only logged here, so it changes nothing.
pub mod Remove
pub mod Sync
pub mod Tick
use pico_server_rs.Base.{
  ℕ, zero, suc, ◌+◌, ◌-◌, ◌<◌, ◌%◌, ◌^◌, List, [], ◌∷◌, ◌++◌, Bool, true, false, Option, none, some,
  ltb, leb, ◌==◌, if◌then◌else◌, get_elem?, and_then,
}
use pico_server_rs.Base.Words.{Bytes, add_i32, sub_i32}
use pico_server_rs.Base.Codec.{Writer, ◌▹◌, put_be, skip}
use pico_server_rs.Varint.{write_var_int}
use pico_server_rs.Proxy.Ids.Clientbound.{cb_take_item_entity, cb_container_set_slot}
use pico_server_rs.Proxy.Inventory.{Slot, stow, storage_slots}
use pico_server_rs.Proxy.State.{Floats, Position, ItemStack, Player, ItemEntity, ServerState}

abbrev pub Sent : Type 0
Sent = List (ℕ × Bytes)

-- `Vec::remove`, which panics past the end.
abbrev pub remove {ℓ} : {A : Type ℓ} → ℕ → List A → Option (List A)
remove i [] = none
remove zero (x ∷ xs) = some xs
remove (suc i) (x ∷ xs) = and_then (remove i xs) (λ ys. some (x ∷ ys))

-- `for &idx in picked_up.iter().rev() { item_entities.remove(idx); }`
abbrev pub remove_all {ℓ} : {A : Type ℓ} → List ℕ → List A → Option (List A)
remove_all [] xs = some xs
remove_all (i ∷ is) xs = and_then (remove_all is xs) (remove i)

-- `for (i, x) in xs.iter().enumerate() { if p(x) { picked_up.push(i); } }`, from the index i on.
abbrev pub indices {ℓ} : {A : Type ℓ} → (A → Bool) → ℕ → List A → List ℕ
indices p i [] = []
indices p i (x ∷ xs) = let rest = indices p (suc i) xs in if p x then i ∷ rest else rest

-- The slot number of the player window, and back.
abbrev pub window_slot : ℕ → ℕ
window_slot internal_slot = if ltb internal_slot 9 then internal_slot + 36 else internal_slot

abbrev pub internal_slot : ℕ → ℕ
internal_slot window = if leb 36 window then window - 36 else window

-- The window slots of the stacks among the first n slots, from the slot i on. An index past the end
-- panics.
abbrev pub filled_slots : ℕ → ℕ → List Slot → Option (List ℕ)
filled_slots zero i slots = some []
filled_slots (suc n) i [] = none
filled_slots (suc n) i (none ∷ slots) = filled_slots n (suc i) slots
filled_slots (suc n) i (some stack ∷ slots) =
    and_then (filled_slots n (suc i) slots) (λ ws. some (window_slot i ∷ ws))

abbrev pub slot_item : Slot → Writer
slot_item none = write_var_int 0
slot_item (some stack) =
    write_var_int stack.count ▹ write_var_int stack.item_id ▹ write_var_int 0 ▹ write_var_int 0

-- The update of one window slot.
abbrev pub slot_update : ℕ → ℕ → Slot → ℕ × Bytes
slot_update state_id window slot = (
  cb_container_set_slot,
  (put_be 1 0 ▹ write_var_int state_id ▹ put_be 2 window ▹ slot_item slot) [],
)

-- The updates of the window slots that are listed.
abbrev pub slot_updates : ℕ → List ℕ → List Slot → Option Sent
slot_updates state_id [] slots = some []
slot_updates state_id (window ∷ ws) slots =
    and_then (get_elem? slots (internal_slot window)) λ slot.
      and_then (slot_updates state_id ws slots)
        λ rest. some (slot_update state_id window slot ∷ rest)

module _ (floats : Floats) where
  open floats use {F64, from_i32, add, sub, mul, lt}

  -- Is the entity within four blocks of the player?
  unfoldable pub in_range : Player floats → ItemEntity floats → Bool
  in_range player entity =
      let dx = sub entity.x player.x in
      let dy = sub entity.y player.y in
      let dz = sub entity.z player.z in
      lt (add (add (mul dx dx) (mul dy dy)) (mul dz dz)) (mul (from_i32 4) (from_i32 4))

  -- The packet that tells the client what was taken, unless nothing was.
  abbrev pub take_packet : ServerState floats → ItemEntity floats → ℕ → Sent
  take_packet s entity left =
      let took = sub_i32 entity.count left in
      let body =
        (write_var_int entity.entity_id ▹ write_var_int s.player.entity_id ▹ write_var_int took)
          [] in
      if left == entity.count then [] else (cb_take_item_entity, body) ∷ []

  -- One entity of the list, put into the inventory.
  unfoldable pub pick_up : ℕ → ServerState floats → Option (ServerState floats × Sent)
  pick_up idx s = and_then (get_elem? s.item_entities idx) λ entity.
      and_then (stow storage_slots entity.item_id entity.count s.inventory)
        λ (slots, left). some (record s { inventory = slots }, take_packet s entity left)

  -- `for &idx in picked_up.iter().rev()`
  unfoldable pub pick_up_all : List ℕ → ServerState floats → Option (ServerState floats × Sent)
  unfolding pick_up
  pick_up_all [] s = some (s, [])
  pick_up_all (idx ∷ is) s =
      and_then (pick_up_all is s)
        λ (s', sent). and_then (pick_up idx s') λ (s'', more). some (s'', sent ++ more)

  -- The slots that hold something are sent, under a new state id.
  abbrev pub send_slots : ServerState floats → List ℕ → Option (ServerState floats × Sent)
  send_slots s [] = some (s, [])
  send_slots s (w ∷ ws) =
      let id = add_i32 s.container_state_id 1 in
      and_then (slot_updates id (w ∷ ws) s.inventory)
        λ sent. some (record s { container_state_id = id }, sent)

  unfoldable pub sync_slots : ServerState floats → Option (ServerState floats × Sent)
  sync_slots s = and_then (filled_slots storage_slots 0 s.inventory) (send_slots s)

  -- What is done with the indices of the entities in range.
  abbrev pub take_entities : ServerState floats → List ℕ → Option (ServerState floats × Sent)
  take_entities s [] = some (s, [])
  take_entities s (i ∷ is) = and_then (pick_up_all (i ∷ is) s) λ (s', taken).
      and_then (sync_slots s') λ (s'', synced).
        and_then (remove_all (i ∷ is) s''.item_entities)
          λ entities. some (record s'' { item_entities = entities }, taken ++ synced)

  -- The part of `send_per_tick` under `if !state.item_entities.is_empty()`.
  unfoldable pub pickup_tick : ServerState floats → Option (ServerState floats × Sent)
  unfolding in_range pick_up_all sync_slots
  pickup_tick s = take_entities s (indices (in_range s.player) 0 s.item_entities)
