-- ===== src/Proxy/Inventory.antt =====
-- The inventory in `send_per_tick` of crates/mc-proxy/src/server.rs: the loop that puts an item into
-- the slots 0..36. Counts are i32 patterns.
pub mod Slot
pub mod Stow
use pico_server_rs.Base.{
  ℕ, zero, suc, ◌+◌, ◌≤◌, ◌<◌, ◌≡◌, List, [], ◌∷◌, Bool, true, false, ◌&&◌, Option, none, some,
  ◌==◌, if◌then◌else◌,
}
use pico_server_rs.Base.Words.{lt_i32, le_i32, min_i32, add_i32, sub_i32}
use pico_server_rs.Proxy.State.{ItemStack}

abbrev pub Slot : Type 0
Slot = Option ItemStack

pub record Placed : Type 0 where
  pub slot : Slot
  pub left : ℕ

-- The body of the loop, at one slot.
unfoldable pub stow_slot : ℕ → ℕ → Slot → Placed
stow_slot item remaining (some stack) =
    let add = min_i32 (sub_i32 64 stack.count) remaining in
    let grown : ItemStack = record { item_id = stack.item_id; count = add_i32 stack.count add } in
    if (stack.item_id == item) && lt_i32 stack.count 64
    then record { slot = some grown; left = sub_i32 remaining add }
    else record { slot = some stack; left = remaining }
stow_slot item remaining none =
    let add = min_i32 remaining 64 in
    record { slot = some (record { item_id = item; count = add }); left = sub_i32 remaining add }

abbrev pub in_front : Slot → Option (List Slot × ℕ) → Option (List Slot × ℕ)
in_front slot none = none
in_front slot (some (slots, left)) = some (slot ∷ slots, left)

-- `for slot in 0..n { if remaining <= 0 { break; } ... }`: the slots and what remains. An index past
-- the end panics.
unfoldable pub stow : ℕ → ℕ → ℕ → List Slot → Option (List Slot × ℕ)
unfolding stow_slot
stow zero item remaining slots = some (slots, remaining)
stow (suc n) item remaining [] = if le_i32 remaining 0 then some ([], remaining) else none
stow (suc n) item remaining (slot ∷ slots) =
    let placed = stow_slot item remaining slot in
    let rest = in_front placed.slot (stow n item placed.left slots) in
    if le_i32 remaining 0 then some (slot ∷ slots, remaining) else rest

-- The hotbar and the main part of the inventory.
abbrev pub storage_slots : ℕ
storage_slots = 36

-- A stack holds 1 to 64 items.
abbrev pub IsSlot : Slot → Type 0
IsSlot none = Unit {0}
IsSlot (some stack) = (1 ≤ stack.count) × (stack.count ≤ 64)

-- How many of an item a slot and a list of slots hold.
abbrev pub amount : ℕ → Slot → ℕ
amount item none = 0
amount item (some stack) = if stack.item_id == item then stack.count else 0

abbrev pub total : ℕ → List Slot → ℕ
total item [] = 0
total item (slot ∷ slots) = amount item slot + total item slots

-- No room for one more of the item.
abbrev pub IsFull : ℕ → Slot → Type 0
IsFull item none = ⊥
IsFull item (some stack) = (stack.item_id == item) ≡ true → stack.count ≡ 64
