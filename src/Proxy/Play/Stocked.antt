-- ===== src/Proxy/Play/Stocked.antt =====
-- The inventory and the entities under `handle_sb_packet`.
use pico_server_rs.Base.{
  ℕ, ◌≤◌, ◌≡◌, refl, List, Option, none, some, get_elem?, length, length-set, All-append, arith,
  Bool, true, false, Bool-cases, inl, inr, if◌then◌else◌, leb, ◌==◌,
}
use pico_server_rs.Base.Words.{Bytes, sub_i32, le_i32}
use pico_server_rs.Base.Read.{Read, ok, err, panic, get_be}
use pico_server_rs.Proxy.Ids.Serverbound.{
  sb_client_tick_end, sb_move_player_pos, sb_move_player_pos_rot, sb_move_player_rot, sb_swing,
  sb_client_command, sb_player_action, sb_use_item_on, sb_set_carried_item, sb_keep_alive,
  sb_chat_command,
}
use pico_server_rs.Proxy.Inventory.{IsSlot}
use pico_server_rs.Proxy.Play.Ends.{Ends, bind-Ends, if-Ends, All-set, All-get_elem?}
use pico_server_rs.Proxy.Pickup.Tick.{Stocked, IsEntity}
use pico_server_rs.Proxy.Play.{
  World, get_f64, read_or_zero, use_one, use_held, use_item_on, set_carried_item, finish_dig,
  player_action, move_player_pos, move_player_pos_rot, move_player_rot, read_number, read_text,
  ignored, chat_command, handle_sb_packet, TextError,
}
use mathlib.Core.Path.{subst}
use pico_server_rs.Proxy.State.{Floats, ItemStack, Player, ServerState, advance_tick}

use_one-IsSlot : (slot : Option ItemStack) → IsSlot slot → IsSlot (use_one slot)
use_one-IsSlot none h = tt
use_one-IsSlot (some stack) (h, k) = elim (Bool-cases (le_i32 (sub_i32 stack.count 1) 0)) [
  | inl t ↦ rw t tt
  | inr f ↦ rw f (more stack.count h k f)
]
  where
    more :
        (c : ℕ)
        → 1 ≤ c
        → c ≤ 64
        → le_i32 (sub_i32 c 1) 0 ≡ false
        → (1 ≤ sub_i32 c 1) × (sub_i32 c 1 ≤ 64)
    more c h k f = ground arith

module _ (floats : Floats) where
  -- A state whose inventory and entities are valid, beside the block changes.
  abbrev pub Sound : World floats → Type 0
  Sound (s, changes) = Stocked floats s

  finish_dig-Sound :
      (uuid pos : ℕ) (w : World floats) → Sound w → Sound (finish_dig floats uuid pos w)
  unfolding finish_dig
  finish_dig-Sound uuid pos (s, changes) k = record {
    slots = k.slots;
    size = k.size;
    entities = All-append (IsEntity floats) s.item_entities _ k.entities (omega arith);
  }

  use_held-Sound :
      (s : ServerState floats) (changes : List ℕ) (o : Option (Option ItemStack)) (body : Bytes)
      → get_elem? s.inventory s.held_slot ≡ o
      → Stocked floats s
      → Ends Sound (use_held floats (s, changes) o body)
  use_held-Sound s changes none body e k = tt
  use_held-Sound s changes (some slot) body e k =
      let valid = All-get_elem? IsSlot s.inventory s.held_slot slot k.slots e in
      record {
        slots =
            All-set IsSlot s.inventory s.held_slot (use_one slot) k.slots
              (use_one-IsSlot slot valid);
        size = omega (arith, k.size, length-set s.inventory s.held_slot (use_one slot));
        entities = k.entities;
      }

  use_item_on-Sound :
      (s : ServerState floats) (changes : List ℕ) (body : Bytes)
      → Stocked floats s
      → Ends Sound (use_item_on floats (s, changes) body)
  unfolding use_item_on
  use_item_on-Sound s changes body k = bind-Ends Sound (read_or_zero body) _ λ _ b1.
      bind-Ends Sound (get_be 8 b1) _ λ _ b2. bind-Ends Sound (read_or_zero b2) _ λ _ b3.
        bind-Ends Sound (get_be 4 b3) _ λ _ b4. bind-Ends Sound (get_be 4 b4) _ λ _ b5.
          bind-Ends Sound (get_be 4 b5) _ λ _ b6.
            bind-Ends Sound (get_be 1 b6) _ λ _ b7.
              bind-Ends Sound (read_or_zero b7) _ λ _ b8. use_held-Sound s changes _ b8 refl k

  player_action-Sound :
      (uuid : ℕ) (w : World floats) (body : Bytes)
      → Sound w
      → Ends Sound (player_action floats uuid w body)
  unfolding player_action
  player_action-Sound uuid w body k = bind-Ends Sound (read_or_zero body) _ λ a b1.
      bind-Ends Sound (get_be 8 b1) _ λ pos b2. bind-Ends Sound (get_be 1 b2) _ λ _ b3.
        bind-Ends Sound (read_or_zero b3) _
          λ _ b4. dug (finish_dig floats uuid pos w) (a == 2) (finish_dig-Sound uuid pos w k)
    where
      dug : (v : World floats) (b : Bool) → Sound v → Sound (if b then v else w)
      dug v true h = h
      dug v false h = k

  moved-Sound :
      (s : ServerState floats) (p : Player floats)
      → Stocked floats s
      → Stocked floats (record s { player = p })
  moved-Sound s p k = record { slots = k.slots; size = k.size; entities = k.entities }

  chosen-Ends :
      (b : Bool) (r r' : Read ⊥ (World floats))
      → Ends Sound r
      → Ends Sound r'
      → Ends Sound (if b then r else r')
  chosen-Ends true r r' h k = h
  chosen-Ends false r r' h k = k

  move_player_pos-Sound :
      (s : ServerState floats) (changes : List ℕ) (body : Bytes)
      → Stocked floats s
      → Ends Sound (move_player_pos floats (s, changes) body)
  unfolding move_player_pos
  move_player_pos-Sound s changes body k =
      chosen-Ends (leb 25 (length body)) _ _
        (bind-Ends Sound (get_f64 floats body) _ λ x b1.
          bind-Ends Sound (get_f64 floats b1) _ λ y b2.
            bind-Ends Sound (get_f64 floats b2) _
              λ z b3. bind-Ends Sound (get_be 1 b3) _ λ _ _. moved-Sound s _ k)
        k

  move_player_pos_rot-Sound :
      (s : ServerState floats) (changes : List ℕ) (body : Bytes)
      → Stocked floats s
      → Ends Sound (move_player_pos_rot floats (s, changes) body)
  unfolding move_player_pos_rot
  move_player_pos_rot-Sound s changes body k =
      chosen-Ends (leb 33 (length body)) _ _
        (bind-Ends Sound (get_f64 floats body) _ λ x b1.
          bind-Ends Sound (get_f64 floats b1) _ λ y b2.
            bind-Ends Sound (get_f64 floats b2) _ λ z b3. bind-Ends Sound (get_be 4 b3) _ λ _ b4.
              bind-Ends Sound (get_be 4 b4) _
                λ _ b5. bind-Ends Sound (get_be 1 b5) _ λ _ _. moved-Sound s _ k)
        k

  move_player_rot-Sound :
      (s : ServerState floats) (changes : List ℕ) (body : Bytes)
      → Stocked floats s
      → Ends Sound (move_player_rot floats (s, changes) body)
  unfolding move_player_rot
  move_player_rot-Sound s changes body k =
      chosen-Ends (leb 9 (length body)) _ _
        (bind-Ends Sound (get_be 4 body) _ λ _ b1.
          bind-Ends Sound (get_be 4 b1) _
            λ _ b2. bind-Ends Sound (get_be 1 b2) _ λ _ _. moved-Sound s _ k)
        k

  set_carried_item-Sound :
      (s : ServerState floats) (changes : List ℕ) (body : Bytes)
      → Stocked floats s
      → Ends Sound (set_carried_item floats (s, changes) body)
  unfolding set_carried_item
  set_carried_item-Sound s changes body k =
      bind-Ends Sound (read_or_zero body) _
        λ _ _. record { slots = k.slots; size = k.size; entities = k.entities }

  read_number-Sound :
      (w : World floats) (body : Bytes) → Sound w → Ends Sound (read_number floats w body)
  read_number-Sound w body k = bind-Ends Sound (read_or_zero body) _ λ _ _. k

  chat_command-Sound :
      (w : World floats) (body : Bytes) → Sound w → Ends Sound (chat_command floats w body)
  unfolding chat_command
  chat_command-Sound w body k = after (read_text body)
    where
      after : (r : Read TextError Bytes) → Ends Sound (ignored floats w r)
      after (ok t rest) = k
      after (err e rest) = k
      after panic = tt

  handle_sb_packet-Ends :
      (uuid pid : ℕ) (s : ServerState floats) (changes : List ℕ) (body : Bytes)
      → Stocked floats s
      → Ends Sound (handle_sb_packet floats uuid pid (s, changes) body)
  unfolding handle_sb_packet advance_tick
  handle_sb_packet-Ends uuid pid s changes body k =
      let w : World floats = (s, changes) in
      if-Ends Sound (pid == sb_client_tick_end) _ _ body
        record { slots = k.slots; size = k.size; entities = k.entities }
        (if-Ends Sound (pid == sb_move_player_pos) _ _ body (move_player_pos-Sound s changes body k)
          (if-Ends Sound (pid == sb_move_player_pos_rot) _ _ body
            (move_player_pos_rot-Sound s changes body k)
            (if-Ends Sound (pid == sb_move_player_rot) _ _ body
              (move_player_rot-Sound s changes body k)
              (if-Ends Sound (pid == sb_swing) _ _ body (read_number-Sound w body k) (
                if-Ends Sound (pid == sb_client_command) _ _ body (read_number-Sound w body k) (
                  if-Ends Sound (pid == sb_player_action) _ _ body
                    (player_action-Sound uuid w body k)
                    (if-Ends Sound (pid == sb_use_item_on) _ _ body
                      (use_item_on-Sound s changes body k)
                      (if-Ends Sound (pid == sb_set_carried_item) _ _ body
                        (set_carried_item-Sound s changes body k)
                        (if-Ends Sound (pid == sb_keep_alive) _ _ body (read_number-Sound w body k)
                          (if-Ends Sound (pid == sb_chat_command) _ _ body
                            (chat_command-Sound w body k) k))))))))))

  -- Whatever packet a client sends: where the handler returns, all stacks of the inventory are still
  -- valid, its storage slots are there, and the entities on the ground are valid.
  pub handle_sb_packet-Stocked :
      (uuid pid : ℕ) (s s' : ServerState floats) (changes changes' : List ℕ) (body rest : Bytes)
      → Stocked floats s
      → handle_sb_packet floats uuid pid (s, changes) body ≡ ok (s', changes') rest
      → Stocked floats s'
  handle_sb_packet-Stocked uuid pid s s' changes changes' body rest k e =
      subst (Ends Sound) e (handle_sb_packet-Ends uuid pid s changes body k)
