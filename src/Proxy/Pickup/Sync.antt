-- ===== src/Proxy/Pickup/Sync.antt =====
-- The updates of the window slots behind a pickup.
use pico_server_rs.Base.{
  ℕ, zero, suc, ◌+◌, ◌≤◌, ◌<◌, ◌≡◌, refl, ap, List, [], ◌∷◌, Option, none, some, get_elem?, length,
  All, arith, and_then,
}
use pico_server_rs.Base.Words.{add_i32}
use pico_server_rs.Proxy.Inventory.{Slot}
use pico_server_rs.Proxy.Pickup.{
  Sent, window_slot, internal_slot, filled_slots, slot_update, slot_updates, send_slots, sync_slots,
}
use pico_server_rs.Proxy.State.{Floats, ServerState}

pub internal-window_slot : (i : ℕ) → i < 36 → internal_slot (window_slot i) ≡ i
internal-window_slot i h = ground arith

pub get_elem?-lt {ℓ} :
    {A : Type ℓ} (xs : List A) (i : ℕ) → i < length xs → (x : A) × (get_elem? xs i ≡ some x)
get_elem?-lt [] i h = absurd (omega arith)
get_elem?-lt (x ∷ xs) zero h = (x, refl)
get_elem?-lt (x ∷ xs) (suc i) h = get_elem?-lt xs i (omega arith)

abbrev pub IsWindow : ℕ → Type 0
IsWindow w = internal_slot w < 36

filled_slots-some :
    (n i : ℕ) (slots : List Slot)
    → n ≤ length slots
    → i + n ≤ 36
    → (ws : List ℕ) × (filled_slots n i slots ≡ some ws) × All IsWindow ws
filled_slots-some zero i slots h k = ([], refl, tt)
filled_slots-some (suc n) i [] h k = absurd (omega arith)
filled_slots-some (suc n) i (none ∷ slots) h k =
    filled_slots-some n (suc i) slots (omega arith) (omega arith)
filled_slots-some (suc n) i (some stack ∷ slots) h k =
    let (ws, e, a) = filled_slots-some n (suc i) slots (omega arith) (omega arith) in
    (
      window_slot i ∷ ws,
      ap (λ o. and_then o (λ ws'. some (window_slot i ∷ ws'))) e,
      (omega (arith, internal-window_slot i (omega arith)), a),
    )

slot_updates-some :
    (id : ℕ) (ws : List ℕ) (slots : List Slot)
    → 36 ≤ length slots
    → All IsWindow ws
    → (sent : Sent) × (slot_updates id ws slots ≡ some sent)
slot_updates-some id [] slots h k = ([], refl)
slot_updates-some id (w ∷ ws) slots h (k, ks) =
    let (slot, e) = get_elem?-lt slots (internal_slot w) (omega arith) in
    let (sent, f) = slot_updates-some id ws slots h ks in
    (slot_update id w slot ∷ sent, rw (e, f) refl)

module _ (floats : Floats) where
  pub record Synced (s : ServerState floats) (out : Option (ServerState floats × Sent))
      : Type 0 where
    pub after : ServerState floats
    pub sent : Sent
    pub returns : out ≡ some (after, sent)
    pub same_inventory : after.inventory ≡ s.inventory
    pub same_entities : after.item_entities ≡ s.item_entities

  send_slots-Synced :
      (s : ServerState floats)
      → 36 ≤ length s.inventory
      → (ws : List ℕ) → All IsWindow ws
      → Synced s (send_slots floats s ws)
  send_slots-Synced s h [] a = record {
    after = s;
    sent = [];
    returns = refl;
    same_inventory = refl;
    same_entities = refl;
  }
  send_slots-Synced s h (w ∷ ws) a =
      let id = add_i32 s.container_state_id 1 in
      let (sent, f) = slot_updates-some id (w ∷ ws) s.inventory h a in
      record {
        after = record s { container_state_id = id };
        sent = sent;
        returns =
            ap (λ o. and_then o (λ sent'. some (record s { container_state_id = id }, sent'))) f;
        same_inventory = refl;
        same_entities = refl;
      }

  pub sync_slots-Synced :
      (s : ServerState floats) → 36 ≤ length s.inventory → Synced s (sync_slots floats s)
  unfolding sync_slots
  sync_slots-Synced s h =
      let (ws, e, a) = filled_slots-some 36 0 s.inventory h (omega arith) in
      rw e (send_slots-Synced s h ws a)
