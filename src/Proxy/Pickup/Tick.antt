-- ===== src/Proxy/Pickup/Tick.antt =====
-- A tick of the pickup as a whole.
use pico_server_rs.Base.{
  ℕ, suc, ◌≤◌, ◌<◌, ◌^◌, ◌≡◌, ◌∙◌, refl, ap, sym, List, [], ◌∷◌, ◌++◌, append_assoc, Bool, true,
  Bool-cases, inl, inr, Option, some, ◌==◌, get_elem?, length, length-append, All, arith,
}
use pico_server_rs.Proxy.Inventory.{IsSlot, total}
use pico_server_rs.Proxy.Inventory.Stow.{stow-Stowed}
use pico_server_rs.Proxy.Pickup.{
  Sent, remove_all, indices, in_range, take_packet, pick_up, pick_up_all, take_entities,
  pickup_tick,
}
use pico_server_rs.Proxy.Pickup.Remove.{rest_of, remove_all-indices}
use pico_server_rs.Proxy.Pickup.Sync.{sync_slots-Synced}
use pico_server_rs.Proxy.State.{Floats, ItemEntity, ServerState}

module _ (floats : Floats) where
  abbrev Entity : Type 0
  Entity = ItemEntity floats

  -- A stack on the ground whose count is not negative.
  abbrev pub IsEntity : Entity → Type 0
  IsEntity e = e.count < 2 ^ 31

  -- The 36 storage slots are there, and all stacks are valid.
  pub record Stocked (s : ServerState floats) : Type 0 where
    pub slots : All IsSlot s.inventory
    pub size : 36 ≤ length s.inventory
    pub entities : All IsEntity s.item_entities

  abbrev Found : List Entity → ℕ → Type 0
  Found es i = (e : Entity) × (get_elem? es i ≡ some e) × IsEntity e

  get_elem?-append :
      (before : List Entity) (e : Entity) (es : List Entity)
      → get_elem? (before ++ e ∷ es) (length before) ≡ some e
  get_elem?-append [] e es = refl
  get_elem?-append (b ∷ bs) e es = get_elem?-append bs e es

  indices-Found :
      (p : Entity → Bool) (n : ℕ) (before es all : List Entity)
      → n ≡ length before
      → all ≡ before ++ es
      → All IsEntity es
      → All (Found all) (indices p n es)
  indices-Found p n before [] all e q h = tt
  indices-Found p n before (x ∷ xs) all e q (h, hs) =
      let found : Found all n = (x, rw (q, e) (get_elem?-append before x xs), h) in
      let rest =
        indices-Found p (suc n) (before ++ x ∷ []) xs all
          (omega (arith, length-append before (x ∷ []))) (q ∙ sym (append_assoc before (x ∷ []) xs))
          hs in
      elim (Bool-cases (p x)) [ inl t ↦ rw t (found, rest) | inr f ↦ rw f rest ]

  -- What a run of the pickup keeps.
  pub record PickedUp (s : ServerState floats) (out : Option (ServerState floats × Sent))
      : Type 0 where
    pub after : ServerState floats
    pub sent : Sent
    pub returns : out ≡ some (after, sent)
    pub slots : All IsSlot after.inventory
    pub same_size : length after.inventory ≡ length s.inventory
    pub same_entities : after.item_entities ≡ s.item_entities
    pub gained : (item : ℕ) → total item s.inventory ≤ total item after.inventory

  pick_up-PickedUp :
      (idx : ℕ) (s : ServerState floats)
      → All IsSlot s.inventory
      → 36 ≤ length s.inventory
      → Found s.item_entities idx
      → PickedUp s (pick_up floats idx s)
  unfolding pick_up
  pick_up-PickedUp idx s v h (e, q, k) =
      let t = stow-Stowed 36 e.item_id e.count s.inventory h k v in
      record {
        after = record s { inventory = t.after };
        sent = take_packet floats s e t.left;
        returns = rw (q, t.returns) refl;
        slots = t.valid;
        same_size = t.same_length;
        same_entities = refl;
        gained = λ item. elim (Bool-cases (e.item_id == item)) [
          | inl same ↦ omega (
            arith,
            t.kept,
            t.less,
            ap (λ i. total i t.after) (same_item e.item_id item same),
            ap (λ i. total i s.inventory) (same_item e.item_id item same),
          )
          | inr d ↦ omega (arith, t.others item d)
        ];
      }
    where
      same_item : (i j : ℕ) → (i == j) ≡ true → i ≡ j
      same_item i j h = ground arith

  pick_up_all-PickedUp :
      (is : List ℕ) (s : ServerState floats)
      → All IsSlot s.inventory
      → 36 ≤ length s.inventory
      → All (Found s.item_entities) is
      → PickedUp s (pick_up_all floats is s)
  unfolding pick_up_all
  pick_up_all-PickedUp [] s v h fs = record {
    after = s;
    sent = [];
    returns = refl;
    slots = v;
    same_size = refl;
    same_entities = refl;
    gained = λ item. omega arith;
  }
  pick_up_all-PickedUp (i ∷ is) s v h (f, fs) =
      let p = pick_up_all-PickedUp is s v h fs in
      let q =
        pick_up-PickedUp i p.after p.slots (omega (arith, p.same_size)) (rw p.same_entities f) in
      record {
        after = q.after;
        sent = p.sent ++ q.sent;
        returns = rw (p.returns, q.returns) refl;
        slots = q.slots;
        same_size = q.same_size ∙ p.same_size;
        same_entities = q.same_entities ∙ p.same_entities;
        gained = λ item. omega (arith, p.gained item, q.gained item);
      }

  -- What a tick does to the inventory and to the entities on the ground.
  pub record Ticked (s : ServerState floats) (out : Option (ServerState floats × Sent))
      : Type 0 where
    pub after : ServerState floats
    pub sent : Sent
    pub returns : out ≡ some (after, sent)
    pub stocked : Stocked after
    pub same_size : length after.inventory ≡ length s.inventory
    pub out_of_range : after.item_entities ≡ rest_of (in_range floats s.player) s.item_entities
    pub gained : (item : ℕ) → total item s.inventory ≤ total item after.inventory

  All-rest_of :
      (p : Entity → Bool) (es : List Entity) → All IsEntity es → All IsEntity (rest_of p es)
  All-rest_of p [] h = tt
  All-rest_of p (e ∷ es) (h, hs) = elim (Bool-cases (p e)) [
    | inl t ↦ rw t (All-rest_of p es hs)
    | inr f ↦ rw f (h, All-rest_of p es hs)
  ]

  take_entities-Ticked :
      (s : ServerState floats) (is : List ℕ)
      → Stocked s
      → All (Found s.item_entities) is
      → remove_all is s.item_entities ≡ some (rest_of (in_range floats s.player) s.item_entities)
      → Ticked s (take_entities floats s is)
  take_entities-Ticked s [] k fs e = record {
    after = s;
    sent = [];
    returns = refl;
    stocked = k;
    same_size = refl;
    out_of_range = cc;
    gained = λ item. omega arith;
  }
  take_entities-Ticked s (i ∷ is) k fs e =
      let p = pick_up_all-PickedUp (i ∷ is) s k.slots k.size fs in
      let y = sync_slots-Synced floats p.after (omega (arith, k.size, p.same_size)) in
      let near = in_range floats s.player in
      let rest = rest_of near s.item_entities in
      let same = y.same_entities ∙ p.same_entities in
      let e' : remove_all (i ∷ is) y.after.item_entities ≡ some rest =
        ap (remove_all (i ∷ is)) same ∙ e in
      record {
        after = record y.after { item_entities = rest };
        sent = p.sent ++ y.sent;
        returns = rw (p.returns, y.returns, e') refl;
        stocked = record {
          slots = rw y.same_inventory p.slots;
          size = rw y.same_inventory (omega (arith, k.size, p.same_size));
          entities = All-rest_of near s.item_entities k.entities;
        };
        same_size = ap length y.same_inventory ∙ p.same_size;
        out_of_range = refl;
        gained = λ item. rw y.same_inventory (p.gained item);
      }

  -- On valid stacks, with the 36 storage slots there, a tick of the pickup returns without a panic. All
  -- stacks are valid after it, the inventory has the same size and no less of any item, and exactly the
  -- entities out of range are still on the ground, in their order. So an entity in range is gone also
  -- where there was no room for all of it.
  pub pickup_tick-Ticked : (s : ServerState floats) → Stocked s → Ticked s (pickup_tick floats s)
  unfolding pickup_tick
  pickup_tick-Ticked s k =
      let near = in_range floats s.player in
      let es = s.item_entities in
      take_entities-Ticked s (indices near 0 es) k
        (indices-Found near 0 [] es es refl refl k.entities) (remove_all-indices near es)
