-- ===== src/Proxy/Inventory/Stow.antt =====
-- The slot loop of the pickup, against the number of items.
use pico_server_rs.Base.{
  ℕ, zero, suc, ◌+◌, ◌≤◌, ◌<◌, ◌^◌, ◌≡◌, refl, ap, List, [], ◌∷◌, false, Option, some, ◌==◌, length,
  take, All, arith,
}
use pico_server_rs.Base.Words.{le_i32}
use pico_server_rs.Proxy.Inventory.{Slot, Placed, stow_slot, stow, in_front, IsSlot, total, IsFull}
use pico_server_rs.Proxy.Inventory.Slot.{StowedSlot, stow_slot-StowedSlot}

-- What `n` slots of the loop make of the inventory.
pub record Stowed (n item remaining : ℕ) (slots : List Slot) (out : Option (List Slot × ℕ))
    : Type 0 where
  pub after : List Slot
  pub left : ℕ
  pub returns : out ≡ some (after, left)
  pub valid : All IsSlot after
  pub same_length : length after ≡ length slots
  pub less : left ≤ remaining
  pub kept : total item after + left ≡ total item slots + remaining
  pub others : (other : ℕ) → (item == other) ≡ false → total other after ≡ total other slots
  pub full : 0 < left → All (IsFull item) (take n after)

positive_i32 : (r : ℕ) → 0 < r → r < 2 ^ 31 → le_i32 r 0 ≡ false
positive_i32 r h k = ground arith

module _ (n item remaining : ℕ) (slot : Slot) (slots : List Slot) where
  stow-more :
      (rest : Option (List Slot × ℕ)) (placed : Placed)
      → StowedSlot item remaining slot placed
      → Stowed n item placed.left slots rest
      → Stowed (suc n) item remaining (slot ∷ slots) (in_front placed.slot rest)
  stow-more rest placed p s = record {
    after = placed.slot ∷ s.after;
    left = s.left;
    returns = ap (in_front placed.slot) s.returns;
    valid = (p.valid, s.valid);
    same_length = ap suc s.same_length;
    less = omega (arith, p.less, s.less);
    kept = omega (arith, p.kept, s.kept);
    others = λ other h. omega (arith, p.others other h, s.others other h);
    full = λ l. (p.full (omega (arith, s.less)), s.full l);
  }

stow-done :
    (n item : ℕ) (slots : List Slot) → All IsSlot slots → Stowed n item 0 slots (some (slots, 0))
stow-done n item slots h = record {
  after = slots;
  left = 0;
  returns = refl;
  valid = h;
  same_length = refl;
  less = omega arith;
  kept = refl;
  others = λ other d. refl;
  full = λ l. absurd (omega arith);
}

-- Into an inventory of valid stacks that has the n slots, the loop puts a stack of less than 2^31 items
-- without a panic: all stacks stay within 1 to 64, as many of the item are in the inventory and left
-- over as before, all other items keep their number, and when something is left over, no one of the n
-- slots has room for the item.
pub stow-Stowed :
    (n item remaining : ℕ) (slots : List Slot)
    → n ≤ length slots
    → remaining < 2 ^ 31
    → All IsSlot slots
    → Stowed n item remaining slots (stow n item remaining slots)
unfolding stow
stow-Stowed zero item remaining slots h k v = record {
  after = slots;
  left = remaining;
  returns = refl;
  valid = v;
  same_length = refl;
  less = omega arith;
  kept = refl;
  others = λ other d. refl;
  full = λ l. tt;
}
stow-Stowed (suc n) item remaining [] h k v = absurd (omega arith)
stow-Stowed (suc n) item zero (slot ∷ slots) h k v = stow-done (suc n) item (slot ∷ slots) v
stow-Stowed (suc n) item (suc r) (slot ∷ slots) h k (v, vs) =
    let p = stow_slot-StowedSlot item (suc r) (omega arith) k slot v in
    let left = (stow_slot item (suc r) slot).left in
    rw (positive_i32 (suc r) (omega arith) k) (
      stow-more n item (suc r) slot slots _ _ p
        (stow-Stowed n item left slots (omega arith) (omega (arith, p.less)) vs))
