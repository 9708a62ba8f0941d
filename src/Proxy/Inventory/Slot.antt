-- ===== src/Proxy/Inventory/Slot.antt =====
-- One slot of the pickup loop.
use pico_server_rs.Base.{
  ℕ, ◌+◌, ◌-◌, ◌≤◌, ◌<◌, ◌^◌, ◌≡◌, refl, true, false, Bool-cases, inl, inr, none, some, ◌==◌, ltb,
  arith, ltb→lt, ltb_false→le,
}
use pico_server_rs.Base.Words.{lt_i32, min_i32, add_i32, sub_i32}
use pico_server_rs.Proxy.State.{ItemStack}
use pico_server_rs.Proxy.Inventory.{Slot, Placed, stow_slot, IsSlot, amount, IsFull}
use Prim.Native.Nat.{min}

lt_i32-small : (c : ℕ) → c ≤ 64 → lt_i32 c 64 ≡ ltb c 64
lt_i32-small c h = ground arith

room_i32 : (c r : ℕ) → c ≤ 64 → r < 2 ^ 31 → min_i32 (sub_i32 64 c) r ≡ min (64 - c) r
room_i32 c r h k = ground arith

min_i32-small : (r : ℕ) → r < 2 ^ 31 → min_i32 r 64 ≡ min r 64
min_i32-small r k = ground arith

-- What the body of the loop does to a slot while there is something to put away.
pub record StowedSlot (item remaining : ℕ) (slot : Slot) (placed : Placed) : Type 0 where
  pub valid : IsSlot placed.slot
  pub less : placed.left ≤ remaining
  pub kept : amount item placed.slot + placed.left ≡ amount item slot + remaining
  pub others : (other : ℕ) → (item == other) ≡ false → amount other placed.slot ≡ amount other slot
  pub full : 0 < placed.left → IsFull item placed.slot

differ : (i item other : ℕ) → (i == item) ≡ true → (item == other) ≡ false → (i == other) ≡ false
differ i item other h k = ground arith

-- The slot holds the item and has room.
grown-Stowed :
    (item remaining c : ℕ)
    → 1 ≤ c
    → c < 64
    → 0 < remaining
    → remaining < 2 ^ 31
    → (1 ≤ add_i32 c (min (64 - c) remaining))
      × (add_i32 c (min (64 - c) remaining) ≤ 64)
      × (sub_i32 remaining (min (64 - c) remaining) ≤ remaining)
      × (add_i32 c (min (64 - c) remaining) + sub_i32 remaining (min (64 - c) remaining)
          ≡ c + remaining)
      × (0 < sub_i32 remaining (min (64 - c) remaining) → add_i32 c (min (64 - c) remaining) ≡ 64)
grown-Stowed item remaining c h k p q =
    (omega arith, omega arith, omega arith, omega arith, λ l. omega arith)

module _ (item remaining : ℕ) (p : 0 < remaining) (q : remaining < 2 ^ 31) where
  stow_slot-none : StowedSlot item remaining none (stow_slot item remaining none)
  unfolding stow_slot
  stow_slot-none = rw (min_i32-small remaining q) record {
    valid = (omega arith, omega arith);
    less = omega arith;
    kept = ground arith;
    others = λ other h. rw h;
    full = λ l _. omega arith;
  }

  stow_slot-some :
      (stack : ItemStack)
      → IsSlot (some stack)
      → StowedSlot item remaining (some stack) (stow_slot item remaining (some stack))
  unfolding stow_slot
  stow_slot-some stack (h, k) =
      let small = lt_i32-small stack.count k in
      let room = room_i32 stack.count remaining k q in
      elim (Bool-cases (stack.item_id == item)) [
        | inl same ↦ elim (Bool-cases (ltb stack.count 64)) [
          | inl t ↦
              rw (same, small, t, room)
                let (a, b, c, d, e) =
                    grown-Stowed item remaining stack.count h (ltb→lt stack.count 64 t) p q in
                  record {
                    valid = (a, b);
                    less = c;
                    kept = rw same d;
                    others = λ other n. rw (differ stack.item_id item other same n);
                    full = λ l _. e l;
                  }
          | inr f ↦
              rw (same, small, f)
                record {
                  valid = (h, k);
                  less = omega arith;
                  kept = refl;
                  others = λ other n. refl;
                  full = λ l _. omega (arith, ltb_false→le stack.count 64 f);
                }
        ]
        | inr different ↦ rw different record {
          valid = (h, k);
          less = omega arith;
          kept = refl;
          others = λ other n. refl;
          full = λ l e. cc;
        }
      ]

  pub stow_slot-StowedSlot :
      (slot : Slot) → IsSlot slot → StowedSlot item remaining slot (stow_slot item remaining slot)
  stow_slot-StowedSlot none h = stow_slot-none
  stow_slot-StowedSlot (some stack) h = stow_slot-some stack h
