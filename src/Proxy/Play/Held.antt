-- ===== src/Proxy/Play/Held.antt =====
-- The held slot between SB_SET_CARRIED_ITEM and SB_USE_ITEM_ON of `handle_sb_packet`.
use pico_server_rs.Base.{
  ℕ, zero, suc, ◌%◌, ◌^◌, ◌≤◌, ◌≡◌, refl, ap, List, [], ◌∷◌, ◌++◌, none, get_elem?, length, arith,
}
use pico_server_rs.Base.Words.{Bytes, IsU32}
use pico_server_rs.Base.Read.{Read, ok, err, panic, Reader, bind, get_be}
use pico_server_rs.Varint.{write_var_int}
use pico_server_rs.Varint.RoundTrip.{read-write_var_int}
use pico_server_rs.Proxy.Ids.Serverbound.{sb_use_item_on, sb_set_carried_item}
use pico_server_rs.Proxy.Play.{
  read_or_zero, or_zero, use_held, use_item_on, set_carried_item, handle_sb_packet,
}
use pico_server_rs.Proxy.State.{Floats, ServerState}

get_elem?-ge {ℓ} : {A : Type ℓ} (xs : List A) (i : ℕ) → length xs ≤ i → get_elem? xs i ≡ none
get_elem?-ge [] i h = refl
get_elem?-ge (x ∷ xs) zero h = absurd (omega arith)
get_elem?-ge (x ∷ xs) (suc i) h = get_elem?-ge xs i (omega arith)

bind-panic {ℓ κ} :
    {A : Type ℓ} {B : Type κ} (r : Read ⊥ A) (f : A → Reader ⊥ B)
    → ((a : A) (rest : Bytes) → f a rest ≡ panic)
    → bind r f ≡ panic
bind-panic (ok a rest) f h = h a rest
bind-panic (err e rest) f h = absurd e
bind-panic panic f h = refl

module _ (floats : Floats) (s : ServerState floats) (changes : List ℕ) where
  use_item_on-panic :
      length s.inventory ≤ s.held_slot
      → (body : Bytes) → use_item_on floats (s, changes) body ≡ panic
  unfolding use_item_on
  use_item_on-panic h body = bind-panic (read_or_zero body) _ λ _ b1.
      bind-panic (get_be 8 b1) _ λ _ b2. bind-panic (read_or_zero b2) _ λ _ b3.
        bind-panic (get_be 4 b3) _ λ _ b4. bind-panic (get_be 4 b4) _ λ _ b5.
          bind-panic (get_be 4 b5) _ λ _ b6. bind-panic (get_be 1 b6) _ λ _ b7.
            bind-panic (read_or_zero b7) _ λ _ b8.
              ap (λ o. use_held floats (s, changes) o b8) (get_elem?-ge s.inventory s.held_slot h)

-- A client that carries a slot past the end of the inventory, which `handle_sb_packet` stores
-- unchecked, makes the next packet UseItemOn panic, whatever its body.
pub set_carried_item-panic :
    (floats : Floats) (uuid : ℕ) (s : ServerState floats) (changes : List ℕ) (slot : ℕ)
    (rest body : Bytes)
    → IsU32 slot
    → length s.inventory ≤ slot % 2 ^ 16
    → let s' : ServerState floats = record s { held_slot = slot % 2 ^ 16 } in
      (handle_sb_packet floats uuid sb_set_carried_item (s, changes) (write_var_int slot [] ++ rest)
        ≡ ok (s', changes) rest)
      × (handle_sb_packet floats uuid sb_use_item_on (s', changes) body ≡ panic)
unfolding handle_sb_packet set_carried_item
set_carried_item-panic floats uuid s changes slot rest body h k = (
  ap (λ r. bind (or_zero r) (λ v b. ok (record s { held_slot = v % 2 ^ 16 }, changes) b))
      (read-write_var_int slot rest h),
  use_item_on-panic floats (record s { held_slot = slot % 2 ^ 16 }) changes k body,
)
