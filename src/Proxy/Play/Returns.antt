-- ===== src/Proxy/Play/Returns.antt =====
-- The packets on which `handle_sb_packet` of crates/mc-proxy/src/server.rs returns.
use pico_server_rs.Base.{
  ℕ, zero, suc, ◌+◌, ◌*◌, ◌≤◌, ◌<◌, ◌≡◌, refl, List, [], ◌∷◌, Bool, true, false, Bool-cases, inl,
  inr, ◌==◌, leb, le→leb, leb→le, leb_false→lt, length, length-drop_bytes, bit_and, if◌then◌else◌,
  arith, lengths,
}
use pico_server_rs.Base.Words.{Bytes, as_usize}
use pico_server_rs.Base.Read.{
  Read, ok, err, panic, Reader, bind, map_err, get_be, split_to, require, ◌>>=◌, ◌>>◌,
}
use pico_server_rs.Base.Utf8.{is_utf8}
use pico_server_rs.Varint.{VarIntError, too_large, add_group, read_loop, read_var_int}
use pico_server_rs.Proxy.Ids.Serverbound.{
  sb_client_tick_end, sb_move_player_pos, sb_move_player_pos_rot, sb_move_player_rot, sb_swing,
  sb_client_command, sb_player_action, sb_use_item_on, sb_set_carried_item, sb_keep_alive,
  sb_chat_command,
}
use pico_server_rs.Proxy.Pickup.Sync.{get_elem?-lt}
use pico_server_rs.Proxy.Play.{
  World, get_f64, length_error, too_short, read_or_zero, or_zero, checked_text, use_item_on,
  set_carried_item, player_action, move_player_pos, move_player_pos_rot, move_player_rot,
  read_number, read_text, ignored, chat_command, handle_sb_packet,
}
use pico_server_rs.Proxy.State.{Floats, ServerState}

-- A result with at least n bytes behind it.
abbrev pub Leaves {ℓ} : {A : Type ℓ} → ℕ → Read ⊥ A → Type 0
Leaves n (ok a rest) = n ≤ length rest
Leaves n (err e rest) = ⊥
Leaves n panic = ⊥

-- A read that takes no more than n bytes, also where it fails.
abbrev Within : ℕ → Bytes → Read VarIntError ℕ → Type 0
Within n src (ok v rest) = length src ≤ length rest + n
Within n src (err e rest) = length src ≤ length rest + n
Within n src panic = ⊥

Within-cons :
    (n b : ℕ) (src : Bytes) (r : Read VarIntError ℕ) → Within n src r → Within (suc n) (b ∷ src) r
Within-cons n b src (ok v rest) h = omega arith
Within-cons n b src (err e rest) h = omega arith
Within-cons n b src panic h = h

read_loop-Within :
    (n k value : ℕ) (src : Bytes)
    → n + k ≡ 5
    → 1 ≤ n
    → Within n src (read_loop 32 35 too_large value (k * 7) src)
unfolding read_loop
read_loop-Within n k value [] e h = omega arith
read_loop-Within zero k value (b ∷ rest) e h = absurd (omega arith)
read_loop-Within (suc n) k value (b ∷ rest) e h =
    let value' = add_group 32 value (k * 7) b in
    let shift : k * 7 + 7 ≡ suc k * 7 = omega arith in
    elim (Bool-cases (bit_and b 0x80 == 0)) [
      | inl last ↦ rw last (omega arith)
      | inr more ↦ elim (Bool-cases (leb 35 (k * 7 + 7))) [
        | inl t ↦ rw (more, t) (omega arith)
        | inr f ↦
            rw (more, f)
              (Within-cons n b rest _ (
                rw shift (
                  read_loop-Within n (suc k) value' rest (omega arith)
                    (omega (arith, leb_false→lt 35 (k * 7 + 7) f)))))
      ]
    ]

read_or_zero-Leaves : (n : ℕ) (src : Bytes) → n + 5 ≤ length src → Leaves n (read_or_zero src)
unfolding read_var_int
read_or_zero-Leaves n src h =
    zeroed (read_var_int src) (read_loop-Within 5 0 0 src refl (omega arith))
  where
    zeroed : (r : Read VarIntError ℕ) → Within 5 src r → Leaves n (or_zero r)
    zeroed (ok v rest) w = omega arith
    zeroed (err e rest) w = omega arith
    zeroed panic w = w

-- Any read of a number returns.
read_or_zero-returns : (src : Bytes) → Leaves 0 (read_or_zero src)
unfolding read_var_int
read_or_zero-returns src = zeroed (read_var_int src) (read_loop-Within 5 0 0 src refl (omega arith))
  where
    zeroed : (r : Read VarIntError ℕ) → Within 5 src r → Leaves 0 (or_zero r)
    zeroed (ok v rest) w = omega arith
    zeroed (err e rest) w = omega arith
    zeroed panic w = w

get_be-Leaves : (n k : ℕ) (src : Bytes) → n + k ≤ length src → Leaves k (get_be n src)
get_be-Leaves n k src h =
    rw (le→leb n (length src) (omega arith)) (omega (lengths, length-drop_bytes n src))

module _ {A B : Type 0} (m k : ℕ) where
  bind-Leaves :
      (r : Read ⊥ A) (f : A → Reader ⊥ B)
      → Leaves k r
      → ((a : A) (rest : Bytes) → k ≤ length rest → Leaves m (f a rest))
      → Leaves m (bind r f)
  bind-Leaves (ok a rest) f h g = g a rest h
  bind-Leaves (err e rest) f h g = h
  bind-Leaves panic f h g = h

module _ (floats : Floats) where
  get_f64-Leaves : (k : ℕ) (src : Bytes) → 8 + k ≤ length src → Leaves k (get_f64 floats src)
  get_f64-Leaves k src h = bind-Leaves k k (get_be 8 src) _ (get_be-Leaves 8 k src h) λ v rest l. l

  chosen-Leaves :
      (b : Bool) (r : Read ⊥ (World floats)) (w : World floats) (body : Bytes)
      → (b ≡ true → Leaves 0 r)
      → Leaves 0 (if b then r else ok w body)
  chosen-Leaves true r w body h = h refl
  chosen-Leaves false r w body h = omega arith

  move_player_pos-Leaves :
      (w : World floats) (body : Bytes) → Leaves 0 (move_player_pos floats w body)
  unfolding move_player_pos
  move_player_pos-Leaves w body = chosen-Leaves (leb 25 (length body)) _ w body λ t.
      bind-Leaves 0 17 _ _ (get_f64-Leaves 17 body (leb→le 25 (length body) t)) λ _ b1 l1.
        bind-Leaves 0 9 _ _ (get_f64-Leaves 9 b1 l1) λ _ b2 l2.
          bind-Leaves 0 1 _ _ (get_f64-Leaves 1 b2 l2)
            λ _ b3 l3. bind-Leaves 0 0 (get_be 1 b3) _ (get_be-Leaves 1 0 b3 l3) λ _ b4 l4. l4

  move_player_pos_rot-Leaves :
      (w : World floats) (body : Bytes) → Leaves 0 (move_player_pos_rot floats w body)
  unfolding move_player_pos_rot
  move_player_pos_rot-Leaves w body = chosen-Leaves (leb 33 (length body)) _ w body λ t.
      bind-Leaves 0 25 _ _ (get_f64-Leaves 25 body (leb→le 33 (length body) t)) λ _ b1 l1.
        bind-Leaves 0 17 _ _ (get_f64-Leaves 17 b1 l1) λ _ b2 l2.
          bind-Leaves 0 9 _ _ (get_f64-Leaves 9 b2 l2) λ _ b3 l3.
            bind-Leaves 0 5 (get_be 4 b3) _ (get_be-Leaves 4 5 b3 l3) λ _ b4 l4.
              bind-Leaves 0 1 (get_be 4 b4) _ (get_be-Leaves 4 1 b4 l4)
                λ _ b5 l5. bind-Leaves 0 0 (get_be 1 b5) _ (get_be-Leaves 1 0 b5 l5) λ _ b6 l6. l6

  move_player_rot-Leaves :
      (w : World floats) (body : Bytes) → Leaves 0 (move_player_rot floats w body)
  unfolding move_player_rot
  move_player_rot-Leaves w body = chosen-Leaves (leb 9 (length body)) _ w body λ t.
      bind-Leaves 0 5 (get_be 4 body) _ (get_be-Leaves 4 5 body (leb→le 9 (length body) t))
        λ _ b1 l1.
          bind-Leaves 0 1 (get_be 4 b1) _ (get_be-Leaves 4 1 b1 l1)
            λ _ b2 l2. bind-Leaves 0 0 (get_be 1 b2) _ (get_be-Leaves 1 0 b2 l2) λ _ b3 l3. l3

  player_action-Leaves :
      (uuid : ℕ) (w : World floats) (body : Bytes)
      → 14 ≤ length body
      → Leaves 0 (player_action floats uuid w body)
  unfolding player_action
  player_action-Leaves uuid w body h = bind-Leaves 0 9 _ _ (read_or_zero-Leaves 9 body h) λ _ b1 l1.
      bind-Leaves 0 1 (get_be 8 b1) _ (get_be-Leaves 8 1 b1 l1) λ _ b2 l2.
        bind-Leaves 0 0 (get_be 1 b2) _ (get_be-Leaves 1 0 b2 l2)
          λ _ b3 l3. bind-Leaves 0 0 _ _ (read_or_zero-returns b3) λ _ b4 l4. l4

  use_item_on-Leaves :
      (s : ServerState floats) (changes : List ℕ) (body : Bytes)
      → 31 ≤ length body
      → s.held_slot < length s.inventory
      → Leaves 0 (use_item_on floats (s, changes) body)
  unfolding use_item_on
  use_item_on-Leaves s changes body h held =
      bind-Leaves 0 26 _ _ (read_or_zero-Leaves 26 body h) λ _ b1 l1.
        bind-Leaves 0 18 (get_be 8 b1) _ (get_be-Leaves 8 18 b1 l1) λ _ b2 l2.
          bind-Leaves 0 13 _ _ (read_or_zero-Leaves 13 b2 l2) λ _ b3 l3.
            bind-Leaves 0 9 (get_be 4 b3) _ (get_be-Leaves 4 9 b3 l3) λ _ b4 l4.
              bind-Leaves 0 5 (get_be 4 b4) _ (get_be-Leaves 4 5 b4 l4) λ _ b5 l5.
                bind-Leaves 0 1 (get_be 4 b5) _ (get_be-Leaves 4 1 b5 l5) λ _ b6 l6.
                  bind-Leaves 0 0 (get_be 1 b6) _ (get_be-Leaves 1 0 b6 l6) λ _ b7 l7.
                    bind-Leaves 0 0 _ _ (read_or_zero-returns b7) λ _ b8 l8.
                      let (slot, e) = get_elem?-lt s.inventory s.held_slot held in rw e l8

  set_carried_item-Leaves :
      (w : World floats) (body : Bytes) → Leaves 0 (set_carried_item floats w body)
  unfolding set_carried_item
  set_carried_item-Leaves w body = bind-Leaves 0 0 _ _ (read_or_zero-returns body) λ _ b1 l1. l1

  read_number-Leaves : (w : World floats) (body : Bytes) → Leaves 0 (read_number floats w body)
  read_number-Leaves w body = bind-Leaves 0 0 _ _ (read_or_zero-returns body) λ _ b1 l1. l1

  ignored-checked_text :
      (w : World floats) (bytes rest : Bytes)
      → Leaves 0 (ignored floats w (checked_text bytes rest))
  ignored-checked_text w bytes rest = elim (Bool-cases (is_utf8 bytes)) [
    | inl t ↦ rw t (omega arith)
    | inr f ↦ rw f (omega arith)
  ]

  chat_command-Leaves : (w : World floats) (body : Bytes) → Leaves 0 (chat_command floats w body)
  unfolding chat_command read_text read_var_int
  chat_command-Leaves w body =
      after (read_var_int body) (read_loop-Within 5 0 0 body refl (omega arith))
    where
      after :
          (r : Read VarIntError ℕ)
          → Within 5 body r
          → Leaves 0 (
              ignored floats w (
                bind (map_err length_error r) λ len.
                  require (as_usize len) (λ _. too_short)
                  >> (split_to (as_usize len) >>= checked_text)))
      after (ok len rest) h = elim (Bool-cases (leb (as_usize len) (length rest))) [
        | inl t ↦ rw (t, t) (ignored-checked_text w _ _)
        | inr f ↦ rw f (omega arith)
      ]
      after (err e rest) h = omega arith
      after panic h = h

  if-Leaves :
      (b : Bool) (p q : Reader ⊥ (World floats)) (body : Bytes)
      → (b ≡ true → Leaves 0 (p body))
      → Leaves 0 (q body)
      → Leaves 0 ((if b then p else q) body)
  if-Leaves true p q body h k = h refl
  if-Leaves false p q body h k = k

  -- The handler returns on every packet: on a PlayerAction with a body of 14 bytes or more, on a UseItemOn
  -- with a body of 31 bytes or more while the held slot is in the inventory, and on every body of any
  -- other packet.
  pub handle_sb_packet-Leaves :
      (uuid pid : ℕ) (s : ServerState floats) (changes : List ℕ) (body : Bytes)
      → ((pid == sb_player_action) ≡ true → 14 ≤ length body)
      → ((pid == sb_use_item_on) ≡ true → (31 ≤ length body) × (s.held_slot < length s.inventory))
      → Leaves 0 (handle_sb_packet floats uuid pid (s, changes) body)
  unfolding handle_sb_packet
  handle_sb_packet-Leaves uuid pid s changes body action item =
      let w : World floats = (s, changes) in
      if-Leaves (pid == sb_client_tick_end) _ _ body (λ _. omega arith)
        (if-Leaves (pid == sb_move_player_pos) _ _ body (λ _. move_player_pos-Leaves w body)
          (if-Leaves (pid == sb_move_player_pos_rot) _ _ body
            (λ _. move_player_pos_rot-Leaves w body)
            (if-Leaves (pid == sb_move_player_rot) _ _ body (λ _. move_player_rot-Leaves w body)
              (if-Leaves (pid == sb_swing) _ _ body (λ _. read_number-Leaves w body)
                (if-Leaves (pid == sb_client_command) _ _ body (λ _. read_number-Leaves w body)
                  (if-Leaves (pid == sb_player_action) _ _ body
                    (λ t. player_action-Leaves uuid w body (action t))
                    (if-Leaves (pid == sb_use_item_on) _ _ body
                      (λ t.
                        let (long, held) = item t in use_item_on-Leaves s changes body long held)
                      (if-Leaves (pid == sb_set_carried_item) _ _ body
                        (λ _. set_carried_item-Leaves w body)
                        (if-Leaves (pid == sb_keep_alive) _ _ body (λ _. read_number-Leaves w body)
                          (if-Leaves (pid == sb_chat_command) _ _ body
                            (λ _. chat_command-Leaves w body) (omega arith)))))))))))
