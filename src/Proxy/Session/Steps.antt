-- ===== src/Proxy/Session/Steps.antt =====
-- What holds in every state that the play loop of crates/mc-proxy/src/server.rs can reach.
use pico_server_rs.Base.{
  ℕ, zero, suc, ◌≡◌, refl, sym, List, [], ◌∷◌, ◌++◌, Option, none, some, and_then, All, replicate,
  arith, Bool-cases, inl, inr, Option-cases, ◌==◌, ap,
}
use mathlib.Core.Path.{subst}
use pico_server_rs.Base.Words.{Bytes}
use pico_server_rs.Base.Read.{Read, ok, err, panic}
use pico_server_rs.Proxy.Ids.Clientbound.{cb_login, cb_player_position}
use pico_server_rs.Proxy.Inventory.{IsSlot}
use pico_server_rs.Proxy.Pickup.{Sent}
use pico_server_rs.Proxy.Pickup.Tick.{Stocked, pickup_tick-Ticked}
use pico_server_rs.Proxy.State.{
  Floats, Position, ServerState, new_state, advance_tick, chunk_changed, new_visible_chunks,
  visible_chunks, mark_chunks_loaded, next_teleport_id,
}
use pico_server_rs.Proxy.Follow.{
  flush, follow_player, send_new, send_chunks, chunk_packets, tick_packets, on_tick,
}
use pico_server_rs.Proxy.Play.{World, handle_sb_packet}
use pico_server_rs.Proxy.Play.Stocked.{handle_sb_packet-Stocked}
use pico_server_rs.Proxy.Burst.{
  initial_burst, dynamic_burst, send_initial_packet, send_each, without_template, burst_ids,
  with_templates, with_login,
}
use pico_server_rs.Proxy.Session.{
  Incoming, flushed, on_frame, on_frames, on_read, play_start, enter_play, Step, read_step,
  tick_step, changes_step, Reach, here, after,
}

-- A result with the property, or a panic.
abbrev Gives {ℓ} : {A : Type ℓ} → (A → Type 0) → Option (A × Sent) → Type 0
Gives P none = Unit {0}
Gives P (some (a, sent)) = P a

Gives-then {ℓ κ} :
    {A : Type ℓ} {B : Type κ} (P : A → Type 0) (Q : B → Type 0) (o : Option (A × Sent))
    (f : A × Sent → Option (B × Sent))
    → Gives P o
    → ((a : A) (sent : Sent) → P a → Gives Q (f (a, sent)))
    → Gives Q (and_then o f)
Gives-then P Q none f h next = tt
Gives-then P Q (some (a, sent)) f h next = next a sent h

module _ (floats : Floats) where
  -- The inventory and the entities of the state are valid.
  abbrev Sound : World floats → Type 0
  Sound (s, changes) = Stocked floats s

  flushed-Sound :
      (r : Read ⊥ (World floats))
      → ((s : ServerState floats) (changes : List ℕ) (rest : Bytes)
          → r ≡ ok (s, changes) rest
          → Stocked floats s)
      → Gives Sound (flushed floats r)
  unfolding flush
  flushed-Sound (ok (s, changes) rest) h =
      let k = h s changes rest refl in
      record { slots = k.slots; size = k.size; entities = k.entities }
  flushed-Sound (err e rest) h = tt
  flushed-Sound panic h = tt

  on_frame-Sound :
      (w : World floats) (frame : Incoming) → Sound w → Gives Sound (on_frame floats w frame)
  unfolding on_frame
  on_frame-Sound (s, changes) frame k =
      flushed-Sound (handle_sb_packet floats frame.uuid frame.pid (s, changes) frame.body)
        (λ s' changes' rest e.
          handle_sb_packet-Stocked floats frame.uuid frame.pid s s' changes changes' frame.body rest
            k e)

  on_frames-Sound :
      (w : World floats) (frames : List Incoming)
      → Sound w
      → Gives Sound (on_frames floats w frames)
  unfolding on_frames
  on_frames-Sound w [] k = k
  on_frames-Sound w (frame ∷ frames) k =
      Gives-then Sound Sound (on_frame floats w frame) _ (on_frame-Sound w frame k) (λ w' sent k'.
        Gives-then Sound Sound (on_frames floats w' frames) _ (on_frames-Sound w' frames k')
          (λ w'' rest k''. k''))

  send_chunks-Stocked :
      (template : Bytes) (chunks : List Position) (s : ServerState floats)
      → Stocked floats s
      → Gives (Stocked floats) (send_chunks floats template chunks s)
  unfolding send_chunks mark_chunks_loaded
  send_chunks-Stocked template [] s k = k
  send_chunks-Stocked template (c ∷ cs) s k =
      elim (Option-cases (chunk_packets template (c ∷ cs))) [
        | inl e ↦ rw e tt
        | inr (packets, e) ↦ rw e (record { slots = k.slots; size = k.size; entities = k.entities })
      ]

  send_new-Stocked :
      (template : Bytes) (chunks : List Position) (s : ServerState floats)
      → Stocked floats s
      → Gives (Stocked floats) (send_new floats template chunks s)
  send_new-Stocked template [] s k = k
  send_new-Stocked template (c ∷ cs) s k =
      Gives-then (Stocked floats) (Stocked floats) (send_chunks floats template (c ∷ cs) s) _
        (send_chunks-Stocked template (c ∷ cs) s k) (λ s' sent k'. k')

  follow_player-Stocked :
      (template : Bytes) (s : ServerState floats)
      → Stocked floats s
      → Gives (Stocked floats) (follow_player floats template s)
  unfolding follow_player
  follow_player-Stocked template s k = elim (Bool-cases (chunk_changed floats s)) [
    | inl moved ↦ rw moved (send_new-Stocked template (new_visible_chunks floats s) s k)
    | inr still ↦ rw still k
  ]

  on_read-Sound :
      (template : Bytes) (w : World floats) (frames : List Incoming)
      → Sound w
      → Gives Sound (on_read floats template w frames)
  unfolding on_read
  on_read-Sound template w frames k =
      Gives-then Sound Sound (on_frames floats w frames) _ (on_frames-Sound w frames k)
        (λ w' sent k'.
          Gives-then (Stocked floats) Sound (follow_player floats template w'.0) _
            (follow_player-Stocked template w'.0 k') (λ s'' chunks k''. k''))

  -- The next tick of a state with a valid inventory.
  pub record Ticks (s : ServerState floats) : Type 0 where
    pub next : ServerState floats
    pub picked : Sent
    pub returns :
        on_tick floats s ≡ some (next, tick_packets floats (advance_tick floats s) ++ picked)
    pub stocked : Stocked floats next

  on_tick-Ticks : (s : ServerState floats) → Stocked floats s → Ticks s
  unfolding on_tick advance_tick
  on_tick-Ticks s k =
      let counted = advance_tick floats s in
      let t =
        pickup_tick-Ticked floats counted
          (record { slots = k.slots; size = k.size; entities = k.entities }) in
      record {
        next = t.after;
        picked = t.sent;
        returns =
            ap (λ o. and_then o (λ (s', sent). some (s', tick_packets floats counted ++ sent)))
              t.returns;
        stocked = t.stocked;
      }

  given-eq :
      {A : Type 0} (P : A → Type 0) (o : Option (A × Sent)) (a : A) (sent : Sent)
      → Gives P o
      → o ≡ some (a, sent)
      → P a
  given-eq P o a sent h e = subst (Gives P) e h

  empty-IsSlot : (n : ℕ) → All IsSlot (replicate n none)
  empty-IsSlot zero = tt
  empty-IsSlot (suc n) = (tt, empty-IsSlot n)

  new_state-Stocked : (uuid : ℕ) → Stocked floats (new_state floats uuid)
  new_state-Stocked uuid = record { slots = empty-IsSlot 46; size = omega arith; entities = tt }

  send_initial_packet-Stocked :
      (s : ServerState floats) (pid : ℕ) (template : Option Bytes)
      → Stocked floats s
      → Stocked floats (send_initial_packet floats s pid template).0
  unfolding send_initial_packet next_teleport_id
  send_initial_packet-Stocked s pid template k =
      let next : Stocked floats (next_teleport_id floats s).0 = record {
        slots = k.slots;
        size = k.size;
        entities = k.entities;
      } in
      elim (Bool-cases (pid == cb_login)) [
        | inl login ↦ rw login k
        | inr other ↦ elim (Bool-cases (pid == cb_player_position)) [
          | inl position ↦ rw (other, position) next
          | inr rest ↦ rw (other, rest) k
        ]
      ]

  send_each-Stocked :
      (s : ServerState floats) (packets : List (ℕ × Option Bytes))
      → Stocked floats s
      → Stocked floats (send_each floats s packets).0
  unfolding send_each
  send_each-Stocked s [] k = k
  send_each-Stocked s ((pid, template) ∷ packets) k =
      send_each-Stocked (send_initial_packet floats s pid template).0 packets
        (send_initial_packet-Stocked s pid template k)

  module _ (template : Bytes) where
    Step-Sound :
        (w w' : World floats) (sent : Sent) → Step floats template w w' sent → Sound w → Sound w'
    Step-Sound w w' sent (read_step _ _ _ frames e) k =
        given-eq Sound (on_read floats template w frames) w' sent
          (on_read-Sound template w frames k) e
    Step-Sound w w' sent (tick_step s s' changes _ e) k =
        let t = on_tick-Ticks s k in
        given-eq (Stocked floats) (on_tick floats s) s' sent
          (subst (Gives (Stocked floats)) (sym t.returns) t.stocked) e
    Step-Sound w w' sent (changes_step s changes changes') k = k

    Reach-Sound :
        (w w' : World floats) (past : Sent) → Reach floats template w w' past → Sound w → Sound w'
    Reach-Sound w w' past (here _) k = k
    Reach-Sound w w' past (after _ middle _ before sent r step) k =
        Step-Sound middle w' sent step (Reach-Sound w middle before r k)

    initial_burst-Stocked :
        (captured : List (ℕ × Bytes)) (s : ServerState floats)
        → Stocked floats s
        → Gives (Stocked floats) (initial_burst floats template captured s)
    unfolding initial_burst dynamic_burst
    initial_burst-Stocked [] s k =
        let s' = (send_each floats s (without_template burst_ids)).0 in
        Gives-then (Stocked floats) (Stocked floats)
          (send_chunks floats template (visible_chunks floats s') s') _
          (send_chunks-Stocked template (visible_chunks floats s') s'
            (send_each-Stocked s (without_template burst_ids) k))
          (λ s'' sent k''. k'')
    initial_burst-Stocked (packet ∷ packets) s k =
        send_each-Stocked s (with_templates (with_login (packet ∷ packets))) k

    play_start-Sound : (w : World floats) → Sound w → Gives Sound (play_start floats template w)
    unfolding play_start
    play_start-Sound (s, changes) k =
        Gives-then (Stocked floats) Sound (send_chunks floats template (visible_chunks floats s) s)
          _ (send_chunks-Stocked template (visible_chunks floats s) s k) (λ s' sent k'. k')

    enter_play-Sound :
        (captured : List (ℕ × Bytes)) (uuid : ℕ) (changes : List ℕ)
        → Gives Sound (enter_play floats template captured uuid changes)
    unfolding enter_play
    enter_play-Sound captured uuid changes =
        Gives-then (Stocked floats) Sound
          (initial_burst floats template captured (new_state floats uuid)) _
          (initial_burst-Stocked captured (new_state floats uuid) (new_state-Stocked uuid))
          (λ s burst k.
            Gives-then Sound Sound (play_start floats template (s, changes)) _
              (play_start-Sound (s, changes) k) (λ w sent k'. k'))

    -- In every state that the play loop can reach after a client entered play, by any packets, ticks
    -- and changes of other connections that it got through, the next tick goes through: it returns
    -- without a panic, sends the keep-alive packet and the packets of every tick first, and leaves
    -- the inventory and the entities valid.
    pub enter_play-Ticks :
        (captured : List (ℕ × Bytes)) (uuid : ℕ) (mined changes : List ℕ) (start : World floats)
        (s : ServerState floats) (burst past : Sent)
        → enter_play floats template captured uuid mined ≡ some (start, burst)
        → Reach floats template start (s, changes) past
        → Ticks s
    enter_play-Ticks captured uuid mined changes start s burst past e r =
        let entered =
          given-eq Sound (enter_play floats template captured uuid mined) start burst
            (enter_play-Sound captured uuid mined) e in
        on_tick-Ticks s (Reach-Sound start (s, changes) past r entered)
