-- ===== src/Proxy/Connection/Order.antt =====
-- The order of the phases of `handle_connection` of crates/mc-proxy/src/server.rs.
use pico_server_rs.Base.{
  ℕ, ◌≡◌, sym, List, [], ◌∷◌, Bool, true, false, Bool-cases, inl, inr, ◌==◌, if◌then◌else◌, arith,
}
use pico_server_rs.Base.Words.{Bytes}
use pico_server_rs.Base.Read.{Read, ok, err, panic}
use mathlib.Core.Path.{subst}
use pico_server_rs.Proto.Login.{UuidCrate}
use pico_server_rs.Proxy.Connection.{
  Packets, ConnectionError, not_a_login, Phase, in_handshake, in_login, in_config, Connection,
  new_connection, Outcome, next, play, failed, enter_login, answer_login, read_next,
  read_login_start, handle_frame, go_on, handle_frames,
}

abbrev pub Frames : Type 0
Frames = List (ℕ × (ℕ × Bytes))

-- The ids of frames that lead from a phase into play.
pub data Leads : Phase → List ℕ → Type 0 where
  finished : (ids : List ℕ) → Leads in_config (0x03 ∷ ids)
  configured : (id : ℕ) (ids : List ℕ) → Leads in_config ids → Leads in_config (id ∷ ids)
  acknowledged : (ids : List ℕ) → Leads in_config ids → Leads in_login (0x03 ∷ ids)
  logging_in : (id : ℕ) (ids : List ℕ) → Leads in_login ids → Leads in_login (id ∷ ids)
  shaken : (ids : List ℕ) → Leads in_login ids → Leads in_handshake (0x00 ∷ ids)

abbrev pub ids_of : Frames → List ℕ
ids_of [] = []
ids_of ((fresh, (id, body)) ∷ frames) = id ∷ ids_of frames

equal : (a b : ℕ) → (a == b) ≡ true → a ≡ b
equal a b h = ground arith

-- What follows a handshake and a login start that were read.
enter_login-next :
    (c : Connection) (sent : Packets) (r : Read ConnectionError ℕ)
    (k : Connection → Packets → Outcome) (v : ℕ) (out : Packets)
    → go_on (enter_login c sent r) k ≡ play v out
    → k (record c { phase = in_login }) sent ≡ play v out
enter_login-next c sent (ok n rest) k v out e = chosen (n == 2) e
  where
    chosen :
        (b : Bool)
        → go_on
            (if b then next (record c { phase = in_login }) sent else failed (not_a_login n) sent)
            k
          ≡ play v out
        → k (record c { phase = in_login }) sent ≡ play v out
    chosen true q = q
    chosen false q = cc
enter_login-next c sent (err x rest) k v out e = cc
enter_login-next c sent panic k v out e = cc

module _ (crate : UuidCrate) (registry_packets : Packets) where
  answer_login-next :
      (fresh : ℕ) (c : Connection) (sent : Packets) (r : Read ConnectionError (Bytes × ℕ))
      (k : Connection → Packets → Outcome) (v : ℕ) (out : Packets)
      → go_on (answer_login crate registry_packets fresh c sent r) k ≡ play v out
      → (u : ℕ) × (sent' : Packets) × (k (record c { player_uuid = u }) sent' ≡ play v out)
  answer_login-next fresh c sent (ok (name, u) rest) k v out e = (u, _, e)
  answer_login-next fresh c sent (err x rest) k v out e = cc
  answer_login-next fresh c sent panic k v out e = cc

  leads :
      (frames : Frames) (phase : Phase) (u : ℕ) (sent : Packets) (v : ℕ) (out : Packets)
      → handle_frames crate registry_packets frames (record { phase = phase; player_uuid = u }) sent
        ≡ play v out
      → Leads phase (ids_of frames)
  unfolding handle_frames handle_frame
  leads [] phase u sent v out e = cc
  leads ((fresh, (id, body)) ∷ fs) in_handshake u sent v out e =
      let c : Connection = record { phase = in_handshake; player_uuid = u } in
      elim (Bool-cases (id == 0x00)) [
        | inl t ↦
            let q = enter_login-next c sent (read_next body) _ v out (rw t at e) in
            subst (λ (i : ℕ). Leads in_handshake (i ∷ ids_of fs)) (sym (equal id 0x00 t))
              (shaken _ (leads fs in_login u sent v out q))
        | inr f ↦ absurd (no_play _ _ v out (rw f at e))
      ]
    where
      no_play :
          (x : ConnectionError) (s : Packets) (v : ℕ) (out : Packets) → failed x s ≡ play v out → ⊥
      no_play x s v out q = cc
  leads ((fresh, (id, body)) ∷ fs) in_login u sent v out e =
      let c : Connection = record { phase = in_login; player_uuid = u } in
      elim (Bool-cases (id == 0x00)) [
        | inl t ↦
            let (u', sent', q) =
              answer_login-next fresh c sent (read_login_start crate registry_packets body) _ v out
                (rw t at e) in
            logging_in _ _ (leads fs in_login u' sent' v out q)
        | inr f ↦ elim (Bool-cases (id == 0x03)) [
          | inl t ↦
              subst (λ (i : ℕ). Leads in_login (i ∷ ids_of fs)) (sym (equal id 0x03 t))
                (acknowledged _ (leads fs in_config u _ v out (rw (f, t) at e)))
          | inr g ↦ logging_in _ _ (leads fs in_login u sent v out (rw (f, g) at e))
        ]
      ]
  leads ((fresh, (id, body)) ∷ fs) in_config u sent v out e = elim (Bool-cases (id == 0x03)) [
    | inl t ↦
        subst (λ (i : ℕ). Leads in_config (i ∷ ids_of fs)) (sym (equal id 0x03 t)) (finished _)
    | inr g ↦ configured _ _ (leads fs in_config u sent v out (rw g at e))
  ]

  -- A new connection gets into the play phase only by frames whose ids begin with 0x00, the handshake,
  -- and have behind it an 0x03 that acknowledges the login and a later 0x03 that ends the
  -- configuration.
  pub handle_frames-Leads :
      (frames : Frames) (uuid : ℕ) (sent : Packets)
      → handle_frames crate registry_packets frames new_connection [] ≡ play uuid sent
      → Leads in_handshake (ids_of frames)
  handle_frames-Leads frames uuid sent e = leads frames in_handshake 0 [] uuid sent e
