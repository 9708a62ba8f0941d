-- ===== src/Proxy/Follow/Loaded.antt =====
-- The loaded chunks and the chunks in view, as the play loop of server.rs follows the player.
use pico_server_rs.Base.{
  ℕ, ◌+◌, ◌≤◌, ◌≡◌, refl, ap, sym, ◌∙◌, List, [], ◌∷◌, ◌++◌, Bool, true, false, Bool-cases, inl,
  inr, Option, some, All, length, lengths, arith, take, drop, le→leb, length-append_bytes,
  length-take_bytes, length-drop_bytes, and_then,
}
use pico_server_rs.Base.Words.{Bytes, be_bytes, length-be_bytes}
use pico_server_rs.Proxy.Chunk.{LevelChunk, copy_from_slice, copy_z, to_bytes}
use pico_server_rs.Proxy.Follow.{
  batch, center_packet, chunk_packets, send_chunks, send_new, follow_player,
}
use pico_server_rs.Proxy.Ids.Clientbound.{cb_level_chunk_with_light}
use pico_server_rs.Proxy.Pickup.{Sent}
use pico_server_rs.Proxy.State.{
  Floats, Position, same_position, contains, ServerState, player_chunk, chunk_changed, offsets,
  rows, visible_chunks, not_loaded, new_visible_chunks, mark_chunks_loaded,
}
use pico_server_rs.Proxy.State.Chunks.{mark_chunks_loaded-settles}
use mathlib.Core.Bool.{not}
use mathlib.Core.Path.{subst}

copy_from_slice-some :
    (at : ℕ) (bs buf : Bytes)
    → at + length bs ≤ length buf
    → (out : Bytes) × (copy_from_slice at bs buf ≡ some out) × (length out ≡ length buf)
copy_from_slice-some at bs buf h = (
  take at buf ++ bs ++ drop (at + length bs) buf,
  rw (le→leb (at + length bs) (length buf) h),
  omega (
    lengths,
    length-append_bytes (take at buf) (bs ++ drop (at + length bs) buf),
    length-append_bytes bs (drop (at + length bs) buf),
    length-take_bytes at buf,
    length-drop_bytes (at + length bs) buf,
  ),
)

to_bytes-some :
    (template : Bytes) (chunk : LevelChunk)
    → 8 ≤ length template
    → (out : Bytes) × (to_bytes template chunk ≡ some out)
unfolding to_bytes
to_bytes-some template chunk h =
    let (first, e, n) =
      copy_from_slice-some 0 (be_bytes 4 chunk.chunk_x) template
        (omega (arith, length-be_bytes 4 chunk.chunk_x)) in
    let (second, f, m) =
      copy_from_slice-some 4 (be_bytes 4 chunk.chunk_z) first
        (omega (arith, n, length-be_bytes 4 chunk.chunk_z)) in
    (second, ap (copy_z chunk) e ∙ f)

pub chunk_packets-some :
    (template : Bytes) (chunks : List Position)
    → 8 ≤ length template
    → (sent : Sent) × (chunk_packets template chunks ≡ some sent)
unfolding chunk_packets
chunk_packets-some template [] h = ([], refl)
chunk_packets-some template ((cx, cz) ∷ chunks) h =
    let (body, e) = to_bytes-some template (record { chunk_x = cx; chunk_z = cz }) h in
    let (rest, f) = chunk_packets-some template chunks h in
    ((cb_level_chunk_with_light, body) ∷ rest, rw (e, f) refl)

module _ (floats : Floats) where
  abbrev Loads : ServerState floats → Position → Type 0
  Loads s c = contains c s.loaded_chunks ≡ true

  -- The chunks in view from the last position that was sent are loaded.
  abbrev pub Settled : ServerState floats → Type 0
  Settled s = All (Loads s) (rows s.last_chunk offsets offsets)

  -- What following the player does to the state.
  pub record Followed (s : ServerState floats) (out : Option (ServerState floats × Sent))
      : Type 0 where
    pub after : ServerState floats
    pub sent : Sent
    pub returns : out ≡ some (after, sent)
    pub visible : All (Loads after) (visible_chunks floats after)
    pub settled : Settled after
    pub same_player : player_chunk floats after ≡ player_chunk floats s
    pub quiet : new_visible_chunks floats s ≡ [] → (after ≡ s) × (sent ≡ [])

  same_position-eq : (c d : Position) → same_position c d ≡ true → c ≡ d
  same_position-eq (x, z) (x', z') h = let (p, q) : (x ≡ x') × (z ≡ z') = ground arith in rw (p, q)

  not-false : (b : Bool) → not b ≡ false → b ≡ true
  not-false true h = refl
  not-false false h = cc

  none_due :
      (cs loaded : List Position)
      → not_loaded loaded cs ≡ []
      → All (λ c. contains c loaded ≡ true) cs
  unfolding not_loaded
  none_due [] loaded h = tt
  none_due (c ∷ cs) loaded h = elim (Bool-cases (contains c loaded)) [
    | inl t ↦ (t, none_due cs loaded (rw t at h))
    | inr f ↦ absurd (never (not_loaded loaded cs) (rw f at h))
  ]
    where
      never : (ds : List Position) → c ∷ ds ≡ [] → ⊥
      never ds q = cc

  visible-Loads :
      (s : ServerState floats)
      → new_visible_chunks floats s ≡ []
      → All (Loads s) (visible_chunks floats s)
  unfolding new_visible_chunks
  visible-Loads s h = none_due (visible_chunks floats s) s.loaded_chunks h

  sent-Followed :
      (template : Bytes) (s : ServerState floats) (c : Position) (cs : List Position)
      → 8 ≤ length template
      → new_visible_chunks floats s ≡ c ∷ cs
      → Followed s (send_new floats template (c ∷ cs) s)
  unfolding send_chunks mark_chunks_loaded visible_chunks player_chunk
  sent-Followed template s c cs h e =
      let (packets, f) = chunk_packets-some template (c ∷ cs) h in
      let after = mark_chunks_loaded floats (c ∷ cs) s in
      let sent = batch (length (c ∷ cs)) packets in
      let one : send_chunks floats template (c ∷ cs) s ≡ some (after, sent) =
        ap (λ o. and_then o λ ps. some (after, batch (length (c ∷ cs)) ps)) f in
      let (_, all, _, _, _) = mark_chunks_loaded-settles floats s in
      let all' : All (Loads after) (visible_chunks floats after) =
        subst
          (λ (due : List Position).
            All (Loads (mark_chunks_loaded floats due s))
              (visible_chunks floats (mark_chunks_loaded floats due s)))
          e all in
      record {
        after = after;
        sent = sent ++ center_packet after.last_chunk ∷ [];
        returns =
            ap (λ o. and_then o λ (s', ps). some (s', ps ++ center_packet s'.last_chunk ∷ [])) one;
        visible = all';
        settled = all';
        same_player = refl;
        quiet = λ q. absurd (never (sym e ∙ q));
      }
    where
      never : c ∷ cs ≡ [] → ⊥
      never q = cc

  due-Followed :
      (template : Bytes) (s : ServerState floats) (due : List Position)
      → 8 ≤ length template
      → Settled s
      → new_visible_chunks floats s ≡ due
      → Followed s (send_new floats template due s)
  due-Followed template s [] h k e = record {
    after = s;
    sent = [];
    returns = refl;
    visible = visible-Loads s e;
    settled = k;
    same_player = refl;
    quiet = λ q. (refl, refl);
  }
  due-Followed template s (c ∷ cs) h k e = sent-Followed template s c cs h e

  -- With a template of eight bytes or more, and the chunks in view from the last position sent loaded,
  -- following the player returns without a panic: the chunks in view of the player are loaded after it,
  -- and those in view from the last position sent still are. Where no chunk came into view, nothing is
  -- sent, not even the new centre of the view, and the state is as it was.
  pub follow_player-Followed :
      (template : Bytes) (s : ServerState floats)
      → 8 ≤ length template
      → Settled s
      → Followed s (follow_player floats template s)
  unfolding follow_player chunk_changed visible_chunks player_chunk
  follow_player-Followed template s h k = elim (Bool-cases (chunk_changed floats s)) [
    | inl t ↦ rw t (due-Followed template s (new_visible_chunks floats s) h k refl)
    | inr f ↦
        let same =
          same_position-eq (player_chunk floats s) s.last_chunk
            (not-false (same_position (player_chunk floats s) s.last_chunk) f) in
        rw f record {
          after = s;
          sent = [];
          returns = refl;
          visible = subst (λ (c : Position). All (Loads s) (rows c offsets offsets)) (sym same) k;
          settled = k;
          same_player = refl;
          quiet = λ q. (refl, refl);
        }
  ]
