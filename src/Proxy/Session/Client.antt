-- ===== src/Proxy/Session/Client.antt =====
-- What a client knows from the packets of crates/mc-proxy/src/server.rs: it reads the login packet,
-- its position, the centre of its view, the chunks and the block updates.
use pico_server_rs.Base.{
  ℕ, ◌≡◌, refl, sym, ap, ◌∙◌, List, [], ◌∷◌, ◌++◌, Option, none, some, and_then, All, arith, ◌==◌,
  if◌then◌else◌, append_assoc, append-nil,
}
use pico_server_rs.Base.Words.{Bytes, IsU32, IsU64}
use pico_server_rs.Base.Read.{Read, ok, err, panic, Reader, pure, get_be, ◌>>=◌}
use pico_server_rs.Base.Codec.{◌▹◌, put_be, Codec-then, Codec-map, Codec-be, read-write}
use pico_server_rs.Varint.{VarIntError, read_var_int, write_var_int}
use pico_server_rs.Varint.RoundTrip.{Codec-var_int}
use pico_server_rs.Proxy.Follow.{center_packet}
use pico_server_rs.Proxy.Ids.Clientbound.{
  cb_login, cb_player_position, cb_set_chunk_cache_center, cb_level_chunk_with_light,
  cb_block_update,
}
use pico_server_rs.Proxy.LoginPacket.RoundTrip.{read_login}
use pico_server_rs.Proxy.Pickup.{Sent}
use pico_server_rs.Proxy.Session.{replay}
use pico_server_rs.Proxy.State.{Position}

-- The position packet: the teleport id and the patterns of the coordinates.
pub record Spot : Type 0 where
  pub teleport : ℕ
  pub x : ℕ
  pub y : ℕ
  pub z : ℕ

-- What the client knows: its entity, where it stands, the centre of its view, the chunks that came in,
-- and the positions of the blocks that are gone, each list in the order of arrival.
pub record Client : Type 0 where
  pub entity : Option ℕ
  pub spot : Option Spot
  pub centre : Option Position
  pub chunks : List Position
  pub gone : List ℕ

abbrev pub nobody : Client
nobody = record { entity = none; spot = none; centre = none; chunks = []; gone = [] }

abbrev pub read_spot : Reader VarIntError Spot
read_spot = do
  teleport ← read_var_int
  x ← get_be 8
  y ← get_be 8
  z ← get_be 8
  _ ← get_be 8
  _ ← get_be 8
  _ ← get_be 8
  _ ← get_be 4
  _ ← get_be 4
  _ ← get_be 4
  pure (record { teleport = teleport; x = x; y = y; z = z })

abbrev pub read_center : Reader VarIntError Position
read_center = do x ← read_var_int; z ← read_var_int; pure (x, z)

-- The coordinates in front of a chunk.
abbrev pub read_chunk : Reader VarIntError Position
read_chunk = do x ← get_be 4; z ← get_be 4; pure (x, z)

abbrev pub read_update : Reader VarIntError (ℕ × ℕ)
read_update = do pos ← get_be 8; block ← read_var_int; pure (pos, block)

-- What is read from the front of a body.
abbrev pub front {ℓ} : {E : Type 0} {A : Type ℓ} → Read E A → (A → Client) → Option Client
front (ok a rest) f = some (f a)
front (err e rest) f = none
front panic f = none

-- Nothing may arrive in front of the login.
abbrev pub when_in : Option ℕ → Option Client → Option Client
when_in none c = none
when_in (some entity) c = c

-- A block update: block 0 is air.
abbrev pub update : Client → ℕ × ℕ → Client
update c (pos, block) = if block == 0 then record c { gone = c.gone ++ pos ∷ [] } else c

-- A packet from the server; `none` where it cannot be read.
unfoldable pub receive : Client → ℕ × Bytes → Option Client
unfolding read_login
receive c (pid, body) =
    if pid == cb_login
    then front (read_login body) (λ p. record c { entity = some p.entity_id })
    else when_in c.entity (
        if pid == cb_player_position
        then front (read_spot body) (λ spot. record c { spot = some spot })
        else if pid == cb_set_chunk_cache_center
        then front (read_center body) (λ at. record c { centre = some at })
        else if pid == cb_level_chunk_with_light
        then front (read_chunk body) (λ at. record c { chunks = c.chunks ++ at ∷ [] })
        else if pid == cb_block_update
        then front (read_update body) (update c)
        else some c)

-- All packets, in order.
unfoldable pub receive_all : Client → Sent → Option Client
unfolding receive
receive_all c [] = some c
receive_all c (packet ∷ packets) = and_then (receive c packet) (λ c'. receive_all c' packets)

pub receive_all-append :
    (c c' : Client) (xs ys : Sent)
    → receive_all c xs ≡ some c'
    → receive_all c (xs ++ ys) ≡ receive_all c' ys
unfolding receive_all
receive_all-append c c' xs ys e = go xs c ∙ ap (λ o. and_then o (λ c. receive_all c ys)) e
  where
    step :
        (o : Option Client) (xs : Sent)
        → ((c : Client)
            → receive_all c (xs ++ ys) ≡ and_then (receive_all c xs) (λ c. receive_all c ys))
        → and_then o (λ c. receive_all c (xs ++ ys))
          ≡ and_then (and_then o (λ c. receive_all c xs)) (λ c. receive_all c ys)
    step none xs h = refl
    step (some c) xs h = h c

    go :
        (xs : Sent) (c : Client)
        → receive_all c (xs ++ ys) ≡ and_then (receive_all c xs) (λ c. receive_all c ys)
    go [] c = refl
    go (x ∷ xs) c = step (receive c x) xs (go xs)

-- A client that is logged in.
abbrev pub joined : ℕ → Option Spot → Option Position → List Position → List ℕ → Client
joined entity spot centre chunks gone = record {
  entity = some entity;
  spot = spot;
  centre = centre;
  chunks = chunks;
  gone = gone;
}

module _ (entity : ℕ) (spot : Option Spot) where
  pub receive-center :
      (centre : Option Position) (chunks : List Position) (gone : List ℕ) (at : Position)
      → IsU32 at.0
      → IsU32 at.1
      → receive (joined entity spot centre chunks gone) (center_packet at)
        ≡ some (joined entity spot (some at) chunks gone)
  unfolding receive
  receive-center centre chunks gone (x, z) hx hz =
      let body = (write_var_int x ▹ write_var_int z) [] in
      let whole : read_center body ≡ ok (x, z) [] =
        ap read_center (sym (append-nil body))
        ∙ read-write
            (Codec-then _ (Codec-var_int x hx) (Codec-map _ (Codec-var_int z hz) (λ rest. refl)))
            [] in
      ap (λ r. front r (λ at. joined entity spot (some at) chunks gone)) whole

  pub receive_all-replay :
      (centre : Option Position) (chunks : List Position) (gone mined : List ℕ)
      → All IsU64 mined
      → receive_all (joined entity spot centre chunks gone) (replay mined)
        ≡ some (joined entity spot centre chunks (gone ++ mined))
  unfolding receive_all replay receive
  receive_all-replay centre chunks gone [] h =
      ap (λ (g : List ℕ). some (joined entity spot centre chunks g)) (sym (append-nil gone))
  receive_all-replay centre chunks gone (pos ∷ mined) (h, hs) =
      let c = joined entity spot centre chunks gone in
      let body = (put_be 8 pos ▹ write_var_int 0) [] in
      let whole : read_update body ≡ ok (pos, 0) [] =
        ap read_update (sym (append-nil body))
        ∙ read-write
            (Codec-then _ (Codec-be 8 pos (omega arith))
              (Codec-map _ (Codec-var_int 0 (omega arith)) (λ rest. refl)))
            [] in
      ap (λ r. and_then (front r (update c)) (λ c'. receive_all c' (replay mined))) whole
      ∙ receive_all-replay centre chunks (gone ++ pos ∷ []) mined hs
      ∙ ap (λ (g : List ℕ). some (joined entity spot centre chunks g))
          (append_assoc gone (pos ∷ []) mined)
