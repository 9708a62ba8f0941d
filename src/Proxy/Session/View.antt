-- ===== src/Proxy/Session/View.antt =====
-- The chunks that crates/mc-proxy/src/server.rs sends, as a client reads them.
use pico_server_rs.Base.{
  ℕ, ◌≤◌, ◌≡◌, refl, sym, ap, ◌∙◌, List, [], ◌∷◌, ◌++◌, Option, some, and_then, All, All-append,
  length, drop, arith, append_assoc, append-nil, le→leb, take-append, length-append,
  length-drop_bytes,
}
use pico_server_rs.Base.Words.{Bytes, IsU32, be_bytes, length-be_bytes}
use pico_server_rs.Base.Read.{ok}
use pico_server_rs.Base.Codec.{Codec-then, Codec-map, Codec-be, Codec}
use pico_server_rs.Proxy.Chunk.{copy_from_slice, copy_z, to_bytes}
use pico_server_rs.Proxy.Follow.{chunk_packets, batch}
use pico_server_rs.Proxy.Ids.Clientbound.{cb_level_chunk_with_light}
use pico_server_rs.Proxy.Pickup.{Sent}
use pico_server_rs.Proxy.Session.Client.{
  Spot, joined, front, read_chunk, receive, receive_all, receive_all-append,
}
use pico_server_rs.Proxy.State.{Position, row, rows}

-- Coordinates that fit an i32.
abbrev pub IsPlace : Position → Type 0
IsPlace at = IsU32 at.0 × IsU32 at.1

row-IsPlace : (c : Position) (dx : ℕ) (dzs : List ℕ) → All IsPlace (row c dx dzs)
row-IsPlace (cx, cz) dx [] = tt
row-IsPlace (cx, cz) dx (dz ∷ dzs) = ((omega arith, omega arith), row-IsPlace (cx, cz) dx dzs)

pub rows-IsPlace : (c : Position) (dxs dzs : List ℕ) → All IsPlace (rows c dxs dzs)
rows-IsPlace c [] dzs = tt
rows-IsPlace c (dx ∷ dxs) dzs =
    All-append IsPlace (row c dx dzs) (rows c dxs dzs) (row-IsPlace c dx dzs)
      (rows-IsPlace c dxs dzs)

-- The body of a chunk packet, with its coordinates in front.
to_bytes-read :
    (template : Bytes) (x z : ℕ)
    → 8 ≤ length template
    → IsPlace (x, z)
    → (body rest : Bytes) × (to_bytes template (record { chunk_x = x; chunk_z = z }) ≡ some body)
      × (read_chunk body ≡ ok (x, z) rest)
unfolding to_bytes
to_bytes-read template x z h (hx, hz) =
    let xs = be_bytes 4 x in
    let zs = be_bytes 4 z in
    let first = xs ++ drop 4 template in
    let rest = drop 8 first in
    let n = length-be_bytes 4 x in
    let m = length-be_bytes 4 z in
    let size = length-drop_bytes 4 template in
    let long = length-append xs (drop 4 template) in
    let one : copy_from_slice 0 xs template ≡ some first =
      rw (n, le→leb 4 (length template) (omega arith)) refl in
    let two : copy_from_slice 4 zs first ≡ some (xs ++ zs ++ rest) =
      rw
        (
          m,
          le→leb 8 (length first) (omega (arith, n, size, long)),
          take-append 4 xs (drop 4 template) n,
        )
        refl in
    (
      xs ++ zs ++ rest,
      rest,
      ap (copy_z (record { chunk_x = x; chunk_z = z })) one ∙ two,
      Codec.reads
          (Codec-then _ (Codec-be 4 x (omega arith))
            (Codec-map _ (Codec-be 4 z (omega arith)) (λ r. refl)))
          rest,
    )

module _ (entity : ℕ) (spot : Option Spot) (gone : List ℕ) where
  -- The packets of the chunks, and what a client knows after them.
  pub chunk_packets-read :
      (template : Bytes) (chunks : List Position)
      → 8 ≤ length template
      → All IsPlace chunks
      → (packets : Sent) × (chunk_packets template chunks ≡ some packets)
        × ((centre : Option Position) (before : List Position)
            → receive_all (joined entity spot centre before gone) packets
              ≡ some (joined entity spot centre (before ++ chunks) gone))
  unfolding chunk_packets receive_all receive
  chunk_packets-read template [] h k = (
    [],
    refl,
    λ centre before.
        ap (λ (cs : List Position). some (joined entity spot centre cs gone))
          (sym (append-nil before)),
  )
  chunk_packets-read template ((x, z) ∷ chunks) h (k, ks) =
      let (body, rest, e, read) = to_bytes-read template x z h k in
      let (packets, f, all) = chunk_packets-read template chunks h ks in
      (
        (cb_level_chunk_with_light, body) ∷ packets,
        rw (e, f) refl,
        λ centre before.
            ap
              (λ r.
                and_then (front r (λ at. joined entity spot centre (before ++ at ∷ []) gone))
                  (λ c'. receive_all c' packets))
              read
            ∙ all centre (before ++ (x, z) ∷ [])
            ∙ ap (λ (cs : List Position). some (joined entity spot centre cs gone))
                (append_assoc before ((x, z) ∷ []) chunks),
      )

  -- The same in a batch.
  pub batch-read :
      (n : ℕ) (centre : Option Position) (before chunks : List Position) (packets : Sent)
      → receive_all (joined entity spot centre before gone) packets
        ≡ some (joined entity spot centre (before ++ chunks) gone)
      → receive_all (joined entity spot centre before gone) (batch n packets)
        ≡ some (joined entity spot centre (before ++ chunks) gone)
  unfolding receive_all receive
  batch-read n centre before chunks packets all = receive_all-append _ _ packets _ all
