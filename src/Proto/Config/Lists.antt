-- ===== src/Proto/Config/Lists.antt =====
-- The enabled features and the known packs of crates/mc-proto/src/config.rs.
use pico_server_rs.Base.{◌<◌, ◌^◌, refl, List, ◌++◌, length, All}
use pico_server_rs.Base.Words.{Bytes}
use pico_server_rs.Base.Read.{Reader, pure, ◌>>=◌}
use pico_server_rs.Base.Codec.{Writer, ◌▹◌, Codec, Codec-then, Codec-map, read-write}
use pico_server_rs.Proto.Error.{PacketError}
use pico_server_rs.Proto.Packet.{Packet, RoundTrips}
use pico_server_rs.Proto.Text.{read_string, write_string, IsText, text_bytes, Codec-string}
use pico_server_rs.Proto.Config.{read_counted, write_counted, Codec-counted}

pub record ClientboundUpdateEnabledFeatures : Type 0 where
  pub features : List Bytes

unfoldable pub write_features : ClientboundUpdateEnabledFeatures → Writer
write_features p = write_counted write_string p.features

unfoldable pub read_features : Reader PacketError ClientboundUpdateEnabledFeatures
read_features = do features ← read_counted read_string; pure (record { features = features })

abbrev pub features_packet : Packet ClientboundUpdateEnabledFeatures
features_packet = record { id = 0x0c; write = write_features; read = read_features }

pub record KnownPack : Type 0 where
  pub namespace : Bytes
  pub id : Bytes
  pub version : Bytes

pub record ClientboundSelectKnownPacks : Type 0 where
  pub known_packs : List KnownPack

unfoldable pub write_known_pack : KnownPack → Writer
write_known_pack pack =
    write_string pack.namespace ▹ write_string pack.id ▹ write_string pack.version

unfoldable pub read_known_pack : Reader PacketError KnownPack
read_known_pack = do
  namespace ← read_string
  id ← read_string
  version ← read_string
  pure (record { namespace = namespace; id = id; version = version })

unfoldable pub write_known_packs : ClientboundSelectKnownPacks → Writer
write_known_packs p = write_counted write_known_pack p.known_packs

unfoldable pub read_known_packs : Reader PacketError ClientboundSelectKnownPacks
read_known_packs = do
  known_packs ← read_counted read_known_pack
  pure (record { known_packs = known_packs })

abbrev pub known_packs_packet : Packet ClientboundSelectKnownPacks
known_packs_packet = record { id = 0x0e; write = write_known_packs; read = read_known_packs }

-- The parts of a pack are texts.
pub record IsPack (pack : KnownPack) : Type 0 where
  pub namespace_text : IsText pack.namespace
  pub id_text : IsText pack.id
  pub version_text : IsText pack.version

abbrev pack_bytes : KnownPack → Bytes
pack_bytes pack = text_bytes pack.namespace ++ (text_bytes pack.id ++ text_bytes pack.version)

Codec-known_pack :
    (pack : KnownPack)
    → IsPack pack
    → Codec (write_known_pack pack) read_known_pack (pack_bytes pack) pack
unfolding write_known_pack read_known_pack
Codec-known_pack pack h = Codec-then _ (Codec-string pack.namespace h.namespace_text) (
    Codec-then _ (Codec-string pack.id h.id_text)
      (Codec-map _ (Codec-string pack.version h.version_text) (λ rest. refl)))

-- Feature and pack lists of any length that fits an i32 are read back as they were written, where
-- their parts are texts.
pub list_packets-RoundTrip :
    (f : ClientboundUpdateEnabledFeatures) (k : ClientboundSelectKnownPacks)
    → length f.features < 2 ^ 31
    → All IsText f.features
    → length k.known_packs < 2 ^ 31
    → All IsPack k.known_packs
    → RoundTrips features_packet f × RoundTrips known_packs_packet k
unfolding write_features read_features write_known_packs read_known_packs
list_packets-RoundTrip f k lf hf lk hk = (
  read-write (
      Codec-map _
        (Codec-counted IsText text_bytes write_string read_string Codec-string f.features lf hf)
        (λ rest. refl)),
  read-write (
      Codec-map _
        (Codec-counted IsPack pack_bytes write_known_pack read_known_pack Codec-known_pack
          k.known_packs lk hk)
        (λ rest. refl)),
)
