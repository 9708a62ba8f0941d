-- ===== src/Proxy/Registry/Examples.antt =====
-- The configuration packets of a server with one registry.
use pico_server_rs.Base.{◌≡◌, refl, List, [], ◌∷◌, ◌++◌, map, All, arith, true, length, ◌<◌, ◌^◌}
use pico_server_rs.Base.Words.{Bytes}
use pico_server_rs.Base.Read.{ok}
use pico_server_rs.Base.Utf8.{is_utf8}
use pico_server_rs.Proto.Config.Client.{clientbound_finish_packet}
use pico_server_rs.Proto.Config.Lists.{
  features_packet, known_packs_packet, read_features, read_known_packs,
}
use pico_server_rs.Proto.Config.Registry.{registry_packet}
use pico_server_rs.Proto.Text.{IsText}
use pico_server_rs.Proxy.Registry.{build_registry_packets, features_body, packs_body, registry_body}
use pico_server_rs.Proxy.Registry.RoundTrip.{
  IsRegistry, ReadsBack, server_features, server_packs, build_registry_packets-read,
}

-- The registry "a" with the ids "b" and "c".
abbrev registry : Bytes × List Bytes
registry = (97 ∷ [], (98 ∷ []) ∷ (99 ∷ []) ∷ [])

letter-IsText : (b : Bytes) → is_utf8 b ≡ true → length b < 2 ^ 31 → IsText b
letter-IsText b u h = record { utf8 = u; short = h }

registry-IsRegistry : IsRegistry registry
unfolding is_utf8
registry-IsRegistry = record {
  key_text = letter-IsText (97 ∷ []) refl (omega arith);
  id_texts = (
    letter-IsText (98 ∷ []) refl (omega arith),
    (letter-IsText (99 ∷ []) refl (omega arith), tt),
  );
  few = omega arith;
}

build_registry_packets-read_example :
    (build_registry_packets (registry ∷ []) (1 ∷ 2 ∷ [])
      ≡ (features_packet.id, features_body)
        ∷ (known_packs_packet.id, packs_body)
        ∷ (map (λ r. (registry_packet.id, registry_body r)) (registry ∷ [])
            ++ (0x0d, 1 ∷ 2 ∷ []) ∷ (clientbound_finish_packet.id, []) ∷ []))
    × (read_features features_body ≡ ok server_features [])
    × (read_known_packs packs_body ≡ ok server_packs [])
    × All ReadsBack (registry ∷ [])
build_registry_packets-read_example =
    build_registry_packets-read (registry ∷ []) (1 ∷ 2 ∷ []) (registry-IsRegistry, tt)
