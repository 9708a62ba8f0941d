-- ===== src/Proxy/Registry/RoundTrip.antt =====
-- `build_registry_packets` of config_handler.rs against the packets of crates/mc-proto.
use pico_server_rs.Base.{
  suc, ◌^◌, ◌<◌, ◌≡◌, refl, ap, ◌∙◌, sym, List, [], ◌∷◌, ◌++◌, append-nil, none, map, length, All,
  arith,
}
use pico_server_rs.Base.Words.{Bytes, as_i32, be_bytes}
use pico_server_rs.Base.Read.{ok}
use pico_server_rs.Base.Utf8.{is_utf8}
use pico_server_rs.Varint.{write_var_int}
use pico_server_rs.Proto.Config.{write_each, write_counted}
use pico_server_rs.Proto.Config.Client.{clientbound_finish_packet}
use pico_server_rs.Proto.Config.Lists.{
  ClientboundUpdateEnabledFeatures, ClientboundSelectKnownPacks, write_features, read_features,
  write_known_pack, write_known_packs, read_known_packs, list_packets-RoundTrip, features_packet,
  known_packs_packet,
}
use pico_server_rs.Proto.Config.Registry.{
  RegistryEntry, ClientboundRegistryData, IsBare, write_entry, write_registry, read_registry,
  registry_packet, RegistryData-RoundTrips,
}
use pico_server_rs.Proto.Text.{write_string, IsText}
use pico_server_rs.Proxy.Registry.{
  build_registry_packets, vanilla, minecraft, core, core_version, features_body, packs_body,
  write_entry_ids, registry_body,
}

-- An entry without data.
abbrev pub bare_entry : Bytes → RegistryEntry
bare_entry id = record { id = id; content = none }

-- What a registry is for mc-proto.
abbrev pub registry_of : Bytes × List Bytes → ClientboundRegistryData
registry_of (key, ids) = record { registry_key = key; entries = map bare_entry ids }

-- Texts, fewer of them than an i32 counts.
pub record IsRegistry (registry : Bytes × List Bytes) : Type 0 where
  pub key_text : IsText registry.0
  pub id_texts : All IsText registry.1
  pub few : length registry.1 < 2 ^ 31

write_entry_ids-each :
    (ids : List Bytes) (buf : Bytes)
    → write_entry_ids ids buf ≡ write_each write_entry (map bare_entry ids) buf
unfolding write_entry_ids write_each write_entry write_var_int be_bytes
write_entry_ids-each [] buf = refl
write_entry_ids-each (id ∷ ids) buf = write_entry_ids-each ids (write_string id buf ++ 0 ∷ [])

length-map : (ids : List Bytes) → length (map bare_entry ids) ≡ length ids
length-map [] = refl
length-map (id ∷ ids) = ap suc (length-map ids)

map-IsBare : (ids : List Bytes) → All IsText ids → All IsBare (map bare_entry ids)
map-IsBare [] h = tt
map-IsBare (id ∷ ids) (h, hs) = (record { id_text = h; bare = refl }, map-IsBare ids hs)

registry_body-write :
    (key : Bytes) (ids : List Bytes)
    → registry_body (key, ids) ≡ write_registry (registry_of (key, ids)) []
unfolding registry_body write_registry write_counted
registry_body-write key ids =
    rw (length-map ids)
      (write_entry_ids-each ids (write_var_int (as_i32 (length ids)) (write_string key [])))

vanilla-IsText : IsText vanilla
unfolding is_utf8
vanilla-IsText = record { utf8 = refl; short = omega arith }

minecraft-IsText : IsText minecraft
unfolding is_utf8
minecraft-IsText = record { utf8 = refl; short = omega arith }

core-IsText : IsText core
unfolding is_utf8
core-IsText = record { utf8 = refl; short = omega arith }

core_version-IsText : IsText core_version
unfolding is_utf8
core_version-IsText = record { utf8 = refl; short = omega arith }

-- The features and the packs that the server names.
abbrev pub server_features : ClientboundUpdateEnabledFeatures
server_features = record { features = vanilla ∷ [] }

abbrev pub server_packs : ClientboundSelectKnownPacks
server_packs = record {
  known_packs = record { namespace = minecraft; id = core; version = core_version } ∷ [];
}

-- One body is read back as the registry it was made from.
abbrev pub ReadsBack : Bytes × List Bytes → Type 0
ReadsBack registry = read_registry (registry_body registry) ≡ ok (registry_of registry) []

registry_body-ReadsBack : (registry : Bytes × List Bytes) → IsRegistry registry → ReadsBack registry
registry_body-ReadsBack (key, ids) h =
    ap read_registry
      (registry_body-write key ids ∙ sym (append-nil (write_registry (registry_of (key, ids)) [])))
    ∙ RegistryData-RoundTrips (registry_of (key, ids)) h.key_text
        (omega (arith, h.few, length-map ids)) (map-IsBare ids h.id_texts) []

registry_bodies-ReadsBack :
    (registries : List (Bytes × List Bytes)) → All IsRegistry registries → All ReadsBack registries
registry_bodies-ReadsBack [] h = tt
registry_bodies-ReadsBack (r ∷ rs) (h, hs) =
    (registry_body-ReadsBack r h, registry_bodies-ReadsBack rs hs)

-- What the server sends in the configuration phase is what the packets of mc-proto are: features,
-- packs, each registry in order and, behind the tags, the end, under the ids that mc-proto gives them.
-- The bodies are read back as the one feature, the one pack, and every registry with its ids as entries
-- without data, where keys and ids are texts and an i32 counts the ids.
pub build_registry_packets-read :
    (registries : List (Bytes × List Bytes)) (tags : Bytes)
    → All IsRegistry registries
    → (build_registry_packets registries tags
        ≡ (features_packet.id, features_body)
          ∷ (known_packs_packet.id, packs_body)
          ∷ (map (λ r. (registry_packet.id, registry_body r)) registries
              ++ (0x0d, tags) ∷ (clientbound_finish_packet.id, []) ∷ []))
      × (read_features features_body ≡ ok server_features [])
      × (read_known_packs packs_body ≡ ok server_packs [])
      × All ReadsBack registries
unfolding build_registry_packets features_body packs_body write_features write_known_packs
    write_known_pack write_counted write_each write_string write_var_int
build_registry_packets-read registries tags h =
    let (f, p) =
      list_packets-RoundTrip server_features server_packs (omega arith) (vanilla-IsText, tt)
        (omega arith)
        (
          record {
            namespace_text = minecraft-IsText;
            id_text = core-IsText;
            version_text = core_version-IsText;
          },
          tt,
        ) in
    (refl, f [], p [], registry_bodies-ReadsBack registries h)
