-- ===== src/Proto/Config/Packets.antt =====
-- The packets of the configuration state, crates/mc-proto/src/config.rs, together.
use pico_server_rs.Base.{◌<◌, ◌^◌, length, All}
use pico_server_rs.Proto.Packet.{RoundTrips}
use pico_server_rs.Proto.Text.{IsText}
use pico_server_rs.Proto.Config.Registry.{
  ClientboundRegistryData, IsBare, registry_packet, RegistryData-RoundTrips,
}
use pico_server_rs.Proto.Config.Lists.{
  ClientboundUpdateEnabledFeatures, ClientboundSelectKnownPacks, IsPack, features_packet,
  known_packs_packet, list_packets-RoundTrip,
}
use pico_server_rs.Proto.Config.Client.{
  ClientInformation, IsValid, client_information_packet, ClientInformation-RoundTrips,
}

-- Registry data, feature and pack lists and a client's information are read back as they were
-- written, where their texts are UTF-8 of a length that fits an i32, the lists are that short too,
-- the entries of the registry have no data, and the numbers of the client fit their types.
pub config_packets-RoundTrip :
    (r : ClientboundRegistryData) (f : ClientboundUpdateEnabledFeatures)
    (k : ClientboundSelectKnownPacks) (c : ClientInformation)
    → IsText r.registry_key
    → length r.entries < 2 ^ 31
    → All IsBare r.entries
    → length f.features < 2 ^ 31
    → All IsText f.features
    → length k.known_packs < 2 ^ 31
    → All IsPack k.known_packs
    → IsValid c
    → RoundTrips registry_packet r
      × RoundTrips features_packet f
      × RoundTrips known_packs_packet k
      × RoundTrips client_information_packet c
config_packets-RoundTrip r f k c key few bare few_f texts few_k packs valid =
    let (lists, known) = list_packets-RoundTrip f k few_f texts few_k packs in
    (RegistryData-RoundTrips r key few bare, lists, known, ClientInformation-RoundTrips c valid)
