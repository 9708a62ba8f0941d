-- ===== src/Proto/Config/Registry.antt =====
-- The registry data of crates/mc-proto/src/config.rs.
use pico_server_rs.Base.{
  ◌<◌, ◌≡◌, ◌^◌, refl, ap, ◌∙◌, List, [], ◌++◌, append-nil, append_assoc, length, lengths, leb,
  le→leb, All, Bool, true, false, Option, none, some, arith,
}
use pico_server_rs.Base.Words.{Bytes, be_bytes, length-be_bytes}
use pico_server_rs.Base.Read.{ok, Reader, pure, require, remaining, split_to, ◌>>=◌, ◌>>◌}
use pico_server_rs.Base.Codec.{
  Writer, ◌▹◌, put, put_be, Codec, Codec-then, Codec-map, Codec-require, split_to-append,
  read-write,
}
use pico_server_rs.Proto.Error.{PacketError, incomplete}
use pico_server_rs.Proto.Packet.{Packet, RoundTrips}
use pico_server_rs.Proto.Text.{read_string, write_string, IsText, text_bytes, Codec-string}
use pico_server_rs.Proto.Config.{read_counted, write_counted, Codec-counted, get_bool, Codec-bool}

pub record RegistryEntry : Type 0 where
  pub id : Bytes
  pub content : Option Bytes

pub record ClientboundRegistryData : Type 0 where
  pub registry_key : Bytes
  pub entries : List RegistryEntry

-- The `match` on an entry's data.
abbrev pub put_content : Option Bytes → Writer
put_content (some content) = put_be 1 1 ▹ put content
put_content none = put_be 1 0

unfoldable pub write_entry : RegistryEntry → Writer
write_entry entry = write_string entry.id ▹ put_content entry.content

-- An entry with data takes all that remains.
abbrev pub take_content : Bool → Reader PacketError (Option Bytes)
take_content true = do n ← remaining; content ← split_to n; pure (some content)
take_content false = pure none

unfoldable pub read_entry : Reader PacketError RegistryEntry
unfolding get_bool
read_entry = do
  id ← read_string
  require 1 (incomplete 1)
  has_data ← get_bool
  content ← take_content has_data
  pure (record { id = id; content = content })

unfoldable pub write_registry : ClientboundRegistryData → Writer
write_registry p = write_string p.registry_key ▹ write_counted write_entry p.entries

unfoldable pub read_registry : Reader PacketError ClientboundRegistryData
read_registry = do
  registry_key ← read_string
  entries ← read_counted read_entry
  pure (record { registry_key = registry_key; entries = entries })

abbrev pub registry_packet : Packet ClientboundRegistryData
registry_packet = record { id = 0x07; write = write_registry; read = read_registry }

-- An entry whose name is a text, and that has no data.
pub record IsBare (entry : RegistryEntry) : Type 0 where
  pub id_text : IsText entry.id
  pub bare : entry.content ≡ none

abbrev entry_bytes : RegistryEntry → Bytes
entry_bytes entry = text_bytes entry.id ++ be_bytes 1 0

Codec-entry :
    (entry : RegistryEntry)
    → IsBare entry
    → Codec (write_entry entry) read_entry (entry_bytes entry) entry
unfolding write_entry read_entry
Codec-entry entry h = rw h.bare (
    Codec-then _ (Codec-string entry.id h.id_text) (
      Codec-require 1 (incomplete 1) (be_bytes 1 0) (omega (arith, length-be_bytes 1 0))
        (Codec-map _ (Codec-bool false) (λ rest. refl))))

-- Registry data whose entries have no data is read back as it was written, where the key and the
-- names are texts and the number of entries fits an i32.
pub RegistryData-RoundTrips :
    (p : ClientboundRegistryData)
    → IsText p.registry_key
    → length p.entries < 2 ^ 31
    → All IsBare p.entries
    → RoundTrips registry_packet p
unfolding write_registry read_registry
RegistryData-RoundTrips p hk hl hs = read-write (
    Codec-then _ (Codec-string p.registry_key hk) (
      Codec-map _
        (Codec-counted IsBare entry_bytes write_entry read_entry Codec-entry p.entries hl hs)
        (λ rest. refl)))

split_to-all {ℓ} : {E : Type ℓ} (xs : Bytes) → split_to {E = E} (length xs) xs ≡ ok xs []
split_to-all {E = E} xs = rw append-nil at (split_to-append {E = E} (length xs) xs [] refl)

-- An entry with data, whose name is a text, does not come back on its own: whatever is written
-- behind it, the next entry say, is read as part of its data.
pub read_entry-greedy :
    (id content rest : Bytes)
    → IsText id
    → read_entry (write_entry (record { id = id; content = some content }) [] ++ rest)
      ≡ ok (record { id = id; content = some (content ++ rest) }) []
unfolding write_entry read_entry
read_entry-greedy id content rest h =
    let c = Codec-string id h in
    let tail = content ++ rest in
    let written : ((write_string id [] ++ be_bytes 1 1) ++ content) ++ rest
        ≡ text_bytes id ++ (be_bytes 1 1 ++ tail) =
      rw (c.appends []) (simp append_assoc) in
    let room : leb 1 (length (be_bytes 1 1 ++ tail)) ≡ true =
      le→leb 1 _ (omega (lengths, length-be_bytes 1 1)) in
    ap read_entry written
    ∙ rw (c.reads (be_bytes 1 1 ++ tail), room)
        (rw ((Codec-bool true).reads tail, split_to-all tail))
