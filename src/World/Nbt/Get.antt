-- ===== src/World/Nbt/Get.antt =====
-- The fields of a compound: `get_string`, `get_int`, `get_compound` and `get_list` of
-- crates/mc-world/src/nbt.rs, and the lookups that crates/mc-world/src/chunk.rs writes out.
use pico_server_rs.Base.{ℕ, List, Option, none, some, if◌then◌else◌, and_then}
use pico_server_rs.Base.Words.{Bytes}
use pico_server_rs.World.Text.{same_text}
use pico_server_rs.World.Nbt.{
  NbtValue, byte, int, string, list, compound, long_array, NbtItems, NbtEntries, done, entry,
}

-- `entries.iter().find(|(k, _)| k == key)`, the value of the first entry with that name.
unfoldable pub find : Bytes → NbtEntries → Option NbtValue
find key done = none
find key (entry name v es) = if same_text name key then some v else find key es

abbrev pub as_byte : NbtValue → Option ℕ
as_byte (byte b) = some b
as_byte _ = none

abbrev pub as_int : NbtValue → Option ℕ
as_int (int i) = some i
as_int _ = none

abbrev pub as_string : NbtValue → Option Bytes
as_string (string s) = some s
as_string _ = none

abbrev pub as_list : NbtValue → Option NbtItems
as_list (list xs) = some xs
as_list _ = none

abbrev pub as_compound : NbtValue → Option NbtEntries
as_compound (compound es) = some es
as_compound _ = none

abbrev pub as_long_array : NbtValue → Option (List ℕ)
as_long_array (long_array vs) = some vs
as_long_array _ = none

-- `NbtValue::get_string`.
unfoldable pub get_string : NbtValue → Bytes → Option Bytes
unfolding find
get_string v key = and_then (as_compound v) (λ es. and_then (find key es) as_string)

-- `NbtValue::get_int`.
unfoldable pub get_int : NbtValue → Bytes → Option ℕ
unfolding find
get_int v key = and_then (as_compound v) (λ es. and_then (find key es) as_int)

-- `NbtValue::get_compound`.
unfoldable pub get_compound : NbtValue → Bytes → Option NbtEntries
unfolding find
get_compound v key = and_then (as_compound v) (λ es. and_then (find key es) as_compound)

-- `NbtValue::get_list`.
unfoldable pub get_list : NbtValue → Bytes → Option NbtItems
unfolding find
get_list v key = and_then (as_compound v) (λ es. and_then (find key es) as_list)
