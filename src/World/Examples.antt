-- ===== src/World/Examples.antt =====
-- Concrete runs of the readers and lookups of crates/mc-world, and the theorems about them at concrete inputs.
use pico_server_rs.Base.{◌/◌, ◌%◌, ◌^◌, ◌≡◌, refl, [], ◌∷◌, ◌++◌, some, arith}
use pico_server_rs.Base.Words.{Bytes, of_be}
use pico_server_rs.Base.Utf8.{is_utf8}
use pico_server_rs.Base.Read.{ok, panic}
use pico_server_rs.World.Nbt.Tag.{tag_list}
use pico_server_rs.World.Nbt.{
  byte, int, list, compound, nil, item, NbtEntries, done, entry, read_compound, read_payload,
}
use pico_server_rs.World.Nbt.Encode.{
  IsShortText, AreEntries, count, elem_tag, tag_of, IsNbt, AreItems,
}
use pico_server_rs.World.Nbt.RoundTrip.{root_bytes, read_compound-root_bytes}
use pico_server_rs.World.Nbt.Fuel.{read_payload-fuel}
use pico_server_rs.World.Packed.{extract_packed}
use pico_server_rs.World.Packed.Window.{number_of}
use pico_server_rs.World.Packed.Extract.{extract_packed-number_of}

-- "foo"
abbrev foo : Bytes
foo = 102 ∷ 111 ∷ 111 ∷ []

-- { "foo": 42 }, the first test of nbt.rs.
simple_compound :
    read_compound (10 ∷ 0 ∷ 0 ∷ 3 ∷ 0 ∷ 3 ∷ 102 ∷ 111 ∷ 111 ∷ 0 ∷ 0 ∷ 0 ∷ 42 ∷ 0 ∷ [])
    ≡ ok (compound (entry foo (int 42) done)) []
unfolding read_compound of_be is_utf8
simple_compound = refl

-- A list whose length is -1 panics before its type is looked at.
negative_list : read_payload 9 tag_list (0 ∷ 255 ∷ 255 ∷ 255 ∷ 255 ∷ []) ≡ panic
unfolding read_payload of_be
negative_list = refl

abbrev entries : NbtEntries
entries = entry foo (int 42) (entry [] (list (item (byte 1) (item (byte 255) nil))) done)

foo-IsShortText : IsShortText foo
unfolding is_utf8
foo-IsShortText = record { utf8 = refl; fits = omega arith }

empty-IsShortText : IsShortText []
unfolding is_utf8
empty-IsShortText = record { utf8 = refl; fits = omega arith }

entries-AreEntries : AreEntries entries
unfolding AreEntries IsNbt AreItems count elem_tag tag_of
entries-AreEntries = (
  foo-IsShortText,
  omega arith,
  (empty-IsShortText, ((refl, omega arith, (refl, omega arith, tt)), omega arith), tt),
)

read_compound-root_bytes_example :
    read_compound (root_bytes foo entries ++ 9 ∷ []) ≡ ok (compound entries) (9 ∷ [])
read_compound-root_bytes_example =
    read_compound-root_bytes foo entries (9 ∷ []) foo-IsShortText entries-AreEntries

read_payload-fuel_example :
    read_payload 6 tag_list (1 ∷ 0 ∷ 0 ∷ 0 ∷ 9 ∷ [])
    ≡ read_payload 60 tag_list (1 ∷ 0 ∷ 0 ∷ 0 ∷ 9 ∷ [])
read_payload-fuel_example =
    read_payload-fuel 6 60 tag_list (1 ∷ 0 ∷ 0 ∷ 0 ∷ 9 ∷ []) (omega arith) (omega arith)

-- The tests of chunk.rs.
packed_4bit : extract_packed (0x12345678_9ABCDEF0 ∷ []) 4 2 ≡ some 0xE
unfolding extract_packed
packed_4bit = refl

packed_across : extract_packed (0xC000_0000_0000_0000 ∷ 0x5 ∷ []) 5 12 ≡ some 0x1c
unfolding extract_packed
packed_across = refl

-- A width of 64 takes no bits, though the comment of the code allows it.
packed_64bit : extract_packed (7 ∷ []) 64 0 ≡ some 0
unfolding extract_packed
packed_64bit = refl

extract_packed-number_of_example :
    extract_packed (0xC000_0000_0000_0000 ∷ 0x5 ∷ []) 5 12
    ≡ some (number_of (0xC000_0000_0000_0000 ∷ 0x5 ∷ []) / 2 ^ 60 % 2 ^ 5)
extract_packed-number_of_example =
    extract_packed-number_of (0xC000_0000_0000_0000 ∷ 0x5 ∷ []) 5 12
      (omega arith, (omega arith, tt)) (omega arith) (omega arith) (omega arith)
