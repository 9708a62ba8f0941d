-- ===== src/World/Nbt/Encode.antt =====
-- The NBT format, written down on its own: the bytes of a value, and which values have bytes.
use pico_server_rs.Base.{ℕ, suc, ◌<◌, ◌^◌, List, [], ◌∷◌, ◌++◌, ◌≡◌, true, length, All}
use pico_server_rs.Base.Words.{Bytes, be_bytes}
use pico_server_rs.Base.Utf8.{is_utf8}
use pico_server_rs.World.Nbt.Tag.{
  TagType, tag_end, tag_byte, tag_short, tag_int, tag_long, tag_float, tag_double, tag_byte_array,
  tag_string, tag_list, tag_compound, tag_int_array, tag_long_array, number,
}
use pico_server_rs.World.Nbt.{
  NbtValue, byte, short, int, long, float, double, byte_array, int_array, long_array, string, list,
  compound, NbtItems, nil, item, NbtEntries, done, entry,
}

unfoldable pub tag_of : NbtValue → TagType
tag_of (byte v) = tag_byte
tag_of (short v) = tag_short
tag_of (int v) = tag_int
tag_of (long v) = tag_long
tag_of (float v) = tag_float
tag_of (double v) = tag_double
tag_of (byte_array vs) = tag_byte_array
tag_of (int_array vs) = tag_int_array
tag_of (long_array vs) = tag_long_array
tag_of (string s) = tag_string
tag_of (list xs) = tag_list
tag_of (compound es) = tag_compound

unfoldable pub count : NbtItems → ℕ
count nil = 0
count (item v xs) = suc (count xs)

-- The type of the elements, which a list without elements gives as TAG_End.
unfoldable pub elem_tag : NbtItems → TagType
unfolding tag_of
elem_tag nil = tag_end
elem_tag (item v xs) = tag_of v

unfoldable pub each_word : ℕ → List ℕ → Bytes
each_word n [] = []
each_word n (v ∷ vs) = be_bytes n v ++ each_word n vs

unfoldable pub text : Bytes → Bytes
text s = be_bytes 2 (length s) ++ s

unfoldable pub array : ℕ → List ℕ → Bytes
unfolding each_word
array n vs = be_bytes 4 (length vs) ++ each_word n vs

unfoldable mutual
  unfolding array text tag_of count elem_tag number

  -- The payload of a value.
  pub encode : NbtValue → Bytes
  encode (byte v) = be_bytes 1 v
  encode (short v) = be_bytes 2 v
  encode (int v) = be_bytes 4 v
  encode (long v) = be_bytes 8 v
  encode (float v) = be_bytes 4 v
  encode (double v) = be_bytes 8 v
  encode (byte_array vs) = array 1 vs
  encode (int_array vs) = array 4 vs
  encode (long_array vs) = array 8 vs
  encode (string s) = text s
  encode (list xs) = be_bytes 1 (number (elem_tag xs)) ++ (be_bytes 4 (count xs) ++ encode_items xs)
  encode (compound es) = encode_entries es

  pub encode_items : NbtItems → Bytes
  encode_items nil = []
  encode_items (item v xs) = encode v ++ encode_items xs

  -- The named tags of a compound, and the TAG_End behind them.
  pub encode_entries : NbtEntries → Bytes
  encode_entries done = be_bytes 1 0
  encode_entries (entry name v es) =
      be_bytes 1 (number (tag_of v)) ++ (text name ++ (encode v ++ encode_entries es))

-- A `String` whose length fits two bytes.
pub record IsShortText (s : Bytes) : Type 0 where
  pub utf8 : is_utf8 s ≡ true
  pub fits : length s < 2 ^ 16

-- An array of words of n bytes, whose length is an i32 above 0.
pub record IsArray (n : ℕ) (vs : List ℕ) : Type 0 where
  pub words : All (λ v. v < 256 ^ n) vs
  pub fits : length vs < 2 ^ 31

unfoldable mutual
  unfolding tag_of count elem_tag

  -- The values that the format can express: a list has elements of one type.
  pub IsNbt : NbtValue → Type 0
  IsNbt (byte v) = v < 256 ^ 1
  IsNbt (short v) = v < 256 ^ 2
  IsNbt (int v) = v < 256 ^ 4
  IsNbt (long v) = v < 256 ^ 8
  IsNbt (float v) = v < 256 ^ 4
  IsNbt (double v) = v < 256 ^ 8
  IsNbt (byte_array vs) = IsArray 1 vs
  IsNbt (int_array vs) = IsArray 4 vs
  IsNbt (long_array vs) = IsArray 8 vs
  IsNbt (string s) = IsShortText s
  IsNbt (list xs) = AreItems (elem_tag xs) xs × (count xs < 2 ^ 31)
  IsNbt (compound es) = AreEntries es

  pub AreItems : TagType → NbtItems → Type 0
  AreItems ty nil = Unit {0}
  AreItems ty (item v xs) = (tag_of v ≡ ty) × IsNbt v × AreItems ty xs

  pub AreEntries : NbtEntries → Type 0
  AreEntries done = Unit {0}
  AreEntries (entry name v es) = IsShortText name × IsNbt v × AreEntries es
