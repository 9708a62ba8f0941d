-- ===== src/World/Nbt.antt =====
-- crates/mc-world/src/nbt.rs: the values of the NBT format and their reader.
pub mod Tag
pub mod Get
pub mod Encode
pub mod RoundTrip
pub mod Fuel
use pico_server_rs.Base.{
  ℕ, zero, suc, ◌+◌, ◌*◌, ◌%◌, ◌^◌, ◌-◌, List, [], ◌∷◌, Bool, true, false, length, if◌then◌else◌,
  ◌==◌, Option, none, some,
}
use pico_server_rs.Base.Words.{Bytes, as_usize, is_negative}
use pico_server_rs.Base.Read.{
  Read, ok, panic, Reader, pure, throw, require, split_to, get_be, remaining, ◌>>=◌, ◌>>◌,
}
use pico_server_rs.Base.Utf8.{is_utf8}
use pico_server_rs.World.Nbt.Tag.{
  TagType, tag_end, tag_byte, tag_short, tag_int, tag_long, tag_float, tag_double, tag_byte_array,
  tag_string, tag_list, tag_compound, tag_int_array, tag_long_array, NbtError, incomplete,
  invalid_utf8, expected_compound, try_from,
}

-- A number is the bit pattern of the value: a float stands for what it is made of.
mutual
  pub data NbtValue : Type 0 where
    byte short int long float double : ℕ → NbtValue
    byte_array int_array long_array : List ℕ → NbtValue
    string : Bytes → NbtValue
    list : NbtItems → NbtValue
    compound : NbtEntries → NbtValue

  -- `Vec<NbtValue>`.
  pub data NbtItems : Type 0 where
    nil : NbtItems
    item : NbtValue → NbtItems → NbtItems

  -- `Vec<(String, NbtValue)>`.
  pub data NbtEntries : Type 0 where
    done : NbtEntries
    entry : Bytes → NbtValue → NbtEntries → NbtEntries

-- A length of two bytes, that many bytes, and the check that they are UTF-8.
unfoldable pub short_string : Reader NbtError Bytes
short_string = do
  require 2 (incomplete 2)
  len ← get_be 2
  require len (incomplete len)
  bytes ← split_to len
  if is_utf8 bytes then pure bytes else throw invalid_utf8

-- `read_tag_name`, without the length that its callers drop.
unfoldable pub read_tag_name : Reader NbtError Bytes
unfolding short_string
read_tag_name = short_string

-- A branch of `read_payload` for a word of n bytes.
unfoldable pub word : ℕ → Reader NbtError ℕ
word n = require n (incomplete n) >> get_be n

-- `for _ in 0..len { arr.push(buf.get_…()) }`
unfoldable pub get_each : ℕ → ℕ → Reader NbtError (List ℕ)
get_each n zero = pure []
get_each n (suc len) = do v ← get_be n; vs ← get_each n len; pure (v ∷ vs)

-- An array of words of n bytes. The product with the size wraps around in a `usize`.
unfoldable pub read_array : ℕ → Reader NbtError (List ℕ)
unfolding word get_each
read_array n = do
  count ← word 4
  let len = as_usize count
  let size = len * n % 2 ^ 64
  require size (incomplete size)
  get_each n len

-- `list.push(read(buf)?)`, `len` times.
unfoldable pub read_items : Reader NbtError NbtValue → ℕ → Reader NbtError NbtItems
read_items read zero = pure nil
read_items read (suc len) = do v ← read; vs ← read_items read len; pure (item v vs)

-- The loop of `read_compound_body`, on fuel. `read` is `read_payload`.
unfoldable pub read_entries : (TagType → Reader NbtError NbtValue) → ℕ → Reader NbtError NbtEntries
unfolding try_from read_tag_name
read_entries read zero = λ src. panic
read_entries read (suc fuel) = do
  require 1 (incomplete 1)
  ty_byte ← get_be 1
  if ty_byte == 0 then pure done else do
    ty ← try_from ty_byte
    name ← read_tag_name
    value ← read ty
    rest ← read_entries read fuel
    pure (entry name value rest)

-- The branch of `read_payload` for a list. `Vec::with_capacity` panics on what a negative length
-- becomes as a `usize`, before the type of the elements is looked at.
unfoldable pub read_list : (TagType → Reader NbtError NbtValue) → Reader NbtError NbtValue
unfolding try_from read_items
read_list read = do
  require 5 (incomplete 5)
  elem_type ← get_be 1
  count ← get_be 4
  if is_negative count then (λ src. panic) else if elem_type == 0 then pure (list nil) else do
    elem_ty ← try_from elem_type
    items ← read_items (read elem_ty) (as_usize count)
    pure (list items)

-- `read_payload`, on fuel: a step for each level of nesting.
unfoldable pub read_payload : ℕ → TagType → Reader NbtError NbtValue
unfolding word read_array short_string read_list read_entries
read_payload zero ty = λ src. panic
read_payload (suc fuel) tag_byte = word 1 >>= λ v. pure (byte v)
read_payload (suc fuel) tag_short = word 2 >>= λ v. pure (short v)
read_payload (suc fuel) tag_int = word 4 >>= λ v. pure (int v)
read_payload (suc fuel) tag_long = word 8 >>= λ v. pure (long v)
read_payload (suc fuel) tag_float = word 4 >>= λ v. pure (float v)
read_payload (suc fuel) tag_double = word 8 >>= λ v. pure (double v)
read_payload (suc fuel) tag_byte_array = read_array 1 >>= λ vs. pure (byte_array vs)
read_payload (suc fuel) tag_string = short_string >>= λ s. pure (string s)
read_payload (suc fuel) tag_list = read_list (read_payload fuel)
read_payload (suc fuel) tag_compound =
    read_entries (read_payload fuel) (suc fuel) >>= λ entries. pure (compound entries)
read_payload (suc fuel) tag_int_array = read_array 4 >>= λ vs. pure (int_array vs)
read_payload (suc fuel) tag_long_array = read_array 8 >>= λ vs. pure (long_array vs)
read_payload (suc fuel) tag_end = pure (byte 0)

-- `read_compound_body`.
unfoldable pub read_compound_body : Reader NbtError NbtEntries
unfolding read_entries read_payload
read_compound_body src = read_entries (read_payload (length src)) (suc (length src)) src

-- `NbtValue::read_compound` behind the type of the root.
unfoldable pub read_root : TagType → Reader NbtError NbtValue
unfolding read_tag_name read_compound_body
read_root tag_compound = do read_tag_name; entries ← read_compound_body; pure (compound entries)
read_root ty = throw (expected_compound ty)

-- `NbtValue::read_compound`: the value, and beside it what is left of the data. `get_u8` panics
-- where there is none.
unfoldable pub read_compound : Reader NbtError NbtValue
unfolding try_from read_root
read_compound = do ty_byte ← get_be 1; ty ← try_from ty_byte; read_root ty

-- `NbtValue::read_named`.
unfoldable pub read_named : Reader NbtError (Bytes × NbtValue)
unfolding try_from read_tag_name read_payload
read_named = do
  ty_byte ← get_be 1
  ty ← try_from ty_byte
  if ty_byte == 0 then pure ([], byte 0) else do
    name ← read_tag_name
    λ src. (read_payload (suc (length src)) ty >>= λ value. pure (name, value)) src
