-- ===== src/World/Nbt/Tag.antt =====
-- The tag types and the errors of crates/mc-world/src/nbt.rs.
use pico_server_rs.Base.{ℕ, ◌<◌, ◌≡◌, refl, arith, List, [], ◌∷◌, none, some, get_elem?}
use pico_server_rs.Base.Read.{Reader, pure, throw}

pub data TagType : Type 0 where
  tag_end tag_byte tag_short tag_int tag_long tag_float tag_double tag_byte_array : TagType
  tag_string tag_list tag_compound tag_int_array tag_long_array : TagType

pub data NbtError : Type 0 where
  unknown_tag : ℕ → NbtError
  incomplete : ℕ → ℕ → NbtError
  invalid_utf8 : NbtError
  expected_compound : TagType → NbtError

-- The tag types in the order of their numbers.
abbrev pub tag_types : List TagType
tag_types =
    tag_end ∷ tag_byte ∷ tag_short ∷ tag_int ∷ tag_long ∷ tag_float ∷ tag_double ∷ tag_byte_array
    ∷ tag_string ∷ tag_list ∷ tag_compound ∷ tag_int_array ∷ tag_long_array ∷ []

-- `TagType::try_from`, which `?` follows everywhere.
unfoldable pub try_from : ℕ → Reader NbtError TagType
try_from v = elim (get_elem? tag_types v) [ some ty ↦ pure ty | none ↦ throw (unknown_tag v) ]

-- The number of a tag type, `ty as u8`.
unfoldable pub number : TagType → ℕ
number tag_end = 0
number tag_byte = 1
number tag_short = 2
number tag_int = 3
number tag_long = 4
number tag_float = 5
number tag_double = 6
number tag_byte_array = 7
number tag_string = 8
number tag_list = 9
number tag_compound = 10
number tag_int_array = 11
number tag_long_array = 12

pub try_from-number : (ty : TagType) → try_from (number ty) ≡ pure ty
unfolding try_from number
try_from-number tag_end = refl
try_from-number tag_byte = refl
try_from-number tag_short = refl
try_from-number tag_int = refl
try_from-number tag_long = refl
try_from-number tag_float = refl
try_from-number tag_double = refl
try_from-number tag_byte_array = refl
try_from-number tag_string = refl
try_from-number tag_list = refl
try_from-number tag_compound = refl
try_from-number tag_int_array = refl
try_from-number tag_long_array = refl

pub number-IsByte : (ty : TagType) → number ty < 256
unfolding number
number-IsByte tag_end = omega arith
number-IsByte tag_byte = omega arith
number-IsByte tag_short = omega arith
number-IsByte tag_int = omega arith
number-IsByte tag_long = omega arith
number-IsByte tag_float = omega arith
number-IsByte tag_double = omega arith
number-IsByte tag_byte_array = omega arith
number-IsByte tag_string = omega arith
number-IsByte tag_list = omega arith
number-IsByte tag_compound = omega arith
number-IsByte tag_int_array = omega arith
number-IsByte tag_long_array = omega arith
