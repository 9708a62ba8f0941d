-- ===== src/World/Region/Name.antt =====
-- The names of region files: `RegionFile::open` of crates/mc-world/src/region.rs reads the
-- coordinates from the name, and `region_path` of crates/mc-world/src/world.rs writes it.
pub mod RoundTrip
use pico_server_rs.Base.{
  ℕ, zero, suc, ◌+◌, ◌-◌, ◌*◌, ◌%◌, ◌^◌, List, [], ◌∷◌, ◌++◌, Bool, true, false, Option, none, some,
  ◌==◌, ◌&&◌, leb, ltb, if◌then◌else◌, and_then, unwrap_or,
}
use pico_server_rs.Base.Words.{Bytes}
use pico_server_rs.World.Chunk.Parse.{to_string}

abbrev pub last_dot : ℕ → Option Bytes → Option Bytes
last_dot c (some t) = some (c ∷ t)
last_dot c none = if c == 46 then some [] else none

-- What stands in front of the last dot.
unfoldable pub before_last_dot : Bytes → Option Bytes
before_last_dot [] = none
before_last_dot (c ∷ s) = last_dot c (before_last_dot s)

abbrev pub stem_or : Bytes → Option Bytes → Bytes
stem_or name none = name
stem_or name (some []) = name
stem_or name (some (c ∷ s)) = c ∷ s

-- `file_stem`: the whole name where there is no dot or only one at its start.
unfoldable pub file_stem : Bytes → Bytes
unfolding before_last_dot
file_stem name = stem_or name (before_last_dot name)

abbrev pub onto_first : ℕ → List Bytes → List Bytes
onto_first c [] = (c ∷ []) ∷ []
onto_first c (part ∷ parts) = (c ∷ part) ∷ parts

-- `split('.')`
unfoldable pub split_dots : Bytes → List Bytes
split_dots [] = [] ∷ []
split_dots (c ∷ s) = let parts = split_dots s in if c == 46 then [] ∷ parts else onto_first c parts

-- The number that decimal digits stand for, behind `acc`.
unfoldable pub digits_value : ℕ → Bytes → Option ℕ
digits_value acc [] = some acc
digits_value acc (c ∷ s) =
    let rest = digits_value (acc * 10 + (c - 48)) s in if leb 48 c && leb c 57 then rest else none

abbrev pub below : ℕ → ℕ → Option ℕ
below bound v = if ltb v bound then some v else none

-- `parse::<i32>()`: digits behind a sign or none, and at least one.
unfoldable pub parse_i32 : Bytes → Option ℕ
unfolding digits_value
parse_i32 [] = none
parse_i32 (c ∷ []) = and_then (digits_value 0 (c ∷ [])) (below (2 ^ 31))
parse_i32 (c ∷ d ∷ s) =
    if c == 45
    then and_then (and_then (digits_value 0 (d ∷ s)) (below (2 ^ 31 + 1)))
        (λ w. some ((2 ^ 32 - w) % 2 ^ 32))
    else and_then (digits_value 0 (if c == 43 then d ∷ s else c ∷ d ∷ s)) (below (2 ^ 31))

abbrev pub is_r : Bytes → Bool
is_r [] = false
is_r (c ∷ []) = c == 114
is_r (c ∷ d ∷ s) = false

unfoldable pub from_parts : List Bytes → ℕ × ℕ
unfolding parse_i32
from_parts (part ∷ x ∷ z ∷ others) =
    if is_r part then (unwrap_or 0 (parse_i32 x), unwrap_or 0 (parse_i32 z)) else (0, 0)
from_parts _ = (0, 0)

-- The coordinates in a name of the form r.X.Z.mca.
unfoldable pub region_of_name : Bytes → ℕ × ℕ
unfolding split_dots file_stem from_parts
region_of_name name = from_parts (split_dots (file_stem name))

-- `format!("r.{rx}.{rz}.mca")`
unfoldable pub region_name : ℕ → ℕ → Bytes
unfolding to_string
region_name rx rz =
    114 ∷ 46 ∷ (to_string 32 rx ++ (46 ∷ (to_string 32 rz ++ (46 ∷ 109 ∷ 99 ∷ 97 ∷ []))))
