-- ===== src/Proxy/Chunk/Sections.antt =====
-- `parse_chunk_sections` and `block_state_to_item_drop` of crates/mc-proxy/src/chunk.rs. The file is an
-- argument, and a map is the list of what is put into it.
use pico_server_rs.Base.{
  ℕ, zero, suc, ◌+◌, ◌-◌, ◌*◌, ◌%◌, ◌^◌, List, [], ◌∷◌, ◌++◌, ◌&&◌, ◌||◌, Option, none, some, ltb,
  leb, ◌==◌, if◌then◌else◌, length, take, drop,
}
use pico_server_rs.Base.Words.{Bytes, as_usize, is_negative, le_i32, add_i32, of_be}
use pico_server_rs.Proxy.Chunk.{read_varint_from_slice}

-- A result, `None`, or a panic.
pub data Found {ℓ} (A : Type ℓ) : Type ℓ where
  found : A → Found A
  nothing : Found A
  panics : Found A

infixl 5 ◌>>=◌
abbrev pub ◌>>=◌ {ℓ κ} : {A : Type ℓ} {B : Type κ} → Found A → (A → Found B) → Found B
found a >>= f = f a
nothing >>= f = nothing
panics >>= f = panics

-- `block_state_to_item_drop`.
unfoldable pub block_state_to_item_drop : ℕ → ℕ
block_state_to_item_drop state = if le_i32 state 15 then (if state == 0 then 0 else 1) else 1

abbrev found_or_nothing {ℓ} : {A : Type ℓ} → Option A → Found A
found_or_nothing none = nothing
found_or_nothing (some a) = found a

abbrev pub non_zero : List ℕ → List ℕ
non_zero [] = []
non_zero (id ∷ ids) = if id == 0 then non_zero ids else id ∷ non_zero ids

-- `for y_offset in 0..16`, from a layer on.
abbrev pub layers_from : ℕ → ℕ → List ℕ → List (ℕ × List ℕ)
layers_from zero y palette = []
layers_from (suc n) y palette = (y, palette) ∷ layers_from n (add_i32 y 1) palette

abbrev pub unless_empty : ℕ → List ℕ → List (ℕ × List ℕ)
unless_empty y [] = []
unless_empty y (id ∷ ids) = layers_from 16 y (id ∷ ids)

-- The layers that a section adds.
unfoldable pub layers : ℕ → ℕ → List ℕ → List (ℕ × List ℕ)
layers block_count section_y palette =
    if block_count == 0 then [] else unless_empty (section_y * 16 % 2 ^ 32) (non_zero palette)

-- The layers of a section and those behind it, or the end of the loop.
abbrev pub go_on :
    (ℕ → Found (List (ℕ × List ℕ))) → List (ℕ × List ℕ) → Option ℕ → Found (List (ℕ × List ℕ))
go_on more these none = found []
go_on more these (some next) = more next >>= λ rest. found (these ++ rest)

abbrev or_empty : Found (List (ℕ × List ℕ)) → Found (List (ℕ × List ℕ))
or_empty nothing = found []
or_empty other = other

module _ (content : Bytes) where
  abbrev word_at : ℕ → ℕ
  word_at pos = of_be 0 (take 2 (drop pos content))

  abbrev byte_at : ℕ → ℕ
  byte_at pos = of_be 0 (take 1 (drop pos content))

  -- `read_varint_from_slice(&data[pos..])?`, and the position behind it. A slice from behind the end
  -- panics.
  unfoldable pub var_int_at : ℕ → Found (ℕ × ℕ)
  unfolding read_varint_from_slice
  var_int_at pos =
      if ltb (length content) pos
      then panics
      else found_or_nothing (read_varint_from_slice (drop pos content)) >>= λ (v, c).
          found (v, pos + c)

  -- The scan for a section, on the steps that it has left.
  unfoldable pub scan : ℕ → ℕ → ℕ
  scan zero pos = pos
  scan (suc steps) pos =
      let next = scan steps (pos + 1) in
      let bc = word_at pos in
      let fits =
        leb (byte_at (pos + 2)) 15 && leb bc 4096 && ltb 0 bc && ltb (byte_at (pos + 3)) 0x80 in
      if ltb (pos + 3) (length content) && ltb pos 2000 then (if fits then pos else next) else pos

  -- The entries of a palette.
  unfoldable pub palette_entries : ℕ → ℕ → Found (List ℕ × ℕ)
  unfolding var_int_at
  palette_entries zero pos = found ([], pos)
  palette_entries (suc n) pos = do
    (entry, pos') ← var_int_at pos
    (entries, end) ← palette_entries n pos'
    found (entry ∷ entries, end)

  -- The palette. The capacity of a negative count panics.
  unfoldable pub read_palette : ℕ → ℕ → Found (List ℕ × ℕ)
  unfolding var_int_at palette_entries
  read_palette bits pos = var_int_at pos >>= λ (count, pos').
      if bits == 0
      then found (count ∷ [], pos')
      else if is_negative count
      then panics
      else palette_entries count pos'

  -- The packed data, which is skipped: `none` where it ends behind the file.
  unfoldable pub skip_words : ℕ → ℕ → Found (Option ℕ)
  unfolding var_int_at
  skip_words bits pos = if bits == 0 then found (some pos) else do
    (len, pos') ← var_int_at pos
    let end = (pos' + as_usize len * 8 % 2 ^ 64) % 2 ^ 64
    found (if ltb (length content) end then none else some end)

  -- The loop over the sections: how many are left, the number of the next one, and the position.
  unfoldable pub sections : ℕ → ℕ → ℕ → Found (List (ℕ × List ℕ))
  unfolding read_palette skip_words layers
  sections zero section_y pos = found []
  sections (suc left) section_y pos =
      let more = sections left (add_i32 section_y 1) in
      if ltb (length content) (pos + 3) then found [] else do
        let bits = byte_at (pos + 2)
        (palette, pos') ← read_palette bits (pos + 3)
        end ← skip_words bits pos'
        go_on more (layers (word_at pos) section_y palette) end

  abbrev pub unless_none : List (ℕ × List ℕ) → Found (List (ℕ × List ℕ))
  unless_none [] = nothing
  unless_none (layer ∷ rest) = found (layer ∷ rest)

  -- `parse_chunk_sections`: the sections -4 to 19.
  unfoldable pub parse_chunk_sections : Found (List (ℕ × List ℕ))
  unfolding scan sections
  parse_chunk_sections =
      if ltb (length content) 8
      then nothing
      else if ltb (length content) 908
      then nothing
      else let start =
          if ltb 15 (byte_at 907) || ltb 4096 (word_at 905) then scan 1992 8 else 905 in
        sections 24 (2 ^ 32 - 4) start >>= unless_none

  -- `parse_template_block_palette`, as the entries in the order of their insertion.
  unfoldable pub parse_template_block_palette : Found (List (ℕ × List ℕ))
  unfolding parse_chunk_sections
  parse_template_block_palette = or_empty parse_chunk_sections
