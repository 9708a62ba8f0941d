-- ===== src/World/Nbt/RoundTrip.antt =====
-- `read_payload` of crates/mc-world/src/nbt.rs on the bytes of a value.
use pico_server_rs.Base.{
  ℕ, zero, suc, ◌+◌, ◌*◌, ◌%◌, ◌<◌, ◌≤◌, ◌^◌, List, [], ◌∷◌, ◌++◌, ◌≡◌, refl, ap, false, ◌==◌, ◌-◌,
  ltb, length, length-append, All, arith, le→ltb,
}
use mathlib.Core.Path.{subst}
use native.Mathlib.Nat.{mul-le-mul_left}
use pico_server_rs.Base.Words.{Bytes, be_bytes, length-be_bytes, as_usize}
use pico_server_rs.Base.Read.{get_be, bind, Reader, ok, pure}
use pico_server_rs.Base.Takes.{
  Takes, Takes-pure, Takes-require, Takes-then, Takes-map, Takes-be, Takes-split,
}
use pico_server_rs.World.Nbt.Tag.{
  TagType, tag_end, tag_compound, number, NbtError, incomplete, try_from-number, number-IsByte,
}
use pico_server_rs.World.Nbt.{
  NbtValue, byte, short, int, long, float, double, byte_array, int_array, long_array, string, list,
  compound, NbtItems, nil, item, NbtEntries, done, entry, short_string, read_tag_name, word,
  get_each, read_array, read_items, read_entries, read_list, read_payload, read_compound_body,
  read_root, read_compound, read_named,
}
use pico_server_rs.World.Nbt.Encode.{
  tag_of, count, elem_tag, each_word, text, array, encode, encode_items, encode_entries,
  IsShortText, IsArray, IsNbt, AreItems, AreEntries,
}

Takes-word : (n v : ℕ) → v < 256 ^ n → Takes (word n) (be_bytes n v) v
unfolding word
Takes-word n v h =
    Takes-require n (incomplete n) _ (omega (arith, length-be_bytes n v)) (Takes-be n v h)

Takes-text : (s : Bytes) → IsShortText s → Takes short_string (text s) s
unfolding short_string text
Takes-text s t =
    Takes-require 2 (incomplete 2) _
      (omega (arith, length-append (be_bytes 2 (length s)) s, length-be_bytes 2 (length s)))
      (Takes-then _ (Takes-be 2 (length s) (omega (arith, t.fits))) (
        Takes-require (length s) (incomplete (length s)) s (omega arith)
          (Takes-map _ (Takes-split (length s) s refl) (λ rest. rw t.utf8))))

Takes-each :
    (n : ℕ) (vs : List ℕ)
    → All (λ v. v < 256 ^ n) vs
    → Takes (get_each n (length vs)) (each_word n vs) vs
unfolding get_each each_word
Takes-each n [] hs = Takes-pure []
Takes-each n (v ∷ vs) (h, hs) =
    Takes-then _ (Takes-be n v h) (Takes-map _ (Takes-each n vs hs) (λ rest. refl))

length-each_word : (n : ℕ) (vs : List ℕ) → length (each_word n vs) ≡ length vs * n
unfolding each_word
length-each_word n [] = omega arith
length-each_word n (v ∷ vs) = omega (
  arith,
  length-append (be_bytes n v) (each_word n vs),
  length-be_bytes n v,
  length-each_word n vs,
)

as_usize-small : (v : ℕ) → v < 2 ^ 31 → as_usize v ≡ v
as_usize-small v h = ground arith

product_fits : (len n : ℕ) → len < 2 ^ 31 → n ≤ 8 → len * n % 2 ^ 64 ≡ len * n
product_fits len n h small = omega (arith, mul-le-mul_left len small)

Takes-array : (n : ℕ) (vs : List ℕ) → n ≤ 8 → IsArray n vs → Takes (read_array n) (array n vs) vs
unfolding read_array array
Takes-array n vs small a =
    let len = length vs in
    Takes-then _ (Takes-word 4 len (omega (arith, a.fits))) (
      rw (as_usize-small len a.fits, product_fits len n a.fits small)
        (Takes-require (len * n) (incomplete (len * n)) _ (omega (arith, length-each_word n vs))
          (Takes-each n vs a.words)))

Takes-number : (ty : TagType) → Takes (get_be {E = NbtError} 1) (be_bytes 1 (number ty)) (number ty)
Takes-number ty = Takes-be 1 (number ty) (omega (arith, number-IsByte ty))

-- The type of a value is not TAG_End.
number-tag_of : (v : NbtValue) → (number (tag_of v) == 0) ≡ false
unfolding number tag_of
number-tag_of (byte v) = refl
number-tag_of (short v) = refl
number-tag_of (int v) = refl
number-tag_of (long v) = refl
number-tag_of (float v) = refl
number-tag_of (double v) = refl
number-tag_of (byte_array v) = refl
number-tag_of (int_array v) = refl
number-tag_of (long_array v) = refl
number-tag_of (string v) = refl
number-tag_of (list v) = refl
number-tag_of (compound v) = refl

length-text : (s : Bytes) → length (text s) ≡ 2 + length s
unfolding text
length-text s = omega (arith, length-append (be_bytes 2 (length s)) s, length-be_bytes 2 (length s))

length-entry :
    (name : Bytes) (v : NbtValue) (es : NbtEntries)
    → length (encode_entries (entry name v es))
      ≡ 3 + length name + length (encode v) + length (encode_entries es)
unfolding encode_entries
length-entry name v es =
    let head = be_bytes 1 (number (tag_of v)) in
    let rest = encode v ++ encode_entries es in
    let shape : encode_entries (entry name v es) ≡ head ++ (text name ++ rest) = refl in
    omega (
      arith,
      ap (λ (t : Bytes). length t) shape,
      length-append head (text name ++ rest),
      length-be_bytes 1 (number (tag_of v)),
      length-append (text name) rest,
      length-text name,
      length-append (encode v) (encode_entries es),
    )

length-list : (xs : NbtItems) → length (encode (list xs)) ≡ 5 + length (encode_items xs)
unfolding encode
length-list xs =
    let ty = number (elem_tag xs) in
    let rest = be_bytes 4 (count xs) ++ encode_items xs in
    let shape : encode (list xs) ≡ be_bytes 1 ty ++ rest = refl in
    omega (
      arith,
      ap (λ (t : Bytes). length t) shape,
      length-append (be_bytes 1 ty) rest,
      length-be_bytes 1 ty,
      length-append (be_bytes 4 (count xs)) (encode_items xs),
      length-be_bytes 4 (count xs),
    )

module _ (read : TagType → Reader NbtError NbtValue) (bound : ℕ)
    (ih : (v : NbtValue)
      → IsNbt v
      → length (encode v) < bound
      → Takes (read (tag_of v)) (encode v) v) where
  Takes-items :
      (ty : TagType) (xs : NbtItems)
      → AreItems ty xs
      → length (encode_items xs) < bound
      → Takes (read_items (read ty) (count xs)) (encode_items xs) xs
  unfolding read_items count encode_items AreItems
  Takes-items ty nil hs room = Takes-pure nil
  Takes-items ty (item v xs) (same, h, hs) room =
      let size = length-append (encode v) (encode_items xs) in
      Takes-then _ (subst (λ t. Takes (read t) (encode v) v) same (ih v h (omega arith)))
        (Takes-map _ (Takes-items ty xs hs (omega arith)) (λ rest. refl))

  Takes-entries :
      (fuel : ℕ) (es : NbtEntries)
      → AreEntries es
      → length (encode_entries es) ≤ bound
      → length (encode_entries es) ≤ fuel
      → Takes (read_entries read fuel) (encode_entries es) es
  unfolding read_entries read_tag_name encode_entries AreEntries be_bytes
  Takes-entries zero done hs room fits = absurd (omega (arith, length-be_bytes 1 0))
  Takes-entries zero (entry name v es) hs room fits = absurd (omega (arith, length-entry name v es))
  Takes-entries (suc fuel) done hs room fits =
      Takes-require 1 (incomplete 1) _ (omega (arith, length-be_bytes 1 0))
        (Takes-then _ (Takes-be 1 0 (omega arith)) (Takes-pure done))
  Takes-entries (suc fuel) (entry name v es) (t, h, hs) room fits =
      let size = length-entry name v es in
      Takes-require 1 (incomplete 1) _ (omega arith) (
        Takes-then _ (Takes-number (tag_of v)) (
          rw (number-tag_of v, try_from-number (tag_of v))
            (Takes-then (λ name. _) (Takes-text name t)
              (Takes-then _ (ih v h (omega arith)) (
                Takes-map _ (Takes-entries fuel es hs (omega arith) (omega arith))
                  (λ rest. refl))))))

  Takes-list :
      (xs : NbtItems)
      → AreItems (elem_tag xs) xs
      → count xs < 2 ^ 31
      → length (encode_items xs) < bound
      → Takes (read_list read) (encode (list xs)) (list xs)
  unfolding read_list encode number elem_tag count encode_items
  Takes-list nil hs few room = Takes-require 5 (incomplete 5) _ (omega (arith, length-list nil)) (
      Takes-then _ (Takes-number tag_end)
        (Takes-then _ (Takes-be 4 0 (omega arith)) (Takes-pure (list nil))))
  Takes-list (item v xs) hs few room =
      let len = count (item v xs) in
      let negative : ltb (2 ^ 31 - 1) len ≡ false = le→ltb (2 ^ 31 - 1) len (omega arith) in
      Takes-require 5 (incomplete 5) _ (omega (arith, length-list (item v xs))) (
        Takes-then _ (Takes-number (tag_of v)) (
          Takes-then _ (Takes-be 4 len (omega arith)) (
            rw (negative, as_usize-small len few, number-tag_of v, try_from-number (tag_of v))
              (Takes-map _ (Takes-items (tag_of v) (item v xs) hs room) (λ rest. refl)))))

-- Fuel above the length of the payload is enough.
pub Takes-payload :
    (fuel : ℕ) (v : NbtValue)
    → IsNbt v
    → length (encode v) < fuel
    → Takes (read_payload fuel (tag_of v)) (encode v) v
unfolding read_payload tag_of encode IsNbt read_list count elem_tag
Takes-payload zero v h room = absurd (omega arith)
Takes-payload (suc fuel) (byte v) h room = Takes-map _ (Takes-word 1 v h) (λ rest. refl)
Takes-payload (suc fuel) (short v) h room = Takes-map _ (Takes-word 2 v h) (λ rest. refl)
Takes-payload (suc fuel) (int v) h room = Takes-map _ (Takes-word 4 v h) (λ rest. refl)
Takes-payload (suc fuel) (long v) h room = Takes-map _ (Takes-word 8 v h) (λ rest. refl)
Takes-payload (suc fuel) (float v) h room = Takes-map _ (Takes-word 4 v h) (λ rest. refl)
Takes-payload (suc fuel) (double v) h room = Takes-map _ (Takes-word 8 v h) (λ rest. refl)
Takes-payload (suc fuel) (byte_array vs) h room =
    Takes-map _ (Takes-array 1 vs (omega arith) h) (λ rest. refl)
Takes-payload (suc fuel) (int_array vs) h room =
    Takes-map _ (Takes-array 4 vs (omega arith) h) (λ rest. refl)
Takes-payload (suc fuel) (long_array vs) h room =
    Takes-map _ (Takes-array 8 vs (omega arith) h) (λ rest. refl)
Takes-payload (suc fuel) (string s) h room = Takes-map _ (Takes-text s h) (λ rest. refl)
Takes-payload (suc fuel) (compound es) h room =
    Takes-map _
      (Takes-entries (read_payload fuel) fuel (Takes-payload fuel) (suc fuel) es h (omega arith)
        (omega arith))
      (λ rest. refl)
Takes-payload (suc fuel) (list xs) (h, few) room =
    Takes-list (read_payload fuel) fuel (Takes-payload fuel) xs h few
      (omega (arith, length-list xs))

-- A compound with a name and its type in front of it.
unfoldable pub root_bytes : Bytes → NbtEntries → Bytes
root_bytes name es = be_bytes 1 (number tag_compound) ++ (text name ++ encode_entries es)

Takes-body : (es : NbtEntries) → AreEntries es → Takes read_compound_body (encode_entries es) es
unfolding read_compound_body
Takes-body es h = record {
  reads = λ rest.
      let n = length (encode_entries es ++ rest) in
      let size = length-append (encode_entries es) rest in
      (Takes-entries (read_payload n) n (Takes-payload n) (suc n) es h (omega arith)
          (omega arith)).reads
        rest;
}

-- The bytes of a named compound are read back as that compound, in front of any further data, when
-- every word in it fits its width, every string is UTF-8 and shorter than 2 ^ 16 bytes, every array
-- and every list is shorter than 2 ^ 31, and the elements of each list have one type.
pub read_compound-root_bytes :
    (name : Bytes) (es : NbtEntries) (rest : Bytes)
    → IsShortText name
    → AreEntries es
    → read_compound (root_bytes name es ++ rest) ≡ ok (compound es) rest
unfolding read_compound read_root read_tag_name root_bytes
read_compound-root_bytes name es rest t h =
    let read : Takes read_compound (root_bytes name es) (compound es) =
      Takes-then _ (Takes-number tag_compound) (
        rw (try_from-number tag_compound)
          (Takes-then _ (Takes-text name t) (Takes-map _ (Takes-body es h) (λ after. refl)))) in
    read.reads rest

-- The bytes of a named value.
unfoldable pub named_bytes : Bytes → NbtValue → Bytes
named_bytes name v = be_bytes 1 (number (tag_of v)) ++ (text name ++ encode v)

-- `read_named` reads the bytes of a named value back as the name and the value, in front of any
-- further data, under the same conditions on the value and on its name.
pub read_named-named_bytes :
    (name : Bytes) (v : NbtValue) (rest : Bytes)
    → IsShortText name
    → IsNbt v
    → read_named (named_bytes name v ++ rest) ≡ ok (name, v) rest
unfolding read_named read_tag_name named_bytes
read_named-named_bytes name v rest t h =
    let value : Takes
        (λ src. bind (read_payload (suc (length src)) (tag_of v) src) (λ w. pure (name, w)))
        (encode v) (name, v) =
      record {
        reads = λ after.
            let n = suc (length (encode v ++ after)) in
            let size = length-append (encode v) after in
            (Takes-map _ (Takes-payload n v h (omega arith)) (λ last. refl)).reads after;
      } in
    let read : Takes read_named (named_bytes name v) (name, v) =
      Takes-then _ (Takes-number (tag_of v)) (
        rw (number-tag_of v, try_from-number (tag_of v))
          (Takes-then _ (Takes-text name t) value)) in
    read.reads rest
