-- ===== src/World/Nbt/Fuel.antt =====
-- The fuel of `read_payload` and `read_compound_body`, crates/mc-world/src/nbt.rs.
use pico_server_rs.Base.{
  ℕ, zero, suc, ◌*◌, ◌%◌, ◌^◌, [], ◌∷◌, ◌<◌, ◌≡◌, length, arith, inl, inr, ◌==◌, Option-cases,
  get_elem?,
}
use pico_server_rs.Base.Words.{Bytes, is_negative, as_usize}
use pico_server_rs.Base.Read.{Reader, panic, pure, require, get_be}
use pico_server_rs.Base.Utf8.{is_utf8}
use pico_server_rs.Base.After.{
  Uses, Uses-pure, Uses-throw, Uses-if, Uses-then, Uses-get_be, Uses-split_to, Uses-require, Agree,
  Agree-refl, Agree-if, Agree-then, Agree-shift,
}
use pico_server_rs.World.Nbt.Tag.{
  TagType, tag_end, tag_byte, tag_short, tag_int, tag_long, tag_float, tag_double, tag_byte_array,
  tag_string, tag_list, tag_compound, tag_int_array, tag_long_array, NbtError, incomplete,
  invalid_utf8, unknown_tag, try_from, tag_types,
}
use pico_server_rs.World.Nbt.{
  NbtValue, byte, short, int, long, float, double, byte_array, int_array, long_array, string, list,
  compound, nil, item, done, entry, short_string, read_tag_name, word, get_each, read_array,
  read_items, read_entries, read_list, read_payload,
}

Uses-try_from : (v : ℕ) → Uses 0 (try_from v)
unfolding try_from
Uses-try_from v = elim (Option-cases (get_elem? tag_types v)) [
  | inl e ↦ rw e (Uses-throw (unknown_tag v))
  | inr (ty, e) ↦ rw e (Uses-pure ty)
]

Uses-short_string : Uses 0 short_string
unfolding short_string
Uses-short_string = Uses-then (Uses-require 2 (incomplete 2)) λ u.
    Uses-then (Uses-get_be 2 0 (omega arith)) λ len.
      Uses-then (Uses-require len (incomplete len)) λ w.
        Uses-then (Uses-split_to len)
          λ bytes. Uses-if 0 (is_utf8 bytes) (Uses-pure bytes) (Uses-throw invalid_utf8)

Uses-word : (n : ℕ) → Uses 0 (word n)
unfolding word
Uses-word n = Uses-then (Uses-require n (incomplete n)) (λ u. Uses-get_be n 0 (omega arith))

Uses-get_each : (n len : ℕ) → Uses 0 (get_each n len)
unfolding get_each
Uses-get_each n zero = Uses-pure []
Uses-get_each n (suc len) =
    Uses-then (Uses-get_be n 0 (omega arith))
      λ v. Uses-then (Uses-get_each n len) (λ vs. Uses-pure (v ∷ vs))

Uses-read_array : (n : ℕ) → Uses 0 (read_array n)
unfolding read_array
Uses-read_array n = Uses-then (Uses-word 4) λ count.
    let size = as_usize count * n % 2 ^ 64 in
    Uses-then (Uses-require size (incomplete size)) (λ u. Uses-get_each n (as_usize count))

Uses-panic : Uses {E = NbtError} {A = NbtValue} 0 (λ src. panic)
Uses-panic = record { after = λ src. tt }

module _ (read : TagType → Reader NbtError NbtValue) (u : (ty : TagType) → Uses 0 (read ty)) where
  Uses-items : (ty : TagType) (len : ℕ) → Uses 0 (read_items (read ty) len)
  unfolding read_items
  Uses-items ty zero = Uses-pure nil
  Uses-items ty (suc len) =
      Uses-then (u ty) λ v. Uses-then (Uses-items ty len) (λ vs. Uses-pure (item v vs))

  Uses-entries : (fuel : ℕ) → Uses 0 (read_entries read fuel)
  unfolding read_entries read_tag_name
  Uses-entries zero = record { after = λ src. tt }
  Uses-entries (suc fuel) = Uses-then (Uses-require 1 (incomplete 1)) λ w.
      Uses-then (Uses-get_be 1 0 (omega arith)) λ ty_byte.
        Uses-if 0 (ty_byte == 0) (Uses-pure done) (
          Uses-then (Uses-try_from ty_byte) λ ty. Uses-then Uses-short_string λ name.
            Uses-then (u ty)
              λ value. Uses-then (Uses-entries fuel) (λ rest. Uses-pure (entry name value rest)))

  Uses-list : Uses 0 (read_list read)
  unfolding read_list
  Uses-list = Uses-then (Uses-require 5 (incomplete 5)) λ w.
      Uses-then (Uses-get_be 1 0 (omega arith)) λ elem_type.
        Uses-then (Uses-get_be 4 0 (omega arith)) λ len. Uses-if 0 (is_negative len) Uses-panic (
          Uses-if 0 (elem_type == 0) (Uses-pure (list nil)) (
            Uses-then (Uses-try_from elem_type)
              λ ty. Uses-then (Uses-items ty (as_usize len)) (λ items. Uses-pure (list items))))

Uses-payload : (fuel : ℕ) (ty : TagType) → Uses 0 (read_payload fuel ty)
unfolding read_payload
Uses-payload zero ty = Uses-panic
Uses-payload (suc fuel) tag_end = Uses-pure (byte 0)
Uses-payload (suc fuel) tag_byte = Uses-then (Uses-word 1) (λ v. Uses-pure (byte v))
Uses-payload (suc fuel) tag_short = Uses-then (Uses-word 2) (λ v. Uses-pure (short v))
Uses-payload (suc fuel) tag_int = Uses-then (Uses-word 4) (λ v. Uses-pure (int v))
Uses-payload (suc fuel) tag_long = Uses-then (Uses-word 8) (λ v. Uses-pure (long v))
Uses-payload (suc fuel) tag_float = Uses-then (Uses-word 4) (λ v. Uses-pure (float v))
Uses-payload (suc fuel) tag_double = Uses-then (Uses-word 8) (λ v. Uses-pure (double v))
Uses-payload (suc fuel) tag_byte_array =
    Uses-then (Uses-read_array 1) (λ vs. Uses-pure (byte_array vs))
Uses-payload (suc fuel) tag_int_array =
    Uses-then (Uses-read_array 4) (λ vs. Uses-pure (int_array vs))
Uses-payload (suc fuel) tag_long_array =
    Uses-then (Uses-read_array 8) (λ vs. Uses-pure (long_array vs))
Uses-payload (suc fuel) tag_string = Uses-then Uses-short_string (λ s. Uses-pure (string s))
Uses-payload (suc fuel) tag_list = Uses-list (read_payload fuel) (Uses-payload fuel)
Uses-payload (suc fuel) tag_compound =
    Uses-then (Uses-entries (read_payload fuel) (Uses-payload fuel) (suc fuel))
      (λ es. Uses-pure (compound es))

module _ (read read' : TagType → Reader NbtError NbtValue)
    (u : (ty : TagType) → Uses 0 (read' ty)) where
  Agree-items :
      (n : ℕ) (ty : TagType) (len : ℕ)
      → Agree n (read ty) (read' ty)
      → Agree n (read_items (read ty) len) (read_items (read' ty) len)
  unfolding read_items
  Agree-items n ty zero h = Agree-refl n (pure nil)
  Agree-items n ty (suc len) h = Agree-then n h (u ty) λ v.
      Agree-then n (Agree-items n ty len h) (Uses-items read' u ty len)
        (λ vs. Agree-refl n (pure (item v vs)))

  Agree-entries :
      (n f g : ℕ)
      → ((m : ℕ) → m < n → (ty : TagType) → Agree m (read ty) (read' ty))
      → n < f
      → n < g
      → Agree n (read_entries read f) (read_entries read' g)
  unfolding read_entries read_tag_name
  Agree-entries n zero g h a b = absurd (omega arith)
  Agree-entries n (suc f) zero h a b = absurd (omega arith)
  Agree-entries n (suc f) (suc g) h a b =
      Agree-then n (Agree-refl n (require 1 (incomplete 1))) (Uses-require 1 (incomplete 1)) λ w.
        Agree-shift n (Uses-get_be 1 1 (omega arith)) λ ty_byte m less.
          Agree-if m (ty_byte == 0) (Agree-refl m (pure done)) (
            Agree-then m (Agree-refl m (try_from ty_byte)) (Uses-try_from ty_byte) λ ty.
              Agree-then m (Agree-refl m short_string) Uses-short_string λ name.
                Agree-then m (h m less ty) (u ty) λ value.
                  Agree-then m
                    (Agree-entries m f g (λ j lt. h j (omega arith)) (omega arith) (omega arith))
                    (Uses-entries read' u g) (λ rest. Agree-refl m (pure (entry name value rest))))

  Agree-list :
      (n : ℕ)
      → ((m : ℕ) → m < n → (ty : TagType) → Agree m (read ty) (read' ty))
      → Agree n (read_list read) (read_list read')
  unfolding read_list
  Agree-list n h =
      Agree-then n (Agree-refl n (require 5 (incomplete 5))) (Uses-require 5 (incomplete 5)) λ w.
        Agree-shift n (Uses-get_be 1 1 (omega arith)) λ elem_type m less.
          Agree-then m (Agree-refl m (get_be 4)) (Uses-get_be 4 0 (omega arith)) λ len.
            Agree-if m (is_negative len) (Agree-refl m (λ src. panic)) (
              Agree-if m (elem_type == 0) (Agree-refl m (pure (list nil))) (
                Agree-then m (Agree-refl m (try_from elem_type)) (Uses-try_from elem_type) λ ty.
                  Agree-then m (Agree-items m ty (as_usize len) (h m less ty))
                    (Uses-items read' u ty (as_usize len))
                    (λ items. Agree-refl m (pure (list items)))))

Agree-payload :
    (n f g : ℕ) (ty : TagType) → n < f → n < g → Agree n (read_payload f ty) (read_payload g ty)
unfolding read_payload
Agree-payload n zero g ty a b = absurd (omega arith)
Agree-payload n (suc f) zero ty a b = absurd (omega arith)
Agree-payload n (suc f) (suc g) tag_list a b =
    Agree-list (read_payload f) (read_payload g) (Uses-payload g) n
      (λ m less ty. Agree-payload m f g ty (omega arith) (omega arith))
Agree-payload n (suc f) (suc g) tag_compound a b =
    let entries =
      Agree-entries (read_payload f) (read_payload g) (Uses-payload g) n (suc f) (suc g)
        (λ m less ty. Agree-payload m f g ty (omega arith) (omega arith)) a b in
    Agree-then n entries (Uses-entries (read_payload g) (Uses-payload g) (suc g))
      (λ es. Agree-refl n (pure (compound es)))
Agree-payload n (suc f) (suc g) ty a b = Agree-refl n _

-- The fuel of `read_payload` stands for no limit of the code: any two amounts above the number of
-- bytes give the same result, whatever the input is.
pub read_payload-fuel :
    (f g : ℕ) (ty : TagType) (src : Bytes)
    → length src < f
    → length src < g
    → read_payload f ty src ≡ read_payload g ty src
read_payload-fuel f g ty src a b = (Agree-payload (length src) f g ty a b).same src (omega arith)
