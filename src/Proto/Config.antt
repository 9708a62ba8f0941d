-- ===== src/Proto/Config.antt =====
-- crates/mc-proto/src/config.rs: the packets of the configuration state, and the loops they share.
pub mod Registry
pub mod Lists
pub mod Client
pub mod Packets
use pico_server_rs.Base.{
  ℕ, zero, suc, ◌+◌, ◌<◌, ◌≡◌, ◌^◌, refl, List, [], ◌∷◌, ◌++◌, Bool, true, false, append_assoc,
  append-nil, length, All, if◌then◌else◌, ◌==◌, arith, sym, ap, le→ltb, ◌-◌,
}
use pico_server_rs.Base.Words.{Bytes, is_negative, as_i32, IsU32, be_bytes}
use pico_server_rs.Base.Read.{Read, ok, panic, Reader, pure, lift, get_be, ◌>>=◌}
use pico_server_rs.Base.Codec.{
  Writer, ◌▹◌, put_be, Codec, Codec-then, Codec-map, Codec-lift, Codec-pure, Codec-be,
}
use pico_server_rs.Varint.{read_var_int, write_var_int}
use pico_server_rs.Varint.RoundTrip.{Codec-var_int}
use pico_server_rs.Proto.Error.{PacketError, var_int}
use mathlib.Core.Bool.{not}
use mathlib.Core.Path.{subst}

module _ {ℓ} {A : Type ℓ} where
  -- `for _ in 0..n { items.push(read(buf)?) }`
  unfoldable pub read_each : Reader PacketError A → ℕ → List A → Reader PacketError (List A)
  read_each read zero items = pure items
  read_each read (suc n) items = read >>= λ a. read_each read n (items ++ a ∷ [])

  -- `Vec::with_capacity(count as usize)` and the loop over `0..count`, for an i32 `count`: the
  -- capacity of a negative count is above what a vector may have, and that panics.
  unfoldable pub read_counted : Reader PacketError A → Reader PacketError (List A)
  read_counted read = do
    count ← lift var_int read_var_int
    λ src. if is_negative count then panic else read_each read count [] src

  -- `for item in &items { write(item, buf) }`
  unfoldable pub write_each : (A → Writer) → List A → Writer
  write_each write [] buf = buf
  write_each write (a ∷ items) buf = write_each write items (write a buf)

  unfoldable pub write_counted : (A → Writer) → List A → Writer
  write_counted write items = write_var_int (as_i32 (length items)) ▹ write_each write items

  abbrev pub each_bytes : (A → Bytes) → List A → Bytes
  each_bytes enc [] = []
  each_bytes enc (a ∷ items) = enc a ++ each_bytes enc items

module _ {ℓ κ} {A : Type ℓ} (P : A → Type κ) (enc : A → Bytes) (write : A → Writer)
    (read : Reader PacketError A) (item : (a : A) → P a → Codec (write a) read (enc a) a) where
  Codec-each :
      (items done : List A)
      → All P items
      → Codec
          (write_each write items)
          (read_each read (length items) done)
          (each_bytes enc items)
          (done ++ items)
  unfolding write_each read_each
  Codec-each [] done hs = rw append-nil (Codec-pure done)
  Codec-each (a ∷ items) done (h, hs) =
      rw (sym (append_assoc done (a ∷ []) items))
        (Codec-then _ (item a h) (Codec-each items (done ++ a ∷ []) hs))

  Codec-loop :
      (n : ℕ) (items : List A)
      → length items ≡ n
      → n < 2 ^ 31
      → All P items
      → Codec
          (write_each write items)
          (λ src. if is_negative n then panic else read_each read n [] src)
          (each_bytes enc items)
          items
  Codec-loop n items e h hs =
      let natural : is_negative n ≡ false = le→ltb (2 ^ 31 - 1) n (omega arith) in
      rw natural (
        subst
          (λ m. Codec (write_each write items) (read_each read m []) (each_bytes enc items) items) e
          (Codec-each items [] hs))

  -- A list whose length fits an i32 is read back item by item.
  pub Codec-counted :
      (items : List A)
      → length items < 2 ^ 31
      → All P items
      → Codec
          (write_counted write items)
          (read_counted read)
          (write_var_int (as_i32 (length items)) [] ++ each_bytes enc items)
          items
  unfolding write_counted read_counted
  Codec-counted items h hs =
      Codec-then (λ count src. if is_negative count then panic else read_each read count [] src)
        (Codec-lift var_int (Codec-var_int (as_i32 (length items)) (omega arith)))
        (Codec-loop (as_i32 (length items)) items (omega arith) (omega arith) hs)

-- `put_u8(if b { 1 } else { 0 })`, and `get_u8() != 0`.
abbrev pub put_bool : Bool → Writer
put_bool b = put_be 1 (if b then 1 else 0)

unfoldable pub get_bool : Reader PacketError Bool
get_bool = do b ← get_be 1; pure (not (b == 0))

pub Codec-bool : (b : Bool) → Codec (put_bool b) get_bool (be_bytes 1 (if b then 1 else 0)) b
unfolding get_bool
Codec-bool true = Codec-map _ (Codec-be 1 1 (omega arith)) (λ rest. refl)
Codec-bool false = Codec-map _ (Codec-be 1 0 (omega arith)) (λ rest. refl)
