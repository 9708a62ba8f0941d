-- ===== src/Base/Codec.antt =====
-- Writers append to a buffer, and a writer and a reader that belong together form a codec.
use Prim.Native.Nat.{ℕ, ◌≤◌, ◌<◌, ◌^◌}
use mathlib.Core.Path.{◌≡◌, refl, sym, ap, ◌∙◌}
use mathlib.Core.List.{[], ◌++◌, append_assoc, append-nil}
use native.Mathlib.Omega.{arith}
use pico_server_rs.Base.Tests.{le→leb}
use pico_server_rs.Base.Lists.{length, take-append, drop-append, length-append}
use pico_server_rs.Base.Words.{Bytes, be_bytes, of_be-be_bytes, length-be_bytes}
use pico_server_rs.Base.Read.{
  ok, map_err, Reader, bind, pure, lift, require, split_to, get_be, ◌>>=◌, ◌>>◌,
}

-- What a `write` method does to the buffer.
abbrev pub Writer : Type 0
Writer = Bytes → Bytes

abbrev pub skip : Writer
skip buf = buf

-- One write after the other.
infixr 6 ◌▹◌
abbrev pub ◌▹◌ : Writer → Writer → Writer
(w ▹ v) buf = v (w buf)

-- `extend_from_slice`.
abbrev pub put : Bytes → Writer
put bs buf = buf ++ bs

-- `put_u8`, `put_u16`, …
abbrev pub put_be : ℕ → ℕ → Writer
put_be n v buf = buf ++ be_bytes n v

-- `w` appends `bs`, whatever stands in the buffer.
abbrev pub Appends : Writer → Bytes → Type 0
Appends w bs = (buf : Bytes) → w buf ≡ buf ++ bs

-- `p` takes `bs` off the front of any input and returns `a`.
abbrev pub Reads {ℓ κ} : {E : Type ℓ} {A : Type κ} → Reader E A → Bytes → A → Type (ℓ ⊔ κ)
Reads p bs a = (rest : Bytes) → p (bs ++ rest) ≡ ok a rest

-- `w` writes `bs`, and `p` reads it back as `a`.
pub record Codec {ℓ κ} {E : Type ℓ} {A : Type κ} (w : Writer) (p : Reader E A) (bs : Bytes) (a : A)
    : Type (ℓ ⊔ κ) where
  pub appends : Appends w bs
  pub reads : Reads p bs a

module _ {ℓ κ} {E : Type ℓ} {A : Type κ} where
  -- The round trip, in front of any further input.
  pub read-write :
      {w : Writer} {p : Reader E A} {bs : Bytes} {a : A}
      → Codec w p bs a
      → (rest : Bytes) → p (w [] ++ rest) ≡ ok a rest
  read-write {p = p} c rest = ap (λ (t : Bytes). p (t ++ rest)) (c.appends []) ∙ c.reads rest

  pub Codec-pure : (a : A) → Codec {E = E} skip (pure a) [] a
  Codec-pure a = record { appends = λ buf. sym (append-nil buf); reads = λ rest. refl }

  pub Codec-require :
      (n : ℕ) (e : ℕ → E) {w : Writer} {p : Reader E A} (bs : Bytes) {a : A}
      → n ≤ length bs
      → Codec w p bs a
      → Codec w (require n e >> p) bs a
  Codec-require n e bs h c = record {
    appends = c.appends;
    reads = λ rest.
        let room = le→leb n (length (bs ++ rest)) (omega (arith, length-append bs rest)) in
        rw room (c.reads rest);
  }

module _ {ℓ κ μ} {E : Type ℓ} {A : Type κ} where
  pub Codec-then :
      {B : Type μ} (f : A → Reader E B) {w v : Writer} {p : Reader E A} {xs ys : Bytes} {a : A}
      {b : B}
      → Codec w p xs a
      → Codec v (f a) ys b
      → Codec (w ▹ v) (p >>= f) (xs ++ ys) b
  Codec-then f {w = w} {xs = xs} {ys = ys} c d = record {
    appends = λ buf.
        d.appends (w buf) ∙ ap (λ (s : Bytes). s ++ ys) (c.appends buf) ∙ append_assoc buf xs ys;
    reads = λ rest.
        rw (append_assoc xs ys rest) (ap (λ r. bind r f) (c.reads (ys ++ rest)) ∙ d.reads rest);
  }

  -- A writer with nothing behind it, and a reader that only computes on.
  pub Codec-map :
      {B : Type μ} (f : A → Reader E B) {w : Writer} {p : Reader E A} {xs : Bytes} {a : A} {b : B}
      → Codec w p xs a
      → ((rest : Bytes) → f a rest ≡ ok b rest)
      → Codec w (p >>= f) xs b
  Codec-map f {xs = xs} c h = record {
    appends = c.appends;
    reads = λ rest. ap (λ r. bind r f) (c.reads rest) ∙ h rest;
  }

  pub Codec-lift :
      {F : Type μ} (g : E → F) {w : Writer} {p : Reader E A} {bs : Bytes} {a : A}
      → Codec w p bs a
      → Codec w (lift g p) bs a
  Codec-lift g c = record { appends = c.appends; reads = λ rest. ap (map_err g) (c.reads rest) }

module _ {ℓ} {E : Type ℓ} where
  -- `split_to` takes a prefix off whatever follows it.
  pub split_to-append :
      (n : ℕ) (xs rest : Bytes) → length xs ≡ n → split_to {E = E} n (xs ++ rest) ≡ ok xs rest
  split_to-append n xs rest e =
      let room = le→leb n (length (xs ++ rest)) (omega (arith, length-append xs rest)) in
      rw (room, take-append n xs rest e, drop-append n xs rest e)

  pub Codec-be : (n v : ℕ) → v < 256 ^ n → Codec {E = E} (put_be n v) (get_be n) (be_bytes n v) v
  Codec-be n v h = record {
    appends = λ buf. refl;
    reads = λ rest.
        let size = length-be_bytes n v in
        let room =
          le→leb n (length (be_bytes n v ++ rest))
            (omega (arith, size, length-append (be_bytes n v) rest)) in
        rw (
          room,
          take-append n (be_bytes n v) rest size,
          drop-append n (be_bytes n v) rest size,
          of_be-be_bytes n v h,
        );
  }

  pub Codec-put : (n : ℕ) (bs : Bytes) → length bs ≡ n → Codec {E = E} (put bs) (split_to n) bs bs
  Codec-put n bs e = record { appends = λ buf. refl; reads = λ rest. split_to-append n bs rest e }

-- `if buf.remaining() < n { return Err(...) }` in front of the read of n bytes, and what follows.
pub Codec-word {ℓ κ} :
    {E : Type ℓ} {B : Type κ} (n : ℕ) (e : ℕ → E) (v : ℕ) (f : ℕ → Reader E B) {w : Writer}
    {ys : Bytes} {b : B}
    → v < 256 ^ n
    → Codec w (f v) ys b
    → Codec (put_be n v ▹ w) (require n e >> (get_be n >>= f)) (be_bytes n v ++ ys) b
Codec-word n e v f {ys = ys} h c =
    let size = length-be_bytes n v in
    Codec-require n e (be_bytes n v ++ ys) (omega (arith, size, length-append (be_bytes n v) ys))
      (Codec-then f (Codec-be n v h) c)

-- The same where nothing follows but computation.
pub Codec-last_word {ℓ κ} :
    {E : Type ℓ} {B : Type κ} (n : ℕ) (e : ℕ → E) (v : ℕ) (f : ℕ → Reader E B) {b : B}
    → v < 256 ^ n
    → ((rest : Bytes) → f v rest ≡ ok b rest)
    → Codec (put_be n v) (require n e >> (get_be n >>= f)) (be_bytes n v) b
Codec-last_word n e v f h k =
    Codec-require n e (be_bytes n v) (omega (arith, length-be_bytes n v))
      (Codec-map f (Codec-be n v h) k)
