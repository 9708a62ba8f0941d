-- ===== src/Base/Takes.antt =====
-- Readers without a writer of the program: the bytes come from a description of the format. The
-- rules are those of codecs.
use Prim.Native.Nat.{ℕ, ◌≤◌, ◌<◌, ◌^◌}
use mathlib.Core.Path.{◌≡◌, refl}
use mathlib.Core.List.{[], ◌++◌}
use pico_server_rs.Base.Lists.{length}
use pico_server_rs.Base.Words.{Bytes, be_bytes}
use pico_server_rs.Base.Read.{ok, Reader, pure, require, split_to, get_be, ◌>>=◌, ◌>>◌}
use pico_server_rs.Base.Codec.{
  Writer, put, Reads, Codec, Codec-then, Codec-map, Codec-require, Codec-pure, Codec-be, Codec-put,
}

-- `p` takes `bs` off the front of any input and returns `a`.
pub record Takes {ℓ κ} {E : Type ℓ} {A : Type κ} (p : Reader E A) (bs : Bytes) (a : A)
    : Type (ℓ ⊔ κ) where
  pub reads : Reads p bs a

module _ {ℓ κ} {E : Type ℓ} {A : Type κ} where
  taken : {w : Writer} {p : Reader E A} {bs : Bytes} {a : A} → Codec w p bs a → Takes p bs a
  taken c = record { reads = c.reads }

  codec : {p : Reader E A} {bs : Bytes} {a : A} → Takes p bs a → Codec (put bs) p bs a
  codec t = record { appends = λ buf. refl; reads = t.reads }

  pub Takes-pure : (a : A) → Takes {E = E} (pure a) [] a
  Takes-pure a = taken (Codec-pure a)

  pub Takes-require :
      (n : ℕ) (e : ℕ → E) {p : Reader E A} (bs : Bytes) {a : A}
      → n ≤ length bs
      → Takes p bs a
      → Takes (require n e >> p) bs a
  Takes-require n e bs h t = taken (Codec-require n e bs h (codec t))

module _ {ℓ κ μ} {E : Type ℓ} {A : Type κ} {B : Type μ} (f : A → Reader E B) where
  pub Takes-then :
      {p : Reader E A} {xs ys : Bytes} {a : A} {b : B}
      → Takes p xs a
      → Takes (f a) ys b
      → Takes (p >>= f) (xs ++ ys) b
  Takes-then t u = taken (Codec-then f (codec t) (codec u))

  -- Where only computation follows.
  pub Takes-map :
      {p : Reader E A} {xs : Bytes} {a : A} {b : B}
      → Takes p xs a
      → ((rest : Bytes) → f a rest ≡ ok b rest)
      → Takes (p >>= f) xs b
  Takes-map t h = taken (Codec-map f (codec t) h)

module _ {ℓ} {E : Type ℓ} where
  pub Takes-be : (n v : ℕ) → v < 256 ^ n → Takes {E = E} (get_be n) (be_bytes n v) v
  Takes-be n v h = taken (Codec-be n v h)

  pub Takes-split : (n : ℕ) (bs : Bytes) → length bs ≡ n → Takes {E = E} (split_to n) bs bs
  Takes-split n bs e = taken (Codec-put n bs e)
