-- ===== src/Base/Read.antt =====
-- Reading from a buffer. A buffer is the list of its remaining bytes: a reader returns what is left
-- of it, also beside an error, and a panic has no result at all.
use Prim.Native.Nat.{ℕ}
use pico_server_rs.Base.Tests.{leb, if◌then◌else◌}
use pico_server_rs.Base.Lists.{length, take, drop}
use pico_server_rs.Base.Words.{Bytes, of_be}

pub data Read {ℓ κ} (E : Type ℓ) (A : Type κ) : Type (ℓ ⊔ κ) where
  ok : A → Bytes → Read E A
  err : E → Bytes → Read E A
  panic : Read E A

abbrev pub bind {ℓ κ μ} :
    {E : Type ℓ} {A : Type κ} {B : Type μ} → Read E A → (A → Bytes → Read E B) → Read E B
bind (ok a rest) f = f a rest
bind (err e rest) f = err e rest
bind panic f = panic

-- `map_err`, and the conversion that `?` makes.
abbrev pub map_err {ℓ κ μ} : {E : Type ℓ} {F : Type κ} {A : Type μ} → (E → F) → Read E A → Read F A
map_err f (ok a rest) = ok a rest
map_err f (err e rest) = err (f e) rest
map_err f panic = panic

abbrev pub Reader {ℓ κ} : Type ℓ → Type κ → Type (ℓ ⊔ κ)
Reader E A = Bytes → Read E A

abbrev pub pure {ℓ κ} : {E : Type ℓ} {A : Type κ} → A → Reader E A
pure a src = ok a src

abbrev pub throw {ℓ κ} : {E : Type ℓ} {A : Type κ} → E → Reader E A
throw e src = err e src

abbrev pub lift {ℓ κ μ} : {E : Type ℓ} {F : Type κ} {A : Type μ} → (E → F) → Reader E A → Reader F A
lift f p src = map_err f (p src)

infixl 5 ◌>>=◌ ◌>>◌
abbrev pub ◌>>=◌ {ℓ κ μ} :
    {E : Type ℓ} {A : Type κ} {B : Type μ} → Reader E A → (A → Reader E B) → Reader E B
p >>= f = λ src. bind (p src) f

abbrev pub ◌>>◌ {ℓ κ μ} :
    {E : Type ℓ} {A : Type κ} {B : Type μ} → Reader E A → Reader E B → Reader E B
p >> q = p >>= λ _. q

-- `remaining`.
abbrev pub remaining {ℓ} : {E : Type ℓ} → Reader E ℕ
remaining src = ok (length src) src

-- `if buf.remaining() < n { return Err(...) }`, with the error made from what remains.
abbrev pub require {ℓ} : {E : Type ℓ} → ℕ → (ℕ → E) → Reader E (Unit {0})
require n e src = if leb n (length src) then ok tt src else err (e (length src)) src

-- `split_to` panics past the end.
abbrev pub split_to {ℓ} : {E : Type ℓ} → ℕ → Reader E Bytes
split_to n src = if leb n (length src) then ok (take n src) (drop n src) else panic

-- `get_u8`, `get_u16`, …: n bytes, the highest first; past the end they panic.
abbrev pub get_be {ℓ} : {E : Type ℓ} → ℕ → Reader E ℕ
get_be n src = if leb n (length src) then ok (of_be 0 (take n src)) (drop n src) else panic

-- `advance` panics past the end.
abbrev pub advance {ℓ} : {E : Type ℓ} → ℕ → Reader E (Unit {0})
advance n src = if leb n (length src) then ok tt (drop n src) else panic
