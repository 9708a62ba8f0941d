-- ===== src/Proxy/Play/Ends.antt =====
-- What holds of the result of a handler, and lists that are changed at one index.
use pico_server_rs.Base.{
  ℕ, zero, suc, ◌≡◌, List, [], ◌∷◌, some, get_elem?, set, All, Bool, true, false, if◌then◌else◌,
}
use pico_server_rs.Base.Words.{Bytes}
use pico_server_rs.Base.Read.{Read, ok, err, panic, Reader, bind}
use mathlib.Core.Path.{subst}

-- What holds of a result, where there is one.
abbrev pub Ends {ℓ κ μ} : {E : Type ℓ} {A : Type κ} → (A → Type μ) → Read E A → Type μ
Ends P (ok a rest) = P a
Ends P (err e rest) = Unit {μ}
Ends P panic = Unit {μ}

module _ {A B : Type 0} (P : B → Type 0) where
  pub bind-Ends :
      (r : Read ⊥ A) (f : A → Reader ⊥ B)
      → ((a : A) (rest : Bytes) → Ends P (f a rest))
      → Ends P (bind r f)
  bind-Ends (ok a rest) f h = h a rest
  bind-Ends (err e rest) f h = absurd e
  bind-Ends panic f h = tt

pub if-Ends :
    {A : Type 0} (P : A → Type 0) (b : Bool) (p q : Reader ⊥ A) (body : Bytes)
    → Ends P (p body)
    → Ends P (q body)
    → Ends P ((if b then p else q) body)
if-Ends P true p q body h k = h
if-Ends P false p q body h k = k

pub All-set {ℓ κ} :
    {A : Type ℓ} (P : A → Type κ) (xs : List A) (i : ℕ) (v : A)
    → All P xs
    → P v
    → All P (set xs i v)
All-set P [] i v h k = tt
All-set P (x ∷ xs) zero v (h, hs) k = (k, hs)
All-set P (x ∷ xs) (suc i) v (h, hs) k = (h, All-set P xs i v hs k)

pub All-get_elem? {ℓ κ} :
    {A : Type ℓ} (P : A → Type κ) (xs : List A) (i : ℕ) (x : A)
    → All P xs
    → get_elem? xs i ≡ some x
    → P x
All-get_elem? P [] i x h e = cc
All-get_elem? P (y ∷ ys) zero x (h, hs) e = let same : y ≡ x = cc in subst P same h
All-get_elem? P (y ∷ ys) (suc i) x (h, hs) e = All-get_elem? P ys i x hs e
