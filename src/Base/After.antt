-- ===== src/Base/After.antt =====
-- What a reader leaves: how much it takes off its input at least, and readers that agree on every
-- input up to a length.
use Prim.Native.Nat.{ℕ, ◌+◌, ◌≤◌, ◌<◌}
use mathlib.Core.Path.{◌≡◌, refl}
use mathlib.Core.Bool.{Bool, true, false}
use mathlib.Core.Logic.{inl, inr}
use native.Mathlib.Omega.{arith}
use pico_server_rs.Base.Tests.{leb, leb→le, Bool-cases, if◌then◌else◌}
use pico_server_rs.Base.Lists.{length, length-drop_bytes}
use pico_server_rs.Base.Words.{Bytes}
use pico_server_rs.Base.Read.{
  Read, Reader, ok, err, panic, bind, pure, throw, require, split_to, get_be, ◌>>=◌,
}

-- A result that leaves at least k bytes fewer than n.
abbrev pub After {ℓ κ} : {E : Type ℓ} {A : Type κ} → ℕ → ℕ → Read E A → Type 0
After k n (ok a rest) = length rest + k ≤ n
After k n (err e rest) = Unit {0}
After k n panic = Unit {0}

-- A reader that takes at least k bytes where it succeeds.
pub record Uses {ℓ κ} {E : Type ℓ} {A : Type κ} (k : ℕ) (p : Reader E A) : Type (ℓ ⊔ κ) where
  pub after : (src : Bytes) → After k (length src) (p src)

-- Two readers with the same result on every input of at most n bytes.
pub record Agree {ℓ κ} {E : Type ℓ} {A : Type κ} (n : ℕ) (p q : Reader E A) : Type (ℓ ⊔ κ) where
  pub same : (src : Bytes) → length src ≤ n → p src ≡ q src

module _ {ℓ κ μ} {E : Type ℓ} {A : Type κ} {B : Type μ} where
  After-bind :
      (k j n m : ℕ) (r : Read E A) (f : A → Reader E B)
      → After k n r
      → ((a : A) (rest : Bytes) → length rest + k ≤ n → After j m (f a rest))
      → After j m (bind r f)
  After-bind k j n m (ok a rest) f h next = next a rest h
  After-bind k j n m (err e rest) f h next = tt
  After-bind k j n m panic f h next = tt

  bind-agree :
      (k n : ℕ) (r : Read E A) (f g : A → Reader E B)
      → After k n r
      → ((a : A) (rest : Bytes) → length rest + k ≤ n → f a rest ≡ g a rest)
      → bind r f ≡ bind r g
  bind-agree k n (ok a rest) f g h next = next a rest h
  bind-agree k n (err e rest) f g h next = refl
  bind-agree k n panic f g h next = refl

After-le {ℓ κ} :
    {E : Type ℓ} {A : Type κ} (k n m : ℕ) (r : Read E A) → n ≤ m → After k n r → After k m r
After-le k n m (ok a rest) h u = omega arith
After-le k n m (err e rest) h u = tt
After-le k n m panic h u = tt

module _ {ℓ κ} {E : Type ℓ} {A : Type κ} where
  pub Uses-pure : (a : A) → Uses {E = E} 0 (pure a)
  Uses-pure a = record { after = λ src. omega arith }

  pub Uses-throw : (e : E) → Uses {A = A} 0 (throw e)
  Uses-throw e = record { after = λ src. tt }

  pub Agree-refl : (n : ℕ) (p : Reader E A) → Agree n p p
  Agree-refl n p = record { same = λ src h. refl }

  pub Uses-if :
      (k : ℕ) (b : Bool) {p q : Reader E A} → Uses k p → Uses k q → Uses k (if b then p else q)
  Uses-if k true u v = u
  Uses-if k false u v = v

  pub Agree-if :
      (n : ℕ) (b : Bool) {p q p' q' : Reader E A}
      → Agree n p p'
      → Agree n q q'
      → Agree n (if b then p else q) (if b then p' else q')
  Agree-if n true h k = h
  Agree-if n false h k = k

module _ {ℓ κ μ} {E : Type ℓ} {A : Type κ} {B : Type μ} where
  pub Uses-then :
      {p : Reader E A} {f : A → Reader E B} → Uses 0 p → ((a : A) → Uses 0 (f a)) → Uses 0 (p >>= f)
  Uses-then {p = p} {f = f} u v = record {
    after = λ src. After-bind 0 0 (length src) (length src) (p src) f (u.after src) (λ a rest h.
        After-le 0 (length rest) (length src) (f a rest) (omega arith) ((v a).after rest));
  }

  pub Agree-then :
      (n : ℕ) {p q : Reader E A} {f g : A → Reader E B}
      → Agree n p q
      → Uses 0 q
      → ((a : A) → Agree n (f a) (g a))
      → Agree n (p >>= f) (q >>= g)
  Agree-then n {q = q} {f = f} {g = g} h u k = record {
    same = λ src room. rw (h.same src room) (
        bind-agree 0 (length src) (q src) f g (u.after src)
          (λ a rest shorter. (k a).same rest (omega arith)));
  }

  -- Behind a reader that takes a byte, agreement is needed on shorter inputs only.
  pub Agree-shift :
      (n : ℕ) {p : Reader E A} {f g : A → Reader E B}
      → Uses 1 p
      → ((a : A) (m : ℕ) → m < n → Agree m (f a) (g a))
      → Agree n (p >>= f) (p >>= g)
  Agree-shift n {p = p} {f = f} {g = g} u k = record {
    same = λ src room.
        bind-agree 1 (length src) (p src) f g (u.after src)
          (λ a rest shorter. (k a (length rest) (omega arith)).same rest (omega arith));
  }

pub Uses-get_be {ℓ} : {E : Type ℓ} (k j : ℕ) → j ≤ k → Uses {E = E} j (get_be k)
Uses-get_be k j le = record {
  after = λ src. elim (Bool-cases (leb k (length src))) [
    | inl h ↦ rw h (omega (arith, length-drop_bytes k src, leb→le k (length src) h))
    | inr h ↦ rw h tt
  ];
}

pub Uses-split_to {ℓ} : {E : Type ℓ} (k : ℕ) → Uses {E = E} 0 (split_to k)
Uses-split_to k = record {
  after = λ src. elim (Bool-cases (leb k (length src))) [
    | inl h ↦ rw h (omega (arith, length-drop_bytes k src))
    | inr h ↦ rw h tt
  ];
}

pub Uses-require {ℓ} : {E : Type ℓ} (k : ℕ) (e : ℕ → E) → Uses 0 (require k e)
Uses-require k e = record {
  after = λ src. elim (Bool-cases (leb k (length src))) [
    | inl h ↦ rw h (omega arith)
    | inr h ↦ rw h tt
  ];
}
