-- ===== src/Proxy/Pickup/Remove.antt =====
-- The removal of the collected indices, the last one first.
use pico_server_rs.Base.{
  ℕ, suc, ◌≡◌, refl, ap, ◌∙◌, sym, List, [], ◌∷◌, ◌++◌, append_assoc, Bool, Bool-cases, inl, inr,
  some, length, length-append, arith, if◌then◌else◌, and_then,
}
use pico_server_rs.Proxy.Pickup.{remove, remove_all, indices}

module _ {ℓ} {A : Type ℓ} where
  -- What `p` does not hold of.
  abbrev pub rest_of : (A → Bool) → List A → List A
  rest_of p [] = []
  rest_of p (x ∷ xs) = if p x then rest_of p xs else x ∷ rest_of p xs

  remove-append :
      (xs : List A) (x : A) (ys : List A) → remove (length xs) (xs ++ x ∷ ys) ≡ some (xs ++ ys)
  remove-append [] x ys = refl
  remove-append (z ∷ zs) x ys = ap (λ o. and_then o (λ ys'. some (z ∷ ys'))) (remove-append zs x ys)

  remove_all-behind :
      (p : A → Bool) (n : ℕ) (before xs : List A)
      → n ≡ length before
      → remove_all (indices p n xs) (before ++ xs) ≡ some (before ++ rest_of p xs)
  remove_all-behind p n before [] e = refl
  remove_all-behind p n before (x ∷ xs) e =
      let ih =
        remove_all-behind p (suc n) (before ++ x ∷ []) xs
          (omega (arith, length-append before (x ∷ []))) in
      let from = append_assoc before (x ∷ []) xs in
      let to = append_assoc before (x ∷ []) (rest_of p xs) in
      let all : remove_all (indices p (suc n) xs) (before ++ x ∷ xs)
          ≡ some (before ++ x ∷ rest_of p xs) =
        ap (remove_all (indices p (suc n) xs)) (sym from) ∙ ih ∙ ap some to in
      elim (Bool-cases (p x)) [
        | inl t ↦ rw (t, all, e) (remove-append before x (rest_of p xs))
        | inr f ↦ rw (f) all
      ]

  pub remove_all-indices :
      (p : A → Bool) (xs : List A) → remove_all (indices p 0 xs) xs ≡ some (rest_of p xs)
  remove_all-indices p xs = remove_all-behind p 0 [] xs refl
