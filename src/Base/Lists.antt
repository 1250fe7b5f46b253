-- ===== src/Base/Lists.antt =====
-- Lists measured and indexed by native numbers, under the library's names.
use Prim.Native.Nat.{ℕ, zero, suc, ◌+◌, ◌-◌, min, ◌≤◌}
use mathlib.Core.Path.{◌≡◌, refl, ap, sym, ◌∙◌}
use mathlib.Core.List.{List, [], ◌∷◌, ◌++◌}
use native.Mathlib.Omega.{arith}

module _ {ℓ} {A : Type ℓ} where
  abbrev pub length : List A → ℕ
  length [] = 0
  length (x ∷ xs) = suc (length xs)

  abbrev pub take : ℕ → List A → List A
  take zero xs = []
  take (suc n) [] = []
  take (suc n) (x ∷ xs) = x ∷ take n xs

  abbrev pub drop : ℕ → List A → List A
  drop zero xs = xs
  drop (suc n) [] = []
  drop (suc n) (x ∷ xs) = drop n xs

  pub length-append : (xs ys : List A) → length (xs ++ ys) ≡ length xs + length ys
  length-append [] ys = omega arith
  length-append (x ∷ xs) ys = omega (arith, length-append xs ys)

  pub length-take : (n : ℕ) (xs : List A) → length (take n xs) ≡ min n (length xs)
  length-take zero xs = omega arith
  length-take (suc n) [] = omega arith
  length-take (suc n) (x ∷ xs) = omega (arith, length-take n xs)

  pub length-drop : (n : ℕ) (xs : List A) → length (drop n xs) ≡ length xs - n
  length-drop zero xs = omega arith
  length-drop (suc n) [] = omega arith
  length-drop (suc n) (x ∷ xs) = omega (arith, length-drop n xs)

  pub take-long : (n : ℕ) (xs : List A) → length xs ≤ n → take n xs ≡ xs
  take-long zero [] h = refl
  take-long zero (x ∷ xs) h = absurd (omega arith)
  take-long (suc n) [] h = refl
  take-long (suc n) (x ∷ xs) h = ap (◌∷◌ x) (take-long n xs (omega arith))

  -- What stands in front of the cut stays.
  pub take-prefix :
      (n : ℕ) (xs ys : List A) → length xs ≤ n → (zs : List A) × (take n (xs ++ ys) ≡ xs ++ zs)
  take-prefix n [] ys h = (take n ys, refl)
  take-prefix zero (x ∷ xs) ys h = absurd (omega arith)
  take-prefix (suc n) (x ∷ xs) ys h =
      let (zs, e) = take-prefix n xs ys (omega arith) in (zs, ap (◌∷◌ x) e)

  pub take-append : (xs ys : List A) → take (length xs) (xs ++ ys) ≡ xs
  take-append [] ys = refl
  take-append (x ∷ xs) ys = ap (◌∷◌ x) (take-append xs ys)

  pub drop-append : (xs ys : List A) → drop (length xs) (xs ++ ys) ≡ ys
  drop-append [] ys = refl
  drop-append (x ∷ xs) ys = drop-append xs ys

module _ {ℓ} {A : Type ℓ} where
  drop-nil : (n : ℕ) → drop {A = A} n [] ≡ []
  drop-nil zero = refl
  drop-nil (suc n) = refl

  pub drop-add : (i n : ℕ) (xs : List A) → drop (i + n) xs ≡ drop n (drop i xs)
  drop-add zero n xs = ap (λ k. drop k xs) (omega arith)
  drop-add (suc i) n [] = ap (λ k. drop k []) e ∙ sym (drop-nil n)
    where
      e : suc i + n ≡ suc (i + n)
      e = omega arith
  drop-add (suc i) n (x ∷ xs) = ap (λ k. drop k (x ∷ xs)) e ∙ drop-add i n xs
    where
      e : suc i + n ≡ suc (i + n)
      e = omega arith

  abbrev pub All {κ} : (A → Type κ) → List A → Type κ
  All P [] = Unit {κ}
  All P (x ∷ xs) = P x × All P xs

  pub All-append {κ} : (P : A → Type κ) (xs ys : List A) → All P xs → All P ys → All P (xs ++ ys)
  All-append P [] ys hx hy = hy
  All-append P (x ∷ xs) ys hx hy = (hx.0, All-append P xs ys hx.1 hy)
