-- ===== src/Prelude/Lists.antt =====
-- Lists measured by native numbers, and predicates on them.
use Prim.Native.Nat.{ℕ, zero, suc, ◌+◌}
use mathlib.Core.Path.{◌≡◌, refl}
use Prim.{tt}
use mathlib.Core.Bool.{Bool, true, false, ◌||◌}
use mathlib.Core.List.{List, [], ◌∷◌, ◌++◌, Sublistᴰ}
use native.Mathlib.Omega.{arith}

module _ {ℓ} {A : Type ℓ} where
  abbrev pub length : List A → ℕ
  length [] = 0
  length (x ∷ xs) = suc (length xs)

  abbrev pub any : (A → Bool) → List A → Bool
  any p [] = false
  any p (x ∷ xs) = p x || any p xs

  -- A predicate on every element, computing to a product.
  abbrev pub All {κ} : (A → Type κ) → List A → Type κ
  All P [] = Unit
  All P (x ∷ xs) = P x × All P xs

  pub length-append : (xs ys : List A) → length (xs ++ ys) ≡ length xs + length ys
  length-append [] ys = omega arith
  length-append (x ∷ xs) ys = omega (arith, length-append xs ys)

  pub any-append : (p : A → Bool) (xs ys : List A) → any p (xs ++ ys) ≡ (any p xs || any p ys)
  any-append p [] ys = ground arith
  any-append p (x ∷ xs) ys = ground (arith, any-append p xs ys)

  pub nil-Sublistᴰ : (xs : List A) → Sublistᴰ [] xs
  nil-Sublistᴰ [] = Sublistᴰ.slnil
  nil-Sublistᴰ (x ∷ xs) = Sublistᴰ.cons (nil-Sublistᴰ xs)

  -- The elements that pass a test, in their order.
  abbrev pub keep : (A → Bool) → List A → List A
  keep p [] = []
  keep p (x ∷ xs) = let rest = keep p xs in elim (p x) [ true ↦ x ∷ rest | false ↦ rest ]

  -- The first elements, as many as there are.
  abbrev pub take : ℕ → List A → List A
  take zero xs = []
  take (suc n) [] = []
  take (suc n) (x ∷ xs) = x ∷ take n xs

  -- Neighbours are related.
  abbrev pub IsChain : (A → A → Bool) → List A → Type 0
  IsChain le [] = Unit
  IsChain le (x ∷ []) = Unit
  IsChain le (x ∷ y ∷ xs) = (le x y ≡ true) × IsChain le (y ∷ xs)

  pub All-append {κ} : (P : A → Type κ) (xs ys : List A) → All P xs → All P ys → All P (xs ++ ys)
  All-append P [] ys h k = k
  All-append P (x ∷ xs) ys h k = (h.0, All-append P xs ys h.1 k)

  All-if {κ} :
      (P : A → Type κ) (x : A) (rest : List A) (b : Bool)
      → P x
      → All P rest
      → All P (elim b [ true ↦ x ∷ rest | false ↦ rest ])
  All-if P x rest true h k = (h, k)
  All-if P x rest false h k = k

  pub All-keep {κ} :
      (P : A → Type κ) (test : A → Bool) (xs : List A) → All P xs → All P (keep test xs)
  All-keep P test [] h = h
  All-keep P test (x ∷ xs) h = All-if P x (keep test xs) (test x) h.0 (All-keep P test xs h.1)

  pub All-map {κ} : (P Q : A → Type κ) (xs : List A) → ((x : A) → P x → Q x) → All P xs → All Q xs
  All-map P Q [] k h = h
  All-map P Q (x ∷ xs) k h = (k x h.0, All-map P Q xs k h.1)

  All-if_passed {κ} :
      (P : A → Type κ) (x : A) (rest : List A) (b : Bool)
      → (b ≡ true → P x)
      → All P rest
      → All P (elim b [ true ↦ x ∷ rest | false ↦ rest ])
  All-if_passed P x rest true h k = (h refl, k)
  All-if_passed P x rest false h k = k

  -- What was kept passed the test.
  pub All-keep_passed {κ} :
      (P : A → Type κ) (test : A → Bool) (xs : List A)
      → ((x : A) → test x ≡ true → P x)
      → All P (keep test xs)
  All-keep_passed P test [] h = tt
  All-keep_passed P test (x ∷ xs) h =
      All-if_passed P x (keep test xs) (test x) (h x) (All-keep_passed P test xs h)
