-- ===== src/Flow/Schedule/Parts.antt =====
-- Changing, removing and adding an instance, as seen by one of its fields.
use nff_go.Base.{
  ℕ, zero, suc, ◌+◌, ◌<◌, ◌≡◌, ◌≢◌, refl, ap, arith, List, [], ◌∷◌, ◌++◌, length, map, set, All,
}
use nff_go.Common.Errors.{ok}
use nff_go.Common.Slices.{fetch, put, total}
use nff_go.Flow.Instances.{remove}

module _ {ℓ} {A : Type ℓ} where
  pub put-set : (xs : List A) (i : ℕ) (v : A) → i < length xs → put xs i v ≡ ok (set xs i v)
  unfolding put
  put-set [] i v h = absurd (omega arith)
  put-set (x ∷ xs) zero v h = refl
  put-set (x ∷ xs) (suc i) v h = rw (put-set xs i v (omega (arith, h))) refl

  pub set_same : (xs : List A) (i : ℕ) (v : A) → fetch xs i ≡ ok v → set xs i v ≡ xs
  unfolding fetch
  set_same [] i v e = refl
  set_same (x ∷ xs) zero v e = let same : x ≡ v = cc in rw same refl
  set_same (x ∷ xs) (suc i) v e = ap (λ (t : List A). x ∷ t) (set_same xs i v e)

  pub fetch-set_other : (xs : List A) (i j : ℕ) (v : A) → i ≢ j → fetch (set xs i v) j ≡ fetch xs j
  unfolding fetch
  fetch-set_other [] i j v h = refl
  fetch-set_other (x ∷ xs) zero zero v h = absurd (h refl)
  fetch-set_other (x ∷ xs) zero (suc j) v h = refl
  fetch-set_other (x ∷ xs) (suc i) zero v h = refl
  fetch-set_other (x ∷ xs) (suc i) (suc j) v h = fetch-set_other xs i j v (λ e. h (ap suc e))

  pub total-set :
      (f : A → ℕ) (xs : List A) (i : ℕ) (x v : A)
      → fetch xs i ≡ ok x
      → total f (set xs i v) + f x ≡ total f xs + f v
  unfolding fetch
  total-set f [] i x v e = cc
  total-set f (y ∷ xs) zero x v e = let same : y ≡ x = cc in omega (arith, ap f same)
  total-set f (y ∷ xs) (suc i) x v e = omega (arith, total-set f xs i x v e)

  pub total-remove :
      (f : A → ℕ) (xs : List A) (i : ℕ) (x : A)
      → fetch xs i ≡ ok x
      → total f (remove i xs) + f x ≡ total f xs
  unfolding fetch remove
  total-remove f [] i x e = cc
  total-remove f (y ∷ xs) zero x e = let same : y ≡ x = cc in omega (arith, ap f same)
  total-remove f (y ∷ xs) (suc i) x e = omega (arith, total-remove f xs i x e)

  pub length-remove : (xs : List A) (i : ℕ) → i < length xs → length (remove i xs) + 1 ≡ length xs
  unfolding remove
  length-remove [] i h = absurd (omega (arith, h))
  length-remove (x ∷ xs) zero h = omega arith
  length-remove (x ∷ xs) (suc i) h = omega (arith, length-remove xs i (omega (arith, h)))

  -- Where the elements of a list stand when one was removed.
  pub fetch-remove :
      (xs : List A) (i j : ℕ)
      → (i < j → fetch (remove i xs) j ≡ fetch xs (suc j))
        × (j < i → fetch (remove i xs) j ≡ fetch xs j)
  unfolding fetch remove
  fetch-remove [] i j = (λ h. refl, λ h. refl)
  fetch-remove (x ∷ xs) zero j = (λ h. refl, λ h. absurd (omega (arith, h)))
  fetch-remove (x ∷ xs) (suc i) zero = (λ h. absurd (omega (arith, h)), λ h. refl)
  fetch-remove (x ∷ xs) (suc i) (suc j) =
      let (above, below) = fetch-remove xs i j in
      (λ h. above (omega (arith, h)), λ h. below (omega (arith, h)))

  module _ (P : A → Type 0) where
    pub All-fetch : (xs : List A) (i : ℕ) (x : A) → All P xs → fetch xs i ≡ ok x → P x
    unfolding fetch
    All-fetch [] i x p e = cc
    All-fetch (y ∷ xs) zero x p e = let same : y ≡ x = cc in rw (← same) p.0
    All-fetch (y ∷ xs) (suc i) x p e = All-fetch xs i x p.1 e

    pub All-set : (xs : List A) (i : ℕ) (v : A) → All P xs → P v → All P (set xs i v)
    All-set [] i v p q = tt
    All-set (x ∷ xs) zero v p q = (q, p.1)
    All-set (x ∷ xs) (suc i) v p q = (p.0, All-set xs i v p.1 q)

    pub All-remove : (xs : List A) (i : ℕ) → All P xs → All P (remove i xs)
    unfolding remove
    All-remove [] i p = p
    All-remove (x ∷ xs) zero p = p.1
    All-remove (x ∷ xs) (suc i) p = (p.0, All-remove xs i p.1)

module _ {ℓ κ} {A : Type ℓ} {B : Type κ} (g : A → B) where
  pub fetch-map : (xs : List A) (q : ℕ) (x : A) → fetch xs q ≡ ok x → fetch (map g xs) q ≡ ok (g x)
  unfolding fetch
  fetch-map [] q x e = cc
  fetch-map (y ∷ xs) zero x e = let same : y ≡ x = cc in rw same refl
  fetch-map (y ∷ xs) (suc q) x e = fetch-map xs q x e

  pub length-map : (xs : List A) → length (map g xs) ≡ length xs
  length-map [] = refl
  length-map (x ∷ xs) = ap suc (length-map xs)

  pub map-set : (xs : List A) (i : ℕ) (v : A) → map g (set xs i v) ≡ set (map g xs) i (g v)
  map-set [] i v = refl
  map-set (x ∷ xs) zero v = refl
  map-set (x ∷ xs) (suc i) v = ap (λ (t : List B). g x ∷ t) (map-set xs i v)

  pub map-remove : (i : ℕ) (xs : List A) → map g (remove i xs) ≡ remove i (map g xs)
  unfolding remove
  map-remove i [] = refl
  map-remove zero (x ∷ xs) = refl
  map-remove (suc i) (x ∷ xs) = ap (λ (t : List B). g x ∷ t) (map-remove i xs)

  pub map-append : (xs ys : List A) → map g (xs ++ ys) ≡ map g xs ++ map g ys
  map-append [] ys = refl
  map-append (x ∷ xs) ys = ap (λ (t : List B). g x ∷ t) (map-append xs ys)
