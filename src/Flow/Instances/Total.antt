-- ===== src/Flow/Instances/Total.antt =====
-- Sums over the instances, and what reading, writing and removing one does to them.
use nff_go.Base.{
  ℕ, zero, suc, ◌+◌, ◌<◌, ◌≡◌, ◌≢◌, refl, ap, arith, List, [], ◌∷◌, ◌++◌, length, set,
}
use nff_go.Common.Errors.{ok}
use nff_go.Flow.Queues.Layout.{Holds}
use nff_go.Flow.Queues.{fetch, put}
use nff_go.Flow.Instances.{remove}

unfoldable pub total : (List ℕ → ℕ) → List (List ℕ) → ℕ
total f [] = 0
total f (x ∷ xs) = f x + total f xs

-- Every list of queues is laid out with the same capacity.
abbrev pub HoldsAll : ℕ → List (List ℕ) → List (List ℕ) → Type 0
HoldsAll c [] [] = Unit
HoldsAll c [] (y ∷ ys) = ⊥
HoldsAll c (x ∷ xs) [] = ⊥
HoldsAll c (x ∷ xs) (y ∷ ys) = Holds x y c × HoldsAll c xs ys

pub fetch-HoldsAll :
    (c : ℕ) (xs ys : List (List ℕ)) (i : ℕ)
    → HoldsAll c xs ys
    → i < length xs
    → (x y : List ℕ) × (fetch xs i ≡ ok x) × (fetch ys i ≡ ok y) × Holds x y c
unfolding fetch
fetch-HoldsAll c [] ys i h k = absurd (omega arith)
fetch-HoldsAll c (x ∷ xs) [] i h k = absurd h
fetch-HoldsAll c (x ∷ xs) (y ∷ ys) zero h k = (x, y, refl, refl, h.0)
fetch-HoldsAll c (x ∷ xs) (y ∷ ys) (suc i) h k = fetch-HoldsAll c xs ys i h.1 (omega arith)

pub put-set :
    (xs : List (List ℕ)) (i : ℕ) (v : List ℕ) → i < length xs → put xs i v ≡ ok (set xs i v)
unfolding put
put-set [] i v h = absurd (omega arith)
put-set (x ∷ xs) zero v h = refl
put-set (x ∷ xs) (suc i) v h = rw (put-set xs i v (omega arith)) refl

pub set-HoldsAll :
    (c : ℕ) (xs ys : List (List ℕ)) (i : ℕ) (v w : List ℕ)
    → HoldsAll c xs ys
    → Holds v w c
    → HoldsAll c (set xs i v) (set ys i w)
set-HoldsAll c [] [] i v w h l = tt
set-HoldsAll c [] (y ∷ ys) i v w h l = absurd h
set-HoldsAll c (x ∷ xs) [] i v w h l = absurd h
set-HoldsAll c (x ∷ xs) (y ∷ ys) zero v w h l = (l, h.1)
set-HoldsAll c (x ∷ xs) (y ∷ ys) (suc i) v w h l = (h.0, set-HoldsAll c xs ys i v w h.1 l)

pub remove-HoldsAll :
    (c : ℕ) (xs ys : List (List ℕ)) (i : ℕ)
    → HoldsAll c xs ys
    → HoldsAll c (remove i xs) (remove i ys)
unfolding remove
remove-HoldsAll c [] [] i h = tt
remove-HoldsAll c [] (y ∷ ys) i h = absurd h
remove-HoldsAll c (x ∷ xs) [] i h = absurd h
remove-HoldsAll c (x ∷ xs) (y ∷ ys) zero h = h.1
remove-HoldsAll c (x ∷ xs) (y ∷ ys) (suc i) h = (h.0, remove-HoldsAll c xs ys i h.1)

pub append-HoldsAll :
    (c : ℕ) (xs ys : List (List ℕ)) (v w : List ℕ)
    → HoldsAll c xs ys
    → Holds v w c
    → HoldsAll c (xs ++ (v ∷ [])) (ys ++ (w ∷ []))
append-HoldsAll c [] [] v w h l = (l, tt)
append-HoldsAll c [] (y ∷ ys) v w h l = absurd h
append-HoldsAll c (x ∷ xs) [] v w h l = absurd h
append-HoldsAll c (x ∷ xs) (y ∷ ys) v w h l = (h.0, append-HoldsAll c xs ys v w h.1 l)

module _ (f : List ℕ → ℕ) where
  pub total-append_one :
      (ys : List (List ℕ)) (w : List ℕ) → total f (ys ++ (w ∷ [])) ≡ total f ys + f w
  unfolding total
  total-append_one [] w = omega arith
  total-append_one (y ∷ ys) w = omega (arith, total-append_one ys w)

  pub total-set :
      (ys : List (List ℕ)) (i : ℕ) (w : List ℕ) {y : List ℕ}
      → fetch ys i ≡ ok y
      → total f (set ys i w) + f y ≡ total f ys + f w
  unfolding total fetch
  total-set [] i w e = cc
  total-set (x ∷ ys) zero w {y} e = let same : x ≡ y = cc in omega (arith, ap f same)
  total-set (x ∷ ys) (suc i) w e = omega (arith, total-set ys i w e)

  pub total-remove :
      (ys : List (List ℕ)) (i : ℕ) {y : List ℕ}
      → fetch ys i ≡ ok y
      → total f (remove i ys) + f y ≡ total f ys
  unfolding total fetch remove
  total-remove [] i e = cc
  total-remove (x ∷ ys) zero {y} e = let same : x ≡ y = cc in omega (arith, ap f same)
  total-remove (x ∷ ys) (suc i) e = omega (arith, total-remove ys i e)

-- A write at another place changes nothing at this one.
pub fetch-set_ne :
    (ys : List (List ℕ)) (i j : ℕ) (w : List ℕ) → i ≢ j → fetch (set ys i w) j ≡ fetch ys j
unfolding fetch
fetch-set_ne [] i j w h = refl
fetch-set_ne (y ∷ ys) zero zero w h = absurd (h refl)
fetch-set_ne (y ∷ ys) zero (suc j) w h = refl
fetch-set_ne (y ∷ ys) (suc i) zero w h = refl
fetch-set_ne (y ∷ ys) (suc i) (suc j) w h = fetch-set_ne ys i j w (λ e. h (ap suc e))
