-- ===== src/Common/Slices.antt =====
-- Slices whose indices Go checks at run time.
use nff_go.Base.{
  ℕ, zero, suc, List, [], ◌∷◌, ◌++◌, length, drop, ◌+◌, ◌<◌, arith, ◌≡◌, refl, ap, ◌≢◌,
}
use nff_go.Base.{◌⊎◌, inl, inr}
use nff_go.Common.Errors.{Result, ok, panic, ◌>>=◌}

-- An element of a slice read, and written; both panic out of range.
unfoldable pub fetch {ℓ} : {A : Type ℓ} → List A → ℕ → Result A
fetch [] i = panic
fetch (x ∷ xs) zero = ok x
fetch (x ∷ xs) (suc i) = fetch xs i

unfoldable pub put {ℓ} : {A : Type ℓ} → List A → ℕ → A → Result (List A)
put [] i v = panic
put (x ∷ xs) zero v = ok (v ∷ xs)
put (x ∷ xs) (suc i) v = do rest ← put xs i v; ok (x ∷ rest)

pub fetch-append {ℓ} :
    {A : Type ℓ} (ps : List A) (b : A) (cs : List A) → fetch (ps ++ (b ∷ cs)) (length ps) ≡ ok b
unfolding fetch
fetch-append [] b cs = refl
fetch-append (a ∷ ps) b cs = fetch-append ps b cs

pub put-append {ℓ} :
    {A : Type ℓ} (ps : List A) (b c : A) (cs : List A)
    → put (ps ++ (b ∷ cs)) (length ps) c ≡ ok (ps ++ (c ∷ cs))
unfolding put
put-append [] b c cs = refl
put-append (a ∷ ps) b c cs = rw (put-append ps b c cs) refl

-- The element at the front of what is left from `i` on.
pub fetch-drop {ℓ} :
    {A : Type ℓ} (xs : List A) (i : ℕ) (v : A) (rest : List A)
    → drop i xs ≡ v ∷ rest
    → (fetch xs i ≡ ok v) × (drop (i + 1) xs ≡ rest)
unfolding fetch
fetch-drop [] zero v rest e = cc
fetch-drop [] (suc i) v rest e = cc
fetch-drop (x ∷ xs) zero v rest e = (cc, cc)
fetch-drop (x ∷ xs) (suc i) v rest e =
    let one : suc i + 1 ≡ suc (i + 1) = omega arith in rw one (fetch-drop xs i v rest e)

-- The sum of `f` over a slice.
abbrev pub total {ℓ} : {A : Type ℓ} → (A → ℕ) → List A → ℕ
total f [] = 0
total f (x ∷ xs) = f x + total f xs

-- A slice with an element written.
pub record Written {ℓ} {A : Type ℓ} (xs : List A) (i : ℕ) (v : A) : Type ℓ where
  pub slice : List A
  pub done : put xs i v ≡ ok slice
  pub here : fetch slice i ≡ ok v
  pub others : (j : ℕ) → j ≢ i → fetch slice j ≡ fetch xs j
  pub same_length : length slice ≡ length xs
  pub totals : (f : A → ℕ) (x : A) → fetch xs i ≡ ok x → total f slice + f x ≡ total f xs + f v

module _ {ℓ} {A : Type ℓ} where
  fetch-cons :
      (x : A) (xs ys : List A) (i : ℕ)
      → ((j : ℕ) → j ≢ i → fetch ys j ≡ fetch xs j)
      → (j : ℕ) → j ≢ suc i
      → fetch (x ∷ ys) j ≡ fetch (x ∷ xs) j
  unfolding fetch
  fetch-cons x xs ys i h zero n = refl
  fetch-cons x xs ys i h (suc j) n = h j (λ e. n (ap suc e))

  fetch-tail : (x v : A) (xs : List A) (j : ℕ) → j ≢ 0 → fetch (v ∷ xs) j ≡ fetch (x ∷ xs) j
  unfolding fetch
  fetch-tail x v xs zero n = absurd (n refl)
  fetch-tail x v xs (suc j) n = refl

  pub put-Written : (xs : List A) (i : ℕ) (v : A) → i < length xs → Written xs i v
  unfolding fetch put
  put-Written [] i v h = absurd (omega arith)
  put-Written (x ∷ xs) zero v h = record {
    slice = v ∷ xs;
    done = refl;
    here = refl;
    others = fetch-tail x v xs;
    same_length = refl;
    totals = λ f y e. let same : x ≡ y = cc in omega (arith, ap f same);
  }
  put-Written (x ∷ xs) (suc i) v h =
      let w = put-Written xs i v (omega arith) in
      record {
        slice = x ∷ w.slice;
        done = rw w.done refl;
        here = w.here;
        others = fetch-cons x xs w.slice i w.others;
        same_length = ap suc w.same_length;
        totals = λ f y e. omega (arith, w.totals f y e);
      }

  pub fetch-ok_lt : (xs : List A) (i : ℕ) (x : A) → fetch xs i ≡ ok x → i < length xs
  unfolding fetch
  fetch-ok_lt [] i x e = cc
  fetch-ok_lt (y ∷ xs) zero x e = omega arith
  fetch-ok_lt (y ∷ xs) (suc i) x e = omega (arith, fetch-ok_lt xs i x e)

  pub fetch_lt : (xs : List A) (i : ℕ) → i < length xs → (x : A) × (fetch xs i ≡ ok x)
  unfolding fetch
  fetch_lt [] i h = absurd (omega arith)
  fetch_lt (x ∷ xs) zero h = (x, refl)
  fetch_lt (x ∷ xs) (suc i) h = fetch_lt xs i (omega arith)

  pub fetch-front : (xs ys : List A) (i : ℕ) (x : A) → fetch xs i ≡ ok x → fetch (xs ++ ys) i ≡ ok x
  unfolding fetch
  fetch-front [] ys i x e = cc
  fetch-front (y ∷ xs) ys zero x e = e
  fetch-front (y ∷ xs) ys (suc i) x e = fetch-front xs ys i x e

  -- An element of two slices together is one of the first or of the second.
  pub fetch-append-cases :
      (xs ys : List A) (i : ℕ) (x : A)
      → fetch (xs ++ ys) i ≡ ok x
      → (fetch xs i ≡ ok x) ⊎ ((j : ℕ) × (fetch ys j ≡ ok x))
  unfolding fetch
  fetch-append-cases [] ys i x e = inr (i, e)
  fetch-append-cases (y ∷ xs) ys zero x e = inl e
  fetch-append-cases (y ∷ xs) ys (suc i) x e = fetch-append-cases xs ys i x e

  pub total-append : (f : A → ℕ) (xs ys : List A) → total f (xs ++ ys) ≡ total f xs + total f ys
  total-append f [] ys = omega arith
  total-append f (x ∷ xs) ys = omega (arith, total-append f xs ys)
