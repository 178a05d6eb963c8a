-- ===== src/Flow/Timers/Gaps.antt =====
-- The memory of a slice after an element was removed.
use nff_go.Base.{ℕ, zero, suc, ◌≤◌, ◌<◌, ◌≡◌, refl, ap, arith, List, [], ◌∷◌, length}
use nff_go.Common.Slices.{fetch}
use nff_go.Flow.Timers.{shift, close_gap}

shift-inside :
    (m : ℕ) (xs : List ℕ) (p : ℕ)
    → suc p < m
    → m ≤ length xs
    → fetch (shift m xs) p ≡ fetch xs (suc p)
unfolding shift fetch
shift-inside zero xs p h k = absurd (omega arith)
shift-inside (suc zero) xs p h k = absurd (omega arith)
shift-inside (suc (suc m)) [] p h k = absurd (omega arith)
shift-inside (suc (suc m)) (x ∷ []) p h k = absurd (omega arith)
shift-inside (suc (suc m)) (x ∷ y ∷ ys) zero h k = refl
shift-inside (suc (suc m)) (x ∷ y ∷ ys) (suc p) h k =
    shift-inside (suc m) (y ∷ ys) p (omega arith) (omega arith)

shift-behind : (m : ℕ) (xs : List ℕ) (p : ℕ) → m ≤ suc p → fetch (shift m xs) p ≡ fetch xs p
unfolding shift fetch
shift-behind zero xs p h = refl
shift-behind (suc zero) xs p h = refl
shift-behind (suc (suc m)) [] p h = refl
shift-behind (suc (suc m)) (x ∷ []) p h = refl
shift-behind (suc (suc m)) (x ∷ y ∷ ys) zero h = absurd (omega arith)
shift-behind (suc (suc m)) (x ∷ y ∷ ys) (suc p) h = shift-behind (suc m) (y ∷ ys) p (omega arith)

pub close_gap-inside :
    (i m : ℕ) (xs : List ℕ) (p : ℕ)
    → i ≤ p
    → suc p < m
    → m ≤ length xs
    → fetch (close_gap i m xs) p ≡ fetch xs (suc p)
unfolding close_gap fetch
close_gap-inside zero m xs p g h k = shift-inside m xs p h k
close_gap-inside (suc i) m [] p g h k = absurd (omega arith)
close_gap-inside (suc i) zero (x ∷ xs) p g h k = absurd (omega arith)
close_gap-inside (suc i) (suc m) (x ∷ xs) zero g h k = absurd (omega arith)
close_gap-inside (suc i) (suc m) (x ∷ xs) (suc p) g h k =
    close_gap-inside i m xs p (omega arith) (omega arith) (omega arith)

pub close_gap-behind :
    (i m : ℕ) (xs : List ℕ) (p : ℕ) → m ≤ suc p → fetch (close_gap i m xs) p ≡ fetch xs p
unfolding close_gap fetch
close_gap-behind zero m xs p h = shift-behind m xs p h
close_gap-behind (suc i) m [] p h = refl
close_gap-behind (suc i) zero (x ∷ xs) p h = refl
close_gap-behind (suc i) (suc m) (x ∷ xs) zero h = refl
close_gap-behind (suc i) (suc m) (x ∷ xs) (suc p) h = close_gap-behind i m xs p (omega arith)

length-shift : (m : ℕ) (xs : List ℕ) → length (shift m xs) ≡ length xs
unfolding shift
length-shift zero xs = refl
length-shift (suc zero) xs = refl
length-shift (suc (suc m)) [] = refl
length-shift (suc (suc m)) (x ∷ []) = refl
length-shift (suc (suc m)) (x ∷ y ∷ ys) = ap suc (length-shift (suc m) (y ∷ ys))

pub length-close_gap : (i m : ℕ) (xs : List ℕ) → length (close_gap i m xs) ≡ length xs
unfolding close_gap
length-close_gap zero m xs = length-shift m xs
length-close_gap (suc i) m [] = refl
length-close_gap (suc i) zero (x ∷ xs) = refl
length-close_gap (suc i) (suc m) (x ∷ xs) = ap suc (length-close_gap i m xs)
