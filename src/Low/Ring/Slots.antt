-- ===== src/Low/Ring/Slots.antt =====
-- The cells of a ring by position: positions go on behind the end of the storage, where they
-- stand for the cells from its beginning.
use nff_go.Base.{
  ℕ, zero, suc, ◌+◌, ◌-◌, ◌≡◌, ◌≢◌, ◌≤◌, ◌<◌, refl, ap, ap₂, ◌∙◌, arith, List, [], ◌∷◌, ◌++◌,
  length, ltb, if◌then◌else◌,
}
use nff_go.Low.Ring.{store}

abbrev pub wrap : ℕ → ℕ → ℕ
wrap size x = if ltb x size then x else x - size

-- The entries at `n` positions from `x`.
abbrev pub window : ℕ → (ℕ → ℕ) → ℕ → ℕ → List ℕ
window size cells x zero = []
window size cells x (suc n) = cells (wrap size x) ∷ window size cells (x + 1) n

-- The cells after `vs` is written from position `x` on.
abbrev pub fill : ℕ → (ℕ → ℕ) → ℕ → List ℕ → (ℕ → ℕ)
fill size cells x [] = cells
fill size cells x (v ∷ vs) = fill size (store cells (wrap size x) v) (x + 1) vs

-- The positions from `x` and from `y` on stand for the same cells.
abbrev pub Agree : ℕ → ℕ → ℕ → ℕ → Type 0
Agree size x y n = (k : ℕ) → k < n → wrap size (x + k) ≡ wrap size (y + k)

module _ (size : ℕ) where
  wrap-ne : (a b : ℕ) → a < b → b < a + size → b < size + size → wrap size a ≢ wrap size b
  wrap-ne a b h k l e = ground arith

  pub length-window : (cells : ℕ → ℕ) (x n : ℕ) → length (window size cells x n) ≡ n
  length-window cells x zero = refl
  length-window cells x (suc n) = ap suc (length-window cells (x + 1) n)

  store_other : (cells : ℕ → ℕ) (j v i : ℕ) → i ≢ j → store cells j v i ≡ cells i
  store_other cells j v i h = ground arith

  store_here : (cells : ℕ → ℕ) (j v : ℕ) → store cells j v j ≡ v
  store_here cells j v = ground arith

  window-store :
      (cells : ℕ → ℕ) (p v y n : ℕ)
      → y + n ≤ p
      → p < y + size
      → p < size + size
      → window size (store cells (wrap size p) v) y n ≡ window size cells y n
  window-store cells p v y zero h k l = refl
  window-store cells p v y (suc n) h k l =
      ap₂ (λ (a : ℕ) (b : List ℕ). a ∷ b)
        (store_other cells (wrap size p) v (wrap size y) (wrap-ne y p (omega arith) k l))
        (window-store cells p v (y + 1) n (omega arith) (omega arith) l)

  pub window-fill_before :
      (cells : ℕ → ℕ) (x : ℕ) (vs : List ℕ) (y n : ℕ)
      → y + n ≤ x
      → x + length vs ≤ y + size
      → x + length vs ≤ size + size
      → window size (fill size cells x vs) y n ≡ window size cells y n
  window-fill_before cells x [] y n h k l = refl
  window-fill_before cells x (v ∷ vs) y n h k l =
      window-fill_before (store cells (wrap size x) v) (x + 1) vs y n (omega arith) (omega arith)
        (omega arith)
      ∙ window-store cells x v y n h (omega arith) (omega arith)

  fill_here :
      (cells : ℕ → ℕ) (x : ℕ) (vs : List ℕ) (p : ℕ)
      → p < x
      → x + length vs ≤ p + size
      → x + length vs ≤ size + size
      → fill size cells x vs (wrap size p) ≡ cells (wrap size p)
  fill_here cells x [] p h k l = refl
  fill_here cells x (v ∷ vs) p h k l =
      fill_here (store cells (wrap size x) v) (x + 1) vs p (omega arith) (omega arith) (omega arith)
      ∙ store_other cells (wrap size x) v (wrap size p) (wrap-ne p x h (omega arith) (omega arith))

  pub window-fill_same :
      (cells : ℕ → ℕ) (x : ℕ) (vs : List ℕ)
      → length vs ≤ size
      → x + length vs ≤ size + size
      → window size (fill size cells x vs) x (length vs) ≡ vs
  window-fill_same cells x [] k l = refl
  window-fill_same cells x (v ∷ vs) k l =
      ap₂ (λ (a : ℕ) (b : List ℕ). a ∷ b)
        (fill_here (store cells (wrap size x) v) (x + 1) vs x (omega arith) (omega arith)
            (omega arith)
          ∙ store_here cells (wrap size x) v)
        (window-fill_same (store cells (wrap size x) v) (x + 1) vs (omega arith) (omega arith))

  pub window-append :
      (cells : ℕ → ℕ) (x m n : ℕ)
      → window size cells x (m + n) ≡ window size cells x m ++ window size cells (x + m) n
  window-append cells x zero n =
      let none : 0 + n ≡ n = omega arith in
      let same : x + 0 ≡ x = omega arith in rw (none, same) refl
  window-append cells x (suc m) n =
      let more : suc m + n ≡ suc (m + n) = omega arith in
      let next : x + suc m ≡ x + 1 + m = omega arith in
      rw (more, next)
        (ap (λ (t : List ℕ). cells (wrap size x) ∷ t) (window-append cells (x + 1) m n))

  Agree-head : (x y n : ℕ) → Agree size x y (suc n) → wrap size x ≡ wrap size y
  Agree-head x y n h =
      let ex : x + 0 ≡ x = omega arith in
      let ey : y + 0 ≡ y = omega arith in rw (ex, ey) at (h 0 (omega arith))

  Agree-tail : (x y n : ℕ) → Agree size x y (suc n) → Agree size (x + 1) (y + 1) n
  Agree-tail x y n h k l =
      let ex : x + suc k ≡ x + 1 + k = omega arith in
      let ey : y + suc k ≡ y + 1 + k = omega arith in rw (ex, ey) at (h (suc k) (omega arith))

  pub window-congr :
      (cells : ℕ → ℕ) (x y n : ℕ) → Agree size x y n → window size cells x n ≡ window size cells y n
  window-congr cells x y zero h = refl
  window-congr cells x y (suc n) h =
      ap₂ (λ (a : ℕ) (b : List ℕ). a ∷ b) (ap cells (Agree-head x y n h))
        (window-congr cells (x + 1) (y + 1) n (Agree-tail x y n h))

  pub fill-congr :
      (cells : ℕ → ℕ) (x y : ℕ) (vs : List ℕ)
      → Agree size x y (length vs)
      → fill size cells x vs ≡ fill size cells y vs
  fill-congr cells x y [] h = refl
  fill-congr cells x y (v ∷ vs) h =
      ap (λ (t : ℕ). fill size (store cells t v) (x + 1) vs) (Agree-head x y (length vs) h)
      ∙ fill-congr (store cells (wrap size y) v) (x + 1) (y + 1) vs (Agree-tail x y (length vs) h)

  pub fill-append :
      (cells : ℕ → ℕ) (x : ℕ) (us vs : List ℕ)
      → fill size cells x (us ++ vs) ≡ fill size (fill size cells x us) (x + length us) vs
  fill-append cells x [] vs = let same : x + 0 ≡ x = omega arith in rw same refl
  fill-append cells x (u ∷ us) vs =
      let next : x + suc (length us) ≡ x + 1 + length us = omega arith in
      rw next (fill-append (store cells (wrap size x) u) (x + 1) us vs)
