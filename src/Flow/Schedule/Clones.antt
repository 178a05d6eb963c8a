-- ===== src/Flow/Schedule/Clones.antt =====
-- The clones of all instances, counted, and the table of cores that goes with them.
use nff_go.Base.{
  ℕ, zero, suc, ◌+◌, ◌≤◌, ◌<◌, ◌≡◌, ◌≢◌, refl, ap, ◌∙◌, arith, List, [], ◌∷◌, ◌++◌, length, count,
  count-append, length-append, if◌then◌else◌, ltb, set,
}
use nff_go.Common.Errors.{ok}
use nff_go.Common.Slices.{fetch, total}
use nff_go.Flow.Cores.{Scheduler}
use nff_go.Flow.Cores.Running.{Runs}
use nff_go.Flow.Instances.{remove}
use nff_go.Flow.Schedule.State.{Running}
use nff_go.Flow.Schedule.Parts.{fetch-set_other, total-set, total-remove}

-- The clones of all instances, one after the other.
abbrev pub clones : List Running → List ℕ
clones [] = []
clones (ffi ∷ rest) = ffi.base.clone ++ clones rest

-- A number that adds up over the parts of a list.
pub record IsMeasure (m : List ℕ → ℕ) : Type 0 where
  pub empty : m [] ≡ 0
  pub adds : (xs ys : List ℕ) → m (xs ++ ys) ≡ m xs + m ys

-- Two lists with the same elements, as often.
abbrev pub Same : List ℕ → List ℕ → Type 0
Same xs ys = (m : List ℕ → ℕ) → IsMeasure m → m xs ≡ m ys

count-IsMeasure : (i : ℕ) → IsMeasure (count i)
unfolding count
count-IsMeasure i = record { empty = refl; adds = count-append i }

length-IsMeasure : IsMeasure length
length-IsMeasure = record { empty = refl; adds = length-append }

pub Runs-Same : (s : Scheduler) (xs ys : List ℕ) → Same xs ys → Runs s xs → Runs s ys
Runs-Same s xs ys same r =
    let counts : (i : ℕ) → count i xs ≡ count i ys = λ i. same (count i) (count-IsMeasure i) in
    let size : length xs ≡ length ys = same length length-IsMeasure in
    record {
      used = omega (arith, r.used, size);
      single = λ i. omega (arith, r.single i, counts i);
      inside = λ i h. r.inside i (omega (arith, h, counts i));
      busy = λ i h. r.busy i (omega (arith, h, counts i));
      idle = λ i h e. r.idle i h (counts i ∙ e);
    }

module _ (m : List ℕ → ℕ) (w : IsMeasure m) where
  measure-clones :
      (ws : List Running) → m (clones ws) ≡ total (λ (ffi : Running). m ffi.base.clone) ws
  measure-clones [] = w.empty
  measure-clones (ffi ∷ ws) = omega (arith, w.adds ffi.base.clone (clones ws), measure-clones ws)

-- The clones beside those of instance `q`.
abbrev pub beside : List ℕ → ℕ → List Running → List ℕ
beside others q ws = others ++ clones (remove q ws)

module _ (others : List ℕ) (ws : List Running) (q : ℕ) (old : Running)
    (here : fetch ws q ≡ ok old) where
  pub set-Same :
      (ffi : Running)
      → Same (beside others q ws ++ ffi.base.clone) (others ++ clones (set ws q ffi))
  set-Same ffi m w = omega (
    arith,
    w.adds (beside others q ws) ffi.base.clone,
    w.adds others (clones (remove q ws)),
    w.adds others (clones (set ws q ffi)),
    measure-clones m w (remove q ws),
    measure-clones m w (set ws q ffi),
    total-set (λ (f : Running). m f.base.clone) ws q old ffi here,
    total-remove (λ (f : Running). m f.base.clone) ws q old here,
  )

  pub beside-Same : Same (others ++ clones ws) (beside others q ws ++ old.base.clone)
  beside-Same m w = omega (
    arith,
    w.adds (beside others q ws) old.base.clone,
    w.adds others (clones (remove q ws)),
    w.adds others (clones ws),
    measure-clones m w (remove q ws),
    measure-clones m w ws,
    total-remove (λ (f : Running). m f.base.clone) ws q old here,
  )

pub append-Same :
    (others : List ℕ) (ws : List Running) (ffi : Running)
    → Same ((others ++ clones ws) ++ ffi.base.clone) (others ++ clones (ws ++ (ffi ∷ [])))
append-Same others [] ffi m w = omega (
  arith,
  w.adds (others ++ []) ffi.base.clone,
  w.adds others [],
  w.adds others (ffi.base.clone ++ []),
  w.adds ffi.base.clone [],
)
append-Same others (x ∷ ws) ffi m w = omega (
  arith,
  append-Same others ws ffi m w,
  w.adds (others ++ clones ws) ffi.base.clone,
  w.adds others (clones ws),
  w.adds others (clones (ws ++ (ffi ∷ []))),
  w.adds (others ++ clones (x ∷ ws)) ffi.base.clone,
  w.adds others (clones (x ∷ ws)),
  w.adds x.base.clone (clones ws),
  w.adds others (clones ((x ∷ ws) ++ (ffi ∷ []))),
  w.adds x.base.clone (clones (ws ++ (ffi ∷ []))),
)

pub append-SameLeft : (xs ys zs : List ℕ) → Same xs ys → Same (xs ++ zs) (ys ++ zs)
append-SameLeft xs ys zs same m w = omega (arith, same m w, w.adds xs zs, w.adds ys zs)

-- Where the instance `from` goes, and `to` keeps its clones.
pub merge-Same :
    (others : List ℕ) (ws : List Running) (from to : ℕ) (ffi target merged : Running)
    → fetch ws from ≡ ok ffi
    → fetch ws to ≡ ok target
    → to ≢ from
    → merged.base.clone ≡ target.base.clone
    → Same (beside others from ws) (others ++ clones (remove from (set ws to merged)))
merge-Same others ws from to ffi target merged e k apart same m w =
    let still = fetch-set_other ws to from merged apart ∙ e in
    omega (
      arith,
      w.adds others (clones (remove from ws)),
      w.adds others (clones (remove from (set ws to merged))),
      measure-clones m w (remove from ws),
      measure-clones m w (remove from (set ws to merged)),
      total-remove (λ (f : Running). m f.base.clone) ws from ffi e,
      total-remove (λ (f : Running). m f.base.clone) (set ws to merged) from ffi still,
      total-set (λ (f : Running). m f.base.clone) ws to target merged k,
      ap m same,
    )

-- How many elements of a list are below a number.
below : ℕ → List ℕ → ℕ
below n [] = 0
below n (x ∷ xs) = (if ltb x n then 1 else 0) + below n xs

below-zero : (xs : List ℕ) → below 0 xs ≡ 0
unfolding below
below-zero [] = refl
below-zero (x ∷ xs) = ground (arith, below-zero xs)

below-suc : (n : ℕ) (xs : List ℕ) → below (suc n) xs ≡ below n xs + count n xs
unfolding below count
below-suc n [] = omega arith
below-suc n (x ∷ xs) = ground (arith, below-suc n xs)

below-le : (n : ℕ) (xs : List ℕ) → ((i : ℕ) → count i xs ≤ 1) → below n xs ≤ n
below-le zero xs h = omega (arith, below-zero xs)
below-le (suc n) xs h = omega (arith, below-le n xs h, below-suc n xs, h n)

below-length : (n : ℕ) (xs : List ℕ) → ((i : ℕ) → 0 < count i xs → i < n) → below n xs ≡ length xs
unfolding below count
below-length n [] h = refl
below-length n (x ∷ xs) h =
    let here : x < n = h x (ground arith) in
    let rest = below-length n xs (λ i k. h i (ground (arith, k))) in ground (arith, here, rest)

-- Clones with a core each are not more than the cores.
pub Runs-length : (s : Scheduler) (xs : List ℕ) → Runs s xs → length xs ≤ length s.cores
Runs-length s xs r =
    let few = below-le (length s.cores) xs r.single in
    omega (arith, few, below-length (length s.cores) xs r.inside)
