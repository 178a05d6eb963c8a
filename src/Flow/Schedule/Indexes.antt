-- ===== src/Flow/Schedule/Indexes.antt =====
-- The list of queues of an instance, as the scheduler reads it.
use nff_go.Base.{
  ℕ, zero, suc, ◌≤◌, ◌<◌, ◌≡◌, refl, sym, ◌∙◌, arith, List, [], ◌∷◌, ◌++◌, length, count,
}
use nff_go.Common.Errors.{Result, ok}
use nff_go.Common.Slices.{fetch, fetch_lt, fetch-ok_lt, fetch-front}
use nff_go.Flow.Instances.Total.{fetch-HoldsAll, total-remove}
use nff_go.Flow.Schedule.State.{Running, State}
use nff_go.Flow.Schedule.Parts.{fetch-map}
use nff_go.Flow.Schedule.Serving.{Serves, indexes}

count-fetch : (xs : List ℕ) (i x : ℕ) → fetch xs i ≡ ok x → 0 < count x xs
unfolding fetch count
count-fetch [] i x e = cc
count-fetch (y ∷ xs) zero x e = let same : y ≡ x = cc in ground (arith, same)
count-fetch (y ∷ xs) (suc i) x e = let rest = count-fetch xs i x e in ground (arith, rest)

-- The list holds a number of queues, each below `number`.
pub record IsIndex (number : ℕ) (index : List ℕ) : Type 0 where
  pub size : ℕ
  pub head : fetch index 0 ≡ ok size
  pub fits : size ≤ number
  pub read : (j : ℕ) → 0 < j → j ≤ size → (x : ℕ) × (fetch index j ≡ ok x) × (x < number)

same_list : {r : Result (List ℕ)} {x y : List ℕ} → r ≡ ok x → r ≡ ok y → x ≡ y
same_list e k = cc

laid_out-read :
    (y room : List ℕ) (j : ℕ)
    → 0 < j
    → j ≤ length y
    → (x : ℕ) × (fetch (length y ∷ (y ++ room)) j ≡ ok x) × (0 < count x y)
unfolding fetch
laid_out-read y room zero h k = absurd (omega (arith, h))
laid_out-read y room (suc j) h k =
    let (x, e) = fetch_lt y j (omega (arith, k)) in
    (x, fetch-front y room j x e, count-fetch y j x e)

pub Serves-IsIndex :
    (number : ℕ) (others : List ℕ) (s : State) (q : ℕ) (ffi : Running)
    → Serves number others s
    → fetch s.instances q ≡ ok ffi
    → IsIndex number ffi.in_index
unfolding fetch
Serves-IsIndex number others s q ffi v e =
    let p = v.partition in
    let index = fetch-map (λ (f : Running). f.in_index) s.instances q ffi e in
    let (x, y, ex, ey, hold) =
      fetch-HoldsAll number (indexes s.instances) p.queues q p.laid_out
        (fetch-ok_lt (indexes s.instances) q ffi.in_index index) in
    let same : x ≡ ffi.in_index = same_list ex index in
    let layout = sym same ∙ hold.layout in
    rw layout (record {
      size = length y;
      head = refl;
      fits = omega (arith, hold.fits);
      read = λ j h k.
          let (z, r, c) = laid_out-read y hold.room j h k in
          let part = total-remove (count z) p.queues q ey in
          let whole = p.once z in (z, r, ground (arith, part, whole, c));
    })
