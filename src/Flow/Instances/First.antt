-- ===== src/Flow/Instances/First.antt =====
-- The first instance of a flow function gets all its queues.
use nff_go.Base.{
  ℕ, count, zero, suc, ◌+◌, ◌<◌, ◌≡◌, refl, sym, ap, ap₂, false, ◌∙◌, arith, List, [], ◌∷◌, ◌++◌,
  length, length-replicate, replicate, ◌==◌, ltb, ◌&&◌, leb, if◌then◌else◌,
}
use nff_go.Common.Errors.{Result, ok, ◌>>=◌}
use nff_go.Base.{append_nil, append_one, length-append_one}
use nff_go.Common.Slices.{put-append}
use nff_go.Flow.Queues.{put, number_queues, construct_new_index}
use nff_go.Flow.Instances.{first_instance}
use nff_go.Flow.Instances.Total.{total}
use nff_go.Flow.Instances.Partition.{Partition}

-- The `left` queues from `q` on.
unfoldable numbers : ℕ → ℕ → List ℕ
numbers q zero = []
numbers q (suc left) = q ∷ numbers (q + 1) left

length-numbers : (left q : ℕ) → length (numbers q left) ≡ left
unfolding numbers
length-numbers zero q = refl
length-numbers (suc left) q = ap suc (length-numbers left (q + 1))

count-numbers :
    (c left q : ℕ) → count c (numbers q left) ≡ (if leb q c && ltb c (q + left) then 1 else 0)
unfolding numbers count
count-numbers c zero q = ground arith
count-numbers c (suc left) q = ground (arith, count-numbers c left (q + 1))

number_queues-numbers :
    (left q : ℕ) (xs ys : List ℕ)
    → length xs ≡ q + 1
    → length ys ≡ left
    → number_queues left q (xs ++ ys) ≡ ok (xs ++ numbers q left)
unfolding number_queues numbers
number_queues-numbers zero q xs [] e k = refl
number_queues-numbers zero q xs (y ∷ ys) e k = absurd (omega (arith, k))
number_queues-numbers (suc left) q xs [] e k = absurd (omega (arith, k))
number_queues-numbers (suc left) q xs (y ∷ ys) e k =
    let rest =
      number_queues-numbers left (q + 1) (xs ++ (q ∷ [])) ys
        (omega (arith, e, length-append_one xs q)) (omega (arith, k)) in
    rw (← e, put-append xs y q ys)
      (rw (append_one xs q ys, append_one xs q (numbers (q + 1) left), ← e) at rest)

construct_new_index-eq : (n : ℕ) → construct_new_index (suc n) ≡ ok (suc n ∷ numbers 0 (suc n))
unfolding construct_new_index put
construct_new_index-eq n =
    let size : suc n + 1 ≡ suc (suc n) = omega arith in
    let positive : (suc n == 0) ≡ false = ground arith in
    let numbered : number_queues (suc n) 0 (replicate (suc n + 1) 0) ≡ ok (0 ∷ numbers 0 (suc n)) =
      ap (λ (t : ℕ). number_queues (suc n) 0 (replicate t 0)) size
      ∙ number_queues-numbers (suc n) 0 (0 ∷ []) (replicate (suc n) 0) refl
          (length-replicate (suc n) 0) in
    rw positive (ap (λ (r : Result (List ℕ)). r >>= λ t. put t 0 (suc n)) numbered)

-- With at least one queue, the first instance has every queue of the flow function, and no index is
-- out of range.
pub first_instance-Partition :
    (number : ℕ)
    → 0 < number
    → (out : List (List ℕ)) × (first_instance number ≡ ok out) × Partition number out
unfolding first_instance
first_instance-Partition zero h = absurd (omega arith)
first_instance-Partition (suc n) h = (
  (suc n ∷ numbers 0 (suc n)) ∷ [],
  (rw (construct_new_index-eq n) refl),
  record {
    queues = numbers 0 (suc n) ∷ [];
    laid_out = (
      record {
        room = [];
        layout =
            ap₂ (λ (t : ℕ) (u : List ℕ). t ∷ u) (sym (length-numbers (suc n) 0))
              (sym (append_nil (numbers 0 (suc n))));
        fits = omega (arith, length-numbers (suc n) 0);
      },
      tt,
    );
    size = unfold total in omega (arith, length-numbers (suc n) 0);
    once = λ q. unfold total in ground (arith, count-numbers q (suc n) 0);
  },
)
