-- ===== src/Flow/Instances.antt =====
-- The instances of one flow function in flow/scheduler.go, by their lists of queues: the first
-- instance, a split for a new instance, and `stopInstance` for two different instances.
pub mod Total
pub mod Partition
pub mod First
pub mod Reachable
use nff_go.Base.{ℕ, zero, suc, ◌+◌, List, [], ◌∷◌, ◌++◌}
use nff_go.Common.Errors.{Result, ok, err, panic, ◌>>=◌}
use nff_go.Flow.Queues.{
  fetch, put, construct_new_index, construct_zero_index, construct_duplicated_index, merge_index,
}

-- `append(ff.instance[:from], ff.instance[from+1:]...)`
unfoldable pub remove {ℓ} : {A : Type ℓ} → ℕ → List A → List A
remove i [] = []
remove zero (x ∷ xs) = xs
remove (suc i) (x ∷ xs) = x ∷ remove i xs

-- `systemStart` gives the first instance all queues.
unfoldable pub first_instance : ℕ → Result (List (List ℕ))
unfolding construct_new_index
first_instance in_index_number = do index ← construct_new_index in_index_number; ok (index ∷ [])

-- `schedule` starts an instance with an empty list, and then moves queues of instance `q` to it.
unfoldable pub split_instance : ℕ → List (List ℕ) → Result (List (List ℕ))
unfolding fetch put construct_duplicated_index
split_instance q instances = do
  index ← fetch instances q
  lists ← construct_duplicated_index index (construct_zero_index index)
  next ← put instances q lists.0
  ok (next ++ (lists.1 ∷ []))

unfoldable pub merge_instances : ℕ → ℕ → List (List ℕ) → Result (List (List ℕ))
unfolding fetch put merge_index remove
merge_instances from to instances = do
  src ← fetch instances from
  dst ← fetch instances to
  merged ← merge_index src dst
  next ← put instances to merged
  ok (remove from next)
