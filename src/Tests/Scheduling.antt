-- ===== src/Tests/Scheduling.antt =====
-- A flow function with four queues, and a scheduler with two cores.
use nff_go.Base.{ℕ, zero, suc, ◌≡◌, ◌<◌, refl, arith, List, [], ◌∷◌, count, true, false}
use nff_go.Common.Errors.{ok}
use nff_go.Flow.Cores.{Scheduler, Instance, start_new_clone, stop_clones}
use nff_go.Flow.Cores.Clones.{Started, start_new_clone-Started, stop_clones-Runs}
use nff_go.Flow.Cores.Running.{Runs}
use nff_go.Flow.Cores.Table.{free_at}
use nff_go.Flow.Instances.{first_instance, split_instance, merge_instances}
use nff_go.Flow.Instances.Partition.{Partition, merge_instances-Partition}
use nff_go.Flow.Instances.Reachable.{Reachable, started, split, stopped, Reachable-Partition}
use nff_go.Flow.Queues.{construct_zero_index}

abbrev pub one : List (List ℕ)
one = (4 ∷ 0 ∷ 1 ∷ 2 ∷ 3 ∷ []) ∷ []

abbrev two : List (List ℕ)
two = (2 ∷ 0 ∷ 1 ∷ 2 ∷ 3 ∷ []) ∷ (2 ∷ 2 ∷ 3 ∷ 0 ∷ 0 ∷ []) ∷ []

abbrev merged : List (List ℕ)
merged = (4 ∷ 2 ∷ 3 ∷ 0 ∷ 1 ∷ []) ∷ []

first_instance-one : first_instance 4 ≡ ok one
unfolding first_instance
first_instance-one = refl

split_instance-two : split_instance 0 one ≡ ok two
unfolding split_instance construct_zero_index
split_instance-two = refl

merge_instances-merged : merge_instances 0 1 two ≡ ok merged
unfolding merge_instances
merge_instances-merged = refl

one-Reachable : Reachable 4 one
one-Reachable = started (omega arith) first_instance-one

two-Reachable : Reachable 4 two
two-Reachable = split 0 one-Reachable (omega arith) split_instance-two

Reachable-Partition_example : Partition 4 merged
Reachable-Partition_example =
    Reachable-Partition 4
      (stopped 0 1 two-Reachable (omega arith) (omega arith) (λ e. cc e) merge_instances-merged)

pub one-Partition : Partition 4 one
one-Partition = Reachable-Partition 4 one-Reachable

two-Partition : Partition 4 two
two-Partition = Reachable-Partition 4 two-Reachable

merge_instances-Partition_example :
    (out : List (List ℕ)) × (merge_instances 0 1 two ≡ ok out) × Partition 4 out
merge_instances-Partition_example =
    merge_instances-Partition 4 0 1 two two-Partition (omega arith) (omega arith) (λ e. cc e)

-- A scheduler with two cores, the first of which is busy.
abbrev busy_first : Scheduler
busy_first = record {
  cores = record { id = 3; is_free = false } ∷ record { id = 5; is_free = true } ∷ [];
  used_cores = 1;
}

inside_first : (i : ℕ) → 0 < count i (0 ∷ []) → i < 2
unfolding count
inside_first i h = ground (arith, h)

busy_first-busy : (i : ℕ) → 0 < count i (0 ∷ []) → free_at busy_first.cores i ≡ false
unfolding count free_at
busy_first-busy zero h = refl
busy_first-busy (suc i) h = absurd (ground (arith, h))

busy_first-idle : (i : ℕ) → i < 2 → count i (0 ∷ []) ≡ 0 → free_at busy_first.cores i ≡ true
unfolding count free_at
busy_first-idle zero h z = absurd (ground (arith, z))
busy_first-idle (suc zero) h z = refl
busy_first-idle (suc (suc i)) h z = absurd (omega (arith, h))

busy_first-Runs : Runs busy_first (0 ∷ [])
busy_first-Runs = record {
  used = refl;
  single = λ i. unfold count in ground arith;
  inside = inside_first;
  busy = busy_first-busy;
  idle = busy_first-idle;
}

abbrev no_clone : Instance
no_clone = record { clone = []; removed = false }

start_new_clone-Started_example :
    Started busy_first no_clone (0 ∷ []) (start_new_clone busy_first no_clone)
start_new_clone-Started_example =
    start_new_clone-Started busy_first no_clone (0 ∷ []) busy_first-Runs

stop_clones-Runs_example :
    (t : Scheduler) × (out : Instance) × (stop_clones 1 busy_first
        (record { clone = 0 ∷ []; removed = false })
      ≡ ok (t, out))
    × (out.clone ≡ [])
    × Runs t []
stop_clones-Runs_example =
    stop_clones-Runs 1 busy_first (record { clone = 0 ∷ []; removed = false }) [] refl
      busy_first-Runs
