-- ===== src/Flow/Instances/Reachable.antt =====
-- The instances of a flow function as the scheduler starts, splits and stops them, in any order.
use nff_go.Base.{ℕ, ◌≡◌, ◌≢◌, ◌<◌, List, length}
use nff_go.Common.Errors.{Result, ok}
use nff_go.Flow.Instances.First.{first_instance-Partition}
use nff_go.Flow.Instances.Partition.{Partition, split_instance-Partition, merge_instances-Partition}
use nff_go.Flow.Instances.{first_instance, split_instance, merge_instances}

-- The states that the scheduler can reach with `number` queues.
pub data Reachable (number : ℕ) : List (List ℕ) → Type 0 where
  started : {s : List (List ℕ)} → 0 < number → first_instance number ≡ ok s → Reachable number s
  split :
      {s t : List (List ℕ)} (q : ℕ)
      → Reachable number s
      → q < length s
      → split_instance q s ≡ ok t
      → Reachable number t
  stopped :
      {s t : List (List ℕ)} (from to : ℕ)
      → Reachable number s
      → from < length s
      → to < length s
      → from ≢ to
      → merge_instances from to s ≡ ok t
      → Reachable number t

same_result :
    (number : ℕ) {r : Result (List (List ℕ))} {s t : List (List ℕ)}
    → r ≡ ok s
    → r ≡ ok t
    → Partition number t
    → Partition number s
same_result number {r} {s} {t} e k p = let same : t ≡ s = cc in rw (← same) p

-- However the scheduler splits and stops instances of a flow function, each of its queues belongs to
-- exactly one instance.
pub Reachable-Partition : (number : ℕ) {s : List (List ℕ)} → Reachable number s → Partition number s
Reachable-Partition number (started h e) =
    let (t, k, p) = first_instance-Partition number h in same_result number e k p
Reachable-Partition number (split q r h e) =
    let (t, k, p) = split_instance-Partition number q _ (Reachable-Partition number r) h in
    same_result number e k p
Reachable-Partition number (stopped from to r hf ht ne e) =
    let (t, k, p) =
      merge_instances-Partition number from to _ (Reachable-Partition number r) hf ht ne in
    same_result number e k p
