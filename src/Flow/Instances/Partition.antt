-- ===== src/Flow/Instances/Partition.antt =====
-- The instances of a flow function share out its queues: each queue belongs to one instance.
use nff_go.Base.{
  ℕ, ◌+◌, ◌≤◌, ◌<◌, ◌≡◌, ◌≢◌, refl, sym, ap, ◌∙◌, arith, List, [], ◌∷◌, ◌++◌, length, set, take,
  drop, length-append, ltb, count, count-append, if◌then◌else◌,
}
use nff_go.Common.Errors.{ok}
use nff_go.Base.{take-drop}
use nff_go.Flow.Queues.Moves.{kept, construct_duplicated_index-Holds, merge_index-Holds}
use nff_go.Flow.Queues.{fetch}
use nff_go.Flow.Instances.{remove, split_instance, merge_instances}
use nff_go.Flow.Instances.Total.{
  total, HoldsAll, fetch-HoldsAll, put-set, set-HoldsAll, remove-HoldsAll, append-HoldsAll,
  total-append_one, total-set, total-remove, fetch-set_ne,
}

-- Every queue below `number` belongs to exactly one of the instances, and no other queue to any;
-- every list is laid out with room for all queues.
pub record Partition (number : ℕ) (instances : List (List ℕ)) : Type 0 where
  pub queues : List (List ℕ)
  pub laid_out : HoldsAll number instances queues
  pub size : total length queues ≡ number
  pub once : (q : ℕ) → total (count q) queues ≡ (if ltb q number then 1 else 0)

-- A measure that adds up over the parts of a list.
abbrev Adds : (List ℕ → ℕ) → Type 0
Adds f = (xs ys : List ℕ) → f (xs ++ ys) ≡ f xs + f ys

-- When instance `q` hands queues to a new instance, no index is out of range, the new instance comes
-- last, and each queue still belongs to exactly one instance.
pub split_instance-Partition :
    (number q : ℕ) (instances : List (List ℕ))
    → Partition number instances
    → q < length instances
    → (out : List (List ℕ)) × (split_instance q instances ≡ ok out) × Partition number out
unfolding split_instance
split_instance-Partition number q instances p h =
    let (x, y, ex, ey, hold) = fetch-HoldsAll number instances p.queues q p.laid_out h in
    let (old, new, ed, hold_old, hold_new) = construct_duplicated_index-Holds x y number hold in
    let ys = set p.queues q (take (kept y) y) ++ (drop (kept y) y ∷ []) in
    let sum : (f : List ℕ → ℕ) → Adds f → total f ys ≡ total f p.queues = λ f adds. omega (
      arith,
      total-append_one f (set p.queues q (take (kept y) y)) (drop (kept y) y),
      total-set f p.queues q (take (kept y) y) ey,
      adds (take (kept y) y) (drop (kept y) y),
      ap f (take-drop (kept y) y),
    ) in
    (
      set instances q old ++ (new ∷ []),
      (rw (ex, ed, put-set instances q old h) refl),
      record {
        queues = ys;
        laid_out =
            append-HoldsAll number _ _ new _ (set-HoldsAll number _ _ q old _ p.laid_out hold_old)
              hold_new;
        size = sum length length-append ∙ p.size;
        once = λ n. sum (count n) (count-append n) ∙ p.once n;
      },
    )

-- When one instance stops and hands its queues to another, no index is out of range, and each queue
-- still belongs to exactly one instance.
pub merge_instances-Partition :
    (number from to : ℕ) (instances : List (List ℕ))
    → Partition number instances
    → from < length instances
    → to < length instances
    → from ≢ to
    → (out : List (List ℕ)) × (merge_instances from to instances ≡ ok out) × Partition number out
unfolding merge_instances
merge_instances-Partition number from to instances p hf ht ne =
    let (x, y, ex, ey, hold) = fetch-HoldsAll number instances p.queues from p.laid_out hf in
    let (u, v, eu, ev, hold_to) = fetch-HoldsAll number instances p.queues to p.laid_out ht in
    let still : (w : List ℕ) → fetch (set p.queues to w) from ≡ ok y =
      λ w. fetch-set_ne p.queues to from w (λ e. ne (sym e)) ∙ ey in
    let fits : length v + length y ≤ number = omega (
      arith,
      p.size,
      total-set length p.queues to [] ev,
      total-remove length (set p.queues to []) from (still []),
    ) in
    let (merged, em, hold_merged) = merge_index-Holds x y u v number number hold hold_to fits in
    let ys = remove from (set p.queues to (v ++ y)) in
    let sum : (f : List ℕ → ℕ) → Adds f → total f ys ≡ total f p.queues = λ f adds. omega (
      arith,
      total-remove f (set p.queues to (v ++ y)) from (still (v ++ y)),
      total-set f p.queues to (v ++ y) ev,
      adds v y,
    ) in
    (
      remove from (set instances to merged),
      (rw (ex, eu, em, put-set instances to merged ht) refl),
      record {
        queues = ys;
        laid_out =
            remove-HoldsAll number _ _ from
              (set-HoldsAll number _ _ to merged _ p.laid_out hold_merged);
        size = sum length length-append ∙ p.size;
        once = λ n. sum (count n) (count-append n) ∙ p.once n;
      },
    )
