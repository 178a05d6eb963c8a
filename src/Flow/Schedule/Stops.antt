-- ===== src/Flow/Schedule/Stops.antt =====
-- Stopping one clone of an instance, and one instance for another, keep what the scheduler relies on.
use nff_go.Base.{
  ℕ, ◌+◌, ◌-◌, ◌*◌, ◌<◌, ◌≡◌, ◌≢◌, refl, sym, ap, ◌∙◌, arith, List, length, set, length-set, ltb,
  ◌||◌, u64, Bool-cases, inl, inr,
}
use nff_go.Common.Errors.{Result, ok, err, panic, ◌>>=◌, Succeeds, Succeeds-value, Returns-eq}
use nff_go.Common.Slices.{fetch, put, fetch_lt, fetch-ok_lt}
use nff_go.Flow.Cores.{stop_clone, stop_clones}
use nff_go.Flow.Cores.Clones.{stop_clone-one, stop_clones-Runs}
use nff_go.Flow.Queues.{merge_index}
use nff_go.Flow.Instances.{remove, merge_instances}
use nff_go.Flow.Instances.Partition.{merge_instances-Partition}
use nff_go.Flow.Schedule.State.{Running, Config, State, clone_number, set_attempts}
use nff_go.Flow.Schedule.Removing.{wasted_time, remove_clone, stop_instance}
use nff_go.Flow.Schedule.Parts.{
  put-set, fetch-map, map-set, map-remove, length-map, All-set, All-remove, length-remove,
}
use nff_go.Flow.Schedule.Clones.{beside, Runs-Same, merge-Same}
use nff_go.Flow.Schedule.Sizes.{stop_clone-SameSize, stop_clones-SameSize, SameSize}
use nff_go.Flow.Schedule.Serving.{
  IsRunning, indexes, Serves, ServesBy, Serves-beside, Serves-running, clone_number-le,
  change-Serves, change-same-Serves, Attempted, set_attempts-Attempted,
}

module _ (number : ℕ) (others : List ℕ) where
  pub remove_clone-Serves :
      (c : Config) (s : State) (q : ℕ) (ffi : Running)
      → 0 < length others
      → Serves number others s
      → fetch s.instances q ≡ ok ffi
      → 1 < clone_number ffi
      → Succeeds (ServesBy number others (length s.instances)) (remove_clone c s q ffi)
  unfolding remove_clone
  remove_clone-Serves c s q ffi some v e many =
      let was = Serves-running number others s q ffi v e in
      let (z, ez) = fetch_lt ffi.reported.zero_attempts 0 (omega (arith, was.attempts)) in
      let (p, ep) =
        fetch_lt s.p_attempts (clone_number ffi)
          (omega (arith, v.table, clone_number-le number others s q ffi v e, some)) in
      let (scaled, es, at) =
        Succeeds-value (Attempted ffi) (set_attempts ffi 0 (u64 (z * p)))
          (set_attempts-Attempted ffi 0 (u64 (z * p)) was.attempts (omega arith)) in
      let stops =
        ltb (wasted_time c) (u64 (z * p)) || ltb ffi.reported.packets ffi.decreased_speed in
      elim (Bool-cases stops) [
        | inl t ↦
            let (base, out, eo, size, rest) =
              stop_clone-one (clone_number ffi - 1) s.base ffi.base (beside others q s.instances)
                (omega (arith, many)) (Serves-beside number others s q ffi v e) in
            rw (ez, ep, es, t, eo)
              (change-Serves number others s q ffi
                (record scaled {
                  base = out;
                  increased_speed = ffi.reported.packets;
                  decreased_speed = 0;
                  pause = length out.clone - 1;
                })
                base v e at.queues
                (record { cloned = omega (arith, size, many); attempts = at.attempts }) rest
                (Returns-eq (λ next. SameSize s.base next.0) (stop_clone s.base ffi.base)
                  (base, out) eo (stop_clone-SameSize s.base ffi.base)))
        | inr f ↦
            rw (ez, ep, es, f)
              (change-same-Serves number others s q ffi scaled v e at.queues at.clone at.attempts)
      ]

merge-case :
    (lists out : List (List ℕ)) (from to : ℕ) (r : Result (List ℕ))
    → to < length lists
    → (r >>= λ merged. put lists to merged >>= λ next. ok (remove from next)) ≡ ok out
    → (merged : List ℕ) × (r ≡ ok merged) × (out ≡ remove from (set lists to merged))
merge-case lists out from to (ok merged) h e =
    let k = rw (put-set lists to merged h) at e in (merged, refl, (cc))
merge-case lists out from to (err c) h e = cc
merge-case lists out from to panic h e = cc

merge-value :
    (ws : List Running) (out : List (List ℕ)) (from to : ℕ) (ffi target : Running)
    → fetch ws from ≡ ok ffi
    → fetch ws to ≡ ok target
    → merge_instances from to (indexes ws) ≡ ok out
    → (merged : List ℕ) × (merge_index ffi.in_index target.in_index ≡ ok merged)
      × (out ≡ remove from (set (indexes ws) to merged))
unfolding merge_instances
merge-value ws out from to ffi target e k m =
    let source = fetch-map (λ (f : Running). f.in_index) ws from ffi e in
    let dest = fetch-map (λ (f : Running). f.in_index) ws to target k in
    merge-case (indexes ws) out from to (merge_index ffi.in_index target.in_index)
      (fetch-ok_lt (indexes ws) to target.in_index dest) (rw (source, dest) at m)

module _ (number : ℕ) (others : List ℕ) where
  pub stop_instance-Serves :
      (s : State) (from to : ℕ)
      → Serves number others s
      → from < length s.instances
      → to < length s.instances
      → from ≢ to
      → Succeeds
          (λ t. Serves number others t × (length t.instances + 1 ≡ length s.instances))
          (stop_instance s from to)
  unfolding stop_instance
  stop_instance-Serves s from to v hf ht ne =
      let ws = s.instances in
      let (ffi, ef) = fetch_lt ws from hf in
      let (target, et) = fetch_lt ws to ht in
      let size = length-map (λ (f : Running). f.in_index) ws in
      let (lists, em, part) =
        merge_instances-Partition number from to (indexes ws) v.partition (omega (arith, size, hf))
          (omega (arith, size, ht)) ne in
      let (merged, ei, el) = merge-value ws lists from to ffi target ef et em in
      let (base, out, es, none_left, left) =
        stop_clones-Runs (clone_number ffi) s.base ffi.base (beside others from ws) refl
          (Serves-beside number others s from ffi v ef) in
      let next : Running = record target { in_index = merged } in
      let was = Serves-running number others s to target v et in
      let lists-eq : indexes (remove from (set ws to next)) ≡ lists =
        map-remove (λ (f : Running). f.in_index) from (set ws to next)
        ∙ ap (remove from) (map-set (λ (f : Running). f.in_index) ws to next)
        ∙ sym el in
      let same_cores =
        Returns-eq (λ last. SameSize s.base last.0) (stop_clones (clone_number ffi) s.base ffi.base)
          (base, out) es (stop_clones-SameSize (clone_number ffi) s.base ffi.base) in
      rw (ef, es, et, ei, put-set ws to next ht)
        (
          record {
            partition = rw lists-eq part;
            runs =
                Runs-Same base _ _
                  (merge-Same others ws from to ffi target next ef et (λ h. ne (sym h)) refl) left;
            running = All-remove IsRunning (set ws to next) from (
                All-set IsRunning ws to next v.running
                  (record { cloned = was.cloned; attempts = was.attempts }));
            table = v.table ∙ sym same_cores;
          },
          (omega (
            arith,
            length-remove (set ws to next) from (omega (arith, length-set ws to next, hf)),
            length-set ws to next,
          )),
        )
