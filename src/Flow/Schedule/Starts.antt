-- ===== src/Flow/Schedule/Starts.antt =====
-- Starting an instance or a clone keeps what the scheduler relies on.
use nff_go.Base.{
  ℕ, ◌≤◌, ◌<◌, ◌≡◌, refl, sym, ap, ◌∙◌, arith, Bool, false, List, [], ◌∷◌, ◌++◌, length, set,
  All-append, length-set, length-append_one, append_nil,
}
use nff_go.Common.Errors.{Result, ok, err, panic, ◌>>=◌, Succeeds}
use nff_go.Common.Slices.{fetch, put, fetch-ok_lt}
use nff_go.Flow.Cores.{Scheduler, Instance, start_new_clone}
use nff_go.Flow.Cores.Clones.{Started, on_core, no_core, start_new_clone-Started}
use nff_go.Flow.Queues.{construct_zero_index, construct_duplicated_index}
use nff_go.Flow.Instances.{split_instance}
use nff_go.Flow.Instances.Partition.{split_instance-Partition}
use nff_go.Flow.Schedule.State.{Running, State, fresh, change}
use nff_go.Flow.Schedule.Adding.{add_instance, split_running}
use nff_go.Flow.Schedule.Parts.{put-set, fetch-map, map-set, map-append, length-map, All-set}
use nff_go.Flow.Schedule.Clones.{
  clones, Same, Runs-Same, set-Same, beside-Same, append-Same, append-SameLeft,
}
use nff_go.Flow.Schedule.Sizes.{SameSize, start_new_clone-SameSize}
use nff_go.Flow.Schedule.Serving.{IsRunning, indexes, Serves, Serves-running}

split-case :
    (lists out : List (List ℕ)) (q : ℕ) (r : Result (List ℕ × List ℕ))
    → q < length lists
    → (r >>= λ parts. put lists q parts.0 >>= λ next. ok (next ++ (parts.1 ∷ []))) ≡ ok out
    → (parts : List ℕ × List ℕ) × (r ≡ ok parts) × (out ≡ set lists q parts.0 ++ (parts.1 ∷ []))
split-case lists out q (ok parts) h e =
    let k = rw (put-set lists q parts.0 h) at e in (parts, refl, (cc))
split-case lists out q (err c) h e = cc
split-case lists out q panic h e = cc

split-value :
    (ws : List Running) (out : List (List ℕ)) (q : ℕ) (ffi : Running)
    → fetch ws q ≡ ok ffi
    → split_instance q (indexes ws) ≡ ok out
    → (parts : List ℕ × List ℕ) × (construct_duplicated_index ffi.in_index
          (construct_zero_index ffi.in_index)
        ≡ ok parts)
      × (out ≡ set (indexes ws) q parts.0 ++ (parts.1 ∷ []))
unfolding split_instance
split-value ws out q ffi e m =
    let index = fetch-map (λ (f : Running). f.in_index) ws q ffi e in
    split-case (indexes ws) out q
      (construct_duplicated_index ffi.in_index (construct_zero_index ffi.in_index))
      (fetch-ok_lt (indexes ws) q ffi.in_index index) (rw index at m)

module _ (number : ℕ) (others : List ℕ) where
  -- What a start of an instance leaves of `n` instances: all of them, where it did not succeed.
  abbrev pub Grown : ℕ → State × Bool → Type 0
  Grown n (s, started) =
      Serves number others s × (n ≤ length s.instances) × (started ≡ false → length s.instances ≡ n)

  add_instance-Grown :
      (s : State) (q : ℕ) (ffi : Running) (r : Scheduler × Instance × Result (Unit {0}))
      → Serves number others s
      → fetch s.instances q ≡ ok ffi
      → Started s.base
          (fresh (construct_zero_index ffi.in_index)).base
          (others ++ clones s.instances)
          r
      → SameSize s.base r.0
      → Succeeds (Grown (length s.instances)) (add_instance s q ffi r)
  unfolding add_instance change
  add_instance-Grown s q ffi _ v e (on_core {t} i free runs) size =
      let ws = s.instances in
      let inside = fetch-ok_lt ws q ffi e in
      let (lists, es, part) =
        split_instance-Partition number q (indexes ws) v.partition
          (omega (arith, length-map (λ (f : Running). f.in_index) ws, inside)) in
      let (parts, ep, el) = split-value ws lists q ffi e es in
      let kept : Running = record ffi { in_index = parts.0 } in
      let started : Running = record (fresh parts.1) {
        base = record { clone = i ∷ []; removed = false };
      } in
      let was = Serves-running number others s q ffi v e in
      let lists-eq : indexes (set ws q kept ++ (started ∷ [])) ≡ lists =
        map-append (λ (f : Running). f.in_index) (set ws q kept) (started ∷ [])
        ∙ ap (λ (t : List (List ℕ)). t ++ (parts.1 ∷ []))
            (map-set (λ (f : Running). f.in_index) ws q kept)
        ∙ sym el in
      let same : Same ((others ++ clones ws) ++ (i ∷ []))
          (others ++ clones (set ws q kept ++ (started ∷ []))) =
        λ m w.
          append-SameLeft (others ++ clones ws) (others ++ clones (set ws q kept)) (i ∷ [])
            (λ m' w'. beside-Same others ws q ffi e m' w' ∙ set-Same others ws q ffi e kept m' w') m
            w
          ∙ append-Same others (set ws q kept) started m w in
      rw (ep, put-set ws q kept inside)
        (
          record {
            partition = rw lists-eq part;
            runs = Runs-Same t _ _ same runs;
            running =
                All-append IsRunning (set ws q kept) (started ∷ [])
                  (All-set IsRunning ws q kept v.running
                    (record { cloned = was.cloned; attempts = was.attempts }))
                  (record { cloned = omega arith; attempts = refl }, tt);
            table = v.table ∙ sym size;
          },
          (omega (arith, length-append_one (set ws q kept) started, length-set ws q kept)),
          λ h. absurd (cc),
        )
  add_instance-Grown s q ffi _ v e (no_core h) size = (v, omega arith, λ k. refl)

  pub split_running-Grown :
      (s : State) (q : ℕ) (ffi : Running)
      → Serves number others s
      → fetch s.instances q ≡ ok ffi
      → Succeeds (Grown (length s.instances)) (split_running s q ffi)
  unfolding split_running
  split_running-Grown s q ffi v e =
      let first = (fresh (construct_zero_index ffi.in_index)).base in
      let all = others ++ clones s.instances in
      add_instance-Grown s q ffi (start_new_clone s.base first) v e
        (start_new_clone-Started s.base first all (rw (append_nil all) v.runs))
        (start_new_clone-SameSize s.base first)
