-- ===== src/Flow/Schedule/Grows.antt =====
-- Starting a clone more for an instance keeps what the scheduler relies on.
use nff_go.Base.{
  ℕ, ◌+◌, ◌-◌, ◌<◌, ◌≡◌, refl, sym, ap, ◌∙◌, arith, Bool, false, List, [], ◌∷◌, ◌++◌, length,
  length-set, length-append, Bool-cases, inl, inr, ◌==◌, append_nil, u8, Option, none, some,
}
use nff_go.Common.Errors.{Result, ok, Succeeds, Succeeds-value, Succeeds-bind, Succeeds-weaken}
use nff_go.Common.Slices.{fetch, fetch_lt}
use nff_go.Flow.Cores.{
  Core, Scheduler, Instance, get_core, found_core, take_core, set_core_by_index, start_new_clone,
}
use nff_go.Flow.Cores.Clones.{Started, on_core, no_core, start_new_clone-Started}
use nff_go.Flow.Cores.Table.{Taken, take_core-Taken, free_core-Flagged}
use nff_go.Flow.Cores.Running.{Runs, taken-Runs, released-Runs, count-after_self}
use nff_go.Flow.Schedule.State.{Running, Config, State, clone_number, change}
use nff_go.Flow.Schedule.Adding.{measure_on, measure, ensure_attempts, clone_started, add_clone_to}
use nff_go.Flow.Schedule.Parts.{put-set}
use nff_go.Flow.Schedule.Clones.{clones, beside, Runs-Same}
use nff_go.Flow.Schedule.Sizes.{SameSize, start_new_clone-SameSize}
use nff_go.Flow.Schedule.Serving.{
  Serves, ServesBy, Serves-beside, Serves-running, clone_number-le, change-Serves,
}

-- The core on which `measure` runs is given back.
measure_on-Runs :
    (c : Config) (s : Scheduler) (all : List ℕ) (number n : ℕ) (o : Option (List Core × ℕ × ℕ))
    → Runs s all
    → Taken s.cores o
    → Succeeds (λ r. Runs r.0 all × SameSize s r.0) (measure_on c number n (found_core s o))
unfolding measure_on found_core set_core_by_index
measure_on-Runs c s all number n none r t = (r, refl)
measure_on-Runs c s all number n (some (cores, id, i)) r (free, f) =
    let busy : Scheduler = record s { cores = cores; used_cores = u8 (s.used_cores + 1) } in
    let taken : Runs busy (all ++ ([] ++ (i ∷ []))) =
      taken-Runs s all [] i cores (rw (append_nil all) r) free f in
    let (freed, e, g) =
      free_core-Flagged cores i (taken.inside i (omega (arith, count-after_self s all [] i))) in
    let released = released-Runs busy all [] i freed taken g in
    rw e (Runs-Same _ (all ++ []) all (λ m w. ap m (append_nil all)) released, g.size ∙ f.size)

measure-Runs :
    (c : Config) (s : Scheduler) (all : List ℕ) (number n : ℕ)
    → Runs s all
    → Succeeds (λ r. Runs r.0 all × SameSize s r.0) (measure c s number n)
unfolding measure get_core
measure-Runs c s all number n r =
    measure_on-Runs c s all number n (take_core s.cores) r (take_core-Taken s.cores)

module _ (number : ℕ) (others : List ℕ) where
  -- The same instances, served as before.
  abbrev Unchanged : State → State → Type 0
  Unchanged s t = Serves number others t × (t.instances ≡ s.instances)

  ensure_attempts-Unchanged :
      (c : Config) (s : State) (n : ℕ)
      → Serves number others s
      → n < length s.p_attempts
      → Succeeds (Unchanged s) (ensure_attempts c s n)
  unfolding ensure_attempts
  ensure_attempts-Unchanged c s n v h =
      let (known, e) = fetch_lt s.p_attempts n h in
      elim (Bool-cases (known == 0)) [
        | inr f ↦ rw (e, f) (v, refl)
        | inl t ↦
            let all = others ++ clones s.instances in
            let (found, ef, (runs, size)) =
              Succeeds-value (λ (r : Scheduler × ℕ). Runs r.0 all × SameSize s.base r.0)
                (measure c s.base 1 n) (measure-Runs c s.base all 1 n v.runs) in
            rw (e, t, ef, put-set s.p_attempts n found.1 h)
              (
                record {
                  partition = v.partition;
                  runs = runs;
                  running = v.running;
                  table = length-set s.p_attempts n found.1 ∙ v.table ∙ sym size;
                },
                refl,
              )
      ]

  -- What a start of a clone leaves: as many instances, and the same ones where it did not succeed.
  abbrev pub Cloned : State → State × Bool → Type 0
  Cloned s (t, started) =
      ServesBy number others (length s.instances) t × (started ≡ false → t.instances ≡ s.instances)

  clone_started-Cloned :
      (s : State) (q : ℕ) (ffi : Running) (r : Scheduler × Instance × Result (Unit {0}))
      → Serves number others s
      → fetch s.instances q ≡ ok ffi
      → Started s.base ffi.base (beside others q s.instances) r
      → SameSize s.base r.0
      → Succeeds (Cloned s) (clone_started s q ffi r)
  unfolding clone_started
  clone_started-Cloned s q ffi _ v e (on_core {t} i free runs) size =
      let was = Serves-running number others s q ffi v e in
      let own = ffi.base.clone ++ (i ∷ []) in
      let next : Running = record ffi {
        base = record ffi.base { clone = own };
        decreased_speed = ffi.reported.packets;
        increased_speed = 0;
        pause = length own - 1;
      } in
      Succeeds-bind (Cloned s) (ServesBy number others (length s.instances))
        (change (record s { base = t }) q next) _
        (change-Serves number others s q ffi next t v e refl
          (record {
            cloned = omega (arith, length-append ffi.base.clone (i ∷ []));
            attempts = was.attempts;
          })
          runs size)
        (λ u w. (w, λ h. absurd (cc)))
  clone_started-Cloned s q ffi _ v e (no_core h) size = ((v, refl), λ k. refl)

  pub add_clone_to-Cloned :
      (c : Config) (s : State) (q : ℕ) (ffi : Running)
      → 1 < length others
      → Serves number others s
      → fetch s.instances q ≡ ok ffi
      → Succeeds (Cloned s) (add_clone_to c s q ffi)
  unfolding add_clone_to
  add_clone_to-Cloned c s q ffi two v e =
      let fits = clone_number-le number others s q ffi v e in
      let (ready, er, (w, same)) =
        Succeeds-value (Unchanged s) (ensure_attempts c s (clone_number ffi + 1)) (
          ensure_attempts-Unchanged c s (clone_number ffi + 1) v
            (omega (arith, v.table, fits, two))) in
      let here : fetch ready.instances q ≡ ok ffi =
        ap (λ (ws : List Running). fetch ws q) same ∙ e in
      rw er (
        Succeeds-weaken (Cloned s) (Cloned ready)
          (clone_started ready q ffi (start_new_clone ready.base ffi.base))
          (clone_started-Cloned ready q ffi (start_new_clone ready.base ffi.base) w here
            (start_new_clone-Started ready.base ffi.base (beside others q ready.instances)
              (Serves-beside number others ready q ffi w here))
            (start_new_clone-SameSize ready.base ffi.base))
          (λ r k. ((k.0.0, k.0.1 ∙ ap length same), λ h. k.1 h ∙ same)))
