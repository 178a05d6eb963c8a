-- ===== src/Flow/Schedule/Serving.antt =====
-- What holds between the rounds of the scheduler, and a change to one instance.
use nff_go.Base.{
  ℕ, ◌+◌, ◌≤◌, ◌<◌, ◌≡◌, refl, sym, ap, ◌∙◌, arith, List, ◌++◌, length, map, set, All, length-set,
  length-append,
}
use nff_go.Common.Errors.{ok, Succeeds}
use nff_go.Common.Slices.{fetch, fetch_lt, fetch-ok_lt}
use nff_go.Flow.Cores.{Scheduler}
use nff_go.Flow.Cores.Running.{Runs}
use nff_go.Flow.Instances.Partition.{Partition}
use nff_go.Flow.Instances.{remove}
use nff_go.Flow.Schedule.State.{Running, State, clone_number, change, update_pause, set_attempts}
use nff_go.Flow.Schedule.Parts.{put-set, set_same, fetch-map, map-set, All-fetch, All-set}
use nff_go.Flow.Schedule.Clones.{clones, beside, Runs-Same, set-Same, beside-Same, Runs-length}

-- An instance has a clone, and a report for 32 queues.
pub record IsRunning (ffi : Running) : Type 0 where
  pub cloned : 0 < clone_number ffi
  pub attempts : length ffi.reported.zero_attempts ≡ 32

abbrev pub indexes : List Running → List (List ℕ)
indexes ws = map (λ (ffi : Running). ffi.in_index) ws

-- The instances of a flow function with `number` queues share out its queues, and their clones and
-- those of `others` have a core each. `pAttempts` has a place for each core.
pub record Serves (number : ℕ) (others : List ℕ) (s : State) : Type 0 where
  pub partition : Partition number (indexes s.instances)
  pub runs : Runs s.base (others ++ clones s.instances)
  pub running : All IsRunning s.instances
  pub table : length s.p_attempts ≡ length s.base.cores

-- The same with the number of instances.
abbrev pub ServesBy : ℕ → List ℕ → ℕ → State → Type 0
ServesBy number others n s = Serves number others s × (length s.instances ≡ n)

module _ (number : ℕ) (others : List ℕ) where
  -- The cores of the clones beside instance `q`, and of its own.
  pub Serves-beside :
      (s : State) (q : ℕ) (ffi : Running)
      → Serves number others s
      → fetch s.instances q ≡ ok ffi
      → Runs s.base (beside others q s.instances ++ ffi.base.clone)
  Serves-beside s q ffi v e = Runs-Same s.base _ _ (beside-Same others s.instances q ffi e) v.runs

  pub Serves-running :
      (s : State) (q : ℕ) (ffi : Running)
      → Serves number others s
      → fetch s.instances q ≡ ok ffi
      → IsRunning ffi
  Serves-running s q ffi v e = All-fetch IsRunning s.instances q ffi v.running e

  -- The clones of an instance are fewer than the cores, by those of the others.
  pub clone_number-le :
      (s : State) (q : ℕ) (ffi : Running)
      → Serves number others s
      → fetch s.instances q ≡ ok ffi
      → length others + clone_number ffi ≤ length s.base.cores
  clone_number-le s q ffi v e = omega (
    arith,
    Runs-length s.base _ (Serves-beside s q ffi v e),
    length-append (beside others q s.instances) ffi.base.clone,
    length-append others (clones (remove q s.instances)),
  )

  -- An instance may change in everything but its queues, and its clones with the table of cores.
  pub change-Serves :
      (s : State) (q : ℕ) (old ffi : Running) (base : Scheduler)
      → Serves number others s
      → fetch s.instances q ≡ ok old
      → ffi.in_index ≡ old.in_index
      → IsRunning ffi
      → Runs base (beside others q s.instances ++ ffi.base.clone)
      → length base.cores ≡ length s.base.cores
      → Succeeds
          (ServesBy number others (length s.instances))
          (change (record s { base = base }) q ffi)
  unfolding change
  change-Serves s q old ffi base v e queues running runs size =
      let inside = fetch-ok_lt s.instances q old e in
      let index = fetch-map (λ (f : Running). f.in_index) s.instances q old e in
      let kept : indexes (set s.instances q ffi) ≡ indexes s.instances =
        map-set (λ (f : Running). f.in_index) s.instances q ffi
        ∙ ap (λ (t : List ℕ). set (indexes s.instances) q t) queues
        ∙ set_same (indexes s.instances) q old.in_index index in
      rw (put-set s.instances q ffi inside) (
        record {
          partition = rw kept v.partition;
          runs = Runs-Same base _ _ (set-Same others s.instances q old e ffi) runs;
          running = All-set IsRunning s.instances q ffi v.running running;
          table = v.table ∙ sym size;
        },
        length-set s.instances q ffi,
      )

  -- A change that keeps the clones.
  pub change-same-Serves :
      (s : State) (q : ℕ) (old ffi : Running)
      → Serves number others s
      → fetch s.instances q ≡ ok old
      → ffi.in_index ≡ old.in_index
      → ffi.base.clone ≡ old.base.clone
      → length ffi.reported.zero_attempts ≡ 32
      → Succeeds (ServesBy number others (length s.instances)) (change s q ffi)
  change-same-Serves s q old ffi v e queues same attempts =
      let was = Serves-running s q old v e in
      change-Serves s q old ffi s.base v e queues
        (record { cloned = omega (arith, was.cloned, ap length same); attempts = attempts })
        (rw same (Serves-beside s q old v e)) refl

  pub update_pause-Serves :
      (s : State) (q pause : ℕ)
      → Serves number others s
      → q < length s.instances
      → Succeeds (ServesBy number others (length s.instances)) (update_pause s q pause)
  unfolding update_pause
  update_pause-Serves s q pause v h =
      let (ffi, e) = fetch_lt s.instances q h in
      let was = Serves-running s q ffi v e in
      rw e (change-same-Serves s q ffi (record ffi { pause = pause }) v e refl refl was.attempts)

-- Writing one of the 32 places changes nothing else.
pub record Attempted (ffi out : Running) : Type 0 where
  pub queues : out.in_index ≡ ffi.in_index
  pub clone : out.base.clone ≡ ffi.base.clone
  pub attempts : length out.reported.zero_attempts ≡ 32

pub set_attempts-Attempted :
    (ffi : Running) (z v : ℕ)
    → length ffi.reported.zero_attempts ≡ 32
    → z < 32
    → Succeeds (Attempted ffi) (set_attempts ffi z v)
unfolding set_attempts
set_attempts-Attempted ffi z v h k =
    rw (put-set ffi.reported.zero_attempts z v (omega (arith, h, k))) (record {
      queues = refl;
      clone = refl;
      attempts = length-set ffi.reported.zero_attempts z v ∙ h;
    })
