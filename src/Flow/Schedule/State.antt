-- ===== src/Flow/Schedule/State.antt =====
-- The instances of a flow function as the loop `schedule` of flow/scheduler.go sees them, and what it
-- reads to decide. `instanceNumber` is the number of instances and `cloneNumber` that of the clones.
use nff_go.Base.{
  ℕ, zero, suc, ◌+◌, ◌-◌, ◌*◌, ◌/◌, Bool, false, List, [], ◌∷◌, length, drop, replicate,
  if◌then◌else◌, ◌==◌, u64,
}
use nff_go.Common.Errors.{Result, ok, panic, ◌>>=◌}
use nff_go.Common.Slices.{fetch, put}
use nff_go.Flow.Cores

-- `reportPair`; `zero_attempts` is an array of 32 words.
pub record Report : Type 0 where
  pub packets : ℕ
  pub bytes : ℕ
  pub zero_attempts : List ℕ

-- An instance: its clones and whether one was removed, its list of queues, and its speeds.
pub record Running : Type 0 where
  pub base : Cores.Instance
  pub in_index : List ℕ
  pub reported : Report
  pub increased_speed : ℕ
  pub decreased_speed : ℕ
  pub pause : ℕ

-- The rings that a flow function reads and writes, by number: the `Parameters` of its kinds.
pub data Parameters : Type 0 where
  segment : (ins : List ℕ) → (outs : List (List ℕ)) → Parameters
  copy : (ins outs copies : List ℕ) → Parameters
  receive : (port : ℕ) → (outs : List ℕ) → Parameters
  generate : (outs : List ℕ) → Parameters

-- What the scheduler reads: its options and tables; `count`, the packets in a ring at that moment;
-- `rss_above`, whether a queue of a port holds more than so many; and `measured`, the time that
-- `measure` finds on the core it is given.
pub record Config : Type 0 where
  pub off : Bool
  pub off_remove : Bool
  pub anyway : Bool
  pub max_packets_to_clone : ℕ
  pub max_recv : ℕ
  pub sched_time : ℕ
  pub n_attempts : List ℕ
  pub count : ℕ → ℕ
  pub rss_above : ℕ → ℕ → ℕ → Bool
  pub measured : ℕ → ℕ → ℕ

pub record State : Type 0 where
  pub base : Cores.Scheduler
  pub p_attempts : List ℕ
  pub instances : List Running

abbrev pub clone_number : Running → ℕ
clone_number ffi = length ffi.base.clone

abbrev pub no_report : Report
no_report = record { packets = 0; bytes = 0; zero_attempts = replicate 32 0 }

-- The instance that `startNewInstance` makes, before its first clone starts.
abbrev pub fresh : List ℕ → Running
fresh in_index = record {
  base = record { clone = []; removed = false };
  in_index = in_index;
  reported = no_report;
  increased_speed = 0;
  decreased_speed = 0;
  pause = 0;
}

-- Instance `q` changed in place.
unfoldable pub change : State → ℕ → Running → Result State
unfolding put
change s q ffi = do instances ← put s.instances q ffi; ok (record s { instances = instances })

-- `updatePause`; its messages to the clones are left out.
unfoldable pub update_pause : State → ℕ → ℕ → Result State
unfolding fetch change
update_pause s q pause = do ffi ← fetch s.instances q; change s q (record ffi { pause = pause })

-- One place of the array of zero attempts written.
unfoldable pub set_attempts : Running → ℕ → ℕ → Result Running
unfolding put
set_attempts ffi z v = do
  attempts ← put ffi.reported.zero_attempts z v
  ok (record ffi { reported = record ffi.reported { zero_attempts = attempts } })

unfoldable pub normalize : Report → ℕ → Result (ℕ × ℕ)
normalize r time =
    if time == 0
    then panic
    else ok (
      u64 (r.packets * 1000) / time,
      u64 (u64 (u64 (r.bytes + u64 (r.packets * 24)) * 1000) / time * 8) / 1000 / 1000,
    )

-- The attempts of two reports added; the attempts at the queues below `left + z` are added from `z` on.
unfoldable pub add_attempts : ℕ → ℕ → List ℕ → List ℕ → Result (List ℕ)
unfolding fetch put
add_attempts zero z total temp = ok total
add_attempts (suc left) z total temp = do
  a ← fetch total z
  b ← fetch temp z
  next ← put total z (u64 (a + b))
  add_attempts left (z + 1) next temp

-- `is_segment` tells whether the flow function is a `segmentCopy`.
unfoldable pub add_report : Bool → Running → Report → Result Running
unfolding fetch add_attempts
add_report is_segment ffi temp = do
  rounds ← (if is_segment then fetch ffi.in_index 0 else ok 0)
  attempts ← add_attempts rounds 0 ffi.reported.zero_attempts temp.zero_attempts
  ok (record ffi {
    reported = record {
      packets = u64 (ffi.reported.packets + temp.packets);
      bytes = u64 (ffi.reported.bytes + temp.bytes);
      zero_attempts = attempts;
    };
  })

unfoldable pub add_reports : Bool → Running → List Report → Result Running
unfolding add_report
add_reports is_segment ffi [] = ok ffi
add_reports is_segment ffi (r ∷ rs) = do
  next ← add_report is_segment ffi r
  add_reports is_segment next rs

-- `updateReportedState` at one instance. Of `reports`, which are those in its channel and those that
-- the scheduler waits for, the last ones count, one for each clone.
unfoldable pub update_reported : Bool → Running → List Report → Result Running
unfolding add_reports
update_reported is_segment ffi reports =
    add_reports is_segment (record ffi { reported = no_report })
      (drop (length reports - clone_number ffi) reports)
