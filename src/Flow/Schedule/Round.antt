-- ===== src/Flow/Schedule/Round.antt =====
-- Rounds of the loop `schedule`, flow/scheduler.go, for one flow function: the reports of its clones
-- are read, clones or instances are removed, and then clones or instances are added.
use nff_go.Base.{ℕ, zero, suc, ◌+◌, Bool, true, List, [], ◌∷◌, length, if◌then◌else◌}
use nff_go.Common.Errors.{Result, ok, ◌>>=◌}
use nff_go.Common.Slices.{fetch}
use nff_go.Flow.Schedule.State.{Config, State, Parameters, Report, update_reported, change}
use nff_go.Flow.Schedule.Removing.{remove_segments, remove_receivers}
use nff_go.Flow.Schedule.Adding.{add_segments, add_receivers}

-- The loop of `updateReportedState` over the instances of a `segmentCopy` from `q` on.
unfoldable pub update_loop : (ℕ → List Report) → ℕ → ℕ → State → Result State
unfolding fetch update_reported change
update_loop reports zero q s = ok s
update_loop reports (suc left) q s = do
  ffi ← fetch s.instances q
  reported ← update_reported true ffi (reports q)
  next ← change s q reported
  update_loop reports left (q + 1) next

-- A round for a `segmentCopy`.
unfoldable pub segment_round : Config → Parameters → Bool → (ℕ → List Report) → State → Result State
unfolding update_loop remove_segments add_segments
segment_round c par check_required reports s = do
  updated ← update_loop reports (length s.instances) 0 s
  removed ← (if c.off_remove then ok updated else remove_segments c updated)
  (if c.off then ok removed else add_segments c par check_required removed)

-- A round for a `receiveRSS` of the port `port` with `number` queues.
unfoldable pub receive_round : Config → ℕ → List ℕ → ℕ → State → Result State
unfolding remove_receivers add_receivers
receive_round c port outs number s = do
  removed ← (if c.off_remove then ok s else remove_receivers c port s)
  (if c.off then ok removed else add_receivers c (Parameters.receive port outs) number removed)

-- What a round finds: the options and what it reads of rings and cores, whether a tick has passed,
-- and the reports of the clones of each instance.
pub record Segments : Type 0 where
  pub config : Config
  pub check_required : Bool
  pub reports : ℕ → List Report

unfoldable pub segment_rounds : Parameters → List Segments → State → Result State
unfolding segment_round
segment_rounds par [] s = ok s
segment_rounds par (r ∷ rs) s = do
  next ← segment_round r.config par r.check_required r.reports s
  segment_rounds par rs next

unfoldable pub receive_rounds : ℕ → List ℕ → ℕ → List Config → State → Result State
unfolding receive_round
receive_rounds port outs number [] s = ok s
receive_rounds port outs number (c ∷ cs) s = do
  next ← receive_round c port outs number s
  receive_rounds port outs number cs next
