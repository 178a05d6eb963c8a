-- ===== src/Flow/Graph/Reached.antt =====
-- The graphs that a program can build, flow/flow.go: from none, by opening flows and by calls on open
-- flows and of the merger, in any order. The fast generators are left out.
use nff_go.Base.{
  List, Option, ◌==◌, if◌then◌else◌, ℕ, ◌≡◌, ◌<◌, refl, arith, true, [], ◌∷◌, ◌++◌, length, ◌^◌,
}
use mathlib.Core.Path.{subst}
use nff_go.Common.Errors.{Result, Returns-eq, err, opened_flow_at_the_end, ok}
use nff_go.Common.Slices.{fetch, total}
use nff_go.Flow.Graph.{Net, Flow}
use nff_go.Flow.Graph.Ending.{is_open}
use nff_go.Flow.Graph.Outcomes.{opened}
use nff_go.Flow.Graph.Session.{
  check_open_flows, check_open_flows-Valid, Session, Call, IsCall, session_call, Valid,
  session_call-Valid,
}
use nff_go.Flow.Graph.Merge.{set_merger}
use nff_go.Flow.Graph.Homes.Settled.{Settled}
use nff_go.Flow.Graph.Merging.{merged_session, set_merger-Returns}
use nff_go.Flow.Graph.Sources.{Source, IsSource, session_source, run_source-Opens, Opens-Valid}

-- One step of a program, and what its steps reach from a graph with no flows and
-- no functions.
pub data Reached : Session → Type 0 where
  begin :
      (net : Net)
      → net.open_flows_number ≡ 0
      → net.segments ≡ []
      → net.funcs ≡ []
      → Reached (record { net = net; flows = [] })
  open_one :
      (s next : Session) (source : Source)
      → Reached s
      → IsSource s.net source
      → session_source s source ≡ ok next
      → Reached next
  call_one :
      (s next : Session) (i : ℕ) (flow : Flow) (call : Call)
      → Reached s
      → fetch s.flows i ≡ ok flow
      → is_open flow ≡ true
      → IsCall s.net flow call
      → session_call s i call ≡ ok next
      → Reached next
  merge_some :
      (s : Session) (ptrs : List (Option ℕ)) (out : Net × List Flow × Result Flow)
      → Reached s
      → set_merger s.net s.flows ptrs ≡ ok out
      → Reached (merged_session out)

pub session_source-Valid :
    (s : Session) (source : Source)
    → Valid s
    → IsSource s.net source
    → (next : Session) × (session_source s source ≡ ok next) × Valid next
session_source-Valid s source v h =
    let (net, flow, done, o) = run_source-Opens s.net source h in
    (
      record { net = net; flows = s.flows ++ (flow ∷ []) },
      (rw done refl),
      Opens-Valid s net flow v o,
    )

no_element {ℓ} : {A : Type ℓ} (i : ℕ) (x : A) → fetch [] i ≡ ok x → ⊥
unfolding fetch
no_element i x e = cc

same_outcome : (m : Result Session) (a b : Session) → m ≡ ok a → m ≡ ok b → Valid a → Valid b
same_outcome m a b e h v = let same : a ≡ b = cc in subst Valid same v

-- Whatever a program has called, of the calls that open a flow but for the fast generators, the calls
-- on an open flow and SetMerger, as `IsSource` and `IsCall` allow them: every flow it holds is closed, or is at rings, or has the
-- number of a segment that is there and points to a branch that is there of a function that is
-- there, and the counter counts the open flows, modulo 2 ^ 32.
pub Reached-Valid : (s : Session) → Reached s → Valid s
Reached-Valid _ (begin net e no_segments no_funcs) = record {
  stands = λ i flow h. absurd (no_element i flow h);
  number = omega (arith, e);
}
Reached-Valid _ (open_one s next source r h e) =
    let (t, done, v) = session_source-Valid s source (Reached-Valid s r) h in
    same_outcome (session_source s source) t next done e v
Reached-Valid _ (call_one s next i flow call r there o h e) =
    let (t, done, v) = session_call-Valid s i flow call (Reached-Valid s r) there o h in
    same_outcome (session_call s i call) t next done e v
Reached-Valid _ (merge_some s ptrs out r e) =
    Returns-eq (λ t. Valid (merged_session t)) (set_merger s.net s.flows ptrs) out e
      (set_merger-Returns s ptrs (Reached-Valid s r))

-- Whatever a program has called, of the calls that open a flow but for the fast generators, the calls
-- on an open flow and SetMerger, as `IsSource` and `IsCall` allow them: each call on a flow that is
-- open, but for SetMerger, succeeds, and leaves every flow closed or in its place and the open ones counted, modulo 2 ^ 32. A splitter has
-- fewer than 256 flows, a sender one of the ports, and where the flow to stop has no segment, the flow
-- and every receiver from a port and copier so far have rings.
pub Reached-session_call :
    (s : Session) (i : ℕ) (flow : Flow) (call : Call)
    → Reached s
    → fetch s.flows i ≡ ok flow
    → is_open flow ≡ true
    → IsCall s.net flow call
    → (next : Session) × (session_call s i call ≡ ok next) × Valid next
Reached-session_call s i flow call r there o h =
    session_call-Valid s i flow call (Reached-Valid s r) there o h

-- The construction may end exactly when no flow is open: whatever a program has called, of the
-- calls that open a flow but for the fast generators, the calls on an open flow and SetMerger, as
-- `IsSource` and `IsCall` allow them, if it holds fewer than 2 ^ 32 flows and its counter is a 32-bit word, the check passes if
-- every flow was closed, and else gives back its error.
pub Reached-check_open_flows :
    (s : Session)
    → Reached s
    → s.net.open_flows_number < 2 ^ 32
    → length s.flows < 2 ^ 32
    → check_open_flows s.net
      ≡ (if total opened s.flows == 0 then ok tt else err opened_flow_at_the_end)
Reached-check_open_flows s r word few = check_open_flows-Valid s (Reached-Valid s r) word few
