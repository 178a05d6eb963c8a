-- ===== src/Flow/Graph/Refusals.antt =====
-- What the calls that build the graph refuse, flow/flow.go.
use nff_go.Base.{
  ℕ, zero, suc, ◌+◌, ◌≡◌, ◌<◌, ◌≤◌, refl, arith, true, false, Option, none, some, List, ◌∷◌, u8,
  ltb, dec_lt, ◌^◌,
}
use nff_go.Common.Errors.{panic}
use nff_go.Flow.Graph.{Net, Flow, make_splitter, new_flow_segment}
use nff_go.Flow.Graph.Insert.{deref}
use nff_go.Flow.Graph.Setters.{set_splitter, split_by, split_flows}
use nff_go.Flow.Graph.Merge.{set_merger, max_index}
use nff_go.Flow.Graph.Placement.{Placed}
use nff_go.Flow.Graph.Ending.{segment_insert-Inserted, check_flow-Placed}

-- The merger reads through its pointers before it checks them: one that is nil panics.
pub set_merger-nil :
    (net : Net) (flows : List Flow) (ptrs : List (Option ℕ))
    → set_merger net flows (none ∷ ptrs) ≡ panic
unfolding set_merger max_index deref
set_merger-nil net flows ptrs = refl

split_flows-panic :
    (net : Net) (flow : Flow) (number branches i left : ℕ)
    → branches < i + left
    → i ≤ branches
    → split_flows net flow number branches i left ≡ panic
unfolding split_flows
split_flows-panic net flow number branches i zero h k = absurd (omega arith)
split_flows-panic net flow number branches i (suc left) h k = elim (dec_lt i branches) [
  | yes l ↦
      let test : ltb i branches ≡ true = ground arith in
      let opened = (new_flow_segment net flow.segment (number, i) flow.in_index_number).0 in
      rw
        (
          test,
          split_flows-panic opened flow number branches (i + 1) left (omega arith) (omega arith),
        )
        refl
  | no l ↦ let test : ltb i branches ≡ false = ground arith in rw test refl
]

-- A splitter with a flow that is in its place and with 256 flows or more panics: its number of
-- branches is a byte, and the flows beyond it have no branch.
pub set_splitter-panic :
    (net : Net) (flow : Flow) (f n context : ℕ)
    → Placed net flow flow.segment
    → 2 ^ 8 ≤ n
    → set_splitter net (some flow) f n (some context) ≡ panic
unfolding set_splitter split_by
set_splitter-panic net flow f n context p h =
    let splitter = make_splitter (some f) none (u8 n) in
    let w = segment_insert-Inserted net flow splitter true (some context) 1 0 p in
    let few : u8 n < 0 + n = omega arith in
    rw
      (
        check_flow-Placed net flow p,
        w.done,
        split_flows-panic w.next w.out w.number (u8 n) 0 n few (omega arith),
      )
      refl
