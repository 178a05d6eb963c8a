-- ===== src/Flow/Graph/Branches.antt =====
-- The calls after which a flow goes on at a branch of a function, flow/flow.go.
use nff_go.Base.{
  ℕ, ◌+◌, ◌≡◌, ◌<◌, refl, ap, ◌∙◌, arith, false, Option, none, some, inr, List, [], ◌∷◌, length,
  u32,
}
use nff_go.Common.Errors.{ok, ◌>>=◌}
use nff_go.Flow.Graph.{Func, Net, Flow, new_flow_segment}
use nff_go.Flow.Graph.Insert.{segment_insert}
use nff_go.Flow.Graph.Setters.{branch_off}
use nff_go.Flow.Graph.Growth.{HasBranch}
use nff_go.Flow.Graph.Placement.{Placed}
use nff_go.Flow.Graph.Outcomes.{
  Extends-trans, Extends-same, Placed-Extends, Built, Builds, Inserted-Placed, Inserted-Extends,
}
use nff_go.Flow.Graph.Ending.{Placed-open, Placed-at, segment_insert-Inserted}

-- A function with a branch for the flow goes on with it.
pub goes_on-Builds :
    (net : Net) (flow : Flow) (f : Func) (context : Option ℕ) (set_type branch : ℕ)
    (entries : List (Option ℕ))
    → Placed net flow flow.segment
    → f.next ≡ some entries
    → branch < length entries
    → Builds net (
        segment_insert net (some flow) f false context set_type branch >>= (λ w. ok (w.0, w.1, [])))
goes_on-Builds net flow f context set_type branch entries p e h =
    let w = segment_insert-Inserted net flow f false context set_type branch p in
    let m = segment_insert net (some flow) f false context set_type branch in
    let placed = Inserted-Placed net flow f branch m w entries e h in
    (
      w.next,
      w.out,
      [],
      (rw w.done refl),
      record {
        extends = Inserted-Extends net flow f branch false m w;
        out_stands = inr placed;
        news_placed = tt;
        number =
            (rw (Placed-open w.next w.out w.out.segment placed, w.grows.number_kept) (omega arith));
        same_ports = ap length w.grows.ports_kept;
      },
    )

-- A new flow at a branch of a function that was put behind `flow`.
pub new_flow_segment-Placed :
    (net : Net) (segment : Option ℕ) (seg number branch index : ℕ)
    → segment ≡ some seg
    → seg < length net.segments
    → HasBranch net.funcs number branch
    → (next : Net) × (flow : Flow) × (new_flow_segment net segment (number, branch) index
        ≡ (next, flow))
      × (next ≡ record net { open_flows_number = u32 (net.open_flows_number + 1) })
      × (flow.segment ≡ some seg)
      × Placed next flow flow.segment
unfolding new_flow_segment
new_flow_segment-Placed net segment seg number branch index e there has =
    let next = record net { open_flows_number = u32 (net.open_flows_number + 1) } in
    let flow : Flow = record {
      current = none;
      segment = segment;
      previous = some (number, branch);
      in_index_number = index;
    } in
    (
      next,
      flow,
      refl,
      refl,
      e,
      Placed-at next flow (some seg) e
          (record { owner = number; branch = branch; seg_there = there; points = refl; has = has }),
    )

-- A function with a branch for the flow and one for a new flow.
pub branch_off-Built :
    (net : Net) (flow : Flow) (f : Func) (context : Option ℕ) (set_type branch other : ℕ)
    (entries : List (Option ℕ))
    → Placed net flow flow.segment
    → f.next ≡ some entries
    → branch < length entries
    → other < length entries
    → (next : Net) × (out : Flow) × (g : Flow) × (branch_off net
          (some flow)
          f
          context
          set_type
          branch
          other
        ≡ ok (next, out, g))
      × (seg : ℕ) × (g.segment ≡ some seg)
      × Placed next g g.segment
      × Built net next out (g ∷ [])
unfolding branch_off
branch_off-Built net flow f context set_type branch other entries p e h k =
    let w = segment_insert-Inserted net flow f false context set_type branch p in
    let m = segment_insert net (some flow) f false context set_type branch in
    let placed = Inserted-Placed net flow f branch m w entries e h in
    let extends = Inserted-Extends net flow f branch false m w in
    let (next, g, made, next-eq, g-segment, g-Placed) =
      new_flow_segment-Placed w.next w.out.segment w.seg w.number other w.out.in_index_number
        w.segment_of w.seg_there (w.branches other entries e k) in
    let more =
      Extends-same w.next next (ap (λ t. t.segments) next-eq) (ap (λ t. t.funcs) next-eq) in
    let still = Placed-Extends w.next next w.out w.out.segment more placed in
    (
      next,
      w.out,
      g,
      (rw (w.done, made) refl),
      w.seg,
      g-segment,
      g-Placed,
      record {
        extends = Extends-trans net w.next next extends more;
        out_stands = inr still;
        news_placed = (g-Placed, tt);
        number =
            rw (Placed-open w.next w.out w.out.segment placed, next-eq, w.grows.number_kept)
              (omega arith);
        same_ports = ap (λ t. length t.created_ports) next-eq ∙ ap length w.grows.ports_kept;
      },
    )

pub branch_off-Builds :
    (net : Net) (flow : Flow) (f : Func) (context : Option ℕ) (set_type branch other : ℕ)
    (entries : List (Option ℕ))
    → Placed net flow flow.segment
    → f.next ≡ some entries
    → branch < length entries
    → other < length entries
    → Builds net (
        branch_off net (some flow) f context set_type branch other
        >>= (λ w. ok (w.0, w.1, w.2 ∷ [])))
branch_off-Builds net flow f context set_type branch other entries p e h k =
    let (next, out, g, done, seg, here, placed, built) =
      branch_off-Built net flow f context set_type branch other entries p e h k in
    (next, out, g ∷ [], (rw done refl), built)
