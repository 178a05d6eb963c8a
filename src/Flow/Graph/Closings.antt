-- ===== src/Flow/Graph/Closings.antt =====
-- The calls that close a flow, stop or copy it, and that split it.
use nff_go.Base.{
  ℕ, zero, suc, ◌+◌, ◌≡◌, ◌≤◌, ◌<◌, refl, sym, ap, ◌∙◌, arith, true, false, Bool-cases, map, inr,
  Option, none, some, inl, List, [], ◌∷◌, length, u32, sub32, All, ltb,
}
use nff_go.Common.Errors.{Result, ok, panic, ◌>>=◌, Returns}
use mathlib.Core.Path.{subst}
use nff_go.Flow.Graph.{Net, Flow, FlowFunction, create_rings, close_flow}
use nff_go.Flow.Graph.Insert.{deref}
use nff_go.Flow.Graph.Setters.{split_flows, finish_in, finish_flow}
use nff_go.Flow.Graph.Merge.{merge_parameters, all_first_rings, merge, merge_in}
use nff_go.Flow.Graph.Growth.{HasBranch}
use nff_go.Flow.Graph.Placement.{Placed}
use nff_go.Flow.Graph.Outcomes.{
  Extends, Extends-trans, Extends-same, Placed-Extends, Built, Closes, slice-Closes, sub32-number,
}
use nff_go.Flow.Graph.Branches.{new_flow_segment-Placed}

pub create_rings-eq :
    (net : Net) → create_rings net ≡ (record net { rings = net.rings + 1 }, net.rings)
unfolding create_rings
create_rings-eq net = refl

-- A close that begins in a graph with the same flows.
Closes-from :
    (net mid next : Net) (out : Flow)
    → Extends net mid
    → mid.open_flows_number ≡ net.open_flows_number
    → mid.created_ports ≡ net.created_ports
    → Closes mid next out
    → Closes net next out
Closes-from net mid next out g n q c = record {
  extends = Extends-trans net mid next g c.extends;
  is_closed = c.is_closed;
  number = c.number ∙ ap u32 n;
  same_ports = c.same_ports ∙ ap length q;
}

close_flow-Closes :
    (net : Net) (flow : Flow)
    → (next : Net) × (out : Flow) × (close_flow net flow ≡ (next, out)) × Closes net next out
unfolding close_flow
close_flow-Closes net flow = (
  record net { open_flows_number = sub32 (net.open_flows_number) 1 },
  record flow { current = none; previous = none },
  refl,
  record {
    extends = record { segments_kept = omega arith; branches_kept = λ o b h. h };
    is_closed = refl;
    number = sub32-number net.open_flows_number;
    same_ports = refl;
  },
)

finish_in-Closes :
    (net : Net) (flow : Flow) (seg : Option ℕ)
    → flow.segment ≡ seg
    → Placed net flow seg
    → (next : Net) × (out : Flow) × (ring : Option ℕ) × (finish_in net flow seg
        ≡ ok (next, out, ring))
      × Closes net next out
unfolding finish_in
finish_in-Closes net flow none e p =
    let (next, out, closing, closes) = close_flow-Closes net flow in
    (next, out, flow.current, (rw closing refl), closes)
finish_in-Closes net flow (some seg) e p =
    let made = record net { rings = net.rings + 1 } in
    let same = Extends-same net made refl refl in
    let (sliced, ms, next, out, number, slicing, inserting, closes) =
      slice-Closes made flow net.rings seg e (Placed-Extends net made flow (some seg) same p) in
    (
      next,
      out,
      some net.rings,
      (rw (create_rings-eq net, slicing, inserting) refl),
      Closes-from net made next out same refl refl closes,
    )

pub finish_flow-Closes :
    (net : Net) (flow : Flow)
    → Placed net flow flow.segment
    → (next : Net) × (out : Flow) × (ring : Option ℕ) × (finish_flow net flow
        ≡ ok (next, out, ring))
      × Closes net next out
unfolding finish_flow
finish_flow-Closes net flow p = finish_in-Closes net flow flow.segment refl p

-- The rings that `merge` compares are there.
abbrev pub IsMergeable : Net → Flow → Option ℕ → Type 0
IsMergeable net flow none = all_first_rings flow.in_index_number net.functions ≡ true
IsMergeable net flow (some seg) = Unit

record Merges (net : Net) (m : Result Net) : Type 0 where
  next : Net
  done : m ≡ ok next
  extends : Extends net next
  same_number : next.open_flows_number ≡ net.open_flows_number
  same_ports : next.created_ports ≡ net.created_ports

merge-Merges :
    (net : Net) (from number to : ℕ)
    → all_first_rings number net.functions ≡ true
    → Merges net (merge net from number to)
unfolding merge
merge-Merges net from number to e = rw e record {
  next = record net {
    functions =
        map {A = FlowFunction}
          (λ ff. record ff { parameters = merge_parameters from to ff.parameters }) net.functions;
  };
  done = refl;
  extends = record { segments_kept = omega arith; branches_kept = λ o b h. h };
  same_number = refl;
  same_ports = refl;
}

merged_in-eq :
    (net : Net) (flow : Flow) (to ring : ℕ)
    → flow.current ≡ some ring
    → merge_in net flow none to
      ≡ (merge net ring flow.in_index_number to >>= (λ merged. ok (close_flow merged flow)))
unfolding merge_in deref
merged_in-eq net flow to ring e =
    ap
      (λ t. deref t >>= (λ from.
        merge net from flow.in_index_number to >>= (λ merged. ok (close_flow merged flow))))
      e

pub merge_in-Closes :
    (net : Net) (flow : Flow) (seg : Option ℕ) (to : ℕ)
    → flow.segment ≡ seg
    → Placed net flow seg
    → IsMergeable net flow seg
    → (next : Net) × (out : Flow) × (merge_in net flow seg to ≡ ok (next, out))
      × Closes net next out
unfolding merge_in
merge_in-Closes net flow none to e p h =
    let m = merge-Merges net p.0 flow.in_index_number to h in
    let (next, out, closing, closes) = close_flow-Closes m.next flow in
    (
      next,
      out,
      merged_in-eq net flow to p.0 p.1
          ∙ ap (λ t. t >>= (λ merged. ok (close_flow merged flow))) m.done
          ∙ ap ok closing,
      Closes-from net m.next next out m.extends m.same_number m.same_ports closes,
    )
merge_in-Closes net flow (some seg) to e p h =
    let (sliced, ms, next, out, number, slicing, inserting, closes) =
      slice-Closes net flow to seg e p in
    (next, out, (rw (slicing, inserting) refl), closes)

merge-panic :
    (net : Net) (from number to : ℕ)
    → all_first_rings number net.functions ≡ false
    → merge net from number to ≡ panic
unfolding merge
merge-panic net from number to e = rw e refl

-- Where it succeeds, the flow is closed.
pub merge_in-Returns :
    (net : Net) (flow : Flow) (seg : Option ℕ) (to : ℕ)
    → flow.segment ≡ seg
    → Placed net flow seg
    → Returns (λ r. Closes net r.0 r.1) (merge_in net flow seg to)
merge_in-Returns net flow none to e p =
    elim (Bool-cases (all_first_rings flow.in_index_number net.functions)) [
      | inl t ↦
          let (next, out, done, closes) = merge_in-Closes net flow none to e p t in
          subst (Returns (λ r. Closes net r.0 r.1)) (sym done) closes
      | inr f ↦
          let stuck = merge-panic net p.0 flow.in_index_number to f in
          subst (Returns (λ r. Closes net r.0 r.1))
            (sym (
              merged_in-eq net flow to p.0 p.1
              ∙ ap (λ t. t >>= (λ merged. ok (close_flow merged flow))) stuck))
            tt
    ]
merge_in-Returns net flow (some seg) to e p =
    let (next, out, done, closes) = merge_in-Closes net flow (some seg) to e p tt in
    subst (Returns (λ r. Closes net r.0 r.1)) (sym done) closes

-- A flow that is closed is what a call leaves, with no new flows.
pub Closes-Built : (net next : Net) (out : Flow) → Closes net next out → Built net next out []
Closes-Built net next out c = record {
  extends = c.extends;
  out_stands = inl c.is_closed;
  news_placed = tt;
  number = rw c.is_closed (omega (arith, c.number));
  same_ports = c.same_ports;
}

-- The new flows of a splitter, one at each branch.
pub split_flows-Placed :
    (net : Net) (flow : Flow) (seg number branches i left : ℕ)
    → flow.segment ≡ some seg
    → seg < length net.segments
    → ((b : ℕ) → b < branches → HasBranch net.funcs number b)
    → i + left ≤ branches
    → (next : Net) × (flows : List Flow) × (split_flows net flow number branches i left
        ≡ ok (next, flows))
      × Extends net next
      × All (λ g. Placed next g g.segment) flows
      × (length flows ≡ left)
      × (u32 next.open_flows_number ≡ u32 (net.open_flows_number + left))
      × (next.created_ports ≡ net.created_ports)
unfolding split_flows
split_flows-Placed net flow seg number branches i zero e there has h =
    (net, [], refl, Extends-same net net refl refl, tt, refl, omega arith, refl)
split_flows-Placed net flow seg number branches i (suc left) e there has h =
    let test : ltb i branches ≡ true = ground arith in
    let (mid, g, made, mid-eq, g-segment, g-Placed) =
      new_flow_segment-Placed net flow.segment seg number i flow.in_index_number e there
        (has i (omega arith)) in
    let more = Extends-same net mid (ap (λ t. t.segments) mid-eq) (ap (λ t. t.funcs) mid-eq) in
    let (next, rest, split, extends, placed, size, count, ports) =
      split_flows-Placed mid flow seg number branches (i + 1) left e
        (omega (arith, there, more.segments_kept)) (λ b k. more.branches_kept number b (has b k))
        (omega arith) in
    let one : mid.open_flows_number ≡ u32 (net.open_flows_number + 1) =
      ap (λ t. t.open_flows_number) mid-eq in
    (
      next,
      g ∷ rest,
      (rw (test, made, split) refl),
      Extends-trans net mid next more extends,
      (Placed-Extends mid next g g.segment extends g-Placed, placed),
      omega (arith, size),
      omega (arith, count, one),
      ports ∙ ap (λ t. t.created_ports) mid-eq,
    )
