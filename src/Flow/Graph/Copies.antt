-- ===== src/Flow/Graph/Copies.antt =====
-- The calls that copy a flow, or drop packets from it.
use nff_go.Base.{
  ℕ, ◌+◌, ◌≡◌, refl, sym, ap, ◌∙◌, arith, false, Option, none, some, inr, [], ◌∷◌, length,
}
use nff_go.Common.Errors.{Result, ok}
use nff_go.Flow.Graph.{Net, Flow, new_flow, add_ff, make_separator, copy_parameters}
use nff_go.Flow.Graph.Insert.{segment_insert}
use nff_go.Flow.Graph.Setters.{copier_input, set_copier}
use nff_go.Flow.Graph.Merge.{set_stopper, drop_by, set_handler_drop, set_vector_handler_drop}
use nff_go.Flow.Graph.Growth.{make_slice-Sliced}
use nff_go.Flow.Graph.Placement.{Placed}
use nff_go.Flow.Graph.Ending.{Placed-at, check_flow-Placed, segment_insert-Inserted}
use nff_go.Flow.Graph.Outcomes.{
  Extends, Extends-trans, Extends-same, Placed-Extends, Stands-Extends, Builds, Inserted-Extends,
}
use nff_go.Flow.Graph.Branches.{branch_off-Built}
use nff_go.Flow.Graph.Closings.{IsMergeable, merge_in-Closes, create_rings-eq}
use mathlib.Core.Path.{subst}
use nff_go.Flow.Graph.Calls.{alone, with_one}

-- What the copier takes its packets from.
record Input (net : Net) (m : Result (Net × Flow × Option ℕ)) : Type 0 where
  next : Net
  out : Flow
  ring : Option ℕ
  done : m ≡ ok (next, out, ring)
  extends : Extends net next
  same_number : next.open_flows_number ≡ net.open_flows_number
  same_ports : next.created_ports ≡ net.created_ports
  no_segment : out.segment ≡ none

copier_input-Input :
    (net : Net) (flow : Flow) (seg : Option ℕ)
    → flow.segment ≡ seg
    → Placed net flow seg
    → Input net (copier_input net flow seg)
unfolding copier_input
copier_input-Input net flow none e p = record {
  next = net;
  out = flow;
  ring = flow.current;
  done = refl;
  extends = Extends-same net net refl refl;
  same_number = refl;
  same_ports = refl;
  no_segment = e;
}
copier_input-Input net flow (some seg) e p =
    let made = record net { rings = net.rings + 1 } in
    let same = Extends-same net made refl refl in
    let s = make_slice-Sliced made net.rings seg p.seg_there in
    let slices : Extends net s.next = record {
      segments_kept = s.grows.segments_kept;
      branches_kept = s.grows.branches_kept;
    } in
    let here =
      Placed-at s.next flow (some seg) e (Placed-Extends net s.next flow (some seg) slices p) in
    let w = segment_insert-Inserted s.next flow s.func false none 0 0 here in
    let m = segment_insert s.next (some flow) s.func false none 0 0 in
    record {
      next = w.next;
      out = record w.out { segment = none };
      ring = some net.rings;
      done = rw (create_rings-eq net, s.done, w.done) refl;
      extends =
          Extends-trans net s.next w.next slices (Inserted-Extends s.next flow s.func 0 false m w);
      same_number = w.grows.number_kept ∙ s.grows.number_kept;
      same_ports = w.grows.ports_kept ∙ s.grows.ports_kept;
      no_segment = refl;
    }

pub set_copier-Builds :
    (net : Net) (flow : Flow)
    → Placed net flow flow.segment
    → Builds net (with_one (set_copier net (some flow)))
unfolding set_copier new_flow add_ff
set_copier-Builds net flow p =
    let one = record net { rings = net.rings + 1 } in
    let two = record one { rings = one.rings + 1 } in
    let same = Extends-same net two refl refl in
    let i =
      copier_input-Input two flow flow.segment refl
        (Placed-Extends net two flow flow.segment same p) in
    let added = add_ff i.next (copy_parameters i.ring net.rings one.rings) flow.in_index_number in
    let next = (new_flow added one.rings flow.in_index_number).0 in
    let copied = (new_flow added one.rings flow.in_index_number).1 in
    let out = record i.out { current = some net.rings } in
    (
      next,
      out,
      copied ∷ [],
      (rw (check_flow-Placed net flow p, create_rings-eq net, create_rings-eq one, i.done) refl),
      record {
        extends = record {
          segments_kept = i.extends.segments_kept;
          branches_kept = i.extends.branches_kept;
        };
        out_stands = inr (Placed-at next out none i.no_segment (net.rings, refl));
        news_placed = ((one.rings, refl), tt);
        number = omega (arith, i.same_number);
        same_ports = ap length i.same_ports;
      },
    )

-- The new branch is stopped at once.
drop_by-Builds :
    (net : Net) (flow : Flow) (s v context : Option ℕ) (set_type : ℕ)
    → Placed net flow flow.segment
    → Builds net (alone (drop_by net (some flow) s v context set_type))
unfolding drop_by set_stopper make_separator
drop_by-Builds net flow s v context set_type p =
    let f = make_separator s v in
    let (mid, out, g, done, seg, here, placed, b) =
      branch_off-Built net flow f context set_type 1 0 (none ∷ none ∷ []) p refl (omega arith)
        (omega arith) in
    let mergeable = subst (λ t. IsMergeable mid g t) (sym here) tt in
    let (next, gone, stopping, c) =
      merge_in-Closes mid g g.segment mid.stop_ring refl placed mergeable in
    (
      next,
      out,
      [],
      (rw (done, check_flow-Placed mid g placed, stopping) refl),
      record {
        extends = Extends-trans net mid next b.extends c.extends;
        out_stands = Stands-Extends mid next out c.extends b.out_stands;
        news_placed = tt;
        number = omega (arith, b.number, c.number);
        same_ports = c.same_ports ∙ b.same_ports;
      },
    )

pub set_handler_drop-Builds :
    (net : Net) (flow : Flow) (f : ℕ) (context : Option ℕ)
    → Placed net flow flow.segment
    → Builds net (alone (set_handler_drop net (some flow) f context))
unfolding set_handler_drop
set_handler_drop-Builds net flow f context p = drop_by-Builds net flow (some f) none context 1 p

pub set_vector_handler_drop-Builds :
    (net : Net) (flow : Flow) (f : ℕ) (context : Option ℕ)
    → Placed net flow flow.segment
    → Builds net (alone (set_vector_handler_drop net (some flow) f context))
unfolding set_vector_handler_drop
set_vector_handler_drop-Builds net flow f context p =
    drop_by-Builds net flow none (some f) context 2 p
