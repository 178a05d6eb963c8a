-- ===== src/Flow/Graph/Sources.antt =====
-- The calls that open a flow, flow/flow.go.
use nff_go.Base.{
  ℕ, ◌+◌, ◌≡◌, ◌<◌, refl, arith, true, false, inl, inr, [], ◌∷◌, ◌++◌, length, u16, u32, leb, ◌^◌,
}
use nff_go.Common.Errors.{Result, ok, ◌>>=◌}
use nff_go.Common.Slices.{fetch, put-Written, fetch-append-cases, fetch-ok_lt, total-append}
use nff_go.Flow.Graph.{Net, Flow, Port, create_rings, new_flow, add_ff, receive_parameters}
use nff_go.Flow.Graph.Setters.{
  set_generator, set_receiver, set_receiver_kni, set_receiver_file, port_of,
}
use nff_go.Flow.Graph.Placement.{Placed}
use nff_go.Flow.Graph.Outcomes.{Extends, Stands-Extends, opened}
use nff_go.Flow.Graph.Session.{Session, Valid, All-fetch}

-- A call that opens a flow.
pub data Source : Type 0 where
  generator : Source
  receiver : ℕ → Source
  receiver_kni : ℕ → Source
  receiver_file : Source

abbrev pub run_source : Net → Source → Result (Net × Flow)
run_source net generator = ok (set_generator net)
run_source net (receiver port) = set_receiver net port
run_source net (receiver_kni port) = ok (set_receiver_kni net port)
run_source net receiver_file = ok (set_receiver_file net)

-- A receiver is one of the ports, and does not receive yet.
abbrev pub IsSource : Net → Source → Type 0
IsSource net (receiver port) =
    (p : Port) × (fetch net.created_ports port ≡ ok p)
    × (p.will_receive ≡ false)
    × (length net.created_ports < 2 ^ 16)
IsSource net other = Unit

abbrev pub session_source : Session → Source → Result Session
session_source s source = do
  (next, flow) ← run_source s.net source
  ok record { net = next; flows = s.flows ++ (flow ∷ []) }

-- The flow is at rings, and counted.
pub record Opens (net next : Net) (flow : Flow) : Type 0 where
  pub extends : Extends net next
  pub placed : Placed next flow flow.segment
  pub counted_one : opened flow ≡ 1
  pub number : next.open_flows_number ≡ u32 (net.open_flows_number + 1)

pub run_source-Opens :
    (net : Net) (source : Source)
    → IsSource net source
    → (next : Net) × (flow : Flow) × (run_source net source ≡ ok (next, flow)) × Opens net next flow
unfolding set_generator set_receiver set_receiver_kni set_receiver_file port_of create_rings
    new_flow add_ff
run_source-Opens net generator h =
    let out = set_generator net in
    (
      out.0,
      out.1,
      refl,
      record {
        extends = record { segments_kept = omega arith; branches_kept = λ o b k. k };
        placed = (net.rings, refl);
        counted_one = refl;
        number = refl;
      },
    )
run_source-Opens net (receiver_kni port) h =
    let out = set_receiver_kni net port in
    (
      out.0,
      out.1,
      refl,
      record {
        extends = record { segments_kept = omega arith; branches_kept = λ o b k. k };
        placed = (net.rings, refl);
        counted_one = refl;
        number = refl;
      },
    )
run_source-Opens net receiver_file h =
    let out = set_receiver_file net in
    (
      out.0,
      out.1,
      refl,
      record {
        extends = record { segments_kept = omega arith; branches_kept = λ o b k. k };
        placed = (net.rings, refl);
        counted_one = refl;
        number = refl;
      },
    )
run_source-Opens net (receiver port) (p, there, free, few) =
    let l = fetch-ok_lt net.created_ports port p there in
    let small : u16 (length net.created_ports) ≡ length net.created_ports = omega arith in
    let test : leb (length net.created_ports) port ≡ false = ground arith in
    let w =
      put-Written net.created_ports port (record p { was_requested = true; will_receive = true })
        l in
    let ported = record net { created_ports = w.slice } in
    let made = (create_rings ported).0 in
    let out =
      new_flow (add_ff made (receive_parameters port false net.rings) p.in_index) net.rings
        p.in_index in
    rw (small, test, there, free, w.done)
      (
        out.0,
        out.1,
        refl,
        record {
          extends = record { segments_kept = omega arith; branches_kept = λ o b k. k };
          placed = (net.rings, refl);
          counted_one = refl;
          number = refl;
        },
      )

pub Opens-Valid :
    (s : Session) (next : Net) (flow : Flow)
    → Valid s
    → Opens s.net next flow
    → Valid (record { net = next; flows = s.flows ++ (flow ∷ []) })
Opens-Valid s next flow v o = record {
  stands = λ j g h. elim (fetch-append-cases s.flows (flow ∷ []) j g h) [
    | inl old ↦ Stands-Extends s.net next g o.extends (v.stands j g old)
    | inr (k, new) ↦
        inr (All-fetch (λ t. Placed next t t.segment) (flow ∷ []) k g (o.placed, tt) new)
  ];
  number =
      omega (arith, v.number, o.number, o.counted_one, total-append opened s.flows (flow ∷ []));
}
