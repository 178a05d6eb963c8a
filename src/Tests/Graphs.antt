-- ===== src/Tests/Graphs.antt =====
-- Graphs under construction.
use nff_go.Base.{◌≡◌, refl, arith, none, some, [], ◌∷◌}
use nff_go.Common.Errors.{ok, err, panic, opened_flow_at_the_end}
use nff_go.Common.Slices.{fetch}
use nff_go.Flow.Graph.{Net, Flow, generate_parameters, create_rings, new_flow, add_ff}
use nff_go.Flow.Graph.Session.{Session, Valid, session_call, splitter, check_open_flows}
use nff_go.Flow.Graph.Reached.{
  Reached, begin, open_one, Reached-Valid, Reached-session_call, Reached-check_open_flows,
}
use nff_go.Flow.Graph.Homes.Settled.{Settled}
use nff_go.Flow.Graph.Sources.{generator}
use nff_go.Flow.Graph.Setters.{set_generator, set_splitter}
use nff_go.Flow.Graph.Merge.{set_merger}
use nff_go.Flow.Graph.Refusals.{set_merger-nil, set_splitter-panic}

abbrev empty_net : Net
empty_net = record {
  open_flows_number = 1;
  created_ports = [];
  port_pair = [];
  functions = [];
  segments = [];
  funcs = [];
  rings = 3;
  stop_ring = 0;
  max_in_index = 0;
}

abbrev received : Flow
received = record { current = some 2; segment = none; previous = none; in_index_number = 1 }

set_splitter-panic_example : set_splitter empty_net (some received) 5 256 (some 6) ≡ panic
set_splitter-panic_example = set_splitter-panic empty_net received 5 256 6 (2, refl) (omega arith)

set_merger-nil_run : set_merger empty_net (received ∷ []) (none ∷ some 0 ∷ []) ≡ panic
set_merger-nil_run = set_merger-nil empty_net (received ∷ []) (some 0 ∷ [])

-- A program that has opened one flow.
abbrev no_flows : Net
no_flows = record {
  open_flows_number = 0;
  created_ports = [];
  port_pair = [];
  functions = [];
  segments = [];
  funcs = [];
  rings = 1;
  stop_ring = 0;
  max_in_index = 0;
}

abbrev started : Session
started = record {
  net = record no_flows {
    open_flows_number = 1;
    functions = record { parameters = generate_parameters 1; in_index_number = 0 } ∷ [];
    rings = 2;
  };
  flows = record { current = some 1; segment = none; previous = none; in_index_number = 1 } ∷ [];
}

started-Reached : Reached started
unfolding set_generator create_rings new_flow add_ff
started-Reached =
    open_one (record { net = no_flows; flows = [] }) started generator
      (begin no_flows refl refl refl) tt refl

abbrev first_flow : Flow
first_flow = record { current = some 1; segment = none; previous = none; in_index_number = 1 }

Reached-Valid_example : Valid started
Reached-Valid_example = Reached-Valid started started-Reached

first_flow-there : fetch started.flows 0 ≡ ok first_flow
unfolding fetch
first_flow-there = refl

Reached-session_call_example :
    (next : Session) × (session_call started 0 (splitter 5 3 (some 6)) ≡ ok next) × Valid next
Reached-session_call_example =
    Reached-session_call started 0 first_flow (splitter 5 3 (some 6)) started-Reached
      first_flow-there refl (omega arith)

Reached-check_open_flows_example : check_open_flows started.net ≡ err opened_flow_at_the_end
Reached-check_open_flows_example =
    Reached-check_open_flows started started-Reached (omega arith) (omega arith)
