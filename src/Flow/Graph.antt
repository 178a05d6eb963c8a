-- ===== src/Flow/Graph.antt =====
-- The graph of flow functions under construction, flow/flow.go. A pointer to a function, a segment
-- or a flow is its number in the order of creation; the rings that one call of CreateRings makes
-- are one number. A user's function or context is a number that stands for the value. A function
-- that no flow was given is not kept: nothing can reach it.
pub mod Insert
pub mod Setters
pub mod Merge
pub mod Growth
pub mod Placement
pub mod Insertion
pub mod Ending
pub mod Outcomes
pub mod Branches
pub mod Closings
pub mod Calls
pub mod Copies
pub mod Session
pub mod Sources
pub mod Merging
pub mod Homes
pub mod Reached
pub mod Refusals
use nff_go.Base.{
  ℕ, zero, suc, ◌+◌, ◌-◌, Bool, true, false, not, ◌&&◌, ◌||◌, Option, none, some, List, [], ◌∷◌,
  ◌++◌, length, ltb, ◌==◌, if◌then◌else◌, replicate, u32, sub32, u8,
}
use nff_go.Common.Errors.{Result, ok, err, panic, use_nil_flow_err, use_closed_flow_err, ◌>>=◌}
use nff_go.Common.Slices.{fetch, put}

pub data Operation : Type 0 where
  partition : Operation
  separate : Operation
  split : Operation
  handle : Operation
  construct_slice : Operation

-- `next` is missing where the slice is nil; its entries are nil until a function is put there.
pub record Func : Type 0 where
  pub operation : Operation
  pub s_function : Option ℕ
  pub v_function : Option ℕ
  pub next : Option (List (Option ℕ))
  pub buf_index : ℕ
  pub context_index : ℕ
  pub following_number : ℕ

-- `processSegment`, and the first function of its `segmentParameters`.
pub record Segment : Type 0 where
  pub out : List ℕ
  pub contexts : List (Option ℕ)
  pub stype : ℕ
  pub first_func : ℕ

-- The parameters of what was added to the scheduler.
pub data Parameters : Type 0 where
  receive_parameters : (port : ℕ) → (kni : Bool) → (out : ℕ) → Parameters
  generate_parameters : (out : ℕ) → Parameters
  read_parameters : (out : ℕ) → Parameters
  send_parameters : (port : ℕ) → (queue : Option ℕ) → (ring : Option ℕ) → Parameters
  write_parameters : (ring : Option ℕ) → Parameters
  copy_parameters : (ring : Option ℕ) → (out : ℕ) → (out_copy : ℕ) → Parameters
  segment_parameters : (ring : Option ℕ) → (number : ℕ) → Parameters

pub record FlowFunction : Type 0 where
  pub parameters : Parameters
  pub in_index_number : ℕ

-- `tx_queues_number` is an int16, as the 16-bit word of its bits.
pub record Port : Type 0 where
  pub was_requested : Bool
  pub tx_queues_number : ℕ
  pub will_receive : Bool
  pub port : ℕ
  pub in_index : ℕ

-- The package variables of flow.go and the part of the scheduler that the construction writes.
pub record Net : Type 0 where
  pub open_flows_number : ℕ
  pub created_ports : List Port
  pub port_pair : List (ℕ × ℕ)
  pub functions : List FlowFunction
  pub segments : List Segment
  pub funcs : List Func
  pub rings : ℕ
  pub stop_ring : ℕ
  pub max_in_index : ℕ

-- `previous` points to an entry of the `next` of a function.
pub record Flow : Type 0 where
  pub current : Option ℕ
  pub segment : Option ℕ
  pub previous : Option (ℕ × ℕ)
  pub in_index_number : ℕ

abbrev pub is_nil {ℓ} : {A : Type ℓ} → Option A → Bool
is_nil none = true
is_nil (some a) = false

unfoldable pub check_flow : Option Flow → Result Flow
check_flow none = err use_nil_flow_err
check_flow (some f) =
    if is_nil f.current && is_nil f.previous then err use_closed_flow_err else ok f

unfoldable pub create_rings : Net → Net × ℕ
create_rings net = (record net { rings = net.rings + 1 }, net.rings)

unfoldable pub add_ff : Net → Parameters → ℕ → Net
add_ff net parameters in_index_number = record net {
  functions =
      net.functions ++ (record { parameters = parameters; in_index_number = in_index_number } ∷ []);
  max_in_index = if ltb net.max_in_index in_index_number then in_index_number else net.max_in_index;
}

unfoldable pub new_flow : Net → ℕ → ℕ → Net × Flow
new_flow net rings in_index_number = (
  record net { open_flows_number = u32 (net.open_flows_number + 1) },
  record {
    current = some rings;
    segment = none;
    previous = none;
    in_index_number = in_index_number;
  },
)

unfoldable pub new_flow_segment : Net → Option ℕ → ℕ × ℕ → ℕ → Net × Flow
new_flow_segment net segment previous in_index_number = (
  record net { open_flows_number = u32 (net.open_flows_number + 1) },
  record {
    current = none;
    segment = segment;
    previous = some previous;
    in_index_number = in_index_number;
  },
)

unfoldable pub close_flow : Net → Flow → Net × Flow
close_flow net f = (
  record net { open_flows_number = sub32 (net.open_flows_number) 1 },
  record f { current = none; previous = none },
)

-- A function whose `next` has `n` entries, all nil.
unfoldable pub make_func : Operation → Option ℕ → Option ℕ → ℕ → Func
make_func operation s_function v_function n = record {
  operation = operation;
  s_function = s_function;
  v_function = v_function;
  next = some (replicate n none);
  buf_index = 0;
  context_index = 0;
  following_number = n;
}

unfoldable pub make_partitioner : Func
unfolding make_func
make_partitioner = make_func partition none none 2

unfoldable pub make_separator : Option ℕ → Option ℕ → Func
unfolding make_func
make_separator separate_function vector_separate_function =
    make_func separate separate_function vector_separate_function 2

unfoldable pub make_splitter : Option ℕ → Option ℕ → ℕ → Func
unfolding make_func
make_splitter split_function vector_split_function n =
    make_func split split_function vector_split_function n

unfoldable pub make_handler : Option ℕ → Option ℕ → Func
unfolding make_func
make_handler handle_function vector_handle_function =
    make_func handle handle_function vector_handle_function 1

-- The segment with the rings added to its outputs, and the function that puts packets there.
unfoldable pub make_slice : Net → ℕ → ℕ → Result (Net × Func)
make_slice net out number = do
  seg ← fetch net.segments number
  segments ← put net.segments number (record seg { out = seg.out ++ (out ∷ []) })
  ok (
    record net { segments = segments },
    record {
      operation = construct_slice;
      s_function = none;
      v_function = none;
      next = none;
      buf_index = length seg.out;
      context_index = 0;
      following_number = 0;
    },
  )

unfoldable pub add_segment : Net → Option ℕ → ℕ → ℕ → Net × ℕ
unfolding add_ff
add_segment net ring first in_index_number = (
  add_ff
      (record net {
        segments =
            net.segments
            ++ (record { out = []; contexts = []; stype = 0; first_func = first } ∷ []);
      })
      (segment_parameters ring (length net.segments)) in_index_number,
  length net.segments,
)
