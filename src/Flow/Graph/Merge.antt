-- ===== src/Flow/Graph/Merge.antt =====
-- Stopping and merging flows, flow/flow.go. The first ring of the one call of CreateRings is a ring
-- of no other, so that comparing the numbers of the calls stands for comparing the first rings.
use nff_go.Base.{
  ℕ, Bool, true, false, ◌&&◌, Option, none, some, List, [], ◌∷◌, map, ltb, ◌==◌, if◌then◌else◌,
}
use nff_go.Common.Errors.{Result, ok, err, panic, ◌>>=◌, ErrorCode}
use nff_go.Common.Slices.{fetch, put}
use nff_go.Flow.Graph.{
  Net, Flow, FlowFunction, Parameters, receive_parameters, generate_parameters, read_parameters,
  copy_parameters, check_flow, create_rings, new_flow, close_flow, make_slice, make_separator,
}
use nff_go.Flow.Graph.Insert.{deref, segment_insert}
use nff_go.Flow.Graph.Setters.{branch_off}

abbrev redirect : ℕ → ℕ → ℕ → ℕ
redirect from to out = if out == from then to else out

-- The parameters with their output rings replaced; those without outputs stay.
unfoldable pub merge_parameters : ℕ → ℕ → Parameters → Parameters
merge_parameters from to (receive_parameters port kni out) =
    receive_parameters port kni (redirect from to out)
merge_parameters from to (generate_parameters out) = generate_parameters (redirect from to out)
merge_parameters from to (read_parameters out) = read_parameters (redirect from to out)
merge_parameters from to (copy_parameters ring out out_copy) =
    copy_parameters ring (redirect from to out) (redirect from to out_copy)
merge_parameters from to other = other

-- Whether `merge` finds the first rings that it compares: `number` is how many rings the flow has, and
-- `own` how many a receiver or a copier was made with, where the others have one. Rings that `merge`
-- has put in their place are there, since none are put in the place of none.
unfoldable pub has_first_rings : ℕ → ℕ → Parameters → Bool
has_first_rings number own (receive_parameters port false out) = ltb 0 number && ltb 0 own
has_first_rings number own (receive_parameters port true out) = ltb 0 number
has_first_rings number own (generate_parameters out) = ltb 0 number
has_first_rings number own (read_parameters out) = ltb 0 number
has_first_rings number own (copy_parameters ring out out_copy) = ltb 0 number && ltb 0 own
has_first_rings number own other = true

unfoldable pub all_first_rings : ℕ → List FlowFunction → Bool
unfolding has_first_rings
all_first_rings number [] = true
all_first_rings number (ff ∷ ffs) =
    has_first_rings number ff.in_index_number ff.parameters && all_first_rings number ffs

-- `number` is the length of `from`. An index out of range ends the program.
unfoldable pub merge : Net → ℕ → ℕ → ℕ → Result Net
unfolding merge_parameters all_first_rings
merge net from number to =
    if all_first_rings number net.functions
    then ok (record net {
      functions =
          map {A = FlowFunction}
            (λ ff. record ff { parameters = merge_parameters from to ff.parameters }) net.functions;
    })
    else panic

-- The flow's packets go to the rings `to`, and the flow is closed.
unfoldable pub merge_in : Net → Flow → Option ℕ → ℕ → Result (Net × Flow)
merge_in net flow none to = do
  from ← deref flow.current
  merged ← merge net from flow.in_index_number to
  ok (close_flow merged flow)
merge_in net flow (some number) to = do
  (sliced, ms) ← make_slice net to number
  (ended, out, f) ← segment_insert sliced (some flow) ms true none 0 0
  ok (ended, out)

unfoldable pub set_stopper : Net → Option Flow → Result (Net × Flow)
set_stopper net in_ptr = do flow ← check_flow in_ptr; merge_in net flow flow.segment net.stop_ring

unfoldable pub drop_by :
    Net → Option Flow → Option ℕ → Option ℕ → Option ℕ → ℕ → Result (Net × Flow)
drop_by net in_ptr separate_function vector_separate_function context set_type = do
  (opened, out, branch) ←
      branch_off net in_ptr (make_separator separate_function vector_separate_function) context
        set_type 1 0
  (stopped, closed) ← set_stopper opened (some branch)
  ok (stopped, out)

unfoldable pub set_handler_drop : Net → Option Flow → ℕ → Option ℕ → Result (Net × Flow)
set_handler_drop net in_ptr separate_function context =
    drop_by net in_ptr (some separate_function) none context 1

unfoldable pub set_vector_handler_drop : Net → Option Flow → ℕ → Option ℕ → Result (Net × Flow)
set_vector_handler_drop net in_ptr vector_separate_function context =
    drop_by net in_ptr none (some vector_separate_function) context 2

-- The merger takes the numbers of its flows in the list of all flows, since one may stand there
-- twice. `none` is a nil pointer, which the loop over the maximum reads through.
unfoldable pub max_index : List Flow → List (Option ℕ) → ℕ → Result ℕ
max_index flows [] most = ok most
max_index flows (ptr ∷ ptrs) most = do
  number ← deref ptr
  flow ← fetch flows number
  max_index flows ptrs (if ltb most flow.in_index_number then flow.in_index_number else most)

unfoldable pub merge_one : Net → List Flow → ℕ → Flow → ℕ → Result (Net × List Flow)
merge_one net flows number flow rings = do
  (merged, closed) ← merge_in net flow flow.segment rings
  kept ← put flows number closed
  ok (merged, kept)

-- The loop of the merger. It stops at the first flow that is closed, with the graph as it is then.
unfoldable pub merge_flows :
    Net → List Flow → List (Option ℕ) → ℕ → Result (Net × List Flow × Option ErrorCode)
merge_flows net flows [] rings = ok (net, flows, none)
merge_flows net flows (ptr ∷ ptrs) rings = do
  number ← deref ptr
  flow ← fetch flows number
  elim (check_flow (some flow)) [
    | panic ↦ panic
    | err e ↦ ok (net, flows, some e)
    | ok f ↦ do
      (merged, kept) ← merge_one net flows number f rings
      merge_flows merged kept ptrs rings
  ]

unfoldable pub set_merger :
    Net → List Flow → List (Option ℕ) → Result (Net × List Flow × Result Flow)
set_merger net flows ptrs = do
  max ← max_index flows ptrs 0
  let (made, rings) = create_rings net
  (merged, kept, error) ← merge_flows made flows ptrs rings
  elim error [
    | some e ↦ ok (merged, kept, err e)
    | none ↦ let (opened, out) = new_flow merged rings max in ok (opened, kept, ok out)
  ]
