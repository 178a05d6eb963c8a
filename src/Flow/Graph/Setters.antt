-- ===== src/Flow/Graph/Setters.antt =====
-- The calls by which a program builds its graph, flow/flow.go. An outcome `err` leaves the graph and
-- the flows as they were. `in_ptr` is the flow that the source calls IN; the flow given back is the
-- one it points to afterwards, and the new flows stand behind it.
use nff_go.Base.{
  ℕ, zero, suc, ◌+◌, true, false, Option, none, some, List, [], ◌∷◌, length, ltb, leb, ◌==◌, ◌&&◌,
  if◌then◌else◌, u8, u16,
}
use nff_go.Common.Errors.{
  Result, ok, err, panic, ◌>>=◌, req_too_many_ports, multiple_receive_port, wrong_port,
}
use nff_go.Common.Slices.{fetch, put}
use nff_go.Flow.Graph.{
  Func, Net, Flow, Port, receive_parameters, generate_parameters, read_parameters, send_parameters,
  write_parameters, copy_parameters, check_flow, create_rings, add_ff, new_flow, new_flow_segment,
  close_flow, make_slice, make_partitioner, make_separator, make_splitter, make_handler,
}
use nff_go.Flow.Graph.Insert.{segment_insert}

-- The flow ends in the rings given back.
unfoldable pub finish_in : Net → Flow → Option ℕ → Result (Net × Flow × Option ℕ)
finish_in net flow none = let (closed, out) = close_flow net flow in ok (closed, out, flow.current)
finish_in net flow (some number) =
    let (made, ring) = create_rings net in
    do
      (sliced, ms) ← make_slice made ring number
      (ended, out, f) ← segment_insert sliced (some flow) ms true none 0 0
      ok (ended, out, some ring)

unfoldable pub finish_flow : Net → Flow → Result (Net × Flow × Option ℕ)
finish_flow net flow = finish_in net flow flow.segment

unfoldable pub set_sender_file : Net → Option Flow → Result (Net × Flow)
set_sender_file net in_ptr = do
  flow ← check_flow in_ptr
  (finished, out, ring) ← finish_flow net flow
  ok (add_ff finished (write_parameters ring) out.in_index_number, out)

unfoldable pub set_receiver_file : Net → Net × Flow
set_receiver_file net =
    let (made, rings) = create_rings net in new_flow (add_ff made (read_parameters rings) 0) rings 1

-- The test of a port number against the ports that DPDK has.
unfoldable pub port_of : Net → ℕ → Result Port
port_of net port_id =
    if leb (u16 (length net.created_ports)) port_id
    then err req_too_many_ports
    else fetch net.created_ports port_id

unfoldable pub set_receiver : Net → ℕ → Result (Net × Flow)
set_receiver net port_id = do
  p ← port_of net port_id
  if p.will_receive then err multiple_receive_port else (do
    ports ← put net.created_ports port_id (record p { was_requested = true; will_receive = true })
    let (made, rings) = create_rings (record net { created_ports = ports })
    ok (
        new_flow (add_ff made (receive_parameters port_id false rings) p.in_index) rings
          p.in_index))

unfoldable pub set_receiver_kni : Net → ℕ → Net × Flow
set_receiver_kni net port_id =
    let (made, rings) = create_rings net in
    new_flow (add_ff made (receive_parameters port_id true rings) 0) rings 1

unfoldable pub set_generator : Net → Net × Flow
set_generator net =
    let (made, rings) = create_rings net in
    new_flow (add_ff made (generate_parameters rings) 0) rings 1

unfoldable pub set_sender : Net → Option Flow → ℕ → Result (Net × Flow)
set_sender net in_ptr port_id = do
  flow ← check_flow in_ptr
  p ← port_of net port_id
  (finished, out, ring) ← finish_flow net flow
  let added =
      add_ff finished (send_parameters port_id (some p.tx_queues_number) ring) out.in_index_number
  ports ←
      put net.created_ports port_id
        (record p { was_requested = true; tx_queues_number = u16 (p.tx_queues_number + 1) })
  ok (record added { created_ports = ports }, out)

unfoldable pub set_sender_kni : Net → Option Flow → ℕ → Result (Net × Flow)
set_sender_kni net in_ptr port_id = do
  flow ← check_flow in_ptr
  (finished, out, ring) ← finish_flow net flow
  ok (add_ff finished (send_parameters port_id none ring) out.in_index_number, out)

-- The rings that the copier takes packets from, where the flow has a segment and where not.
unfoldable pub copier_input : Net → Flow → Option ℕ → Result (Net × Flow × Option ℕ)
copier_input net flow none = ok (net, flow, flow.current)
copier_input net flow (some number) =
    let (made, ring) = create_rings net in
    do
      (sliced, ms) ← make_slice made ring number
      (ended, out, f) ← segment_insert sliced (some flow) ms false none 0 0
      ok (ended, record out { segment = none }, some ring)

unfoldable pub set_copier : Net → Option Flow → Result (Net × Flow × Flow)
set_copier net in_ptr = do
  flow ← check_flow in_ptr
  let (one, ring_first) = create_rings net
  let (two, ring_second) = create_rings one
  (ended, out, ring) ← copier_input two flow flow.segment
  let added = add_ff ended (copy_parameters ring ring_first ring_second) flow.in_index_number
  let (net_out, copied) = new_flow added ring_second flow.in_index_number
  ok (net_out, record out { current = some ring_first }, copied)

-- A function is put behind the flow, and the branch of it that the flow does not take is a new one.
unfoldable pub branch_off :
    Net → Option Flow → Func → Option ℕ → ℕ → ℕ → ℕ → Result (Net × Flow × Flow)
branch_off net in_ptr f context set_type next_branch other = do
  (inserted, out, number) ← segment_insert net in_ptr f false context set_type next_branch
  let (opened, branch) = new_flow_segment inserted out.segment (number, other) out.in_index_number
  ok (opened, out, branch)

unfoldable pub set_partitioner : Net → Option Flow → ℕ → Result (Net × Flow × Flow)
set_partitioner net in_ptr context = branch_off net in_ptr make_partitioner (some context) 0 0 1

unfoldable pub set_separator : Net → Option Flow → ℕ → Option ℕ → Result (Net × Flow × Flow)
set_separator net in_ptr separate_function context =
    branch_off net in_ptr (make_separator (some separate_function) none) context 1 1 0

unfoldable pub set_vector_separator : Net → Option Flow → ℕ → Option ℕ → Result (Net × Flow × Flow)
set_vector_separator net in_ptr vector_separate_function context =
    branch_off net in_ptr (make_separator none (some vector_separate_function)) context 2 1 0

-- The new flows of a splitter, from branch `i` on. A branch that the function does not have is an
-- index out of range.
unfoldable pub split_flows : Net → Flow → ℕ → ℕ → ℕ → ℕ → Result (Net × List Flow)
split_flows net flow number branches i zero = ok (net, [])
split_flows net flow number branches i (suc left) =
    if ltb i branches
    then (do
      let (opened, first) = new_flow_segment net flow.segment (number, i) flow.in_index_number
      (last, rest) ← split_flows opened flow number branches (i + 1) left
      ok (last, first ∷ rest))
    else panic

unfoldable pub split_by :
    Net → Option Flow → Option ℕ → Option ℕ → ℕ → Option ℕ → ℕ → Result (Net × Flow × List Flow)
split_by net in_ptr split_function vector_split_function flow_number context set_type = do
  flow ← check_flow in_ptr
  let f = make_splitter split_function vector_split_function (u8 flow_number)
  (inserted, out, number) ← segment_insert net (some flow) f true context set_type 0
  (opened, flows) ← split_flows inserted out number (u8 flow_number) 0 flow_number
  ok (opened, out, flows)

unfoldable pub set_splitter : Net → Option Flow → ℕ → ℕ → Option ℕ → Result (Net × Flow × List Flow)
set_splitter net in_ptr split_function flow_number context =
    split_by net in_ptr (some split_function) none flow_number context 1

unfoldable pub set_vector_splitter :
    Net → Option Flow → ℕ → ℕ → Option ℕ → Result (Net × Flow × List Flow)
set_vector_splitter net in_ptr vector_split_function flow_number context =
    split_by net in_ptr none (some vector_split_function) flow_number context 2

unfoldable pub set_handler : Net → Option Flow → ℕ → Option ℕ → Result (Net × Flow)
set_handler net in_ptr handle_function context = do
  (inserted, out, number) ←
      segment_insert net in_ptr (make_handler (some handle_function) none) false context 1 0
  ok (inserted, out)

unfoldable pub set_vector_handler : Net → Option Flow → ℕ → Option ℕ → Result (Net × Flow)
set_vector_handler net in_ptr vector_handle_function context = do
  (inserted, out, number) ←
      segment_insert net in_ptr (make_handler none (some vector_handle_function)) false context 2 0
  ok (inserted, out)

-- The address is kept for the first port of that number that was requested.
unfoldable pub find_port : List Port → ℕ → ℕ → Option ℕ
find_port [] i port = none
find_port (p ∷ ps) i port =
    let rest = find_port ps (i + 1) port in
    if (p.port == port) && p.was_requested then some i else rest

unfoldable pub keep_ip : Net → ℕ → Option ℕ → Result Net
keep_ip net ip none = err wrong_port
keep_ip net ip (some i) = ok (record net { port_pair = (ip, i) ∷ net.port_pair })

unfoldable pub set_ip_for_port : Net → ℕ → ℕ → Result Net
set_ip_for_port net port ip = keep_ip net ip (find_port net.created_ports 0 port)
