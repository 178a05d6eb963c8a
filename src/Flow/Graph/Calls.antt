-- ===== src/Flow/Graph/Calls.antt =====
-- Every call on a flow in its place succeeds, flow/flow.go.
use nff_go.Base.{
  ℕ, ◌+◌, ◌≡◌, ◌<◌, refl, ap, ◌∙◌, arith, true, false, Option, none, some, inl, List, [], ◌∷◌,
  length, u16, u8, replicate, length-replicate, leb, ◌^◌,
}
use nff_go.Common.Errors.{Result, ok, err, panic, ◌>>=◌}
use nff_go.Common.Slices.{fetch, fetch_lt, put-Written}
use nff_go.Flow.Graph.{
  Net, Flow, Parameters, add_ff, make_splitter, make_handler, make_separator, make_partitioner,
  send_parameters, write_parameters,
}
use nff_go.Flow.Graph.Insert.{segment_insert}
use nff_go.Flow.Graph.Setters.{
  split_flows, split_by, set_splitter, set_vector_splitter, set_handler, set_vector_handler,
  set_separator, set_vector_separator, set_partitioner, set_sender_file, set_sender_kni, set_sender,
  port_of,
}
use nff_go.Flow.Graph.Merge.{set_stopper}
use nff_go.Flow.Graph.Growth.{HasBranch}
use nff_go.Flow.Graph.Placement.{Placed}
use nff_go.Flow.Graph.Ending.{check_flow-Placed, segment_insert-Inserted}
use nff_go.Flow.Graph.Outcomes.{Extends-trans, Built, Builds, Closes, Inserted-Extends, closed_flow}
use nff_go.Flow.Graph.Branches.{goes_on-Builds, branch_off-Builds}
use nff_go.Flow.Graph.Closings.{
  IsMergeable, Closes-Built, finish_flow-Closes, merge_in-Closes, split_flows-Placed,
}

-- A call that has only the flow, and one that has a new flow too.
abbrev pub alone : Result (Net × Flow) → Result (Net × Flow × List Flow)
alone m = m >>= (λ w. ok (w.0, w.1, []))

abbrev pub with_one : Result (Net × Flow × Flow) → Result (Net × Flow × List Flow)
with_one m = m >>= (λ w. ok (w.0, w.1, w.2 ∷ []))

make_splitter-next :
    (s v : Option ℕ) (n : ℕ) → (make_splitter s v n).next ≡ some (replicate {A = Option ℕ} n none)
unfolding make_splitter
make_splitter-next s v n = refl

alone_insert :
    (m : Result (Net × Flow × ℕ))
    → alone (m >>= (λ w. ok (w.0, w.1))) ≡ (m >>= (λ w. ok (w.0, w.1, [])))
alone_insert (ok w) = refl
alone_insert (err e) = refl
alone_insert panic = refl

module _ (net : Net) (flow : Flow) (p : Placed net flow flow.segment) where
  pub set_handler-Builds :
      (f : ℕ) (context : Option ℕ) → Builds net (alone (set_handler net (some flow) f context))
  unfolding set_handler make_handler
  set_handler-Builds f context =
      let h = make_handler (some f) none in
      rw (alone_insert (segment_insert net (some flow) h false context 1 0))
        (goes_on-Builds net flow h context 1 0 (none ∷ []) p refl (omega arith))

  pub set_vector_handler-Builds :
      (f : ℕ) (context : Option ℕ)
      → Builds net (alone (set_vector_handler net (some flow) f context))
  unfolding set_vector_handler make_handler
  set_vector_handler-Builds f context =
      let h = make_handler none (some f) in
      rw (alone_insert (segment_insert net (some flow) h false context 2 0))
        (goes_on-Builds net flow h context 2 0 (none ∷ []) p refl (omega arith))

  pub set_partitioner-Builds :
      (context : ℕ) → Builds net (with_one (set_partitioner net (some flow) context))
  unfolding set_partitioner make_partitioner
  set_partitioner-Builds context =
      branch_off-Builds net flow make_partitioner (some context) 0 0 1 (none ∷ none ∷ []) p refl
        (omega arith) (omega arith)

  pub set_separator-Builds :
      (f : ℕ) (context : Option ℕ) → Builds net (with_one (set_separator net (some flow) f context))
  unfolding set_separator make_separator
  set_separator-Builds f context =
      branch_off-Builds net flow (make_separator (some f) none) context 1 1 0 (none ∷ none ∷ []) p
        refl (omega arith) (omega arith)

  pub set_vector_separator-Builds :
      (f : ℕ) (context : Option ℕ)
      → Builds net (with_one (set_vector_separator net (some flow) f context))
  unfolding set_vector_separator make_separator
  set_vector_separator-Builds f context =
      branch_off-Builds net flow (make_separator none (some f)) context 2 1 0 (none ∷ none ∷ []) p
        refl (omega arith) (omega arith)

  pub set_stopper-Builds :
      IsMergeable net flow flow.segment → Builds net (alone (set_stopper net (some flow)))
  unfolding set_stopper
  set_stopper-Builds h =
      let (next, out, done, closes) =
        merge_in-Closes net flow flow.segment net.stop_ring refl p h in
      (
        next,
        out,
        [],
        (rw (check_flow-Placed net flow p, done) refl),
        Closes-Built net next out closes,
      )

  -- A call that closes the flow and adds a function to the scheduler.
  added-Built :
      (next : Net) (out : Flow) (parameters : Parameters) (index : ℕ)
      → Closes net next out
      → Built net (add_ff next parameters index) out []
  unfolding add_ff
  added-Built next out parameters index c =
      Closes-Built net (add_ff next parameters index) out record {
        extends = record {
          segments_kept = c.extends.segments_kept;
          branches_kept = c.extends.branches_kept;
        };
        is_closed = c.is_closed;
        number = c.number;
        same_ports = c.same_ports;
      }

  pub set_sender_file-Builds : Builds net (alone (set_sender_file net (some flow)))
  unfolding set_sender_file
  set_sender_file-Builds =
      let (next, out, ring, done, closes) = finish_flow-Closes net flow p in
      (
        add_ff next (write_parameters ring) out.in_index_number,
        out,
        [],
        (rw (check_flow-Placed net flow p, done) refl),
        added-Built next out (write_parameters ring) out.in_index_number closes,
      )

  pub set_sender_kni-Builds : (port : ℕ) → Builds net (alone (set_sender_kni net (some flow) port))
  unfolding set_sender_kni
  set_sender_kni-Builds port =
      let (next, out, ring, done, closes) = finish_flow-Closes net flow p in
      (
        add_ff next (send_parameters port none ring) out.in_index_number,
        out,
        [],
        (rw (check_flow-Placed net flow p, done) refl),
        added-Built next out (send_parameters port none ring) out.in_index_number closes,
      )

  split_by-eq :
      (s v : Option ℕ) (n : ℕ) (context : Option ℕ) (set_type : ℕ)
      → n < 2 ^ 8
      → split_by net (some flow) s v n context set_type ≡ (
          segment_insert net (some flow) (make_splitter s v n) true context set_type 0
          >>= (λ w. split_flows w.0 w.1 w.2 n 0 n >>= (λ x. ok (x.0, w.1, x.1))))
  unfolding split_by
  split_by-eq s v n context set_type h =
      let small : u8 n ≡ n = omega arith in rw (check_flow-Placed net flow p, small) refl

  split_by-Builds :
      (s v : Option ℕ) (n : ℕ) (context : Option ℕ) (set_type : ℕ)
      → n < 2 ^ 8
      → Builds net (split_by net (some flow) s v n context set_type)
  split_by-Builds s v n context set_type h =
      let f = make_splitter s v n in
      let w = segment_insert-Inserted net flow f true context set_type 0 p in
      let m = segment_insert net (some flow) f true context set_type 0 in
      let size = length-replicate {A = Option ℕ} n none in
      let has : (b : ℕ) → b < n → HasBranch w.next.funcs w.number b =
        λ b k. w.branches b (replicate n none) (make_splitter-next s v n) (omega (arith, size)) in
      let (next, flows, split, extends, placed, count, number, ports) =
        split_flows-Placed w.next w.out w.seg w.number n 0 n w.segment_of w.seg_there has
          (omega arith) in
      let gone = w.closes refl in
      let closed = closed_flow w.out gone.0 gone.1 in
      (
        next,
        w.out,
        flows,
        (split_by-eq s v n context set_type h ∙ (rw (w.done, split) refl)),
        record {
          extends = Extends-trans net w.next next (Inserted-Extends net flow f 0 true m w) extends;
          out_stands = inl closed;
          news_placed = placed;
          number = rw (closed, count) (omega (arith, number, w.grows.number_kept));
          same_ports = ap length (ports ∙ w.grows.ports_kept);
        },
      )

  pub set_splitter-Builds :
      (f n : ℕ) (context : Option ℕ)
      → n < 2 ^ 8
      → Builds net (set_splitter net (some flow) f n context)
  unfolding set_splitter
  set_splitter-Builds f n context h = split_by-Builds (some f) none n context 1 h

  pub set_vector_splitter-Builds :
      (f n : ℕ) (context : Option ℕ)
      → n < 2 ^ 8
      → Builds net (set_vector_splitter net (some flow) f n context)
  unfolding set_vector_splitter
  set_vector_splitter-Builds f n context h = split_by-Builds none (some f) n context 2 h

  port_of-there :
      (port : ℕ)
      → port < length net.created_ports
      → length net.created_ports < 2 ^ 16
      → port_of net port ≡ fetch net.created_ports port
  unfolding port_of
  port_of-there port h k =
      let small : u16 (length net.created_ports) ≡ length net.created_ports = omega arith in
      let test : leb (length net.created_ports) port ≡ false = ground arith in rw (small, test) refl

  pub set_sender-Builds :
      (port : ℕ)
      → port < length net.created_ports
      → length net.created_ports < 2 ^ 16
      → Builds net (alone (set_sender net (some flow) port))
  unfolding set_sender
  set_sender-Builds port h k =
      let (q, there) = fetch_lt net.created_ports port h in
      let (next, out, ring, done, closes) = finish_flow-Closes net flow p in
      let used = send_parameters port (some q.tx_queues_number) ring in
      let added = add_ff next used out.in_index_number in
      let w =
        put-Written net.created_ports port
          (record q { was_requested = true; tx_queues_number = u16 (q.tx_queues_number + 1) }) h in
      let b = added-Built next out used out.in_index_number closes in
      (
        record added { created_ports = w.slice },
        out,
        [],
        (rw (check_flow-Placed net flow p, port_of-there port h k, there, done, w.done) refl),
        record {
          extends = record {
            segments_kept = b.extends.segments_kept;
            branches_kept = b.extends.branches_kept;
          };
          out_stands = inl closes.is_closed;
          news_placed = tt;
          number = b.number;
          same_ports = w.same_length;
        },
      )
