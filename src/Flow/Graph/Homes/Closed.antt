-- ===== src/Flow/Graph/Homes/Closed.antt =====
-- The calls that end a flow, or a segment, keep the functions in their segments, flow/flow.go.
use nff_go.Base.{
  ℕ, u16, ◌+◌, ◌≡◌, refl, Bool, true, false, Option, none, some, List, Bool-cases, inl, inr,
}
use nff_go.Common.Errors.{Result, ok, Returns, Returns-of, Returns-bind, ◌>>=◌}
use nff_go.Common.Slices.{put}
use nff_go.Flow.Graph.{
  Net, Flow, Port, create_rings, close_flow, make_slice, new_flow, add_ff, make_separator,
  make_func, send_parameters,
}
use nff_go.Flow.Graph.Insert.{deref, segment_insert}
use nff_go.Flow.Graph.Setters.{
  finish_in, finish_flow, port_of, copier_input, set_copier, set_sender_file, set_sender,
  set_sender_kni,
}
use nff_go.Flow.Graph.Merge.{
  all_first_rings, merge, merge_in, set_stopper, drop_by, set_handler_drop, set_vector_handler_drop,
}
use nff_go.Flow.Graph.Homes.{Homed, AtHome, Keeps}
use nff_go.Flow.Graph.Homes.Inserted.{
  same-Homed, none-AtHome, AtHome-Keeps, Inserts, slice-Inserts, make_slice-Homed, checked-Returns,
}
use nff_go.Flow.Graph.Homes.Called.{SettlesOne, SettlesTwo, branch_off-SettlesTwo}

module _ (homes : List ℕ) (flow : Flow) (at_home : AtHome homes flow) where
  -- A segment ends in rings, and then `g`.
  slice_then :
      {A : Type 0} (P : A → Type 0) (net : Net) (out number : ℕ) (will_close : Bool)
      (g : Net × Flow × ℕ → Result A)
      → Homed net homes
      → flow.segment ≡ some number
      → ((r : Net × Flow × ℕ) → Inserts homes r → Returns P (g r))
      → Returns P (
          make_slice net out number
          >>= (λ r. segment_insert r.0 (some flow) r.1 will_close none 0 0 >>= g))
  slice_then P net out number will_close g h e k =
      Returns-bind P (λ r. Homed r.0 homes × (r.1.next ≡ none)) _ _
        (make_slice-Homed net homes out number h)
        (λ r w.
          Returns-bind P (Inserts homes) _ _
            (slice-Inserts r.0 homes flow number r.1 will_close w.0 at_home e w.1) k)

  closed-Settles : (net : Net) → Homed net homes → SettlesOne homes (close_flow net flow)
  unfolding close_flow
  closed-Settles net h = record {
    later = homes;
    keeps = λ f seg e. e;
    homed = same-Homed net _ homes refl refl h;
    out_home = λ seg o b k m. cc;
    news_home = tt;
  }

  finish_in-Settles :
      (net : Net) (seg : Option ℕ)
      → Homed net homes
      → flow.segment ≡ seg
      → Returns (λ r. SettlesOne homes (r.0, r.1)) (finish_in net flow seg)
  unfolding finish_in create_rings
  finish_in-Settles net none h e = closed-Settles net h
  finish_in-Settles net (some number) h e =
      slice_then (λ r. SettlesOne homes (r.0, r.1)) (record net { rings = net.rings + 1 }) net.rings
        number true _ (same-Homed net _ homes refl refl h) e
        (λ r v. record {
          later = v.later;
          keeps = v.keeps;
          homed = v.homed;
          out_home = v.at_home;
          news_home = tt;
        })

  pub merge_in-Settles :
      (net : Net) (seg : Option ℕ) (to : ℕ)
      → Homed net homes
      → flow.segment ≡ seg
      → Returns (SettlesOne homes) (merge_in net flow seg to)
  unfolding merge_in merge
  merge_in-Settles net none to h e =
      Returns-bind (SettlesOne homes) (λ (from : ℕ). Unit {0}) (deref flow.current) _
        (Returns-of _ (deref flow.current) (λ from k. tt))
        (λ from u. elim (Bool-cases (all_first_rings flow.in_index_number net.functions)) [
          | inl t ↦ rw t (closed-Settles _ (same-Homed net _ homes refl refl h))
          | inr f ↦ rw f tt
        ])
  merge_in-Settles net (some number) to h e =
      slice_then (SettlesOne homes) net to number true _ h e (λ r v. record {
        later = v.later;
        keeps = v.keeps;
        homed = v.homed;
        out_home = v.at_home;
        news_home = tt;
      })

  pub set_stopper-Settles :
      (net : Net) → Homed net homes → Returns (SettlesOne homes) (set_stopper net (some flow))
  unfolding set_stopper
  set_stopper-Settles net h =
      checked-Returns (SettlesOne homes) flow _
        (merge_in-Settles net flow.segment net.stop_ring h refl)

  -- A function of the scheduler is added behind the flow.
  finished_then :
      (net : Net) (g : Net × Flow × Option ℕ → Result (Net × Flow))
      → Homed net homes
      → ((r : Net × Flow × Option ℕ)
          → SettlesOne homes (r.0, r.1)
          → Returns (SettlesOne homes) (g r))
      → Returns (SettlesOne homes) (finish_flow net flow >>= g)
  unfolding finish_flow
  finished_then net g h k =
      Returns-bind (SettlesOne homes) (λ r. SettlesOne homes (r.0, r.1)) _ g
        (finish_in-Settles net flow.segment h refl) k

  same-Settles :
      (net next : Net) (out : Flow)
      → next.funcs ≡ net.funcs
      → next.segments ≡ net.segments
      → SettlesOne homes (net, out)
      → SettlesOne homes (next, out)
  same-Settles net next out f s w = record {
    later = w.later;
    keeps = w.keeps;
    homed = same-Homed net next w.later f s w.homed;
    out_home = w.out_home;
    news_home = tt;
  }

  pub set_sender_file-Settles :
      (net : Net) → Homed net homes → Returns (SettlesOne homes) (set_sender_file net (some flow))
  unfolding set_sender_file add_ff
  set_sender_file-Settles net h =
      checked-Returns (SettlesOne homes) flow _
        (finished_then net _ h (λ r w. same-Settles r.0 _ r.1 refl refl w))

  pub set_sender_kni-Settles :
      (net : Net) (port : ℕ)
      → Homed net homes
      → Returns (SettlesOne homes) (set_sender_kni net (some flow) port)
  unfolding set_sender_kni add_ff
  set_sender_kni-Settles net port h =
      checked-Returns (SettlesOne homes) flow _
        (finished_then net _ h (λ r w. same-Settles r.0 _ r.1 refl refl w))

  pub set_sender-Settles :
      (net : Net) (port : ℕ)
      → Homed net homes
      → Returns (SettlesOne homes) (set_sender net (some flow) port)
  unfolding set_sender add_ff
  set_sender-Settles net port h = checked-Returns (SettlesOne homes) flow _ (
      Returns-bind (SettlesOne homes) (λ (p : Port). Unit {0}) (port_of net port) _
        (Returns-of _ (port_of net port) (λ p e. tt))
        (λ p u.
          let ports =
            put net.created_ports port (record p {
              was_requested = true;
              tx_queues_number = u16 (p.tx_queues_number + 1);
            }) in
          finished_then net _ h (λ r w.
            let next =
              add_ff r.0 (send_parameters port (some p.tx_queues_number) r.2) r.1.in_index_number in
            Returns-bind (SettlesOne homes) (λ (qs : List Port). Unit {0}) ports
              (λ qs. ok (record next { created_ports = qs }, r.1)) (Returns-of _ ports (λ qs e. tt))
              (λ qs v. same-Settles r.0 (record next { created_ports = qs }) r.1 refl refl w))))

  copier_input-Settles :
      (net : Net) (seg : Option ℕ)
      → Homed net homes
      → flow.segment ≡ seg
      → Returns
          (λ r. SettlesOne homes (r.0, r.1) × (r.1.segment ≡ none))
          (copier_input net flow seg)
  unfolding copier_input create_rings
  copier_input-Settles net none h e = (
    record {
      later = homes;
      keeps = λ f seg k. k;
      homed = h;
      out_home = none-AtHome homes flow e;
      news_home = tt;
    },
    e,
  )
  copier_input-Settles net (some number) h e =
      slice_then (λ r. SettlesOne homes (r.0, r.1) × (r.1.segment ≡ none))
        (record net { rings = net.rings + 1 }) net.rings number false _
        (same-Homed net _ homes refl refl h) e
        (λ r v. (
          record {
            later = v.later;
            keeps = v.keeps;
            homed = v.homed;
            out_home = λ seg o b k m. cc;
            news_home = tt;
          },
          refl,
        ))

  pub set_copier-Settles :
      (net : Net) → Homed net homes → Returns (SettlesTwo homes) (set_copier net (some flow))
  unfolding set_copier create_rings add_ff new_flow
  set_copier-Settles net h = checked-Returns (SettlesTwo homes) flow _ (
      Returns-bind (SettlesTwo homes) (λ r. SettlesOne homes (r.0, r.1) × (r.1.segment ≡ none)) _ _
        (copier_input-Settles (record net { rings = net.rings + 1 + 1 }) flow.segment
          (same-Homed net _ homes refl refl h) refl)
        (λ r w. record {
          later = w.0.later;
          keeps = w.0.keeps;
          homed = same-Homed r.0 _ w.0.later refl refl w.0.homed;
          out_home = λ seg o b k m. let gone = w.1 in cc;
          news_home = ((λ seg o b k m. cc), tt);
        }))

Keeps-trans : (a b c : List ℕ) → Keeps a b → Keeps b c → Keeps a c
Keeps-trans a b c h k f seg e = k f seg (h f seg e)

module _ (net : Net) (homes : List ℕ) (h : Homed net homes) (flow : Flow)
    (at_home : AtHome homes flow) where
  drop_by-Settles :
      (s v context : Option ℕ) (set_type : ℕ)
      → Returns (SettlesOne homes) (drop_by net (some flow) s v context set_type)
  unfolding drop_by make_separator make_func
  drop_by-Settles s v context set_type =
      Returns-bind (SettlesOne homes) (SettlesTwo homes) _ _
        (branch_off-SettlesTwo net homes h flow at_home (make_separator s v) 2 context set_type 1 0
          (record { made = refl }))
        (λ r w.
          Returns-bind (SettlesOne homes) (SettlesOne w.later) _ _
            (set_stopper-Settles w.later r.2 w.news_home.0 r.0 w.homed)
            (λ t k. record {
              later = k.later;
              keeps = Keeps-trans homes w.later k.later w.keeps k.keeps;
              homed = k.homed;
              out_home = AtHome-Keeps w.later k.later r.1 k.keeps w.out_home;
              news_home = tt;
            }))

  pub set_handler_drop-Settles :
      (f : ℕ) (context : Option ℕ)
      → Returns (SettlesOne homes) (set_handler_drop net (some flow) f context)
  unfolding set_handler_drop
  set_handler_drop-Settles f context = drop_by-Settles (some f) none context 1

  pub set_vector_handler_drop-Settles :
      (f : ℕ) (context : Option ℕ)
      → Returns (SettlesOne homes) (set_vector_handler_drop net (some flow) f context)
  unfolding set_vector_handler_drop
  set_vector_handler_drop-Settles f context = drop_by-Settles none (some f) context 2
