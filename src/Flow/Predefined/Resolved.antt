-- ===== src/Flow/Predefined/Resolved.antt =====
-- An ARP request for an address of a port is answered with the address of that port.
use nff_go.Base.{
  ℕ, ◌+◌, ◌≡◌, refl, ap, ◌∙◌, arith, Bool, true, false, List, Option, some, u64, equal, equal_iff,
  ◌==◌,
}
use nff_go.Low.Mbuf.{append_mbuf}
use nff_go.Flow.Predefined.{
  Port, array_to_ipv4, answer_arp, handle_parsed, handle_arp_icmp_requests,
}
use nff_go.Packet.Arp.{no_address, init_arp_reply_packet}
use nff_go.Packet.Arp.Made.{IsAddress, IsArp, made, init_arp-made, made-IsArp}
use nff_go.Packet.ByteOrder.{swap_bytes_uint16, ipv4_to_bytes}
use nff_go.Packet.ByteOrder.Laws.{ipv4_to_bytes-bytes_to_ipv4}
use nff_go.Packet.Parse.{parse_l3, get_arp_check_vlan, get_ether_type, unparsed}
use nff_go.Packet.Parse.Layers.{IsPlaced}
use nff_go.Packet.State.{Packet, load_16, load_bytes, ether_type}

-- The request: its type is ARP, without a tag, it asks for an address, and its target is not known.
pub record IsRequest (p : Packet) : Type 0 where
  pub placed : IsPlaced p
  pub types : ether_type p ≡ swap_bytes_uint16 0x0806
  pub operates : load_16 p.mem (p.ether + 14 + 6) ≡ swap_bytes_uint16 1
  pub unknown : load_bytes p.mem (p.ether + 14 + 18) 6 ≡ no_address

-- The bytes of the two IPv4 addresses of the request.
abbrev pub asked : Packet → List ℕ
asked p = load_bytes p.mem (p.ether + 14 + 24) 4

abbrev pub asking : Packet → List ℕ
asking p = load_bytes p.mem (p.ether + 14 + 14) 4

module _ (p : Packet) (request : IsRequest p) where
  open request use {placed, types, operates, unknown}

  abbrev parsed : Packet
  parsed = record p { l3 = p.ether + 14 }

  parse_l3-parsed : parse_l3 p ≡ parsed
  unfolding parse_l3 unparsed
  parse_l3-parsed =
      let there : u64 (p.ether + 14) ≡ p.ether + 14 = omega (arith, placed.below) in rw there refl

  get_arp-parsed : get_arp_check_vlan parsed ≡ p.ether + 14
  unfolding get_arp_check_vlan get_ether_type swap_bytes_uint16
  get_arp-parsed = rw types refl

  address_bytes : (a : ℕ) → ipv4_to_bytes (array_to_ipv4 p.mem a) ≡ load_bytes p.mem a 4
  unfolding array_to_ipv4
  address_bytes a =
      let next : a + 2 ≡ a + 1 + 1 = omega arith in
      let last : a + 3 ≡ a + 1 + 1 + 1 = omega arith in
      (ipv4_to_bytes-bytes_to_ipv4 (p.mem a) (p.mem (a + 1)) (p.mem (a + 2)) (p.mem (a + 3))
        (placed.bytes a) (placed.bytes (a + 1)) (placed.bytes (a + 2)) (placed.bytes (a + 3))).0
      ∙ (rw (next, last) refl)

  asks : (swap_bytes_uint16 (load_16 p.mem (p.ether + 14 + 6)) == 1) ≡ true
  unfolding swap_bytes_uint16
  asks = rw operates refl

  asks_all : equal (load_bytes p.mem (p.ether + 14 + 18) 6) no_address ≡ true
  asks_all = (equal_iff (load_bytes p.mem (p.ether + 14 + 18) 6) no_address).1 unknown

  module _ (port_pair : ℕ → Option Port) (allocated : Packet) (port : Port)
      (found : port_pair (array_to_ipv4 p.mem (p.ether + 14 + 24)) ≡ some port) where
    abbrev answer : Packet
    answer =
        (init_arp_reply_packet allocated port.mac (load_bytes p.mem (p.ether + 14 + 8) 6)
          (array_to_ipv4 p.mem (p.ether + 14 + 24)) (array_to_ipv4 p.mem (p.ether + 14 + 14))).0

    answer_arp-eq :
        answer_arp port_pair allocated parsed (p.ether + 14)
        ≡ record { stays = false; current = parsed; sent = some (answer, port.port) }
    unfolding answer_arp
    answer_arp-eq = rw (asks, asks_all, found) refl

    parsed-eq :
        handle_parsed port_pair allocated parsed (p.ether + 14)
        ≡ record { stays = false; current = parsed; sent = some (answer, port.port) }
    unfolding handle_parsed
    parsed-eq =
        let some_arp : (p.ether + 14 == 0) ≡ false = ground arith in rw some_arp answer_arp-eq

    handled-eq :
        handle_arp_icmp_requests port_pair allocated p
        ≡ record { stays = false; current = parsed; sent = some (answer, port.port) }
    unfolding handle_arp_icmp_requests
    handled-eq =
        ap (λ (q : Packet). handle_parsed port_pair allocated q (get_arp_check_vlan q))
          parse_l3-parsed
        ∙ ap (handle_parsed port_pair allocated parsed) get_arp-parsed
        ∙ parsed-eq

-- The answer to the request `p`: an ARP reply to its sender, which says that the port has the address
-- that was asked for.
pub record IsAnswer (p : Packet) (port : Port) (answer : Packet) : Type 0 where
  pub tip : ℕ
  pub sip : ℕ
  pub tip_bytes : ipv4_to_bytes tip ≡ asked p
  pub sip_bytes : ipv4_to_bytes sip ≡ asking p
  pub says :
      IsArp
        (load_bytes p.mem (p.ether + 14 + 8) 6)
        2
        port.mac
        tip
        (load_bytes p.mem (p.ether + 14 + 8) 6)
        sip
        answer

-- An untagged ARP request whose target is not known, for an address that a port has, with a packet
-- allocated that has room: the request leaves its flow unchanged but for its parsed pointer, and the
-- port sends an ARP reply to the sender that gives the port's address as the one asked for.
pub handle_arp_icmp_requests-resolved :
    (port_pair : ℕ → Option Port) (allocated p : Packet) (port : Port)
    → IsRequest p
    → port_pair (array_to_ipv4 p.mem (p.ether + 14 + 24)) ≡ some port
    → IsAddress port.mac
    → IsPlaced allocated
    → (append_mbuf allocated.c_mbuf 42).1 ≡ true
    → (answer : Packet) × (handle_arp_icmp_requests port_pair allocated p ≡ record {
      stays = false;
      current = record p { l3 = p.ether + 14 };
      sent = some (answer, port.port);
    })
      × IsAnswer p port answer
unfolding init_arp_reply_packet
handle_arp_icmp_requests-resolved port_pair allocated p port request found mac placed room =
    let bytes = request.placed.bytes in
    let sha = load_bytes p.mem (p.ether + 14 + 8) 6 in
    let from : IsAddress sha = record {
      bytes = (bytes _, (bytes _, (bytes _, (bytes _, (bytes _, (bytes _, tt))))));
      size = refl;
    } in
    let tip = array_to_ipv4 p.mem (p.ether + 14 + 24) in
    let sip = array_to_ipv4 p.mem (p.ether + 14 + 14) in
    let reply = made allocated placed 2 sha port.mac sha tip sip from mac from in
    let made-eq = init_arp-made allocated placed 2 sha port.mac sha tip sip from mac from room in
    (
      reply,
      handled-eq p request port_pair allocated port found
          ∙ ap
              (λ (r : Packet × Bool). record {
                stays = false;
                current = record p { l3 = p.ether + 14 };
                sent = some (r.0, port.port);
              })
              made-eq,
      record {
        tip = tip;
        sip = sip;
        tip_bytes = address_bytes p request (p.ether + 14 + 24);
        sip_bytes = address_bytes p request (p.ether + 14 + 14);
        says = made-IsArp allocated placed 2 sha port.mac sha tip sip from mac from (omega arith);
      },
    )
