-- ===== src/Flow/Predefined.antt =====
-- `handleARPICMPRequests` of flow/predefined.go. The map `portPair` is a function from an address to
-- the port that has it. The packet that `NewPacket` allocates is given, with a memory of its own; that
-- there is none left, which ends the program, is left out. Sending hands the packet to the port.
pub mod Resolved
pub mod Copied
pub mod Echoed
use nff_go.Base.{
  ℕ, ◌+◌, Bool, true, false, not, List, [], ◌∷◌, Option, none, some, ◌==◌, ◌||◌, equal,
  if◌then◌else◌,
}
use nff_go.Common.Constants.{icmp_number}
use nff_go.Packet.Arp.{arp_request, no_address, init_arp_reply_packet}
use nff_go.Packet.ByteOrder.{swap_bytes_uint16, bytes_to_ipv4}
use nff_go.Packet.Checksum.{calculate_ipv4_checksum}
use nff_go.Packet.Checksum.Ipv6.{calculate_ipv4_icmp_checksum}
use nff_go.Packet.Headers.{IPv4Hdr, IcmpHdr}
use nff_go.Packet.Init.{generate_packet_from_byte, write_data}
use nff_go.Packet.Parse.{
  parse_l3, get_arp_check_vlan, get_ipv4, parse_l4_for_ipv4, get_icmp_for_ipv4, parse_l7,
}
use nff_go.Packet.State.{
  Packet, ptr_add, load_16, load_32, load_bytes, store_8, store_16, store_32, ether_d_addr,
  ether_s_addr,
}

pub record Port : Type 0 where
  pub port : ℕ
  pub mac : List ℕ

-- Whether the packet stays in its flow, what it holds then, and what was sent to which port.
pub record Handled : Type 0 where
  pub stays : Bool
  pub current : Packet
  pub sent : Option (Packet × ℕ)

-- `ArrayToIPv4` of the four bytes at an address.
unfoldable pub array_to_ipv4 : (ℕ → ℕ) → ℕ → ℕ
unfolding bytes_to_ipv4
array_to_ipv4 mem a = bytes_to_ipv4 (mem a) (mem (a + 1)) (mem (a + 2)) (mem (a + 3))

abbrev pub load_ipv4_hdr : (ℕ → ℕ) → ℕ → IPv4Hdr
load_ipv4_hdr mem a = record {
  version_ihl = mem a;
  type_of_service = mem (a + 1);
  total_length = load_16 mem (a + 2);
  packet_id = load_16 mem (a + 4);
  fragment_offset = load_16 mem (a + 6);
  time_to_live = mem (a + 8);
  next_proto_id = mem (a + 9);
  hdr_checksum = load_16 mem (a + 10);
  src_addr = load_32 mem (a + 12);
  dst_addr = load_32 mem (a + 16);
}

abbrev pub load_icmp_hdr : (ℕ → ℕ) → ℕ → IcmpHdr
load_icmp_hdr mem a = record {
  type = mem a;
  code = mem (a + 1);
  cksum = load_16 mem (a + 2);
  identifier = load_16 mem (a + 4);
  seq_num = load_16 mem (a + 6);
}

-- What is done with an ARP packet, whose header stands at `arp`.
unfoldable pub answer_arp : (ℕ → Option Port) → Packet → Packet → ℕ → Handled
unfolding array_to_ipv4 equal
answer_arp port_pair allocated current arp =
    let mem = current.mem in
    let dropped : Handled = record { stays = false; current = current; sent = none } in
    if not (swap_bytes_uint16 (load_16 mem (arp + 6)) == arp_request)
      || not (equal (load_bytes mem (arp + 18) 6) no_address)
    then dropped
    else elim (port_pair (array_to_ipv4 mem (arp + 24))) [
      | none ↦ dropped
      | some port ↦
          let answer =
            (init_arp_reply_packet allocated port.mac (load_bytes mem (arp + 8) 6)
              (array_to_ipv4 mem (arp + 24)) (array_to_ipv4 mem (arp + 14))).0 in
          record { stays = false; current = current; sent = some (answer, port.port) }
    ]

-- The packet with the bytes of `current` and the addresses the other way round; its type of ICMP is
-- an echo reply.
unfoldable pub echo_reply : Packet → Packet → Packet
unfolding generate_packet_from_byte
echo_reply allocated current =
    let raw =
      load_bytes current.mem (ptr_add current.c_mbuf.buf_addr current.c_mbuf.data_off)
        current.c_mbuf.data_len in
    let copied = (generate_packet_from_byte allocated raw).0 in
    let dest = write_data copied.mem copied.ether (ether_s_addr current) in
    let source = write_data dest (copied.ether + 6) (ether_d_addr current) in
    let third = parse_l3 (record copied { mem = source }) in
    let dst = store_32 third.mem (third.l3 + 16) (load_32 current.mem (current.l3 + 12)) in
    let src = store_32 dst (third.l3 + 12) (load_32 current.mem (current.l3 + 16)) in
    let fourth = parse_l4_for_ipv4 (record third { mem = src }) in
    parse_l7 (record fourth { mem = store_8 fourth.mem fourth.l4 0 }) icmp_number

-- The two checksums go to the headers of the packet that came in.
unfoldable pub set_checksums : Packet → Packet → Packet
set_checksums current answer =
    let hdr = load_ipv4_hdr current.mem current.l3 in
    let summed =
      store_16 current.mem (current.l3 + 10) (swap_bytes_uint16 (calculate_ipv4_checksum hdr)) in
    let icmp = load_icmp_hdr summed current.l4 in
    let sum =
      calculate_ipv4_icmp_checksum answer.mem (load_ipv4_hdr summed current.l3) icmp
        answer.data_ptr in
    record current { mem = store_16 summed (current.l4 + 2) (swap_bytes_uint16 sum) }

-- What is done with an ICMP packet over IPv4, whose pointers are set.
unfoldable pub answer_icmp : (ℕ → Option Port) → Packet → Packet → Handled
unfolding echo_reply set_checksums
answer_icmp port_pair allocated current =
    let passed : Handled = record { stays = true; current = current; sent = none } in
    if not (current.mem current.l4 == 8) || not (current.mem (current.l4 + 1) == 0)
    then passed
    else elim (port_pair (load_32 current.mem (current.l3 + 16))) [
      | none ↦ passed
      | some port ↦
          let answer = echo_reply allocated current in
          record {
            stays = false;
            current = set_checksums current answer;
            sent = some (answer, port.port);
          }
    ]

-- The packet with its third layer parsed, and where its ARP header stands, if it has one.
unfoldable pub handle_parsed : (ℕ → Option Port) → Packet → Packet → ℕ → Handled
unfolding answer_arp answer_icmp
handle_parsed port_pair allocated current arp =
    if not (arp == 0)
    then answer_arp port_pair allocated current arp
    else if get_ipv4 current == 0
    then record { stays = true; current = current; sent = none }
    else let fourth = parse_l4_for_ipv4 current in
      if get_icmp_for_ipv4 fourth == 0
      then record { stays = true; current = fourth; sent = none }
      else answer_icmp port_pair allocated fourth

unfoldable pub handle_arp_icmp_requests : (ℕ → Option Port) → Packet → Packet → Handled
unfolding handle_parsed
handle_arp_icmp_requests port_pair allocated packet =
    let current = parse_l3 packet in
    handle_parsed port_pair allocated current (get_arp_check_vlan current)
