-- ===== src/Packet/Init.antt =====
-- Making packets, `GeneratePacketFromByte` to `InitEmptyIPv6ICMPPacket` of packet/packet.go. Each
-- gives back the packet and whether its buffer had room. `hw_tx_checksum` is the package variable
-- `hwtxchecksum`; the flags that it sets for the network card are not part of the packet.
pub mod Reparsed
pub mod Writes
use nff_go.Base.{ℕ, ◌+◌, Bool, true, false, not, List, [], ◌∷◌, length, if◌then◌else◌, u16, u64}
use nff_go.Common.Constants.{
  ether_len, ipv4_min_len, ipv6_len, tcp_min_len, udp_len, icmp_len, arp_len, ipv4_number,
  ipv6_number, arp_number, tcp_number, udp_number, icmp_number, icmpv6_number, no_next_header,
  ipv4_version_ihl, ipv6_vtc_flow, tcp_min_data_offset,
}
use nff_go.Low.Mbuf.{append_mbuf}
use nff_go.Packet.ByteOrder.{swap_bytes_uint16}
use nff_go.Packet.Parse.{unparsed, parse_l3, parse_l4_for_ipv4, parse_l4_for_ipv6, tcp_data}
use nff_go.Packet.State.{Packet, ptr_add, store_8, store_16, store_32}

-- The bytes of a slice at an address.
unfoldable pub write_data : (ℕ → ℕ) → ℕ → List ℕ → ℕ → ℕ
write_data mem a [] = mem
write_data mem a (b ∷ bs) = write_data (store_8 mem a b) (a + 1) bs

-- A step on a packet whose buffer has room for the bytes.
unfoldable pub append_then : Packet → ℕ → (Packet → Packet) → Packet × Bool
append_then p size fill =
    let (mb, done) = append_mbuf p.c_mbuf size in
    if not done then (record p { c_mbuf = mb }, false) else (fill (record p { c_mbuf = mb }), true)

unfoldable pub generate_packet_from_byte : Packet → List ℕ → Packet × Bool
unfolding append_then
generate_packet_from_byte p bytes =
    append_then p (length bytes)
      (λ q. record q { mem = write_data q.mem (ptr_add q.c_mbuf.buf_addr q.c_mbuf.data_off) bytes })

unfoldable pub init_empty_packet : Packet → ℕ → Packet × Bool
unfolding append_then
init_empty_packet p pl_size =
    append_then p (u64 (pl_size + ether_len)) (λ q. record q { data_ptr = unparsed q })

unfoldable pub fill_ipv4_default : Packet → ℕ → ℕ → Packet
fill_ipv4_default p pl_len next_proto =
    let version = store_8 p.mem p.l3 ipv4_version_ihl in
    let total = store_16 version (p.l3 + 2) (swap_bytes_uint16 pl_len) in
    let proto = store_8 total (p.l3 + 9) next_proto in
    record p { mem = store_8 proto (p.l3 + 8) 64 }

unfoldable pub fill_ipv6_default : Packet → ℕ → ℕ → Packet
fill_ipv6_default p total_len next_proto =
    let payload = store_16 p.mem (p.l3 + 4) (swap_bytes_uint16 total_len) in
    let flow = store_32 payload p.l3 ipv6_vtc_flow in
    let proto = store_8 flow (p.l3 + 6) next_proto in
    record p { mem = store_8 proto (p.l3 + 7) 255 }

-- `packet.Ether.EtherType = SwapBytesUint16(...)`
unfoldable pub set_ether_type : Packet → ℕ → Packet
set_ether_type p number = record p {
  mem = store_16 p.mem (p.ether + 12) (swap_bytes_uint16 number);
}

-- The data pointer at a distance from the end of the Ethernet header.
unfoldable pub set_data_at : Packet → ℕ → Packet
set_data_at p n = record p { data_ptr = ptr_add (unparsed p) n }

-- The checksum that the network card computes begins as 0.
unfoldable pub clear_checksum : Bool → Packet → Packet
clear_checksum hw_tx_checksum p =
    if hw_tx_checksum then record p { mem = store_16 p.mem (p.l3 + 10) 0 } else p

unfoldable pub init_empty_ipv4_packet : Bool → Packet → ℕ → Packet × Bool
unfolding append_then set_ether_type set_data_at clear_checksum
init_empty_ipv4_packet hw p pl_size = append_then p (u64 (pl_size + ether_len + ipv4_min_len)) (λ q.
    let parsed = parse_l3 (set_data_at (set_ether_type q ipv4_number) ipv4_min_len) in
    clear_checksum hw (fill_ipv4_default parsed (u16 (ipv4_min_len + pl_size)) no_next_header))

unfoldable pub init_empty_ipv6_packet : Packet → ℕ → Packet × Bool
unfolding append_then set_ether_type set_data_at
init_empty_ipv6_packet p pl_size = append_then p (u64 (pl_size + ether_len + ipv6_len)) (λ q.
    let parsed = parse_l3 (set_data_at (set_ether_type q ipv6_number) ipv6_len) in
    fill_ipv6_default parsed (u16 pl_size) no_next_header)

unfoldable pub init_empty_arp_packet : Packet → Packet × Bool
unfolding append_then set_ether_type
init_empty_arp_packet p =
    append_then p (ether_len + arp_len) (λ q. parse_l3 (set_ether_type q arp_number))

-- `DataOff` of the TCP header, and the data behind it.
unfoldable pub set_tcp_data : Packet → Packet
unfolding tcp_data
set_tcp_data p =
    let q = record p { mem = store_8 p.mem (p.l4 + 12) tcp_min_data_offset } in
    record q { data_ptr = tcp_data q }

-- `DgramLen` of the UDP header.
unfoldable pub set_dgram_len : Packet → ℕ → Packet
set_dgram_len p pl_size = record p {
  mem = store_16 p.mem (p.l4 + 4) (swap_bytes_uint16 (u16 (udp_len + pl_size)));
}

unfoldable pub init_empty_ipv4_tcp_packet : Bool → Packet → ℕ → Packet × Bool
unfolding append_then set_ether_type set_tcp_data clear_checksum
init_empty_ipv4_tcp_packet hw p pl_size =
    append_then p (u64 (pl_size + ether_len + ipv4_min_len + tcp_min_len)) (λ q.
      let parsed = parse_l3 (set_ether_type q ipv4_number) in
      let filled =
        fill_ipv4_default parsed (u16 (ipv4_min_len + tcp_min_len + pl_size)) tcp_number in
      clear_checksum hw (set_tcp_data (parse_l4_for_ipv4 filled)))

unfoldable pub init_empty_ipv4_udp_packet : Bool → Packet → ℕ → Packet × Bool
unfolding append_then set_ether_type set_data_at set_dgram_len clear_checksum
init_empty_ipv4_udp_packet hw p pl_size =
    append_then p (u64 (pl_size + ether_len + ipv4_min_len + udp_len)) (λ q.
      let parsed = parse_l3 (set_data_at (set_ether_type q ipv4_number) (ipv4_min_len + udp_len)) in
      let filled = fill_ipv4_default parsed (u16 (ipv4_min_len + udp_len + pl_size)) udp_number in
      clear_checksum hw (set_dgram_len (parse_l4_for_ipv4 filled) pl_size))

unfoldable pub init_empty_ipv4_icmp_packet : Packet → ℕ → Packet × Bool
unfolding append_then set_ether_type set_data_at
init_empty_ipv4_icmp_packet p pl_size =
    append_then p (u64 (pl_size + ether_len + ipv4_min_len + icmp_len)) (λ q.
      let parsed =
        parse_l3 (set_data_at (set_ether_type q ipv4_number) (ipv4_min_len + icmp_len)) in
      parse_l4_for_ipv4
        (fill_ipv4_default parsed (u16 (ipv4_min_len + icmp_len + pl_size)) icmp_number))

unfoldable pub init_empty_ipv6_tcp_packet : Packet → ℕ → Packet × Bool
unfolding append_then set_ether_type set_tcp_data
init_empty_ipv6_tcp_packet p pl_size =
    append_then p (u64 (pl_size + ether_len + ipv6_len + tcp_min_len)) (λ q.
      let parsed = parse_l3 (set_ether_type q ipv6_number) in
      let filled = fill_ipv6_default parsed (u16 (tcp_min_len + pl_size)) tcp_number in
      set_tcp_data (parse_l4_for_ipv6 filled))

unfoldable pub init_empty_ipv6_udp_packet : Packet → ℕ → Packet × Bool
unfolding append_then set_ether_type set_data_at set_dgram_len
init_empty_ipv6_udp_packet p pl_size =
    append_then p (u64 (pl_size + ether_len + ipv6_len + udp_len)) (λ q.
      let parsed = parse_l3 (set_data_at (set_ether_type q ipv6_number) (ipv6_len + udp_len)) in
      let filled = fill_ipv6_default parsed (u16 (udp_len + pl_size)) udp_number in
      set_dgram_len (parse_l4_for_ipv6 filled) pl_size)

unfoldable pub init_empty_ipv6_icmp_packet : Packet → ℕ → Packet × Bool
unfolding append_then set_ether_type set_data_at
init_empty_ipv6_icmp_packet p pl_size =
    append_then p (u64 (pl_size + ether_len + ipv6_len + icmp_len)) (λ q.
      let parsed = parse_l3 (set_data_at (set_ether_type q ipv6_number) (ipv6_len + icmp_len)) in
      parse_l4_for_ipv6 (fill_ipv6_default parsed (u16 (icmp_len + pl_size)) icmpv6_number))
