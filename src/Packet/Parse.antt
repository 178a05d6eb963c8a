-- ===== src/Packet/Parse.antt =====
-- The parsing functions of packet/packet.go and packet/vlan.go: each fills a pointer of the packet
-- or returns one, nil where the packet holds another protocol.
pub mod Layers
use nff_go.Base.{
  ℕ, ◌+◌, ◌*◌, ◌/◌, ◌^◌, bit_and, Bool, true, false, not, ◌||◌, ◌==◌, if◌then◌else◌, u8, ◌<<<◌,
  ◌>>>◌,
}
use nff_go.Common.Constants.{
  ether_len, vlan_len, mpls_len, ipv6_len, udp_len, icmp_len, ipv4_number, ipv6_number, arp_number,
  vlan_number, mpls_number, tcp_number, udp_number, icmp_number, icmpv6_number,
}
use nff_go.Packet.ByteOrder.{swap_bytes_uint16}
use nff_go.Packet.State.{Packet, ptr_add, load_16, ether_type}

-- Three pointers, of which at most one is not nil.
abbrev pub Pointers : Type 0
Pointers = ℕ × ℕ × ℕ

abbrev pub nil : ℕ
nil = 0

unfoldable pub unparsed : Packet → ℕ
unparsed p = ptr_add p.ether ether_len

unfoldable pub parse_l3 : Packet → Packet
parse_l3 p = record p { l3 = unparsed p }

unfoldable pub get_ipv4 : Packet → ℕ
get_ipv4 p = if ether_type p == swap_bytes_uint16 ipv4_number then p.l3 else nil

unfoldable pub get_arp : Packet → ℕ
get_arp p = if ether_type p == swap_bytes_uint16 arp_number then p.l3 else nil

unfoldable pub get_ipv6 : Packet → ℕ
get_ipv6 p = if ether_type p == swap_bytes_uint16 ipv6_number then p.l3 else nil

-- `(VersionIhl & 0x0f) << 2` is a uint8.
unfoldable pub parse_l4_for_ipv4 : Packet → Packet
parse_l4_for_ipv4 p = record p { l4 = ptr_add p.l3 (u8 (bit_and (p.mem p.l3) 0x0f <<< 2)) }

unfoldable pub parse_l4_for_ipv6 : Packet → Packet
parse_l4_for_ipv6 p = record p { l4 = ptr_add p.l3 ipv6_len }

-- `NextProtoID` of the IPv4 header and `Proto` of the IPv6 header.
abbrev pub next_proto_id : Packet → ℕ
next_proto_id p = p.mem (p.l3 + 9)

abbrev pub proto : Packet → ℕ
proto p = p.mem (p.l3 + 6)

unfoldable pub get_tcp_for_ipv4 : Packet → ℕ
get_tcp_for_ipv4 p = if next_proto_id p == tcp_number then p.l4 else nil

unfoldable pub get_udp_for_ipv4 : Packet → ℕ
get_udp_for_ipv4 p = if next_proto_id p == udp_number then p.l4 else nil

unfoldable pub get_icmp_for_ipv4 : Packet → ℕ
get_icmp_for_ipv4 p = if next_proto_id p == icmp_number then p.l4 else nil

unfoldable pub get_tcp_for_ipv6 : Packet → ℕ
get_tcp_for_ipv6 p = if proto p == tcp_number then p.l4 else nil

unfoldable pub get_udp_for_ipv6 : Packet → ℕ
get_udp_for_ipv6 p = if proto p == udp_number then p.l4 else nil

unfoldable pub get_icmp_for_ipv6 : Packet → ℕ
get_icmp_for_ipv6 p = if proto p == icmpv6_number then p.l4 else nil

-- The first of three pointers that is not nil, in its place.
unfoldable pub first_of_three : ℕ → ℕ → ℕ → ℕ → Pointers
first_of_three a b c p =
    if not (a == nil)
    then (p, nil, nil)
    else if not (b == nil)
    then (nil, p, nil)
    else if not (c == nil)
    then (nil, nil, p)
    else (nil, nil, nil)

unfoldable pub parse_all_known_l3 : Packet → Packet × Pointers
unfolding first_of_three get_ipv4 get_ipv6 get_arp
parse_all_known_l3 p =
    let q = parse_l3 p in (q, first_of_three (get_ipv4 q) (get_ipv6 q) (get_arp q) q.l3)

unfoldable pub parse_all_known_l4_for_ipv4 : Packet → Packet × Pointers
unfolding first_of_three get_tcp_for_ipv4 get_udp_for_ipv4 get_icmp_for_ipv4
parse_all_known_l4_for_ipv4 p =
    let q = parse_l4_for_ipv4 p in
    (q, first_of_three (get_tcp_for_ipv4 q) (get_udp_for_ipv4 q) (get_icmp_for_ipv4 q) q.l4)

unfoldable pub parse_all_known_l4_for_ipv6 : Packet → Packet × Pointers
unfolding first_of_three get_tcp_for_ipv6 get_udp_for_ipv6 get_icmp_for_ipv6
parse_all_known_l4_for_ipv6 p =
    let q = parse_l4_for_ipv6 p in
    (q, first_of_three (get_tcp_for_ipv6 q) (get_udp_for_ipv6 q) (get_icmp_for_ipv6 q) q.l4)

-- `DataOff & 0xf0 >> 2` of the TCP header at `L4`.
unfoldable pub tcp_data : Packet → ℕ
tcp_data p = ptr_add p.l4 (bit_and (p.mem (p.l4 + 12)) 0xf0 >>> 2)

-- The last part of `ParseData`: from the pointers of the fourth layer to the data and the result,
-- `true` for 0 and `false` for -1.
unfoldable pub set_data : Packet → Pointers → Packet × Bool
unfolding tcp_data
set_data p (tcp, udp, icmp) =
    if not (tcp == nil)
    then (record p { data_ptr = tcp_data p }, true)
    else if not (udp == nil)
    then (record p { data_ptr = ptr_add p.l4 udp_len }, true)
    else if not (icmp == nil)
    then (record p { data_ptr = ptr_add p.l4 icmp_len }, true)
    else (p, false)

-- The fourth layer, by the pointers of the third.
unfoldable pub parse_l4_by : Packet × Pointers → Packet × Pointers
parse_l4_by (p, (ipv4, ipv6, arp)) =
    if not (ipv4 == nil)
    then parse_all_known_l4_for_ipv4 p
    else if not (ipv6 == nil)
    then parse_all_known_l4_for_ipv6 p
    else (p, (nil, nil, nil))

unfoldable pub parse_data : Packet → Packet × Bool
unfolding parse_l4_by
parse_data p = let (q, l4) = parse_l4_by (parse_all_known_l3 p) in set_data q l4

unfoldable pub parse_l7 : Packet → ℕ → Packet
unfolding tcp_data
parse_l7 p protocol =
    if protocol == tcp_number
    then record p { data_ptr = tcp_data p }
    else if protocol == udp_number
    then record p { data_ptr = ptr_add p.l4 udp_len }
    else if protocol == icmp_number || protocol == icmpv6_number
    then record p { data_ptr = ptr_add p.l4 icmp_len }
    else p

-- packet/vlan.go: the same with one VLAN tag allowed behind the addresses.
unfoldable pub get_vlan : Packet → ℕ
get_vlan p = if ether_type p == swap_bytes_uint16 vlan_number then unparsed p else nil

unfoldable pub get_ether_type : Packet → ℕ
get_ether_type p =
    if ether_type p == swap_bytes_uint16 vlan_number
    then swap_bytes_uint16 (load_16 p.mem (unparsed p + 2))
    else swap_bytes_uint16 (ether_type p)

-- Returns the tag's header, or nil.
unfoldable pub parse_l3_check_vlan : Packet → Packet × ℕ
parse_l3_check_vlan p =
    let ptr = unparsed p in
    if ether_type p == swap_bytes_uint16 vlan_number
    then (record p { l3 = ptr_add ptr vlan_len }, ptr)
    else (record p { l3 = ptr }, nil)

unfoldable pub get_ipv4_check_vlan : Packet → ℕ
get_ipv4_check_vlan p = if get_ether_type p == ipv4_number then p.l3 else nil

unfoldable pub get_arp_check_vlan : Packet → ℕ
get_arp_check_vlan p = if get_ether_type p == arp_number then p.l3 else nil

unfoldable pub get_ipv6_check_vlan : Packet → ℕ
get_ipv6_check_vlan p = if get_ether_type p == ipv6_number then p.l3 else nil

unfoldable pub parse_all_known_l3_check_vlan : Packet → Packet × Pointers
unfolding first_of_three get_ipv4_check_vlan get_ipv6_check_vlan get_arp_check_vlan
parse_all_known_l3_check_vlan p =
    let q = (parse_l3_check_vlan p).0 in
    (q, first_of_three (get_ipv4_check_vlan q) (get_ipv6_check_vlan q) (get_arp_check_vlan q) q.l3)

unfoldable pub parse_data_check_vlan : Packet → Packet × Bool
unfolding parse_l4_by
parse_data_check_vlan p =
    let (q, l4) = parse_l4_by (parse_all_known_l3_check_vlan p) in set_data q l4

-- packet/mpls.go
unfoldable pub get_mpls : Packet → ℕ
get_mpls p = if ether_type p == swap_bytes_uint16 mpls_number then unparsed p else nil

unfoldable pub parse_l3_check_mpls : Packet → Packet × ℕ
parse_l3_check_mpls p =
    let ptr = unparsed p in
    if ether_type p == swap_bytes_uint16 mpls_number
    then (record p { l3 = ptr_add ptr mpls_len }, ptr)
    else (record p { l3 = ptr }, nil)
