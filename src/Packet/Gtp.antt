-- ===== src/Packet/Gtp.antt =====
-- The GTP tunnels of packet/gtp.go: a GTP header behind headers of IPv4 and UDP.
pub mod Tunnel
use nff_go.Base.{ℕ, ◌+◌, Bool, true, false, not, if◌then◌else◌, u16, sub64}
use nff_go.Common.Constants.{ether_len, ipv4_min_len, udp_len, udp_number, gtp_min_len}
use nff_go.Packet.Buffer.{encapsulate_head, decapsulate_head}
use nff_go.Packet.ByteOrder.{swap_bytes_uint16, swap_bytes_uint32}
use nff_go.Packet.Parse.{unparsed, parse_l3, parse_l4_for_ipv4, parse_l7}
use nff_go.Packet.State.{Packet, ptr_add, store_8, store_16, store_32}

abbrev pub g_pdu : ℕ
g_pdu = 255

-- The header behind what was parsed.
unfoldable pub get_gtp : Packet → ℕ
get_gtp p = p.data_ptr

unfoldable pub gtp_ipv4_fast_parsing : Packet → ℕ
unfolding unparsed
gtp_ipv4_fast_parsing p = ptr_add (ptr_add (unparsed p) ipv4_min_len) udp_len

unfoldable pub gtp_ipv4_all_parsing : Packet → Packet × ℕ
unfolding parse_l3 parse_l4_for_ipv4 parse_l7 get_gtp
gtp_ipv4_all_parsing p =
    let q = parse_l7 (parse_l4_for_ipv4 (parse_l3 p)) udp_number in (q, get_gtp q)

unfoldable pub encapsulate_ipv4_gtp : ℕ → Packet → ℕ → Packet × Bool
unfolding encapsulate_head unparsed swap_bytes_uint16 swap_bytes_uint32
encapsulate_ipv4_gtp packet_struct_size p teid =
    let length = sub64 p.c_mbuf.pkt_len ether_len in
    let (q, done) =
      encapsulate_head packet_struct_size p ether_len (ipv4_min_len + udp_len + gtp_min_len) in
    if not done then (q, false) else (
      let gtp = ptr_add (ptr_add (unparsed q) ipv4_min_len) udp_len in
          let header_type = store_8 q.mem gtp 0x30 in
          let message_type = store_8 header_type (gtp + 1) g_pdu in
          let message_length = store_16 message_type (gtp + 2) (swap_bytes_uint16 (u16 length)) in
          record q { mem = store_32 message_length (gtp + 4) (swap_bytes_uint32 teid) },
      true,
    )

unfoldable pub decapsulate_ipv4_gtp : Packet → Packet × Bool
unfolding decapsulate_head
decapsulate_ipv4_gtp p =
    let (q, done) = decapsulate_head p ether_len (ipv4_min_len + udp_len + gtp_min_len) in
    if not done then (q, false) else (q, true)
