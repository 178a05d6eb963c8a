-- ===== src/Tests/Buffers.antt =====
-- Bytes and tags inserted into a packet, and the fields of tags.
use nff_go.Base.{ℕ, ◌+◌, ◌/◌, ◌^◌, ◌≡◌, refl, some, arith}
use nff_go.Packet.ByteOrder.{swap_bytes_uint16, swap_bytes_uint32}
use nff_go.Packet.Fields.{
  get_vlan_tag_identifier, set_vlan_tag_identifier, get_mpls_label, get_mpls_tc, get_mpls_s,
  get_mpls_ttl, decrease_ttl,
}
use nff_go.Packet.Fields.Updates.{
  get_vlan_tag_identifier-set_vlan_tag_identifier, get_mpls_ttl-decrease_ttl,
}
use nff_go.Packet.Buffer.{encapsulate_head, decapsulate_head, add_vlan_tag, remove_vlan_tag}
use nff_go.Packet.Buffer.RoundTrip.{HasRoom, Inserted, Restored, decapsulate_head-encapsulate_head}
use nff_go.Packet.Buffer.Tags.{IsTagged, remove_vlan_tag-add_vlan_tag}
use nff_go.Tests.Samples.{memory-lt, tcp_frame, tcp_packet}

tcp_packet-HasRoom : HasRoom 32 tcp_packet 12 4
tcp_packet-HasRoom = record {
  bytes = memory-lt tcp_frame;
  some_bytes = omega arith;
  below = omega arith;
  above = omega arith;
  headroom = omega arith;
  data_off_fits = omega arith;
  data_len_fits = omega arith;
  pkt_len_fits = omega arith;
}

decapsulate_head-encapsulate_head_example :
    Inserted tcp_packet 12 4 (encapsulate_head 32 tcp_packet 12 4)
    × Restored tcp_packet (decapsulate_head (encapsulate_head 32 tcp_packet 12 4).0 12 4)
decapsulate_head-encapsulate_head_example =
    decapsulate_head-encapsulate_head 32 tcp_packet 12 4 tcp_packet-HasRoom

remove_vlan_tag-add_vlan_tag_example :
    IsTagged 7 (add_vlan_tag 32 tcp_packet 7)
    × Restored tcp_packet (remove_vlan_tag (add_vlan_tag 32 tcp_packet 7).0)
remove_vlan_tag-add_vlan_tag_example =
    remove_vlan_tag-add_vlan_tag 32 tcp_packet 7 tcp_packet-HasRoom (omega arith)

-- The label 5 with the class 1, the bottom of the stack and the time to live 64.
abbrev mpls : ℕ
mpls = 0x40530000

get_mpls_ttl-decrease_ttl_example :
    (out : ℕ) × (decrease_ttl mpls ≡ some out)
    × (get_mpls_ttl out + 1 ≡ get_mpls_ttl mpls)
    × (get_mpls_label out ≡ get_mpls_label mpls)
    × (get_mpls_tc out ≡ get_mpls_tc mpls)
    × (get_mpls_s out ≡ get_mpls_s mpls)
get_mpls_ttl-decrease_ttl_example = get_mpls_ttl-decrease_ttl mpls (omega arith) (
    let live : get_mpls_ttl mpls ≡ 64 = unfold get_mpls_ttl swap_bytes_uint32 in refl in
    omega (arith, live))

-- A header whose time to live is 0 comes out as all ones.
decrease_ttl-zero : decrease_ttl 0 ≡ some 0xffffffff
unfolding decrease_ttl swap_bytes_uint32
decrease_ttl-zero = refl

get_vlan_tag_identifier-set_vlan_tag_identifier_example :
    (get_vlan_tag_identifier (set_vlan_tag_identifier 0x34a2 0x1007) ≡ 7)
    × (swap_bytes_uint16 (set_vlan_tag_identifier 0x34a2 0x1007) / 2 ^ 12
        ≡ swap_bytes_uint16 0x34a2 / 2 ^ 12)
get_vlan_tag_identifier-set_vlan_tag_identifier_example =
    get_vlan_tag_identifier-set_vlan_tag_identifier 0x34a2 0x1007 (omega arith)
