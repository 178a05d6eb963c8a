-- ===== src/Tests/Made.antt =====
-- Packets that are made.
use nff_go.Base.{◌≡◌, refl, true, false, [], ◌∷◌}
use nff_go.Low.Mbuf.{append_mbuf}
use nff_go.Packet.Init.{
  init_empty_ipv4_tcp_packet, init_empty_ipv4_packet, generate_packet_from_byte, write_data,
}
use nff_go.Packet.Init.Reparsed.{parse_data-init_empty_ipv4_tcp_packet}
use nff_go.Packet.Parse.{parse_data}
use nff_go.Tests.Samples.{packet, packet-IsPlaced}

room : (init_empty_ipv4_tcp_packet true (packet []) 10).1 ≡ true
unfolding init_empty_ipv4_tcp_packet append_mbuf
room = refl

parse_data-init_empty_ipv4_tcp_packet_example :
    parse_data ((init_empty_ipv4_tcp_packet true (packet []) 10).0)
    ≡ ((init_empty_ipv4_tcp_packet true (packet []) 10).0, true)
parse_data-init_empty_ipv4_tcp_packet_example =
    parse_data-init_empty_ipv4_tcp_packet true (packet []) 10 (packet-IsPlaced []) room

-- 2100 bytes do not fit the buffer.
no_room : (init_empty_ipv4_packet false (packet []) 2100).1 ≡ false
unfolding init_empty_ipv4_packet append_mbuf
no_room = refl

written : (generate_packet_from_byte (packet []) (7 ∷ 8 ∷ [])).0.mem 65 ≡ 8
unfolding generate_packet_from_byte append_mbuf write_data
written = refl
