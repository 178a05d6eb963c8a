-- ===== src/Tests/Parsing.antt =====
-- Parsing a TCP packet, with and without a tag, and the numbers of an address.
use nff_go.Base.{◌≡◌, true}
use nff_go.Packet.Parse.Layers.{parsed, parse_data-parsed, parse_data_check_vlan-parsed}
use nff_go.Packet.Parse.{parse_data, parse_data_check_vlan}
use nff_go.Tests.Samples.{packet-IsPlaced, tcp_frame, tcp_packet, tagged_frame, tagged_packet}

parse_data-parsed_example :
    parse_data tcp_packet ≡ (record tcp_packet { l3 = 78; l4 = 98; data_ptr = 118 }, true)
unfolding parsed
parse_data-parsed_example = parse_data-parsed tcp_packet (packet-IsPlaced tcp_frame)

parse_data_check_vlan-parsed_example :
    parse_data_check_vlan tagged_packet
    ≡ (record tagged_packet { l3 = 82; l4 = 102; data_ptr = 122 }, true)
unfolding parsed
parse_data_check_vlan-parsed_example =
    parse_data_check_vlan-parsed tagged_packet (packet-IsPlaced tagged_frame)
