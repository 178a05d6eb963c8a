-- ===== src/Tests/Checksums.antt =====
-- Checksums of small packets.
use nff_go.Base.{ℕ, ◌*◌, ◌%◌, ◌<◌, ◌≡◌, ◌≢◌, ◌↔◌, arith}
use nff_go.Packet.Checksum.Bytes.{sum_words, load, calculate_data_checksum-sum_words}
use nff_go.Packet.Checksum.Receiver.{ipv4_bytes, calculate_ipv4_checksum_receiver}
use nff_go.Packet.Checksum.Reduce.{Reduces, reduce_checksum-Reduces}
use nff_go.Packet.Checksum.Segments.{
  udp_segment, tcp_segment, calculate_ipv4_udp_checksum_receiver,
  calculate_ipv4_tcp_checksum_receiver,
}
use nff_go.Packet.Checksum.{
  reduce_checksum, calculate_data_checksum, calculate_ipv4_checksum, calculate_ipv4_udp_checksum,
  calculate_ipv4_tcp_checksum,
}
use nff_go.Packet.Headers.{IPv4Hdr, TcpHdr, UdpHdr, IsIPv4Hdr, IsTcpHdr, IsUdpHdr}
use nff_go.Packet.ByteOrder.{swap_bytes_uint16}
use nff_go.Tests.Samples.{memory, memory-lt, ipv4_tcp}

-- An IPv4 header for `n` bytes in all, of a protocol.
abbrev ip : ℕ → ℕ → IPv4Hdr
ip n protocol = record {
  version_ihl = 0x45;
  type_of_service = 0;
  total_length = n * 256;
  packet_id = 0x100;
  fragment_offset = 0;
  time_to_live = 64;
  next_proto_id = protocol;
  hdr_checksum = 0x1234;
  src_addr = 0x0100000a;
  dst_addr = 0x0200000a;
}

ip-IsIPv4Hdr : (n protocol : ℕ) → n < 256 → protocol < 256 → IsIPv4Hdr (ip n protocol)
ip-IsIPv4Hdr n protocol h k = record {
  version_ihl_fits = omega arith;
  type_of_service_fits = omega arith;
  total_length_fits = omega (arith, h);
  packet_id_fits = omega arith;
  fragment_offset_fits = omega arith;
  time_to_live_fits = omega arith;
  next_proto_id_fits = omega (arith, k);
  hdr_checksum_fits = omega arith;
  src_addr_fits = omega arith;
  dst_addr_fits = omega arith;
}

abbrev udp : UdpHdr
udp = record { src_port = 0x3500; dst_port = 0x3412; dgram_len = 0x0b00; dgram_cksum = 0x5678 }

udp-IsUdpHdr : IsUdpHdr udp
udp-IsUdpHdr = record {
  src_port_fits = omega arith;
  dst_port_fits = omega arith;
  dgram_len_fits = omega arith;
  dgram_cksum_fits = omega arith;
}

abbrev tcp : TcpHdr
tcp = record {
  src_port = 0x5000;
  dst_port = 0x3412;
  sent_seq = 0x01000000;
  recv_ack = 0;
  data_off = 0x50;
  tcp_flags = 2;
  rx_win = 0xff;
  cksum = 0x9abc;
  tcp_urp = 0;
}

tcp-IsTcpHdr : IsTcpHdr tcp
tcp-IsTcpHdr = record {
  src_port_fits = omega arith;
  dst_port_fits = omega arith;
  sent_seq_fits = omega arith;
  recv_ack_fits = omega arith;
  data_off_fits = omega arith;
  tcp_flags_fits = omega arith;
  rx_win_fits = omega arith;
  cksum_fits = omega arith;
  tcp_urp_fits = omega arith;
}

reduce_checksum-Reduces_example : Reduces 0x1fffe (reduce_checksum 0x1fffe)
reduce_checksum-Reduces_example = reduce_checksum-Reduces 0x1fffe (omega arith)

-- An odd number of bytes.
calculate_data_checksum-sum_words_example :
    calculate_data_checksum (memory ipv4_tcp) 64 39 0 ≡ sum_words (load (memory ipv4_tcp) 64 39)
calculate_data_checksum-sum_words_example =
    calculate_data_checksum-sum_words (memory ipv4_tcp) 64 39 (memory-lt ipv4_tcp) (omega arith)
      (omega arith)

calculate_ipv4_checksum_receiver_example :
    (reduce_checksum (sum_words (ipv4_bytes (ip 40 6))) ≡ 0xffff)
    ↔ (swap_bytes_uint16 0x1234 % 65535 ≡ calculate_ipv4_checksum (ip 40 6) % 65535)
calculate_ipv4_checksum_receiver_example =
    calculate_ipv4_checksum_receiver (ip 40 6) (ip-IsIPv4Hdr 40 6 (omega arith) (omega arith))
      (omega arith)

calculate_ipv4_udp_checksum_receiver_example :
    ((reduce_checksum (sum_words (udp_segment (memory ipv4_tcp) (ip 31 17) udp 64)) ≡ 0xffff) ↔ (
      swap_bytes_uint16 0x5678 % 65535
      ≡ calculate_ipv4_udp_checksum (memory ipv4_tcp) (ip 31 17) udp 64 % 65535))
    × (calculate_ipv4_udp_checksum (memory ipv4_tcp) (ip 31 17) udp 64 ≢ 0)
calculate_ipv4_udp_checksum_receiver_example =
    calculate_ipv4_udp_checksum_receiver (memory ipv4_tcp) (ip 31 17) udp 64 (memory-lt ipv4_tcp)
      (ip-IsIPv4Hdr 31 17 (omega arith) (omega arith)) udp-IsUdpHdr (omega arith)
      (unfold swap_bytes_uint16 in omega arith) (omega arith)
      (unfold swap_bytes_uint16 in omega arith) (unfold swap_bytes_uint16 in omega arith)

calculate_ipv4_tcp_checksum_receiver_example :
    (reduce_checksum (sum_words (tcp_segment (memory ipv4_tcp) (ip 43 6) tcp 64)) ≡ 0xffff) ↔ (
      swap_bytes_uint16 0x9abc % 65535
      ≡ calculate_ipv4_tcp_checksum (memory ipv4_tcp) (ip 43 6) tcp 64 % 65535)
calculate_ipv4_tcp_checksum_receiver_example =
    calculate_ipv4_tcp_checksum_receiver (memory ipv4_tcp) (ip 43 6) tcp 64 (memory-lt ipv4_tcp)
      (ip-IsIPv4Hdr 43 6 (omega arith) (omega arith)) tcp-IsTcpHdr (omega arith)
      (unfold swap_bytes_uint16 in omega arith) (omega arith)
      (unfold swap_bytes_uint16 in omega arith)
