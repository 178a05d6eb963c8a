-- ===== src/Packet/Checksum/Ipv6.antt =====
-- The checksums of packet/checksum.go over IPv6 and of ICMP, and the pseudo headers for offloading.
use nff_go.Base.{ℕ, ◌+◌, List, ◌∷◌, bit_or, u16, u32, sub16, not16, ◌<<<◌}
use nff_go.Common.Constants.{ipv4_min_len, udp_len, tcp_min_len, icmp_len}
use nff_go.Packet.ByteOrder.{swap_bytes_uint16}
use nff_go.Packet.Checksum.{
  reduce_checksum, calculate_data_checksum, calculate_ipv4_addr_checksum, avoid_zero,
  calculate_tcp_checksum,
}
use nff_go.Packet.Headers.{IPv4Hdr, IPv6Hdr, TcpHdr, UdpHdr, IcmpHdr}

-- The words of an address, added up.
unfoldable pub address_words : List ℕ → ℕ
address_words (a ∷ b ∷ rest) = bit_or (u16 (a <<< 8)) b + address_words rest
address_words _ = 0

unfoldable pub calculate_ipv6_addr_checksum : IPv6Hdr → ℕ
unfolding address_words
calculate_ipv6_addr_checksum hdr = u32 (address_words hdr.src_addr + address_words hdr.dst_addr)

unfoldable pub calculate_ipv6_udp_checksum : (ℕ → ℕ) → IPv6Hdr → UdpHdr → ℕ → ℕ
calculate_ipv6_udp_checksum mem hdr udp ptr =
    let data_length = swap_bytes_uint16 hdr.payload_len in
    let sum = calculate_data_checksum mem ptr (sub16 data_length udp_len) 0 in
    avoid_zero (
      not16 (
        reduce_checksum (
          u32 (
            sum
            + (calculate_ipv6_addr_checksum hdr
                + swap_bytes_uint16 udp.dgram_len
                + hdr.proto
                + swap_bytes_uint16 udp.src_port
                + swap_bytes_uint16 udp.dst_port
                + swap_bytes_uint16 udp.dgram_len)))))

unfoldable pub calculate_ipv6_tcp_checksum : (ℕ → ℕ) → IPv6Hdr → TcpHdr → ℕ → ℕ
calculate_ipv6_tcp_checksum mem hdr tcp ptr =
    let data_length = swap_bytes_uint16 hdr.payload_len in
    let sum = calculate_data_checksum mem ptr (sub16 data_length tcp_min_len) 0 in
    not16 (
      reduce_checksum (
        u32 (
          sum
          + (calculate_ipv6_addr_checksum hdr
              + data_length
              + hdr.proto
              + calculate_tcp_checksum tcp))))

-- The type and the code of an ICMP header, as a word.
abbrev type_code : IcmpHdr → ℕ
type_code icmp = bit_or (u16 (icmp.type <<< 8)) icmp.code

unfoldable pub calculate_ipv4_icmp_checksum : (ℕ → ℕ) → IPv4Hdr → IcmpHdr → ℕ → ℕ
calculate_ipv4_icmp_checksum mem hdr icmp ptr =
    let data_length = sub16 (sub16 (swap_bytes_uint16 hdr.total_length) ipv4_min_len) icmp_len in
    not16 (
      reduce_checksum (
        u32 (
          type_code icmp
          + swap_bytes_uint16 icmp.identifier
          + swap_bytes_uint16 icmp.seq_num
          + calculate_data_checksum mem ptr data_length 0)))

unfoldable pub calculate_ipv6_icmp_checksum : (ℕ → ℕ) → IPv6Hdr → IcmpHdr → ℕ → ℕ
calculate_ipv6_icmp_checksum mem hdr icmp ptr =
    let data_length = swap_bytes_uint16 hdr.payload_len in
    let sum = calculate_data_checksum mem ptr (sub16 data_length icmp_len) 0 in
    not16 (
      reduce_checksum (
        u32 (
          sum
          + (calculate_ipv6_addr_checksum hdr
              + data_length
              + hdr.proto
              + type_code icmp
              + swap_bytes_uint16 icmp.identifier
              + swap_bytes_uint16 icmp.seq_num))))

unfoldable pub calculate_pseudo_hdr_ipv4_tcp_cksum : IPv4Hdr → ℕ
calculate_pseudo_hdr_ipv4_tcp_cksum hdr =
    let data_length = sub16 (swap_bytes_uint16 hdr.total_length) ipv4_min_len in
    reduce_checksum (u32 (calculate_ipv4_addr_checksum hdr + hdr.next_proto_id + data_length))

unfoldable pub calculate_pseudo_hdr_ipv4_udp_cksum : IPv4Hdr → UdpHdr → ℕ
calculate_pseudo_hdr_ipv4_udp_cksum hdr udp =
    reduce_checksum
      (u32 (calculate_ipv4_addr_checksum hdr + hdr.next_proto_id + swap_bytes_uint16 udp.dgram_len))

unfoldable pub calculate_pseudo_hdr_ipv6_tcp_cksum : IPv6Hdr → ℕ
calculate_pseudo_hdr_ipv6_tcp_cksum hdr =
    reduce_checksum
      (u32 (calculate_ipv6_addr_checksum hdr + swap_bytes_uint16 hdr.payload_len + hdr.proto))

unfoldable pub calculate_pseudo_hdr_ipv6_udp_cksum : IPv6Hdr → UdpHdr → ℕ
calculate_pseudo_hdr_ipv6_udp_cksum hdr udp =
    reduce_checksum
      (u32 (calculate_ipv6_addr_checksum hdr + hdr.proto + swap_bytes_uint16 udp.dgram_len))
