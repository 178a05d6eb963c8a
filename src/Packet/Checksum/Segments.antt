-- ===== src/Packet/Checksum/Segments.antt =====
-- The UDP and TCP checksums over IPv4 against the receiver's test, on the pseudo header, the
-- header and the data as they lie in memory.
use nff_go.Base.{
  ℕ, ◌+◌, ◌-◌, ◌*◌, ◌/◌, ◌%◌, ◌≤◌, ◌<◌, ◌^◌, ◌≡◌, ◌≢◌, ◌↔◌, List, [], ◌∷◌, arith, sub16, ap, ◌∙◌,
}
use nff_go.Common.Constants.{ipv4_min_len}
use nff_go.Packet.ByteOrder.Laws.{swap_bytes_uint16-eq}
use nff_go.Packet.ByteOrder.{swap_bytes_uint16}
use nff_go.Packet.Checksum.Bytes.{
  sum_words, load, IsMemory, calculate_data_checksum-sum_words, sum_words-load-lt,
}
use nff_go.Packet.Checksum.Receiver.{bytes_16, bytes_32, halves, swap-lt}
use nff_go.Packet.Checksum.Reduce.{reduce_checksum_receiver}
use nff_go.Packet.Checksum.{
  reduce_checksum, calculate_ipv4_addr_checksum, calculate_tcp_checksum, ipv4_udp_sum, ipv4_tcp_sum,
  calculate_ipv4_udp_checksum, calculate_ipv4_tcp_checksum, calculate_data_checksum, avoid_zero,
}
use nff_go.Packet.Headers.{IPv4Hdr, IsIPv4Hdr, TcpHdr, IsTcpHdr, UdpHdr, IsUdpHdr}

-- The length of the datagram, as the IPv4 header has it.
abbrev total : IPv4Hdr → ℕ
total h = swap_bytes_uint16 h.total_length

-- What the header says of its own length, in bytes, options included.
abbrev pub header_size : IPv4Hdr → ℕ
header_size h = h.version_ihl % 16 * 4

-- The pseudo header, the UDP header and the data, by the length of the UDP header.
abbrev pub udp_segment : (ℕ → ℕ) → IPv4Hdr → UdpHdr → ℕ → List ℕ
udp_segment mem h udp ptr = bytes_32 h.src_addr (
    bytes_32 h.dst_addr (
      0
      ∷ h.next_proto_id
      ∷ bytes_16 udp.dgram_len (
          bytes_16 udp.src_port (
            bytes_16 udp.dst_port (
              bytes_16 udp.dgram_len
                (bytes_16 udp.dgram_cksum (load mem ptr (swap_bytes_uint16 udp.dgram_len - 8))))))))

-- The pseudo header with the length that the IPv4 header leaves, the minimal TCP header, and the
-- options of TCP with the data.
abbrev pub tcp_segment : (ℕ → ℕ) → IPv4Hdr → TcpHdr → ℕ → List ℕ
tcp_segment mem h tcp ptr = bytes_32 h.src_addr (
    bytes_32 h.dst_addr (
      0
      ∷ h.next_proto_id
      ∷ (total h - header_size h) / 256
      ∷ (total h - header_size h) % 256
      ∷ bytes_16 tcp.src_port (
          bytes_16 tcp.dst_port (
            bytes_32 tcp.sent_seq (
              bytes_32 tcp.recv_ack (
                tcp.data_off
                ∷ tcp.tcp_flags
                ∷ bytes_16 tcp.rx_win (
                    bytes_16 tcp.cksum
                      (bytes_16 tcp.tcp_urp (load mem ptr (total h - header_size h - 20))))))))))

module _ (mem : ℕ → ℕ) (h : IPv4Hdr) (v : IsIPv4Hdr h) (ptr : ℕ) (bytes : IsMemory mem)
    (fits : ptr + total h < 2 ^ 64) where
  segment_data :
      (c n : ℕ)
      → 20 + c ≤ total h
      → n ≡ total h - (20 + c)
      → calculate_data_checksum mem ptr (sub16 (sub16 (total h) ipv4_min_len) c) 0
        ≡ sum_words (load mem ptr n)
  segment_data c n room e =
      let small = swap-lt h.total_length v.total_length_fits in
      let same : sub16 (sub16 (total h) ipv4_min_len) c ≡ n = omega arith in
      ap (λ n. calculate_data_checksum mem ptr n 0) same
      ∙ calculate_data_checksum-sum_words mem ptr n bytes (omega arith) (omega arith)

  segment_bound : (c n : ℕ) → n ≡ total h - (20 + c) → sum_words (load mem ptr n) ≤ 65535 * 32768
  segment_bound c n e = omega (
    arith,
    swap-lt h.total_length v.total_length_fits,
    sum_words-load-lt mem n ptr bytes (omega (arith, swap-lt h.total_length v.total_length_fits)),
  )

  addr-eq :
      calculate_ipv4_addr_checksum h
      ≡ h.src_addr % 256 * 256
        + h.src_addr / 2 ^ 8 % 256
        + (h.src_addr / 2 ^ 16 % 256 * 256 + h.src_addr / 2 ^ 24)
        + (h.dst_addr % 256 * 256
            + h.dst_addr / 2 ^ 8 % 256
            + (h.dst_addr / 2 ^ 16 % 256 * 256 + h.dst_addr / 2 ^ 24))
  unfolding calculate_ipv4_addr_checksum
  addr-eq = omega (
    arith,
    v.src_addr_fits,
    v.dst_addr_fits,
    halves h.src_addr v.src_addr_fits,
    halves h.dst_addr v.dst_addr_fits,
  )

  module _ (udp : UdpHdr) (u : IsUdpHdr udp) (room : 28 ≤ total h)
      (rest : swap_bytes_uint16 udp.dgram_len ≡ total h - 20) where
    abbrev data_len : ℕ
    data_len = swap_bytes_uint16 udp.dgram_len - 8

    data_len-eq : data_len ≡ total h - 28
    data_len-eq = omega (arith, rest)

    ipv4_udp_sum-eq :
        ipv4_udp_sum mem h udp ptr + swap_bytes_uint16 udp.dgram_cksum
        ≡ sum_words (udp_segment mem h udp ptr)
    unfolding ipv4_udp_sum sum_words
    ipv4_udp_sum-eq = rw (segment_data 8 data_len room data_len-eq) (
        omega (
          arith,
          addr-eq,
          v.src_addr_fits,
          v.dst_addr_fits,
          v.next_proto_id_fits,
          segment_bound 8 data_len data_len-eq,
          swap_bytes_uint16-eq udp.src_port u.src_port_fits,
          swap_bytes_uint16-eq udp.dst_port u.dst_port_fits,
          swap_bytes_uint16-eq udp.dgram_len u.dgram_len_fits,
          swap_bytes_uint16-eq udp.dgram_cksum u.dgram_cksum_fits,
          u.src_port_fits,
          u.dst_port_fits,
          u.dgram_len_fits,
          u.dgram_cksum_fits,
        ))

    udp_segment_bounds :
        0 < h.next_proto_id
        → (sum_words (udp_segment mem h udp ptr) < 2 ^ 32)
          × (0 < sum_words (udp_segment mem h udp ptr))
    unfolding sum_words
    udp_segment_bounds pos = (
      omega (
        arith,
        segment_bound 8 data_len data_len-eq,
        v.src_addr_fits,
        v.dst_addr_fits,
        v.next_proto_id_fits,
        u.src_port_fits,
        u.dst_port_fits,
        u.dgram_len_fits,
        u.dgram_cksum_fits,
      ),
      omega arith,
    )

  tcp_sum-eq :
      (tcp : TcpHdr)
      → IsTcpHdr tcp
      → calculate_tcp_checksum tcp + swap_bytes_uint16 tcp.cksum
        ≡ sum_words (
            bytes_16 tcp.src_port (
              bytes_16 tcp.dst_port (
                bytes_32 tcp.sent_seq (
                  bytes_32 tcp.recv_ack (
                    tcp.data_off
                    ∷ tcp.tcp_flags
                    ∷ bytes_16 tcp.rx_win (bytes_16 tcp.cksum (bytes_16 tcp.tcp_urp [])))))))
  unfolding calculate_tcp_checksum sum_words
  tcp_sum-eq tcp t = omega (
    arith,
    halves tcp.sent_seq t.sent_seq_fits,
    halves tcp.recv_ack t.recv_ack_fits,
    t.sent_seq_fits,
    t.recv_ack_fits,
    t.data_off_fits,
    t.tcp_flags_fits,
    swap_bytes_uint16-eq tcp.src_port t.src_port_fits,
    swap_bytes_uint16-eq tcp.dst_port t.dst_port_fits,
    swap_bytes_uint16-eq tcp.rx_win t.rx_win_fits,
    swap_bytes_uint16-eq tcp.cksum t.cksum_fits,
    swap_bytes_uint16-eq tcp.tcp_urp t.tcp_urp_fits,
    t.src_port_fits,
    t.dst_port_fits,
    t.rx_win_fits,
    t.cksum_fits,
    t.tcp_urp_fits,
  )

  module _ (tcp : TcpHdr) (t : IsTcpHdr tcp) (room : 40 ≤ total h)
      (short : h.version_ihl % 16 ≡ 5) where
    abbrev left : ℕ
    left = total h - header_size h - 20

    left-eq : left ≡ total h - 40
    left-eq = omega (arith, short)

    open t use {
      src_port_fits, dst_port_fits, sent_seq_fits, recv_ack_fits, data_off_fits, tcp_flags_fits,
      rx_win_fits, cksum_fits, tcp_urp_fits,
    }

    ipv4_tcp_sum-eq :
        ipv4_tcp_sum mem h tcp ptr + swap_bytes_uint16 tcp.cksum
        ≡ sum_words (tcp_segment mem h tcp ptr)
    unfolding ipv4_tcp_sum sum_words
    ipv4_tcp_sum-eq = rw (segment_data 20 left room left-eq) (
        omega (
          arith,
          addr-eq,
          tcp_sum-eq tcp t,
          swap-lt h.total_length v.total_length_fits,
          v.src_addr_fits,
          v.dst_addr_fits,
          v.next_proto_id_fits,
          segment_bound 20 left left-eq,
          src_port_fits,
          dst_port_fits,
          sent_seq_fits,
          recv_ack_fits,
          data_off_fits,
          tcp_flags_fits,
          rx_win_fits,
          cksum_fits,
          tcp_urp_fits,
        ))

    tcp_segment_bounds :
        0 < h.next_proto_id
        → (sum_words (tcp_segment mem h tcp ptr) < 2 ^ 32)
          × (0 < sum_words (tcp_segment mem h tcp ptr))
    unfolding sum_words
    tcp_segment_bounds pos = (
      omega (
        arith,
        segment_bound 20 left left-eq,
        v.src_addr_fits,
        v.dst_addr_fits,
        v.next_proto_id_fits,
        swap-lt h.total_length v.total_length_fits,
        src_port_fits,
        dst_port_fits,
        sent_seq_fits,
        recv_ack_fits,
        data_off_fits,
        tcp_flags_fits,
        rx_win_fits,
        cksum_fits,
        tcp_urp_fits,
      ),
      omega arith,
    )

-- For a datagram whose IPv4 header has no options, and whose UDP length is what the IPv4 length
-- leaves, at least a UDP header, the receiver's sum over the UDP length is all ones exactly when the
-- checksum field holds, in network order, the result of `CalculateIPv4UDPChecksum`, the two forms of
-- zero taken as one; and that result is never zero.
pub calculate_ipv4_udp_checksum_receiver :
    (mem : ℕ → ℕ) (h : IPv4Hdr) (udp : UdpHdr) (ptr : ℕ)
    → IsMemory mem
    → IsIPv4Hdr h
    → IsUdpHdr udp
    → 0 < h.next_proto_id
    → 28 ≤ swap_bytes_uint16 h.total_length
    → h.version_ihl % 16 ≡ 5
    → swap_bytes_uint16 udp.dgram_len ≡ swap_bytes_uint16 h.total_length - header_size h
    → ptr + swap_bytes_uint16 h.total_length < 2 ^ 64
    → ((reduce_checksum (sum_words (udp_segment mem h udp ptr)) ≡ 0xffff) ↔ (
        swap_bytes_uint16 udp.dgram_cksum % 65535
        ≡ calculate_ipv4_udp_checksum mem h udp ptr % 65535))
      × (calculate_ipv4_udp_checksum mem h udp ptr ≢ 0)
unfolding calculate_ipv4_udp_checksum avoid_zero
calculate_ipv4_udp_checksum_receiver mem h udp ptr bytes v u pos room short rest fits =
    let len : swap_bytes_uint16 udp.dgram_len ≡ total h - 20 = omega (arith, short, rest) in
    let e = ipv4_udp_sum-eq mem h v ptr bytes fits udp u room len in
    let bounds = udp_segment_bounds mem h v ptr bytes fits udp u room len pos in
    let test =
      reduce_checksum_receiver (ipv4_udp_sum mem h udp ptr) (swap_bytes_uint16 udp.dgram_cksum)
        (omega (arith, e, bounds)) (omega (arith, e, bounds))
        (swap-lt udp.dgram_cksum u.dgram_cksum_fits) in
    rw (← e) ((λ p. ground (arith, test.0 p), λ p. ground (arith, test.1)), λ p. ground arith)

-- For a segment whose IPv4 header has no options, and whose IPv4 length leaves room for 40 bytes of
-- headers, the options of TCP counting as data, the receiver's sum is all ones exactly when the checksum field holds, in network order, the result of
-- `CalculateIPv4TCPChecksum`, the two forms of zero taken as one.
pub calculate_ipv4_tcp_checksum_receiver :
    (mem : ℕ → ℕ) (h : IPv4Hdr) (tcp : TcpHdr) (ptr : ℕ)
    → IsMemory mem
    → IsIPv4Hdr h
    → IsTcpHdr tcp
    → 0 < h.next_proto_id
    → 40 ≤ swap_bytes_uint16 h.total_length
    → h.version_ihl % 16 ≡ 5
    → ptr + swap_bytes_uint16 h.total_length < 2 ^ 64
    → (reduce_checksum (sum_words (tcp_segment mem h tcp ptr)) ≡ 0xffff)
      ↔ (swap_bytes_uint16 tcp.cksum % 65535 ≡ calculate_ipv4_tcp_checksum mem h tcp ptr % 65535)
unfolding calculate_ipv4_tcp_checksum
calculate_ipv4_tcp_checksum_receiver mem h tcp ptr bytes v t pos room short fits =
    let e = ipv4_tcp_sum-eq mem h v ptr bytes fits tcp t room short in
    let bounds = tcp_segment_bounds mem h v ptr bytes fits tcp t room short pos in
    rw (← e) (
      reduce_checksum_receiver (ipv4_tcp_sum mem h tcp ptr) (swap_bytes_uint16 tcp.cksum)
        (omega (arith, e, bounds)) (omega (arith, e, bounds)) (swap-lt tcp.cksum t.cksum_fits))
