-- ===== src/Packet/Checksum.antt =====
-- packet/checksum.go: the software checksums. `mem` is the memory by address; a sum of uint32
-- terms wraps once at its end, which is the same number as wrapping at each `+`.
pub mod Reduce
pub mod Bytes
pub mod Receiver
pub mod Segments
pub mod Ipv6
use nff_go.Base.{
  ℕ, zero, suc, ◌+◌, ◌-◌, ◌*◌, ◌/◌, ◌%◌, ◌<◌, ◌^◌, List, ◌==◌, if◌then◌else◌, arith, bit_and,
  bit_or, u8, u16, u32, u64, sub16, not16, ◌<<<◌, ◌>>>◌, get_or, lt_wf, dec_lt,
}
use nff_go.Base.Bits.{bit_and-low}
use mathlib.Core.Logic.{dite}
use mathlib.Core.WellFounded.{Acc}
use nff_go.Common.Constants.{ipv4_min_len, udp_len, tcp_min_len, icmp_len}
use nff_go.Packet.ByteOrder.{swap_bytes_uint16}
use nff_go.Packet.Headers.{IPv4Hdr, IPv6Hdr, TcpHdr, UdpHdr, IcmpHdr}

-- One round of the loop of `reduceChecksum`.
unfoldable pub fold_carry : ℕ → ℕ
fold_carry sum = u32 (sum >>> 16 + bit_and sum 0xffff)

pub fold_carry-lt : (sum : ℕ) → 0xffff < sum → fold_carry sum < sum
unfolding fold_carry
fold_carry-lt sum h = omega (arith, bit_and-low 16 sum)

-- The loop runs while a carry is left; the sum falls in each round.
unfoldable pub reduce_loop : (sum : ℕ) → Acc ◌<◌ sum → ℕ
reduce_loop sum (Acc.intro _ smaller) =
    dite (dec_lt 0xffff sum)
      (λ h. reduce_loop (fold_carry sum) (smaller (fold_carry sum) (fold_carry-lt sum h)))
      (λ _. u16 sum)

unfoldable pub reduce_checksum : ℕ → ℕ
unfolding reduce_loop fold_carry lt_wf dec_lt
reduce_checksum sum = reduce_loop sum (lt_wf.apply sum)

-- A uint16 of the memory, as a little-endian machine reads it.
abbrev pub load_uint16 : (ℕ → ℕ) → ℕ → ℕ
load_uint16 mem a = mem a + mem (a + 1) * 256

-- The loop over the words of the slice, at word `i` with `left` words to go.
unfoldable pub sum_slice : (ℕ → ℕ) → ℕ → ℕ → ℕ → ℕ → ℕ
sum_slice mem uptr zero i sum = sum
sum_slice mem uptr (suc left) i sum =
    sum_slice mem uptr left (i + 1) (u32 (sum + swap_bytes_uint16 (load_uint16 mem (uptr + 2 * i))))

-- `offset` is the two's complement pattern of the Go `int`.
unfoldable pub calculate_data_checksum : (ℕ → ℕ) → ℕ → ℕ → ℕ → ℕ
unfolding sum_slice
calculate_data_checksum mem ptr len offset =
    let uptr = u64 (ptr + offset) in
    let sum = sum_slice mem uptr (len / 2) 0 0 in
    if bit_and len 1 == 0 then sum else u32 (sum + mem (u64 (uptr + (len - 1))) <<< 8)

unfoldable pub calculate_ipv4_addr_checksum : IPv4Hdr → ℕ
calculate_ipv4_addr_checksum hdr = u32 (
    swap_bytes_uint16 (u16 (hdr.src_addr >>> 16))
    + swap_bytes_uint16 (u16 hdr.src_addr)
    + swap_bytes_uint16 (u16 (hdr.dst_addr >>> 16))
    + swap_bytes_uint16 (u16 hdr.dst_addr))

-- The words of the header but the checksum.
unfoldable pub ipv4_header_sum : IPv4Hdr → ℕ
ipv4_header_sum hdr = u32 (
    hdr.version_ihl <<< 8
    + hdr.type_of_service
    + swap_bytes_uint16 hdr.total_length
    + swap_bytes_uint16 hdr.packet_id
    + swap_bytes_uint16 hdr.fragment_offset
    + hdr.time_to_live <<< 8
    + hdr.next_proto_id
    + swap_bytes_uint16 (u16 (hdr.src_addr >>> 16))
    + swap_bytes_uint16 (u16 hdr.src_addr)
    + swap_bytes_uint16 (u16 (hdr.dst_addr >>> 16))
    + swap_bytes_uint16 (u16 hdr.dst_addr))

unfoldable pub calculate_ipv4_checksum : IPv4Hdr → ℕ
calculate_ipv4_checksum hdr = not16 (reduce_checksum (ipv4_header_sum hdr))

-- A checksum of zero is sent as all ones.
unfoldable pub avoid_zero : ℕ → ℕ
avoid_zero ret_sum = if ret_sum == 0 then not16 ret_sum else ret_sum

-- The sum that `CalculateIPv4UDPChecksum` reduces.
unfoldable pub ipv4_udp_sum : (ℕ → ℕ) → IPv4Hdr → UdpHdr → ℕ → ℕ
ipv4_udp_sum mem hdr udp ptr =
    let data_length = sub16 (swap_bytes_uint16 hdr.total_length) ipv4_min_len in
    let sum = calculate_data_checksum mem ptr (sub16 data_length udp_len) 0 in
    u32 (
      sum
      + (calculate_ipv4_addr_checksum hdr
          + hdr.next_proto_id
          + swap_bytes_uint16 udp.dgram_len
          + swap_bytes_uint16 udp.src_port
          + swap_bytes_uint16 udp.dst_port
          + swap_bytes_uint16 udp.dgram_len))

unfoldable pub calculate_ipv4_udp_checksum : (ℕ → ℕ) → IPv4Hdr → UdpHdr → ℕ → ℕ
calculate_ipv4_udp_checksum mem hdr udp ptr =
    avoid_zero (not16 (reduce_checksum (ipv4_udp_sum mem hdr udp ptr)))

unfoldable pub calculate_tcp_checksum : TcpHdr → ℕ
calculate_tcp_checksum tcp = u32 (
    swap_bytes_uint16 tcp.src_port
    + swap_bytes_uint16 tcp.dst_port
    + swap_bytes_uint16 (u16 (tcp.sent_seq >>> 16))
    + swap_bytes_uint16 (u16 tcp.sent_seq)
    + swap_bytes_uint16 (u16 (tcp.recv_ack >>> 16))
    + swap_bytes_uint16 (u16 tcp.recv_ack)
    + tcp.data_off <<< 8
    + tcp.tcp_flags
    + swap_bytes_uint16 tcp.rx_win
    + swap_bytes_uint16 tcp.tcp_urp)

-- The sum that `CalculateIPv4TCPChecksum` reduces; the options are part of the data.
unfoldable pub ipv4_tcp_sum : (ℕ → ℕ) → IPv4Hdr → TcpHdr → ℕ → ℕ
ipv4_tcp_sum mem hdr tcp ptr =
    let data_length = sub16 (swap_bytes_uint16 hdr.total_length) ipv4_min_len in
    let sum = calculate_data_checksum mem ptr (sub16 data_length tcp_min_len) 0 in
    u32 (
      sum
      + (calculate_ipv4_addr_checksum hdr
          + hdr.next_proto_id
          + data_length
          + calculate_tcp_checksum tcp))

unfoldable pub calculate_ipv4_tcp_checksum : (ℕ → ℕ) → IPv4Hdr → TcpHdr → ℕ → ℕ
calculate_ipv4_tcp_checksum mem hdr tcp ptr = not16 (reduce_checksum (ipv4_tcp_sum mem hdr tcp ptr))
