-- ===== src/Packet/Checksum/Receiver.antt =====
-- The checksums against the receiver's test: the words of the bytes on the wire, the checksum
-- among them, reduce to all ones.
use nff_go.Base.{ℕ, ◌+◌, ◌*◌, ◌/◌, ◌%◌, ◌<◌, ◌^◌, ◌≡◌, ◌↔◌, List, [], ◌∷◌, arith, u16, ◌>>>◌}
use nff_go.Packet.ByteOrder.Laws.{swap_bytes_uint16-eq}
use nff_go.Packet.ByteOrder.{swap_bytes_uint16}
use nff_go.Packet.Checksum.Bytes.{sum_words}
use nff_go.Packet.Checksum.Reduce.{reduce_checksum_receiver}
use nff_go.Packet.Checksum.{reduce_checksum, calculate_ipv4_checksum, ipv4_header_sum}
use nff_go.Packet.Headers.{IPv4Hdr, IsIPv4Hdr}

-- How a field lies in memory.
abbrev pub bytes_16 : ℕ → List ℕ → List ℕ
bytes_16 v rest = v % 256 ∷ v / 256 ∷ rest

abbrev pub bytes_32 : ℕ → List ℕ → List ℕ
bytes_32 v rest = v % 256 ∷ v / 2 ^ 8 % 256 ∷ v / 2 ^ 16 % 256 ∷ v / 2 ^ 24 ∷ rest

-- The header without options, as it lies in the packet.
abbrev pub ipv4_bytes : IPv4Hdr → List ℕ
ipv4_bytes h =
    h.version_ihl
    ∷ h.type_of_service
    ∷ bytes_16 h.total_length (
        bytes_16 h.packet_id (
          bytes_16 h.fragment_offset (
            h.time_to_live
            ∷ h.next_proto_id
            ∷ bytes_16 h.hdr_checksum (bytes_32 h.src_addr (bytes_32 h.dst_addr [])))))

-- The swaps of the two halves of an address are the words of its bytes.
pub halves :
    (x : ℕ)
    → x < 2 ^ 32
    → swap_bytes_uint16 (u16 (x >>> 16)) + swap_bytes_uint16 (u16 x)
      ≡ (x % 256 * 256 + x / 2 ^ 8 % 256) + (x / 2 ^ 16 % 256 * 256 + x / 2 ^ 24)
halves x h = omega (
  arith,
  swap_bytes_uint16-eq (u16 (x >>> 16)) (omega arith),
  swap_bytes_uint16-eq (u16 x) (omega arith),
)

-- A half of an address is within 16 bits.
pub swap-lt : (x : ℕ) → x < 2 ^ 16 → swap_bytes_uint16 x < 2 ^ 16
swap-lt x h = omega (arith, swap_bytes_uint16-eq x h)

module _ (h : IPv4Hdr) (v : IsIPv4Hdr h) where
  open v use {
    total_length_fits, packet_id_fits, fragment_offset_fits, hdr_checksum_fits, src_addr_fits,
    dst_addr_fits,
  }

  ipv4_header_sum-eq :
      ipv4_header_sum h + swap_bytes_uint16 h.hdr_checksum ≡ sum_words (ipv4_bytes h)
  unfolding ipv4_header_sum sum_words
  ipv4_header_sum-eq = omega (
    arith,
    swap_bytes_uint16-eq h.total_length total_length_fits,
    swap_bytes_uint16-eq h.packet_id packet_id_fits,
    swap_bytes_uint16-eq h.fragment_offset fragment_offset_fits,
    swap_bytes_uint16-eq h.hdr_checksum hdr_checksum_fits,
    halves h.src_addr src_addr_fits,
    halves h.dst_addr dst_addr_fits,
  )

  ipv4_words-le : sum_words (ipv4_bytes h) < 2 ^ 32
  unfolding sum_words
  ipv4_words-le = omega arith

  ipv4_words-pos : 0 < h.version_ihl → 0 < sum_words (ipv4_bytes h)
  unfolding sum_words
  ipv4_words-pos pos = omega arith

-- A header without options, whose length field is 5, verifies at the receiver exactly when its
-- checksum field holds, in network order, the result of `CalculateIPv4Checksum`, the two forms of
-- zero taken as one.
pub calculate_ipv4_checksum_receiver :
    (h : IPv4Hdr)
    → IsIPv4Hdr h
    → h.version_ihl % 16 ≡ 5
    → (reduce_checksum (sum_words (ipv4_bytes h)) ≡ 0xffff)
      ↔ (swap_bytes_uint16 h.hdr_checksum % 65535 ≡ calculate_ipv4_checksum h % 65535)
unfolding calculate_ipv4_checksum
calculate_ipv4_checksum_receiver h v short =
    let e = ipv4_header_sum-eq h v in
    rw (← e) (
      reduce_checksum_receiver (ipv4_header_sum h) (swap_bytes_uint16 h.hdr_checksum)
        (omega (arith, e, ipv4_words-le h v))
        (omega (arith, e, ipv4_words-pos h v (omega (arith, short))))
        (swap-lt h.hdr_checksum v.hdr_checksum_fits))
