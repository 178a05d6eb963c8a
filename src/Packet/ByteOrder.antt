-- ===== src/Packet/ByteOrder.antt =====
-- Byte swaps and the conversions of IPv4 addresses of packet/packet.go.
pub mod Laws
use nff_go.Base.{ℕ, ◌*◌, ◌%◌, List, [], ◌∷◌, bit_and, bit_or, u8, u16, u32, ◌<<<◌, ◌>>>◌}

unfoldable pub swap_bytes_uint16 : ℕ → ℕ
swap_bytes_uint16 x = bit_or (u16 (x <<< 8)) (x >>> 8)

unfoldable pub swap_bytes_uint32 : ℕ → ℕ
swap_bytes_uint32 x =
    bit_or
      (bit_or (bit_or (u32 (bit_and x 0x000000ff <<< 24)) (u32 (bit_and x 0x0000ff00 <<< 8)))
        (bit_and x 0x00ff0000 >>> 8))
      (bit_and x 0xff000000 >>> 24)

unfoldable pub bytes_to_ipv4 : ℕ → ℕ → ℕ → ℕ → ℕ
bytes_to_ipv4 a b c d = bit_or (bit_or (bit_or (u32 (d <<< 24)) (u32 (c <<< 16))) (u32 (b <<< 8))) a

unfoldable pub ipv4_to_bytes : ℕ → List ℕ
ipv4_to_bytes v = u8 v ∷ u8 (v >>> 8) ∷ u8 (v >>> 16) ∷ u8 (v >>> 24) ∷ []
