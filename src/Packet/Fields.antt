-- ===== src/Packet/Fields.antt =====
-- The fields of the tags: the identifier of packet/vlan.go, and the label, the class, the stack bit and
-- the time to live of packet/mpls.go. A header is its word as a little-endian machine reads it.
pub mod Updates
use nff_go.Base.{
  ℕ, ◌+◌, ◌-◌, ◌*◌, ◌/◌, ◌^◌, bit_and, bit_or, Option, none, some, ◌==◌, if◌then◌else◌, u32, sub32,
  ◌<<<◌, ◌>>>◌,
}
use nff_go.Packet.ByteOrder.{swap_bytes_uint16, swap_bytes_uint32}

unfoldable pub get_vlan_tag_identifier : ℕ → ℕ
get_vlan_tag_identifier tci = bit_and (swap_bytes_uint16 tci) 0x0fff

unfoldable pub set_vlan_tag_identifier : ℕ → ℕ → ℕ
set_vlan_tag_identifier tci tag =
    swap_bytes_uint16 (bit_or (bit_and (swap_bytes_uint16 tci) 0xf000) (bit_and tag 0x0fff))

unfoldable pub get_mpls_label : ℕ → ℕ
get_mpls_label mpls = swap_bytes_uint32 mpls >>> 12

unfoldable pub set_mpls_label : ℕ → ℕ → ℕ
set_mpls_label mpls tag =
    swap_bytes_uint32 (bit_or (bit_and (swap_bytes_uint32 mpls) 0xfff) (u32 (tag <<< 12)))

unfoldable pub get_mpls_tc : ℕ → ℕ
get_mpls_tc mpls = bit_and (swap_bytes_uint32 mpls >>> 9) 0x00000007

unfoldable pub get_mpls_s : ℕ → ℕ
get_mpls_s mpls = bit_and (swap_bytes_uint32 mpls >>> 8) 1

unfoldable pub get_mpls_ttl : ℕ → ℕ
get_mpls_ttl mpls = bit_and (swap_bytes_uint32 mpls) 0x000000ff

-- `none` where `DecreaseTTL` returns false and leaves the header as it is.
unfoldable pub decrease_ttl : ℕ → Option ℕ
decrease_ttl mpls =
    let new_time = sub32 (bit_and (swap_bytes_uint32 mpls) 0x000000ff) 1 in
    if new_time == 0
    then none
    else some (swap_bytes_uint32 (bit_or (bit_and (swap_bytes_uint32 mpls) 0xffffff00) new_time))
