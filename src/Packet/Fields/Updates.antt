-- ===== src/Packet/Fields/Updates.antt =====
-- Writing one field of a tag leaves the others as they were.
use nff_go.Base.{
  ℕ, ◌+◌, ◌-◌, ◌*◌, ◌/◌, ◌%◌, ◌^◌, ◌<◌, ◌≡◌, refl, arith, bit_and, bit_or, some, ◌==◌, sub32, false,
}
use nff_go.Base.Bits.{bit_and-low, bit_and-high, bit_or-add}
use nff_go.Packet.ByteOrder.Laws.{swap_bytes_uint16-lt, swap_bytes_uint32-lt, swap_bytes_self}
use nff_go.Packet.ByteOrder.{swap_bytes_uint16, swap_bytes_uint32}
use nff_go.Packet.Fields.{
  get_vlan_tag_identifier, set_vlan_tag_identifier, get_mpls_label, get_mpls_tc, get_mpls_s,
  get_mpls_ttl, decrease_ttl,
}

-- The word that `SetVLANTagIdentifier` swaps: the four high bits of the old one, and the tag.
identifier_word :
    (w tag : ℕ)
    → w < 2 ^ 16
    → bit_or (bit_and w 0xf000) (bit_and tag 0x0fff) ≡ w / 2 ^ 12 * 2 ^ 12 + tag % 2 ^ 12
identifier_word w tag h =
    let high : bit_and w 0xf000 ≡ w / 2 ^ 12 * 2 ^ 12 =
      omega (arith, bit_and-high 12 w 15, bit_and-low 4 (w / 2 ^ 12)) in
    let low : bit_and tag 0x0fff ≡ tag % 2 ^ 12 = bit_and-low 12 tag in
    rw (high, low) (bit_or-add 12 (w / 2 ^ 12) (tag % 2 ^ 12) (omega arith))

-- `SetVLANTagIdentifier` writes the 12 low bits of its argument, which `GetVLANTagIdentifier` then
-- reads, and leaves the four bits of priority and drop eligibility.
pub get_vlan_tag_identifier-set_vlan_tag_identifier :
    (tci tag : ℕ)
    → tci < 2 ^ 16
    → (get_vlan_tag_identifier (set_vlan_tag_identifier tci tag) ≡ tag % 2 ^ 12)
      × (swap_bytes_uint16 (set_vlan_tag_identifier tci tag) / 2 ^ 12
          ≡ swap_bytes_uint16 tci / 2 ^ 12)
unfolding get_vlan_tag_identifier set_vlan_tag_identifier
get_vlan_tag_identifier-set_vlan_tag_identifier tci tag h =
    let w = swap_bytes_uint16 tci in
    let small : w < 2 ^ 16 = swap_bytes_uint16-lt tci h in
    let back =
      (swap_bytes_self (w / 2 ^ 12 * 2 ^ 12 + tag % 2 ^ 12) 0 (omega (arith, small))
        (omega arith)).0 in
    rw (identifier_word w tag small, back)
      (omega (arith, bit_and-low 12 (w / 2 ^ 12 * 2 ^ 12 + tag % 2 ^ 12)), omega arith)

-- The word that `DecreaseTTL` swaps.
ttl_word :
    (w t : ℕ) → w < 2 ^ 32 → t < 2 ^ 8 → bit_or (bit_and w 0xffffff00) t ≡ w / 2 ^ 8 * 2 ^ 8 + t
ttl_word w t h k =
    let high : bit_and w 0xffffff00 ≡ w / 2 ^ 8 * 2 ^ 8 =
      omega (arith, bit_and-high 8 w (2 ^ 24 - 1), bit_and-low 24 (w / 2 ^ 8)) in
    rw high (bit_or-add 8 (w / 2 ^ 8) t k)

-- `DecreaseTTL` on a header whose time to live is at least 2 takes 1 from it and leaves the label, the
-- class and the stack bit.
pub get_mpls_ttl-decrease_ttl :
    (mpls : ℕ)
    → mpls < 2 ^ 32
    → 1 < get_mpls_ttl mpls
    → (out : ℕ) × (decrease_ttl mpls ≡ some out)
      × (get_mpls_ttl out + 1 ≡ get_mpls_ttl mpls)
      × (get_mpls_label out ≡ get_mpls_label mpls)
      × (get_mpls_tc out ≡ get_mpls_tc mpls)
      × (get_mpls_s out ≡ get_mpls_s mpls)
unfolding decrease_ttl get_mpls_ttl get_mpls_label get_mpls_tc get_mpls_s
get_mpls_ttl-decrease_ttl mpls h live =
    let w = swap_bytes_uint32 mpls in
    let small : w < 2 ^ 32 = swap_bytes_uint32-lt mpls h in
    let v = w / 2 ^ 8 * 2 ^ 8 + (w % 2 ^ 8 - 1) in
    let ttl : bit_and w 0xff ≡ w % 2 ^ 8 = bit_and-low 8 w in
    let time : sub32 (bit_and w 0xff) 1 ≡ w % 2 ^ 8 - 1 = omega (arith, ttl, live) in
    let goes_on : (w % 2 ^ 8 - 1 == 0) ≡ false = ground (arith, ttl, live) in
    let back : swap_bytes_uint32 (swap_bytes_uint32 v) ≡ v =
      (swap_bytes_self 0 v (omega arith) (omega (arith, small))).1 in
    (
      swap_bytes_uint32 v,
      (rw (time, goes_on, ttl_word w (w % 2 ^ 8 - 1) small (omega arith)) refl),
      (rw back (omega (arith, ttl, live, bit_and-low 8 v))),
      (rw back (omega (arith, ttl, live))),
      (rw back (omega (arith, ttl, live, bit_and-low 3 (v / 2 ^ 9), bit_and-low 3 (w / 2 ^ 9)))),
      (rw back (omega (arith, ttl, live, bit_and-low 1 (v / 2 ^ 8), bit_and-low 1 (w / 2 ^ 8)))),
    )
