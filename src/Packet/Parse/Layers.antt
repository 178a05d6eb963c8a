-- ===== src/Packet/Parse/Layers.antt =====
-- Which pointers the parsing functions set, and to what, against the layout of the bytes.
use nff_go.Base.{
  ℕ, ◌+◌, ◌*◌, ◌/◌, ◌%◌, ◌^◌, ◌<◌, ◌≡◌, refl, ap, Option, none, some, sym, ◌∙◌, inl, inr,
  Bool-cases, u8, ◌<<<◌, Bool, true, false, arith, ◌==◌, if◌then◌else◌, bit_and,
}
use nff_go.Base.Bits.{bit_and-low, bit_and-high}
use nff_go.Common.Constants.{vlan_number}
use nff_go.Packet.ByteOrder.{swap_bytes_uint16}
use nff_go.Packet.Parse.{
  Pointers, nil, unparsed, parse_l3, parse_l4_for_ipv4, parse_l4_for_ipv6, parse_l4_by, set_data,
  tcp_data, parse_data, parse_data_check_vlan, parse_l3_check_vlan, get_ether_type,
  parse_all_known_l3_check_vlan, parse_all_known_l3, parse_all_known_l4_for_ipv4,
  parse_all_known_l4_for_ipv6,
}
use nff_go.Packet.State.{Packet, ether_type, ptr_add, load_16}
use nff_go.Packet.ByteOrder.Laws.{swap_bytes_uint16-eq}

-- Where the data begins behind the fourth layer at `l4`: from the protocol and, for TCP, the length
-- of its header in words of four bytes.
unfoldable pub l4_data : (ℕ → ℕ) → ℕ → ℕ → ℕ → Option ℕ
l4_data mem l4 icmp protocol =
    if protocol == 6
    then some (l4 + mem (l4 + 12) / 16 * 4)
    else if protocol == 17
    then some (l4 + 8)
    else if protocol == icmp
    then some (l4 + 8)
    else none

unfoldable pub finish : Packet → ℕ → Option ℕ → Packet × Bool
finish p l4 none = (record p { l4 = l4 }, false)
finish p l4 (some d) = (record p { l4 = l4; data_ptr = d }, true)

-- What parsing does to a packet whose third layer, of the EtherType `type`, stands at `l3`.
unfoldable pub parsed : Packet → ℕ → ℕ → Packet × Bool
unfolding finish l4_data
parsed p l3 type =
    let q = record p { l3 = l3 } in
    let l4 = l3 + p.mem l3 % 16 * 4 in
    if type == 0x0800
    then finish q l4 (l4_data p.mem l4 1 (p.mem (l3 + 9)))
    else if type == 0x86dd
    then finish q (l3 + 40) (l4_data p.mem (l3 + 40) 58 (p.mem (l3 + 6)))
    else (q, false)

-- A uint16 in network order.
abbrev pub be_16 : (ℕ → ℕ) → ℕ → ℕ
be_16 mem a = mem a * 256 + mem (a + 1)

-- `ParseData` behind the third layer.
abbrev dispatch : Packet × Pointers → Packet × Bool
dispatch r = let (s, l4) = parse_l4_by r in set_data s l4

-- The pointers that fit a type, for a third layer at `x`.
abbrev pub pointers : ℕ → ℕ → Pointers
pointers x type =
    if type == 0x0800
    then (x, nil, nil)
    else if type == 0x86dd
    then (nil, x, nil)
    else if type == 0x0806
    then (nil, nil, x)
    else (nil, nil, nil)

module _ (p : Packet) (bytes : (a : ℕ) → p.mem a < 256) (x : ℕ) (pos : 0 < x)
    (below : x + 512 < 2 ^ 64) where
  abbrev q : Packet
  q = record p { l3 = x }

  abbrev ip_end : ℕ
  ip_end = x + p.mem x % 16 * 4

  tcp_data-eq : (l : ℕ) → l < x + 64 → tcp_data (record q { l4 = l }) ≡ l + p.mem (l + 12) / 16 * 4
  unfolding tcp_data
  tcp_data-eq l h = omega (
    arith,
    bytes (l + 12),
    bit_and-high 4 (p.mem (l + 12)) 15,
    bit_and-low 4 (p.mem (l + 12) / 2 ^ 4),
  )

  dispatch_ipv4 :
      dispatch (q, (x, nil, nil)) ≡ finish q ip_end (l4_data p.mem ip_end 1 (p.mem (x + 9)))
  unfolding parse_l4_by parse_all_known_l4_for_ipv4 parse_l4_for_ipv4 set_data finish l4_data
  dispatch_ipv4 =
      let l4 : ptr_add x (u8 (bit_and (p.mem x) 0x0f <<< 2)) ≡ ip_end =
        omega (arith, bytes x, bit_and-low 4 (p.mem x)) in
      rw l4 (ground (arith, tcp_data-eq ip_end (omega arith)))

  dispatch_ipv6 :
      dispatch (q, (nil, x, nil)) ≡ finish q (x + 40) (l4_data p.mem (x + 40) 58 (p.mem (x + 6)))
  unfolding parse_l4_by parse_all_known_l4_for_ipv6 parse_l4_for_ipv6 set_data finish l4_data
  dispatch_ipv6 =
      let l4 : ptr_add x 40 ≡ x + 40 = omega arith in
      rw l4 (ground (arith, tcp_data-eq (x + 40) (omega arith)))

  dispatch_other : (arp : ℕ) → dispatch (q, (nil, nil, arp)) ≡ (q, false)
  unfolding parse_l4_by set_data
  dispatch_other arp = refl

  dispatch-pointers : (type : ℕ) → dispatch (q, pointers x type) ≡ parsed p x type
  unfolding parsed
  dispatch-pointers type = elim (Bool-cases (type == 0x0800)) [
    | inl four ↦ rw four dispatch_ipv4
    | inr not_four ↦ elim (Bool-cases (type == 0x86dd)) [
      | inl six ↦ rw (not_four, six) dispatch_ipv6
      | inr not_six ↦ elim (Bool-cases (type == 0x0806)) [
        | inl arp ↦ rw (not_four, not_six, arp) (dispatch_other x)
        | inr none_of ↦ rw (not_four, not_six, none_of) (dispatch_other nil)
      ]
    ]
  ]

-- The packet's bytes are bytes, and its headers end before the address space does.
pub record IsPlaced (p : Packet) : Type 0 where
  pub bytes : (a : ℕ) → p.mem a < 256
  pub below : p.ether + 1024 < 2 ^ 64

module _ (p : Packet) (placed : IsPlaced p) where
  open placed use {bytes, below}

  unparsed-eq : unparsed p ≡ p.ether + 14
  unfolding unparsed
  unparsed-eq = omega (arith, below)

  -- Comparing the swapped number is comparing the number in network order.
  swapped : (a : ℕ) → swap_bytes_uint16 (load_16 p.mem a) ≡ be_16 p.mem a
  swapped a = omega (
    arith,
    bytes a,
    bytes (a + 1),
    swap_bytes_uint16-eq (load_16 p.mem a) (omega (arith, bytes a, bytes (a + 1))),
  )

  abbrev pub type : ℕ
  type = be_16 p.mem (p.ether + 12)

  type_test : (n : ℕ) → n < 2 ^ 16 → (ether_type p == n % 256 * 256 + n / 256) ≡ (type == n)
  type_test n h = ground (arith, bytes (p.ether + 12), bytes (p.ether + 12 + 1))

  pub l3_pointers :
      parse_all_known_l3 p ≡ (record p { l3 = p.ether + 14 }, pointers (p.ether + 14) type)
  unfolding parse_all_known_l3 parse_l3 swap_bytes_uint16
  l3_pointers = rw unparsed-eq (
      ground (
        arith,
        type_test 0x0800 (omega arith),
        type_test 0x86dd (omega arith),
        type_test 0x0806 (omega arith),
      ))

  -- `ParseData` sets the pointers and returns what `parsed` says of the type behind the addresses,
  -- whatever the packet holds.
  pub parse_data-parsed : parse_data p ≡ parsed p (p.ether + 14) type
  unfolding parse_data
  parse_data-parsed =
      ap dispatch l3_pointers
      ∙ dispatch-pointers p bytes (p.ether + 14) (omega arith) (omega (arith, below)) type

  get_ether_type-eq :
      (x : ℕ)
      → get_ether_type (record p { l3 = x })
        ≡ (if type == 0x8100 then be_16 p.mem (p.ether + 16) else type)
  unfolding get_ether_type swap_bytes_uint16 unparsed
  get_ether_type-eq x =
      let inner : p.ether + 14 + 2 ≡ p.ether + 16 = omega arith in
      let tag : swap_bytes_uint16 0x8100 ≡ 0x81 = unfold swap_bytes_uint16 in refl in
      rw (ap (λ (u : ℕ). u + 2) unparsed-eq, inner, swapped, tag)
        (ground (arith, type_test 0x8100 (omega arith), swapped (p.ether + 12)))

  l3_check_vlan_pointers : parse_all_known_l3_check_vlan p ≡ (
      if type == 0x8100
      then (record p { l3 = p.ether + 18 }, pointers (p.ether + 18) (be_16 p.mem (p.ether + 16)))
      else (record p { l3 = p.ether + 14 }, pointers (p.ether + 14) type))
  unfolding parse_all_known_l3_check_vlan parse_l3_check_vlan
  l3_check_vlan_pointers = ground (
    arith,
    unparsed-eq,
    type_test 0x8100 (omega arith),
    get_ether_type-eq (p.ether + 14),
    get_ether_type-eq (p.ether + 18),
    let tag : swap_bytes_uint16 vlan_number ≡ 0x81 = unfold swap_bytes_uint16 in refl in tag,
    below,
  )

  -- With one VLAN tag allowed: behind the tag's type 0x8100 the third layer stands four bytes
  -- further and has the tag's inner type; without a tag `ParseDataCheckVLAN` is `ParseData`.
  pub parse_data_check_vlan-parsed : parse_data_check_vlan p ≡ (
      if type == 0x8100 then parsed p (p.ether + 18) (be_16 p.mem (p.ether + 16)) else parse_data p)
  unfolding parse_data_check_vlan
  parse_data_check_vlan-parsed =
      let tagged =
        dispatch-pointers p bytes (p.ether + 18) (omega arith) (omega (arith, below))
          (be_16 p.mem (p.ether + 16)) in
      let plain =
        dispatch-pointers p bytes (p.ether + 14) (omega arith) (omega (arith, below)) type in
      elim (Bool-cases (type == 0x8100)) [
        | inl tag ↦ ap dispatch l3_check_vlan_pointers ∙ rw tag tagged
        | inr bare ↦ ap dispatch l3_check_vlan_pointers ∙ rw bare (plain ∙ sym parse_data-parsed)
      ]
