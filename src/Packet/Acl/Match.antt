-- ===== src/Packet/Acl/Match.antt =====
-- The part of packet/acl.go that tries rules on a packet: `l2ACL`, `l3ACL`, `l4ACL` and the functions
-- that call them. Parsing the fourth layer changes the packet, so a search passes the packet on.
pub mod Covers
pub mod FirstRule
pub mod Search
use nff_go.Base.{
  ℕ, zero, suc, ◌+◌, bit_and, bit_xor, Bool, true, false, not, ◌&&◌, ◌||◌, List, [], ◌∷◌, Option,
  none, some, ltb, ◌==◌, equal, if◌then◌else◌, get_or,
}
use nff_go.Packet.Acl.Rules.{L2Rule, L4Rule, L3Rule4, L3Rule6, L3Rules}
use nff_go.Packet.ByteOrder.{swap_bytes_uint16}
use nff_go.Packet.Parse.{Pointers, nil, parse_all_known_l3, parse_l4_for_ipv4, parse_l4_for_ipv6}
use nff_go.Packet.State.{
  Packet, load_16, load_32, load_bytes, ether_type, ether_s_addr, ether_d_addr,
}

-- `(a ^ b) & mask != 0`
abbrev pub differs : ℕ → ℕ → ℕ → Bool
differs a b mask = not (bit_and (bit_xor a b) mask == 0)

-- A loop over rules that returns at the first rule with an output, and 0 behind the last.
unfoldable pub then_try : (Packet → Packet × ℕ) → Packet × Option ℕ → Packet × ℕ
then_try rest (p, none) = rest p
then_try rest (p, some output) = (p, output)

unfoldable pub search :
    {A : Type 0} → (Packet → A → Packet × Option ℕ) → List A → Packet → Packet × ℕ
unfolding then_try
search try [] p = (p, 0)
search try (rule ∷ rules) p = then_try (search try rules) (try p rule)

unfoldable pub try_l2 : Packet → L2Rule → Packet × Option ℕ
unfolding equal
try_l2 p rule =
    if rule.s_addr_not_any && not (equal rule.s_addr (ether_s_addr p))
    then (p, none)
    else if rule.d_addr_not_any && not (equal rule.d_addr (ether_d_addr p))
    then (p, none)
    else if differs rule.id (swap_bytes_uint16 (ether_type p)) rule.id_mask
    then (p, none)
    else (p, some rule.output_number)

unfoldable pub l2_acl : Packet → List L2Rule → ℕ
unfolding search try_l2
l2_acl p rules = (search try_l2 rules p).1

unfoldable pub l2_acl_permit : Packet → List L2Rule → Bool
unfolding l2_acl
l2_acl_permit p rules = ltb 0 (l2_acl p rules)

-- The ports stand at the same place of a TCP and of a UDP header.
unfoldable pub l4_acl : Packet → L4Rule → Bool
l4_acl p rule =
    let src_port = swap_bytes_uint16 (load_16 p.mem p.l4) in
    let dst_port = swap_bytes_uint16 (load_16 p.mem (p.l4 + 2)) in
    if ltb src_port rule.src_port_min || ltb rule.src_port_max src_port
    then false
    else if ltb dst_port rule.dst_port_min || ltb rule.dst_port_max dst_port
    then false
    else true

-- The addresses and the protocol of the IPv4 header at `L3`.
unfoldable pub try_ipv4 : Packet → L3Rule4 → Packet × Option ℕ
unfolding l4_acl
try_ipv4 p rule =
    if differs rule.src_addr (load_32 p.mem (p.l3 + 12)) rule.src_mask
    then (p, none)
    else if differs rule.dst_addr (load_32 p.mem (p.l3 + 16)) rule.dst_mask
    then (p, none)
    else if differs rule.l4.id (p.mem (p.l3 + 9)) rule.l4.id_mask
    then (p, none)
    else if rule.l4.valid
    then (let q = parse_l4_for_ipv4 p in
        if l4_acl q rule.l4 then (q, some rule.output_number) else (q, none))
    else (p, some rule.output_number)

-- The loop over the bytes of both addresses, with `n` rounds left from byte `i`.
unfoldable pub addresses_differ : Packet → L3Rule6 → ℕ → ℕ → Bool
addresses_differ p rule zero i = false
addresses_differ p rule (suc n) i =
    (differs (get_or rule.src_addr i 0) (p.mem (p.l3 + 8 + i)) (get_or rule.src_mask i 0)
      || differs (get_or rule.dst_addr i 0) (p.mem (p.l3 + 24 + i)) (get_or rule.dst_mask i 0))
    || addresses_differ p rule n (suc i)

unfoldable pub try_ipv6 : Packet → L3Rule6 → Packet × Option ℕ
unfolding l4_acl addresses_differ
try_ipv6 p rule =
    if addresses_differ p rule 16 0
    then (p, none)
    else if differs rule.l4.id (p.mem (p.l3 + 6)) rule.l4.id_mask
    then (p, none)
    else let q = parse_l4_for_ipv6 p in
      if l4_acl q rule.l4 then (q, some rule.output_number) else (q, none)

unfoldable pub l3_acl_by : L3Rules → Packet × Pointers → Packet × ℕ
unfolding search try_ipv4 try_ipv6
l3_acl_by rules (p, (ipv4, ipv6, arp)) =
    if not (ipv4 == nil)
    then search try_ipv4 rules.ip4 p
    else if not (ipv6 == nil)
    then search try_ipv6 rules.ip6 p
    else (p, 0)

unfoldable pub l3_acl : Packet → L3Rules → Packet × ℕ
unfolding l3_acl_by parse_all_known_l3
l3_acl p rules = l3_acl_by rules (parse_all_known_l3 p)

unfoldable pub l3_acl_permit : Packet → L3Rules → Packet × Bool
unfolding l3_acl
l3_acl_permit p rules = let (q, output) = l3_acl p rules in (q, ltb 0 output)

-- `L2ACLPort` and `L3ACLPort` return the number.
unfoldable pub l2_acl_port : Packet → List L2Rule → ℕ
unfolding l2_acl
l2_acl_port p rules = l2_acl p rules

unfoldable pub l3_acl_port : Packet → L3Rules → Packet × ℕ
unfolding l3_acl
l3_acl_port p rules = l3_acl p rules
