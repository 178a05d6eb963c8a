-- ===== src/Packet/Acl/Match/Search.antt =====
-- What `l2ACL` and `l3ACL` of packet/acl.go decide about a packet.
use nff_go.Base.{ℕ, ◌+◌, ◌<◌, ◌≡◌, ◌≢◌, ◌↔◌, refl, arith, List, true, false, ◌==◌}
use nff_go.Packet.Acl.Rules.{L2Rule, L3Rules}
use nff_go.Packet.Acl.Match.{try_l2, l2_acl, try_ipv4, try_ipv6, l3_acl_by, l3_acl, l3_acl_permit}
use nff_go.Packet.Acl.Match.Covers.{FirstMatch, Covers2, Covers4, Covers6}
use nff_go.Packet.Acl.Match.FirstRule.{
  search-FirstMatch, try_l2-Tried, try_ipv4-Tried, try_ipv6-Tried,
}
use nff_go.Packet.Parse.Layers.{IsPlaced, be_16, pointers, l3_pointers}
use nff_go.Packet.Parse.{parse_all_known_l3}
use nff_go.Packet.State.{Packet}

-- `l2ACL` returns the output of the first rule that covers the addresses and the type of the packet,
-- and 0 where no rule does.
pub l2_acl-FirstMatch :
    (p : Packet) (rules : List L2Rule)
    → FirstMatch (Covers2 p) (λ r. r.output_number) rules (l2_acl p rules)
unfolding l2_acl
l2_acl-FirstMatch p rules =
    search-FirstMatch try_l2 (Covers2 p) (λ r. r.output_number) p (try_l2-Tried p) rules p.l4

-- The decision on a packet with the third layer behind the Ethernet header, by its type.
pub record Decides (p : Packet) (rules : L3Rules) (n : ℕ) : Type 0 where
  pub by_ipv4 :
      be_16 p.mem (p.ether + 12) ≡ 0x0800
      → FirstMatch (Covers4 (record p { l3 = p.ether + 14 })) (λ r. r.output_number) rules.ip4 n
  pub by_ipv6 :
      be_16 p.mem (p.ether + 12) ≡ 0x86dd
      → FirstMatch (Covers6 (record p { l3 = p.ether + 14 })) (λ r. r.output_number) rules.ip6 n
  pub by_default : be_16 p.mem (p.ether + 12) ≢ 0x0800 → be_16 p.mem (p.ether + 12) ≢ 0x86dd → n ≡ 0

module _ (p : Packet) (rules : L3Rules) (x : ℕ) (pos : 0 < x) where
  abbrev q : Packet
  q = record p { l3 = x }

  l3_acl_by-ipv4 :
      FirstMatch
        (Covers4 q)
        (λ r. r.output_number)
        rules.ip4
        (l3_acl_by rules (q, pointers x 0x0800)).1
  unfolding l3_acl_by
  l3_acl_by-ipv4 =
      let first =
        search-FirstMatch try_ipv4 (Covers4 q) (λ r. r.output_number) q (try_ipv4-Tried q) rules.ip4
          q.l4 in
      let e : (x == 0) ≡ false = ground arith in rw e first

  l3_acl_by-ipv6 :
      FirstMatch
        (Covers6 q)
        (λ r. r.output_number)
        rules.ip6
        (l3_acl_by rules (q, pointers x 0x86dd)).1
  unfolding l3_acl_by
  l3_acl_by-ipv6 =
      let first =
        search-FirstMatch try_ipv6 (Covers6 q) (λ r. r.output_number) q (try_ipv6-Tried q) rules.ip6
          q.l4 in
      let e : (x == 0) ≡ false = ground arith in rw e first

  l3_acl_by-other :
      (type : ℕ) → type ≢ 0x0800 → type ≢ 0x86dd → (l3_acl_by rules (q, pointers x type)).1 ≡ 0
  unfolding l3_acl_by
  l3_acl_by-other type h k = ground (arith, h, k)

l3_acl-eq : (p : Packet) (rules : L3Rules) → l3_acl p rules ≡ l3_acl_by rules (parse_all_known_l3 p)
unfolding l3_acl
l3_acl-eq p rules = refl

-- `l3ACL` returns the output of the first rule that covers an IPv4 packet, or that covers an IPv6
-- packet, and 0 where no rule does or the packet is neither. An address is covered when it agrees
-- with the rule's on the bits of the mask.
pub l3_acl-Decides :
    (p : Packet) (rules : L3Rules) → IsPlaced p → Decides p rules (l3_acl p rules).1
l3_acl-Decides p rules placed =
    let parsed = l3_pointers p placed in
    record {
      by_ipv4 = λ e.
          rw (l3_acl-eq p rules, parsed, e) (l3_acl_by-ipv4 p rules (p.ether + 14) (omega arith));
      by_ipv6 = λ e.
          rw (l3_acl-eq p rules, parsed, e) (l3_acl_by-ipv6 p rules (p.ether + 14) (omega arith));
      by_default = λ h k.
          rw (l3_acl-eq p rules, parsed)
            (l3_acl_by-other p rules (p.ether + 14) (omega arith) _ h k);
    }

-- `L3ACLPermit` accepts exactly when the number that `l3ACL` decides on is not 0.
pub l3_acl_permit-Decides :
    (p : Packet) (rules : L3Rules)
    → IsPlaced p
    → (n : ℕ) × Decides p rules n × (((l3_acl_permit p rules).1 ≡ true) ↔ (n ≢ 0))
unfolding l3_acl_permit
l3_acl_permit-Decides p rules placed =
    ((l3_acl p rules).1, l3_acl-Decides p rules placed, ground arith)
