-- ===== src/Tests/Rules.antt =====
-- Lines of rules read, and tried on packets.
use nff_go.Base.{
  ℕ, zero, suc, ◌≡◌, refl, [], ◌∷◌, Option, none, some, true, false, Bytes, codes, equal,
  if◌then◌else◌, replicate, arith, Bool-cases, inl, inr,
}
use nff_go.Common.Errors.{ok}
use nff_go.Packet.Acl.Rules.{RawL2Rule, RawL3Rule, L2Rule, L4Rule, L3Rule4, L3Rules, IpNet}
use nff_go.Packet.Acl.Fields.{parse_l4, parse_l4_port}
use nff_go.Packet.Acl.Fields.Ports.{IsL4Rule, parse_l4-IsL4Rule}
use nff_go.Packet.Acl.Layer2.{raw_l2_parse}
use nff_go.Packet.Acl.Layer2.Valid.{AllRules, raw_l2_parse-AllRules}
use nff_go.Packet.Acl.Layer3.{raw_l3_parse, raw_l3_rule}
use nff_go.Packet.Acl.Layer3.Valid.{IsCidr, IsBytes, IsNet, IsRules, raw_l3_parse-IsRules}
use nff_go.Packet.Acl.Match.{l2_acl, l3_acl}
use nff_go.Packet.Acl.Match.Covers.{FirstMatch, Covers2}
use nff_go.Packet.Acl.Match.Search.{Decides, l2_acl-FirstMatch, l3_acl-Decides}
use nff_go.Packet.ByteOrder.{swap_bytes_uint16}
use nff_go.Packet.Parse.{parse_l3, unparsed, parse_l4_for_ipv4}
use nff_go.Tests.Samples.{packet-IsPlaced, tcp_frame, tcp_packet}

abbrev line : RawL3Rule
line = record {
  src_addr = codes "10.0.0.0/8";
  dst_addr = codes "ANY";
  id = codes "tcp";
  src_port = codes "ANY";
  dst_port = codes "80:90";
  output_number = codes "3";
}

abbrev tcp_80 : L4Rule
tcp_80 = record {
  id = 6;
  id_mask = 0xff;
  valid = true;
  src_port_min = 0;
  src_port_max = 65535;
  dst_port_min = 80;
  dst_port_max = 90;
}

-- A parser of networks that knows three texts.
abbrev net_4 : IpNet
net_4 = record { ip = 10 ∷ 0 ∷ 0 ∷ 0 ∷ []; mask = 255 ∷ 0 ∷ 0 ∷ 0 ∷ [] }

abbrev net_0 : IpNet
net_0 = record { ip = 0 ∷ 0 ∷ 0 ∷ 0 ∷ []; mask = 0 ∷ 0 ∷ 0 ∷ 0 ∷ [] }

abbrev net_6 : IpNet
net_6 = record { ip = replicate 16 0; mask = replicate 16 0 }

unfoldable cidr : Bytes → Option IpNet
unfolding equal
cidr s =
    if equal s (codes "10.0.0.0/8")
    then some net_4
    else if equal s (codes "0.0.0.0/0")
    then some net_0
    else if equal s (codes "::/0")
    then some net_6
    else none

net_4-IsNet : IsNet net_4
net_4-IsNet = record {
  ip_bytes = (omega arith, (omega arith, (omega arith, (omega arith, tt))));
  mask_bytes = (omega arith, (omega arith, (omega arith, (omega arith, tt))));
}

net_0-IsNet : IsNet net_0
net_0-IsNet = record {
  ip_bytes = (omega arith, (omega arith, (omega arith, (omega arith, tt))));
  mask_bytes = (omega arith, (omega arith, (omega arith, (omega arith, tt))));
}

replicate-IsBytes : (n : ℕ) → IsBytes (replicate n 0)
replicate-IsBytes zero = tt
replicate-IsBytes (suc n) = (omega arith, replicate-IsBytes n)

net_6-IsNet : IsNet net_6
net_6-IsNet = record { ip_bytes = replicate-IsBytes 16; mask_bytes = replicate-IsBytes 16 }

some-IsNet : (n m : IpNet) → IsNet n → some n ≡ some m → IsNet m
some-IsNet n m h e = let same : n ≡ m = cc in rw (← same) h

cidr-IsCidr : IsCidr cidr
unfolding cidr
cidr-IsCidr s net e = elim (Bool-cases (equal s (codes "10.0.0.0/8"))) [
  | inl a ↦ some-IsNet net_4 net net_4-IsNet (rw a at e)
  | inr a ↦ elim (Bool-cases (equal s (codes "0.0.0.0/0"))) [
    | inl b ↦ some-IsNet net_0 net net_0-IsNet (rw (a, b) at e)
    | inr b ↦ elim (Bool-cases (equal s (codes "::/0"))) [
      | inl c ↦ some-IsNet net_6 net net_6-IsNet (rw (a, b, c) at e)
      | inr c ↦ cc (rw (a, b, c) at e)
    ]
  ]
]

parse_l4-line : parse_l4 line ≡ ok tcp_80
unfolding parse_l4
parse_l4-line = refl

abbrev rule_tcp : L3Rule4
rule_tcp = record {
  output_number = 3;
  src_addr = 10;
  dst_addr = 0;
  src_mask = 255;
  dst_mask = 0;
  l4 = tcp_80;
}

abbrev rules : L3Rules
rules = record { ip4 = rule_tcp ∷ []; ip6 = [] }

raw_l3_parse-line : raw_l3_parse cidr (line ∷ []) ≡ (rules, ok tt)
unfolding raw_l3_parse raw_l3_rule cidr
raw_l3_parse-line = refl

l3_acl-packet : (l3_acl tcp_packet rules).1 ≡ 3
unfolding l3_acl parse_l3 swap_bytes_uint16 unparsed parse_l4_for_ipv4
l3_acl-packet = refl

raw_l3_parse-IsRules_example : IsRules (raw_l3_parse cidr (line ∷ [])).0
raw_l3_parse-IsRules_example = raw_l3_parse-IsRules cidr cidr-IsCidr (line ∷ [])

parse_l4-IsL4Rule_example : IsL4Rule tcp_80
parse_l4-IsL4Rule_example = parse_l4-IsL4Rule line parse_l4-line

parse_l4_port-range : parse_l4_port (codes "80:90") ≡ ok (80, 90, true)
unfolding parse_l4_port
parse_l4_port-range = refl

abbrev rule_l2 : L2Rule
rule_l2 = record {
  output_number = 2;
  d_addr_not_any = true;
  s_addr_not_any = false;
  d_addr = 1 ∷ 2 ∷ 3 ∷ 4 ∷ 5 ∷ 6 ∷ [];
  s_addr = replicate 6 0;
  id_mask = 0xffff;
  id = 0x0800;
}

l2_acl-FirstMatch_example :
    FirstMatch
      (Covers2 tcp_packet)
      (λ r. r.output_number)
      (rule_l2 ∷ [])
      (l2_acl tcp_packet (rule_l2 ∷ []))
l2_acl-FirstMatch_example = l2_acl-FirstMatch tcp_packet (rule_l2 ∷ [])

l3_acl-Decides_example : Decides tcp_packet rules (l3_acl tcp_packet rules).1
l3_acl-Decides_example = l3_acl-Decides tcp_packet rules (packet-IsPlaced tcp_frame)

abbrev line_l2 : RawL2Rule
line_l2 = record {
  rule = codes "Accept";
  source = codes "00:11:22:33:44:55";
  destination = codes "ANY";
  id = codes "ipv4";
}

-- A parser of hardware addresses that knows one text.
unfoldable mac : Bytes → Option Bytes
unfolding equal
mac s =
    if equal s (codes "00:11:22:33:44:55")
    then some (0 ∷ 0x11 ∷ 0x22 ∷ 0x33 ∷ 0x44 ∷ 0x55 ∷ [])
    else none

raw_l2_parse-AllRules_example :
    AllRules (line_l2 ∷ line_l2 ∷ []) (raw_l2_parse mac (line_l2 ∷ line_l2 ∷ [])).0
raw_l2_parse-AllRules_example = raw_l2_parse-AllRules mac (line_l2 ∷ line_l2 ∷ [])
