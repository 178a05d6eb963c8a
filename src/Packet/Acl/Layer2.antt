-- ===== src/Packet/Acl/Layer2.antt =====
-- `rawL2Parse` of packet/acl.go. `net.ParseMAC` is a parameter, `none` being its error.
pub mod Valid
use nff_go.Base.{
  ℕ, ◌+◌, ◌-◌, ◌*◌, ◌^◌, Bool, true, false, not, ◌||◌, List, [], ◌∷◌, ◌++◌, map, Option, none, some,
  Bytes, codes, equal, is_one_of, parse_uint, ltb, ◌==◌, if◌then◌else◌, length, take, drop,
  replicate,
}
use nff_go.Common.Constants.{
  ipv4_number, ipv6_number, arp_number, tcp_number, udp_number, icmp_number,
}
use nff_go.Common.Errors.{
  ErrorCode, incorrect_arg_in_rules, incorrect_rule, Result, ok, err, panic, ◌>>=◌,
}
use nff_go.Packet.Acl.Rules.{RawL2Rule, RawL3Rule, L2Rule, L4Rule, L3Rule4, L3Rule6, L3Rules, IpNet}
use nff_go.Packet.Acl.Fields.{
  any, parse_rule_result, Ports, parse_l4_port, copy, parse_addr4, parse_addr6, parse_l4,
}

-- `rawL2Parse` fills the rule of each line in place, and leaves the rest zero.
abbrev pub zero_l2 : L2Rule
zero_l2 = record {
  output_number = 0;
  d_addr_not_any = false;
  s_addr_not_any = false;
  d_addr = replicate 6 0;
  s_addr = replicate 6 0;
  id_mask = 0;
  id = 0;
}

-- A step that fills a rule: the rule afterwards, and how it ended.
abbrev pub Fill : Type 0
Fill = L2Rule → L2Rule × Result (Unit {0})

infixl 5 ◌then_fill◌
abbrev pub ◌then_fill◌ : Fill → Fill → Fill
◌then_fill◌ f g r =
    let (s, e) = f r in elim e [ ok u ↦ g s | err c ↦ (s, err c) | panic ↦ (s, panic) ]

unfoldable pub fill_output : RawL2Rule → Fill
unfolding parse_rule_result
fill_output raw r = elim (parse_rule_result raw.rule) [
  | ok n ↦ (record r { output_number = n }, ok tt)
  | err e ↦ (record r { output_number = 0 }, err e)
  | panic ↦ (r, panic)
]

unfoldable pub fill_id : RawL2Rule → Fill
unfolding is_one_of
fill_id raw r =
    if is_one_of raw.id (any ∷ [])
    then (record r { id = 0; id_mask = 0 }, ok tt)
    else if is_one_of raw.id
        (codes "ipv4" ∷ codes "Ipv4" ∷ codes "IPv4" ∷ codes "IPV4" ∷ codes "0x0800" ∷ [])
    then (record r { id = ipv4_number; id_mask = 0xffff }, ok tt)
    else if is_one_of raw.id
        (codes "ipv6" ∷ codes "Ipv6" ∷ codes "IPv6" ∷ codes "IPV6" ∷ codes "0x86dd" ∷ [])
    then (record r { id = ipv6_number; id_mask = 0xffff }, ok tt)
    else if is_one_of raw.id (codes "arp" ∷ codes "Arp" ∷ codes "ARP" ∷ codes "0x0806" ∷ [])
    then (record r { id = arp_number; id_mask = 0xffff }, ok tt)
    else (r, err incorrect_arg_in_rules)

module _ (parse_mac : Bytes → Option Bytes) where
  unfoldable pub fill_source : RawL2Rule → Fill
  unfolding equal
  fill_source raw r = if equal raw.source any then (r, ok tt) else elim (parse_mac raw.source) [
    | none ↦ (record r { s_addr_not_any = true }, err incorrect_arg_in_rules)
    | some t ↦ (record r { s_addr_not_any = true; s_addr = copy r.s_addr t }, ok tt)
  ]

  unfoldable pub fill_destination : RawL2Rule → Fill
  unfolding equal
  fill_destination raw r =
      if equal raw.destination any then (r, ok tt) else elim (parse_mac raw.destination) [
        | none ↦ (record r { d_addr_not_any = true }, err incorrect_arg_in_rules)
        | some t ↦ (record r { d_addr_not_any = true; d_addr = copy r.d_addr t }, ok tt)
      ]

  unfoldable pub raw_l2_rule : RawL2Rule → Fill
  unfolding fill_output fill_source fill_destination fill_id
  raw_l2_rule raw =
      fill_output raw then_fill fill_source raw then_fill fill_destination raw then_fill fill_id raw

  unfoldable pub raw_l2_parse : List RawL2Rule → List L2Rule × Result (Unit {0})
  unfolding raw_l2_rule
  raw_l2_parse [] = ([], ok tt)
  raw_l2_parse (raw ∷ rest) =
      let (r, e) = raw_l2_rule raw zero_l2 in
      let (rs, last) = raw_l2_parse rest in
      elim e [
        | ok u ↦ (r ∷ rs, last)
        | err c ↦ (r ∷ map (λ _. zero_l2) rest, err c)
        | panic ↦ (r ∷ map (λ _. zero_l2) rest, panic)
      ]
