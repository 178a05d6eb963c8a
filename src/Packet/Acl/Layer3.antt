-- ===== src/Packet/Acl/Layer3.antt =====
-- `rawL3Parse` of packet/acl.go: from the lines of a file to the rules for IPv4 and IPv6.
-- `net.ParseCIDR` is a parameter, `none` being its error; only the network that it returns is used.
pub mod Valid
use nff_go.Base.{
  ℕ, ◌+◌, ◌-◌, ◌*◌, ◌^◌, Bool, true, false, not, ◌||◌, List, [], ◌∷◌, ◌++◌, map, Option, none, some,
  Bytes, codes, equal, is_one_of, parse_uint, ltb, ◌==◌, if◌then◌else◌, length, take, drop,
  replicate,
}
use nff_go.Common.Constants.{
  ipv4_number, ipv6_number, arp_number, tcp_number, udp_number, icmp_number,
}
use nff_go.Common.Errors.{
  ErrorCode, incorrect_arg_in_rules, incorrect_rule, Result, ok, err, panic, ◌>>=◌,
}
use nff_go.Packet.Acl.Rules.{RawL2Rule, RawL3Rule, L2Rule, L4Rule, L3Rule4, L3Rule6, L3Rules, IpNet}
use nff_go.Packet.Acl.Fields.{
  any, parse_rule_result, Ports, parse_l4_port, copy, parse_addr4, parse_addr6, parse_l4,
}

-- The rules that one line adds.
abbrev pub Added : Type 0
Added = List L3Rule4 × List L3Rule6

-- A pointer that may be nil, read.
abbrev pub deref {ℓ} : {A : Type ℓ} → Option A → Result A
deref none = panic
deref (some a) = ok a

-- One rule for IPv4 or IPv6, from its two networks.
unfoldable pub rule_4 : RawL3Rule → L4Rule → IpNet → IpNet → Result Added
unfolding parse_addr4 parse_rule_result
rule_4 raw l4 src dst = do
  s ← parse_addr4 src
  d ← parse_addr4 dst
  output ← parse_rule_result raw.output_number
  ok (
    record {
      output_number = output;
      src_addr = s.0;
      dst_addr = d.0;
      src_mask = s.1;
      dst_mask = d.1;
      l4 = l4;
    }
        ∷ [],
    [],
  )

unfoldable pub rule_6 : RawL3Rule → L4Rule → IpNet → IpNet → Result Added
unfolding parse_addr6 parse_rule_result
rule_6 raw l4 src dst = do
  let s = parse_addr6 src
  let d = parse_addr6 dst
  output ← parse_rule_result raw.output_number
  ok (
    [],
    record {
      output_number = output;
      src_addr = s.0;
      dst_addr = d.0;
      src_mask = s.1;
      dst_mask = d.1;
      l4 = l4;
    }
        ∷ [],
  )

-- Both rules of a line with no address.
unfoldable pub rule_both : RawL3Rule → L4Rule → IpNet → IpNet → Result Added
unfolding rule_4 rule_6
rule_both raw l4 zero4 zero6 = do
  four ← rule_4 raw l4 zero4 zero4
  six ← rule_6 raw l4 zero6 zero6
  ok (four.0, six.1)

-- An address of a rule. `ParseCIDR` gives an IP of 4 or of 16 bytes.
pub data Address : Type 0 where
  any_address : Address
  four : IpNet → Address
  six : IpNet → Address

-- The part of the loop behind the addresses, by their families.
unfoldable pub rules_of :
    RawL3Rule → L4Rule → Option IpNet → Option IpNet → Address → Address → Result Added
unfolding rule_4 rule_6 rule_both
rules_of raw l4 zero4 zero6 any_address any_address = do
  z4 ← deref zero4
  z6 ← deref zero6
  rule_both raw l4 z4 z6
rules_of raw l4 zero4 zero6 any_address (four dst) = do
  z4 ← deref zero4
  z6 ← deref zero6
  rule_4 raw l4 z4 dst
rules_of raw l4 zero4 zero6 any_address (six dst) = do
  z4 ← deref zero4
  z6 ← deref zero6
  rule_6 raw l4 z6 dst
rules_of raw l4 zero4 zero6 (four src) any_address = do z4 ← deref zero4; rule_4 raw l4 src z4
rules_of raw l4 zero4 zero6 (four src) (four dst) = rule_4 raw l4 src dst
rules_of raw l4 zero4 zero6 (four src) (six dst) = err incorrect_arg_in_rules
rules_of raw l4 zero4 zero6 (six src) any_address = do z6 ← deref zero6; rule_6 raw l4 src z6
rules_of raw l4 zero4 zero6 (six src) (four dst) = err incorrect_arg_in_rules
rules_of raw l4 zero4 zero6 (six src) (six dst) = rule_6 raw l4 src dst

module _ (parse_cidr : Bytes → Option IpNet) where
  -- An address that `ParseCIDR` refuses leaves a nil pointer, which is read.
  unfoldable pub address : Bytes → Result Address
  unfolding equal
  address s =
      if equal s any
      then ok any_address
      else (do net ← deref (parse_cidr s); ok (if length net.ip == 4 then four net else six net))

  -- One round of the loop of `rawL3Parse`.
  unfoldable pub raw_l3_rule : RawL3Rule → Result Added
  unfolding parse_l4 address rules_of
  raw_l3_rule raw = do
    l4 ← parse_l4 raw
    src ← address raw.src_addr
    dst ← address raw.dst_addr
    rules_of raw l4 (parse_cidr (codes "0.0.0.0/0")) (parse_cidr (codes "::/0")) src dst

  -- The rules stay as they are when a line fails; the result says how it ended.
  unfoldable pub then_parse :
      (L3Rules → L3Rules × Result (Unit {0})) → L3Rules → Result Added → L3Rules × Result (Unit {0})
  then_parse rest jp (ok (ip4, ip6)) = rest (record { ip4 = jp.ip4 ++ ip4; ip6 = jp.ip6 ++ ip6 })
  then_parse rest jp (err e) = (jp, err e)
  then_parse rest jp panic = (jp, panic)

  unfoldable pub raw_l3_lines : List RawL3Rule → L3Rules → L3Rules × Result (Unit {0})
  unfolding then_parse
  raw_l3_lines [] jp = (jp, ok tt)
  raw_l3_lines (raw ∷ rest) jp = then_parse (raw_l3_lines rest) jp (raw_l3_rule raw)

  -- The rules are reset before the first line.
  unfoldable pub raw_l3_parse : List RawL3Rule → L3Rules × Result (Unit {0})
  unfolding raw_l3_lines
  raw_l3_parse raws = raw_l3_lines raws (record { ip4 = []; ip6 = [] })
