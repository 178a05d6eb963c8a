-- ===== src/Packet/Acl/Fields.antt =====
-- The fields of a rule of packet/acl.go: its result, its ports, its addresses and its protocol.
pub mod Ports
use nff_go.Base.{
  ℕ, ◌+◌, ◌-◌, ◌*◌, ◌^◌, Bool, true, false, not, ◌||◌, List, [], ◌∷◌, ◌++◌, map, Option, none, some,
  Bytes, codes, equal, is_one_of, parse_uint, ltb, ◌==◌, if◌then◌else◌, length, take, drop,
  replicate,
}
use nff_go.Common.Constants.{
  ipv4_number, ipv6_number, arp_number, tcp_number, udp_number, icmp_number,
}
use nff_go.Common.Errors.{
  ErrorCode, incorrect_arg_in_rules, incorrect_rule, Result, ok, err, panic, ◌>>=◌,
}
use nff_go.Packet.Acl.Rules.{RawL2Rule, RawL3Rule, L2Rule, L4Rule, L3Rule4, L3Rule6, L3Rules, IpNet}

abbrev pub any : Bytes
any = codes "ANY"

unfoldable pub parse_rule_result : Bytes → Result ℕ
unfolding is_one_of parse_uint
parse_rule_result rule =
    if is_one_of rule (codes "Accept" ∷ codes "true" ∷ [])
    then ok 1
    else if is_one_of rule (codes "Reject" ∷ codes "false" ∷ [])
    then ok 0
    else elim (parse_uint (2 ^ 32 - 1) rule) [ none ↦ err incorrect_rule | some port ↦ ok port ]

-- `strings.Index(s, ":") != -1`
unfoldable pub has_colon : Bytes → Bool
has_colon [] = false
has_colon (c ∷ cs) = c == b':' || has_colon cs

-- What stands before the first colon, and behind it.
unfoldable pub before_colon : Bytes → Bytes
before_colon [] = []
before_colon (c ∷ cs) = let rest = before_colon cs in if c == b':' then [] else c ∷ rest

unfoldable pub after_colon : Bytes → Bytes
after_colon [] = []
after_colon (c ∷ cs) = let rest = after_colon cs in if c == b':' then cs else rest

-- `strings.SplitN(s, ":", 2)`
unfoldable pub split_colon : Bytes → List Bytes
unfolding has_colon before_colon after_colon
split_colon s = if has_colon s then before_colon s ∷ after_colon s ∷ [] else s ∷ []

-- The least and the largest port, and whether they are a restriction.
abbrev pub Ports : Type 0
Ports = ℕ × ℕ × Bool

unfoldable pub port_bounds : Option ℕ → Option ℕ → Result Ports
port_bounds (some t_min) (some t_max) =
    if ltb t_max t_min then err incorrect_arg_in_rules else ok (t_min, t_max, true)
port_bounds _ _ = err incorrect_arg_in_rules

unfoldable pub port_range : List Bytes → Result Ports
unfolding port_bounds parse_uint
port_range (a ∷ b ∷ []) = port_bounds (parse_uint 65535 a) (parse_uint 65535 b)
port_range _ = err incorrect_arg_in_rules

unfoldable pub parse_l4_port : Bytes → Result Ports
unfolding equal port_range split_colon has_colon
parse_l4_port port =
    if equal port any || equal port (codes "0:65535")
    then ok (0, 65535, false)
    else let both = if has_colon port then port else port ++ (codes ":" ++ port) in
      port_range (split_colon both)

-- `binary.LittleEndian.Uint32`, which panics on fewer than four bytes.
unfoldable pub little_endian_uint32 : Bytes → Result ℕ
little_endian_uint32 (a ∷ b ∷ c ∷ d ∷ rest) = ok (a + b * 2 ^ 8 + c * 2 ^ 16 + d * 2 ^ 24)
little_endian_uint32 _ = panic

-- `copy(dst[:], src)`
abbrev pub copy : Bytes → Bytes → Bytes
copy dst src = take (length dst) src ++ drop (length src) dst

-- `net.IP.To16`
unfoldable pub to_16 : Bytes → Bytes
to_16 ip =
    if length ip == 4
    then replicate 10 0 ++ (255 ∷ 255 ∷ ip)
    else if length ip == 16
    then ip
    else []

unfoldable pub parse_addr4 : IpNet → Result (ℕ × ℕ)
unfolding little_endian_uint32
parse_addr4 addr = do
  ip ← little_endian_uint32 addr.ip
  mask ← little_endian_uint32 addr.mask
  ok (ip, mask)

unfoldable pub parse_addr6 : IpNet → Bytes × Bytes
unfolding to_16
parse_addr6 addr = (copy (replicate 16 0) (to_16 addr.ip), copy (replicate 16 0) addr.mask)

-- The protocol and its mask.
unfoldable pub parse_l4_id : RawL3Rule → Result (ℕ × ℕ)
unfolding is_one_of equal
parse_l4_id raw =
    if is_one_of raw.id (any ∷ [])
    then ok (0, 0)
    else if is_one_of raw.id
        (codes "tcp" ∷ codes "TCP" ∷ codes "Tcp" ∷ codes "0x06" ∷ codes "6" ∷ [])
    then ok (tcp_number, 0xff)
    else if is_one_of raw.id
        (codes "udp" ∷ codes "UDP" ∷ codes "Udp" ∷ codes "0x11" ∷ codes "17" ∷ [])
    then ok (udp_number, 0xff)
    else if is_one_of raw.id
        (codes "icmp" ∷ codes "ICMP" ∷ codes "Icmp" ∷ codes "0x01" ∷ codes "1" ∷ [])
    then (if not (equal raw.src_port any) || not (equal raw.dst_port any)
        then err incorrect_arg_in_rules
        else ok (icmp_number, 0xff))
    else err incorrect_arg_in_rules

-- The rule for the fourth layer, from its parts.
abbrev pub l4_rule : ℕ × ℕ → Ports → Ports → L4Rule
l4_rule (id, id_mask) (src_min, src_max, src_valid) (dst_min, dst_max, dst_valid) = record {
  id = id;
  id_mask = id_mask;
  valid = src_valid || dst_valid;
  src_port_min = src_min;
  src_port_max = src_max;
  dst_port_min = dst_min;
  dst_port_max = dst_max;
}

unfoldable pub parse_l4 : RawL3Rule → Result L4Rule
unfolding parse_l4_id parse_l4_port
parse_l4 raw = do
  id ← parse_l4_id raw
  src ← parse_l4_port raw.src_port
  dst ← parse_l4_port raw.dst_port
  ok (l4_rule id src dst)
