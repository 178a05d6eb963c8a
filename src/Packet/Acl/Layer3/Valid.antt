-- ===== src/Packet/Acl/Layer3/Valid.antt =====
-- The rules of `rawL3Parse` fit their types, whatever the file holds and however the parse ends.
use nff_go.Base.{
  ℕ, zero, suc, ◌-◌, ◌<◌, ◌^◌, ◌≡◌, inl, inr, refl, ap, List, [], ◌∷◌, Option, none, some, Bytes,
  arith, All, All-append, length, replicate, equal, if◌then◌else◌, ◌==◌, codes, parse_uint-le,
  Bool-cases,
}
use nff_go.Common.Errors.{Result, ok, err, panic, ◌>>=◌, Returns, Returns-of, Returns-bind}
use nff_go.Packet.Acl.Fields.Ports.{IsL4Rule, parse_l4-IsL4Rule}
use nff_go.Packet.Acl.Fields.{
  any, parse_rule_result, little_endian_uint32, parse_addr4, parse_addr6, to_16, copy, parse_l4,
}
use nff_go.Packet.Acl.Layer3.{
  Added, deref, rule_4, rule_6, rule_both, Address, any_address, four, six, rules_of, address,
  raw_l3_rule, then_parse, raw_l3_lines, raw_l3_parse,
}
use nff_go.Packet.Acl.Rules.{RawL3Rule, L4Rule, L3Rule4, L3Rule6, L3Rules, IpNet}

abbrev pub IsBytes : Bytes → Type 0
IsBytes = All (λ b. b < 256)

-- A network of bytes.
pub record IsNet (net : IpNet) : Type 0 where
  pub ip_bytes : IsBytes net.ip
  pub mask_bytes : IsBytes net.mask

pub record IsRule4 (r : L3Rule4) : Type 0 where
  pub output_fits : r.output_number < 2 ^ 32
  pub src_addr_fits : r.src_addr < 2 ^ 32
  pub dst_addr_fits : r.dst_addr < 2 ^ 32
  pub src_mask_fits : r.src_mask < 2 ^ 32
  pub dst_mask_fits : r.dst_mask < 2 ^ 32
  pub l4_valid : IsL4Rule r.l4

-- 16 bytes.
abbrev pub IsWide : Bytes → Type 0
IsWide bs = (length bs ≡ 16) × IsBytes bs

pub record IsRule6 (r : L3Rule6) : Type 0 where
  pub output_fits : r.output_number < 2 ^ 32
  pub src_addr_wide : IsWide r.src_addr
  pub dst_addr_wide : IsWide r.dst_addr
  pub src_mask_wide : IsWide r.src_mask
  pub dst_mask_wide : IsWide r.dst_mask
  pub l4_valid : IsL4Rule r.l4

pub record IsRules (r : L3Rules) : Type 0 where
  pub ip4_valid : All IsRule4 r.ip4
  pub ip6_valid : All IsRule6 r.ip6

abbrev IsAdded : Added → Type 0
IsAdded (a, b) = All IsRule4 a × All IsRule6 b

pub parse_rule_result-lt : (s : Bytes) {n : ℕ} → parse_rule_result s ≡ ok n → n < 2 ^ 32
unfolding parse_rule_result
parse_rule_result-lt s {n} e = ground (arith, parse_uint-le (2 ^ 32 - 1) n s)

little_endian_uint32-lt :
    (s : Bytes) {n : ℕ} → IsBytes s → little_endian_uint32 s ≡ ok n → n < 2 ^ 32
unfolding little_endian_uint32
little_endian_uint32-lt (a ∷ b ∷ c ∷ d ∷ rest) (ha, (hb, (hc, (hd, hr)))) e = ground arith
little_endian_uint32-lt (a ∷ b ∷ c ∷ []) h e = cc
little_endian_uint32-lt (a ∷ b ∷ []) h e = cc
little_endian_uint32-lt (a ∷ []) h e = cc
little_endian_uint32-lt [] h e = cc

abbrev Words : ℕ × ℕ → Type 0
Words p = (p.0 < 2 ^ 32) × (p.1 < 2 ^ 32)

parse_addr4-Returns : (net : IpNet) → IsNet net → Returns Words (parse_addr4 net)
unfolding parse_addr4
parse_addr4-Returns net v =
    let small = λ (n : ℕ). n < 2 ^ 32 in
    Returns-bind Words small (little_endian_uint32 net.ip) _
      (Returns-of small _ (λ n. little_endian_uint32-lt net.ip v.ip_bytes))
      λ ip hi.
        Returns-bind Words small (little_endian_uint32 net.mask) _
          (Returns-of small _ (λ n. little_endian_uint32-lt net.mask v.mask_bytes))
          (λ mask hm. (hi, hm))

pub length-copy : (dst src : Bytes) → length (copy dst src) ≡ length dst
length-copy [] [] = refl
length-copy [] (y ∷ src) = refl
length-copy (x ∷ dst) [] = refl
length-copy (x ∷ dst) (y ∷ src) = ap suc (length-copy dst src)

copy-IsBytes : (dst src : Bytes) → IsBytes dst → IsBytes src → IsBytes (copy dst src)
copy-IsBytes [] [] hd hs = tt
copy-IsBytes [] (y ∷ src) hd hs = tt
copy-IsBytes (x ∷ dst) [] hd hs = hd
copy-IsBytes (x ∷ dst) (y ∷ src) hd hs = (hs.0, copy-IsBytes dst src hd.1 hs.1)

replicate-IsBytes : (n v : ℕ) → v < 256 → IsBytes (replicate n v)
replicate-IsBytes zero v h = tt
replicate-IsBytes (suc n) v h = (h, replicate-IsBytes n v h)

copy-IsWide : (src : Bytes) → IsBytes src → IsWide (copy (replicate 16 0) src)
copy-IsWide src h = (
  length-copy (replicate 16 0) src,
  copy-IsBytes (replicate 16 0) src (replicate-IsBytes 16 0 (omega arith)) h,
)

to_16-IsBytes : (ip : Bytes) → IsBytes ip → IsBytes (to_16 ip)
unfolding to_16
to_16-IsBytes ip h = elim (Bool-cases (length ip == 4)) [
  | inl e ↦ rw e (
      All-append (λ b. b < 256) (replicate 10 0) (255 ∷ 255 ∷ ip)
        (replicate-IsBytes 10 0 (omega arith)) (omega arith, (omega arith, h)))
  | inr e ↦ rw e (elim (Bool-cases (length ip == 16)) [ inl k ↦ rw k h | inr k ↦ rw k tt ])
]

module _ (raw : RawL3Rule) (l4 : L4Rule) (v : IsL4Rule l4) where
  output-Returns : Returns (λ n. n < 2 ^ 32) (parse_rule_result raw.output_number)
  output-Returns = Returns-of (λ n. n < 2 ^ 32) _ (λ n. parse_rule_result-lt raw.output_number)

  rule_4-Returns :
      (src dst : IpNet) → IsNet src → IsNet dst → Returns IsAdded (rule_4 raw l4 src dst)
  unfolding rule_4
  rule_4-Returns src dst hs hd =
      Returns-bind IsAdded Words (parse_addr4 src) _ (parse_addr4-Returns src hs) λ s ps.
        Returns-bind IsAdded Words (parse_addr4 dst) _ (parse_addr4-Returns dst hd) λ d pd.
          Returns-bind IsAdded (λ n. n < 2 ^ 32) (parse_rule_result raw.output_number) _
            output-Returns
            λ n pn. (
              (
                record {
                  output_fits = pn;
                  src_addr_fits = ps.0;
                  dst_addr_fits = pd.0;
                  src_mask_fits = ps.1;
                  dst_mask_fits = pd.1;
                  l4_valid = v;
                },
                tt,
              ),
              tt,
            )

  rule_6-Returns :
      (src dst : IpNet) → IsNet src → IsNet dst → Returns IsAdded (rule_6 raw l4 src dst)
  unfolding rule_6 parse_addr6
  rule_6-Returns src dst hs hd =
      Returns-bind IsAdded (λ n. n < 2 ^ 32) (parse_rule_result raw.output_number) _ output-Returns
        λ n pn. (
          tt,
          (
            record {
              output_fits = pn;
              src_addr_wide = copy-IsWide (to_16 src.ip) (to_16-IsBytes src.ip hs.ip_bytes);
              dst_addr_wide = copy-IsWide (to_16 dst.ip) (to_16-IsBytes dst.ip hd.ip_bytes);
              src_mask_wide = copy-IsWide src.mask hs.mask_bytes;
              dst_mask_wide = copy-IsWide dst.mask hd.mask_bytes;
              l4_valid = v;
            },
            tt,
          ),
        )

  rule_both-Returns :
      (z4 z6 : IpNet) → IsNet z4 → IsNet z6 → Returns IsAdded (rule_both raw l4 z4 z6)
  unfolding rule_both
  rule_both-Returns z4 z6 h k =
      Returns-bind IsAdded IsAdded (rule_4 raw l4 z4 z4) _ (rule_4-Returns z4 z4 h h) λ a pa.
        Returns-bind IsAdded IsAdded (rule_6 raw l4 z6 z6) _ (rule_6-Returns z6 z6 k k)
          (λ b pb. (pa.0, pb.1))

-- What `ParseCIDR` returns consists of bytes.
abbrev pub IsCidr : (Bytes → Option IpNet) → Type 0
IsCidr parse_cidr = (s : Bytes) (net : IpNet) → parse_cidr s ≡ some net → IsNet net

abbrev IsAddress : Address → Type 0
IsAddress any_address = Unit
IsAddress (four net) = IsNet net
IsAddress (six net) = IsNet net

deref-Returns :
    (o : Option IpNet) → ((net : IpNet) → o ≡ some net → IsNet net) → Returns IsNet (deref o)
deref-Returns none h = tt
deref-Returns (some net) h = h net refl

module _ (raw : RawL3Rule) (l4 : L4Rule) (v : IsL4Rule l4) (zero4 zero6 : Option IpNet)
    (h4 : Returns IsNet (deref zero4)) (h6 : Returns IsNet (deref zero6)) where
  with_zeros :
      (f : IpNet → IpNet → Result Added)
      → ((z4 z6 : IpNet) → IsNet z4 → IsNet z6 → Returns IsAdded (f z4 z6))
      → Returns IsAdded (deref zero4 >>= λ z4. deref zero6 >>= λ z6. f z4 z6)
  with_zeros f h =
      Returns-bind IsAdded IsNet (deref zero4) _ h4
        λ z4 p4. Returns-bind IsAdded IsNet (deref zero6) _ h6 (λ z6 p6. h z4 z6 p4 p6)

  rules_of-Returns :
      (src dst : Address)
      → IsAddress src
      → IsAddress dst
      → Returns IsAdded (rules_of raw l4 zero4 zero6 src dst)
  unfolding rules_of
  rules_of-Returns any_address any_address hs hd =
      with_zeros _ (λ z4 z6 p4 p6. rule_both-Returns raw l4 v z4 z6 p4 p6)
  rules_of-Returns any_address (four dst) hs hd =
      with_zeros _ (λ z4 z6 p4 p6. rule_4-Returns raw l4 v z4 dst p4 hd)
  rules_of-Returns any_address (six dst) hs hd =
      with_zeros _ (λ z4 z6 p4 p6. rule_6-Returns raw l4 v z6 dst p6 hd)
  rules_of-Returns (four src) any_address hs hd =
      Returns-bind IsAdded IsNet (deref zero4) _ h4 (λ z4 p4. rule_4-Returns raw l4 v src z4 hs p4)
  rules_of-Returns (four src) (four dst) hs hd = rule_4-Returns raw l4 v src dst hs hd
  rules_of-Returns (four src) (six dst) hs hd = tt
  rules_of-Returns (six src) any_address hs hd =
      Returns-bind IsAdded IsNet (deref zero6) _ h6 (λ z6 p6. rule_6-Returns raw l4 v src z6 hs p6)
  rules_of-Returns (six src) (four dst) hs hd = tt
  rules_of-Returns (six src) (six dst) hs hd = rule_6-Returns raw l4 v src dst hs hd

module _ (parse_cidr : Bytes → Option IpNet) (law : IsCidr parse_cidr) where
  family-IsAddress :
      (net : IpNet) → IsNet net → IsAddress (if length net.ip == 4 then four net else six net)
  family-IsAddress net h = elim (Bool-cases (length net.ip == 4)) [
    | inl e ↦ rw e h
    | inr e ↦ rw e h
  ]

  address-Returns : (s : Bytes) → Returns IsAddress (address parse_cidr s)
  unfolding address
  address-Returns s = elim (Bool-cases (equal s any)) [
    | inl e ↦ rw e tt
    | inr e ↦ rw e (
        Returns-bind IsAddress IsNet (deref (parse_cidr s)) _ (deref-Returns (parse_cidr s) (law s))
          family-IsAddress)
  ]

  raw_l3_rule-Returns : (raw : RawL3Rule) → Returns IsAdded (raw_l3_rule parse_cidr raw)
  unfolding raw_l3_rule
  raw_l3_rule-Returns raw =
      Returns-bind IsAdded IsL4Rule (parse_l4 raw) _
        (Returns-of IsL4Rule _ (λ r. parse_l4-IsL4Rule raw))
        λ l4 v.
          Returns-bind IsAdded IsAddress (address parse_cidr raw.src_addr) _
            (address-Returns raw.src_addr)
            λ src hs.
              Returns-bind IsAdded IsAddress (address parse_cidr raw.dst_addr) _
                (address-Returns raw.dst_addr)
                λ dst hd.
                  rules_of-Returns raw l4 v (parse_cidr (codes "0.0.0.0/0"))
                    (parse_cidr (codes "::/0")) (deref-Returns _ (law _)) (deref-Returns _ (law _))
                    src dst hs hd

  then_parse-IsRules :
      (rest : L3Rules → L3Rules × Result (Unit {0})) (jp : L3Rules) (r : Result Added)
      → ((j : L3Rules) → IsRules j → IsRules (rest j).0)
      → IsRules jp
      → Returns IsAdded r
      → IsRules (then_parse parse_cidr rest jp r).0
  unfolding then_parse
  then_parse-IsRules rest jp (ok (ip4, ip6)) h v (p4, p6) = h _ (record {
    ip4_valid = All-append IsRule4 jp.ip4 ip4 v.ip4_valid p4;
    ip6_valid = All-append IsRule6 jp.ip6 ip6 v.ip6_valid p6;
  })
  then_parse-IsRules rest jp (err e) h v p = v
  then_parse-IsRules rest jp panic h v p = v

  raw_l3_lines-IsRules :
      (raws : List RawL3Rule) (jp : L3Rules)
      → IsRules jp
      → IsRules (raw_l3_lines parse_cidr raws jp).0
  unfolding raw_l3_lines
  raw_l3_lines-IsRules [] jp v = v
  raw_l3_lines-IsRules (raw ∷ rest) jp v =
      then_parse-IsRules (raw_l3_lines parse_cidr rest) jp (raw_l3_rule parse_cidr raw)
        (raw_l3_lines-IsRules rest) v (raw_l3_rule-Returns raw)

  -- Where `ParseCIDR` returns bytes: whatever the lines hold and however the parse ends, the rules have
  -- numbers and IPv4 addresses of 32 bits, IPv6 addresses and masks of 16 entries below 256, ordered
  -- ranges of 16-bit ports, and no ports for ICMP.
  pub raw_l3_parse-IsRules : (raws : List RawL3Rule) → IsRules (raw_l3_parse parse_cidr raws).0
  unfolding raw_l3_parse
  raw_l3_parse-IsRules raws =
      raw_l3_lines-IsRules raws (record { ip4 = []; ip6 = [] })
        (record { ip4_valid = tt; ip6_valid = tt })
