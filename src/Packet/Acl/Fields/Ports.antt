-- ===== src/Packet/Acl/Fields/Ports.antt =====
-- What the parsers of the fields accept, and what they return.
use nff_go.Base.{
  ℕ, ◌≤◌, ◌≡◌, ◌⊎◌, inl, inr, refl, Bool, true, false, Bytes, arith, parse_uint, parse_uint-le,
  Bool-cases, if◌then◌else◌, equal, codes, ◌++◌, ◌||◌, List, [], ◌∷◌, none, some, Option,
}
use nff_go.Common.Errors.{ok, Result, err, panic, ◌>>=◌}
use nff_go.Packet.Acl.Fields.{
  Ports, parse_l4_port, port_range, port_bounds, split_colon, has_colon, any, parse_l4, parse_l4_id,
  l4_rule,
}
use nff_go.Packet.Acl.Rules.{RawL3Rule, L4Rule}

-- A range of ports: ordered, of 16 bits, and all ports where it is no restriction.
pub record IsRange (lo hi : ℕ) (valid : Bool) : Type 0 where
  pub ordered : lo ≤ hi
  pub fits : hi ≤ 65535
  pub full : valid ≡ false → (lo ≡ 0) × (hi ≡ 65535)

port_bounds-IsRange :
    (a b : Option ℕ) {p : Ports}
    → ((n : ℕ) → b ≡ some n → n ≤ 65535)
    → port_bounds a b ≡ ok p
    → IsRange p.0 p.1 p.2
unfolding port_bounds
port_bounds-IsRange (some a) (some b) h e = ground (arith, h b)
port_bounds-IsRange (some a) none h e = ground arith
port_bounds-IsRange none b h e = ground arith

port_range-IsRange : (s : List Bytes) {p : Ports} → port_range s ≡ ok p → IsRange p.0 p.1 p.2
unfolding port_range
port_range-IsRange [] e = ground arith
port_range-IsRange (a ∷ []) e = ground arith
port_range-IsRange (a ∷ b ∷ []) e =
    port_bounds-IsRange (parse_uint 65535 a) (parse_uint 65535 b) (λ n h. parse_uint-le 65535 n b h)
      e
port_range-IsRange (a ∷ b ∷ c ∷ d) e = ground arith

-- Ports that `parseL4Port` accepts are a range.
pub parse_l4_port-IsRange : (s : Bytes) {p : Ports} → parse_l4_port s ≡ ok p → IsRange p.0 p.1 p.2
unfolding parse_l4_port
parse_l4_port-IsRange s e = elim (Bool-cases (equal s any || equal s (codes "0:65535"))) [
  | inl all ↦ ground (arith, all)
  | inr some_of ↦
      port_range-IsRange (split_colon (if has_colon s then s else s ++ (codes ":" ++ s)))
        (rw some_of at e)
]

-- What the fourth layer of a rule asks for.
pub record IsL4Rule (r : L4Rule) : Type 0 where
  pub src : IsRange r.src_port_min r.src_port_max r.valid
  pub dst : IsRange r.dst_port_min r.dst_port_max r.valid
  pub protocol :
      ((r.id ≡ 0) × (r.id_mask ≡ 0))
      ⊎ (((r.id ≡ 6) ⊎ (r.id ≡ 17) ⊎ ((r.id ≡ 1) × (r.valid ≡ false))) × (r.id_mask ≡ 0xff))

-- A protocol with its mask; ICMP goes with no restriction of the ports.
abbrev IsProtocol : ℕ × ℕ → Result Ports → Result Ports → Type 0
IsProtocol (id, id_mask) src dst =
    ((id ≡ 0) × (id_mask ≡ 0))
    ⊎ (((id ≡ 6)
          ⊎ (id ≡ 17)
          ⊎ ((id ≡ 1) × (src ≡ ok (0, 65535, false)) × (dst ≡ ok (0, 65535, false))))
        × (id_mask ≡ 0xff))

parse_l4_port-any : (s : Bytes) → equal s any ≡ true → parse_l4_port s ≡ ok (0, 65535, false)
unfolding parse_l4_port
parse_l4_port-any s h = ground (arith, h)

parse_l4_id-IsProtocol :
    (raw : RawL3Rule) (id : ℕ × ℕ)
    → parse_l4_id raw ≡ ok id
    → IsProtocol id (parse_l4_port raw.src_port) (parse_l4_port raw.dst_port)
unfolding parse_l4_id
parse_l4_id-IsProtocol raw id e =
    ground (arith, parse_l4_port-any raw.src_port, parse_l4_port-any raw.dst_port)

l4_rule-IsL4Rule :
    (id : Result (ℕ × ℕ)) (src dst : Result Ports) {r : L4Rule}
    → ((p : ℕ × ℕ) → id ≡ ok p → IsProtocol p src dst)
    → ((p : Ports) → src ≡ ok p → IsRange p.0 p.1 p.2)
    → ((p : Ports) → dst ≡ ok p → IsRange p.0 p.1 p.2)
    → (id >>= λ i. src >>= λ s. dst >>= λ d. ok (l4_rule i s d)) ≡ ok r
    → IsL4Rule r
l4_rule-IsL4Rule (ok (i, m)) (ok (a, b, v)) (ok (c, d, w)) hi hs hd e =
    ground (arith, hi (i, m) refl, hs (a, b, v) refl, hd (c, d, w) refl)
l4_rule-IsL4Rule (ok i) (ok s) (err x) hi hs hd e = cc
l4_rule-IsL4Rule (ok i) (ok s) panic hi hs hd e = cc
l4_rule-IsL4Rule (ok i) (err x) d hi hs hd e = cc
l4_rule-IsL4Rule (ok i) panic d hi hs hd e = cc
l4_rule-IsL4Rule (err x) s d hi hs hd e = cc
l4_rule-IsL4Rule panic s d hi hs hd e = cc

-- The fourth layer of a line that `parseL4` accepts asks for a known protocol or for none, and for
-- ordered ranges of 16-bit ports, which are all ports where the flag `valid` is not set, as for ICMP.
pub parse_l4-IsL4Rule : (raw : RawL3Rule) {r : L4Rule} → parse_l4 raw ≡ ok r → IsL4Rule r
unfolding parse_l4
parse_l4-IsL4Rule raw =
    l4_rule-IsL4Rule (parse_l4_id raw) (parse_l4_port raw.src_port) (parse_l4_port raw.dst_port)
      (parse_l4_id-IsProtocol raw) (λ p. parse_l4_port-IsRange raw.src_port)
      (λ p. parse_l4_port-IsRange raw.dst_port)
