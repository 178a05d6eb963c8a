-- ===== src/Packet/Acl/Match/FirstRule.antt =====
-- How one round of the searches of packet/acl.go goes, and that a search returns the output of the
-- first rule that covers the packet.
use nff_go.Base.{
  ℕ, zero, suc, ◌+◌, ◌≤◌, ◌<◌, ◌≡◌, refl, sym, arith, bit_and, bit_xor, Bool, true, false, not,
  ◌&&◌, List, [], ◌∷◌, Option, none, some, equal, equal_iff, if◌then◌else◌, get_or, or-eq-false,
  ℕ_discrete,
}
use nff_go.Base.Bits.{masked_difference}
use nff_go.Packet.Acl.Rules.{L2Rule, L4Rule, L3Rule4, L3Rule6}
use nff_go.Packet.Acl.Match.{
  differs, then_try, search, try_l2, l4_acl, try_ipv4, addresses_differ, try_ipv6,
}
use nff_go.Packet.Parse.{parse_l4_for_ipv4, parse_l4_for_ipv6}
use nff_go.Packet.State.{Packet}
use nff_go.Packet.Acl.Match.Covers.{
  FirstMatch, no_rule, here, there, Agree, HasPorts, Covers2, Covers4, Covers6,
}

differs-Agree : (a b m : ℕ) → differs a b m ≡ false → Agree m a b
differs-Agree a b m h = (masked_difference a b m).0 (ground (arith, h))

Agree-differs : (a b m : ℕ) → Agree m a b → differs a b m ≡ false
Agree-differs a b m h =
    let z : bit_and (bit_xor a b) m ≡ 0 = (masked_difference a b m).1 h in rw z refl

l4_acl-HasPorts : (p : Packet) (r : L4Rule) → l4_acl p r ≡ true → HasPorts p.mem p.l4 r
unfolding l4_acl
l4_acl-HasPorts p r h = record {
  src_low = ground (arith, h);
  src_high = ground (arith, h);
  dst_low = ground (arith, h);
  dst_high = ground (arith, h);
}

HasPorts-l4_acl : (p : Packet) (r : L4Rule) → HasPorts p.mem p.l4 r → l4_acl p r ≡ true
unfolding l4_acl
HasPorts-l4_acl p r h = ground (arith, h.src_low, h.src_high, h.dst_low, h.dst_high)

-- How a rule with the property `P` and the output `n` may turn out on `p`: it returns its output, or
-- it does not have the property, and at most the pointer `L4` has changed.
abbrev pub Tried : Packet → Type 0 → ℕ → Packet × Option ℕ → Type 0
Tried p P n (q, none) = ((x : ℕ) × (q ≡ record p { l4 = x })) × ¬ P
Tried p P n (q, some m) = (m ≡ n) × P

module _ (p : Packet) (P : Type 0) (n : ℕ) where
  -- A guard that skips the rule.
  Tried-skip :
      (b : Bool) (x : ℕ) (y : Packet × Option ℕ)
      → (P → b ≡ false)
      → (b ≡ false → Tried p P n y)
      → Tried p P n (if b then (record p { l4 = x }, none) else y)
  Tried-skip true x y h k = ((x, refl), λ c. cc (h c))
  Tried-skip false x y h k = k refl

  -- The test that accepts the rule.
  Tried-accept :
      (b : Bool) (x : ℕ)
      → (P → b ≡ true)
      → (b ≡ true → P)
      → Tried p P n (if b then (record p { l4 = x }, some n) else (record p { l4 = x }, none))
  Tried-accept true x h k = (refl, k refl)
  Tried-accept false x h k = ((x, refl), λ c. cc (h c))

  -- The test of the ports, which is made only where the rule restricts them.
  Tried-restricted :
      (v t : Bool) (x y : ℕ)
      → (v ≡ true → P → t ≡ true)
      → (v ≡ true → t ≡ true → P)
      → (v ≡ false → P)
      → Tried p P n (
          if v
          then (if t then (record p { l4 = y }, some n) else (record p { l4 = y }, none))
          else (record p { l4 = x }, some n))
  Tried-restricted true t x y h k l = Tried-accept t y (h refl) (k refl)
  Tried-restricted false t x y h k l = (refl, l refl)

module _ {A : Type 0} (try : Packet → A → Packet × Option ℕ) (P : A → Type 0) (output : A → ℕ)
    (p : Packet)
    (law : (r : A) (x : ℕ) → Tried p (P r) (output r) (try (record p { l4 = x }) r)) where
  then_try-FirstMatch :
      (r : A) (rules : List A) (t : Packet × Option ℕ)
      → Tried p (P r) (output r) t
      → ((x : ℕ) → FirstMatch P output rules (search try rules (record p { l4 = x })).1)
      → FirstMatch P output (r ∷ rules) (then_try (search try rules) t).1
  unfolding then_try
  then_try-FirstMatch r rules (q, none) ((x, e), without) rest = there without (rw e (rest x))
  then_try-FirstMatch r rules (q, some n) (e, has) rest = rw e (here has)

  pub search-FirstMatch :
      (rules : List A) (x : ℕ)
      → FirstMatch P output rules (search try rules (record p { l4 = x })).1
  unfolding search
  search-FirstMatch [] x = no_rule
  search-FirstMatch (r ∷ rules) x =
      then_try-FirstMatch r rules (try (record p { l4 = x }) r) (law r x) (search-FirstMatch rules)

equal-false : (b : Bool) (s t : List ℕ) → (b ≡ true → s ≡ t) → (b && not (equal s t)) ≡ false
equal-false true s t h = let e = (equal_iff s t).1 (h refl) in rw e refl
equal-false false s t h = refl

false-equal : (b : Bool) (s t : List ℕ) → (b && not (equal s t)) ≡ false → b ≡ true → s ≡ t
false-equal b s t h e = (equal_iff s t).0 (ground (arith, h, e))

pub try_l2-Tried :
    (p : Packet) (r : L2Rule) (x : ℕ)
    → Tried p (Covers2 p r) r.output_number (try_l2 (record p { l4 = x }) r)
unfolding try_l2
try_l2-Tried p r x =
    Tried-skip p (Covers2 p r) r.output_number _ x _ (λ c. equal-false _ _ _ c.source)
      λ hs.
        Tried-skip p (Covers2 p r) r.output_number _ x _ (λ c. equal-false _ _ _ c.destination)
          λ hd.
            Tried-skip p (Covers2 p r) r.output_number _ x _ (λ c. Agree-differs _ _ _ c.protocol)
              λ hp. (
                refl,
                record {
                  source = false-equal _ _ _ hs;
                  destination = false-equal _ _ _ hd;
                  protocol = differs-Agree _ _ _ hp;
                },
              )

pub try_ipv4-Tried :
    (p : Packet) (r : L3Rule4) (x : ℕ)
    → Tried p (Covers4 p r) r.output_number (try_ipv4 (record p { l4 = x }) r)
unfolding try_ipv4 parse_l4_for_ipv4
try_ipv4-Tried p r x =
    Tried-skip p (Covers4 p r) r.output_number _ x _ (λ c. Agree-differs _ _ _ c.source)
      λ hs.
        Tried-skip p (Covers4 p r) r.output_number _ x _ (λ c. Agree-differs _ _ _ c.destination)
          λ hd.
            Tried-skip p (Covers4 p r) r.output_number _ x _ (λ c. Agree-differs _ _ _ c.protocol)
              λ hp.
                let covers : (r.l4.valid ≡ true → HasPorts p.mem (parse_l4_for_ipv4 p).l4 r.l4)
                    → Covers4 p r =
                  λ ports. record {
                    source = differs-Agree _ _ _ hs;
                    destination = differs-Agree _ _ _ hd;
                    protocol = differs-Agree _ _ _ hp;
                    ports = ports;
                  } in
                Tried-restricted p (Covers4 p r) r.output_number r.l4.valid
                  (l4_acl (parse_l4_for_ipv4 p) r.l4) x _
                  (λ e c. HasPorts-l4_acl (parse_l4_for_ipv4 p) r.l4 (c.ports e))
                  (λ e t. covers (λ _. l4_acl-HasPorts (parse_l4_for_ipv4 p) r.l4 t))
                  (λ e. covers (λ t. cc (e, t)))

-- The loop over the bytes goes through when both addresses agree from byte `i` on.
module _ (p : Packet) (r : L3Rule6) where
  abbrev SrcAgree : ℕ → Type 0
  SrcAgree i = Agree (get_or r.src_mask i 0) (get_or r.src_addr i 0) (p.mem (p.l3 + 8 + i))

  abbrev DstAgree : ℕ → Type 0
  DstAgree i = Agree (get_or r.dst_mask i 0) (get_or r.dst_addr i 0) (p.mem (p.l3 + 24 + i))

  addresses_differ-false :
      (n i : ℕ)
      → ((j : ℕ) → i ≤ j → j < i + n → SrcAgree j × DstAgree j)
      → addresses_differ p r n i ≡ false
  unfolding addresses_differ
  addresses_differ-false zero i h = refl
  addresses_differ-false (suc n) i h =
      let (s, d) = h i (omega arith) (omega arith) in
      rw (Agree-differs _ _ _ s, Agree-differs _ _ _ d)
        (addresses_differ-false n (suc i) (λ j a b. h j (omega (arith, a)) (omega (arith, b))))

  false-addresses_differ :
      (n i : ℕ)
      → addresses_differ p r n i ≡ false
      → (j : ℕ) → i ≤ j
      → j < i + n
      → SrcAgree j × DstAgree j
  unfolding addresses_differ
  false-addresses_differ zero i e j a b = absurd (omega arith)
  false-addresses_differ (suc n) i e j a b =
      let (here_false, rest) = or-eq-false _ _ e in
      let (s, d) = or-eq-false _ _ here_false in
      elim (ℕ_discrete i j) [
        | Dec.yes same ↦ rw (sym same) (differs-Agree _ _ _ s, differs-Agree _ _ _ d)
        | Dec.no other ↦
            false-addresses_differ n (suc i) rest j (omega (arith, a, other)) (omega (arith, b))
      ]

pub try_ipv6-Tried :
    (p : Packet) (r : L3Rule6) (x : ℕ)
    → Tried p (Covers6 p r) r.output_number (try_ipv6 (record p { l4 = x }) r)
unfolding try_ipv6 parse_l4_for_ipv6
try_ipv6-Tried p r x =
    Tried-skip p (Covers6 p r) r.output_number _ x _
      (λ c.
        addresses_differ-false (record p { l4 = x }) r 16 0
          (λ j a b. (c.source j b, c.destination j b)))
      λ hs.
        let agree = false-addresses_differ (record p { l4 = x }) r 16 0 hs in
        Tried-skip p (Covers6 p r) r.output_number _ x _ (λ c. Agree-differs _ _ _ c.protocol)
          λ hp.
            Tried-accept p (Covers6 p r) r.output_number (l4_acl (parse_l4_for_ipv6 p) r.l4) _
              (λ c. HasPorts-l4_acl (parse_l4_for_ipv6 p) r.l4 c.ports)
              λ t. record {
                source = λ i b. (agree i (omega arith) b).0;
                destination = λ i b. (agree i (omega arith) b).1;
                protocol = differs-Agree _ _ _ hp;
                ports = l4_acl-HasPorts (parse_l4_for_ipv6 p) r.l4 t;
              }
