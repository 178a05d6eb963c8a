-- ===== src/Packet/Acl/Layer2/Valid.antt =====
-- The rules of `rawL2Parse` fit their types, one for each line, whatever the file holds.
use nff_go.Base.{
  ℕ, suc, Bool, true, ◌<◌, ◌^◌, ◌≡◌, ◌⊎◌, inl, inr, refl, ap, ◌∙◌, false, arith, List, [], ◌∷◌, map,
  Option, none, some, Bytes, All, length, if◌then◌else◌,
}
use nff_go.Common.Errors.{Result, ok, err, panic, incorrect_arg_in_rules}
use nff_go.Packet.Acl.Fields.{parse_rule_result, copy}
use nff_go.Packet.Acl.Layer2.{
  Fill, zero_l2, ◌then_fill◌, fill_output, fill_id, fill_source, fill_destination, raw_l2_rule,
  raw_l2_parse,
}
use nff_go.Packet.Acl.Layer3.Valid.{parse_rule_result-lt, length-copy}
use nff_go.Packet.Acl.Rules.{RawL2Rule, L2Rule}

pub record IsRule2 (r : L2Rule) : Type 0 where
  pub output_fits : r.output_number < 2 ^ 32
  pub d_addr_size : length r.d_addr ≡ 6
  pub s_addr_size : length r.s_addr ≡ 6
  pub id_fits : r.id < 2 ^ 16
  pub id_masked : (r.id_mask ≡ 0) ⊎ (r.id_mask ≡ 0xffff)

-- A step that keeps rules valid, however it ends.
abbrev Keeps : Fill → Type 0
Keeps f = (r : L2Rule) → IsRule2 r → IsRule2 (f r).0

zero_l2-IsRule2 : IsRule2 zero_l2
zero_l2-IsRule2 = record {
  output_fits = omega arith;
  d_addr_size = refl;
  s_addr_size = refl;
  id_fits = omega arith;
  id_masked = inl refl;
}

next-IsRule2 :
    (g : Fill) (s : L2Rule) (e : Result (Unit {0}))
    → Keeps g
    → IsRule2 s
    → IsRule2
        (elim e as (λ _. L2Rule × Result (Unit {0})) [
          | ok u ↦ g s
          | err c ↦ (s, err c)
          | panic ↦ (s, panic)
        ]).0
next-IsRule2 g s (ok u) k v = k s v
next-IsRule2 g s (err c) k v = v
next-IsRule2 g s panic k v = v

then_fill-Keeps : (f g : Fill) → Keeps f → Keeps g → Keeps (f then_fill g)
then_fill-Keeps f g h k r v = next-IsRule2 g (f r).0 (f r).1 k (h r v)

with_output :
    (r : L2Rule) (n : ℕ) → n < 2 ^ 32 → IsRule2 r → IsRule2 (record r { output_number = n })
with_output r n h v = record {
  output_fits = h;
  d_addr_size = v.d_addr_size;
  s_addr_size = v.s_addr_size;
  id_fits = v.id_fits;
  id_masked = v.id_masked;
}

with_id :
    (r : L2Rule) (n m : ℕ)
    → n < 2 ^ 16
    → (m ≡ 0) ⊎ (m ≡ 0xffff)
    → IsRule2 r
    → IsRule2 (record r { id = n; id_mask = m })
with_id r n m h k v = record {
  output_fits = v.output_fits;
  d_addr_size = v.d_addr_size;
  s_addr_size = v.s_addr_size;
  id_fits = h;
  id_masked = k;
}

with_source :
    (r : L2Rule) (b : Bool) (s : Bytes)
    → length s ≡ 6
    → IsRule2 r
    → IsRule2 (record r { s_addr_not_any = b; s_addr = s })
with_source r b s h v = record {
  output_fits = v.output_fits;
  d_addr_size = v.d_addr_size;
  s_addr_size = h;
  id_fits = v.id_fits;
  id_masked = v.id_masked;
}

with_destination :
    (r : L2Rule) (b : Bool) (s : Bytes)
    → length s ≡ 6
    → IsRule2 r
    → IsRule2 (record r { d_addr_not_any = b; d_addr = s })
with_destination r b s h v = record {
  output_fits = v.output_fits;
  d_addr_size = h;
  s_addr_size = v.s_addr_size;
  id_fits = v.id_fits;
  id_masked = v.id_masked;
}

output-IsRule2 :
    (r : L2Rule) (o : Result ℕ)
    → ((n : ℕ) → o ≡ ok n → n < 2 ^ 32)
    → IsRule2 r
    → IsRule2
        (elim o as (λ _. L2Rule × Result (Unit {0})) [
          | ok n ↦ (record r { output_number = n }, ok tt)
          | err e ↦ (record r { output_number = 0 }, err e)
          | panic ↦ (r, panic)
        ]).0
output-IsRule2 r (ok n) h v = with_output r n (h n refl) v
output-IsRule2 r (err e) h v = with_output r 0 (omega arith) v
output-IsRule2 r panic h v = v

fill_output-Keeps : (raw : RawL2Rule) → Keeps (fill_output raw)
unfolding fill_output
fill_output-Keeps raw r v =
    output-IsRule2 r (parse_rule_result raw.rule) (λ n. parse_rule_result-lt raw.rule) v

-- A choice between two steps that both keep rules valid.
if-IsRule2 :
    (b : Bool) (x y : L2Rule × Result (Unit {0}))
    → IsRule2 x.0
    → IsRule2 y.0
    → IsRule2 (if b then x else y).0
if-IsRule2 true x y h k = h
if-IsRule2 false x y h k = k

fill_id-Keeps : (raw : RawL2Rule) → Keeps (fill_id raw)
unfolding fill_id
fill_id-Keeps raw r v = if-IsRule2 _ _ _ (with_id r 0 0 (omega arith) (inl refl) v) (
    if-IsRule2 _ _ _ (with_id r 0x0800 0xffff (omega arith) (inr refl) v) (
      if-IsRule2 _ _ _ (with_id r 0x86dd 0xffff (omega arith) (inr refl) v)
        (if-IsRule2 _ _ _ (with_id r 0x0806 0xffff (omega arith) (inr refl) v) v)))

module _ (parse_mac : Bytes → Option Bytes) where
  source-IsRule2 :
      (r : L2Rule) (o : Option Bytes)
      → IsRule2 r
      → IsRule2
          (elim o as (λ _. L2Rule × Result (Unit {0})) [
            | none ↦ (record r { s_addr_not_any = true }, err incorrect_arg_in_rules)
            | some t ↦ (record r { s_addr_not_any = true; s_addr = copy r.s_addr t }, ok tt)
          ]).0
  source-IsRule2 r none v = with_source r true r.s_addr v.s_addr_size v
  source-IsRule2 r (some t) v = with_source r true _ (length-copy r.s_addr t ∙ v.s_addr_size) v

  destination-IsRule2 :
      (r : L2Rule) (o : Option Bytes)
      → IsRule2 r
      → IsRule2
          (elim o as (λ _. L2Rule × Result (Unit {0})) [
            | none ↦ (record r { d_addr_not_any = true }, err incorrect_arg_in_rules)
            | some t ↦ (record r { d_addr_not_any = true; d_addr = copy r.d_addr t }, ok tt)
          ]).0
  destination-IsRule2 r none v = with_destination r true r.d_addr v.d_addr_size v
  destination-IsRule2 r (some t) v =
      with_destination r true _ (length-copy r.d_addr t ∙ v.d_addr_size) v

  fill_source-Keeps : (raw : RawL2Rule) → Keeps (fill_source parse_mac raw)
  unfolding fill_source
  fill_source-Keeps raw r v = if-IsRule2 _ _ _ v (source-IsRule2 r (parse_mac raw.source) v)

  fill_destination-Keeps : (raw : RawL2Rule) → Keeps (fill_destination parse_mac raw)
  unfolding fill_destination
  fill_destination-Keeps raw r v =
      if-IsRule2 _ _ _ v (destination-IsRule2 r (parse_mac raw.destination) v)

  raw_l2_rule-Keeps : (raw : RawL2Rule) → Keeps (raw_l2_rule parse_mac raw)
  unfolding raw_l2_rule
  raw_l2_rule-Keeps raw =
      let output = fill_output raw in
      let source = fill_source parse_mac raw in
      let destination = fill_destination parse_mac raw in
      then_fill-Keeps (output then_fill source then_fill destination) (fill_id raw)
        (then_fill-Keeps (output then_fill source) destination
          (then_fill-Keeps output source (fill_output-Keeps raw) (fill_source-Keeps raw))
          (fill_destination-Keeps raw))
        (fill_id-Keeps raw)

-- One rule for each line, and all of them valid.
abbrev pub AllRules : List RawL2Rule → List L2Rule → Type 0
AllRules raws rules = All IsRule2 rules × (length rules ≡ length raws)

zeros-AllRules : (raws : List RawL2Rule) → AllRules raws (map (λ _. zero_l2) raws)
zeros-AllRules [] = (tt, refl)
zeros-AllRules (raw ∷ raws) =
    let (valid, size) = zeros-AllRules raws in ((zero_l2-IsRule2, valid), ap suc size)

lines-AllRules :
    (raw : RawL2Rule) (rest : List RawL2Rule) (r : L2Rule) (e : Result (Unit {0}))
    (tail : List L2Rule × Result (Unit {0}))
    → IsRule2 r
    → AllRules rest tail.0
    → AllRules
        (raw ∷ rest)
        (elim e as (λ _. List L2Rule × Result (Unit {0})) [
          | ok u ↦ (r ∷ tail.0, tail.1)
          | err c ↦ (r ∷ map (λ _. zero_l2) rest, err c)
          | panic ↦ (r ∷ map (λ _. zero_l2) rest, panic)
        ]).0
lines-AllRules raw rest r (ok u) tail v (valid, size) = ((v, valid), ap suc size)
lines-AllRules raw rest r (err c) tail v h =
    let (valid, size) = zeros-AllRules rest in ((v, valid), ap suc size)
lines-AllRules raw rest r panic tail v h =
    let (valid, size) = zeros-AllRules rest in ((v, valid), ap suc size)

-- Whatever the lines hold and however the parse ends, there is one rule for each line, with addresses
-- of 6 bytes, a type of 16 bits that is masked whole or not at all, and an output of 32 bits.
pub raw_l2_parse-AllRules :
    (parse_mac : Bytes → Option Bytes) (raws : List RawL2Rule)
    → AllRules raws (raw_l2_parse parse_mac raws).0
unfolding raw_l2_parse
raw_l2_parse-AllRules parse_mac [] = (tt, refl)
raw_l2_parse-AllRules parse_mac (raw ∷ rest) =
    lines-AllRules raw rest _ (raw_l2_rule parse_mac raw zero_l2).1 (raw_l2_parse parse_mac rest)
      (raw_l2_rule-Keeps parse_mac raw zero_l2 zero_l2-IsRule2)
      (raw_l2_parse-AllRules parse_mac rest)
