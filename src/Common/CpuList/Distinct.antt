-- ===== src/Common/CpuList/Distinct.antt =====
-- The list of cores holds each valid core once.
use nff_go.Base.{
  ℕ, ◌≡◌, refl, arith, Bool, true, false, List, [], ◌∷◌, Bytes, ltb, if◌then◌else◌, count,
  ℕ_discrete,
}
use nff_go.Common.CpuList.{
  parse_cpus, member, unseen, remove_duplicates, drop_invalid_cpus, handle_cpu_list,
}

-- How often a number should be left, of a list behind those already seen.
abbrev once : Bool → ℕ → ℕ
once before later = if before then 0 else if ltb 0 later then 1 else 0

seen_before :
    (i x : ℕ) (xs seen : List ℕ)
    → member x seen ≡ true
    → count i (unseen seen xs) ≡ once (member i seen) (count i xs)
    → count i (unseen seen xs) ≡ once (member i seen) (count i (x ∷ xs))
unfolding count
seen_before i x xs seen e rest = elim (ℕ_discrete x i) [
  | yes same ↦ let known : member i seen ≡ true = rw same at e in ground (arith, known, rest)
  | no other ↦ ground (arith, other, rest)
]

seen_first :
    (i x : ℕ) (xs seen : List ℕ)
    → member x seen ≡ false
    → count i (unseen (x ∷ seen) xs) ≡ once (member i (x ∷ seen)) (count i xs)
    → count i (x ∷ unseen (x ∷ seen) xs) ≡ once (member i seen) (count i (x ∷ xs))
unfolding count member
seen_first i x xs seen e rest = elim (ℕ_discrete x i) [
  | yes same ↦ let fresh : member i seen ≡ false = rw same at e in ground (arith, fresh, rest, same)
  | no other ↦ ground (arith, other, rest)
]

count-unseen_by :
    (i x : ℕ) (xs seen : List ℕ) (b : Bool)
    → member x seen ≡ b
    → ((seen : List ℕ) → count i (unseen seen xs) ≡ once (member i seen) (count i xs))
    → count i (elim b [ true ↦ unseen seen xs | false ↦ x ∷ unseen (x ∷ seen) xs ])
      ≡ once (member i seen) (count i (x ∷ xs))
count-unseen_by i x xs seen true e rest = seen_before i x xs seen e (rest seen)
count-unseen_by i x xs seen false e rest = seen_first i x xs seen e (rest (x ∷ seen))

count-unseen :
    (i : ℕ) (xs seen : List ℕ) → count i (unseen seen xs) ≡ once (member i seen) (count i xs)
unfolding unseen
count-unseen i [] seen = unfold count in ground arith
count-unseen i (x ∷ xs) seen = count-unseen_by i x xs seen (member x seen) refl (count-unseen i xs)

count-drop_invalid_cpus :
    (i : ℕ) (xs : List ℕ) (maxcpu : ℕ)
    → count i (drop_invalid_cpus xs maxcpu) ≡ (if ltb i maxcpu then count i xs else 0)
unfolding count drop_invalid_cpus
count-drop_invalid_cpus i [] maxcpu = ground arith
count-drop_invalid_cpus i (x ∷ xs) maxcpu = ground (arith, count-drop_invalid_cpus i xs maxcpu)

-- Of the numbers that the parse found, `HandleCPUList` keeps exactly those below `maxcpu`, each once.
pub count-handle_cpu_list :
    (i : ℕ) (s : Bytes) (maxcpu : ℕ)
    → count i (handle_cpu_list s maxcpu).0
      ≡ (if ltb i maxcpu then (if ltb 0 (count i (parse_cpus s).0) then 1 else 0) else 0)
unfolding handle_cpu_list remove_duplicates member
count-handle_cpu_list i s maxcpu = ground (
  arith,
  count-drop_invalid_cpus i (unseen [] (parse_cpus s).0) maxcpu,
  count-unseen i (parse_cpus s).0 [],
)
