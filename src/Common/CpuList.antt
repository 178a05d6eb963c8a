-- ===== src/Common/CpuList.antt =====
-- The list of cores of common/common.go: `HandleCPUList` and what it calls.
pub mod Distinct
use nff_go.Base.{
  ℕ, zero, suc, ◌+◌, ◌-◌, ◌^◌, Bool, true, false, ◌||◌, List, [], ◌∷◌, ◌++◌, Option, none, some,
  Bytes, parse_uint, ltb, ◌==◌, if◌then◌else◌,
}
use nff_go.Common.Errors.{Result, ok, err, panic, parse_cpu_list_err, invalid_cpu_range_err}

-- `strconv.Atoi` of a text with no minus sign.
unfoldable pub atoi : Bytes → Option ℕ
unfolding parse_uint
atoi [] = none
atoi (c ∷ cs) = if c == b'+' then parse_uint (2 ^ 63 - 1) cs else parse_uint (2 ^ 63 - 1) (c ∷ cs)

-- The numbers so far, and how the parse ended.
abbrev pub Parsed : Type 0
Parsed = List ℕ × Result (Unit {0})

-- `n` numbers from `k` on.
unfoldable pub numbers_from : ℕ → ℕ → List ℕ
numbers_from k zero = []
numbers_from k (suc n) = k ∷ numbers_from (k + 1) n

-- A number, or a range, whose start is known, that ends the part of the text before a comma. A range
-- up to the greatest int, 2 ^ 63 - 1, has no end: `k <= r` holds of every `k`, which wraps around. That
-- its numbers use up the memory, which ends the program, is a panic.
unfoldable pub end_part : Option ℕ → List ℕ → Option ℕ → Parsed
unfolding numbers_from
end_part start nums none = (nums, err parse_cpu_list_err)
end_part none nums (some r) = (nums ++ (r ∷ []), ok tt)
end_part (some k) nums (some r) =
    if ltb r k
    then (nums, err invalid_cpu_range_err)
    else if r == 2 ^ 63 - 1
    then (nums, panic)
    else (nums ++ numbers_from k (r - k + 1), ok tt)

-- The parse goes on with what stands behind a comma, or behind a dash.
unfoldable pub behind_comma : (List ℕ → Parsed) → Parsed → Parsed
behind_comma rest (nums, ok _) = rest nums
behind_comma rest (nums, err e) = (nums, err e)
behind_comma rest (nums, panic) = (nums, panic)

unfoldable pub behind_dash : (Option ℕ → Parsed) → List ℕ → Option ℕ → Parsed
behind_dash rest nums none = (nums, err parse_cpu_list_err)
behind_dash rest nums (some k) = rest (some k)

-- The loop of `parseCPUs`; `part` is the text `s[j:i]`, and `start` is `none` for -1.
unfoldable pub parse_parts : Bytes → Bytes → Option ℕ → List ℕ → Parsed
unfolding atoi end_part behind_comma behind_dash
parse_parts [] part start nums = end_part start nums (atoi part)
parse_parts (c ∷ cs) part start nums = elim (c == b'-') [
  | true ↦ behind_dash (λ k. parse_parts cs [] k nums) nums (atoi part)
  | false ↦ elim (c == b',') [
    | true ↦ behind_comma (parse_parts cs [] none) (end_part start nums (atoi part))
    | false ↦ parse_parts cs (part ++ (c ∷ [])) start nums
  ]
]

unfoldable pub parse_cpus : Bytes → Parsed
unfolding parse_parts
parse_cpus [] = ([], ok tt)
parse_cpus (c ∷ cs) = parse_parts (c ∷ cs) [] none []

unfoldable pub member : ℕ → List ℕ → Bool
member x [] = false
member x (y ∷ ys) = y == x || member x ys

-- The loop of `removeDuplicates`: what is left of the array gives these values.
unfoldable pub unseen : List ℕ → List ℕ → List ℕ
unfolding member
unseen seen [] = []
unseen seen (x ∷ xs) = elim (member x seen) [
  | true ↦ unseen seen xs
  | false ↦ x ∷ unseen (x ∷ seen) xs
]

unfoldable pub remove_duplicates : List ℕ → List ℕ
unfolding unseen
remove_duplicates array = unseen [] array

unfoldable pub drop_invalid_cpus : List ℕ → ℕ → List ℕ
drop_invalid_cpus [] maxcpu = []
drop_invalid_cpus (x ∷ xs) maxcpu =
    let rest = drop_invalid_cpus xs maxcpu in if ltb x maxcpu then x ∷ rest else rest

unfoldable pub handle_cpu_list : Bytes → ℕ → Parsed
unfolding parse_cpus remove_duplicates drop_invalid_cpus
handle_cpu_list s maxcpu =
    let (nums, result) = parse_cpus s in (drop_invalid_cpus (remove_duplicates nums) maxcpu, result)
