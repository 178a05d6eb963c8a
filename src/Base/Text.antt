-- ===== src/Base/Text.antt =====
-- Text as lists of bytes, and what Go's `strings` and `strconv` do with ASCII.
use Prim.Native.Nat.{ℕ, ◌+◌, ◌-◌, ◌*◌, ◌≤◌}
use Prim.Native.Char.{code}
use Prim.Native.String.{String}
use mathlib.Core.Path.{◌≡◌}
use mathlib.Core.Logic.{◌↔◌}
use mathlib.Core.Bool.{Bool, true, false, ◌&&◌, ◌||◌}
use mathlib.Core.List.{List, [], ◌∷◌}
use mathlib.Core.Option.{Option, none, some}
use native.Mathlib.Omega.{arith}
use nff_go.Base.Tests.{leb, ◌==◌, if◌then◌else◌}

abbrev pub Bytes : Type 0
Bytes = List ℕ

abbrev pub codes : String → Bytes
codes String.[] = []
codes (String.◌∷◌ c s) = code c ∷ codes s

unfoldable pub equal : Bytes → Bytes → Bool
equal [] [] = true
equal (x ∷ xs) (y ∷ ys) = x == y && equal xs ys
equal _ _ = false

pub equal_iff : (a b : Bytes) → (equal a b ≡ true) ↔ (a ≡ b)
unfolding equal
equal_iff [] [] = ground arith
equal_iff [] (y ∷ b) = ground arith
equal_iff (x ∷ a) [] = ground arith
equal_iff (x ∷ a) (y ∷ b) = ground (arith, equal_iff a b)

-- `case "a", "b", …:`
unfoldable pub is_one_of : Bytes → List Bytes → Bool
unfolding equal
is_one_of s [] = false
is_one_of s (t ∷ ts) = equal s t || is_one_of s ts

abbrev pub is_digit : ℕ → Bool
is_digit c = leb b'0' c && leb c b'9'

-- The number that decimal digits stand for, behind those already read.
unfoldable pub read_digits : ℕ → Bytes → Option ℕ
read_digits acc [] = some acc
read_digits acc (c ∷ cs) =
    let rest = read_digits (acc * 10 + (c - b'0')) cs in if is_digit c then rest else none

abbrev pub at_most : ℕ → Option ℕ → Option ℕ
at_most limit none = none
at_most limit (some n) = if leb n limit then some n else none

-- `strconv.ParseUint(s, 10, w)` with `limit` the largest number of `w` bits; `none` is an error.
unfoldable pub parse_uint : ℕ → Bytes → Option ℕ
unfolding read_digits
parse_uint limit [] = none
parse_uint limit (c ∷ cs) = at_most limit (read_digits 0 (c ∷ cs))

pub parse_uint-le : (limit n : ℕ) (s : Bytes) → parse_uint limit s ≡ some n → n ≤ limit
unfolding parse_uint
parse_uint-le limit n [] h = ground arith
parse_uint-le limit n (c ∷ cs) h = ground arith
