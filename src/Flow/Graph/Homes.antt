-- ===== src/Flow/Graph/Homes.antt =====
-- Every function of the graph belongs to one segment: the links between functions do not leave it, a
-- segment begins with one of its own, and a flow leaves a function of its segment, flow/flow.go.
pub mod Kept
pub mod Inserted
pub mod Called
pub mod Closed
pub mod Settled
use nff_go.Base.{ℕ, ◌≡◌, Option, none, some, List, length}
use nff_go.Common.Errors.{ok}
use nff_go.Common.Slices.{fetch}
use nff_go.Flow.Graph.{Func, Segment, Net, Flow}

-- `homes` has the segment of each function.
pub record Homed (net : Net) (homes : List ℕ) : Type 0 where
  pub sizes : length homes ≡ length net.funcs
  pub firsts :
      (seg : ℕ) (s : Segment) → fetch net.segments seg ≡ ok s → fetch homes s.first_func ≡ ok seg
  pub links :
      (f : ℕ) (func : Func) (entries : List (Option ℕ)) (b g home : ℕ)
      → fetch net.funcs f ≡ ok func
      → func.next ≡ some entries
      → fetch entries b ≡ ok (some g)
      → fetch homes f ≡ ok home
      → fetch homes g ≡ ok home

abbrev pub AtHome : List ℕ → Flow → Type 0
AtHome homes flow =
    (seg owner branch : ℕ)
    → flow.segment ≡ some seg
    → flow.previous ≡ some (owner, branch)
    → fetch homes owner ≡ ok seg

-- No function has lost its segment.
abbrev pub Keeps : List ℕ → List ℕ → Type 0
Keeps homes later = (f seg : ℕ) → fetch homes f ≡ ok seg → fetch later f ≡ ok seg
