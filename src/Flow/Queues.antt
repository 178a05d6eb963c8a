-- ===== src/Flow/Queues.antt =====
-- The lists of input queues of flow/scheduler.go. Such a list, `inIndex`, holds the number of its
-- queues and then the queues; behind them it may have room. Its int32 values are not negative.
pub mod Layout
pub mod Moves
use nff_go.Base.{
  ℕ, zero, suc, ◌+◌, ◌-◌, ◌*◌, ◌/◌, ◌%◌, List, [], ◌∷◌, replicate, length, ◌==◌, if◌then◌else◌,
}
unfoldable pub use nff_go.Common.Slices.{fetch, put}
use nff_go.Common.Errors.{Result, ok, err, panic, ◌>>=◌}

-- `make([]int32, len(old), len(old))`
unfoldable pub construct_zero_index : List ℕ → List ℕ
construct_zero_index old = replicate (length old) 0

-- The loop of `constructNewIndex` at `q`, with `left` rounds to go.
unfoldable pub number_queues : ℕ → ℕ → List ℕ → Result (List ℕ)
unfolding put
number_queues zero q new_index = ok new_index
number_queues (suc left) q new_index = do
  next ← put new_index (q + 1) q
  number_queues left (q + 1) next

unfoldable pub construct_new_index : ℕ → Result (List ℕ)
unfolding number_queues put
construct_new_index in_index_number = if in_index_number == 0 then ok [] else (do
  new_index ← number_queues in_index_number 0 (replicate (in_index_number + 1) 0)
  put new_index 0 in_index_number)

-- A loop `to[j+q] = from[i+q]` with `left` rounds to go.
unfoldable pub copy_queues : List ℕ → ℕ → List ℕ → ℕ → ℕ → Result (List ℕ)
unfolding fetch put
copy_queues src i dst j zero = ok dst
copy_queues src i dst j (suc left) = do
  queue ← fetch src i
  next ← put dst j queue
  copy_queues src (i + 1) next (j + 1) left

-- The list that keeps the first half, and the one that takes the rest.
unfoldable pub construct_duplicated_index : List ℕ → List ℕ → Result (List ℕ × List ℕ)
unfolding fetch put copy_queues
construct_duplicated_index old new_index = do
  number ← fetch old 0
  let old_len = number / 2 + number % 2
  let new_len = number / 2
  copied ← copy_queues old (old_len + 1) new_index 1 new_len
  new_index_out ← put copied 0 new_len
  old_out ← put old 0 old_len
  ok (old_out, new_index_out)

-- What `stopInstance` does with the two lists: the queues of `src` go behind those of `dst`.
unfoldable pub merge_index : List ℕ → List ℕ → Result (List ℕ)
unfolding fetch put copy_queues
merge_index src dst = do
  src_number ← fetch src 0
  dst_number ← fetch dst 0
  copied ← copy_queues src 1 dst (dst_number + 1) src_number
  put copied 0 (dst_number + src_number)
