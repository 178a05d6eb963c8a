-- ===== src/Low/Ring.antt =====
-- The ring buffer between flow functions, low/low.go. `cells` is the storage behind
-- `internal_DPDK_ring`, by the number of the machine word; `mask` and `size` are the fields that the ring was created with. The functions are those of a thread that
-- no other disturbs: its compare-and-swap succeeds at once and no operation is in progress.
pub mod Slots
pub mod Copies
pub mod Pointers
pub mod State
pub mod Enqueue
pub mod Dequeue
pub mod Fifo
use nff_go.Base.{
  ℕ, zero, suc, ◌+◌, ◌*◌, ◌/◌, ◌-◌, bit_and, Bool, List, [], ◌∷◌, ltb, ◌==◌, if◌then◌else◌, u32,
  sub32,
}
use nff_go.Common.Errors.{Result, ok, err, panic, ◌>>=◌}
use nff_go.Common.Slices.{fetch, put}

pub record Ring : Type 0 where
  pub prod_head : ℕ
  pub prod_tail : ℕ
  pub cons_head : ℕ
  pub cons_tail : ℕ
  pub mask : ℕ
  pub size : ℕ
  pub cells : ℕ → ℕ

abbrev pub store : (ℕ → ℕ) → ℕ → ℕ → ℕ → ℕ
store cells idx v j = if j == idx then v else cells j

-- The machine word at `uintptr(idx*r.offset)`. The product is one of 32-bit words, and `offset` is the
-- size of a pointer, 8.
unfoldable pub cell : ℕ → ℕ
cell idx = u32 (idx * 8) / 8

-- `ring[idx] = objTable[i]`
unfoldable pub write_entry : List ℕ → ℕ → ℕ → (ℕ → ℕ) → Result (ℕ → ℕ)
unfolding cell
write_entry obj_table i idx cells = do v ← fetch obj_table i; ok (store cells (cell idx) v)

-- The loops of both directions, over a step that copies the entry `i` of the table from or to the
-- cell `idx`. One entry a round, with `left` rounds to go:
unfoldable pub copy_loop {ℓ} : {S : Type ℓ} → (ℕ → ℕ → S → Result S) → ℕ → ℕ → ℕ → S → Result S
copy_loop copy zero i idx s = ok s
copy_loop copy (suc left) i idx s = do
  next ← copy i idx s
  copy_loop copy left (i + 1) (u32 (idx + 1)) next

-- The switch on `n & 0x3`.
unfoldable pub copy_rest {ℓ} : {S : Type ℓ} → (ℕ → ℕ → S → Result S) → ℕ → ℕ → ℕ → S → Result S
copy_rest copy tail i idx s =
    if tail == 3
    then (do
      one ← copy i idx s
      two ← copy (i + 1) (u32 (idx + 1)) one
      copy (i + 2) (u32 (idx + 2)) two)
    else if tail == 2
    then (do one ← copy i idx s; copy (i + 1) (u32 (idx + 1)) one)
    else if tail == 1
    then copy i idx s
    else ok s

-- Four entries a round, and the switch behind the loop.
unfoldable pub copy_fours {ℓ} : {S : Type ℓ} → (ℕ → ℕ → S → Result S) → ℕ → ℕ → ℕ → ℕ → S → Result S
copy_fours copy tail zero i idx s = copy_rest copy tail i idx s
copy_fours copy tail (suc left) i idx s = do
  one ← copy i idx s
  two ← copy (i + 1) (u32 (idx + 1)) one
  three ← copy (i + 2) (u32 (idx + 2)) two
  four ← copy (i + 3) (u32 (idx + 3)) three
  copy_fours copy tail left (i + 4) (u32 (idx + 4)) four

unfoldable pub enqueue_ptrs : Ring → ℕ → ℕ → ℕ → List ℕ → Result (ℕ → ℕ)
enqueue_ptrs r prod_head mask n obj_table =
    let idx = bit_and prod_head mask in
    if ltb (u32 (idx + u32 n)) r.size
    then copy_fours (write_entry obj_table) (bit_and n 3) (n / 4) 0 idx r.cells
    else (do
      upper ← copy_loop (write_entry obj_table) (r.size - idx) 0 idx r.cells
      copy_loop (write_entry obj_table) (n - (r.size - idx)) (r.size - idx) 0 upper)

-- `objTable[i] = ring[idx]`
unfoldable pub read_entry : (ℕ → ℕ) → ℕ → ℕ → List ℕ → Result (List ℕ)
unfolding cell
read_entry cells i idx obj_table = put obj_table i (cells (cell idx))

unfoldable pub dequeue_ptrs : Ring → ℕ → ℕ → ℕ → List ℕ → Result (List ℕ)
dequeue_ptrs r cons_head mask n obj_table =
    let idx = bit_and cons_head mask in
    if ltb (u32 (idx + u32 n)) r.size
    then copy_fours (read_entry r.cells) (bit_and n 3) (n / 4) 0 idx obj_table
    else (do
      upper ← copy_loop (read_entry r.cells) (r.size - idx) 0 idx obj_table
      copy_loop (read_entry r.cells) (n - (r.size - idx)) (r.size - idx) 0 upper)

-- `n` entries are reserved by moving the head, written, and published by moving the tail.
unfoldable pub enqueue_reserved : Ring → List ℕ → ℕ → Result (Ring × ℕ)
enqueue_reserved r obj_table n =
    let prod_next = u32 (r.prod_head + u32 n) in
    do
      written ← enqueue_ptrs r r.prod_head r.mask n obj_table
      ok (record r { prod_head = prod_next; prod_tail = prod_next; cells = written }, n)

unfoldable pub nffgo_ring_mp_do_enqueue : Ring → List ℕ → ℕ → Result (Ring × ℕ)
nffgo_ring_mp_do_enqueue r obj_table max =
    let free_entries = sub32 (u32 (r.mask + r.cons_tail)) r.prod_head in
    if ltb free_entries (u32 max)
    then (if free_entries == 0 then ok (r, 0) else enqueue_reserved r obj_table free_entries)
    else enqueue_reserved r obj_table max

unfoldable pub dequeue_reserved : Ring → List ℕ → ℕ → Result (Ring × List ℕ × ℕ)
dequeue_reserved r obj_table n =
    let cons_next = u32 (r.cons_head + u32 n) in
    do
      filled ← dequeue_ptrs r r.cons_head r.mask n obj_table
      ok (record r { cons_head = cons_next; cons_tail = cons_next }, filled, n)

-- The ring, the table that the entries are copied to, and the number of entries.
unfoldable pub nffgo_ring_mc_do_dequeue : Ring → List ℕ → ℕ → Result (Ring × List ℕ × ℕ)
nffgo_ring_mc_do_dequeue r obj_table max =
    let entries = sub32 r.prod_tail r.cons_head in
    if ltb entries (u32 max)
    then (if entries == 0 then ok (r, obj_table, 0) else dequeue_reserved r obj_table entries)
    else dequeue_reserved r obj_table max

unfoldable pub enqueue_burst : Ring → List ℕ → ℕ → Result (Ring × ℕ)
enqueue_burst ring buffer count = nffgo_ring_mp_do_enqueue ring buffer count

unfoldable pub dequeue_burst : Ring → List ℕ → ℕ → Result (Ring × List ℕ × ℕ)
dequeue_burst ring buffer count = nffgo_ring_mc_do_dequeue ring buffer count

unfoldable pub get_ring_count : Ring → ℕ
get_ring_count ring = bit_and (sub32 ring.prod_tail ring.cons_tail) ring.mask
