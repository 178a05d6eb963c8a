-- ===== src/Low/Ring/Pointers.antt =====
-- What enqueuePtrs and dequeuePtrs do on both branches, low/low.go: the entries are written to
-- consecutive positions, and read from them.
use nff_go.Base.{
  ℕ, ◌+◌, ◌-◌, ◌*◌, ◌/◌, ◌%◌, ◌^◌, ◌≡◌, ◌≤◌, ◌<◌, refl, sym, ap, ◌∙◌, arith, List, [], ◌++◌, true,
  false, length, ltb, take, drop, u32, append_assoc, take-drop, drop-append, length-take,
  length-drop, dec_lt, bit_and, length-append,
}
use native.Mathlib.Nat.{mod-lt}
use nff_go.Base.Bits.{bit_and-low}
use nff_go.Base.Wrapped.{pow-le, pow-pos}
use nff_go.Common.Errors.{Result, ok, ◌>>=◌}
use nff_go.Low.Ring.{
  Ring, write_entry, read_entry, copy_loop, copy_fours, enqueue_ptrs, dequeue_ptrs,
}
use nff_go.Low.Ring.Slots.{
  window, fill, length-window, window-append, window-congr, fill-congr, fill-append,
}
use nff_go.Low.Ring.Copies.{copy_fours-loop, write_entries, read_entries}

rounds : (n : ℕ) → 4 * (n / 4) + bit_and n 3 ≡ n
rounds n = omega (arith, bit_and-low 2 n)

module _ (r : Ring) (k : ℕ) (h : k ≤ 29) (size_pow : r.size ≡ 2 ^ k) where
  size_word : r.size ≤ 2 ^ 29
  size_word = omega (arith, size_pow, pow-le k 29 h)

  index : (head : ℕ) → bit_and head (2 ^ k - 1) ≡ head % r.size
  index head = rw size_pow (bit_and-low k head)

  index_below : (head : ℕ) → head % r.size < r.size
  index_below head = mod-lt head (omega (arith, size_pow, pow-pos k))

  -- The two branches of the test, at an index and a number of entries.
  fits :
      (idx n : ℕ)
      → idx < r.size
      → n ≤ r.size
      → ltb (u32 (idx + u32 n)) r.size ≡ ltb (idx + n) r.size
  fits idx n l m =
      let word = size_word in
      let small : r.size ≤ 2 ^ 29 = omega (arith, size_pow, pow-le k 29 h) in
      let same : u32 (idx + u32 n) ≡ idx + n = omega arith in rw same refl

  copy_four_entries :
      {S : Type 0} (copy : ℕ → ℕ → S → Result S) (n idx : ℕ) (s : S)
      → copy_fours copy (bit_and n 3) (n / 4) 0 idx s ≡ copy_loop copy n 0 idx s
  copy_four_entries copy n idx s =
      let below : bit_and n 3 < 4 = omega (arith, bit_and-low 2 n) in
      copy_fours-loop copy (bit_and n 3) (n / 4) 0 idx s below
      ∙ ap (λ t. copy_loop copy t 0 idx s) (rounds n)

  -- The two loops of the other branch: up to the end of the storage, and from its beginning.
  write_wrapped :
      (idx : ℕ) (vs us ws rest : List ℕ)
      → us ++ ws ≡ vs
      → idx + length us ≡ r.size
      → length vs ≤ r.size
      → (copy_loop (write_entry (vs ++ rest)) (length us) 0 idx r.cells
          >>= copy_loop (write_entry (vs ++ rest)) (length ws) (length us) 0)
        ≡ ok (fill r.size r.cells idx vs)
  write_wrapped idx vs us ws rest e full l =
      let size = r.size in
      let split : vs ++ rest ≡ us ++ (ws ++ rest) =
        ap (λ t. t ++ rest) (sym e) ∙ append_assoc us ws rest in
      let behind : drop (length us) (vs ++ rest) ≡ ws ++ rest =
        ap (drop (length us)) split ∙ drop-append us (ws ++ rest) in
      let both : length us + length ws ≡ length vs = sym (length-append us ws) ∙ ap length e in
      let round : fill size (fill size r.cells idx us) 0 ws ≡ fill size r.cells idx vs =
        fill-congr size (fill size r.cells idx us) 0 (idx + length us) ws (λ t m. ground arith)
        ∙ sym (fill-append size r.cells idx us ws)
        ∙ ap (fill size r.cells idx) e in
      rw
        (
          write_entries size size_word (vs ++ rest) 0 idx r.cells us (ws ++ rest) split
              (omega arith),
          write_entries size size_word (vs ++ rest) (length us) 0 (fill size r.cells idx us) ws rest
              behind (omega arith),
        )
        (ap ok round)

  pub enqueue_ptrs-fill :
      (head : ℕ) (vs rest : List ℕ)
      → length vs ≤ r.size
      → enqueue_ptrs r head (2 ^ k - 1) (length vs) (vs ++ rest)
        ≡ ok (fill r.size r.cells (head % r.size) vs)
  unfolding enqueue_ptrs
  enqueue_ptrs-fill head vs rest l =
      let idx = head % r.size in
      let below = index_below head in
      let copy = write_entry (vs ++ rest) in
      rw (index head, fits idx (length vs) below l)
        (elim (dec_lt (idx + length vs) r.size) [
          | yes m ↦
              let test : ltb (idx + length vs) r.size ≡ true = ground arith in
              rw (test, copy_four_entries copy (length vs) idx r.cells)
                (write_entries r.size size_word (vs ++ rest) 0 idx r.cells vs rest refl
                  (omega arith))
          | no m ↦
              let test : ltb (idx + length vs) r.size ≡ false = ground arith in
              let count = r.size - idx in
              let len = length-take count vs (omega arith) in
              let left = length-drop count vs (omega arith) in
              let written =
                write_wrapped idx vs (take count vs) (drop count vs) rest (take-drop count vs)
                  (omega (arith, len)) l in
              rw test (rw (len, left) at written)
        ])

  read_wrapped :
      (idx n m : ℕ) (old_a old_b rest : List ℕ)
      → length old_a ≡ n
      → length old_b ≡ m
      → idx + n ≡ r.size
      → n + m ≤ r.size
      → (copy_loop (read_entry r.cells) n 0 idx (old_a ++ (old_b ++ rest))
          >>= copy_loop (read_entry r.cells) m n 0)
        ≡ ok (window r.size r.cells idx (n + m) ++ rest)
  read_wrapped idx n m old_a old_b rest ea eb full l =
      let size = r.size in
      let cells = r.cells in
      let upper = window size cells idx n in
      let round : window size cells 0 m ≡ window size cells (idx + n) m =
        window-congr size cells 0 (idx + n) m (λ t k. ground arith) in
      let whole : upper ++ (window size cells 0 m ++ rest) ≡ window size cells idx (n + m) ++ rest =
        sym (append_assoc upper (window size cells 0 m) rest)
        ∙ ap (λ t. t ++ rest)
            (ap (λ t. upper ++ t) round ∙ sym (window-append size cells idx n m)) in
      rw
        (
          read_entries size size_word cells [] idx n old_a (old_b ++ rest) ea (omega arith),
          (rw (length-window size cells idx n) at
              (read_entries size size_word cells upper 0 m old_b rest eb (omega arith))),
        )
        (ap ok whole)

  pub dequeue_ptrs-window :
      (head n : ℕ) (old rest : List ℕ)
      → length old ≡ n
      → n ≤ r.size
      → dequeue_ptrs r head (2 ^ k - 1) n (old ++ rest)
        ≡ ok (window r.size r.cells (head % r.size) n ++ rest)
  unfolding dequeue_ptrs
  dequeue_ptrs-window head n old rest e l =
      let idx = head % r.size in
      let below = index_below head in
      let copy = read_entry r.cells in
      rw (index head, fits idx n below l)
        (elim (dec_lt (idx + n) r.size) [
          | yes m ↦
              let test : ltb (idx + n) r.size ≡ true = ground arith in
              rw (test, copy_four_entries copy n idx (old ++ rest))
                (read_entries r.size size_word r.cells [] idx n old rest e (omega arith))
          | no m ↦
              let test : ltb (idx + n) r.size ≡ false = ground arith in
              let count = r.size - idx in
              let len : length (take count old) ≡ count =
                length-take count old (omega (arith, e)) in
              let left : length (drop count old) ≡ n - count =
                length-drop count old (omega (arith, e)) ∙ ap (λ t. t - count) e in
              let parts : old ++ rest ≡ take count old ++ (drop count old ++ rest) =
                ap (λ t. t ++ rest) (sym (take-drop count old))
                ∙ append_assoc (take count old) (drop count old) rest in
              let all : count + (n - count) ≡ n = omega arith in
              rw (test, parts)
                (rw all at (
                  read_wrapped idx count (n - count) (take count old) (drop count old) rest len left
                    (omega arith) (omega arith)))
        ])
