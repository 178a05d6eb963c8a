-- ===== src/Packet/Init/Writes.antt =====
-- Bytes written to the memory are read again, and those beside them stay.
use nff_go.Base.{
  ℕ, zero, suc, ◌+◌, ◌≤◌, ◌<◌, ◌≡◌, ◌≢◌, refl, ap, ap₂, ◌∙◌, arith, List, [], ◌∷◌, length, All, ◌⊎◌,
  inl, inr,
}
use nff_go.Packet.Init.{write_data}
use nff_go.Packet.State.{load_bytes, store_8}

-- Every element is a byte.
abbrev pub IsBytes : List ℕ → Type 0
IsBytes bs = All (λ (b : ℕ). b < 256) bs

pub write_data-other :
    (mem : ℕ → ℕ) (a : ℕ) (bs : List ℕ) (x : ℕ)
    → (x < a) ⊎ (a + length bs ≤ x)
    → write_data mem a bs x ≡ mem x
unfolding write_data
write_data-other mem a [] x h = refl
write_data-other mem a (b ∷ bs) x h =
    let apart : (x < a + 1) ⊎ (a + 1 + length bs ≤ x) = elim h [
      | inl before ↦ inl (omega (arith, before))
      | inr behind ↦ inr (omega (arith, behind))
    ] in
    let here : x ≢ a = elim h [
      | inl before ↦ λ e. omega (arith, before, e)
      | inr behind ↦ λ e. omega (arith, behind, e)
    ] in
    write_data-other (store_8 mem a b) (a + 1) bs x apart ∙ (ground (arith, here))

pub load_bytes-same :
    (m k : ℕ → ℕ) (a n : ℕ)
    → ((x : ℕ) → a ≤ x → x < a + n → m x ≡ k x)
    → load_bytes m a n ≡ load_bytes k a n
load_bytes-same m k a zero h = refl
load_bytes-same m k a (suc n) h =
    ap₂ (λ (x : ℕ) (xs : List ℕ). x ∷ xs) (h a (omega arith) (omega arith))
      (load_bytes-same m k (a + 1) n (λ x f g. h x (omega (arith, f)) (omega (arith, g))))

-- A read beside the bytes that were written.
pub load_bytes-write_data_other :
    (mem : ℕ → ℕ) (a : ℕ) (bs : List ℕ) (b n : ℕ)
    → (b + n ≤ a) ⊎ (a + length bs ≤ b)
    → load_bytes (write_data mem a bs) b n ≡ load_bytes mem b n
load_bytes-write_data_other mem a bs b n h = load_bytes-same (write_data mem a bs) mem b n (λ x f g.
    write_data-other mem a bs x (elim h [
      | inl before ↦ inl (omega (arith, before, g))
      | inr behind ↦ inr (omega (arith, behind, f))
    ]))

pub load_bytes-write_data :
    (mem : ℕ → ℕ) (a : ℕ) (bs : List ℕ)
    → IsBytes bs
    → load_bytes (write_data mem a bs) a (length bs) ≡ bs
unfolding write_data
load_bytes-write_data mem a [] h = refl
load_bytes-write_data mem a (b ∷ bs) (here, rest) =
    let first : write_data (store_8 mem a b) (a + 1) bs a ≡ b =
      write_data-other (store_8 mem a b) (a + 1) bs a (inl (omega arith))
      ∙ (ground (arith, here)) in
    ap₂ (λ (x : ℕ) (xs : List ℕ). x ∷ xs) first
      (load_bytes-write_data (store_8 mem a b) (a + 1) bs rest)

-- Bytes copied from one memory to another.
pub write_data-load_bytes :
    (mem k : ℕ → ℕ) (a b n x : ℕ)
    → ((y : ℕ) → k y < 256)
    → x < n
    → write_data mem a (load_bytes k b n) (a + x) ≡ k (b + x)
unfolding write_data
write_data-load_bytes mem k a b zero x h lt = absurd (omega (arith, lt))
write_data-load_bytes mem k a b (suc n) zero h lt =
    let same : a + 0 ≡ a = omega arith in
    let from : b + 0 ≡ b = omega arith in
    rw (same, from)
      (write_data-other (store_8 mem a (k b)) (a + 1) (load_bytes k (b + 1) n) a (inl (omega arith))
        ∙ (ground (arith, h b)))
write_data-load_bytes mem k a b (suc n) (suc x) h lt =
    let to : a + suc x ≡ a + 1 + x = omega arith in
    let from : b + suc x ≡ b + 1 + x = omega arith in
    rw (to, from)
      (write_data-load_bytes (store_8 mem a (k b)) k (a + 1) (b + 1) n x h (omega (arith, lt)))

pub length-load_bytes : (mem : ℕ → ℕ) (a n : ℕ) → length (load_bytes mem a n) ≡ n
length-load_bytes mem a zero = refl
length-load_bytes mem a (suc n) = ap suc (length-load_bytes mem (a + 1) n)
