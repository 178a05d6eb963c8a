-- ===== src/Flow/Queues/Layout.antt =====
-- The layout of a list of queues, and how queues are copied between two lists.
use nff_go.Base.{
  ℕ, ◌+◌, ◌≡◌, refl, arith, List, [], ◌∷◌, ◌++◌, length, append_one, length-append_one,
}
use nff_go.Common.Slices.{fetch-append, put-append}
use nff_go.Common.Errors.{ok}
use nff_go.Flow.Queues.{copy_queues}

-- The list `index` holds the queues `queues` and has room for `capacity` of them.
pub record Holds (index queues : List ℕ) (capacity : ℕ) : Type 0 where
  pub room : List ℕ
  pub layout : index ≡ length queues ∷ (queues ++ room)
  pub fits : length queues + length room ≡ capacity

-- The queues `bs` of one list overwrite ps many elements of another.
pub copy_queues-append :
    (ps bs cs xs ys zs : List ℕ)
    → length ys ≡ length bs
    → copy_queues (ps ++ (bs ++ cs)) (length ps) (xs ++ (ys ++ zs)) (length xs) (length bs)
      ≡ ok (xs ++ (bs ++ zs))
unfolding copy_queues
copy_queues-append ps [] cs xs [] zs e = refl
copy_queues-append ps [] cs xs (y ∷ ys) zs e = absurd (omega (arith, e))
copy_queues-append ps (b ∷ bs) cs xs [] zs e = absurd (omega (arith, e))
copy_queues-append ps (b ∷ bs) cs xs (y ∷ ys) zs e =
    let rest =
      copy_queues-append (ps ++ (b ∷ [])) bs cs (xs ++ (b ∷ [])) ys zs (omega (arith, e)) in
    rw (fetch-append ps b (bs ++ cs), put-append xs y b (ys ++ zs))
      (rw
        (
          append_one ps b (bs ++ cs),
          append_one xs b (ys ++ zs),
          append_one xs b (bs ++ zs),
          length-append_one ps b,
          length-append_one xs b,
        )
        at rest)
