-- ===== src/Tq/Batch/Conserving.antt =====
-- `Concat` of tq/transfer_queue.go loses no object and makes none.
use git_lfs.Prelude.{
  ℕ, ◌+◌, ◌≤◌, ◌≡◌, ap, Bool, true, false, not, [], ◌∷◌, ◌++◌, length, length-take-le, take, drop,
  take-append-drop, keep, arith,
}
use git_lfs.Tq.Batch.{ObjectTuple, Batch, concat}
use git_lfs.Tq.Batch.Clamping.{is_ready, is_waiting, concat-split}

-- How many objects of a batch pass a test.
abbrev pub count : (ObjectTuple → Bool) → Batch → ℕ
count p [] = 0
count p (ot ∷ b) = elim (p ot) [ true ↦ count p b + 1 | false ↦ count p b ]

count-append : (p : ObjectTuple → Bool) (b c : Batch) → count p (b ++ c) ≡ count p b + count p c
count-append p [] c = omega arith
count-append p (ot ∷ b) c = ground (arith, count-append p b c)

count-keep :
    (p q : ObjectTuple → Bool) (b : Batch)
    → count p (keep q b) + count p (keep (λ ot. not (q ot)) b) ≡ count p b
unfolding keep
count-keep p q [] = omega arith
count-keep p q (ot ∷ b) = ground (arith, count-keep p q b)

-- However many objects of two batches pass a test, as many pass it in the two results together when
-- they are joined: none is lost and none is made; and the left result is no larger than the size.
pub concat-count :
    (now size : ℕ) (b other : Batch) (p : ObjectTuple → Bool)
    → (count p (concat now b other size).0 + count p (concat now b other size).1
        ≡ count p b + count p other)
      × (length (concat now b other size).0 ≤ size)
concat-count now size b other p =
    let (left, right) = concat-split now size b other in
    let ready = keep (is_ready now) (b ++ other) in
    (
      rw left (
          rw right (
            omega (
              arith,
              count-append p (keep (is_waiting now) (b ++ other)) (drop size ready),
              count-append p (take size ready) (drop size ready),
              ap (count p) (take-append-drop size ready),
              count-keep p (is_ready now) (b ++ other),
              count-append p b other,
            ))),
      rw left (length-take-le size ready),
    )
