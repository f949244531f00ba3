-- ===== src/Scan/Truncate.antt =====
-- A comment that ends before a given point does so whatever follows that point.
use db_crawler.Prelude.{
  ℕ, ◌+◌, ◌-◌, ◌<◌, ◌≡◌, refl, ◌&&◌, [], ◌∷◌, ◌++◌, arith, ◌==◌, length, inl, inr, Bool-cases,
}
use db_crawler.Scan.Suffix.{
  Suffix-length, skip_line_comment-Suffix, block_loop-Suffix, block_loop-Suffix_tail,
}
use db_crawler.Scan.{skip_line_comment, block_loop, skip_block_comment}
use db_crawler.Text.{Text}

pub skip_line_comment-append :
    (p next : Text)
    → length next < length (skip_line_comment (p ++ next))
    → skip_line_comment p ++ next ≡ skip_line_comment (p ++ next)
unfolding skip_line_comment
skip_line_comment-append [] next h =
    absurd (omega (arith, Suffix-length (skip_line_comment-Suffix next)))
skip_line_comment-append (c ∷ p) next h = elim (Bool-cases (c == b'\n')) [
  | inl e ↦ rw e refl
  | inr e ↦ rw e (skip_line_comment-append p next (rw e at h))
]

pub block_loop-append :
    (depth : ℕ) (p next : Text)
    → length next < length (block_loop depth (p ++ next))
    → block_loop depth p ++ next ≡ block_loop depth (p ++ next)
unfolding block_loop
block_loop-append depth [] next h =
    absurd (omega (arith, Suffix-length (block_loop-Suffix depth next)))
block_loop-append depth (c ∷ []) [] h = absurd (omega arith)
block_loop-append depth (c ∷ []) (d ∷ next) h =
    absurd (omega (arith, Suffix-length (block_loop-Suffix_tail depth c (d ∷ next))))
block_loop-append depth (c ∷ d ∷ p) next h = elim (Bool-cases (c == b'/' && d == b'*')) [
  | inl a ↦ rw a (block_loop-append (depth + 1) p next (rw a at h))
  | inr a ↦ elim (Bool-cases (c == b'*' && d == b'/')) [
    | inr b ↦ rw (a, b) (block_loop-append depth (d ∷ p) next (rw (a, b) at h))
    | inl b ↦ elim (Bool-cases ((depth - 1) == 0)) [
      | inl z ↦ rw (a, b, z) refl
      | inr z ↦ rw (a, b, z) (block_loop-append (depth - 1) p next (rw (a, b, z) at h))
    ]
  ]
]

pub skip_block_comment-append :
    (c : ℕ) (p next : Text)
    → length next < length (skip_block_comment (c ∷ (p ++ next)))
    → skip_block_comment (c ∷ p) ++ next ≡ skip_block_comment (c ∷ (p ++ next))
unfolding skip_block_comment
skip_block_comment-append c [] [] h = absurd (omega arith)
skip_block_comment-append c [] (d ∷ next) h =
    absurd (omega (arith, Suffix-length (block_loop-Suffix 1 next)))
skip_block_comment-append c (d ∷ p) next h = block_loop-append 1 p next h
