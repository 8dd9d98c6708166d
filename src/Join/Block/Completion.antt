-- ===== src/Join/Block/Completion.antt =====
-- When the loop over the blocks ends, with what result and at what cost.
use mathlib.Core.List.{flat_map}
use mathlib.Core.List.Perm
use go_prep.Base.{
  size_t_mod, ℕ, zero, suc, ◌+◌, ◌-◌, ◌*◌, ◌/◌, ◌%◌, ◌^◌, ◌≤◌, ◌<◌, min, ◌≡◌, refl, sym, ap, ◌∙◌,
  ◌⊎◌, inl, inr, Bool, List, [], ◌∷◌, ◌++◌, append-nil, append_assoc, Option, none, some, Perm,
  arith, ltb, Bool-cases, length, take, drop, for_each, length-drop, drop-drop, drop_all,
  take-append-drop, perm_of_eq, ltb→lt, lt→ltb,
}
use go_prep.Join.Row.{Row, theta_join, theta_join-append_left}
use go_prep.Join.Block.Pass.{pass-result, pass-page_io_count}
use go_prep.Join.Block.{
  Page, Table, rows, Progress, read_page, block_at, block_loop, block_nested_loop_join,
}

take-min {ℓ} : {A : Type ℓ} (n : ℕ) (xs : List A) → take (min n (length xs)) xs ≡ take n xs
take-min zero xs = let e : min 0 (length xs) ≡ 0 = omega arith in rw e
take-min (suc n) [] = let e : min (suc n) 0 ≡ 0 = omega arith in rw e
take-min (suc n) (x ∷ xs) =
    let e : min (suc n) (suc (length xs)) ≡ suc (min n (length xs)) = omega arith in
    rw e (ap (◌∷◌ x) (take-min n xs))

rows-append : (s t : Table) → rows (s ++ t) ≡ rows s ++ rows t
rows-append [] t = refl
rows-append (page ∷ s) t = rw (rows-append s t, append_assoc page)

-- The number of blocks of at most `b` pages that `n` pages make.
abbrev pub blocks : ℕ → ℕ → ℕ
blocks n b = (n + b - 1) / b

blocks-zero : (b : ℕ) → 0 < b → blocks 0 b ≡ 0
blocks-zero b h = grind arith

blocks-step : (n b : ℕ) → 0 < b → 0 < n → blocks n b ≡ suc (blocks (n - b) b)
blocks-step n b h k = grind arith

-- In the loop `blockStart` is 0 or at least one block on, so that the next one does not wrap.
module _ (outer : Table) (b : ℕ) (positive : 0 < b) (fits : b < size_t_mod)
    (small : length outer ≤ 2 ^ 63) where
  next_start :
      (start : ℕ)
      → start < length outer
      → (start ≡ 0) ⊎ (b ≤ start)
      → (start + b) % size_t_mod ≡ start + b
  next_start start h (inl e) = omega arith
  next_start start h (inr e) = omega arith

  rows-block_at :
      (start : ℕ)
      → start < length outer
      → (start ≡ 0) ⊎ (b ≤ start)
      → rows (drop start outer)
        ≡ rows (block_at outer b start) ++ rows (drop ((start + b) % size_t_mod) outer)
  unfolding block_at
  rows-block_at start h reached = rw (
    next_start start h reached,
    ← drop-drop start b outer,
    width,
    take-min b (drop start outer),
    ← rows-append (take b (drop start outer)) (drop b (drop start outer)),
    take-append-drop b (drop start outer),
  )
    where
      width : min (start + b) (length outer) - start ≡ min b (length (drop start outer))
      width = omega (arith, length-drop start outer)

  module _ (inner : Table) (p : Row → Row → Bool) where
    -- From `start` on, the loop ends with the rest of the join and of the cost.
    abbrev Completes : ℕ → Progress → Option Progress → Type 0
    Completes start s r =
        (t : Progress) × (r ≡ some t)
        × Perm t.result (s.result ++ theta_join p (rows (drop start outer)) (rows inner))
        × (t.page_io_count ≡ s.page_io_count + blocks (length outer - start) b * length inner)

    after_pass :
        (start : ℕ) (s : Progress)
        → start < length outer
        → (start ≡ 0) ⊎ (b ≤ start)
        → (r : Option Progress)
        → Completes
            ((start + b) % size_t_mod)
            (for_each inner (read_page p (block_at outer b start)) s)
            r
        → Completes start s r
    after_pass start s h reached r (t, e, perm, cost) = (
      t,
      e,
      Perm.trans perm (
          Perm.trans (Perm.append_right _ (pass-result p (block_at outer b start) inner s)) (
            rw
              (
                append_assoc s.result,
                ← theta_join-append_left p (rows (block_at outer b start))
                    (rows (drop ((start + b) % size_t_mod) outer)) (rows inner),
                ← rows-block_at start h reached,
              )
              (Perm.refl _))),
      cost ∙ total,
    )
      where
        total :
            (for_each inner (read_page p (block_at outer b start)) s).page_io_count
              + blocks (length outer - (start + b) % size_t_mod) b * length inner
            ≡ s.page_io_count + blocks (length outer - start) b * length inner
        total =
            let step : blocks (length outer - start) b
                ≡ suc (blocks (length outer - (start + b)) b) =
              let e : length outer - (start + b) ≡ length outer - start - b = omega arith in
              rw e (blocks-step (length outer - start) b positive (omega arith)) in
            rw
              (
                next_start start h reached,
                pass-page_io_count p (block_at outer b start) inner s,
                step,
              )
              (omega arith)

    block_loop_lem :
        (fuel start : ℕ) (s : Progress)
        → length outer - start < fuel
        → (start ≡ 0) ⊎ (b ≤ start)
        → Completes start s (block_loop fuel outer inner p b start s)
    unfolding block_loop theta_join flat_map
    block_loop_lem zero start s h reached = absurd (omega arith)
    block_loop_lem (suc fuel) start s h reached = elim (Bool-cases (ltb start (length outer))) [
      | inl more ↦ rw more (
          after_pass start s (ltb→lt _ _ more) reached _ (
            block_loop_lem fuel ((start + b) % size_t_mod) _
              (omega (arith, ltb→lt _ _ more, next_start start (ltb→lt _ _ more) reached))
              (inr (omega (arith, next_start start (ltb→lt _ _ more) reached)))))
      | inr done ↦
          let past : length outer ≤ start = ground arith in
          let none_left : length outer - start ≡ 0 = omega arith in
          rw done (
            s,
            refl,
            rw (drop_all start outer past) (perm_of_eq (sym (append-nil s.result))),
            rw (none_left, blocks-zero b positive) (omega arith),
          )
    ]

-- With at least one page per block, at most 2^63 pages in the outer table, and a block size that is
-- a `size_t`, the join ends after at most one round more than the outer table has pages. Its result
-- is the join of all the rows of the two tables, and the counter has grown by one for each page of
-- the outer table, and by one for each page of the inner table in each block, where the blocks are
-- ⌈M / blockSizePages⌉ many.
pub block_nested_loop_join-Completes :
    (outer : Table) (b : ℕ)
    → 0 < b
    → b < size_t_mod
    → length outer ≤ 2 ^ 63
    → (inner : Table) (p : Row → Row → Bool) (page_io_count : ℕ)
    → (t : Progress) × (block_nested_loop_join (suc (length outer)) outer inner p b page_io_count
        ≡ some t)
      × Perm t.result (theta_join p (rows outer) (rows inner))
      × (t.page_io_count ≡ page_io_count + length outer + (length outer + b - 1) / b * length inner)
unfolding block_nested_loop_join
block_nested_loop_join-Completes outer b positive fits small inner p page_io_count =
    let whole : length outer - 0 ≡ length outer = omega arith in
    rw whole at (
      block_loop_lem outer b positive fits small inner p (suc (length outer)) 0
        (record { result = []; page_io_count = page_io_count + length outer }) (omega arith)
        (inl refl))

-- With a block size of 0 pages the loop never leaves a table that has a page.
pub block_nested_loop_join-stuck :
    (fuel : ℕ) (page : Page) (outer inner : Table) (p : Row → Row → Bool) (page_io_count : ℕ)
    → block_nested_loop_join fuel (page ∷ outer) inner p 0 page_io_count ≡ none
unfolding block_nested_loop_join block_loop
block_nested_loop_join-stuck fuel page outer inner p page_io_count = at_zero fuel _
  where
    at_zero : (f : ℕ) (s : Progress) → block_loop f (page ∷ outer) inner p 0 0 s ≡ none
    at_zero zero s = refl
    at_zero (suc fuel) s = rw (lt→ltb 0 (length (page ∷ outer)) (omega arith)) (at_zero fuel _)
