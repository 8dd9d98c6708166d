-- ===== src/Join/Block.antt =====
-- `blockNestedLoopJoin` of join-practice/nested-loop-join-variations.cpp.
mod Pass
pub mod Completion
use mathlib.Core.List.{flat_map}
use mathlib.Core.List.Perm
use go_prep.Base.{
  size_t_mod, ℕ, zero, suc, ◌+◌, ◌-◌, ◌*◌, ◌/◌, ◌%◌, ◌^◌, ◌≤◌, ◌<◌, min, ◌≡◌, refl, sym, ap, ◌∙◌,
  ◌⊎◌, inl, inr, Bool, List, [], ◌∷◌, ◌++◌, append-nil, append_assoc, Option, none, some, Perm,
  arith, ltb, Bool-cases, if◌then◌else◌, length, push_back, take, drop, for_each, for_each-append,
  flat_map-append, length-drop, drop-drop, drop_all, take-append-drop, perm_of_eq,
}
use go_prep.Join.Row.{
  Row, JoinedRow, joined, matches, theta_join, for_each-select, theta_join-append_left,
  theta_join-append_right, theta_join-nil_right,
}

-- A page is some rows, and a table some pages.
abbrev pub Page : Type 0
Page = List Row

abbrev pub Table : Type 0
Table = List Page

-- The rows of a table.
abbrev pub rows : Table → List Row
rows [] = []
rows (page ∷ table) = page ++ rows table

pub record Progress : Type 0 where
  pub result : List JoinedRow
  pub page_io_count : ℕ

-- The three loops inside a page of the inner table; `block` is the outer pages from `blockStart` up
-- to `blockEnd`.
pub emit_page : (Row → Row → Bool) → Table → Page → List JoinedRow → List JoinedRow
emit_page predicate block page result =
    for_each block
      (λ outer_page. for_each outer_page λ outer_row. for_each page λ inner_row res.
        if predicate outer_row inner_row then push_back res (joined outer_row inner_row) else res)
      result

-- One page of the inner table is read, and joined with the whole block.
pub read_page : (Row → Row → Bool) → Table → Page → Progress → Progress
unfolding emit_page
read_page predicate block page p = record {
  result = emit_page predicate block page p.result;
  page_io_count = p.page_io_count + 1;
}

-- The pages from `blockStart` up to `blockEnd = min(blockStart + blockSizePages, M)`.
pub block_at : Table → ℕ → ℕ → Table
block_at outer block_size start =
    take (min ((start + block_size) % size_t_mod) (length outer) - start) (drop start outer)

-- The loop over the blocks, on fuel: `none` means that it has not ended.
pub block_loop : ℕ → Table → Table → (Row → Row → Bool) → ℕ → ℕ → Progress → Option Progress
unfolding read_page block_at
block_loop zero outer inner predicate block_size start p = none
block_loop (suc fuel) outer inner predicate block_size start p =
    let rest =
      block_loop fuel outer inner predicate block_size ((start + block_size) % size_t_mod)
        (for_each inner (read_page predicate (block_at outer block_size start)) p) in
    if ltb start (length outer) then rest else some p

-- The caller's counter goes in and comes back in the result.
pub block_nested_loop_join : ℕ → Table → Table → (Row → Row → Bool) → ℕ → ℕ → Option Progress
unfolding block_loop
block_nested_loop_join fuel outer inner predicate block_size page_io_count =
    block_loop fuel outer inner predicate block_size 0
      (record { result = []; page_io_count = page_io_count + length outer })
