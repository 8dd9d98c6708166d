-- ===== src/Join/Block/Pass.antt =====
-- What one pass over the inner table emits and reads.
use mathlib.Core.List.{flat_map}
use mathlib.Core.List.Perm
use go_prep.Base.{
  ◌+◌, ◌≡◌, refl, ap, ◌∙◌, Bool, List, [], ◌∷◌, ◌++◌, append-nil, append_assoc, Perm, arith,
  if◌then◌else◌, length, push_back, for_each, for_each-append,
}
use go_prep.Join.Row.{
  Row, JoinedRow, joined, matches, theta_join, for_each-select, theta_join-append_left,
  theta_join-append_right, theta_join-nil_right,
}
use go_prep.Join.Block.{Page, Table, rows, Progress, emit_page, read_page}

module _ (p : Row → Row → Bool) where
  flat_map-theta_join :
      (block : Table) (page : Page)
      → flat_map (λ outer_page. theta_join p outer_page page) block ≡ theta_join p (rows block) page
  unfolding flat_map
  flat_map-theta_join [] page = unfold theta_join flat_map in refl
  flat_map-theta_join (q ∷ block) page =
      rw (theta_join-append_left p q (rows block) page, flat_map-theta_join block page)

  emit_outer_page :
      (page q : Page) (out : List JoinedRow)
      → for_each q
          (λ o. for_each page λ i res. if p o i then push_back res (joined o i) else res)
          out
        ≡ out ++ theta_join p q page
  unfolding theta_join
  emit_outer_page page =
      for_each-append (λ o. matches p o page) _ (λ o. for_each-select (p o) (joined o) page)

  emit_page-theta_join :
      (block : Table) (page : Page) (res : List JoinedRow)
      → emit_page p block page res ≡ res ++ theta_join p (rows block) page
  unfolding emit_page
  emit_page-theta_join block page res =
      for_each-append (λ q. theta_join p q page) _ (emit_outer_page page) block res
      ∙ ap (◌++◌ res) (flat_map-theta_join block page)

  -- A pass over the inner table joins the block with it, and reads each of its pages once.
  pub pass-result :
      (block inner : Table) (s : Progress)
      → Perm
          (for_each inner (read_page p block) s).result
          (s.result ++ theta_join p (rows block) (rows inner))
  unfolding read_page for_each
  pass-result block [] s =
      rw (theta_join-nil_right p (rows block), append-nil s.result) (Perm.refl s.result)
  pass-result block (page ∷ inner) s =
      Perm.trans (pass-result block inner (read_page p block page s)) (
        rw
          (
            emit_page-theta_join block page s.result,
            append_assoc s.result (theta_join p (rows block) page)
                (theta_join p (rows block) (rows inner)),
          )
          (Perm.append_left s.result
            (Perm.symm (theta_join-append_right p (rows block) page (rows inner)))))

  pub pass-page_io_count :
      (block inner : Table) (s : Progress)
      → (for_each inner (read_page p block) s).page_io_count ≡ s.page_io_count + length inner
  unfolding read_page for_each
  pass-page_io_count block [] s = omega arith
  pass-page_io_count block (page ∷ inner) s =
      omega (arith, pass-page_io_count block inner (read_page p block page s))
