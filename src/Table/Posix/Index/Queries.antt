-- ===== src/Table/Posix/Index/Queries.antt =====
-- Which records a query finds.
use go_prep.Base.{
  ℕ, suc, ◌+◌, ◌-◌, ◌≡◌, sym, ◌∙◌, List, [], ◌∷◌, ◌++◌, map, append-nil, append_assoc, ltb,
  Bool-cases, inl, inr, arith, take, take-nil, select, push_back,
}
use go_prep.Base.Int.{ℤ, pos, pos_part, ltb_ℤ}
use go_prep.Table.OrderedMap.{Map, Ordered, upper_bound, upper_bound-select}
use go_prep.Table.Posix.Index.{Index, snapshot, find_offsets}

abbrev pub offsets_of : Map → List ℕ
offsets_of m = map (λ e. e.1) m

snapshot-take :
    (entries : Map) (limit : ℤ) (count : ℕ) (offsets : List ℕ)
    → snapshot entries limit count offsets
      ≡ offsets ++ offsets_of (take (pos_part limit - count) entries)
unfolding snapshot
snapshot-take [] limit count offsets =
    rw (take-nil (pos_part limit - count)) (sym (append-nil offsets))
snapshot-take (e ∷ entries) limit count offsets = elim (Bool-cases (ltb_ℤ (pos count) limit)) [
  | inl more ↦
      let step : pos_part limit - count ≡ suc (pos_part limit - (count + 1)) = ground arith in
      rw (more, step)
        (snapshot-take entries limit (count + 1) (push_back offsets e.1)
          ∙ append_assoc offsets (e.1 ∷ []) _)
  | inr done ↦
      let over : pos_part limit - count ≡ 0 = ground arith in
      rw (done, over) (sym (append-nil offsets))
]

-- A query finds the first `limit` entries, in ascending order of their ids, of those with an id
-- greater than `minId`; a limit that is not positive finds none.
pub find_offsets-select :
    (min_id : ℕ) (limit : ℤ) (x : Index)
    → Ordered x.index_map
    → find_offsets min_id limit x
      ≡ offsets_of (take (pos_part limit) (select (λ e. ltb min_id e.0) x.index_map))
unfolding find_offsets
find_offsets-select min_id limit x h =
    let all : pos_part limit - 0 ≡ pos_part limit = omega arith in
    snapshot-take (upper_bound min_id x.index_map) limit 0 []
    ∙ rw (all, upper_bound-select min_id x.index_map h)
