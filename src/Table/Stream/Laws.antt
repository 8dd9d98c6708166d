-- ===== src/Table/Stream/Laws.antt =====
-- A record that is whole in the file is read back; and which entries a query takes.
use go_prep.Base.{
  Bool, ℕ, suc, ◌-◌, ◌<◌, ◌≡◌, refl, sym, ap, ◌∙◌, false, some, List, [], ◌∷◌, ◌++◌, append-nil,
  append_assoc, map, ltb, length, take, drop, select, push_back, size_t_mod, arith, Bool-cases, inl,
  inr, take-append-drop, take-nil, take_all, ◌^◌, length-append,
}
use go_prep.Base.Int.{ℤ, pos, negsuc}
use go_prep.Table.Bytes.{Bytes, newline, tab, to_string, Lacks}
use go_prep.Table.Bytes.Laws.{to_uint64-to_string}
use go_prep.Table.OrderedMap.{MapOf, Ordered, upper_bound, upper_bound-select}
use go_prep.Table.Stream.{
  make_index, opened_index, Index, format, get_line, read_value, read_fields, read_at, collect,
  query, make_iterator, collect_offsets, Iterator, fresh_iterator, to_size_t,
}

-- A value without a newline is taken whole, also one with tabs.
get_line_lem : (value : Bytes) → Lacks newline value → get_line value ≡ value
get_line_lem [] h = refl
get_line_lem (b ∷ bs) h = rw h.0 (ap (◌∷◌ b) (get_line_lem bs h.1))

get_line-append : (value rest : Bytes) → get_line (value ++ newline ∷ rest) ≡ get_line value
get_line-append [] rest = refl
get_line-append (b ∷ bs) rest = ground (arith, get_line-append bs rest)

read_value-line :
    (value rest : Bytes) → read_value (tab ∷ (value ++ newline ∷ rest)) ≡ (get_line value, false)
unfolding read_value
read_value-line [] rest = refl
read_value-line (b ∷ bs) rest = ap (λ l. (l, false)) (get_line-append (b ∷ bs) rest)

format-append :
    (id : ℕ) (value rest : Bytes)
    → format id value ++ rest ≡ to_string id ++ (tab ∷ (value ++ newline ∷ rest))
unfolding format
format-append id value rest =
    append_assoc (to_string id) (tab ∷ (value ++ newline ∷ [])) rest
    ∙ ap (λ xs. to_string id ++ tab ∷ xs) (append_assoc value (newline ∷ []) rest)

-- Where the file has a whole record, a stream that has not failed reads its id and its value up to
-- the first newline, and does not fail.
pub read_at-format :
    (file : Bytes) (offset id : ℕ) (value : Bytes)
    → id < size_t_mod
    → take (length (format id value)) (drop offset file) ≡ format id value
    → read_at file (pos offset) false ≡ (record { id = some id; value = get_line value }, false)
unfolding read_at read_fields
read_at-format file offset id value small there =
    let rest = drop (length (format id value)) (drop offset file) in
    let whole : drop offset file ≡ to_string id ++ (tab ∷ (value ++ newline ∷ rest)) =
      sym (take-append-drop (length (format id value)) (drop offset file))
      ∙ ap (λ xs. xs ++ rest) there
      ∙ format-append id value rest in
    rw
      (
        whole,
        read_fields,
        to_uint64-to_string id (tab ∷ (value ++ newline ∷ rest)) small refl,
        read_value-line value rest,
      )
      refl

-- A constructor that does not throw gives an index without entries.
pub make_index-some :
    (opens : Bool) (bytes : Bytes) (position : ℕ) (x : Index)
    → make_index opens bytes position ≡ some x
    → x ≡ opened_index bytes position
unfolding make_index
make_index-some opens bytes position x e = ground arith

-- A query that does not throw gives a new iterator over the offsets that it finds.
pub query-some :
    (min_id : ℕ) (limit : ℤ) (opens : Bool) (x : Index) (i : Iterator)
    → query min_id limit opens x ≡ some i
    → i ≡ fresh_iterator (collect_offsets min_id limit x)
unfolding query make_iterator
query-some min_id limit opens x i e = ground arith

collect-take :
    (entries : MapOf ℤ) (limit : ℕ) (offsets : List ℤ)
    → collect entries limit offsets
      ≡ offsets ++ map (λ e. e.1) (take (limit - length offsets) entries)
unfolding collect
collect-take [] limit offsets = rw (take-nil (limit - length offsets)) (sym (append-nil offsets))
collect-take (e ∷ entries) limit offsets = elim (Bool-cases (ltb (length offsets) limit)) [
  | inl more ↦
      let step : limit - length offsets ≡ suc (limit - length (push_back offsets e.1)) =
        ground (arith, length-append offsets (e.1 ∷ [])) in
      rw (more, step)
        (collect-take entries limit (push_back offsets e.1) ∙ append_assoc offsets (e.1 ∷ []) _)
  | inr done ↦
      let over : limit - length offsets ≡ 0 = ground arith in
      rw (done, over) (sym (append-nil offsets))
]

-- A query takes the first entries, in ascending order of their ids, of those with an id greater than
-- `minId`: as many as `limit` says when it is converted to `size_t`.
pub collect_offsets_lem :
    (min_id : ℕ) (limit : ℤ) (x : Index)
    → Ordered x.id_to_offset_map
    → collect_offsets min_id limit x
      ≡ map (λ e. e.1) (take (to_size_t limit) (select (λ e. ltb min_id e.0) x.id_to_offset_map))
unfolding collect_offsets
collect_offsets_lem min_id limit x h =
    let all : to_size_t limit - 0 ≡ to_size_t limit = omega arith in
    collect-take (upper_bound min_id x.id_to_offset_map) (to_size_t limit) []
    ∙ rw (all, upper_bound-select min_id x.id_to_offset_map h)

-- A negative limit that an `int` can have is no limit: it takes all entries behind `minId` of a map
-- with fewer than 2^63 of them.
pub collect_offsets-negative :
    (min_id n : ℕ) (x : Index)
    → Ordered x.id_to_offset_map
    → n < 2 ^ 31
    → length (select (λ e. ltb min_id e.0) x.id_to_offset_map) < 2 ^ 63
    → collect_offsets min_id (negsuc n) x
      ≡ map (λ e. e.1) (select (λ e. ltb min_id e.0) x.id_to_offset_map)
unfolding to_size_t
collect_offsets-negative min_id n x h small few =
    collect_offsets_lem min_id (negsuc n) x h
    ∙ rw
        (take_all (to_size_t (negsuc n)) (select (λ e. ltb min_id e.0) x.id_to_offset_map)
          (omega arith))
        refl
