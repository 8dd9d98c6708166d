-- ===== src/Table/Stream/Linear/Steps.antt =====
-- Each step keeps the sequence of inserts and queries true to the index, while no write has failed.
use go_prep.Base.{
  length, false, ℕ, ◌<◌, ◌≡◌, sym, ap, ◌∙◌, subst, List, [], ◌∷◌, ◌++◌, ltb, size_t_mod, arith, inl,
  inr, All, All-map, All-at, All-remove, select, take,
}
use go_prep.Base.Int.{ℤ}
use go_prep.Table.Bytes.{Bytes}
use go_prep.Table.OrderedMap.{MapOf, Ordered, assign-Ordered}
use go_prep.Table.OrderedMap.Aligned.{Aligned, Aligned-assign, Aligned-select, Aligned-take}
use go_prep.Table.Stream.{
  OutFile, opened_index, write, tellp, format, write_record, publish, collect_offsets, to_size_t,
}
use go_prep.Table.Stream.Laws.{make_index-some, query-some, collect_offsets_lem}
use go_prep.Table.Stream.System.{
  System, Step, writes, publishes, queries, query_throws, Reach, here, later,
}
use go_prep.Table.Stream.Placed.{Placed-new, Written-longer, was_failed, whole, cut, write_end}
use go_prep.Table.Stream.Safety.{StreamInv, Reach-StreamInv}
use go_prep.Table.Stream.Linear.{Event, inserted, queried, takes_effect, history, rows_after}
use go_prep.Table.Stream.Linear.Replay.{Stands, Accounted, Aligned-longer, Accounted-longer}

-- While no write has failed, the map has the rows of the table, the queries found theirs, and the
-- records between the two locks stand in the file.
pub record LinearInv (file : Bytes) (m : MapOf ℤ) (pending : List (ℕ × Bytes × ℤ)) (es : List Event)
    : Type 0 where
  pub ordered : Ordered m
  pub aligned : Aligned (Stands file) m (rows_after es)
  pub accounted : Accounted file es
  pub waiting : All (λ e. Stands file e.0 e.1 e.2) pending

abbrev pub Linear : System → List Event → Type 0
Linear s es = LinearInv s.index.out_file.bytes s.index.id_to_offset_map s.pending es

-- A write that leaves the stream good has put all its bytes at the end.
write-good :
    (f : OutFile) (text : Bytes) (landed : ℕ)
    → (write f text landed).failed ≡ false
    → (f.failed ≡ false) × ((write f text landed).bytes ≡ f.bytes ++ text)
write-good f text landed good = elim (write_end f text landed) [
  | was_failed b same ↦ absurd (let e = sym (ap (λ g. g.failed) same) ∙ good in ground arith)
  | whole b all ↦ (b, ap (λ g. g.bytes) all)
  | cut b less part ↦ absurd (let e = sym (ap (λ g. g.failed) part) ∙ good in ground arith)
]

module _ (s : System) (i : StreamInv s) (es : List Event) (v : Linear s es) where
  writes-Linear :
      (id : ℕ) (value : Bytes) (landed : ℕ)
      → id < size_t_mod
      → (write_record id value landed s.index).1.out_file.failed ≡ false
      → Linear
          (record s {
            index = (write_record id value landed s.index).1;
            pending = (id, value, (write_record id value landed s.index).0) ∷ s.pending;
            asked = (id, value) ∷ s.asked;
          })
          es
  unfolding write_record
  writes-Linear id value landed small good =
      let f = s.index.out_file in
      let text = format id value in
      let m = s.index.id_to_offset_map in
      let (_, grown) = write-good f text landed good in
      let stands : Stands (write f text landed).bytes id value (tellp f) =
        elim (Placed-new id value [] f landed small i.at_end) [
          | inl w ↦ w
          | inr (b, lost) ↦ absurd (let e = sym b ∙ good in ground arith)
        ] in
      subst (λ file. LinearInv file m ((id, value, tellp f) ∷ s.pending) es) (sym grown)
        (record {
          ordered = v.ordered;
          aligned = Aligned-longer f.bytes text m (rows_after es) v.aligned;
          accounted = Accounted-longer f.bytes text es v.accounted;
          waiting = (
            subst (λ file. Stands file id value (tellp f)) grown stands,
            All-map {P = λ e. Stands f.bytes e.0 e.1 e.2}
                (λ e w. Written-longer ((e.0, e.1) ∷ []) f.bytes text e.0 e.2 w) s.pending
                v.waiting,
          );
        })

  publishes-Linear :
      (xs ys : List (ℕ × Bytes × ℤ)) (id : ℕ) (value : Bytes) (offset : ℤ)
      → s.pending ≡ xs ++ (id, value, offset) ∷ ys
      → Linear
          (record s { index = publish id offset s.index; pending = xs ++ ys })
          (inserted id value ∷ es)
  unfolding publish
  publishes-Linear xs ys id value offset at =
      let file = s.index.out_file.bytes in
      let P : ℕ × Bytes × ℤ → Type 0 = λ e. Stands file e.0 e.1 e.2 in
      let waits = subst (All P) at v.waiting in
      record {
        ordered = assign-Ordered id offset s.index.id_to_offset_map v.ordered;
        aligned =
            Aligned-assign (Stands file) id offset value s.index.id_to_offset_map (rows_after es)
              (All-at P xs (id, value, offset) ys waits) v.aligned;
        accounted = v.accounted;
        waiting = All-remove P xs (id, value, offset) ys waits;
      }

  queries-Linear :
      (min_id : ℕ) (limit : ℤ)
      → Linear
          (record s { found = collect_offsets min_id limit s.index ∷ s.found })
          (queried min_id limit (collect_offsets min_id limit s.index) ∷ es)
  queries-Linear min_id limit =
      let file = s.index.out_file.bytes in
      let m = s.index.id_to_offset_map in
      record {
        ordered = v.ordered;
        aligned = v.aligned;
        accounted = (
          record {
            entries = take (to_size_t limit) (select (λ e. ltb min_id e.0) m);
            own = collect_offsets_lem min_id limit s.index v.ordered;
            aligned =
                Aligned-take (Stands file) (to_size_t limit) _ _
                  (Aligned-select (Stands file) (λ id. ltb min_id id) m (rows_after es) v.aligned);
          },
          v.accounted,
        );
        waiting = v.waiting;
      }

-- A failed stream stays failed.
Step-good :
    {s t : System} (st : Step s t)
    → t.index.out_file.failed ≡ false
    → s.index.out_file.failed ≡ false
unfolding write_record publish
Step-good {s} (writes id value landed small) good =
    (write-good s.index.out_file (format id value) landed good).0
Step-good (publishes xs ys id value offset at) good = good
Step-good (queries min_id limit opens i e) good = good
Step-good (query_throws min_id limit opens e) good = good

Step-Linear :
    {s t : System} (st : Step s t) (es : List Event)
    → StreamInv s
    → t.index.out_file.failed ≡ false
    → Linear s es
    → Linear t (takes_effect st es)
Step-Linear {s} (writes id value landed small) es i good v =
    writes-Linear s i es v id value landed small good
Step-Linear {s} (publishes xs ys id value offset at) es i good v =
    publishes-Linear s i es v xs ys id value offset at
Step-Linear {s} (queries min_id limit opens j e) es i good v =
    rw (query-some min_id limit opens s.index j e) (queries-Linear s i es v min_id limit)
Step-Linear (query_throws min_id limit opens e) es i good v = v

pub Reach-Linear :
    {bytes : Bytes} {s : System} (r : Reach bytes s)
    → s.index.out_file.failed ≡ false
    → Linear s (history r)
unfolding opened_index
Reach-Linear {bytes} (here opens x e) good =
    rw (make_index-some opens bytes (length bytes) x e)
      (record { ordered = tt; aligned = tt; accounted = tt; waiting = tt })
Reach-Linear (later r st) good =
    Step-Linear st (history r) (Reach-StreamInv r) good (Reach-Linear r (Step-good st good))
