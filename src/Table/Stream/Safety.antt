-- ===== src/Table/Stream/Safety.antt =====
-- What the interleaved inserts and queries keep, and what iterators read.
use go_prep.Base.{
  All-get_or, ℕ, ◌+◌, ◌<◌, ◌≡◌, refl, subst, true, false, some, List, [], ◌∷◌, ◌++◌, Mem, All,
  All-map, All-at, All-remove, All-append, length, push_back, get_or, size_t_mod, Bool-cases, inl,
  inr, ◌⊎◌, ltb, lt→ltb,
}
use go_prep.Base.Int.{ℤ, pos, negsuc}
use go_prep.Table.Bytes.{Bytes}
use go_prep.Table.OrderedMap.{MapOf, upper_bound, All-assign}
use go_prep.Table.Stream.{
  opened_index, write_record, publish, format, get_line, collect, collect_offsets, to_size_t,
  Iterator, next, has_next,
}
use go_prep.Table.Stream.Laws.{make_index-some, query-some, read_at-format}
use go_prep.Table.Stream.System.{
  System, Step, writes, publishes, queries, query_throws, Reach, here, later,
}
use go_prep.Table.Stream.Placed.{Known, Placed, CutOff, Placed-write, Placed-new, write-at_end}

-- What `Reach-StreamInv` shows of every state.
pub record StreamInv (s : System) : Type 0 where
  pub at_end :
      (s.index.out_file.failed ≡ true) ⊎ (s.index.out_file.position ≡ length s.index.out_file.bytes)
  pub published : All (λ e. Placed s.asked s.index.out_file e.0 e.1) s.index.id_to_offset_map
  pub waiting : All (λ e. Placed s.asked s.index.out_file e.0 e.2) s.pending
  pub iterators : All (All (Known s.asked s.index.out_file)) s.found

All-upper_bound {ℓ} : (P : ℕ × ℤ → Type ℓ) (k : ℕ) (m : MapOf ℤ) → All P m → All P (upper_bound k m)
unfolding upper_bound
All-upper_bound P k [] h = tt
All-upper_bound P k ((j, w) ∷ m) h = elim (Bool-cases (ltb k j)) [
  | inl e ↦ rw e h
  | inr e ↦ rw e (All-upper_bound P k m h.1)
]

All-collect {ℓ} :
    (P : ℤ → Type ℓ) (entries : MapOf ℤ) (limit : ℕ) (offsets : List ℤ)
    → All (λ e. P e.1) entries
    → All P offsets
    → All P (collect entries limit offsets)
unfolding collect
All-collect P [] limit offsets h k = k
All-collect P (e ∷ entries) limit offsets h k = elim (Bool-cases (ltb (length offsets) limit)) [
  | inl more ↦ rw more (
      All-collect P entries limit (push_back offsets e.1) h.1
        (All-append P offsets (e.1 ∷ []) k (h.0, tt)))
  | inr done ↦ rw done k
]

module _ (s : System) (v : StreamInv s) where
  writes_StreamInv :
      (id : ℕ) (value : Bytes) (landed : ℕ)
      → id < size_t_mod
      → StreamInv (record s {
        index = (write_record id value landed s.index).1;
        pending = (id, value, (write_record id value landed s.index).0) ∷ s.pending;
        asked = (id, value) ∷ s.asked;
      })
  unfolding write_record
  writes_StreamInv id value landed small =
      let f = s.index.out_file in
      let P : ℕ × ℤ → Type 0 = λ e. Placed s.asked f e.0 e.1 in
      let lasts = Placed-write (id, value) s.asked f (format id value) landed in
      record {
        at_end = write-at_end f (format id value) landed v.at_end;
        published = All-map {P = P} (λ e w. lasts e.0 e.1 w) s.index.id_to_offset_map v.published;
        waiting = (
          Placed-new id value s.asked f landed small v.at_end,
          All-map {P = λ e. Placed s.asked f e.0 e.2} (λ e w. lasts e.0 e.2 w) s.pending v.waiting,
        );
        iterators =
            All-map {P = All (Known s.asked f)}
              (λ offs h. All-map {P = Known s.asked f} (λ off (i, w). (i, lasts i off w)) offs h)
              s.found v.iterators;
      }

  publishes_StreamInv :
      (xs ys : List (ℕ × Bytes × ℤ)) (id : ℕ) (value : Bytes) (offset : ℤ)
      → s.pending ≡ xs ++ (id, value, offset) ∷ ys
      → StreamInv (record s { index = publish id offset s.index; pending = xs ++ ys })
  unfolding publish
  publishes_StreamInv xs ys id value offset at =
      let W : ℕ × ℤ → Type 0 = λ e. Placed s.asked s.index.out_file e.0 e.1 in
      let P : ℕ × Bytes × ℤ → Type 0 = λ e. Placed s.asked s.index.out_file e.0 e.2 in
      let waits = subst (All P) at v.waiting in
      record {
        at_end = v.at_end;
        published =
            All-assign W id offset s.index.id_to_offset_map
              (All-at P xs (id, value, offset) ys waits) v.published;
        waiting = All-remove P xs (id, value, offset) ys waits;
        iterators = v.iterators;
      }

  queries_StreamInv :
      (min_id : ℕ) (limit : ℤ)
      → StreamInv (record s { found = collect_offsets min_id limit s.index ∷ s.found })
  unfolding collect_offsets
  queries_StreamInv min_id limit =
      let W : ℕ × ℤ → Type 0 = λ e. Placed s.asked s.index.out_file e.0 e.1 in
      let K : ℤ → Type 0 = Known s.asked s.index.out_file in
      record {
        at_end = v.at_end;
        published = v.published;
        waiting = v.waiting;
        iterators = (
          All-collect K _ (to_size_t limit) []
              (All-upper_bound (λ e. K e.1) min_id s.index.id_to_offset_map
                (All-map {P = W} (λ e w. (e.0, w)) s.index.id_to_offset_map v.published))
              tt,
          v.iterators,
        );
      }

Step-StreamInv : {s t : System} → Step s t → StreamInv s → StreamInv t
Step-StreamInv {s} (writes id value landed small) v = writes_StreamInv s v id value landed small
Step-StreamInv {s} (publishes xs ys id value offset at) v =
    publishes_StreamInv s v xs ys id value offset at
Step-StreamInv {s} (queries min_id limit opens i e) v =
    rw (query-some min_id limit opens s.index i e) (queries_StreamInv s v min_id limit)
Step-StreamInv (query_throws min_id limit opens e) v = v

-- In whatever order inserts and queries interleave, and however many bytes of each record land: the
-- stream has failed, or its position is the end of the file; and every offset in the map, between
-- the two locks of an insert, and in an iterator is that of a whole record that `insert` was called
-- with, or, where the stream has failed, -1 or that of the part of a record at the end of the file;
-- in the map the record has the entry's id.
pub Reach-StreamInv : {bytes : Bytes} {s : System} → Reach bytes s → StreamInv s
unfolding opened_index
Reach-StreamInv {bytes} (here opens x e) =
    rw (make_index-some opens bytes (length bytes) x e)
      (record { at_end = inr refl; published = tt; waiting = tt; iterators = tt })
Reach-StreamInv (later r st) = Step-StreamInv st (Reach-StreamInv r)

-- In whatever order inserts and queries interleave, and however many bytes of each record land:
-- each `next` of an iterator that a query returned and whose stream is good gives, at any later
-- time, the id and the value up to its first newline of a record that `insert` was called with,
-- moves on by one, and leaves the stream good; or the index's stream has failed, and the offset is
-- -1 or that of the record at which it failed.
pub next-written :
    {bytes : Bytes} (s : System) (xs ys : List (List ℤ)) (i : Iterator)
    → Reach bytes s
    → s.found ≡ xs ++ i.offsets ∷ ys
    → i.failed ≡ false
    → i.current_index < length i.offsets
    → ((id : ℕ) × (value : Bytes) × Mem (id, value) s.asked
        × (next s.index.out_file.bytes i
            ≡ some (
              record { id = some id; value = get_line value },
              record i { current_index = i.current_index + 1; failed = false },
            )))
      ⊎ ((s.index.out_file.failed ≡ true)
          × ((get_or i.offsets i.current_index (pos 0) ≡ negsuc 0)
              ⊎ ((id : ℕ) × CutOff s.asked s.index.out_file.bytes id
                    (get_or i.offsets i.current_index (pos 0)))))
unfolding next has_next
next-written s xs ys i r at good more =
    let v = Reach-StreamInv r in
    let K : ℤ → Type 0 = Known s.asked s.index.out_file in
    let all = All-at (All K) xs i.offsets ys (subst (All (All K)) at v.iterators) in
    let (id, placed) = All-get_or K i.offsets i.current_index (pos 0) more all in
    elim placed [
      | inl w ↦ inl (
        id,
        w.value,
        w.asked_for,
        rw
            (
              lt→ltb i.current_index (length i.offsets) more,
              good,
              w.is_at,
              read_at-format s.index.out_file.bytes w.at id w.value w.small w.there,
            )
            refl,
      )
      | inr (b, lost) ↦ inr (b, elim lost [ inl negative ↦ inl negative | inr c ↦ inr (id, c) ])
    ]
