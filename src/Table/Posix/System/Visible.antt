-- ===== src/Table/Posix/System/Visible.antt =====
-- Once `Insert` has returned 0, queries find the record.
use go_prep.Base.{
  ℕ, ◌≤◌, ◌<◌, ◌≡◌, refl, ap, ◌∙◌, subst, Bool, Option, none, some, List, [], ◌∷◌, ◌++◌, map,
  length, arith, inl, inr, Mem, All, All-map, All-at, All-replace, All-remove, Bool-cases, ◌==◌,
  if◌then◌else◌, ==_iff, ltb, lt→ltb, select, take, take_all,
}
use go_prep.Base.Int.{ℤ, pos_part}
use go_prep.Table.Bytes.{Bytes}
use go_prep.Table.OrderedMap.{Map, lookup, assign, lookup-assign, All-lookup, lookup-select}
use go_prep.Table.Posix.FileData.Laws.{Stored, first_line, read_record_at-Stored}
use go_prep.Table.Posix.Reader.{Pread, Readable, read_record_at, filled}
use go_prep.Table.Posix.Index.{make_index, leave, close, append_record, publish, find_offsets}
use go_prep.Table.Posix.Index.Queries.{find_offsets-select, offsets_of}
use go_prep.Table.Posix.System.{
  System, Op, inserting, appended, finished, querying, fetched, after_append, start, Step,
  insert_enters, insert_refused, appends, publishes, insert_leaves, query_enters, query_refused,
  finds, query_leaves, closes, close_looks, close_wakes, Reach, here, later,
}
use go_prep.Table.Posix.System.Invariant.{enter-eq_some}
use go_prep.Table.Posix.System.Steps.{Reach-Inv}

-- The map has an entry for the id.
abbrev pub Present : Map → ℕ → Type 0
Present m id = (off : ℕ) × (lookup id m ≡ some off)

abbrev OpPresent : Map → Op → Type 0
OpPresent m (finished id status) = status ≡ 0 → Present m id
OpPresent m op = Unit

pub record VisibleInv (m : Map) (ops : List Op) (acknowledged : List ℕ) : Type 0 where
  pub in_calls : All (OpPresent m) ops
  pub returned_to : All (Present m) acknowledged

abbrev pub Visible : System → Type 0
Visible s = VisibleInv s.index.index_map s.ops s.acknowledged

Present-assign : (m : Map) (id offset j : ℕ) → Present m j → Present (assign id offset m) j
Present-assign m id offset j (off, e) = elim (Bool-cases (id == j)) [
  | inl same ↦ (offset, lookup-assign id offset j m ∙ rw same)
  | inr other ↦ (off, lookup-assign id offset j m ∙ rw (other, e))
]

assigned-Present : (m : Map) (id offset : ℕ) → Present (assign id offset m) id
assigned-Present m id offset = (offset, lookup-assign id offset id m ∙ ground arith)

OpPresent-assign :
    (m : Map) (id offset : ℕ) (op : Op) → OpPresent m op → OpPresent (assign id offset m) op
OpPresent-assign m id offset (inserting j text) h = tt
OpPresent-assign m id offset (appended j text off) h = tt
OpPresent-assign m id offset (finished j status) h = λ e. Present-assign m id offset j (h e)
OpPresent-assign m id offset (querying j limit) h = tt
OpPresent-assign m id offset (fetched offsets) h = tt

after_append-OpPresent :
    (m : Map) (id : ℕ) (text : Bytes) (landed : Option ℕ)
    → OpPresent m (after_append id text landed)
after_append-OpPresent m id text none = λ e. absurd (omega arith)
after_append-OpPresent m id text (some off) = tt

module _ (m : Map) (ops : List Op) (ids : List ℕ) (v : VisibleInv m ops ids) where
  begins : (op : Op) → OpPresent m op → VisibleInv m (op ∷ ops) ids
  begins op h = record { in_calls = (h, v.in_calls); returned_to = v.returned_to }

  changes :
      (xs ys : List Op) (op new : Op)
      → ops ≡ xs ++ op ∷ ys
      → OpPresent m new
      → VisibleInv m (xs ++ new ∷ ys) ids
  changes xs ys op new at h = record {
    in_calls = All-replace (OpPresent m) xs op new ys h (subst (All (OpPresent m)) at v.in_calls);
    returned_to = v.returned_to;
  }

  ends : (xs ys : List Op) (op : Op) → ops ≡ xs ++ op ∷ ys → VisibleInv m (xs ++ ys) ids
  ends xs ys op at = record {
    in_calls = All-remove (OpPresent m) xs op ys (subst (All (OpPresent m)) at v.in_calls);
    returned_to = v.returned_to;
  }

  assigns : (id offset : ℕ) → VisibleInv (assign id offset m) ops ids
  assigns id offset = record {
    in_calls = All-map (OpPresent-assign m id offset) ops v.in_calls;
    returned_to = All-map (Present-assign m id offset) ids v.returned_to;
  }

  acknowledges :
      (xs ys : List Op) (id status : ℕ)
      → ops ≡ xs ++ finished id status ∷ ys
      → VisibleInv m (xs ++ ys) (if status == 0 then id ∷ ids else ids)
  acknowledges xs ys id status at = elim (Bool-cases (status == 0)) [
    | inl e ↦
        let here_now =
          All-at (OpPresent m) xs (finished id status) ys (subst (All (OpPresent m)) at v.in_calls)
            ((==_iff status 0).0 e) in
        rw e (record {
          in_calls = (ends xs ys (finished id status) at).in_calls;
          returned_to = (here_now, v.returned_to);
        })
    | inr e ↦ rw e (ends xs ys (finished id status) at)
  ]

Step-Visible : {s t : System} → Step s t → Visible s → Visible t
unfolding append_record publish leave close
Step-Visible {s} (insert_enters id text x small e) v =
    let (after, _) = enter-eq_some s.index x e in rw after (begins _ _ _ v (inserting id text) tt)
Step-Visible (insert_refused id text e) v = v
Step-Visible {s} (appends xs ys id text wrote at room) v =
    changes _ _ _ v xs ys (inserting id text)
      (after_append id text (append_record id text wrote s.index).0) at
      (after_append-OpPresent _ id text (append_record id text wrote s.index).0)
Step-Visible {s} (publishes xs ys id text offset at) v =
    changes _ _ _ (assigns _ _ _ v id offset) xs ys (appended id text offset) (finished id 0) at
      (λ e. assigned-Present s.index.index_map id offset)
Step-Visible (insert_leaves xs ys id status at) v = acknowledges _ _ _ v xs ys id status at
Step-Visible {s} (query_enters min_id limit x e) v =
    let (after, _) = enter-eq_some s.index x e in
    rw after (begins _ _ _ v (querying min_id limit) tt)
Step-Visible (query_refused min_id limit e) v = v
Step-Visible {s} (finds xs ys min_id limit at) v =
    changes _ _ _ v xs ys (querying min_id limit) (fetched (find_offsets min_id limit s.index)) at
      tt
Step-Visible (query_leaves xs ys offsets at) v = ends _ _ _ v xs ys (fetched offsets) at
Step-Visible closes v = v
Step-Visible (close_looks xs ys at) v = v
Step-Visible (close_wakes xs ys at) v = v

pub Reach-Visible : {s : System} → Reach s → Visible s
unfolding start make_index
Reach-Visible here = record { in_calls = tt; returned_to = tt }
Reach-Visible (later r st) = Step-Visible st (Reach-Visible r)

map-middle {ℓ κ} :
    {A : Type ℓ} {B : Type κ} (f : A → B) (xs : List A) (x : A) (ys : List A)
    → map f (xs ++ x ∷ ys) ≡ map f xs ++ f x ∷ map f ys
map-middle f [] x ys = refl
map-middle f (x' ∷ xs) x ys = ap (◌∷◌ (f x')) (map-middle f xs x ys)

pub select-length {ℓ} : {A : Type ℓ} (p : A → Bool) (xs : List A) → length (select p xs) ≤ length xs
select-length p [] = omega arith
select-length p (x ∷ xs) = ground (arith, select-length p xs)

-- Once an insert of an id has returned 0, each query for ids above a smaller one, with room for
-- all entries, finds an offset of that id, whatever calls are in progress: reading there gives the
-- id and the first line of the text of a record that `Insert` was called with.
pub acknowledged-found :
    (s : System) (pread : Pread) (id min_id : ℕ) (limit : ℤ) (us vs : List ℕ)
    → Reach s
    → s.acknowledged ≡ us ++ id ∷ vs
    → Readable pread s.index.file_data.bytes
    → min_id < id
    → length s.index.index_map ≤ pos_part limit
    → (offset : ℕ) × (xs : List ℕ) × (ys : List ℕ) × (text : Bytes) × (find_offsets min_id limit
          s.index
        ≡ xs ++ offset ∷ ys)
      × Mem (id, text) s.asked
      × (read_record_at pread s.index.file_data.bytes offset
          ≡ filled (record { id = id; text = first_line text }))
acknowledged-found s pread id min_id limit us vs r at readable less room =
    let v = Reach-Inv r in
    let m = s.index.index_map in
    let f = s.index.file_data in
    let (offset, e) =
      All-at (Present m) us id vs (subst (All (Present m)) at (Reach-Visible r).returned_to) in
    let stored : Stored s.asked f id offset =
      All-lookup (λ d. Stored s.asked f d.0 d.1) id offset m v.published e in
    let (xs, ys, split) = lookup-select (λ j. ltb min_id j) id offset m (lt→ltb min_id id less) e in
    let passing = select (λ d. ltb min_id d.0) m in
    let whole : take (pos_part limit) passing ≡ passing =
      take_all (pos_part limit) passing
        (omega (arith, room, select-length (λ d. ltb min_id d.0) m)) in
    (
      offset,
      offsets_of xs,
      offsets_of ys,
      stored.text,
      find_offsets-select min_id limit s.index v.ordered
          ∙ ap offsets_of (whole ∙ split)
          ∙ map-middle (λ d. d.1) xs (id, offset) ys,
      stored.asked_for,
      read_record_at-Stored pread s.asked f id offset readable v.sound.fits
          (omega (arith, stored.in_front_of_end, v.sound.inside, v.sound.fits)) stored,
    )
