-- ===== src/Table/Posix/System/Safety.antt =====
-- What the invariant gives the program's clients: iterators read what was inserted, and a closed
-- index that has drained does not change.
use go_prep.Base.{
  All-get_or, ℕ, ◌+◌, ◌<◌, ◌≡◌, refl, sym, ap, ◌∙◌, true, false, none, List, ◌∷◌, ◌++◌, Mem, All,
  length, size_t_mod, arith, get_or, lt→ltb, All-at, subst,
}
use go_prep.Table.Bytes.{Bytes}
use go_prep.Table.Posix.FileData.Laws.{first_line, read_record_at-Stored}
use go_prep.Table.Posix.Reader.{Pread, Readable, filled}
use go_prep.Table.Posix.Index.{close, Index, Iterator, enter, next, read, has_next}
use go_prep.Table.Posix.System.{
  System, Op, Step, insert_enters, insert_refused, appends, publishes, insert_leaves, query_enters,
  query_refused, finds, query_leaves, closes, close_looks, close_wakes, Reach, Drained,
}
use go_prep.Table.Posix.System.Known.{Known}
use go_prep.Table.Posix.System.Invariant.{enter-eq_some, length-middle}
use go_prep.Table.Posix.System.Steps.{Reach-Inv}

-- In whatever order calls of `Insert`, `Query` and `Close` interleave, and however their writes
-- end: each `Next` of an iterator that a query returned reads, at any later time, the id and the
-- first line of the text of a record that `Insert` was called with, and moves the cursor on by one.
pub next-inserted :
    (s : System) (pread : Pread) (xs ys : List (List ℕ)) (offsets : List ℕ) (i : Iterator)
    → Reach s
    → s.iterators ≡ xs ++ offsets ∷ ys
    → Readable pread s.index.file_data.bytes
    → i.file_offsets ≡ offsets
    → i.closed ≡ false
    → i.cursor < length offsets
    → (id : ℕ) × (text : Bytes) × Mem (id, text) s.asked
      × (next pread s.index.file_data.bytes i ≡ (
        read (filled (record { id = id; text = first_line text })),
        record i { cursor = i.cursor + 1 },
      ))
unfolding next has_next
next-inserted s pread xs ys offsets i r at readable own opened more =
    let P : ℕ → Type 0 = Known s.asked s.index.file_data in
    let v = Reach-Inv r in
    let all = All-at (All P) xs offsets ys (subst (All (All P)) at v.in_iterators) in
    let (id, stored) = All-get_or P offsets i.cursor 0 more all in
    let off = get_or offsets i.cursor 0 in
    let small : off < size_t_mod =
      omega (arith, stored.in_front_of_end, v.sound.inside, v.sound.fits) in
    (
      id,
      stored.text,
      stored.asked_for,
      rw
          (
            opened,
            own,
            lt→ltb i.cursor (length offsets) more,
            read_record_at-Stored pread s.asked s.index.file_data id off readable v.sound.fits small
                stored,
          )
          refl,
    )

no-call :
    (s : System)
    → Reach s
    → Drained s.index
    → (xs ys : List Op) (op : Op) → s.ops ≡ xs ++ op ∷ ys
    → ⊥
no-call s r d xs ys op at =
    absurd (omega (arith, d.idle, (Reach-Inv r).counted, ap length at, length-middle xs op ys))

closed-enter : (x : Index) → x.closed ≡ true → enter x ≡ none
unfolding enter
closed-enter x e = rw e refl

still_closed : (x : Index) → x.closed ≡ true → close x ≡ x
unfolding close
still_closed x e = ap (λ b. record x { closed = b }) (sym e)

-- Once the index is closed and no call is in progress, no step changes it, and every call is
-- refused: `Close` has waited for all of them.
pub Drained-stays :
    {s t : System}
    → Reach s
    → Drained s.index
    → Step s t
    → (t.index ≡ s.index) × (enter t.index ≡ none)
Drained-stays {s} r d (insert_enters id text x small e) =
    absurd (let e' = sym (enter-eq_some s.index x e).1 ∙ d.is_closed in ground arith)
Drained-stays r d (insert_refused id text e) = (refl, e)
Drained-stays {s} r d (appends xs ys id text wrote at room) = absurd (no-call s r d xs ys _ at)
Drained-stays {s} r d (publishes xs ys id text offset at) = absurd (no-call s r d xs ys _ at)
Drained-stays {s} r d (insert_leaves xs ys id status at) = absurd (no-call s r d xs ys _ at)
Drained-stays {s} r d (query_enters min_id limit x e) =
    absurd (let e' = sym (enter-eq_some s.index x e).1 ∙ d.is_closed in ground arith)
Drained-stays r d (query_refused min_id limit e) = (refl, e)
Drained-stays {s} r d (finds xs ys min_id limit at) = absurd (no-call s r d xs ys _ at)
Drained-stays {s} r d (query_leaves xs ys offsets at) = absurd (no-call s r d xs ys _ at)
Drained-stays r d (close_looks xs ys at) = (refl, closed-enter _ d.is_closed)
Drained-stays r d (close_wakes xs ys at) = (refl, closed-enter _ d.is_closed)
Drained-stays {s} r d closes = (
  still_closed s.index d.is_closed,
  closed-enter _ (ap (λ x. x.closed) (still_closed s.index d.is_closed) ∙ d.is_closed),
)
