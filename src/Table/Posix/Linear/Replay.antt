-- ===== src/Table/Posix/Linear/Replay.antt =====
-- Why what is seen of a call is what the table answers, while the file grows.
use go_prep.Base.{
  none, some, ℕ, suc, ◌≡◌, refl, sym, ◌∙◌, true, false, List, [], ◌∷◌, map, length, length-map,
  arith, ltb, select, take,
}
use mathlib.Core.List.{mem-cons_of_mem}
use go_prep.Base.Int.{ℤ, pos_part}
use go_prep.Table.Bytes.{Bytes}
use go_prep.Table.OrderedMap.{Map, MapOf, assign}
use go_prep.Table.Posix.FileData.{FileData, WriteResult, line, is_whole}
use go_prep.Table.Posix.FileData.Append.{IsSound, Extends}
use go_prep.Table.Posix.Reader.{Pread, Readable}
use go_prep.Table.Posix.Index.{iterator}
use go_prep.Table.Posix.Index.Queries.{offsets_of}
use go_prep.Table.Posix.Client.Prints.{print_all-Reads}
use go_prep.Table.Posix.Store.{inserts, queries, Response, status, records, Store, show_row, answer}
use go_prep.Table.Posix.Store.Rows.{Holds, Aligned-Extends, Aligned-Reads}
use go_prep.Table.OrderedMap.Aligned.{Aligned, Aligned-length}
use go_prep.Table.Posix.Store.Refines.{if_true, if_false}
use go_prep.Table.Posix.Linear.{
  Seen, gave, handed, Event, store_after, Shows, Explained, Gives, Hands,
}

-- The offsets have the records of the answer.
pub record Found (f : FileData) (offsets : List ℕ) (r : Response) : Type 0 where
  pub entries : Map
  pub rows : MapOf Bytes
  pub own : offsets ≡ offsets_of entries
  pub aligned : Aligned (Holds f) entries rows
  pub answered : r ≡ records (map show_row rows)

abbrev pub Backed : FileData → Seen → Response → Type 0
Backed f (gave code) r = r ≡ status code
Backed f (handed offsets) r = Found f offsets r

abbrev pub Accounted : FileData → List Event → Type 0
Accounted f [] = Unit
Accounted f ((q, seen) ∷ es) = Backed f seen (answer q (store_after es)).0 × Accounted f es

module _ (f g : FileData) (e : Extends f g) where
  Backed-Extends : (seen : Seen) (r : Response) → Backed f seen r → Backed g seen r
  Backed-Extends (gave code) r h = h
  Backed-Extends (handed offsets) r h = record {
    entries = h.entries;
    rows = h.rows;
    own = h.own;
    aligned = Aligned-Extends f g h.entries h.rows e h.aligned;
    answered = h.answered;
  }

  pub Accounted-Extends : (es : List Event) → Accounted f es → Accounted g es
  Accounted-Extends [] h = tt
  Accounted-Extends ((q, seen) ∷ es) h = (Backed-Extends seen _ h.0, Accounted-Extends es h.1)

-- The file has every record that was found, and reading gives it.
module _ (pread : Pread) (f : FileData) (readable : Readable pread f.bytes)
    (sound : IsSound f) where
  Backed-Shows : (seen : Seen) (r : Response) → Backed f seen r → Shows pread f.bytes seen r
  unfolding iterator
  Backed-Shows (gave code) r h = h
  Backed-Shows (handed offsets) r h =
      let reads = Aligned-Reads pread f h.entries h.rows readable sound h.aligned in
      let same : length (map show_row h.rows) ≡ length (offsets_of h.entries) =
        length-map show_row h.rows
        ∙ sym (Aligned-length (Holds f) h.entries h.rows h.aligned)
        ∙ sym (length-map (λ e. e.1) h.entries) in
      let printed =
        print_all-Reads pread f.bytes (suc (length (offsets_of h.entries)))
          (iterator (offsets_of h.entries)) (map show_row h.rows) refl reads (omega arith) in
      rw (h.own, printed) h.answered

  pub Accounted-Explained : (es : List Event) → Accounted f es → Explained pread f.bytes es
  Accounted-Explained [] h = tt
  Accounted-Explained ((q, seen) ∷ es) h = (Backed-Shows seen _ h.0, Accounted-Explained es h.1)

-- The table answers while it is open.
module _ (t : Store) (o : t.closed ≡ false) where
  pub answer-written :
      (id : ℕ) (text : Bytes)
      → answer (inserts id text (some (length (line id text)))) t
        ≡ (status 0, record t { rows = assign id text t.rows })
  unfolding answer
  answer-written id text =
      if_false t.closed _ _ o
      ∙ if_true (is_whole (some (length (line id text))) (length (line id text))) _ _ (ground arith)

  pub answer-failed :
      (id : ℕ) (text : Bytes) (wrote : WriteResult)
      → is_whole wrote (length (line id text)) ≡ false
      → answer (inserts id text wrote) t ≡ (status 2, t)
  unfolding answer
  answer-failed id text wrote short =
      if_false t.closed _ _ o ∙ if_false (is_whole wrote (length (line id text))) _ _ short

  pub answer-queried :
      (min_id : ℕ) (limit : ℤ)
      → answer (queries min_id limit) t
        ≡ (records (map show_row (take (pos_part limit) (select (λ e. ltb min_id e.0) t.rows))), t)
  unfolding answer
  answer-queried min_id limit = if_false t.closed _ _ o

-- And when it is closed.
module _ (t : Store) (c : t.closed ≡ true) where
  pub answer-refused : (id : ℕ) (text : Bytes) → answer (inserts id text none) t ≡ (status 1, t)
  unfolding answer
  answer-refused id text = if_true t.closed _ _ c

  pub answer-none : (min_id : ℕ) (limit : ℤ) → answer (queries min_id limit) t ≡ (records [], t)
  unfolding answer
  answer-none min_id limit = if_true t.closed _ _ c

pub Gives-later :
    (e : Event) (es : List Event) (code id : ℕ) → Gives es code id → Gives (e ∷ es) code id
Gives-later e es code id (text, wrote, m) = (text, wrote, mem-cons_of_mem e m)

pub Hands-later : (e : Event) (es : List Event) (os : List ℕ) → Hands es os → Hands (e ∷ es) os
Hands-later e es os (min_id, limit, m) = (min_id, limit, mem-cons_of_mem e m)
