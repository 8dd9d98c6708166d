-- ===== src/Table/Posix/Store.antt =====
-- What iterator_plus_index.cpp promises to a client that makes one call after the other: a table of
-- texts by id.
pub mod Rows
pub mod Refines
pub mod Queries
pub mod Runs
mod Examples
use go_prep.Base.{
  ℕ, suc, Bool, true, false, Option, none, some, List, [], ◌∷◌, map, if◌then◌else◌, ltb, length,
  take, select,
}
use go_prep.Base.Int.{ℤ, pos_part}
use go_prep.Table.Bytes.{Bytes}
use go_prep.Table.OrderedMap.{MapOf, assign}
use go_prep.Table.Posix.FileData.{WriteResult, line, is_whole}
use go_prep.Table.Posix.FileData.Laws.{first_line}
use go_prep.Table.Posix.Reader.{Pread, Record}
use go_prep.Table.Posix.Index.{Index, insert, query, close, is_idle}
use go_prep.Table.Posix.Client.{print_all}

-- The calls of a client. How the write of an insert ends is up to the system.
pub data Request : Type 0 where
  inserts : ℕ → Bytes → WriteResult → Request
  queries : ℕ → ℤ → Request
  closes : Request

-- What a call returns: a status, the records that a loop over the iterator gets, or nothing.
pub data Response : Type 0 where
  status : ℕ → Response
  records : List Record → Response
  nothing : Response

abbrev pub printed_or_nothing : Option (List Record) → Response
printed_or_nothing (some rs) = records rs
printed_or_nothing none = nothing

-- The index serves a call. The loop over the iterator is read to its end.
unfoldable pub serve : Pread → Request → Index → Response × Index
serve pread (inserts id text wrote) x = let (code, y) = insert id text wrote x in (status code, y)
serve pread (queries min_id limit) x =
    let (i, y) = query min_id limit x in
    (printed_or_nothing (print_all (suc (length i.file_offsets)) pread x.file_data.bytes i), y)
serve pread closes x = (if is_idle x then status 0 else nothing, close x)

unfoldable pub serve_all : Pread → List Request → Index → List Response
unfolding serve
serve_all pread [] x = []
serve_all pread (q ∷ qs) x = let (a, y) = serve pread q x in a ∷ serve_all pread qs y

-- The table that a client sees.
pub record Store : Type 0 where
  pub rows : MapOf Bytes
  pub closed : Bool

unfoldable pub empty_store : Store
empty_store = record { rows = []; closed = false }

abbrev pub show_row : ℕ × Bytes → Record
show_row e = record { id = e.0; text = first_line e.1 }

-- An insert whose write succeeds sets the text of its id; a query gives the first rows behind its
-- bound; and after a close no insert is accepted, and no query finds a row.
unfoldable pub answer : Request → Store → Response × Store
answer (inserts id text wrote) t =
    if t.closed
    then (status 1, t)
    else (if is_whole wrote (length (line id text))
        then (status 0, record t { rows = assign id text t.rows })
        else (status 2, t))
answer (queries min_id limit) t =
    if t.closed
    then (records [], t)
    else (records (map show_row (take (pos_part limit) (select (λ e. ltb min_id e.0) t.rows))), t)
answer closes t = (status 0, record t { closed = true })

unfoldable pub answer_all : List Request → Store → List Response
unfolding answer
answer_all [] t = []
answer_all (q ∷ qs) t = let (a, u) = answer q t in a ∷ answer_all qs u
