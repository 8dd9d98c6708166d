-- ===== src/Table/Posix/Store/Runs.antt =====
-- The index serves its calls as the table answers them.
use go_prep.Base.{ap₂, ◌≡◌, refl, List, [], ◌∷◌, arith}
use go_prep.Table.Bytes.{Bytes}
use go_prep.Table.Posix.FileData.{open_file}
use go_prep.Table.Posix.Reader.{Pread, Readable}
use go_prep.Table.Posix.Index.{Index, make_index}
use go_prep.Table.Posix.Store.{
  Request, inserts, queries, closes, serve, serve_all, Store, empty_store, answer, answer_all,
}
use go_prep.Table.Posix.Store.Refines.{Refines, FitsOne, Fits, Agree, inserts-Agree}
use go_prep.Table.Posix.Store.Queries.{queries-Agree, closes-Agree}

module _ (pread : Pread) (readable : (file : Bytes) → Readable pread file) where
  one_Agree : (q : Request) (x : Index) (t : Store) → Refines x t → FitsOne q x → Agree pread q x t
  one_Agree (inserts id text wrote) x t v fits = inserts-Agree pread x t v id text wrote fits
  one_Agree (queries min_id limit) x t v fits =
      queries-Agree pread x t v min_id limit (readable x.file_data.bytes)
  one_Agree closes x t v fits = closes-Agree pread x t v

  run_Agree :
      (qs : List Request) (x : Index) (t : Store)
      → Refines x t
      → Fits pread qs x
      → serve_all pread qs x ≡ answer_all qs t
  unfolding serve_all answer_all
  run_Agree [] x t v fits = refl
  run_Agree (q ∷ qs) x t v fits =
      let (same, after) = one_Agree q x t v fits.0 in
      ap₂ ◌∷◌ same (run_Agree qs (serve pread q x).1 (answer q t).1 after fits.1)

  -- The index implements the table: any sequence of calls, made one after the other on a new index,
  -- returns what the table answers, whatever writes fail and however the system splits its reads,
  -- while the ids fit and the file stays below 2^64 bytes. An insert that returns 0 sets the text of
  -- its id, one that fails changes nothing; a query gives the first rows behind its bound, each with
  -- its text up to the first newline; and `Close` returns, and has all later calls refused.
  pub serve_all-answers :
      (qs : List Request)
      → Fits pread qs make_index
      → serve_all pread qs make_index ≡ answer_all qs empty_store
  unfolding make_index open_file empty_store
  serve_all-answers qs fits =
      run_Agree qs make_index empty_store
        (record {
          sound = record { inside = omega arith; fits = omega arith };
          ordered = tt;
          aligned = tt;
          same_closed = refl;
          idle = refl;
        })
        fits
