-- ===== src/Table/Posix/Store/Examples.antt =====
-- A client that inserts twice, the second time in vain, then queries, closes, and queries again.
use go_prep.Base.{◌≡◌, refl, some, List, [], ◌∷◌, take, drop, arith}
use go_prep.Base.Int.{pos}
use go_prep.Table.Bytes.{Bytes, to_string, digits}
use go_prep.Table.Posix.FileData.{append, pwrite, write_at, line, open_file}
use go_prep.Table.Posix.Reader.{Pread, Readable}
use go_prep.Table.Posix.Index.{make_index, insert, enter, leave, append_record, publish}
use go_prep.Table.Posix.Store.{
  Request, inserts, queries, closes, serve, serve_all, answer_all, empty_store,
}
use go_prep.Table.Posix.Store.Refines.{Fits}
use go_prep.Table.Posix.Store.Runs.{serve_all-answers}

abbrev whole_pread : Pread
whole_pread file count at = some (take count (drop at file))

whole_pread-Readable : (file : Bytes) → Readable whole_pread file
whole_pread-Readable file = record { read = λ count at h. (count, refl, omega arith, λ more. h) }

abbrev requests : List Request
requests =
    inserts 12 (b'h' ∷ b'e' ∷ b'y' ∷ []) (some 7)
    ∷ inserts 5 (b'y' ∷ b'o' ∷ []) (some 2)
    ∷ queries 3 (pos 5)
    ∷ closes
    ∷ queries 3 (pos 5)
    ∷ []

fits : Fits whole_pread requests make_index
unfolding make_index open_file serve insert enter leave publish append_record append pwrite write_at
    line to_string digits
fits = ((omega arith, omega arith), ((omega arith, omega arith), (tt, (tt, (tt, tt)))))

serve_all-answers_example :
    serve_all whole_pread requests make_index ≡ answer_all requests empty_store
serve_all-answers_example = serve_all-answers whole_pread whole_pread-Readable requests fits
