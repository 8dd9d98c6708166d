-- ===== src/Table/Posix/System/Invariant.antt =====
-- The invariant of the interleaved calls, and that every step keeps it.
use mathlib.Core.List.{mem-cons_self}
use go_prep.Base.{
  ℕ, suc, ◌+◌, ◌-◌, ◌<◌, ◌≡◌, refl, ap, subst, false, some, List, ◌∷◌, ◌++◌, All, All-map, All-at,
  All-replace, All-remove, length, length-append, size_t_mod, arith,
}
use go_prep.Base.Int.{ℤ}
use go_prep.Table.Bytes.{Bytes}
use go_prep.Table.OrderedMap.{Ordered}
use go_prep.Table.Posix.FileData.{FileData, open_file}
use go_prep.Table.Posix.FileData.Laws.{Stored}
use go_prep.Table.Posix.FileData.Append.{IsSound}
use go_prep.Table.Posix.Index.{Index, make_index, enter}
use go_prep.Table.Posix.System.{System, Op, inserting, querying, start}
use go_prep.Table.Posix.System.Known.{
  Known, OpKnown, Later, Later-asked, Stored-Later, Known-Later, OpKnown-Later,
}

-- The file is sound; every offset in the map, in a call and in an iterator has its record; the ids
-- of the map ascend; and `inFlight` counts the calls in progress.
pub record Inv (s : System) : Type 0 where
  pub sound : IsSound s.index.file_data
  pub ordered : Ordered s.index.index_map
  pub published : All (λ e. Stored s.asked s.index.file_data e.0 e.1) s.index.index_map
  pub in_calls : All (OpKnown s.asked s.index.file_data) s.ops
  pub in_iterators : All (All (Known s.asked s.index.file_data)) s.iterators
  pub counted : s.index.in_flight ≡ length s.ops

pub start-Inv : Inv start
unfolding start make_index open_file
start-Inv = record {
  sound = record { inside = omega arith; fits = omega arith };
  ordered = tt;
  published = tt;
  in_calls = tt;
  in_iterators = tt;
  counted = refl;
}

-- What the file and the calls asked for grow to, all that is known lasts.
pub lasting :
    (s : System) (asked' : List (ℕ × Bytes)) (g : FileData)
    → Later s.asked asked' s.index.file_data g
    → Inv s
    → All (λ e. Stored asked' g e.0 e.1) s.index.index_map
      × All (OpKnown asked' g) s.ops
      × All (All (Known asked' g)) s.iterators
lasting s asked' g l v = (
  All-map {P = λ e. Stored s.asked s.index.file_data e.0 e.1}
      (λ e r. Stored-Later s.asked asked' s.index.file_data g l e.0 e.1 r) s.index.index_map
      v.published,
  All-map (OpKnown-Later s.asked asked' s.index.file_data g l) s.ops v.in_calls,
  All-map {P = All (Known s.asked s.index.file_data)}
      (λ offs h. All-map (Known-Later s.asked asked' s.index.file_data g l) offs h) s.iterators
      v.in_iterators,
)

pub length-middle {ℓ} :
    {A : Type ℓ} (xs : List A) (x : A) (ys : List A)
    → length (xs ++ x ∷ ys) ≡ suc (length (xs ++ ys))
length-middle xs x ys = omega (arith, length-append xs (x ∷ ys), length-append xs ys)

-- An index that lets a call in.
pub enter-eq_some :
    (i x : Index)
    → enter i ≡ some x
    → (x ≡ record i { in_flight = i.in_flight + 1 }) × (i.closed ≡ false)
unfolding enter
enter-eq_some i x e = ground arith

module _ (s : System) (v : Inv s) where
  pub asks_Inv :
      (id : ℕ) (text : Bytes)
      → id < size_t_mod
      → Inv (record s {
        index = record s.index { in_flight = s.index.in_flight + 1 };
        ops = inserting id text ∷ s.ops;
        asked = (id, text) ∷ s.asked;
      })
  asks_Inv id text small =
      let (published, in_calls, in_iterators) =
        lasting s ((id, text) ∷ s.asked) s.index.file_data
          (Later-asked (id, text) s.asked s.index.file_data) v in
      record {
        sound = v.sound;
        ordered = v.ordered;
        published = published;
        in_calls = ((mem-cons_self, small), in_calls);
        in_iterators = in_iterators;
        counted = omega (arith, v.counted);
      }

  pub opens_Inv :
      (min_id : ℕ) (limit : ℤ)
      → Inv (record s {
        index = record s.index { in_flight = s.index.in_flight + 1 };
        ops = querying min_id limit ∷ s.ops;
      })
  opens_Inv min_id limit = record {
    sound = v.sound;
    ordered = v.ordered;
    published = v.published;
    in_calls = (tt, v.in_calls);
    in_iterators = v.in_iterators;
    counted = omega (arith, v.counted);
  }

  module _ (xs ys : List Op) (op : Op) (at : s.ops ≡ xs ++ op ∷ ys) where
    abbrev calls_ok : All (OpKnown s.asked s.index.file_data) (xs ++ op ∷ ys)
    calls_ok = subst (All (OpKnown s.asked s.index.file_data)) at v.in_calls

    pub op-OpKnown : OpKnown s.asked s.index.file_data op
    op-OpKnown = All-at _ xs op ys calls_ok

    -- A call that goes on, and one that leaves.
    pub replace_calls :
        (new : Op)
        → OpKnown s.asked s.index.file_data new
        → All (OpKnown s.asked s.index.file_data) (xs ++ new ∷ ys)
    replace_calls new h = All-replace _ xs op new ys h calls_ok

    pub replace_counted : (new : Op) → s.index.in_flight ≡ length (xs ++ new ∷ ys)
    replace_counted new =
        omega (arith, v.counted, ap length at, length-middle xs op ys, length-middle xs new ys)

    pub remove_counted : s.index.in_flight - 1 ≡ length (xs ++ ys)
    remove_counted = omega (arith, v.counted, ap length at, length-middle xs op ys)

    pub remove_calls : All (OpKnown s.asked s.index.file_data) (xs ++ ys)
    remove_calls = All-remove _ xs op ys calls_ok
