-- ===== src/Table/Posix/Store/Refines.antt =====
-- An insert of the index does what the table says.
use mathlib.Core.List.{mem-cons_self}
use go_prep.Base.{
  ◌⊎◌, ℕ, ◌+◌, ◌<◌, ◌≡◌, refl, sym, ap, ◌∙◌, subst, Bool, true, false, none, some, List, [], ◌∷◌,
  if◌then◌else◌, length, size_t_mod, arith, inl, inr, Bool-cases,
}
use go_prep.Table.Bytes.{Bytes}
use go_prep.Table.OrderedMap.{Ordered, assign, assign-Ordered}
use go_prep.Table.Posix.FileData.{FileData, WriteResult, line, append, is_whole}
use go_prep.Table.Posix.FileData.Append.{IsSound, append-Extends, append-IsSound, append-Stored}
use go_prep.Table.Posix.Reader.{Pread}
use go_prep.Table.Posix.Index.{Index, enter, leave, append_record, publish, insert}
use go_prep.Table.Posix.Store.{Request, inserts, Response, status, serve, Store, answer}
use go_prep.Table.Posix.Store.Rows.{Holds, Aligned-Extends}
use go_prep.Table.OrderedMap.Aligned.{Aligned, Aligned-assign}

-- The index has the rows of the table, and no call is in progress.
pub record Refines (x : Index) (t : Store) : Type 0 where
  pub sound : IsSound x.file_data
  pub ordered : Ordered x.index_map
  pub aligned : Aligned (Holds x.file_data) x.index_map t.rows
  pub same_closed : x.closed ≡ t.closed
  pub idle : x.in_flight ≡ 0

-- The ids fit, and the file stays below 2^64 bytes.
abbrev pub FitsOne : Request → Index → Type 0
FitsOne (inserts id text wrote) x =
    (id < size_t_mod) × (length (insert id text wrote x).1.file_data.bytes < size_t_mod)
FitsOne q x = Unit

abbrev pub Fits : Pread → List Request → Index → Type 0
Fits pread [] x = Unit
Fits pread (q ∷ qs) x = FitsOne q x × Fits pread qs (serve pread q x).1

-- One call, and the state after it.
abbrev pub Agree : Pread → Request → Index → Store → Type 0
Agree pread q x t =
    ((serve pread q x).0 ≡ (answer q t).0) × Refines (serve pread q x).1 (answer q t).1

pub append-landed :
    (f : FileData) (l : Bytes) (wrote : WriteResult)
    → ((is_whole wrote (length l) ≡ true) × ((append f l wrote).0 ≡ some f.write_offset))
      ⊎ ((is_whole wrote (length l) ≡ false) × ((append f l wrote).0 ≡ none))
unfolding append
append-landed f l wrote = elim (Bool-cases (is_whole wrote (length l))) [
  | inl e ↦ inl (e, rw e refl)
  | inr e ↦ inr (e, rw e refl)
]

pub if_true {ℓ} : {A : Type ℓ} (b : Bool) (p q : A) → b ≡ true → (if b then p else q) ≡ p
if_true b p q e = rw e refl

pub if_false {ℓ} : {A : Type ℓ} (b : Bool) (p q : A) → b ≡ false → (if b then p else q) ≡ q
if_false b p q e = rw e refl

abbrev pub entered : Index → Index
entered x = record x { in_flight = x.in_flight + 1 }

pub enter-closed : (x : Index) → x.closed ≡ true → enter x ≡ none
unfolding enter
enter-closed x e = if_true x.closed none _ e

pub enter-opened : (x : Index) → x.closed ≡ false → enter x ≡ some (entered x)
unfolding enter
enter-opened x e = if_false x.closed none _ e

-- The two ends of an insert that is let in.
abbrev appended : ℕ → Bytes → WriteResult → Index → Index
appended id text wrote x =
    leave (record (entered x) { file_data = (append x.file_data (line id text) wrote).1 })

abbrev published : ℕ → Bytes → WriteResult → Index → Index
published id text wrote x = leave (
    publish id x.file_data.write_offset
      (record (entered x) { file_data = (append x.file_data (line id text) wrote).1 }))

insert-none :
    (id : ℕ) (text : Bytes) (wrote : WriteResult) (x : Index)
    → x.closed ≡ false
    → (append x.file_data (line id text) wrote).0 ≡ none
    → insert id text wrote x ≡ (2, appended id text wrote x)
unfolding insert append_record
insert-none id text wrote x o landed = rw (enter-opened x o, insert, landed) refl

insert-some :
    (id : ℕ) (text : Bytes) (wrote : WriteResult) (x : Index)
    → x.closed ≡ false
    → (append x.file_data (line id text) wrote).0 ≡ some x.file_data.write_offset
    → insert id text wrote x ≡ (0, published id text wrote x)
unfolding insert append_record
insert-some id text wrote x o landed = rw (enter-opened x o, insert, landed) refl

insert-closed :
    (id : ℕ) (text : Bytes) (wrote : WriteResult) (x : Index)
    → x.closed ≡ true
    → insert id text wrote x ≡ (1, x)
unfolding insert
insert-closed id text wrote x c = rw (enter-closed x c, insert) refl

module _ (pread : Pread) (q : Request) (x y : Index) (t u : Store) (r : Response) where
  pub agrees : serve pread q x ≡ (r, y) → answer q t ≡ (r, u) → Refines y u → Agree pread q x t
  agrees e e' v = rw (e, e') (refl, v)

module _ (pread : Pread) (x : Index) (t : Store) (v : Refines x t) where
  pub inserts-Agree :
      (id : ℕ) (text : Bytes) (wrote : WriteResult)
      → FitsOne (inserts id text wrote) x
      → Agree pread (inserts id text wrote) x t
  unfolding serve answer leave publish
  inserts-Agree id text wrote (small, fits) = elim (Bool-cases x.closed) [
    | inl c ↦
        agrees pread (inserts id text wrote) x x t t (status 1)
          (ap (λ (p : ℕ × Index). (status p.0, p.1)) (insert-closed id text wrote x c))
          (if_true t.closed _ _ (sym v.same_closed ∙ c)) v
    | inr o ↦
        let o' : t.closed ≡ false = sym v.same_closed ∙ o in
        let f = x.file_data in
        let l = line id text in
        elim (append-landed f l wrote) [
          | inl (e, landed) ↦
              let done = insert-some id text wrote x o landed in
              let room : length (append f l wrote).1.bytes < size_t_mod =
                subst (λ p. length p.1.file_data.bytes < size_t_mod) done fits in
              agrees pread (inserts id text wrote) x (published id text wrote x) t
                (record t { rows = assign id text t.rows }) (status 0)
                (ap (λ (p : ℕ × Index). (status p.0, p.1)) done)
                (if_false t.closed _ _ o' ∙ if_true (is_whole wrote (length l)) _ _ e)
                (record {
                  sound = append-IsSound f l v.sound wrote room;
                  ordered = assign-Ordered id f.write_offset x.index_map v.ordered;
                  aligned =
                      Aligned-assign (Holds (append f l wrote).1) id f.write_offset text x.index_map
                        t.rows
                        (append-Stored ((id, text) ∷ []) f id text wrote f.write_offset v.sound room
                          landed mem-cons_self small)
                        (Aligned-Extends f (append f l wrote).1 x.index_map t.rows
                          (append-Extends f l v.sound wrote room) v.aligned);
                  same_closed = v.same_closed;
                  idle = omega (arith, v.idle);
                })
          | inr (e, landed) ↦
              let done = insert-none id text wrote x o landed in
              let room : length (append f l wrote).1.bytes < size_t_mod =
                subst (λ p. length p.1.file_data.bytes < size_t_mod) done fits in
              agrees pread (inserts id text wrote) x (appended id text wrote x) t t (status 2)
                (ap (λ (p : ℕ × Index). (status p.0, p.1)) done)
                (if_false t.closed _ _ o' ∙ if_false (is_whole wrote (length l)) _ _ e)
                (record {
                  sound = append-IsSound f l v.sound wrote room;
                  ordered = v.ordered;
                  aligned =
                      Aligned-Extends f (append f l wrote).1 x.index_map t.rows
                        (append-Extends f l v.sound wrote room) v.aligned;
                  same_closed = v.same_closed;
                  idle = omega (arith, v.idle);
                })
        ]
  ]
