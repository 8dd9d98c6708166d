-- ===== src/Table/Posix/Linear/Once.antt =====
-- Each call of `Insert` that is let in takes effect once.
use mathlib.Core.List.Perm
use go_prep.Base.{
  ℕ, ◌≡◌, refl, sym, subst, Option, none, some, List, [], ◌∷◌, ◌++◌, Perm, gather, gather_replace,
  gather_leave, gather_settle,
}
use go_prep.Table.Bytes.{Bytes}
use go_prep.Table.Posix.FileData.{WriteResult}
use go_prep.Table.Posix.Index.{append_record, find_offsets}
use go_prep.Table.Posix.System.{
  System, Op, inserting, appended, finished, querying, fetched, after_append, start, Step,
  insert_enters, insert_refused, appends, publishes, insert_leaves, query_enters, query_refused,
  finds, query_leaves, closes, close_looks, close_wakes, Reach, here, later,
}
use go_prep.Table.Posix.Linear.{Event, add_append, takes_effect, let_in, inserts_of, record_of}

-- The records asked for are those of the calls in progress and those of the sequence.
abbrev OnceOf : List (ℕ × Bytes) → List Op → List Event → Type 0
OnceOf asked ops es = Perm asked (gather record_of ops ++ inserts_of es)

abbrev pub Once : System → List Event → Type 0
Once s es = OnceOf s.asked s.ops es

module _ (asked : List (ℕ × Bytes)) (ops : List Op) (es : List Event) (h : OnceOf asked ops es)
    (xs ys : List Op) (op : Op) (at : ops ≡ xs ++ op ∷ ys) where
  own : OnceOf asked (xs ++ op ∷ ys) es
  own = subst (λ os. OnceOf asked os es) at h

  keeps : (new : Op) → record_of new ≡ record_of op → OnceOf asked (xs ++ new ∷ ys) es
  keeps new e =
      subst (λ rs. Perm asked (rs ++ inserts_of es)) (sym (gather_replace record_of xs ys op new e))
        own

  goes : record_of op ≡ [] → OnceOf asked (xs ++ ys) es
  goes e = subst (λ rs. Perm asked (rs ++ inserts_of es)) (gather_leave record_of xs ys op e) own

  settles :
      (new : Op) (id : ℕ) (text : Bytes)
      → record_of op ≡ (id, text) ∷ []
      → record_of new ≡ []
      → Perm asked (gather record_of (xs ++ new ∷ ys) ++ (id, text) ∷ inserts_of es)
  settles new id text e e' =
      subst (λ rs. Perm asked (rs ++ (id, text) ∷ inserts_of es))
        (sym (gather_leave record_of xs ys new e'))
        (gather_settle record_of asked (inserts_of es) xs ys op (id, text) e own)

appends-Once :
    (asked : List (ℕ × Bytes)) (ops : List Op) (es : List Event) (xs ys : List Op) (id : ℕ)
    (text : Bytes) (wrote : WriteResult) (landed : Option ℕ)
    → OnceOf asked ops es
    → ops ≡ xs ++ inserting id text ∷ ys
    → OnceOf asked (xs ++ after_append id text landed ∷ ys) (add_append id text wrote landed es)
appends-Once asked ops es xs ys id text wrote none h at =
    settles asked ops es h xs ys (inserting id text) at (finished id 2) id text refl refl
appends-Once asked ops es xs ys id text wrote (some offset) h at =
    keeps asked ops es h xs ys (inserting id text) at (appended id text offset) refl

Step-Once :
    {s t : System} (st : Step s t) (es : List Event) → Once s es → Once t (takes_effect st es)
Step-Once (insert_enters id text x small e) es h = Perm.cons (id, text) h
Step-Once (insert_refused id text e) es h = h
Step-Once {s} (appends xs ys id text wrote at room) es h =
    appends-Once s.asked s.ops es xs ys id text wrote (append_record id text wrote s.index).0 h at
Step-Once {s} (publishes xs ys id text offset at) es h =
    settles s.asked s.ops es h xs ys (appended id text offset) at (finished id 0) id text refl refl
Step-Once {s} (insert_leaves xs ys id code at) es h =
    goes s.asked s.ops es h xs ys (finished id code) at refl
Step-Once (query_enters min_id limit x e) es h = h
Step-Once (query_refused min_id limit e) es h = h
Step-Once {s} (finds xs ys min_id limit at) es h =
    keeps s.asked s.ops es h xs ys (querying min_id limit) at
      (fetched (find_offsets min_id limit s.index)) refl
Step-Once {s} (query_leaves xs ys offsets at) es h =
    goes s.asked s.ops es h xs ys (fetched offsets) at refl
Step-Once closes es h = h
Step-Once (close_looks xs ys at) es h = h
Step-Once (close_wakes xs ys at) es h = h

pub Reach-Once : {s : System} (r : Reach s) → Once s (let_in r)
unfolding start
Reach-Once here = Perm.refl []
Reach-Once (later r st) = Step-Once st (let_in r) (Reach-Once r)
