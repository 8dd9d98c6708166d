-- ===== src/Table/Posix/Linear/Effects.antt =====
-- What the calls in progress owe to the sequence, and how it changes when one of them moves on.
use go_prep.Base.{
  ◌⊎◌, ℕ, ◌≡◌, sym, ap, ◌∙◌, subst, false, List, [], ◌∷◌, ◌++◌, inl, inr, All, All-map, All-at,
  All-replace, All-remove, Bool-cases, ◌==◌, ==_iff, if◌then◌else◌,
}
use go_prep.Table.OrderedMap.{Map}
use go_prep.Table.Posix.FileData.{FileData}
use go_prep.Table.Posix.FileData.Append.{Extends, Stored-Extends}
use go_prep.Table.Posix.System.{System, Op, inserting, appended, finished, querying, fetched}
use go_prep.Table.Posix.Store.{Request, Response, Store, answer}
use go_prep.Table.Posix.Store.Rows.{Holds, Aligned-Extends}
use go_prep.Table.OrderedMap.Aligned.{Aligned}
use go_prep.Table.Posix.Linear.{Seen, Event, store_after, Gives, Hands}
use go_prep.Table.Posix.Linear.Replay.{
  Backed, Accounted, Accounted-Extends, Gives-later, Hands-later,
}

abbrev pub OpOk : FileData → List Event → Op → Type 0
OpOk f es (inserting id text) = Unit
OpOk f es (appended id text offset) = Holds f id text offset
OpOk f es (finished id code) = Gives es code id
OpOk f es (querying min_id limit) = Unit
OpOk f es (fetched offsets) = Hands es offsets

-- `late` are the calls that were refused, and `es` those that were let in.
abbrev pub HandedOk : List Event → List Event → List ℕ → Type 0
HandedOk late es offsets = Hands late offsets ⊎ Hands es offsets

pub record LinearInv (f : FileData) (m : Map) (ops : List Op) (acknowledged : List ℕ)
    (iterators : List (List ℕ)) (late es : List Event) : Type 0 where
  pub aligned : Aligned (Holds f) m (store_after es).rows
  pub opened : (store_after es).closed ≡ false
  pub accounted : Accounted f es
  pub in_calls : All (OpOk f es) ops
  pub returned_to : All (Gives es 0) acknowledged
  pub handed_out : All (HandedOk late es) iterators

abbrev pub Linear : System → List Event → List Event → Type 0
Linear s late es =
    LinearInv s.index.file_data s.index.index_map s.ops s.acknowledged s.iterators late es

OpOk-later :
    (f : FileData) (e : Event) (es : List Event) (op : Op) → OpOk f es op → OpOk f (e ∷ es) op
OpOk-later f e es (inserting id text) h = tt
OpOk-later f e es (appended id text offset) h = h
OpOk-later f e es (finished id code) h = Gives-later e es code id h
OpOk-later f e es (querying min_id limit) h = tt
OpOk-later f e es (fetched offsets) h = Hands-later e es offsets h

OpOk-Extends :
    (f g : FileData) (es : List Event) → Extends f g → (op : Op) → OpOk f es op → OpOk g es op
OpOk-Extends f g es e (inserting id text) h = tt
OpOk-Extends f g es e (appended id text offset) h =
    Stored-Extends ((id, text) ∷ []) f g id offset e h
OpOk-Extends f g es e (finished id code) h = h
OpOk-Extends f g es e (querying min_id limit) h = tt
OpOk-Extends f g es e (fetched offsets) h = h

HandedOk-late :
    (e : Event) (late es : List Event) (os : List ℕ)
    → HandedOk late es os
    → HandedOk (e ∷ late) es os
HandedOk-late e late es os (inl h) = inl (Hands-later e late os h)
HandedOk-late e late es os (inr h) = inr h

HandedOk-later :
    (e : Event) (late es : List Event) (os : List ℕ)
    → HandedOk late es os
    → HandedOk late (e ∷ es) os
HandedOk-later e late es os (inl h) = inl h
HandedOk-later e late es os (inr h) = inr (Hands-later e es os h)

module _ (f : FileData) (m : Map) (ops : List Op) (ids : List ℕ) (its : List (List ℕ))
    (late es : List Event) (v : LinearInv f m ops ids its late es) where
  -- The calls in progress change, and the callers that got a status or an iterator.
  moves :
      (ops' : List Op) (ids' : List ℕ) (its' : List (List ℕ))
      → All (OpOk f es) ops'
      → All (Gives es 0) ids'
      → All (HandedOk late es) its'
      → LinearInv f m ops' ids' its' late es
  moves ops' ids' its' calls acked handed = record {
    aligned = v.aligned;
    opened = v.opened;
    accounted = v.accounted;
    in_calls = calls;
    returned_to = acked;
    handed_out = handed;
  }

  pub begins : (op : Op) → OpOk f es op → LinearInv f m (op ∷ ops) ids its late es
  begins op h = moves (op ∷ ops) ids its (h, v.in_calls) v.returned_to v.handed_out

  module _ (xs ys : List Op) (op : Op) (at : ops ≡ xs ++ op ∷ ys) where
    pub own_OpOk : OpOk f es op
    own_OpOk = All-at (OpOk f es) xs op ys (subst (All (OpOk f es)) at v.in_calls)

    others : All (OpOk f es) (xs ++ ys)
    others = All-remove (OpOk f es) xs op ys (subst (All (OpOk f es)) at v.in_calls)

    pub changes : (new : Op) → OpOk f es new → LinearInv f m (xs ++ new ∷ ys) ids its late es
    changes new h =
        moves (xs ++ new ∷ ys) ids its
          (All-replace (OpOk f es) xs op new ys h (subst (All (OpOk f es)) at v.in_calls))
          v.returned_to v.handed_out

    pub hands :
        (offsets : List ℕ) → Hands es offsets → LinearInv f m (xs ++ ys) ids (offsets ∷ its) late es
    hands offsets h =
        moves (xs ++ ys) ids (offsets ∷ its) others v.returned_to (inr h, v.handed_out)

    pub acknowledges :
        (id code : ℕ)
        → Gives es code id
        → LinearInv f m (xs ++ ys) (if code == 0 then id ∷ ids else ids) its late es
    acknowledges id code h = elim (Bool-cases (code == 0)) [
      | inl e ↦ rw e (
          moves (xs ++ ys) (id ∷ ids) its others
            (subst (λ c. Gives es c id) ((==_iff code 0).0 e) h, v.returned_to) v.handed_out)
      | inr e ↦ rw e (moves (xs ++ ys) ids its others v.returned_to v.handed_out)
    ]

  pub grows : (g : FileData) → Extends f g → LinearInv g m ops ids its late es
  grows g e = record {
    aligned = Aligned-Extends f g m (store_after es).rows e v.aligned;
    opened = v.opened;
    accounted = Accounted-Extends f g e es v.accounted;
    in_calls = All-map (OpOk-Extends f g es e) ops v.in_calls;
    returned_to = v.returned_to;
    handed_out = v.handed_out;
  }

  -- A call is refused.
  pub refuses : (e : Event) → LinearInv f m ops ids its (e ∷ late) es
  refuses e = record {
    aligned = v.aligned;
    opened = v.opened;
    accounted = v.accounted;
    in_calls = v.in_calls;
    returned_to = v.returned_to;
    handed_out = All-map (HandedOk-late e late es) its v.handed_out;
  }

  -- A call takes effect: the table answers what is seen, and has the rows of the map again.
  pub takes :
      (q : Request) (seen : Seen) (r : Response) (u : Store) (m' : Map)
      → answer q (store_after es) ≡ (r, u)
      → Backed f seen r
      → u.closed ≡ false
      → Aligned (Holds f) m' u.rows
      → LinearInv f m' ops ids its late ((q, seen) ∷ es)
  takes q seen r u m' answered backed open_still lined = record {
    aligned = subst (λ (p : Response × Store). Aligned (Holds f) m' p.1.rows) (sym answered) lined;
    opened = ap (λ p. p.1.closed) answered ∙ open_still;
    accounted =
        (subst (λ (p : Response × Store). Backed f seen p.0) (sym answered) backed, v.accounted);
    in_calls = All-map (OpOk-later f (q, seen) es) ops v.in_calls;
    returned_to = All-map (Gives-later (q, seen) es 0) ids v.returned_to;
    handed_out = All-map (HandedOk-later (q, seen) late es) its v.handed_out;
  }

pub remembers :
    (f : FileData) (m : Map) (ops : List Op) (ids : List ℕ) (its : List (List ℕ))
    (late es : List Event) (offsets : List ℕ)
    → LinearInv f m ops ids its late es
    → Hands late offsets
    → LinearInv f m ops ids (offsets ∷ its) late es
remembers f m ops ids its late es offsets v h =
    moves f m ops ids its late es v ops ids (offsets ∷ its) v.in_calls v.returned_to
      (inl h, v.handed_out)
