-- ===== src/Table/Posix/Client/Demo.antt =====
-- What `main` of iterator_plus_index.cpp prints.
use go_prep.Base.{
  ltb, ltb→lt, lt→ltb, fun_ext, ap₂, All-Mem, ℕ, zero, suc, ◌+◌, ◌-◌, ◌≤◌, ◌<◌, ◌≡◌, refl, ap, ◌∙◌,
  subst, true, false, some, List, [], ◌∷◌, map, length, arith, ◌⊎◌, inl, inr, All, All-map, All-at,
  count_from, range, ◌==◌,
}
use go_prep.Base.Int.{pos}
use go_prep.Table.Bytes.{Bytes, to_string, newline, Lacks}
use go_prep.Table.Bytes.Laws.{IsDigit, to_string-IsDigit}
use go_prep.Table.OrderedMap.{Map, Ordered, All-lookup}
use go_prep.Table.Posix.FileData.Laws.{first_line_lem, Stored}
use go_prep.Table.Posix.Reader.{Pread, Readable}
use go_prep.Table.Posix.Index.{query}
use go_prep.Table.Posix.System.{System, Reach}
use go_prep.Table.Posix.System.Steps.{Reach-Inv}
use go_prep.Table.Posix.System.Visible.{Present, Reach-Visible}
use go_prep.Table.Posix.System.Quiet.{Among}
use go_prep.Table.Posix.Client.{print_all, row_text, thread_ids, demo_ids}
use go_prep.Table.Posix.Client.Prints.{OwnText, Ascending, shown, print_all-acknowledged}

Among-cases : (z y : ℕ) (ys : List ℕ) → Among z (y ∷ ys) → (z ≡ y) ⊎ Among z ys
Among-cases z y ys ([], vs, at) = inl (cc at)
Among-cases z y ys (u ∷ us, vs, at) = inr (us, vs, cc at)

Among-nil : (z : ℕ) → Among z [] → ⊥
Among-nil z ([], vs, at) = ground arith
Among-nil z (u ∷ us, vs, at) = ground arith

All-Among {ℓ} : (P : ℕ → Type ℓ) (z : ℕ) (ys : List ℕ) → All P ys → Among z ys → P z
All-Among P z ys all (us, vs, at) = All-at P us z vs (subst (All P) at all)

-- Ascending lists with the same elements are equal.
Ascending-unique :
    (xs ys : List ℕ)
    → Ascending xs
    → Ascending ys
    → All (λ x. Among x ys) xs
    → All (λ y. Among y xs) ys
    → xs ≡ ys
Ascending-unique [] [] a b h k = refl
Ascending-unique [] (y ∷ ys) a b h k = absurd (Among-nil y k.0)
Ascending-unique (x ∷ xs) [] a b h k = absurd (Among-nil x h.0)
Ascending-unique (x ∷ xs) (y ∷ ys) a b h k =
    let low : y ≤ x = elim (Among-cases x y ys h.0) [
      | inl e ↦ omega arith
      | inr m ↦ omega (arith, All-Among (λ z. y < z) x ys b.0 m)
    ] in
    let high : x ≤ y = elim (Among-cases y x xs k.0) [
      | inl e ↦ omega arith
      | inr m ↦ omega (arith, All-Among (λ z. x < z) y xs a.0 m)
    ] in
    let same : x ≡ y = omega arith in
    ap₂ ◌∷◌ same (
      Ascending-unique xs ys a.1 b.1 (further x y xs ys (omega arith) a.0 h.1)
        (further y x ys xs (omega arith) b.0 k.1))
  where
    further :
        (x y : ℕ) (xs ys : List ℕ)
        → y ≤ x
        → All (λ z. x < z) xs
        → All (λ z. Among z (y ∷ ys)) xs
        → All (λ z. Among z ys) xs
    further x y [] ys le above in_cons = tt
    further x y (z ∷ zs) ys le above in_cons = (
      elim (Among-cases z y ys in_cons.0) [ inl e ↦ absurd (omega (arith, above.0)) | inr m ↦ m ],
      further x y zs ys le above.1 in_cons.1,
    )

range-Ascending : (start n : ℕ) → Ascending (range start n)
range-Ascending start zero = tt
range-Ascending start (suc n) =
    (above start (start + 1) n (omega arith), range-Ascending (start + 1) n)
  where
    above : (low start n : ℕ) → low < start → All (λ y. low < y) (range start n)
    above low start zero h = tt
    above low start (suc n) h = (h, above low (start + 1) n (omega arith))

range-Among : (start n id : ℕ) → start ≤ id → id < start + n → Among id (range start n)
range-Among start zero id h k = absurd (omega arith)
range-Among start (suc n) id h k = elim (compare_cases start id h) [
  | inl e ↦ ([], range (start + 1) n, ap (λ j. j ∷ range (start + 1) n) e)
  | inr less ↦
      let (us, vs, at) = range-Among (start + 1) n id less (omega arith) in
      (start ∷ us, vs, ap (◌∷◌ start) at)
]
  where
    compare_cases : (a b : ℕ) → a ≤ b → (a ≡ b) ⊎ (a + 1 ≤ b)
    compare_cases a b h = ground arith

All-range {ℓ} :
    (P : ℕ → Type ℓ) (start n : ℕ)
    → ((id : ℕ) → start ≤ id → id < start + n → P id)
    → All P (range start n)
All-range P start zero h = tt
All-range P start (suc n) h = (
  h start (omega arith) (omega arith),
  All-range P (start + 1) n (λ id a b. h id (omega arith) (omega arith)),
)

-- A map has at most as many entries as its keys have values.
Ordered-length :
    (m : Map) (low n : ℕ)
    → Ordered m
    → All (λ e. low ≤ e.0) m
    → All (λ e. e.0 < n) m
    → length m ≤ n - low
Ordered-length [] low n o a b = omega arith
Ordered-length (e ∷ m) low n o a b =
    omega
      (arith, a.0, b.0, Ordered-length m (e.0 + 1) n o.1 (All-map (λ d h. omega arith) m o.0) b.1)

row_text-Lacks : (id : ℕ) → Lacks newline (row_text id)
unfolding row_text
row_text-Lacks id = (
  refl,
  (refl, (refl, (refl, All-map {P = IsDigit} digit-other (to_string id) (to_string-IsDigit id)))),
)
  where
    digit-other : (b : ℕ) → IsDigit b → (b == newline) ≡ false
    digit-other b h = ground arith

demo_ids-range : demo_ids ≡ range 0 20
unfolding demo_ids thread_ids count_from
demo_ids-range = refl

-- A row that the demo inserts.
abbrev pub IsDemoRow : ℕ × Bytes → Type 0
IsDemoRow e = (e.0 < 20) × OwnText row_text e

module _ (s : System) (pread : Pread) (r : Reach s) (rows : All IsDemoRow s.asked) where
  stored_id : (e : ℕ × ℕ) → Stored s.asked s.index.file_data e.0 e.1 → e.0 < 20
  stored_id e stored =
      let small = All-map (λ d (h : IsDemoRow d). lt→ltb d.0 20 h.0) s.asked rows in
      ltb→lt e.0 20 (
        All-Mem (λ d. ltb d.0 20 ≡ true) (e.0, stored.text) s.asked (hlevel) small stored.asked_for)

  few_entries : length s.index.index_map ≤ 20
  few_entries =
      let v = Reach-Inv r in
      omega (
        arith,
        Ordered-length s.index.index_map 0 20 v.ordered
            (All-map (λ e h. omega arith) s.index.index_map v.published)
            (All-map stored_id s.index.index_map v.published),
      )

  acknowledged_id : (id : ℕ) → Among id s.acknowledged → id < 20
  acknowledged_id id (us, vs, at) =
      let m = s.index.index_map in
      let (off, e) =
        All-at (Present m) us id vs (subst (All (Present m)) at (Reach-Visible r).returned_to) in
      stored_id (id, off) (All-lookup _ id off m (Reach-Inv r).published e)

  -- Where only rows of the demo were inserted, in whatever order its threads ran, every one of its
  -- inserts has returned 0, and no call is in progress, `main` prints the rows 8 to 19, in this
  -- order, each with its whole text.
  pub demo-Prints :
      s.ops ≡ []
      → s.index.closed ≡ false
      → Readable pread s.index.file_data.bytes
      → All (λ id. Among id s.acknowledged) demo_ids
      → print_all 13 pread s.index.file_data.bytes (query 7 (pos 100) s.index).0
        ≡ some (map (λ id. record { id = id; text = row_text id }) (range 8 12))
  demo-Prints quiet opened readable all_acknowledged =
      let own = All-map (λ e (h : IsDemoRow e). h.1) s.asked rows in
      let (ids, ascending, sound, complete, prints) =
        print_all-acknowledged s pread row_text r quiet readable own 7 (pos 100) opened
          (omega (arith, few_entries)) in
      let acknowledged : All (λ id. Among id s.acknowledged) (range 0 20) =
        subst (All (λ id. Among id s.acknowledged)) demo_ids-range all_acknowledged in
      let same : ids ≡ range 8 12 =
        Ascending-unique ids (range 8 12) ascending (range-Ascending 8 12)
          (All-map
            (λ id (h : Among id s.acknowledged × (7 < id)).
              range-Among 8 12 id (omega (arith, h.1)) (omega (arith, acknowledged_id id h.0)))
            ids sound)
          (All-range (λ id. Among id ids) 8 12
            (λ id low high.
              complete id
                (All-Among (λ j. Among j s.acknowledged) id (range 0 20) acknowledged
                  (range-Among 0 20 id (omega arith) (omega arith)))
                (omega arith))) in
      prints 13 (omega (arith, ap length same))
      ∙ ap (λ js. some (map (shown row_text) js)) same
      ∙ ap (λ f. some (map f (range 8 12))) (fun_ext whole_text)
    where
      whole_text : (id : ℕ) → shown row_text id ≡ record { id = id; text = row_text id }
      whole_text id =
          ap (λ text. record { id = id; text = text })
            (first_line_lem (row_text id) (row_text-Lacks id))
