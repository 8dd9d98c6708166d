-- ===== src/Table/Posix/Reader/Laws.antt =====
-- The chunked reading against a plain split of the file at its next newline.
use go_prep.Base.{
  min, ℕ, zero, suc, ◌+◌, ◌-◌, ◌%◌, ◌≤◌, ◌<◌, ◌≡◌, refl, sym, ap, subst, ◌∙◌, Option, none, some,
  Option-cases, ◌⊎◌, [], ◌∷◌, ◌++◌, append-nil, append_assoc, length, take, drop, size_t_mod,
  if◌then◌else◌, ltb, ltb→lt, ◌==◌, Bool-cases, inl, inr, arith, length-drop, length-take,
  take-append-drop, drop-drop, drop-append, drop_all,
}
use go_prep.Table.Bytes.{Bytes, find, newline}
use go_prep.Table.Posix.Reader.{
  Pread, Readable, Scan, line_found, read_error, end_of_file, out_of_fuel, no_newline, parse_line,
  scan, outcome, read_record_at,
}

abbrev pub in_front : ℕ → Option Bytes → Option Bytes
in_front b none = none
in_front b (some bs) = some (b ∷ bs)

-- The bytes up to the first newline.
abbrev pub line_of : Bytes → Option Bytes
line_of [] = none
line_of (b ∷ bs) = if b == newline then some [] else in_front b (line_of bs)

-- What `find` and `substr` make of a buffer is its first line.
find-line_of :
    (bs : Bytes)
    → ((find newline bs ≡ none) × (line_of bs ≡ none))
      ⊎ ((nl : ℕ) × (find newline bs ≡ some nl) × (line_of bs ≡ some (take nl bs)))
unfolding find
find-line_of [] = inl (refl, refl)
find-line_of (b ∷ bs) = elim (Bool-cases (b == newline)) [
  | inl e ↦ inr (0, rw e, rw e)
  | inr e ↦ elim (find-line_of bs) [
    | inl (f, l) ↦ inl (rw (e, f), rw (e, l))
    | inr (nl, f, l) ↦ inr (suc nl, rw (e, f), rw (e, l))
  ]
]

line_of-append_some : (xs ys l : Bytes) → line_of xs ≡ some l → line_of (xs ++ ys) ≡ some l
line_of-append_some [] ys l h = cc
line_of-append_some (b ∷ xs) ys l h = elim (Bool-cases (b == newline)) [
  | inl e ↦ ground arith
  | inr e ↦ elim (Option-cases (line_of xs)) [
    | inl f ↦ ground arith
    | inr (k, f) ↦ ground (arith, line_of-append_some xs ys k f)
  ]
]

module _ (pread : Pread) (file : Bytes) (readable : Readable pread file)
    (fits : length file < size_t_mod) where
  -- A scan that agrees with the first line, where there is one, and with its absence.
  abbrev Finds : Option Bytes → Scan → Type 0
  Finds (some l) (line_found buf nl) = take nl buf ≡ l
  Finds none end_of_file = Unit
  Finds _ _ = ⊥

  Finds-of : {l l' : Option Bytes} {s s' : Scan} → l ≡ l' → s ≡ s' → Finds l' s' → Finds l s
  Finds-of {l' = l'} {s = s} e f h = subst (λ x. Finds x s) (sym e) (subst (Finds l') (sym f) h)

  at_end :
      (pos n : ℕ) → min n (length file - pos) ≡ 0 → (pos < length file → 0 < n) → length file ≤ pos
  at_end pos n h k = elim (Bool-cases (ltb pos (length file))) [
    | inl e ↦ absurd (omega (arith, k (ltb→lt pos _ e), ltb→lt pos _ e))
    | inr e ↦ ground arith
  ]

  -- What is left of the file behind a chunk.
  behind :
      (pos n : ℕ) (chunk : Bytes)
      → take n (drop pos file) ≡ chunk
      → drop pos file ≡ chunk ++ drop (pos + length chunk) file
  behind pos n chunk e =
      let whole : chunk ++ drop n (drop pos file) ≡ drop pos file =
        rw (← e) (take-append-drop n (drop pos file)) in
      let rest : drop (length chunk) (drop pos file) ≡ drop n (drop pos file) =
        ap (drop (length chunk)) (sym whole) ∙ drop-append chunk (drop n (drop pos file)) in
      sym whole ∙ ap (◌++◌ chunk) (sym rest ∙ drop-drop pos (length chunk) file)

  -- The round that reads `chunk`, from the rounds after it.
  scan-chunk :
      (fuel pos : ℕ) (buf : Bytes) (n : ℕ) (chunk : Bytes)
      → line_of buf ≡ none
      → take n (drop pos file) ≡ chunk
      → pread file 256 pos ≡ some chunk
      → (pos < length file → 0 < n)
      → ((next : ℕ) (longer : Bytes)
          → line_of longer ≡ none
          → next ≡ pos + length chunk
          → 0 < length chunk
          → next ≤ length file
          → Finds (line_of (longer ++ drop next file)) (scan pread fuel file next longer))
      → Finds (line_of (buf ++ drop pos file)) (scan pread (suc fuel) file pos buf)
  unfolding scan
  scan-chunk fuel pos buf n [] h e r progress later =
      let over : length file ≤ pos =
        at_end pos n
          (omega (arith, ap length e, length-take n (drop pos file), length-drop pos file))
          progress in
      Finds-of {l' = none} {s' = end_of_file} (rw (drop_all pos file over, append-nil buf) h)
        (rw (r, scan)) tt
  scan-chunk fuel pos buf n (b ∷ bs) h e r progress later =
      let next = pos + length (b ∷ bs) in
      let longer = buf ++ b ∷ bs in
      let inside : next ≤ length file =
        omega (arith, ap length e, length-take n (drop pos file), length-drop pos file) in
      let no_wrap : next % size_t_mod ≡ next = omega arith in
      let split : buf ++ drop pos file ≡ longer ++ drop next file =
        ap (◌++◌ buf) (behind pos n (b ∷ bs) e)
        ∙ sym (append_assoc buf (b ∷ bs) (drop next file)) in
      elim (find-line_of longer) [
        | inl (f, l) ↦
            Finds-of {s' = scan pread fuel file next longer} (ap line_of split)
              (rw (r, scan, f, no_wrap)) (later next longer l refl (omega arith) inside)
        | inr (nl, f, l) ↦
            Finds-of {l' = some (take nl longer)} {s' = line_found longer nl}
              (ap line_of split ∙ line_of-append_some longer (drop next file) (take nl longer) l)
              (rw (r, scan, f)) refl
      ]

  scan-Finds :
      (fuel pos : ℕ) (buf : Bytes)
      → line_of buf ≡ none
      → pos < size_t_mod
      → length file - pos < fuel
      → Finds (line_of (buf ++ drop pos file)) (scan pread fuel file pos buf)
  unfolding scan
  scan-Finds zero pos buf h p f = absurd (omega arith)
  scan-Finds (suc fuel) pos buf h p f =
      let (n, e, _, progress) = readable.read 256 pos (omega arith) in
      scan-chunk fuel pos buf n (take n (drop pos file)) h refl e progress
        (λ next longer l at moved inside. scan-Finds fuel next longer l (omega arith) (omega arith))

  outcome-Finds :
      (l : Option Bytes) (s : Scan)
      → Finds l s
      → outcome pread s ≡ (elim l [ none ↦ no_newline | some line ↦ parse_line line ])
  unfolding outcome
  outcome-Finds none end_of_file h = refl
  outcome-Finds (some l) (line_found buf nl) h = ap parse_line h
  outcome-Finds none (line_found buf nl) h = absurd h
  outcome-Finds none read_error h = absurd h
  outcome-Finds none out_of_fuel h = absurd h
  outcome-Finds (some l) end_of_file h = absurd h
  outcome-Finds (some l) read_error h = absurd h
  outcome-Finds (some l) out_of_fuel h = absurd h

  -- However the system splits its reads, the call ends, and treats the bytes from the offset up to
  -- the next newline as the record's line; without a newline it fails.
  pub read_record_at-line_of :
      (offset : ℕ)
      → offset < size_t_mod
      → read_record_at pread file offset
        ≡ (elim (line_of (drop offset file)) [ none ↦ no_newline | some line ↦ parse_line line ])
  unfolding read_record_at
  read_record_at-line_of offset h =
      outcome-Finds _ _ (scan-Finds (suc (length file)) offset [] refl h (omega arith))
