-- ===== src/Table/Bytes/Laws.antt =====
-- A number that is written comes back.
use native.Mathlib.Nat.{pow-suc}
use go_prep.Base.{
  subst, ℕ, zero, suc, ◌+◌, ◌-◌, ◌*◌, ◌/◌, ◌%◌, ◌^◌, ◌<◌, ◌≡◌, refl, ap, ◌∙◌, true, false, none,
  some, List, [], ◌∷◌, ◌++◌, ltb, lt→ltb, ◌==◌, Bool-cases, inl, inr, arith, length, push_back,
  size_t_mod, All, All-append,
}
use go_prep.Table.Bytes.{
  Bytes, Lacks, find, digits, to_string, is_digit, is_space, read_digits, converted, signed,
  to_uint64,
}

abbrev pub IsDigit : ℕ → Type 0
IsDigit b = is_digit b ≡ true

pub find-append : (c : ℕ) (xs ys : Bytes) → Lacks c xs → find c (xs ++ c ∷ ys) ≡ some (length xs)
unfolding find
find-append c [] ys h = ground arith
find-append c (x ∷ xs) ys h = rw (h.0, find-append c xs ys h.1)

find_none : (c : ℕ) (xs : Bytes) → Lacks c xs → find c xs ≡ none
unfolding find
find_none c [] h = refl
find_none c (x ∷ xs) h = rw (h.0, find_none c xs h.1)

find-Lacks : (c : ℕ) (xs : Bytes) → find c xs ≡ none → Lacks c xs
unfolding find
find-Lacks c [] h = tt
find-Lacks c (x ∷ xs) h = (ground arith, find-Lacks c xs (ground arith))

digits-IsDigit : (fuel n : ℕ) → All IsDigit (digits fuel n)
unfolding digits
digits-IsDigit zero n = tt
digits-IsDigit (suc f) n = elim (Bool-cases (ltb n 10)) [
  | inl e ↦ rw e (ground arith, tt)
  | inr e ↦
      rw e (All-append IsDigit (digits f (n / 10)) _ (digits-IsDigit f (n / 10)) (ground arith, tt))
]

pub to_string-IsDigit : (n : ℕ) → All IsDigit (to_string n)
unfolding to_string
to_string-IsDigit n = digits-IsDigit 20 n

-- The value of a string of digits.
value : ℕ → Bytes → ℕ
value acc [] = acc
value acc (b ∷ bs) = value (acc * 10 + (b - b'0')) bs

value-push_back :
    (acc : ℕ) (bs : Bytes) (b : ℕ) → value acc (push_back bs b) ≡ value acc bs * 10 + (b - b'0')
unfolding value
value-push_back acc [] b = refl
value-push_back acc (c ∷ bs) b = value-push_back (acc * 10 + (c - b'0')) bs b

value-digits : (fuel n : ℕ) → n < 10 ^ fuel → value 0 (digits fuel n) ≡ n
unfolding digits value
value-digits zero n h = omega arith
value-digits (suc f) n h = elim (Bool-cases (ltb n 10)) [
  | inl e ↦ rw e (omega arith)
  | inr e ↦
      let power : 10 ^ suc f ≡ 10 ^ f * 10 = pow-suc 10 f in
      let small : n / 10 < 10 ^ f = omega arith in
      rw (e, value-push_back 0 (digits f (n / 10)) (n % 10 + b'0'), value-digits f (n / 10) small)
        (omega arith)
]

-- A byte after a number that does not belong to it.
abbrev Ends : Bytes → Type 0
Ends [] = Unit
Ends (b ∷ bs) = is_digit b ≡ false

read_digits-value :
    (acc : ℕ) (bs rest : Bytes)
    → All IsDigit bs
    → Ends rest
    → read_digits acc (bs ++ rest) ≡ (value acc bs, rest)
unfolding read_digits value
read_digits-value acc [] [] h e = refl
read_digits-value acc [] (b ∷ rest) h e = rw e
read_digits-value acc (b ∷ bs) rest h e =
    rw h.0 (read_digits-value (acc * 10 + (b - b'0')) bs rest h.1 e)

number-to_uint64 :
    (b : ℕ) (bs rest : Bytes)
    → All IsDigit (b ∷ bs)
    → value 0 (b ∷ bs) < size_t_mod
    → Ends rest
    → to_uint64 (b ∷ (bs ++ rest)) ≡ converted (value 0 (b ∷ bs)) rest
unfolding to_uint64 value
number-to_uint64 b bs rest h small e =
    let one : is_digit b ≡ true = h.0 in
    let plain : is_space b ≡ false = ground arith in
    let no_minus : (b == b'-') ≡ false = ground arith in
    let no_plus : (b == b'+') ≡ false = ground arith in
    rw (
      plain,
      signed,
      no_minus,
      no_plus,
      one,
      read_digits-value (0 + (b - b'0')) bs rest h.1 e,
      lt→ltb (value (0 + (b - b'0')) bs) size_t_mod small,
    )

push_back-cons {ℓ} :
    {A : Type ℓ} (xs : List A) (x : A) → (y : A) × (ys : List A) × (push_back xs x ≡ y ∷ ys)
push_back-cons [] x = (x, [], refl)
push_back-cons (y ∷ ys) x = (y, push_back ys x, refl)

digits-cons : (f n : ℕ) → (b : ℕ) × (bs : Bytes) × (digits (suc f) n ≡ b ∷ bs)
unfolding digits
digits-cons f n = elim (Bool-cases (ltb n 10)) [
  | inl e ↦ (n + b'0', [], rw e)
  | inr e ↦ rw e (push_back-cons (digits f (n / 10)) (n % 10 + b'0'))
]

-- What `to_string` writes, `stoull` and `>>` read back, up to the next byte that is no digit.
pub to_uint64-to_string :
    (n : ℕ) (rest : Bytes)
    → n < size_t_mod
    → Ends rest
    → to_uint64 (to_string n ++ rest) ≡ converted n rest
unfolding to_string
to_uint64-to_string n rest h e =
    let (b, bs, shape) = digits-cons 19 n in
    let number : value 0 (b ∷ bs) ≡ n = rw (← shape) (value-digits 20 n (omega arith)) in
    let all : All IsDigit (b ∷ bs) = subst (All IsDigit) shape (digits-IsDigit 20 n) in
    rw shape (number-to_uint64 b bs rest all (rw number h) e ∙ ap (λ k. converted k rest) number)
