-- ===== src/Table/Bytes.antt =====
-- Byte strings: `find`, decimal output (`std::to_string`, `<<`) and input (`std::stoull`, `>>`) of a
-- `uint64_t`.
pub mod Laws
use go_prep.Base.{
  ℕ, zero, suc, ◌+◌, ◌-◌, ◌*◌, ◌/◌, ◌%◌, ◌≡◌, Bool, true, false, ◌&&◌, ◌||◌, Option, none, some,
  List, [], ◌∷◌, if◌then◌else◌, ltb, leb, ◌==◌, push_back, size_t_mod, All,
}

abbrev pub Bytes : Type 0
Bytes = List ℕ

abbrev pub newline : ℕ
newline = 10

abbrev pub tab : ℕ
tab = 9

abbrev pub space : ℕ
space = 32

-- The byte does not occur.
abbrev pub Lacks : ℕ → Bytes → Type 0
Lacks c bs = All (λ b. (b == c) ≡ false) bs

-- `s.find(c)`, where `none` is `npos`.
unfoldable pub find : ℕ → Bytes → Option ℕ
find c [] = none
find c (b ∷ bs) =
    if b == c then some 0 else (elim (find c bs) [ none ↦ none | some i ↦ some (suc i) ])

-- The decimal digits, on fuel for 20 of them, which a `uint64_t` does not exceed.
unfoldable pub digits : ℕ → ℕ → Bytes
digits zero n = []
digits (suc fuel) n =
    let front = digits fuel (n / 10) in
    if ltb n 10 then (n + b'0') ∷ [] else push_back front (n % 10 + b'0')

unfoldable pub to_string : ℕ → Bytes
unfolding digits
to_string n = digits 20 n

abbrev pub is_digit : ℕ → Bool
is_digit b = leb b'0' b && leb b b'9'

-- `isspace` in the C locale.
abbrev pub is_space : ℕ → Bool
is_space b = b == space || (leb 9 b && leb b 13)

pub skip_space : Bytes → Bytes
skip_space [] = []
skip_space (b ∷ bs) = if is_space b then skip_space bs else b ∷ bs

-- The value of the digits in front, on top of `acc`, and what follows them.
pub read_digits : ℕ → Bytes → ℕ × Bytes
read_digits acc [] = (acc, [])
read_digits acc (b ∷ bs) =
    let more = read_digits (acc * 10 + (b - b'0')) bs in if is_digit b then more else (acc, b ∷ bs)

pub data Conversion : Type 0 where
  converted : ℕ → Bytes → Conversion
  invalid_argument : Conversion
  out_of_range : Conversion

in_range : Bool → ℕ × Bytes → Conversion
in_range negative (n, rest) =
    if ltb n size_t_mod
    then converted (if negative then (size_t_mod - n) % size_t_mod else n) rest
    else out_of_range

-- At least one digit is needed.
unsigned : Bool → Bytes → Conversion
unfolding read_digits in_range
unsigned negative [] = invalid_argument
unsigned negative (b ∷ bs) =
    if is_digit b then in_range negative (read_digits 0 (b ∷ bs)) else invalid_argument

pub signed : Bytes → Conversion
unfolding unsigned
signed [] = invalid_argument
signed (b ∷ bs) =
    if b == b'-'
    then unsigned true bs
    else (if b == b'+' then unsigned false bs else unsigned false (b ∷ bs))

-- White space, a sign, and digits; a negative number wraps around.
pub to_uint64 : Bytes → Conversion
unfolding skip_space signed
to_uint64 bs = signed (skip_space bs)
