-- ===== src/Text/Decimal.antt =====
-- std::to_string and std::stoll, and `CursorToInt` of src/storage/sqlite_store.cpp.
use agent_memory_cpp.Prelude.{
  ℕ, zero, suc, ◌+◌, ◌-◌, ◌*◌, ◌/◌, ◌%◌, ◌^◌, ◌≤◌, ◌<◌, ◌≡◌, refl, ap, ◌∙◌, Bool, is_empty, false,
  ◌&&◌, ◌||◌, Option, none, some, List, [], ◌∷◌, inl, inr, Bool-cases, arith, ltb, leb, ◌==◌,
  if◌then◌else◌,
}
use agent_memory_cpp.Prelude.Int.{ℤ, pos, negsuc}

-- The digits of n before `rest`; fuel n + 1 is enough, since each round divides by ten.
unfoldable pub digits_before : ℕ → ℕ → List ℕ → List ℕ
digits_before zero n rest = rest
digits_before (suc f) n rest =
    let more = digits_before f (n / 10) ((48 + n % 10) ∷ rest) in
    if ltb n 10 then (48 + n) ∷ rest else more

unfoldable pub to_string : ℕ → List ℕ
unfolding digits_before
to_string n = digits_before (suc n) n []

abbrev pub is_digit : ℕ → Bool
is_digit c = leb 48 c && leb c 57

abbrev pub is_space : ℕ → Bool
is_space c = c == 32 || (leb 9 c && leb c 13)

unfoldable pub skip_spaces : List ℕ → List ℕ
skip_spaces [] = []
skip_spaces (c ∷ cs) = if is_space c then skip_spaces cs else c ∷ cs

-- The longest run of digits, after the value v of those already read.
unfoldable pub read_digits : ℕ → List ℕ → ℕ
read_digits v [] = v
read_digits v (c ∷ cs) = if is_digit c then read_digits (v * 10 + (c - 48)) cs else v

unfoldable pub starts_with_digit : List ℕ → Bool
starts_with_digit [] = false
starts_with_digit (c ∷ cs) = is_digit c

unfoldable pub read_positive : List ℕ → Option ℤ
unfolding read_digits starts_with_digit
read_positive cs =
    let v = read_digits 0 cs in
    if starts_with_digit cs && ltb v (2 ^ 63) then some (pos v) else none

unfoldable pub read_negative : List ℕ → Option ℤ
unfolding read_digits starts_with_digit
read_negative cs =
    let v = read_digits 0 cs in
    if starts_with_digit cs && leb v (2 ^ 63)
    then some (if v == 0 then pos 0 else negsuc (v - 1))
    else none

unfoldable pub read_signed : List ℕ → Option ℤ
unfolding read_positive read_negative
read_signed [] = none
read_signed (c ∷ cs) =
    if c == b'-'
    then read_negative cs
    else if c == b'+'
    then read_positive cs
    else read_positive (c ∷ cs)

-- std::stoll; `none` is std::invalid_argument or std::out_of_range.
unfoldable pub stoll : List ℕ → Option ℤ
unfolding skip_spaces read_signed
stoll s = read_signed (skip_spaces s)

unfoldable pub cursor_to_int : List ℕ → ℤ
unfolding stoll
cursor_to_int [] = pos 0
cursor_to_int (c ∷ cs) = elim (stoll (c ∷ cs)) [ none ↦ pos 0 | some v ↦ v ]

read_digits-digits_before :
    (f n : ℕ) (rest : List ℕ) → n < f → read_digits 0 (digits_before f n rest) ≡ read_digits n rest
unfolding read_digits digits_before
read_digits-digits_before zero n rest h = absurd (omega arith)
read_digits-digits_before (suc f) n rest h =
    ground (arith, read_digits-digits_before f (n / 10) ((48 + n % 10) ∷ rest))

record StartsWithDigit (s : List ℕ) : Type 0 where
  first : ℕ
  others : List ℕ
  shape : s ≡ first ∷ others
  low : 48 ≤ first
  high : first ≤ 57

digits_before-StartsWithDigit :
    (f n : ℕ) (rest : List ℕ) → n < f → StartsWithDigit (digits_before f n rest)
unfolding digits_before
digits_before-StartsWithDigit zero n rest h = absurd (omega arith)
digits_before-StartsWithDigit (suc f) n rest h = elim (Bool-cases (ltb n 10)) [
  | inl small ↦ rw small (record {
    first = 48 + n;
    others = rest;
    shape = refl;
    low = omega arith;
    high = ground arith;
  })
  | inr large ↦
      rw large (digits_before-StartsWithDigit f (n / 10) ((48 + n % 10) ∷ rest) (ground arith))
]

cursor_to_int_digit :
    (c : ℕ) (cs : List ℕ)
    → 48 ≤ c
    → c ≤ 57
    → read_digits 0 (c ∷ cs) < 2 ^ 63
    → cursor_to_int (c ∷ cs) ≡ pos (read_digits 0 (c ∷ cs))
unfolding cursor_to_int
cursor_to_int_digit c cs low high small = ground arith

cursor_to_int_of_digits :
    (s : List ℕ) (n : ℕ)
    → StartsWithDigit s
    → read_digits 0 s ≡ n
    → n < 2 ^ 63
    → cursor_to_int s ≡ pos n
cursor_to_int_of_digits [] n d e h = absurd (ground (arith, d.shape))
cursor_to_int_of_digits (c ∷ cs) n d e h =
    cursor_to_int_digit c cs (ground (arith, d.shape, d.low)) (ground (arith, d.shape, d.high))
      (omega arith)
    ∙ ap pos e

-- A row id that is printed as a cursor is read back unchanged, up to the largest `int64_t`.
pub cursor_to_int-to_string : (n : ℕ) → n < 2 ^ 63 → cursor_to_int (to_string n) ≡ pos n
unfolding to_string
cursor_to_int-to_string n h =
    cursor_to_int_of_digits (digits_before (suc n) n []) n
      (digits_before-StartsWithDigit (suc n) n [] (omega arith))
      (unfold read_digits in read_digits-digits_before (suc n) n [] (omega arith)) h

-- A printed number is never the empty string, which stands for "no cursor".
pub to_string-IsNonempty : (n : ℕ) → is_empty (to_string n) ≡ false
unfolding to_string
to_string-IsNonempty n =
    ground (arith, (digits_before-StartsWithDigit (suc n) n [] (omega arith)).shape)
