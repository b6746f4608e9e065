-- ===== src/Storage/Search/Query.antt =====
-- `Fts5EscapeQuery` of src/storage/sqlite_store.cpp: the part of a query that is given to MATCH.
use agent_memory_cpp.Prelude.{
  is_empty-eq, ℕ, ◌≡◌, refl, sym, ◌∙◌, Bool, true, false, ◌&&◌, ◌||◌, [], ◌∷◌, ◌++◌, All, arith,
  is_empty, leb, ◌==◌, if◌then◌else◌, keep_if, inl, inr, Bool-cases,
}
use agent_memory_cpp.Text.{Text}
use agent_memory_cpp.Text.Decimal.{is_digit, is_space}

-- std::isalnum on a byte, in the "C" locale.
abbrev pub is_alnum : ℕ → Bool
is_alnum c = is_digit c || (leb b'A' c && leb c b'Z') || (leb b'a' c && leb c b'z')

abbrev pub is_kept : ℕ → Bool
is_kept c = is_alnum c || c == b'_' || is_space c || leb 128 c

-- The last byte of what was kept is one that a `*` may follow.
unfoldable pub takes_star : Text → Bool
takes_star [] = false
takes_star (c ∷ []) = is_alnum c || c == b'_'
takes_star (c ∷ d ∷ cs) = takes_star (d ∷ cs)

-- One round of the first loop.
unfoldable pub escape_byte : Text → ℕ → Text
unfolding takes_star
escape_byte escaped c =
    if is_kept c
    then escaped ++ c ∷ []
    else if c == b'*' && takes_star escaped
    then escaped ++ c ∷ []
    else escaped

unfoldable pub escape_from : Text → Text → Text
unfolding escape_byte
escape_from escaped [] = escaped
escape_from escaped (c ∷ cs) = escape_from (escape_byte escaped c) cs

abbrev is_kept_again : ℕ → Bool
is_kept_again c = is_alnum c || c == b'_' || c == b' '

unfoldable pub fts5_escape_query : Text → Text
unfolding escape_from keep_if
fts5_escape_query query =
    let escaped = escape_from [] query in
    if is_empty escaped then keep_if is_kept_again query else escaped

-- What a query that is given to MATCH may hold: letters, digits, `_`, white space and bytes of other
-- characters, and a `*` only behind a letter, a digit or `_`.
abbrev pub IsPlain : ℕ → Text → Type 0
IsPlain last [] = Unit
IsPlain last (c ∷ cs) =
    ((is_kept c || (c == b'*' && (is_alnum last || last == b'_'))) ≡ true) × IsPlain c cs

last_byte : ℕ → Text → ℕ
last_byte last [] = last
last_byte last (c ∷ cs) = last_byte c cs

IsPlain-append :
    (last : ℕ) (s : Text) (c : ℕ)
    → IsPlain last s
    → (is_kept c || (c == b'*' && (is_alnum (last_byte last s) || last_byte last s == b'_'))) ≡ true
    → IsPlain last (s ++ c ∷ [])
unfolding last_byte
IsPlain-append last [] c h k = (k, tt)
IsPlain-append last (d ∷ s) c h k = (h.0, IsPlain-append d s c h.1 k)

takes_star-last_byte :
    (last : ℕ) (s : Text)
    → takes_star s ≡ true
    → (is_alnum (last_byte last s) || last_byte last s == b'_') ≡ true
unfolding last_byte takes_star
takes_star-last_byte last [] h = ground arith
takes_star-last_byte last (c ∷ []) h = h
takes_star-last_byte last (c ∷ d ∷ cs) h = takes_star-last_byte c (d ∷ cs) h

first_of_two : (a b : Bool) → a ≡ true → (a || b) ≡ true
first_of_two a b h = ground arith

second_of_two : (a b c d : Bool) → (b && c) ≡ true → (c ≡ true → d ≡ true) → (a || (b && d)) ≡ true
second_of_two a true true d h k = ground (arith, k refl)
second_of_two a true false d h k = ground arith
second_of_two a false c d h k = ground arith

escape_byte-IsPlain : (s : Text) (c : ℕ) → IsPlain 0 s → IsPlain 0 (escape_byte s c)
unfolding escape_byte
escape_byte-IsPlain s c h = elim (Bool-cases (is_kept c)) [
  | inl kept ↦ rw kept (IsPlain-append 0 s c h (first_of_two _ _ kept))
  | inr other ↦ rw other (elim (Bool-cases (c == b'*' && takes_star s)) [
    | inl star ↦
        rw star (IsPlain-append 0 s c h (second_of_two _ _ _ _ star (takes_star-last_byte 0 s)))
    | inr none ↦ rw none h
  ])
]

escape_from-IsPlain : (s q : Text) → IsPlain 0 s → IsPlain 0 (escape_from s q)
unfolding escape_from
escape_from-IsPlain s [] h = h
escape_from-IsPlain s (c ∷ cs) h =
    escape_from-IsPlain (escape_byte s c) cs (escape_byte-IsPlain s c h)

append_nonempty : (s : Text) (c : ℕ) → is_empty (s ++ c ∷ []) ≡ false
append_nonempty [] c = refl
append_nonempty (d ∷ s) c = refl

escape_byte_empty :
    (s : Text) (c : ℕ)
    → is_empty (escape_byte s c) ≡ true
    → (is_empty s ≡ true) × (is_kept c ≡ false)
unfolding escape_byte
escape_byte_empty s c h = elim (Bool-cases (is_kept c)) [
  | inl kept ↦ ground (arith, append_nonempty s c)
  | inr other ↦ (ground (arith, append_nonempty s c), other)
]

-- The first loop keeps a byte wherever the second would.
escape_from_empty :
    (s q : Text)
    → is_empty (escape_from s q) ≡ true
    → (is_empty s ≡ true) × All (λ c. is_kept c ≡ false) q
unfolding escape_from
escape_from_empty s [] h = (h, tt)
escape_from_empty s (c ∷ cs) h =
    let rest = escape_from_empty (escape_byte s c) cs h in
    let here = escape_byte_empty s c rest.0 in (here.0, (here.1, rest.1))

keep_if_none : (q : Text) → All (λ c. is_kept c ≡ false) q → keep_if is_kept_again q ≡ []
unfolding keep_if
keep_if_none [] h = refl
keep_if_none (c ∷ cs) h = ground (arith, h.0, keep_if_none cs h.1)

-- The second loop of `Fts5EscapeQuery`, which runs where the first has kept nothing, keeps nothing
-- either: the result is always that of the first loop.
pub fts5_escape_query_first : (query : Text) → fts5_escape_query query ≡ escape_from [] query
unfolding fts5_escape_query
fts5_escape_query_first query = elim (Bool-cases (is_empty (escape_from [] query))) [
  | inr some ↦ rw some
  | inl none ↦ rw none (
      keep_if_none query (escape_from_empty [] query none).1
      ∙ sym (is_empty-eq (escape_from [] query) none))
]

-- What is given to MATCH holds only letters, digits, `_`, white space and bytes above 127, and `*`
-- only directly behind a letter, a digit or `_`: no quote, bracket, colon, minus or other operator
-- character of the query language reaches it.
pub fts5_escape_query-IsPlain : (query : Text) → IsPlain 0 (fts5_escape_query query)
fts5_escape_query-IsPlain query =
    rw (fts5_escape_query_first query) (escape_from-IsPlain [] query tt)
