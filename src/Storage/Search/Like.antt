-- ===== src/Storage/Search/Like.antt =====
-- `EscapeLikePattern` of src/storage/sqlite_store.cpp, and the LIKE … ESCAPE '\' of SQLite that its
-- patterns are for: `%` stands for any text, `_` for one character, and ASCII letters match whatever
-- their case. A character is taken to be a byte.
use agent_memory_cpp.Prelude.{
  ℕ, ◌≡◌, refl, ap, Bool, true, false, ◌&&◌, ◌||◌, List, [], ◌∷◌, ◌++◌, is_empty, arith, ◌==◌,
  if◌then◌else◌, All,
}
use agent_memory_cpp.Text.{Text, lower_byte, to_lower, starts_with, contains}
use agent_memory_cpp.Storage.Tables.{c_str}

unfoldable pub escape_like_pattern : Text → Text
escape_like_pattern [] = []
escape_like_pattern (c ∷ cs) =
    let rest = escape_like_pattern cs in
    if c == b'\\' || c == b'%' || c == b'_' then b'\\' ∷ c ∷ rest else c ∷ rest

-- What the bytes of a pattern stand for; an escape character at the end matches nothing.
pub data LikeToken : Type 0 where
  any_text any_byte nothing : LikeToken
  literal : ℕ → LikeToken

abbrev like_token : ℕ → LikeToken
like_token c = if c == b'%' then any_text else if c == b'_' then any_byte else literal c

-- The tokens of a pattern, behind an escape character or not.
unfoldable pub like_tokens : Bool → Text → List LikeToken
like_tokens true [] = nothing ∷ []
like_tokens true (c ∷ cs) = literal c ∷ like_tokens false cs
like_tokens false [] = []
like_tokens false (c ∷ cs) = elim (c == b'\\') [
  | true ↦ like_tokens true cs
  | false ↦ like_token c ∷ like_tokens false cs
]

-- A test of the text or of one of its ends.
unfoldable pub some_end : (Text → Bool) → Text → Bool
some_end p [] = p []
some_end p (c ∷ cs) = p (c ∷ cs) || some_end p cs

abbrev first_is : ℕ → ℕ → Bool
unfolding lower_byte
first_is c d = lower_byte c == lower_byte d

unfoldable pub match_tokens : List LikeToken → Text → Bool
unfolding some_end lower_byte
match_tokens [] s = is_empty s
match_tokens (any_text ∷ ts) s = some_end (match_tokens ts) s
match_tokens (any_byte ∷ ts) [] = false
match_tokens (any_byte ∷ ts) (c ∷ cs) = match_tokens ts cs
match_tokens (nothing ∷ ts) s = false
match_tokens (literal d ∷ ts) [] = false
match_tokens (literal d ∷ ts) (c ∷ cs) = first_is c d && match_tokens ts cs

-- text LIKE pattern ESCAPE '\'
unfoldable pub like : Text → Text → Bool
unfolding like_tokens match_tokens
like pattern text = match_tokens (like_tokens false pattern) text

-- The pattern as it is bound: "%" + EscapeLikePattern(query) + "%", up to the first NUL.
unfoldable pub search_pattern : Text → Text
unfolding escape_like_pattern c_str
search_pattern query = c_str (b'%' ∷ (escape_like_pattern query ++ b'%' ∷ []))

literals_then_any : Text → List LikeToken
literals_then_any [] = any_text ∷ []
literals_then_any (c ∷ cs) = literal c ∷ literals_then_any cs

tokens_of_escaped :
    (q : Text) → like_tokens false (escape_like_pattern q ++ b'%' ∷ []) ≡ literals_then_any q
unfolding like_tokens escape_like_pattern literals_then_any
tokens_of_escaped [] = refl
tokens_of_escaped (c ∷ cs) = ground (arith, tokens_of_escaped cs)

match-literals_then_any :
    (q s : Text) → match_tokens (literals_then_any q) s ≡ starts_with (to_lower s) (to_lower q)
unfolding match_tokens literals_then_any starts_with to_lower
match-literals_then_any [] s = any_end s
  where
    any_end : (s : Text) → some_end is_empty s ≡ true
    any_end [] = refl
    any_end (c ∷ cs) = ground (arith, any_end cs)
match-literals_then_any (d ∷ q) [] = refl
match-literals_then_any (d ∷ q) (c ∷ cs) =
    ap (λ b. first_is c d && b) (match-literals_then_any q cs)

some_end-match :
    (q s : Text)
    → some_end (match_tokens (literals_then_any q)) s ≡ contains (to_lower s) (to_lower q)
unfolding some_end contains to_lower
some_end-match q [] = match-literals_then_any q []
some_end-match q (c ∷ cs) = ground (arith, match-literals_then_any q (c ∷ cs), some_end-match q cs)

c_str_of_escaped :
    (q : Text)
    → All (λ c. (c == 0) ≡ false) q
    → c_str (escape_like_pattern q ++ b'%' ∷ []) ≡ escape_like_pattern q ++ b'%' ∷ []
unfolding c_str escape_like_pattern
c_str_of_escaped [] h = refl
c_str_of_escaped (c ∷ cs) h = ground (arith, h.0, c_str_of_escaped cs h.1)

-- For a query without NUL bytes, a text is LIKE the query's search pattern where and only where it
-- contains the query literally, up to the case of ASCII letters: the query's `%`, `_` and `\` are no
-- wildcards.
pub like-search_pattern :
    (query text : Text)
    → All (λ c. (c == 0) ≡ false) query
    → like (search_pattern query) text ≡ contains (to_lower text) (to_lower query)
unfolding like search_pattern like_tokens match_tokens
like-search_pattern query text h =
    rw (c_str_of_escaped query h, tokens_of_escaped query) (some_end-match query text)
