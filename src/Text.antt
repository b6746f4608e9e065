-- ===== src/Text.antt =====
-- src/utils/string_util.cpp and the `std::string` operations that the code uses.
pub mod Decimal
pub mod Members
use Prim.Native.Char.{code}
use Prim.Native.String.{String}
use agent_memory_cpp.Prelude.{
  ℕ, suc, ◌+◌, ◌-◌, ◌≡◌, refl, sym, ap, ◌∙◌, subst, ◌↔◌, Bool, true, false, ◌&&◌, ◌||◌, List, [],
  ◌∷◌, ◌++◌, map, arith, leb, ◌==◌, ==_iff, length, if◌then◌else◌,
}

-- A `std::string` is its bytes.
abbrev pub Text : Type 0
Text = List ℕ

-- The bytes of a literal, for ASCII literals.
abbrev pub codes : String → Text
codes String.[] = []
codes (String.◌∷◌ c s) = code c ∷ codes s

unfoldable pub text_eq : Text → Text → Bool
text_eq [] [] = true
text_eq (x ∷ xs) (y ∷ ys) = x == y && text_eq xs ys
text_eq _ _ = false

pub text_eq_sound : (s t : Text) → text_eq s t ≡ true → s ≡ t
unfolding text_eq
text_eq_sound [] [] h = refl
text_eq_sound [] (y ∷ ys) h = ground arith
text_eq_sound (x ∷ xs) [] h = ground arith
text_eq_sound (x ∷ xs) (y ∷ ys) h = ground (arith, text_eq_sound xs ys)

pub text_eq_refl : (s : Text) → text_eq s s ≡ true
unfolding text_eq
text_eq_refl [] = refl
text_eq_refl (x ∷ xs) = ground (arith, text_eq_refl xs)

pub text_eq_iff : (s t : Text) → (text_eq s t ≡ true) ↔ (s ≡ t)
text_eq_iff s t = (text_eq_sound s t, λ e. subst (λ u. text_eq s u ≡ true) e (text_eq_refl s))

-- std::tolower on a byte, in the "C" locale.
unfoldable pub lower_byte : ℕ → ℕ
lower_byte c = if leb b'A' c && leb c b'Z' then c + 32 else c

unfoldable pub to_lower : Text → Text
unfolding lower_byte
to_lower [] = []
to_lower (c ∷ cs) = lower_byte c ∷ to_lower cs

unfoldable pub equals_ignore_case : Text → Text → Bool
unfolding to_lower text_eq
equals_ignore_case left right =
    if length left == length right then text_eq (to_lower left) (to_lower right) else false

-- s.rfind(t, 0) == 0
unfoldable pub starts_with : Text → Text → Bool
starts_with s [] = true
starts_with [] (t ∷ ts) = false
starts_with (c ∷ cs) (t ∷ ts) = c == t && starts_with cs ts

-- s.find(t) != npos
unfoldable pub contains : Text → Text → Bool
unfolding starts_with
contains [] t = starts_with [] t
contains (c ∷ cs) t = starts_with (c ∷ cs) t || contains cs t

-- std::find over a vector of strings.
unfoldable pub mem_text : Text → List Text → Bool
unfolding text_eq
mem_text t [] = false
mem_text t (x ∷ xs) = text_eq x t || mem_text t xs

length-to_lower : (s : Text) → length (to_lower s) ≡ length s
unfolding to_lower
length-to_lower [] = refl
length-to_lower (c ∷ cs) = ap suc (length-to_lower cs)

-- The size test of `EqualsIgnoreCase` never changes its answer, which is that the lower-case forms
-- of the two strings are equal.
pub equals_ignore_case_iff :
    (s t : Text) → (equals_ignore_case s t ≡ true) ↔ (to_lower s ≡ to_lower t)
unfolding equals_ignore_case
equals_ignore_case_iff s t = (
  (λ h. text_eq_sound (to_lower s) (to_lower t) (ground arith)),
  (λ e.
      let sizes : length s ≡ length t = sym (length-to_lower s) ∙ ap length e ∙ length-to_lower t in
      ground (arith, (text_eq_iff (to_lower s) (to_lower t)).1 e)),
)
