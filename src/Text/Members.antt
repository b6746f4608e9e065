-- ===== src/Text/Members.antt =====
-- Strings in a vector of strings.
use agent_memory_cpp.Prelude.{◌≡◌, false, ◌||◌, List, [], ◌∷◌, ◌++◌, All, arith}
use agent_memory_cpp.Text.{Text, text_eq, mem_text}

pub mem_text-append :
    (t : Text) (xs : List Text) (x : Text)
    → mem_text t (xs ++ x ∷ []) ≡ (mem_text t xs || text_eq x t)
unfolding mem_text
mem_text-append t [] x = ground arith
mem_text-append t (y ∷ xs) x = ground (arith, mem_text-append t xs x)

pub mem_text-false :
    (t : Text) (xs : List Text) → mem_text t xs ≡ false → All (λ x. text_eq x t ≡ false) xs
unfolding mem_text
mem_text-false t [] h = tt
mem_text-false t (x ∷ xs) h = ground (arith, mem_text-false t xs)
