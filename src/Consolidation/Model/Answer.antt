-- ===== src/Consolidation/Model/Answer.antt =====
-- The part of a model's answer that is read (src/consolidation/llm_processor.cpp).
use agent_memory_cpp.Prelude.{
  ℕ, suc, ◌+◌, ◌-◌, ◌≡◌, refl, sym, ap, ◌∙◌, true, false, none, some, [], ◌∷◌, ◌++◌, All, length,
  length-append, ltb, ◌==◌, take, arith,
}
use agent_memory_cpp.Prelude.Everywhere.{drop}
use agent_memory_cpp.Text.{Text}
use agent_memory_cpp.Consolidation.Model.{find_byte, rfind_byte, between, clean_answer}

-- No byte of a text is this one.
abbrev pub Lacks : ℕ → Text → Type 0
Lacks c = All (λ x. (x == c) ≡ false)

find_byte-append :
    (c : ℕ) (before rest : Text)
    → Lacks c before
    → find_byte c (before ++ c ∷ rest) ≡ some (length before)
unfolding find_byte
find_byte-append c [] rest h = ground arith
find_byte-append c (x ∷ before) rest h = rw h.0 (rw (find_byte-append c before rest h.1) refl)

rfind_byte-none : (c : ℕ) (text : Text) → Lacks c text → rfind_byte c text ≡ none
unfolding rfind_byte
rfind_byte-none c [] h = refl
rfind_byte-none c (x ∷ text) h = rw (rfind_byte-none c text h.1) (rw h.0 refl)

rfind_byte-append :
    (c : ℕ) (before behind : Text)
    → Lacks c behind
    → rfind_byte c (before ++ c ∷ behind) ≡ some (length before)
unfolding rfind_byte
rfind_byte-append c [] behind h = rw (rfind_byte-none c behind h) (ground arith)
rfind_byte-append c (x ∷ before) behind h = rw (rfind_byte-append c before behind h) refl

drop-append : (xs ys : Text) → drop (length xs) (xs ++ ys) ≡ ys
drop-append [] ys = refl
drop-append (x ∷ xs) ys = drop-append xs ys

take-append : (xs : Text) (y : ℕ) (ys : Text) → take (suc (length xs)) (xs ++ y ∷ ys) ≡ xs ++ y ∷ []
unfolding take
take-append [] y ys = refl
take-append (x ∷ xs) y ys = ap (◌∷◌ x) (take-append xs y ys)

append_assoc : (xs ys zs : Text) → (xs ++ ys) ++ zs ≡ xs ++ (ys ++ zs)
append_assoc [] ys zs = refl
append_assoc (x ∷ xs) ys zs = ap (◌∷◌ x) (append_assoc xs ys zs)

-- What a model writes around its JSON object does not matter: if no opening brace stands before the
-- object and no closing one behind it, what is read of the answer is exactly the object, from brace
-- to brace.
pub clean_answer_lem :
    (before middle behind : Text)
    → Lacks b'{' before
    → Lacks b'}' behind
    → clean_answer (before ++ (b'{' ∷ (middle ++ b'}' ∷ behind))) ≡ b'{' ∷ (middle ++ b'}' ∷ [])
unfolding clean_answer
clean_answer_lem before middle behind opens closes =
    let object = b'{' ∷ middle in
    let text = before ++ (object ++ b'}' ∷ behind) in
    let start = find_byte-append b'{' before (middle ++ b'}' ∷ behind) opens in
    let end : rfind_byte b'}' text ≡ some (length before + length object) =
      ap (rfind_byte b'}') (sym (append_assoc before object (b'}' ∷ behind)))
      ∙ rfind_byte-append b'}' (before ++ object) behind closes
      ∙ ap some (length-append before object) in
    ap (λ o. between text o (rfind_byte b'}' text)) start
    ∙ ap (between text (some (length before))) end
    ∙ cut (length before) (length middle) text
    ∙ ap (take (suc (length object))) (drop-append before (object ++ b'}' ∷ behind))
    ∙ take-append object b'}' behind
  where
    cut :
        (n m : ℕ) (text : Text)
        → between text (some n) (some (n + suc m)) ≡ take (suc (suc m)) (drop n text)
    cut n m text =
        let less : ltb n (n + suc m) ≡ true = ground arith in
        let size : n + suc m - n + 1 ≡ suc (suc m) = omega arith in
        rw less (ap (λ k. take k (drop n text)) size)
