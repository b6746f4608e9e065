-- ===== src/Prelude/Result.antt =====
-- Code that throws a `std::runtime_error` with a message.
use agent_memory_cpp.Prelude.{ℕ, Bool, true, false, List}

pub data Result {ℓ} (A : Type ℓ) : Type ℓ where
  ok : A → Result A
  thrown : List ℕ → Result A

-- The next step of a block, which is not reached behind a `throw`.
infixl 5 ◌>>=◌ ◌>>◌
abbrev pub ◌>>=◌ {ℓ} : {A B : Type ℓ} → Result A → (A → Result B) → Result B
thrown message >>= next = thrown message
ok value >>= next = next value

abbrev pub ◌>>◌ : {B : Type 0} → Result (Unit {0}) → Result B → Result B
step >> next = step >>= λ done. next

-- if (test) throw std::runtime_error(message);
abbrev pub throw_if : Bool → List ℕ → Result (Unit {0})
throw_if true message = thrown message
throw_if false message = ok tt
