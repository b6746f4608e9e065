-- ===== src/Prelude/State.antt =====
-- Methods that change an object: an action takes the state and returns its result and the new state.

abbrev pub Action {ℓ} : Type ℓ → Type ℓ → Type ℓ
Action S A = S → A × S

abbrev pub pure {ℓ} : {S A : Type ℓ} → A → Action S A
pure a s = (a, s)

infixl 5 ◌>>=◌ ◌>>◌
abbrev pub ◌>>=◌ {ℓ} : {S A B : Type ℓ} → Action S A → (A → Action S B) → Action S B
◌>>=◌ m f s = let (a, t) = m s in f a t

abbrev pub ◌>>◌ {ℓ} : {S A B : Type ℓ} → Action S A → Action S B → Action S B
m >> n = m >>= λ _. n
