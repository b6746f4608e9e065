-- ===== src/Prelude/Distinct.antt =====
-- Lists in which no two elements agree: keys of tables, and facts about all elements.
use agent_memory_cpp.Prelude.{◌≡◌, Bool, false, List, [], ◌∷◌, ◌++◌, map, arith, All, any}

module _ {ℓ} {A : Type ℓ} where
  pub All-append {κ} : (P : A → Type κ) (xs ys : List A) → All P xs → All P ys → All P (xs ++ ys)
  All-append P [] ys hx hy = hy
  All-append P (x ∷ xs) ys hx hy = (hx.0, All-append P xs ys hx.1 hy)

  pub All-mono {κ μ} :
      (P : A → Type κ) (Q : A → Type μ) (xs : List A) → ((x : A) → P x → Q x) → All P xs → All Q xs
  All-mono P Q [] f h = tt
  All-mono P Q (x ∷ xs) f h = (f x h.0, All-mono P Q xs f h.1)

  pub All-of {κ} : (P : A → Type κ) (xs : List A) → ((x : A) → P x) → All P xs
  All-of P [] f = tt
  All-of P (x ∷ xs) f = (f x, All-of P xs f)

  pub All-both {κ μ ν} :
      (P : A → Type κ) (Q : A → Type μ) (R : A → Type ν) (xs : List A)
      → ((x : A) → P x → Q x → R x)
      → All P xs
      → All Q xs
      → All R xs
  All-both P Q R [] f p q = tt
  All-both P Q R (x ∷ xs) f p q = (f x p.0 q.0, All-both P Q R xs f p.1 q.1)

  pub All-map {κ} :
      (P : A → Type κ) (f : A → A) (xs : List A) → All (λ x. P (f x)) xs → All P (map f xs)
  All-map P f [] h = tt
  All-map P f (x ∷ xs) h = (h.0, All-map P f xs h.1)

  pub any-false : (p : A → Bool) (xs : List A) → any p xs ≡ false → All (λ x. p x ≡ false) xs
  unfolding any
  any-false p [] h = tt
  any-false p (x ∷ xs) h = ground (arith, any-false p xs)

  -- No element clashes with a later one.
  abbrev pub Distinct : (A → A → Bool) → List A → Type 0
  Distinct clash [] = Unit
  Distinct clash (x ∷ xs) = All (λ y. clash x y ≡ false) xs × Distinct clash xs

  pub Distinct-append :
      (clash : A → A → Bool) (xs : List A) (new : A)
      → Distinct clash xs
      → All (λ x. clash x new ≡ false) xs
      → Distinct clash (xs ++ new ∷ [])
  Distinct-append clash [] new d h = (tt, tt)
  Distinct-append clash (x ∷ xs) new d h = (
    All-append (λ y. clash x y ≡ false) xs (new ∷ []) d.0 (h.0, tt),
    Distinct-append clash xs new d.1 h.1,
  )

  -- A change of the elements that makes no two clash which did not before.
  pub Distinct-map :
      (clash : A → A → Bool) (f : A → A) (xs : List A)
      → ((x y : A) → clash x y ≡ false → clash (f x) (f y) ≡ false)
      → Distinct clash xs
      → Distinct clash (map f xs)
  Distinct-map clash f [] keep d = tt
  Distinct-map clash f (x ∷ xs) keep d = (
    All-map (λ y. clash (f x) y ≡ false) f xs
        (All-mono (λ y. clash x y ≡ false) (λ y. clash (f x) (f y) ≡ false) xs (keep x) d.0),
    Distinct-map clash f xs keep d.1,
  )

  -- A change by which some elements of one key are replaced: those that it leaves alone must not
  -- clash with what it makes of the others.
  pub Distinct-map_key :
      (Q : A → Type 0) (key clash : A → A → Bool) (f : A → A) (xs : List A)
      → ((x y : A) → key x y ≡ false → clash x y ≡ false → Q x → Q y → clash (f x) (f y) ≡ false)
      → Distinct key xs
      → Distinct clash xs
      → All Q xs
      → Distinct clash (map f xs)
  Distinct-map_key Q key clash f [] keep k d q = tt
  Distinct-map_key Q key clash f (x ∷ xs) keep k d q = (
    All-map (λ y. clash (f x) y ≡ false) f xs (go xs k.0 d.0 q.1),
    Distinct-map_key Q key clash f xs keep k.1 d.1 q.1,
  )
    where
      go :
          (ys : List A)
          → All (λ y. key x y ≡ false) ys
          → All (λ y. clash x y ≡ false) ys
          → All Q ys
          → All (λ y. clash (f x) (f y) ≡ false) ys
      go [] a b c = tt
      go (y ∷ ys) a b c = (keep x y a.0 b.0 q.0 c.0, go ys a.1 b.1 c.1)
