-- ===== src/Context/Selection.antt =====
-- Which payloads and how much long-term memory a context has (src/core/context_builder.cpp).
use agent_memory_cpp.Prelude.{
  ℕ, zero, suc, ◌+◌, ◌≤◌, ◌<◌, ◌≡◌, not, ◌&&◌, leb, length, refl, Bool, true, false, List, [], ◌∷◌,
  take, keep_if, All, arith, inl, inr, Bool-cases,
}
use agent_memory_cpp.Prelude.Distinct.{Distinct, All-mono, All-both, All-of}
use agent_memory_cpp.Prelude.Int.{ℤ, negsuc, is_nonneg, to_ℕ}
use agent_memory_cpp.Text.{Text, codes, text_eq, mem_text}
use agent_memory_cpp.Json.{metadata_int}
use agent_memory_cpp.Types.{MemoryPayloadRef}
use agent_memory_cpp.Context.{
  MemoryContextRequest, long_term_memory_limit, select_payloads, matches_payload_query,
}

abbrev pub same_uri : MemoryPayloadRef → MemoryPayloadRef → Bool
same_uri a b = text_eq a.uri b.uri

unseen_behind :
    (seen : List Text) (p q : MemoryPayloadRef)
    → mem_text q.uri seen ≡ false
    → same_uri p q ≡ false
    → mem_text q.uri (p.uri ∷ seen) ≡ false
unfolding mem_text
unseen_behind seen p q a b = ground arith

fresh_behind :
    (seen : List Text) (p : MemoryPayloadRef) (ps : List MemoryPayloadRef)
    → All (λ q. mem_text q.uri seen ≡ false) ps
    → All (λ q. same_uri p q ≡ false) ps
    → All (λ q. mem_text q.uri (p.uri ∷ seen) ≡ false) ps
fresh_behind seen p ps a b =
    All-both (λ q. mem_text q.uri seen ≡ false) (λ q. same_uri p q ≡ false)
      (λ q. mem_text q.uri (p.uri ∷ seen) ≡ false) ps (unseen_behind seen p) a b

module _ (query : List Text) (limit : ℕ) where
  select_payloads-take :
      (seen : List Text) (count k : ℕ) (payloads : List MemoryPayloadRef)
      → limit ≡ count + suc k
      → All (λ p. mem_text p.uri seen ≡ false) payloads
      → Distinct same_uri payloads
      → select_payloads query limit seen count payloads
        ≡ take (suc k) (keep_if (matches_payload_query query) payloads)
  unfolding select_payloads take keep_if
  select_payloads-take seen count k [] e fresh apart = refl
  select_payloads-take seen count zero (p ∷ ps) e fresh apart =
      let later = fresh_behind seen p ps fresh.1 apart.0 in
      let rest = select_payloads-take (p.uri ∷ seen) count zero ps e later apart.1 in
      ground (arith, fresh.0, rest)
  select_payloads-take seen count (suc k) (p ∷ ps) e fresh apart =
      let later = fresh_behind seen p ps fresh.1 apart.0 in
      let skipped = select_payloads-take (p.uri ∷ seen) count (suc k) ps e later apart.1 in
      let chosen =
        select_payloads-take (p.uri ∷ seen) (suc count) k ps (omega (arith, e)) later apart.1 in
      ground (arith, fresh.0, skipped, chosen, e)

-- Where the payloads that are loaded have different URIs and the limit is positive, the loop selects
-- the first payloads that match the query, as many as the limit allows.
pub select_payloads-Take :
    (query : List Text) (k : ℕ) (payloads : List MemoryPayloadRef)
    → Distinct same_uri payloads
    → select_payloads query (suc k) [] 0 payloads
      ≡ take (suc k) (keep_if (matches_payload_query query) payloads)
unfolding mem_text
select_payloads-Take query k payloads apart =
    select_payloads-take query (suc k) [] 0 k payloads (omega arith)
      (All-of (λ p. mem_text p.uri [] ≡ false) payloads (λ p. refl)) apart

module _ (query : List Text) (limit : ℕ) where
  abbrev IsUnseen : List Text → MemoryPayloadRef → Type 0
  IsUnseen seen p = (mem_text p.uri seen ≡ false) × (matches_payload_query query p ≡ true)

  -- The payloads match, none was seen before, no two have one URI, and there is room for them.
  pub record Selected (seen : List Text) (count : ℕ) (result : List MemoryPayloadRef) : Type 0 where
    pub unseen : All (IsUnseen seen) result
    pub apart : Distinct same_uri result
    pub bounded : count + length result ≤ limit

  -- What was not seen with one more URI was not seen without it, and has another URI.
  forget : (seen : List Text) (p q : MemoryPayloadRef) → IsUnseen (p.uri ∷ seen) q → IsUnseen seen q
  unfolding mem_text
  forget seen p q h = ground (arith, h)

  other :
      (seen : List Text) (p q : MemoryPayloadRef) → IsUnseen (p.uri ∷ seen) q → same_uri p q ≡ false
  unfolding mem_text
  other seen p q h = ground (arith, h)

  skip-Selected :
      (seen : List Text) (count : ℕ) (p : MemoryPayloadRef) (rest : List MemoryPayloadRef)
      → Selected (p.uri ∷ seen) count rest
      → Selected seen count rest
  skip-Selected seen count p rest h = record {
    unseen = All-mono (IsUnseen (p.uri ∷ seen)) (IsUnseen seen) rest (forget seen p) h.unseen;
    apart = h.apart;
    bounded = h.bounded;
  }

  add-Selected :
      (seen : List Text) (count : ℕ) (p : MemoryPayloadRef) (rest : List MemoryPayloadRef)
      → IsUnseen seen p
      → Selected (p.uri ∷ seen) (suc count) rest
      → Selected seen count (p ∷ rest)
  add-Selected seen count p rest new h = record {
    unseen = (new, (skip-Selected seen (suc count) p rest h).unseen);
    apart = (
      All-mono (IsUnseen (p.uri ∷ seen)) (λ q. same_uri p q ≡ false) rest (other seen p) h.unseen,
      h.apart,
    );
    bounded = omega (arith, h.bounded);
  }

  -- Whatever is loaded, and whichever URIs are repeated in it: if there is room for a payload, those
  -- that the loop selects match the query, have URIs that were not seen before and differ, and are no
  -- more than there is room for.
  pub select_payloads-Selected :
      (seen : List Text) (count : ℕ) (payloads : List MemoryPayloadRef)
      → count < limit
      → Selected seen count (select_payloads query limit seen count payloads)
  unfolding select_payloads
  select_payloads-Selected seen count [] room = record {
    unseen = tt;
    apart = tt;
    bounded = omega (arith, room);
  }
  select_payloads-Selected seen count (p ∷ ps) room =
      elim (Bool-cases (not (mem_text p.uri seen) && matches_payload_query query p)) [
        | inr out ↦
            rw out
              (skip-Selected seen count p _ (select_payloads-Selected (p.uri ∷ seen) count ps room))
        | inl fits ↦ rw fits (elim (Bool-cases (leb limit (suc count))) [
          | inl full ↦ rw full (
              add-Selected seen count p [] (ground (arith, fits))
                (record { unseen = tt; apart = tt; bounded = omega (arith, room) }))
          | inr more ↦ rw more (
              add-Selected seen count p _ (ground (arith, fits))
                (select_payloads-Selected (p.uri ∷ seen) (suc count) ps (ground (arith, more))))
        ])
      ]

-- A limit that the request does not set itself is between 1 and 50.
pub long_term_memory_limit-Bounds :
    (default_budget : ℤ) (request : MemoryContextRequest)
    → is_nonneg (metadata_int request.metadata (codes "long_term_limit") (negsuc 0)) ≡ false
    → let limit = long_term_memory_limit default_budget request in
      (is_nonneg limit ≡ true) × (1 ≤ to_ℕ limit) × (to_ℕ limit ≤ 50)
unfolding long_term_memory_limit
long_term_memory_limit-Bounds default_budget request unset = ground (arith, unset)
