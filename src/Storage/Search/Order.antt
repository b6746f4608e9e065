-- ===== src/Storage/Search/Order.antt =====
-- The order and the number of the hits that `SortAndLimitSearchResults` of
-- src/storage/sqlite_store.cpp leaves.
use mathlib.Core.List.{Perm, append-nil}
use agent_memory_cpp.Prelude.{
  ℕ, zero, suc, ◌^◌, ◌≤◌, ◌<◌, ◌≡◌, refl, true, false, ◌&&◌, List, [], ◌∷◌, ◌++◌, All, arith, take,
  length, ltb, if◌then◌else◌, inl, inr, Bool-cases,
}
use agent_memory_cpp.Prelude.Int.{to_int32_small}
use agent_memory_cpp.Prelude.Distinct.{All-of}
use agent_memory_cpp.Prelude.Everywhere.{drop, take-append-drop}
use agent_memory_cpp.Prelude.Sort.{
  IsOrder, IsSortedBy, sort_by, sort_by-perm, sort_by-IsSortedBy, take-IsSortedBy,
  take-IsBefore-drop, length-sort_by,
}
use agent_memory_cpp.Text.{Text}
use agent_memory_cpp.Types.{MemorySearchHit}
use agent_memory_cpp.Storage.Search.Hits.{text_lt, ranks_before, sort_and_limit_search_results}

text_lt_asym : (s t : Text) → text_lt s t ≡ true → text_lt t s ≡ false
unfolding text_lt
text_lt_asym s [] h = ground arith
text_lt_asym [] (d ∷ ds) h = refl
text_lt_asym (c ∷ cs) (d ∷ ds) h = ground (arith, text_lt_asym cs ds)

text_lt_negtrans : (s t u : Text) → text_lt t s ≡ false → text_lt u t ≡ false → text_lt u s ≡ false
unfolding text_lt
text_lt_negtrans [] t u h k = refl
text_lt_negtrans (c ∷ cs) [] u h k = ground arith
text_lt_negtrans (c ∷ cs) (d ∷ ds) [] h k = ground arith
text_lt_negtrans (c ∷ cs) (d ∷ ds) (e ∷ es) h k = ground (arith, text_lt_negtrans cs ds es)

-- By falling score, and by rising id where the scores agree: a strict weak order, which std::sort
-- requires of its comparison.
pub ranks_before-IsOrder : IsOrder ranks_before
unfolding ranks_before
ranks_before-IsOrder = record {
  asym = λ x y h. ground (arith, text_lt_asym x.id y.id);
  negtrans = λ x y z h k. ground (arith, text_lt_negtrans x.id y.id z.id);
}

-- The first `limit` of the hits, or all of them where they are fewer.
pub record IsTop (limit : ℕ) (hits top : List MemorySearchHit) : Type 0 where
  pub sorted : IsSortedBy ranks_before top
  pub counted : length top ≡ (if ltb limit (length hits) then limit else length hits)
  pub rest : List MemorySearchHit
  pub whole : Perm (top ++ rest) hits
  pub below : All (λ x. All (λ y. ranks_before y x ≡ false) rest) top

length-take :
    (limit : ℕ) (hits : List MemorySearchHit)
    → limit ≤ length hits
    → length (take limit hits) ≡ limit
unfolding take
length-take zero hits few = refl
length-take (suc limit) [] few = absurd (omega (arith, few))
length-take (suc limit) (hit ∷ hits) few =
    omega (arith, few, length-take limit hits (omega (arith, few)))

cut :
    (limit : ℕ) (hits : List MemorySearchHit)
    → ltb limit (length hits) ≡ true
    → IsSortedBy ranks_before (sort_by ranks_before hits)
    → IsTop limit hits (take limit (sort_by ranks_before hits))
cut limit hits more ordered =
    let sorted = sort_by ranks_before hits in
    record {
      sorted = take-IsSortedBy ranks_before limit sorted ordered;
      counted =
          rw more
            (length-take limit sorted (ground (arith, more, length-sort_by ranks_before hits)));
      rest = drop limit sorted;
      whole = rw (take-append-drop limit sorted) (sort_by-perm ranks_before hits);
      below = take-IsBefore-drop ranks_before limit sorted ordered;
    }

all :
    (limit : ℕ) (hits : List MemorySearchHit)
    → ltb limit (length hits) ≡ false
    → IsSortedBy ranks_before (sort_by ranks_before hits)
    → IsTop limit hits (sort_by ranks_before hits)
all limit hits few ordered = record {
  sorted = ordered;
  counted = rw few (length-sort_by ranks_before hits);
  rest = [];
  whole = rw append-nil (sort_by-perm ranks_before hits);
  below = All-of (λ x. All (λ y. ranks_before y x ≡ false) []) _ (λ x. tt);
}

-- For fewer than 2 ^ 31 hits and a positive limit, the result is sorted by falling score and then by
-- rising id, and has exactly `limit` hits, or as many as were given where these are not more. The
-- result and a rest together are the hits that were given, each as often as it was there, and no hit
-- of that rest comes before one of the result.
pub sort_and_limit_search_results-IsTop :
    (limit : ℕ) (hits : List MemorySearchHit)
    → 0 < limit
    → length hits < 2 ^ 31
    → IsTop limit hits (sort_and_limit_search_results limit hits)
unfolding sort_and_limit_search_results
sort_and_limit_search_results-IsTop limit hits positive small =
    let ordered = sort_by-IsSortedBy ranks_before ranks_before-IsOrder hits in
    let sizes = to_int32_small (length hits) small in
    elim (Bool-cases (ltb 0 limit && ltb limit (length hits))) [
      | inl more ↦ rw sizes (rw more (cut limit hits (ground (arith, more)) ordered))
      | inr few ↦ rw sizes (rw few (all limit hits (ground (arith, few, positive)) ordered))
    ]
