-- ===== src/Context/Metadata.antt =====
-- Members of the metadata of a context (src/core/context_builder.cpp).
use agent_memory_cpp.Prelude.{
  ◌≡◌, refl, ◌∙◌, true, false, List, [], ◌∷◌, some, Option, inl, inr, Bool-cases, arith, any,
}
use agent_memory_cpp.Text.{Text, text_eq, text_eq_refl, text_eq_sound}
use agent_memory_cpp.Json.{
  Json, Members, null, boolean, integer, number, string, array, no_members, member, object,
  unsigned, find_member, set_member, get_member, with_member, is_object,
}
use agent_memory_cpp.Context.Package.{MemoryContextPackage}
use agent_memory_cpp.Context.Build.{set_metadata, set_all}

find-set_same :
    (key : Text) (v : Json) (ms : Members) → find_member key (set_member key v ms) ≡ some v
unfolding find_member set_member
find-set_same key v no_members = ground (arith, text_eq_refl key)
find-set_same key v (member k w ms) = ground (arith, find-set_same key v ms)

find-set_other :
    (key other : Text) (v : Json) (ms : Members)
    → text_eq other key ≡ false
    → find_member key (set_member other v ms) ≡ find_member key ms
unfolding find_member set_member
find-set_other key other v no_members h = ground arith
find-set_other key other v (member k w ms) h = elim (Bool-cases (text_eq k other)) [
  | inr e ↦ rw e (ground (arith, find-set_other key other v ms))
  | inl e ↦ rw e (rw (text_eq_sound k other e) (rw h refl))
]

-- The metadata of a context is an object, and what it has under a key.
pub record Says (key : Text) (value : Option Json) (context : MemoryContextPackage) : Type 0 where
  pub shape : is_object context.metadata ≡ true
  pub says : get_member key context.metadata ≡ value

set_member-Says :
    (key : Text) (value j : Json)
    → is_object j ≡ true
    → (is_object (with_member key value j) ≡ true)
      × (get_member key (with_member key value j) ≡ some value)
set_member-Says key value (object ms) h = (refl, find-set_same key value ms)
set_member-Says key value null h = absurd (ground arith)
set_member-Says key value (boolean b) h = absurd (ground arith)
set_member-Says key value (integer i) h = absurd (ground arith)
set_member-Says key value (unsigned n) h = absurd (ground arith)
set_member-Says key value (number f) h = absurd (ground arith)
set_member-Says key value (string s) h = absurd (ground arith)
set_member-Says key value (array xs) h = absurd (ground arith)

set_member_other :
    (key other : Text) (v j : Json)
    → text_eq other key ≡ false
    → (is_object (with_member other v j) ≡ is_object j)
      × (get_member key (with_member other v j) ≡ get_member key j)
set_member_other key other v (object ms) h = (refl, find-set_other key other v ms h)
set_member_other key other v null h = (refl, refl)
set_member_other key other v (boolean b) h = (refl, refl)
set_member_other key other v (integer i) h = (refl, refl)
set_member_other key other v (unsigned n) h = (refl, refl)
set_member_other key other v (number f) h = (refl, refl)
set_member_other key other v (string s) h = (refl, refl)
set_member_other key other v (array xs) h = (refl, refl)

module _ (key : Text) where
  pub Says-now :
      (value : Json) (context : MemoryContextPackage)
      → is_object context.metadata ≡ true
      → Says key (some value) (set_metadata key value context)
  unfolding set_metadata
  Says-now value context h =
      let set = set_member-Says key value context.metadata h in
      record { shape = set.0; says = set.1 }

  pub Says-still :
      (value : Option Json) (other : Text) (v : Json) (context : MemoryContextPackage)
      → text_eq other key ≡ false
      → Says key value context
      → Says key value (set_metadata other v context)
  unfolding set_metadata
  Says-still value other v context h said =
      let kept = set_member_other key other v context.metadata h in
      record { shape = kept.0 ∙ said.shape; says = kept.1 ∙ said.says }

  pub Says-after_all :
      (value : Option Json) (members : List (Text × Json)) (context : MemoryContextPackage)
      → any (λ (m : Text × Json). text_eq m.0 key) members ≡ false
      → Says key value context
      → Says key value (set_all members context)
  unfolding set_all any
  Says-after_all value [] context h said = said
  Says-after_all value ((k, v) ∷ members) context h said =
      Says-after_all value members _ (ground arith)
        (Says-still value k v context (ground arith) said)
