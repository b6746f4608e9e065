-- ===== src/Payload/Paths.antt =====
-- src/utils/path_util.cpp, and the `std::filesystem::path` operations that the code uses, on POSIX.
use agent_memory_cpp.Prelude.{
  ◌≡◌, refl, sym, subst, Bool, true, false, not, ◌&&◌, ◌||◌, Option, none, some, List, [], ◌∷◌,
  ◌++◌, is_empty, arith, ◌==◌, ◌↔◌, if◌then◌else◌,
}
use agent_memory_cpp.Text.{Text, codes, text_eq, text_eq_sound, text_eq_refl}
use agent_memory_cpp.Payload.Disk.{FileSystem}

unfoldable pub ends_with_slash : Text → Bool
ends_with_slash [] = false
ends_with_slash (c ∷ []) = c == b'/'
ends_with_slash (c ∷ d ∷ cs) = ends_with_slash (d ∷ cs)

-- base / name, for a relative name.
unfoldable pub join_path : Text → Text → Text
unfolding ends_with_slash
join_path base name =
    if is_empty base || ends_with_slash base then base ++ name else base ++ b'/' ∷ name

-- The names in the rest of a path: behind the part `word` of one, or behind a separator.
unfoldable pub names_from : Bool → Text → Text → List Text
names_from true word [] = [] ∷ []
names_from false word [] = word ∷ []
names_from true word (c ∷ cs) = elim (c == b'/') [
  | true ↦ names_from true [] cs
  | false ↦ names_from false (c ∷ []) cs
]
names_from false word (c ∷ cs) = elim (c == b'/') [
  | true ↦ word ∷ names_from true [] cs
  | false ↦ names_from false (word ++ c ∷ []) cs
]

unfoldable pub first_names : Text → List Text
unfolding names_from
first_names [] = []
first_names (c ∷ cs) = if c == b'/' then first_names cs else names_from false (c ∷ []) cs

-- The elements that a path's iterator gives: the root, and the names.
unfoldable pub components : Text → List Text
unfolding first_names names_from
components [] = []
components (c ∷ cs) = if c == b'/' then codes "/" ∷ first_names cs else names_from false (c ∷ []) cs

-- `operator==` of paths, which compares their elements.
unfoldable pub same_names : List Text → List Text → Bool
unfolding text_eq
same_names [] [] = true
same_names (x ∷ xs) (y ∷ ys) = text_eq x y && same_names xs ys
same_names _ _ = false

-- The loop of `IsPathInsideDirectory` and the test behind it.
unfoldable pub starts_with_names : List Text → List Text → Bool
unfolding text_eq
starts_with_names [] path = true
starts_with_names (d ∷ directory) [] = false
starts_with_names (d ∷ directory) (p ∷ path) = text_eq d p && starts_with_names directory path

abbrev pub is_inside : List Text → List Text → Bool
is_inside path directory = not (same_names path directory) && starts_with_names directory path

abbrev pub inside_directory : List Text → Option Text → Bool
inside_directory path none = false
inside_directory path (some directory) = is_inside path (components directory)

abbrev pub inside : FileSystem → Text → Option Text → Bool
inside system directory none = false
inside system directory (some path) =
    inside_directory (components path) (system.weakly_canonical directory)

unfoldable pub is_path_inside_directory : FileSystem → Text → Text → Bool
unfolding components same_names starts_with_names
is_path_inside_directory system path directory =
    inside system directory (system.weakly_canonical path)

-- `CanonicalPath`: the empty text where the path cannot be resolved.
unfoldable pub canonical_path : FileSystem → Text → Text
canonical_path system path = elim (system.weakly_canonical path) [ none ↦ [] | some name ↦ name ]

-- A path below a directory: its elements are those of the directory and at least one more.
pub record IsBelow (directory path : List Text) : Type 0 where
  pub name : Text
  pub others : List Text
  pub shape : path ≡ directory ++ name ∷ others

same_names_refl : (xs : List Text) → same_names xs xs ≡ true
unfolding same_names
same_names_refl [] = refl
same_names_refl (x ∷ xs) = ground (arith, text_eq_refl x, same_names_refl xs)

pub is_inside_sound :
    (path directory : List Text) → is_inside path directory ≡ true → IsBelow directory path
unfolding same_names starts_with_names
is_inside_sound [] [] h = absurd (ground arith)
is_inside_sound [] (d ∷ directory) h = absurd (ground arith)
is_inside_sound (p ∷ path) [] h = record { name = p; others = path; shape = refl }
is_inside_sound (p ∷ path) (d ∷ directory) h =
    let same : d ≡ p = text_eq_sound d p (ground arith) in
    let rest = is_inside_sound path directory (inner p d path directory same h) in
    record { name = rest.name; others = rest.others; shape = cons_eq (sym same) rest.shape }
  where
    cons_eq : {x y : Text} {xs ys : List Text} → x ≡ y → xs ≡ ys → x ∷ xs ≡ y ∷ ys
    cons_eq e f = cc

    inner :
        (p d : Text) (path directory : List Text)
        → d ≡ p
        → is_inside (p ∷ path) (d ∷ directory) ≡ true
        → is_inside path directory ≡ true
    inner p d path directory same h =
        ground (arith, subst (λ x. text_eq p x ≡ true) (sym same) (text_eq_refl p))

pub is_inside_complete :
    (directory : List Text) (name : Text) (others : List Text)
    → is_inside (directory ++ name ∷ others) directory ≡ true
unfolding same_names starts_with_names
is_inside_complete [] name others = refl
is_inside_complete (d ∷ directory) name others =
    ground (arith, text_eq_refl d, is_inside_complete directory name others)

-- The loop accepts a path where and only where the elements of its resolved name are those of the
-- resolved directory and at least one more.
pub is_path_inside_directory_iff :
    (system : FileSystem) (path directory resolved below : Text)
    → system.weakly_canonical path ≡ some below
    → system.weakly_canonical directory ≡ some resolved
    → (is_path_inside_directory system path directory ≡ true)
      ↔ IsBelow (components resolved) (components below)
unfolding is_path_inside_directory
is_path_inside_directory_iff system path directory resolved below p d =
    rw (p, d)
      (
        is_inside_sound (components below) (components resolved),
        (λ b.
            subst (λ x. is_inside x (components resolved) ≡ true) (sym b.shape)
              (is_inside_complete (components resolved) b.name b.others)),
      )
