-- ===== src/Family.antt =====
-- src/family.rs: the model family of a backend, and the test that the backends of a phase have
-- different ones.
pub mod Distinct
pub mod Gateway
use loker.Prelude.{
  ℕ, zero, suc, ◌+◌, ◌≡◌, refl, Option, none, some, List, [], ◌∷◌, ◌++◌, map, drop, length, ltb,
  if◌then◌else◌, unwrap_or, Result, ok, err, ◌==◌, ◌&&◌, Bool, true, arith,
}
use loker.Prelude.Text.{Text, str, text_eq, strip_prefix}
use loker.Prelude.Sorted.{Ordering, less, equal, greater, Ord, update}
use loker.Prelude.TextOrd.{compare_text, text_ord, text_eq-eq}
use loker.Prelude.Names.{text_eq_refl}

pub data Family : Type 0 where
  anthropic google open_ai zhipu local : Family
  other : Text → Family

-- `as_str`
unfoldable pub as_str : Family → Text
as_str anthropic = str "anthropic"
as_str google = str "google"
as_str open_ai = str "openai"
as_str zhipu = str "zhipu"
as_str local = str "local"
as_str (other t) = str "other"

unfoldable pub family_of_suffix : Text → Family
unfolding text_eq
family_of_suffix token =
    if text_eq token (str "openai")
    then open_ai
    else if text_eq token (str "anthropic")
    then anthropic
    else if text_eq token (str "google")
    then google
    else if text_eq token (str "gemini")
    then google
    else if text_eq token (str "zhipu")
    then zhipu
    else if text_eq token (str "local")
    then local
    else if text_eq token (str "ollama")
    then local
    else other token

-- The text behind the last `_`, if there is one: `rfind('_')` and the slice behind it.
abbrev pub after_last_underscore : Text → Option Text
after_last_underscore [] = none
after_last_underscore (c ∷ s) =
    let rest = after_last_underscore s in
    elim rest [ some t ↦ some t | none ↦ if c == b'_' then some s else none ]

-- The `match backend_id` at the end of `family_of`.
unfoldable pub family_of_name : Text → Family
unfolding text_eq
family_of_name id =
    if text_eq id (str "claude")
    then anthropic
    else if text_eq id (str "gemini")
    then google
    else if text_eq id (str "openai")
    then open_ai
    else if text_eq id (str "codex")
    then open_ai
    else if text_eq id (str "zhipu")
    then zhipu
    else if text_eq id (str "ollama")
    then local
    else other id

abbrev pub of_token : Option Text → Text → Family
of_token none id = family_of_name id
of_token (some token) id = family_of_suffix token

abbrev pub of_purpose : Option Text → Text → Family
of_purpose none id = family_of_name id
of_purpose (some suffix) id = of_token (after_last_underscore suffix) id

abbrev pub tensorzero : Text
tensorzero = str "tensorzero/"

abbrev pub through_gateway : Option Text → (Text → Family) → Family → Family
through_gateway none next here = here
through_gateway (some suffix) next here = next suffix

-- `family_of`, which calls itself behind the prefix, on fuel: each call has a shorter text.
unfoldable pub family_from : ℕ → Text → Family
family_from zero id = of_purpose (strip_prefix id (str "loker_")) id
family_from (suc fuel) id =
    through_gateway (strip_prefix id tensorzero) (λ suffix. family_from fuel suffix)
      (of_purpose (strip_prefix id (str "loker_")) id)

unfoldable pub family_of : Text → Family
family_of id = family_from (length id) id

pub data PhaseError : Type 0 where
  family_overlap : Family → (count : ℕ) → PhaseError
  aggregator_contract aggregator_rejected judge_unavailable artefact_schema_mismatch :
      Text → PhaseError
  quorum_lost : (abstains threshold : ℕ) → PhaseError

-- The derived order: by the variant, then by the text.
abbrev pub variant : Family → ℕ
variant anthropic = 0
variant google = 1
variant open_ai = 2
variant zhipu = 3
variant local = 4
variant (other t) = 5

abbrev pub payload : Family → Text
payload (other t) = t
payload _ = []

unfoldable pub compare_family : Family → Family → Ordering
compare_family a b =
    if ltb (variant a) (variant b)
    then less
    else if ltb (variant b) (variant a)
    then greater
    else compare_text (payload a) (payload b)

-- `==`, which is derived too.
unfoldable pub same_family : Family → Family → Bool
same_family a b = variant a == variant b && text_eq (payload a) (payload b)

by_parts : (a b : Family) → variant a ≡ variant b → payload a ≡ payload b → a ≡ b
by_parts anthropic anthropic v p = refl
by_parts google google v p = refl
by_parts open_ai open_ai v p = refl
by_parts zhipu zhipu v p = refl
by_parts local local v p = refl
by_parts (other s) (other t) v p = cc
by_parts _ _ v p = absurd (omega arith)

pub compare_family-equal : (a b : Family) → compare_family a b ≡ equal → a ≡ b
unfolding compare_family
compare_family-equal a b h =
    ground (arith, by_parts a b, text_ord.compare-equal (payload a) (payload b))

pub same_family-eq : (a b : Family) → same_family a b ≡ true → a ≡ b
unfolding same_family
same_family-eq a b h = ground (arith, by_parts a b, text_eq-eq (payload a) (payload b))

pub same_family_refl : (a : Family) → same_family a a ≡ true
unfolding same_family
same_family_refl a = ground (arith, text_eq_refl (payload a))

pub compare_family_refl : (a : Family) → compare_family a a ≡ equal
unfolding compare_family
compare_family_refl a = ground (arith, text_ord.compare_refl (payload a))

pub compare_family_trans :
    (a b c : Family)
    → compare_family a b ≡ less
    → compare_family b c ≡ less
    → compare_family a c ≡ less
unfolding compare_family
compare_family_trans a b c h k =
    ground (arith, text_ord.compare_trans (payload a) (payload b) (payload c))

pub compare_family_flip : (a b : Family) → compare_family a b ≡ greater → compare_family b a ≡ less
unfolding compare_family
compare_family_flip a b h = ground (arith, text_ord.compare_flip (payload a) (payload b))

abbrev pub family_ord : Ord Family
family_ord = record {
  compare = compare_family;
  compare-equal = compare_family-equal;
  compare_refl = compare_family_refl;
  compare_trans = compare_family_trans;
  compare_flip = compare_family_flip;
}

abbrev pub add_one : Option ℕ → ℕ
add_one n = unwrap_or n 0 + 1

-- The loop that counts, from the counts so far.
unfoldable pub count_families : List (Family × ℕ) → List Text → List (Family × ℕ)
unfolding family_of
count_families counts [] = counts
count_families counts (t ∷ targets) =
    count_families (update family_ord (family_of t) add_one counts) targets

-- The loop that reports the first family with more than one backend.
unfoldable pub first_overlap : List (Family × ℕ) → Result (Unit {0}) PhaseError
first_overlap [] = ok tt
first_overlap ((family, count) ∷ counts) =
    let rest = first_overlap counts in
    if ltb 1 count then err (family_overlap family count) else rest

unfoldable pub enforce_cross_family : List Text → Result (Unit {0}) PhaseError
unfolding count_families first_overlap update
enforce_cross_family targets = first_overlap (count_families [] targets)
