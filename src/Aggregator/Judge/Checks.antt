-- ===== src/Aggregator/Judge/Checks.antt =====
-- What the judge's checks say: the families of the candidates, and the ballot that is read.
use loker.Prelude.{
  ℕ, ◌≡◌, refl, sym, subst, ◌&&◌, Bool, true, false, Option, none, some, List, [], ◌∷◌, if_ind,
  length, get_elem?, In, here, there, inl, inr, Result, ok, err, Bool-cases, arith,
}
use loker.Prelude.Text.{Text, trim}
use loker.Prelude.Names.{In-cons, get_elem-below}
use loker.Family.{family_of, same_family, same_family-eq, same_family_refl, as_str}
use loker.Aggregator.{BranchSuccess}
use loker.Aggregator.Verdict.{Json, strip_markdown_fences}
use loker.Aggregator.Judge.{
  LlmJudgeError, backend_not_found, family_overlap, check_candidates, clamp_chosen_index,
  parse_ballot, chosen, out_of_range, value_of, ballot_of, ballot_in,
}

-- A candidate is of the judge's family.
abbrev pub Overlaps : Text → BranchSuccess → Type 0
Overlaps judge c = family_of c.backend_id ≡ family_of judge

-- The index is always that of a candidate.
pub clamp-some :
    (c : BranchSuccess) (candidates : List BranchSuccess) (chosen : ℕ)
    → (d : BranchSuccess) × (get_elem?
          (c ∷ candidates)
          (clamp_chosen_index chosen (length (c ∷ candidates)))
        ≡ some d)
      × In d (c ∷ candidates)
clamp-some c candidates chosen =
    get_elem-below (c ∷ candidates) (clamp_chosen_index chosen (length (c ∷ candidates)))
      (ground arith)

-- An error that is neither an index out of range nor a missing backend.
abbrev pub IsOther : LlmJudgeError → Type 0
IsOther e = ¬ (e ≡ out_of_range) × ((n : Text) → ¬ (e ≡ backend_not_found n))

-- A ballot that cannot be read is a violation of the contract.
pub parse_ballot-contract :
    {V : Type 0} (json : Json V) (t : Text) (e : LlmJudgeError)
    → parse_ballot json t ≡ err e
    → IsOther e
unfolding parse_ballot
parse_ballot-contract {V} json t e h =
    in_value
      (value_of json (json.from_str (strip_markdown_fences (trim t)))
        (strip_markdown_fences (trim t)))
      h
  where
    in_fields : (i : Option ℕ) (reason : Option Text) → ballot_of json i reason ≡ err e → IsOther e
    in_fields none reason g = ((λ q. cc), λ n q. cc)
    in_fields (some i) none g = ((λ q. cc), λ n q. cc)
    in_fields (some i) (some reason) g = absurd (cc)

    in_value : (r : Result V Text) → ballot_in json r ≡ err e → IsOther e
    in_value (err m) g = ((λ q. cc), λ n q. cc)
    in_value (ok v) g = in_fields _ _ g

module _ (judge : Text) (require_different : Bool) where
  -- Where families have to differ, the judge's differs from that of every candidate.
  abbrev pub Differ : List BranchSuccess → Type 0
  Differ candidates =
      (d : BranchSuccess) → In d candidates → Overlaps judge d → require_different ≡ false

  abbrev pub Compared : List BranchSuccess → Result (Unit {0}) LlmJudgeError → Type 0
  Compared candidates (ok u) = Differ candidates
  Compared candidates (err e) =
      (c : BranchSuccess) × In c candidates
      × Overlaps judge c
      × (require_different ≡ true)
      × (e ≡ family_overlap judge c.backend_id (as_str (family_of judge)))

  pub check_candidates-Compared :
      (candidates : List BranchSuccess)
      → Compared candidates (check_candidates judge require_different candidates)
  unfolding check_candidates
  check_candidates-Compared [] = λ d p. elim p [ ]
  check_candidates-Compared (c ∷ candidates) =
      let rest = check_candidates-Compared candidates in
      if_ind (Compared (c ∷ candidates))
        (same_family (family_of c.backend_id) (family_of judge) && require_different) _ _
        (λ h. (
          c,
          here,
          same_family-eq (family_of c.backend_id) (family_of judge) (ground arith),
          ground arith,
          refl,
        ))
        (λ h. later h (check_candidates judge require_different candidates) rest)
    where
      later :
          (same_family (family_of c.backend_id) (family_of judge) && require_different) ≡ false
          → (r : Result (Unit {0}) LlmJudgeError) → Compared candidates r
          → Compared (c ∷ candidates) r
      later h (err e) (d, p, o, q, is) = (d, there p, o, q, is)
      later h (ok u) rest = λ d p o. elim (In-cons d c candidates p) [
        | inl same ↦ first (subst (λ (x : BranchSuccess). Overlaps judge x) same o)
        | inr q ↦ rest d q o
      ]
        where
          first : Overlaps judge c → require_different ≡ false
          first o = elim (Bool-cases require_different) [
            | inl e ↦ cc (
              subst (λ f. same_family f (family_of judge) ≡ true) (sym o)
                  (same_family_refl (family_of judge)),
              e,
              h,
            )
            | inr e ↦ e
          ]
