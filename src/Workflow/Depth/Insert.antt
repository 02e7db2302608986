-- ===== src/Workflow/Depth/Insert.antt =====
-- The depth of a step above those that it depends on, and the table with that depth in it.
use loker.Prelude.Assoc.{get, insert, get-insert}
use loker.Prelude.{
  ℕ, suc, ◌≤◌, ◌<◌, ◌≡◌, refl, sym, subst, ◌∙◌, false, none, some, List, [], ◌∷◌, ◌++◌, if_ind,
  is_nil, ltb, In, here, there, Bool-cases, inl, inr, arith,
}
use loker.Prelude.Text.{Text, text_eq}
use loker.Prelude.TextOrd.{text_eq-eq}
use loker.Prelude.Names.{text_eq_refl, mem, In-mem, In-left, In-right}
use loker.Workflow.{Step, find_step}
use loker.Workflow.Depth.{Depths, max_of, depth_over}
use loker.Workflow.Depth.Facts.{keys-insert}
use loker.Workflow.Depth.Path.{IsDepth, Extends, After, Aligned}

module _ (steps : List Step) where
  max_of-Aligned :
      (deps : List Text) (found : List ℕ) (ds : Depths) (dep : Text)
      → Aligned steps deps found ds
      → In dep deps
      → (k : ℕ) × (get dep ds ≡ some k) × (k ≤ max_of found)
  unfolding max_of
  max_of-Aligned [] found ds dep a p = elim p [ ]
  max_of-Aligned (x ∷ deps) [] ds dep a p = absurd a
  max_of-Aligned (x ∷ deps) (d ∷ found) ds dep a here = (d, a.0, ground arith)
  max_of-Aligned (x ∷ deps) (d ∷ found) ds dep a (there p) =
      let (k, e, le) = max_of-Aligned deps found ds dep a.1 p in (k, e, ground arith)

  max_of-reached :
      (x : Text) (deps : List Text) (found : List ℕ) (ds : Depths)
      → Aligned steps (x ∷ deps) found ds
      → (dep : Text) × In dep (x ∷ deps) × (get dep ds ≡ some (max_of found))
  unfolding max_of
  max_of-reached x deps [] ds a = absurd a
  max_of-reached x [] (d ∷ []) ds a = (x, here, subst (λ k. get x ds ≡ some k) (ground arith) a.0)
  max_of-reached x [] (d ∷ e ∷ found) ds a = absurd a.1
  max_of-reached x (y ∷ deps) (d ∷ found) ds a =
      let (dep, p, known) = max_of-reached y deps found ds a.1 in
      if_ind (λ (k : ℕ). (dep : Text) × In dep (x ∷ y ∷ deps) × (get dep ds ≡ some k))
        (ltb d (max_of found)) _ _ (λ h. (dep, there p, known)) (λ h. (x, here, a.0))

  pub depth_over-IsDepth :
      (s : Step) (found : List ℕ) (ds : Depths)
      → Aligned steps s.depends_on found ds
      → IsDepth steps ds s (depth_over s.depends_on found)
  depth_over-IsDepth s found ds a = record {
    above = λ dep p.
        let (k, e, le) = max_of-Aligned s.depends_on found ds dep a p in
        (k, e, under k le (some_dep dep s.depends_on p));
    reached = λ k e. last s.depends_on k e a;
  }
    where
      some_dep : (dep : Text) (deps : List Text) → In dep deps → is_nil deps ≡ false
      some_dep dep [] p = elim p [ ]
      some_dep dep (x ∷ deps) p = refl

      under :
          (k : ℕ)
          → k ≤ max_of found
          → is_nil s.depends_on ≡ false
          → k < depth_over s.depends_on found
      under k le h = ground arith

      last :
          (deps : List Text) (k : ℕ)
          → depth_over deps found ≡ suc k
          → Aligned steps deps found ds
          → (dep : Text) × In dep deps × (get dep ds ≡ some k)
      last [] k e a = absurd (omega (arith, e))
      last (x ∷ deps) k e a =
          subst (λ j. (dep : Text) × In dep (x ∷ deps) × (get dep ds ≡ some j)) (omega (arith, e))
            (max_of-reached x deps found ds a)

  IsDepth-Extends :
      (ds ds' : Depths) (s : Step) (d : ℕ)
      → Extends steps ds ds'
      → IsDepth steps ds s d
      → IsDepth steps ds' s d
  IsDepth-Extends ds ds' s d h i = record {
    above = λ dep p. let (k, e, lt) = i.above dep p in (k, h.kept dep k e, lt);
    reached = λ k e. let (dep, p, g) = i.reached k e in (dep, p, h.kept dep k g);
  }

  -- A new name goes in with its depth.
  pub After-insert :
      (visiting : List Text) (name : Text) (s : Step) (d : ℕ) (ds ds' : Depths)
      → find_step name steps ≡ some s
      → IsDepth steps ds' s d
      → mem name visiting ≡ false
      → After steps (visiting ++ (name ∷ [])) ds ds'
      → After steps visiting ds (insert name d ds') × (get name (insert name d ds') ≡ some d)
  After-insert visiting name s d ds ds' is depth fresh after = (
    record {
      is_sound = record { keys = keys-insert name d ds' after.is_sound.keys; sound = sound };
      extends = record { kept = λ n k e. grows.kept n k (after.extends.kept n k e) };
      absent = record { none_of = none_of };
    },
    get-insert name name d ds' ∙ rw (text_eq_refl name) refl,
  )
    where
      unknown : get name ds' ≡ none
      unknown = after.absent.none_of name (In-right visiting (name ∷ []) here)

      grows : Extends steps ds' (insert name d ds')
      grows = record {
        kept = λ n k e. get-insert n name d ds' ∙ elim (Bool-cases (text_eq name n)) [
          | inl h ↦ cc (text_eq-eq name n h, unknown)
          | inr h ↦ rw h e
        ];
      }

      sound :
          (n : Text) (k : ℕ)
          → get n (insert name d ds') ≡ some k
          → (t : Step) × (find_step n steps ≡ some t) × IsDepth steps (insert name d ds') t k
      sound n k e = elim (Bool-cases (text_eq name n)) [
        | inl h ↦
            let same = text_eq-eq name n h in
            let e' : some d ≡ some k = sym (rw h at (get-insert n name d ds')) ∙ e in
            (
              s,
              subst (λ x. find_step x steps ≡ some s) same is,
              subst (λ j. IsDepth steps (insert name d ds') s j) (cc)
                  (IsDepth-Extends ds' _ s d grows depth),
            )
        | inr h ↦
            let e' : get n ds' ≡ some k = sym (rw h at (get-insert n name d ds')) ∙ e in
            let (t, f, i) = after.is_sound.sound n k e' in (t, f, IsDepth-Extends ds' _ t k grows i)
      ]

      none_of : (v : Text) → In v visiting → get v (insert name d ds') ≡ none
      none_of v p = get-insert v name d ds' ∙ elim (Bool-cases (text_eq name v)) [
        | inl h ↦ cc (In-mem v visiting p, text_eq-eq name v h, fresh)
        | inr h ↦ rw h (after.absent.none_of v (In-left visiting (name ∷ []) p))
      ]
