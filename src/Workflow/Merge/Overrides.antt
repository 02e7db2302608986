-- ===== src/Workflow/Merge/Overrides.antt =====
-- Which steps a merged workflow has.
use loker.Workflow.Merge.Places.{
  index_of-some, index_of-none, set_at-names, find_step-set_at, find_step-snoc, get_elem-left,
  find_step-none, names-snoc,
}
use loker.Prelude.{
  ℕ, ◌≡◌, refl, sym, ap, subst, ◌∙◌, true, Option, none, some, List, [], ◌∷◌, ◌++◌, if◌then◌else◌,
  Bool-cases, inl, inr, or_else, get_elem?, append-nil, append_assoc, In, here, there, arith,
}
use loker.Prelude.Text.{Text, text_eq}
use loker.Prelude.TextOrd.{text_eq-eq}
use loker.Prelude.Names.{NoDup, NoDup-snoc, In-append, In-one}
use loker.Workflow.{Step, Workflow, find_step, step_names}
use loker.Workflow.Merge.{index_of, put_step, merge_steps, merge_workflows}

abbrev pub cons_new : Option ℕ → Text → List Text → List Text
cons_new (some pos) n ns = ns
cons_new none n ns = n ∷ ns

-- The names of the child's steps that the parent has none of.
unfoldable pub new_names : (parents children : List Step) → List Text
new_names parents [] = []
new_names parents (c ∷ children) =
    cons_new (index_of 0 c.name parents) c.name (new_names parents children)

module _ (parents : List Step) where
  -- What the loop over the child's steps keeps: the parent's names in their places, then new ones.
  record Merging (merged : List Step) (added : List Text) : Type 0 where
    names : step_names merged ≡ step_names parents ++ added
    different : NoDup (step_names merged)

  -- One step of the child: its place, and what is found after it.
  record Put (c : Step) (merged : List Step) (added : List Text) (merged' : List Step)
      : Type 0 where
    more : List Text
    merging : Merging merged' (added ++ more)
    only : (n : Text) → In n more → n ≡ c.name
    new : (ns : List Text) → more ++ ns ≡ cons_new (index_of 0 c.name parents) c.name ns
    finds :
        (m : Text) → find_step m merged' ≡ (if text_eq c.name m then some c else find_step m merged)

  put_step-Put :
      (c : Step) (merged : List Step) (added : List Text)
      → Merging merged added
      → ¬ In c.name added
      → Put c merged added (put_step (index_of 0 c.name parents) c merged)
  put_step-Put c merged added h fresh = go (index_of 0 c.name parents) refl
    where
      go : (o : Option ℕ) → index_of 0 c.name parents ≡ o → Put c merged added (put_step o c merged)
      go (some pos) e =
          let (k, same, at) = index_of-some 0 pos c.name parents e in
          let placed : get_elem? (step_names merged) pos ≡ some c.name =
            subst (λ l. get_elem? l pos ≡ some c.name) (sym h.names)
              (get_elem-left (step_names parents) added pos c.name (
                subst (λ j. get_elem? (step_names parents) j ≡ some c.name) (omega (arith, same))
                  at)) in
          let kept = set_at-names pos c merged placed in
          record {
            more = [];
            merging = record {
              names = kept ∙ h.names ∙ ap (λ l. step_names parents ++ l) (sym (append-nil added));
              different = subst NoDup (sym kept) h.different;
            };
            only = λ n p. elim p [ ];
            new = λ ns. rw e refl;
            finds = λ m. find_step-set_at m pos c merged placed h.different;
          }
      go none e = record {
        more = c.name ∷ [];
        merging = record {
          names =
              names-snoc merged c
              ∙ rw h.names (append_assoc (step_names parents) added (c.name ∷ []));
          different =
              subst NoDup (sym (names-snoc merged c))
                (NoDup-snoc (step_names merged) c.name h.different unknown);
        };
        only = λ n p. In-one n c.name p;
        new = λ ns. rw e refl;
        finds = λ m. find_step-snoc m c merged unknown;
      }
        where
          unknown : ¬ In c.name (step_names merged)
          unknown p = elim (In-append (step_names parents) added (subst (In c.name) h.names p)) [
            | inl q ↦ index_of-none 0 c.name parents e q
            | inr q ↦ fresh q
          ]

  record Merged (children merged : List Step) (added : List Text) (all : List Step) : Type 0 where
    names : step_names all ≡ step_names parents ++ (added ++ new_names parents children)
    finds : (m : Text) → find_step m all ≡ or_else (find_step m children) (find_step m merged)

  merge_steps-Merged :
      (children merged : List Step) (added : List Text)
      → Merging merged added
      → NoDup (step_names children)
      → ((n : Text) → In n (step_names children) → ¬ In n added)
      → Merged children merged added (merge_steps parents children merged)
  unfolding merge_steps new_names find_step
  merge_steps-Merged [] merged added h different fresh = record {
    names = h.names ∙ ap (λ l. step_names parents ++ l) (sym (append-nil added));
    finds = λ m. refl;
  }
  merge_steps-Merged (c ∷ children) merged added h different fresh =
      let put = put_step-Put c merged added h (fresh c.name here) in
      let rest =
        merge_steps-Merged children (put_step (index_of 0 c.name parents) c merged)
          (added ++ put.more) put.merging different.1
          (λ n p q. elim (In-append added put.more q) [
            | inl i ↦ fresh n (there p) i
            | inr i ↦ different.0 (subst (λ x. In x (step_names children)) (put.only n i) p)
          ]) in
      record {
        names =
            rest.names
            ∙ ap (λ l. step_names parents ++ l)
                (append_assoc added put.more (new_names parents children)
                  ∙ ap (λ l. added ++ l) (put.new (new_names parents children)));
        finds = λ m. rest.finds m ∙ rw (put.finds m) (first m (find_step m merged));
      }
    where
      nowhere : (m : Text) → text_eq c.name m ≡ true → find_step m children ≡ none
      nowhere m e = find_step-none m children (λ p.
          different.0 (subst (λ x. In x (step_names children)) (sym (text_eq-eq c.name m e)) p))

      first :
          (m : Text) (o : Option Step)
          → or_else (find_step m children) (if text_eq c.name m then some c else o)
            ≡ or_else (if text_eq c.name m then some c else find_step m children) o
      first m o = elim (Bool-cases (text_eq c.name m)) [
        | inl e ↦ rw e (rw (nowhere m e) refl)
        | inr e ↦ rw e refl
      ]

-- Where the names of the parent's steps differ from each other and so do those of the child, the
-- merged workflow has the parent's names in their places and after them the names that only the
-- child has, and under each name it has the child's step where the child has one and the parent's
-- otherwise.
pub merge_workflows-finds :
    (parent child : Workflow)
    → NoDup (step_names parent.steps)
    → NoDup (step_names child.steps)
    → (step_names (merge_workflows parent child).steps
        ≡ step_names parent.steps ++ new_names parent.steps child.steps)
      × ((n : Text)
          → find_step n (merge_workflows parent child).steps
            ≡ or_else (find_step n child.steps) (find_step n parent.steps))
unfolding merge_workflows
merge_workflows-finds parent child different different' =
    let all =
      merge_steps-Merged parent.steps child.steps parent.steps []
        (record { names = sym (append-nil (step_names parent.steps)); different = different })
        different' (λ n p q. elim q [ ]) in
    (all.names, all.finds)
