-- ===== src/Prelude/Sorted.antt =====
-- `BTreeMap`: an association list in the order of its keys.
use native.Mathlib.Omega.{arith}
use Prim.Native.Nat.{ℕ, suc, ◌+◌}
use mathlib.Core.Path.{◌≡◌, refl, sym, ◌∙◌, ap, subst}
use mathlib.Core.Logic.{◌≢◌}
use mathlib.Core.List.{List, [], ◌∷◌}
use mathlib.Core.Option.{Option, none, some}
use loker.Prelude.Lists.{All, In, here, there}

-- `std::cmp::Ordering`
pub data Ordering : Type 0 where
  less equal greater : Ordering

-- A total order with its comparison.
pub record Ord (K : Type 0) : Type 0 where
  pub compare : K → K → Ordering
  pub compare-equal : (a b : K) → compare a b ≡ equal → a ≡ b
  pub compare_refl : (a : K) → compare a a ≡ equal
  pub compare_trans : (a b c : K) → compare a b ≡ less → compare b c ≡ less → compare a c ≡ less
  pub compare_flip : (a b : K) → compare a b ≡ greater → compare b a ≡ less

module _ {ℓ} {A : Type ℓ} where
  -- The `match` on an ordering.
  abbrev pub by_ordering : Ordering → A → A → A → A
  by_ordering less a b c = a
  by_ordering equal a b c = b
  by_ordering greater a b c = c

  pub by_ordering_ind {κ} :
      (P : A → Type κ) (o : Ordering) (a b c : A)
      → (o ≡ less → P a)
      → (o ≡ equal → P b)
      → (o ≡ greater → P c)
      → P (by_ordering o a b c)
  by_ordering_ind P less a b c f g h = f refl
  by_ordering_ind P equal a b c f g h = g refl
  by_ordering_ind P greater a b c f g h = h refl

  by_ordering-skip : (o : Ordering) (a b : A) → o ≢ equal → by_ordering o a b a ≡ a
  by_ordering-skip less a b n = refl
  by_ordering-skip equal a b n = absurd (n refl)
  by_ordering-skip greater a b n = refl

-- One more where two keys are the same.
pub by_ordering-adds :
    (n k : ℕ) (o : Ordering) → by_ordering o n (suc n) n + k ≡ n + by_ordering o k (suc k) k
by_ordering-adds n k less = refl
by_ordering-adds n k equal = omega arith
by_ordering-adds n k greater = refl

module _ {K V : Type 0} (ord : Ord K) where
  open ord use {compare, compare-equal, compare_refl, compare_trans, compare_flip}

  -- `entry(k)`, with the value that `f` gives for the one that is there.
  unfoldable pub update : K → (Option V → V) → List (K × V) → List (K × V)
  update k f [] = (k, f none) ∷ []
  update k f (e ∷ m) =
      let rest = update k f m in
      by_ordering (compare k e.0) ((k, f none) ∷ e ∷ m) ((e.0, f (some e.1)) ∷ m) (e ∷ rest)

  -- `get(k)`
  unfoldable pub lookup : K → List (K × V) → Option V
  lookup k [] = none
  lookup k (e ∷ m) = let rest = lookup k m in by_ordering (compare k e.0) rest (some e.1) rest

  abbrev Above : K → List (K × V) → Type 0
  Above k m = All (λ (e : K × V). compare k e.0 ≡ less) m

  abbrev pub IsSorted : List (K × V) → Type 0
  IsSorted [] = Unit
  IsSorted (e ∷ m) = Above e.0 m × IsSorted m

  Above-trans : (a b : K) (m : List (K × V)) → compare a b ≡ less → Above b m → Above a m
  Above-trans a b [] h above = tt
  Above-trans a b (e ∷ m) h above = (compare_trans a b e.0 h above.0, Above-trans a b m h above.1)

  lookup-Above : (k : K) (m : List (K × V)) → Above k m → lookup k m ≡ none
  unfolding lookup
  lookup-Above k [] above = refl
  lookup-Above k (e ∷ m) above =
      ap (λ o. by_ordering o (lookup k m) (some e.1) (lookup k m)) above.0
      ∙ lookup-Above k m above.1

  update-Above :
      (a k : K) (f : Option V → V) (m : List (K × V))
      → compare a k ≡ less
      → Above a m
      → Above a (update k f m)
  unfolding update
  update-Above a k f [] h above = (h, tt)
  update-Above a k f (e ∷ m) h above =
      let rest = update-Above a k f m h above.1 in
      by_ordering_ind (λ (x : List (K × V)). Above a x) (compare k e.0) _ _ _ (λ q. (h, above))
        (λ q. above) (λ q. (above.0, rest))

  pub update-IsSorted :
      (k : K) (f : Option V → V) (m : List (K × V)) → IsSorted m → IsSorted (update k f m)
  unfolding update
  update-IsSorted k f [] s = (tt, tt)
  update-IsSorted k f (e ∷ m) s =
      let rest = update-IsSorted k f m s.1 in
      by_ordering_ind IsSorted (compare k e.0) _ _ _ (λ q. ((q, Above-trans k e.0 m q s.0), s))
        (λ q. s) (λ q. (update-Above e.0 k f m (compare_flip k e.0 q) s.0, rest))

  -- What `lookup k` reads at an entry.
  at_equal : (k : K) (v : V) (m : List (K × V)) → lookup k ((k, v) ∷ m) ≡ some v
  at_equal k v m =
      unfold lookup in ap (λ o. by_ordering o (lookup k m) (some v) (lookup k m)) (compare_refl k)

  at_other :
      (k : K) (e : K × V) (m : List (K × V)) → compare k e.0 ≢ equal → lookup k (e ∷ m) ≡ lookup k m
  at_other k e m n = unfold lookup in by_ordering-skip (compare k e.0) (lookup k m) (some e.1) n

  pub lookup-update :
      (k : K) (f : Option V → V) (m : List (K × V))
      → IsSorted m
      → lookup k (update k f m) ≡ some (f (lookup k m))
  unfolding update
  lookup-update k f [] s =
      at_equal k (f none) [] ∙ ap (λ o. some (f o)) (sym (lookup-Above k [] tt))
  lookup-update k f (e ∷ m) s =
      let rest = lookup-update k f m s.1 in
      by_ordering_ind (λ (x : List (K × V)). lookup k x ≡ some (f (lookup k (e ∷ m))))
        (compare k e.0) _ _ _
        (λ q.
          at_equal k (f none) (e ∷ m)
          ∙ ap (λ o. some (f o)) (sym (lookup-Above k (e ∷ m) (q, Above-trans k e.0 m q s.0))))
        (λ q.
          let same = compare-equal k e.0 q in
          subst (λ x. lookup k ((x, f (some e.1)) ∷ m) ≡ some (f (lookup k ((x, e.1) ∷ m)))) same
            (at_equal k _ m ∙ ap (λ o. some (f o)) (sym (at_equal k e.1 m))))
        (λ q.
          let other : compare k e.0 ≢ equal = λ p. cc in
          at_other k e _ other ∙ rest ∙ ap (λ o. some (f o)) (sym (at_other k e m other)))

  pub lookup-update-other :
      (k q : K) (f : Option V → V) (m : List (K × V))
      → compare q k ≢ equal
      → lookup q (update k f m) ≡ lookup q m
  unfolding update lookup
  lookup-update-other k q f [] n = at_other q (k, f none) [] n
  lookup-update-other k q f (e ∷ m) n =
      let rest = lookup-update-other k q f m n in
      by_ordering_ind (λ (x : List (K × V)). lookup q x ≡ lookup q (e ∷ m)) (compare k e.0) _ _ _
        (λ o. at_other q (k, f none) (e ∷ m) n)
        (λ o.
          let n' : compare q e.0 ≢ equal =
            subst (λ x. compare q x ≢ equal) (compare-equal k e.0 o) n in
          at_other q (e.0, f (some e.1)) m n' ∙ sym (at_other q e m n'))
        (λ o. ap (λ r. by_ordering (compare q e.0) r (some e.1) r) rest)

  -- The keys and values that a sorted map holds are the ones that it looks up.
  pub lookup-In : (e : K × V) (m : List (K × V)) → IsSorted m → In e m → lookup e.0 m ≡ some e.1
  lookup-In e [] s p = elim p [ ]
  lookup-In e (x ∷ m) s here = at_equal e.0 e.1 m
  lookup-In e (x ∷ m) s (there p) = at_other e.0 x m (apart m s.0 p) ∙ lookup-In e m s.1 p
    where
      apart : (n : List (K × V)) → Above x.0 n → In e n → compare e.0 x.0 ≢ equal
      apart [] above q h = elim q [ ]
      apart (y ∷ n) above here h = cc (compare_refl x.0, compare-equal e.0 x.0 h, above.0)
      apart (y ∷ n) above (there q) h = apart n above.1 q h

  pub In-lookup : (k : K) (v : V) (m : List (K × V)) → lookup k m ≡ some v → In (k, v) m
  unfolding lookup
  In-lookup k v [] h = cc
  In-lookup k v (e ∷ m) h =
      let rest = In-lookup k v m in
      by_ordering_ind (λ (x : Option V). x ≡ some v → In (k, v) (e ∷ m)) (compare k e.0) _ _ _
        (λ q p. there (rest p))
        (λ q p.
          subst (λ (x : K × V). In x (e ∷ m)) (pair_eq (compare-equal k e.0 q) (some_inj p)) here)
        (λ q p. there (rest p)) h
    where
      some_inj : some e.1 ≡ some v → e.1 ≡ v
      some_inj p = cc

      pair_eq : k ≡ e.0 → e.1 ≡ v → e ≡ (k, v)
      pair_eq p q = cc
