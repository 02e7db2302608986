-- ===== src/Family/Distinct.antt =====
-- What `enforce_cross_family` accepts and what it reports.
use loker.Prelude.{
  ℕ, suc, ◌+◌, ◌≤◌, ◌<◌, ◌≡◌, refl, sym, ap, subst, ◌∙◌, false, Option, none, some, List, [], ◌∷◌,
  map, ltb, if_ind, unwrap_or, Result, ok, err, arith, In, here, there, All,
}
use loker.Prelude.Text.{Text}
use loker.Prelude.Sorted.{
  less, by_ordering, by_ordering_ind, update, lookup, IsSorted, update-IsSorted, lookup-update,
  lookup-update-other, lookup-In, In-lookup, by_ordering-adds,
}
use loker.Family.{
  Family, family_of, PhaseError, family_overlap, compare_family, family_ord, add_one,
  count_families, first_overlap, enforce_cross_family,
}

-- How often a family stands in a list.
unfoldable pub occurs : Family → List Family → ℕ
occurs f [] = 0
occurs f (g ∷ gs) = let rest = occurs f gs in by_ordering (compare_family f g) rest (suc rest) rest

-- No family stands twice in the list.
abbrev pub Distinct : List Family → Type 0
Distinct [] = Unit
Distinct (f ∷ fs) = ¬ In f fs × Distinct fs

occurs-In : (f : Family) (fs : List Family) → In f fs → 0 < occurs f fs
unfolding occurs
occurs-In f [] p = elim p [ ]
occurs-In f (g ∷ fs) here = rw (family_ord.compare_refl f) (omega arith)
occurs-In f (g ∷ fs) (there p) =
    let rest = occurs-In f fs p in
    by_ordering_ind (λ (n : ℕ). 0 < n) (compare_family f g) _ _ _ (λ q. rest) (λ q. omega arith)
      (λ q. rest)

occurs-Distinct : (fs : List Family) → ((f : Family) → occurs f fs ≤ 1) → Distinct fs
unfolding occurs
occurs-Distinct [] h = tt
occurs-Distinct (f ∷ fs) h = (
  λ p.
      let some_more = occurs-In f fs p in
      let twice : suc (occurs f fs) ≤ 1 =
        subst (λ o. by_ordering o (occurs f fs) (suc (occurs f fs)) (occurs f fs) ≤ 1)
          (family_ord.compare_refl f) (h f) in
      omega arith,
  occurs-Distinct fs λ g.
      let here = h g in
      by_ordering_ind (λ (n : ℕ). n ≤ 1 → occurs g fs ≤ 1) (compare_family g f) _ _ _ (λ q b. b)
        (λ q b. omega arith) (λ q b. b) here,
)

abbrev count_of : Family → List (Family × ℕ) → ℕ
count_of f m = unwrap_or (lookup family_ord f m) 0

-- One step of the count.
count_of-update :
    (f g : Family) (m : List (Family × ℕ))
    → IsSorted family_ord m
    → count_of f (update family_ord g add_one m)
      ≡ by_ordering (compare_family f g) (count_of f m) (suc (count_of f m)) (count_of f m)
count_of-update f g m s =
    by_ordering_ind (λ (n : ℕ). count_of f (update family_ord g add_one m) ≡ n) (compare_family f g)
      _ _ _ (λ q. ap (λ o. unwrap_or o 0) (lookup-update-other family_ord g f add_one m λ e. cc))
      (λ q.
        subst (λ x. count_of f (update family_ord x add_one m) ≡ suc (count_of f m))
          (family_ord.compare-equal f g q)
          (ap (λ o. unwrap_or o 0) (lookup-update family_ord f add_one m s) ∙ omega arith))
      (λ q. ap (λ o. unwrap_or o 0) (lookup-update-other family_ord g f add_one m λ e. cc))

count_families-IsSorted :
    (targets : List Text) (m : List (Family × ℕ))
    → IsSorted family_ord m
    → IsSorted family_ord (count_families m targets)
unfolding count_families
count_families-IsSorted [] m s = s
count_families-IsSorted (t ∷ targets) m s =
    count_families-IsSorted targets _ (update-IsSorted family_ord (family_of t) add_one m s)

count_families-occurs :
    (f : Family) (targets : List Text) (m : List (Family × ℕ))
    → IsSorted family_ord m
    → count_of f (count_families m targets) ≡ count_of f m + occurs f (map family_of targets)
unfolding count_families occurs
count_families-occurs f [] m s = omega arith
count_families-occurs f (t ∷ targets) m s =
    let n = count_of f m in
    let k = occurs f (map family_of targets) in
    count_families-occurs f targets _ (update-IsSorted family_ord (family_of t) add_one m s)
    ∙ (ap (λ i. i + k) (count_of-update f (family_of t) m s)
        ∙ by_ordering-adds n k (compare_family f (family_of t)))

-- What the loop over the counts finds.
data Scan (m : List (Family × ℕ)) : Result (Unit {0}) PhaseError → Type 0 where
  none_found : ((e : Family × ℕ) → In e m → e.1 ≤ 1) → Scan m (ok tt)
  found :
      (f : Family) (n : ℕ)
      → In (f, n) m
      → 1 < n
      → ((e : Family × ℕ) → In e m → compare_family e.0 f ≡ less → e.1 ≤ 1)
      → Scan m (err (family_overlap f n))

later :
    (x : Family × ℕ) (m : List (Family × ℕ)) (r : Result (Unit {0}) PhaseError)
    → ltb 1 x.1 ≡ false
    → Scan m r
    → Scan (x ∷ m) r
later x m _ small (none_found h) = none_found small_all
  where
    small_all : (e : Family × ℕ) → In e (x ∷ m) → e.1 ≤ 1
    small_all e here = ground arith
    small_all e (there p) = h e p
later x m _ small (found f n p big h) = found f n (there p) big below
  where
    below : (e : Family × ℕ) → In e (x ∷ m) → compare_family e.0 f ≡ less → e.1 ≤ 1
    below e here q = ground arith
    below e (there p') q = h e p' q

first_overlap-Scan : (m : List (Family × ℕ)) → IsSorted family_ord m → Scan m (first_overlap m)
unfolding first_overlap
first_overlap-Scan [] s = none_found λ e p. elim p [ ]
first_overlap-Scan (x ∷ m) s =
    let rest = first_overlap-Scan m s.1 in
    if_ind (Scan (x ∷ m)) (ltb 1 x.1) _ _ (λ big. found x.0 x.1 here (ground arith) below)
      (λ small. later x m _ small rest)
  where
    above :
        (n : List (Family × ℕ)) (e : Family × ℕ)
        → All (λ (e' : Family × ℕ). compare_family x.0 e'.0 ≡ less) n
        → In e n
        → compare_family x.0 e.0 ≡ less
    above [] e a p = elim p [ ]
    above (y ∷ n) e a here = a.0
    above (y ∷ n) e a (there p) = above n e a.1 p

    below : (e : Family × ℕ) → In e (x ∷ m) → compare_family e.0 x.0 ≡ less → e.1 ≤ 1
    below e here q = cc (family_ord.compare_refl x.0)
    below e (there p) q =
        cc (family_ord.compare_refl x.0, family_ord.compare_trans x.0 e.0 x.0 (above m e s.0 p) q)

-- What the test says of the families `fs`.
pub data Checked (fs : List Family) : Result (Unit {0}) PhaseError → Type 0 where
  distinct : Distinct fs → Checked fs (ok tt)
  overlap :
      (f : Family)
      → 1 < occurs f fs
      → ((g : Family) → compare_family g f ≡ less → occurs g fs ≤ 1)
      → Checked fs (err (family_overlap f (occurs f fs)))

module _ (targets : List Text) where
  abbrev families : List Family
  families = map family_of targets

  abbrev counts : List (Family × ℕ)
  counts = count_families [] targets

  counts-IsSorted : IsSorted family_ord counts
  counts-IsSorted = count_families-IsSorted targets [] tt

  counts-occurs : (f : Family) → count_of f counts ≡ occurs f families
  unfolding lookup
  counts-occurs f = count_families-occurs f targets [] tt ∙ omega arith

  -- A bound on the counts of the map bounds how often the family stands in the list.
  occurs-bound : (f : Family) → ((n : ℕ) → In (f, n) counts → n ≤ 1) → occurs f families ≤ 1
  occurs-bound f h = subst (λ n. n ≤ 1) (counts-occurs f) (go (lookup family_ord f counts) refl)
    where
      go : (o : Option ℕ) → lookup family_ord f counts ≡ o → unwrap_or o 0 ≤ 1
      go none e = omega arith
      go (some n) e = h n (In-lookup family_ord f n counts e)

  occurs-count : (f : Family) (n : ℕ) → In (f, n) counts → occurs f families ≡ n
  occurs-count f n p =
      sym (counts-occurs f)
      ∙ ap (λ o. unwrap_or o 0) (lookup-In family_ord (f, n) counts counts-IsSorted p)

  Scan-Checked : (r : Result (Unit {0}) PhaseError) → Scan counts r → Checked families r
  Scan-Checked _ (none_found h) =
      distinct (occurs-Distinct families λ f. occurs-bound f λ n p. h (f, n) p)
  Scan-Checked _ (found f n p big h) =
      subst (λ k. Checked families (err (family_overlap f k))) (occurs-count f n p)
        (overlap f (subst (λ k. 1 < k) (sym (occurs-count f n p)) big)
          λ g q. occurs-bound g λ k p'. h (g, k) p' q)

-- The test passes only when no family stands twice among the families of the backends. Else it
-- reports a family that does, with the number of its backends, and every family before it in the
-- derived order stands there once at most.
pub enforce_cross_family-Checked :
    (targets : List Text) → Checked (map family_of targets) (enforce_cross_family targets)
unfolding enforce_cross_family
enforce_cross_family-Checked targets =
    Scan-Checked targets _ (first_overlap-Scan _ (counts-IsSorted targets))
