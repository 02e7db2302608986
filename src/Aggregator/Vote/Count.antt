-- ===== src/Aggregator/Vote/Count.antt =====
-- What the buckets count, and which texts win.
use loker.Prelude.Names.{In-cons}
use loker.Prelude.{
  ℕ, suc, ◌+◌, ◌≤◌, ◌≡◌, refl, sym, ap, subst, ◌∙◌, false, Option, none, some, List, [], ◌∷◌, ◌++◌,
  map, ltb, if_ind, unwrap_or, is_nil, length, length-append, arith, In, here, there, ◌==◌, inl,
  inr,
}
use loker.Prelude.Text.{Text}
use loker.Prelude.Sorted.{
  by_ordering, by_ordering_ind, update, lookup, IsSorted, update-IsSorted, lookup-update,
  lookup-update-other, lookup-In, In-lookup, by_ordering-adds,
}
use loker.Prelude.TextOrd.{compare_text, text_ord}
use loker.Aggregator.Vote.{
  VoteCandidate, Buckets, push_index, fill, max_votes, winners_of, bucket_of,
}

-- How many of the ballots have the text `q`.
unfoldable pub votes : Text → List Text → ℕ
votes q [] = 0
votes q (t ∷ ts) = let rest = votes q ts in by_ordering (compare_text q t) rest (suc rest) rest

abbrev pub texts : List VoteCandidate → List Text
texts candidates = map (λ (c : VoteCandidate). c.normalised) candidates

abbrev pub size : Text → Buckets → ℕ
size q buckets = length (bucket_of buckets q)

size-update :
    (q t : Text) (i : ℕ) (m : Buckets)
    → IsSorted text_ord m
    → size q (update text_ord t (push_index i) m)
      ≡ by_ordering (compare_text q t) (size q m) (suc (size q m)) (size q m)
size-update q t i m s =
    by_ordering_ind (λ (n : ℕ). size q (update text_ord t (push_index i) m) ≡ n) (compare_text q t)
      _ _ _
      (λ o.
        ap (λ x. length (unwrap_or x []))
          (lookup-update-other text_ord t q (push_index i) m λ e. cc))
      (λ o.
        subst (λ x. size q (update text_ord x (push_index i) m) ≡ suc (size q m))
          (text_ord.compare-equal q t o)
          (ap (λ x. length (unwrap_or x [])) (lookup-update text_ord q (push_index i) m s)
            ∙ one_more))
      (λ o.
        ap (λ x. length (unwrap_or x []))
          (lookup-update-other text_ord t q (push_index i) m λ e. cc))
  where
    one_more : length (bucket_of m q ++ (i ∷ [])) ≡ suc (size q m)
    one_more = omega (arith, length-append (bucket_of m q) (i ∷ []))

pub fill-IsSorted :
    (candidates : List VoteCandidate) (i : ℕ) (m : Buckets)
    → IsSorted text_ord m
    → IsSorted text_ord (fill i candidates m)
unfolding fill
fill-IsSorted [] i m s = s
fill-IsSorted (c ∷ cs) i m s =
    fill-IsSorted cs (suc i) _ (update-IsSorted text_ord c.normalised (push_index i) m s)

-- The size of a bucket is the number of the votes for its text.
fill-size :
    (q : Text) (candidates : List VoteCandidate) (i : ℕ) (m : Buckets)
    → IsSorted text_ord m
    → size q (fill i candidates m) ≡ size q m + votes q (texts candidates)
unfolding fill votes
fill-size q [] i m s = omega arith
fill-size q (c ∷ cs) i m s =
    fill-size q cs (suc i) _ (update-IsSorted text_ord c.normalised (push_index i) m s)
    ∙ (ap (λ n. n + votes q (texts cs)) (size-update q c.normalised i m s)
        ∙ by_ordering-adds (size q m) (votes q (texts cs)) (compare_text q c.normalised))

pub filled-votes :
    (q : Text) (candidates : List VoteCandidate)
    → size q (fill 0 candidates []) ≡ votes q (texts candidates)
unfolding lookup
filled-votes q candidates = fill-size q candidates 0 [] tt ∙ omega arith

max_votes-In : (e : Text × List ℕ) (m : Buckets) → In e m → length e.1 ≤ max_votes m
unfolding max_votes
max_votes-In e [] p = elim p [ ]
max_votes-In e (x ∷ m) here = ground arith
max_votes-In e (x ∷ m) (there p) = ground (arith, max_votes-In e m p)

-- No bucket is larger than the largest.
pub max_votes-size : (q : Text) (m : Buckets) → size q m ≤ max_votes m
max_votes-size q m = go (lookup text_ord q m) refl
  where
    go : (o : Option (List ℕ)) → lookup text_ord q m ≡ o → length (unwrap_or o []) ≤ max_votes m
    go none e = omega arith
    go (some is) e = max_votes-In (q, is) m (In-lookup text_ord q is m e)

winners_of-In :
    (w : Text) (n : ℕ) (m : Buckets)
    → In w (winners_of n m)
    → (is : List ℕ) × In (w, is) m × (length is ≡ n)
unfolding winners_of
winners_of-In w n [] p = elim p [ ]
winners_of-In w n (x ∷ m) p =
    let rest = winners_of-In w n m in
    let further : In w (winners_of n m) → (is : List ℕ) × In (w, is) (x ∷ m) × (length is ≡ n) =
      λ q. let (is, i, e) = rest q in (is, there i, e) in
    if_ind (λ (ts : List Text). In w ts → (is : List ℕ) × In (w, is) (x ∷ m) × (length is ≡ n))
      (length x.1 == n) _ _
      (λ h q. elim (In-cons w x.0 (winners_of n m) q) [
        | inl e ↦ (x.1, subst (λ t. In (t, x.1) (x ∷ m)) (sym e) here, ground arith)
        | inr r ↦ further r
      ])
      (λ h. further) p

-- A winner's bucket has the size that wins.
pub winners_of-size :
    (w : Text) (n : ℕ) (m : Buckets) → IsSorted text_ord m → In w (winners_of n m) → size w m ≡ n
winners_of-size w n m s p =
    let (is, i, e) = winners_of-In w n m p in
    ap (λ o. length (unwrap_or o [])) (lookup-In text_ord (w, is) m s i) ∙ e

winners_some :
    (e : Text × List ℕ) (m : Buckets) → In e m → is_nil (winners_of (length e.1) m) ≡ false
unfolding winners_of
winners_some e [] p = elim p [ ]
winners_some e (x ∷ m) here = ground arith
winners_some e (x ∷ m) (there p) = ground (arith, winners_some e m p)

-- The largest size is the size of a bucket.
largest :
    (x : Text × List ℕ) (m : Buckets)
    → (e : Text × List ℕ) × In e (x ∷ m) × (length e.1 ≡ max_votes (x ∷ m))
unfolding max_votes
largest x [] = (x, here, ground arith)
largest x (y ∷ m) =
    let (e, i, l) = largest y m in
    if_ind (λ (n : ℕ). (e : Text × List ℕ) × In e (x ∷ y ∷ m) × (length e.1 ≡ n))
      (ltb (length x.1) (max_votes (y ∷ m))) _ _ (λ h. (e, there i, l)) (λ h. (x, here, refl))

-- Someone wins.
pub winners_of-max_votes :
    (m : Buckets) → is_nil m ≡ false → is_nil (winners_of (max_votes m) m) ≡ false
winners_of-max_votes [] h = cc
winners_of-max_votes (x ∷ m) h =
    let (e, i, l) = largest x m in
    subst (λ n. is_nil (winners_of n (x ∷ m)) ≡ false) l (winners_some e (x ∷ m) i)
