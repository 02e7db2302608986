-- ===== src/Aggregator/Vote/Ties.antt =====
-- How src/aggregator/vote.rs resolves a tie: the text is one of those tied.
use loker.Prelude.Names.{In-cons, get_elem-below}
use loker.Prelude.{
  ℕ, ◌<◌, ◌≡◌, refl, subst, false, Option, some, List, [], ◌∷◌, ltb, if◌then◌else◌, if_ind, is_nil,
  length, arith, In, here, there, inl, inr,
}
use loker.Prelude.Text.{Text}
use loker.Family.{Family}
use loker.Aggregator.Vote.{
  Deps, VoteCandidate, TieBreak, closest_to_family, random, first_responder, Buckets, min_by_key,
  first_of, matching, any_of, is_family, bucket_of, among, resolve_tie,
}

pub record InRange (deps : Deps) : Type 0 where
  pub below : (seed n : ℕ) → 0 < n → deps.random_range seed n < n

min_by_key-In :
    (key : Text → ℕ) (best : Text) (ts us : List Text)
    → In best us
    → ((t : Text) → In t ts → In t us)
    → In (min_by_key key best ts) us
unfolding min_by_key
min_by_key-In key best [] us p sub = p
min_by_key-In key best (t ∷ ts) us p sub =
    min_by_key-In key (if ltb (key t) (key best) then t else best) ts us
      (if_ind (λ (x : Text). In x us) (ltb (key t) (key best)) _ _ (λ h. sub t here) (λ h. p))
      (λ u q. sub u (there q))

first_of-In :
    (cs : List VoteCandidate) (m : Buckets) (ts : List Text)
    → is_nil ts ≡ false
    → (w : Text) × (first_of cs m ts ≡ some w) × In w ts
unfolding first_of
first_of-In cs m [] h = cc
first_of-In cs m (t ∷ ts) h = (_, refl, min_by_key-In _ t ts (t ∷ ts) here λ u q. there q)

matching-In :
    (f : Family) (cs : List VoteCandidate) (m : Buckets) (ts : List Text) (w : Text)
    → In w (matching f cs m ts)
    → In w ts
unfolding matching
matching-In f cs m [] w p = p
matching-In f cs m (t ∷ ts) w p =
    let rest = matching-In f cs m ts w in
    if_ind (λ (us : List Text). In w us → In w (t ∷ ts)) (any_of (is_family f cs) (bucket_of m t)) _
      _ (λ h. under t (matching f cs m ts) ts rest) (λ h q. there (rest q)) p
  where
    under : (x : Text) (us vs : List Text) → (In w us → In w vs) → In w (x ∷ us) → In w (x ∷ vs)
    under x us vs sub q = elim (In-cons w x us q) [
      | inl e ↦ subst (λ y. In w (y ∷ vs)) e here
      | inr r ↦ there (sub r)
    ]

among-In :
    (first : List Text → Option Text) (tied ms : List Text)
    → ((ts : List Text) → is_nil ts ≡ false → (w : Text) × (first ts ≡ some w) × In w ts)
    → is_nil tied ≡ false
    → ((w : Text) → In w ms → In w tied)
    → (w : Text) × (among first tied ms ≡ some w) × In w tied
among-In first tied [] pick h sub = pick tied h
among-In first tied (t ∷ []) pick h sub = (t, refl, sub t here)
among-In first tied (t ∷ u ∷ ts) pick h sub =
    let (w, e, p) = pick (t ∷ u ∷ ts) refl in (w, e, sub w p)

-- A tie between some texts is resolved to one of them.
pub resolve_tie-In :
    (deps : Deps)
    → InRange deps
    → (tied : List Text) (cs : List VoteCandidate) (m : Buckets) (rule : TieBreak)
    → is_nil tied ≡ false
    → (w : Text) × (resolve_tie deps tied cs m rule ≡ some w) × In w tied
unfolding resolve_tie
resolve_tie-In deps range tied cs m first_responder h = first_of-In cs m tied h
resolve_tie-In deps range tied cs m (closest_to_family f) h =
    among-In _ tied _ (first_of-In cs m) h (matching-In f cs m tied)
resolve_tie-In deps range tied cs m (random seed) h =
    get_elem-below tied _ (range.below seed (length tied) (some_long tied h))
  where
    some_long : (ts : List Text) → is_nil ts ≡ false → 0 < length ts
    some_long [] h = cc
    some_long (t ∷ ts) h = omega arith
