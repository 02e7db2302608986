-- ===== src/RunState/Resume/Above.antt =====
-- The next attempt of src/run_state/markers.rs is above those that the markers and directories show.
use loker.Prelude.{
  ◌+◌, ◌^◌, ap, here, there, ℕ, suc, ◌<◌, ◌≤◌, ◌≡◌, refl, sym, subst, true, false, Option, none,
  some, List, [], ◌∷◌, if◌then◌else◌, if_ind, ltb, In, inl, inr, Result, ok, err, bind_ind, arith,
  ok_inj, ◌∙◌,
}
use loker.Prelude.Text.{Text, starts_with}
use loker.Prelude.Names.{In-cons}
use loker.RunState.Load.{MarkerFile}
use loker.RunState.Resume.{
  raise, MarkerError, with_attempt, started_prefix, highest_started, highest_dir, after_highest,
  max, next_attempt,
}

-- The attempt is above every one that a started marker of the phase or an archived directory has.
pub record IsNew (markers : List MarkerFile) (dirs : List ℕ) (phase : Text) (n : ℕ) : Type 0 where
  above_markers :
      (m : MarkerFile) (k : ℕ)
      → In m markers
      → starts_with m.name (started_prefix phase) ≡ true
      → m.attempt ≡ some k
      → k < n
  above_dirs : (k : ℕ) → In k dirs → k < n

-- One more than the highest, without the bound of `u32`.
abbrev bound : Option ℕ → ℕ
bound none = 0
bound (some m) = suc m

-- A number that has a successor in `u32`.
abbrev pub IsBelowMax : ℕ → Type 0
IsBelowMax k = k + 1 < 2 ^ 32

after_highest-bound : (o : Option ℕ) → bound o < 2 ^ 32 → after_highest o ≡ bound o
after_highest-bound none h = refl
after_highest-bound (some m) h = omega arith

raise_below : (o : Option ℕ) (n : ℕ) → bound o < 2 ^ 32 → IsBelowMax n → bound (raise o n) < 2 ^ 32
raise_below none n h k = omega arith
raise_below (some m) n h k =
    if_ind (λ (r : Option ℕ). bound r < 2 ^ 32) (ltb m n) _ _ (λ e. omega arith) (λ e. omega arith)

highest_dir_below :
    (o : Option ℕ) (dirs : List ℕ)
    → bound o < 2 ^ 32
    → ((k : ℕ) → In k dirs → IsBelowMax k)
    → bound (highest_dir o dirs) < 2 ^ 32
unfolding highest_dir
highest_dir_below o [] h small = h
highest_dir_below o (n ∷ dirs) h small =
    highest_dir_below (raise o n) dirs (raise_below o n h (small n here)) (λ k p. small k (there p))

raise-after : (o : Option ℕ) (n : ℕ) → (n < bound (raise o n)) × (bound o ≤ bound (raise o n))
raise-after none n = (omega arith, omega arith)
raise-after (some m) n =
    if_ind (λ (r : Option ℕ). (n < bound r) × (suc m ≤ bound r)) (ltb m n) _ _
      (λ e. (omega arith, ground arith)) (λ e. (ground arith, omega arith))

highest_dir-above :
    (o : Option ℕ) (dirs : List ℕ)
    → (bound o ≤ bound (highest_dir o dirs))
      × ((k : ℕ) → In k dirs → k < bound (highest_dir o dirs))
unfolding highest_dir
highest_dir-above o [] = (omega arith, λ k p. elim p [ ])
highest_dir-above o (n ∷ dirs) =
    let (lt, le) = raise-after o n in
    let (le', above) = highest_dir-above (raise o n) dirs in
    (
      omega arith,
      λ k p. elim (In-cons k n dirs p) [
        | inl same ↦ subst (λ j. j < bound (highest_dir (raise o n) dirs)) (sym same) (omega arith)
        | inr q ↦ above k q
      ],
    )

module _ (phase : Text) where
  abbrev AboveStarted : List MarkerFile → Option ℕ → Result (Option ℕ) MarkerError → Type 0
  AboveStarted markers o (err e) = Unit
  AboveStarted markers o (ok h) =
      (bound o ≤ bound h)
      × ((m : MarkerFile) (k : ℕ)
          → In m markers
          → starts_with m.name (started_prefix phase) ≡ true
          → m.attempt ≡ some k
          → k < bound h)

  -- What the loop makes of one marker.
  abbrev seen : MarkerFile → Option ℕ → Result (Option ℕ) MarkerError
  seen m o =
      if starts_with m.name (started_prefix phase) then with_attempt m.attempt m.name o else ok o

  -- The new highest attempt is above the old one and above that of the marker.
  abbrev Counted : MarkerFile → Option ℕ → Option ℕ → Type 0
  Counted m o next =
      (bound o ≤ bound next)
      × ((k : ℕ)
          → starts_with m.name (started_prefix phase) ≡ true
          → m.attempt ≡ some k
          → k < bound next)

  with_attempt-Counted :
      (m : MarkerFile) (o a next : Option ℕ)
      → m.attempt ≡ a
      → with_attempt a m.name o ≡ ok next
      → Counted m o next
  with_attempt-Counted m o none next e f = absurd (cc)
  with_attempt-Counted m o (some n) next e f =
      let (lt, le) = raise-after o n in
      let at : Counted m o (raise o n) =
        (le, λ k s g. let same : n ≡ k = cc in subst (λ j. j < bound (raise o n)) same lt) in
      subst (Counted m o) (ok_inj (raise o n) next f) at

  seen-Counted : (m : MarkerFile) (o next : Option ℕ) → seen m o ≡ ok next → Counted m o next
  seen-Counted m o next =
      if_ind (λ (r : Result (Option ℕ) MarkerError). r ≡ ok next → Counted m o next)
        (starts_with m.name (started_prefix phase)) _ _
        (λ h. with_attempt-Counted m o m.attempt next refl)
        (λ h f.
          subst (Counted m o) (ok_inj o next f)
            (omega arith, λ k g a. absurd (let no : false ≡ true = sym h ∙ g in cc)))

  AboveStarted-cons :
      (m : MarkerFile) (markers : List MarkerFile) (o next : Option ℕ)
      → Counted m o next
      → (r : Result (Option ℕ) MarkerError) → AboveStarted markers next r
      → AboveStarted (m ∷ markers) o r
  AboveStarted-cons m markers o next c (err x) h = tt
  AboveStarted-cons m markers o next (le', own) (ok h) (le, above) = (
    omega arith,
    λ x k p s g. elim (In-cons x m markers p) [
      | inl same ↦ omega (
        arith,
        own k (subst (λ (y : MarkerFile). starts_with y.name (started_prefix phase) ≡ true) same s)
            (subst (λ (y : MarkerFile). y.attempt ≡ some k) same g),
        le,
      )
      | inr q ↦ above x k q s g
    ],
  )

  highest_started-AboveStarted :
      (o : Option ℕ) (markers : List MarkerFile)
      → AboveStarted markers o (highest_started phase o markers)
  unfolding highest_started
  highest_started-AboveStarted o [] = (omega arith, λ m k p. elim p [ ])
  highest_started-AboveStarted o (m ∷ markers) =
      bind_ind (AboveStarted (m ∷ markers) o) (seen m o)
        (λ next e.
          AboveStarted-cons m markers o next (seen-Counted m o next e)
            (highest_started phase next markers) (highest_started-AboveStarted next markers))
        (λ x e. tt)

  with_attempt_below :
      (m : MarkerFile) (o a next : Option ℕ)
      → bound o < 2 ^ 32
      → ((k : ℕ) → a ≡ some k → IsBelowMax k)
      → with_attempt a m.name o ≡ ok next
      → bound next < 2 ^ 32
  with_attempt_below m o none next h small e = absurd (cc)
  with_attempt_below m o (some n) next h small e =
      subst (λ (r : Option ℕ). bound r < 2 ^ 32) (ok_inj (raise o n) next e)
        (raise_below o n h (small n refl))

  highest_started_below :
      (o highest : Option ℕ) (markers : List MarkerFile)
      → bound o < 2 ^ 32
      → ((m : MarkerFile) (k : ℕ) → In m markers → m.attempt ≡ some k → IsBelowMax k)
      → highest_started phase o markers ≡ ok highest
      → bound highest < 2 ^ 32
  unfolding highest_started
  highest_started_below o highest [] h small e =
      subst (λ (r : Option ℕ). bound r < 2 ^ 32) (ok_inj o highest e) h
  highest_started_below o highest (m ∷ markers) h small e =
      bind_ind (λ (r : Result (Option ℕ) MarkerError). r ≡ ok highest → bound highest < 2 ^ 32)
        (seen m o)
        (λ next e.
          highest_started_below next highest markers (one next e) (λ x k p. small x k (there p)))
        (λ x f g. absurd (cc)) e
    where
      one : (next : Option ℕ) → seen m o ≡ ok next → bound next < 2 ^ 32
      one next =
          if_ind (λ (r : Result (Option ℕ) MarkerError). r ≡ ok next → bound next < 2 ^ 32)
            (starts_with m.name (started_prefix phase)) _ _
            (λ s. with_attempt_below m o m.attempt next h (λ k. small m k here))
            (λ s f. subst (λ (r : Option ℕ). bound r < 2 ^ 32) (ok_inj o next f) h)

  pub next_attempt-IsNew :
      (markers : List MarkerFile) (dirs : List ℕ) (n : ℕ)
      → ((m : MarkerFile) (k : ℕ) → In m markers → m.attempt ≡ some k → IsBelowMax k)
      → ((k : ℕ) → In k dirs → IsBelowMax k)
      → next_attempt phase markers dirs ≡ ok n
      → IsNew markers dirs phase n
  unfolding next_attempt
  next_attempt-IsNew markers dirs n small small_dirs h =
      bind_ind (λ (r : Result ℕ MarkerError). r ≡ ok n → IsNew markers dirs phase n)
        (highest_started phase none markers)
        (λ highest e f.
          subst (IsNew markers dirs phase)
            (ap (λ x. max x (bound (highest_dir none dirs)))
                (sym (
                  after_highest-bound highest
                    (highest_started_below none highest markers (omega arith) small e)))
              ∙ ap (max (after_highest highest)) (
                  sym
                    (after_highest-bound _ (highest_dir_below none dirs (omega arith) small_dirs)))
              ∙ ok_inj _ n f)
            (both highest
              (subst (AboveStarted markers none) e (highest_started-AboveStarted none markers))))
        (λ x e f. cc) h
    where
      max_left : (a b : ℕ) → a ≤ max a b
      max_left a b = ground arith

      max_right : (a b : ℕ) → b ≤ max a b
      max_right a b = ground arith

      both :
          (highest : Option ℕ)
          → AboveStarted markers none (ok highest)
          → IsNew markers dirs phase (max (bound highest) (bound (highest_dir none dirs)))
      both highest (le, above) =
          let (le', above') = highest_dir-above none dirs in
          record {
            above_markers = λ m k p s g.
                omega (
                  arith,
                  above m k p s g,
                  max_left (bound highest) (bound (highest_dir none dirs)),
                );
            above_dirs = λ k p.
                omega
                  (arith, above' k p, max_right (bound highest) (bound (highest_dir none dirs)));
          }
