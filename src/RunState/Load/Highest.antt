-- ===== src/RunState/Load/Highest.antt =====
-- The status of a phase is the highest that a marker gives it, in whatever order the markers come.
use loker.Prelude.{
  ℕ, ◌≤◌, ◌≡◌, ◌↔◌, refl, sym, ap, subst, ◌∙◌, true, false, Option, none, some, List, [], ◌∷◌, ◌++◌,
  append_assoc, append-nil, if◌then◌else◌, if_ind, ltb, In, here, inl, inr, Bool-cases, arith,
}
use loker.Prelude.Text.{Text, text_eq}
use loker.Prelude.TextOrd.{text_eq-eq}
use loker.Prelude.Names.{text_eq_refl, In-append, In-left, In-right, In-one}
use loker.Prelude.Assoc.{get, get-insert}
use loker.RunState.Load.{
  PhaseStatus, started, completed, failed, no_status, status_rank, MarkerFile, marker_phase,
  Statuses, update_over, update_phase_status, marker_status, noted, scan,
}

-- The marker gives the phase the status.
abbrev pub Gives : MarkerFile → Text → PhaseStatus → Type 0
Gives m phase status = (marker_phase m.name ≡ phase) × (marker_status m ≡ some status)

abbrev pub IsHighest : List MarkerFile → Text → Option PhaseStatus → Type 0
IsHighest markers phase none = (m : MarkerFile) (s : PhaseStatus) → In m markers → ¬ Gives m phase s
IsHighest markers phase (some s) =
    ((m : MarkerFile) × In m markers × Gives m phase s)
    × ((m : MarkerFile) (t : PhaseStatus)
        → In m markers
        → Gives m phase t
        → status_rank t ≤ status_rank s)

status_rank_inj : (s t : PhaseStatus) → status_rank s ≡ status_rank t → s ≡ t
unfolding status_rank
status_rank_inj started started h = refl
status_rank_inj completed completed h = refl
status_rank_inj failed failed h = refl
status_rank_inj no_status no_status h = refl
status_rank_inj s t h = absurd (omega arith)

-- A marker that does not give the phase a status changes nothing.
IsHighest-other :
    (seen : List MarkerFile) (m : MarkerFile) (phase : Text) (o : Option PhaseStatus)
    → ((s : PhaseStatus) → ¬ Gives m phase s)
    → IsHighest seen phase o
    → IsHighest (seen ++ (m ∷ [])) phase o
IsHighest-other seen m phase none never h = λ x s p g. elim (In-append seen (m ∷ []) p) [
  | inl q ↦ h x s q g
  | inr q ↦ never s (subst (λ y. Gives y phase s) (In-one x m q) g)
]
IsHighest-other seen m phase (some s) never ((x, p, g), h) = (
  (x, In-left seen (m ∷ []) p, g),
  λ y t q k. elim (In-append seen (m ∷ []) q) [
    | inl i ↦ h y t i k
    | inr i ↦ absurd (never t (subst (λ z. Gives z phase t) (In-one y m i) k))
  ],
)

-- One that gives a status sets it, or leaves a higher one.
abbrev raised : Option PhaseStatus → PhaseStatus → Option PhaseStatus
raised none status = some status
raised (some current) status =
    if ltb (status_rank current) (status_rank status) then some status else some current

same_rank :
    (m : MarkerFile) (phase : Text) (s t : PhaseStatus)
    → Gives m phase s
    → Gives m phase t
    → status_rank t ≤ status_rank s
same_rank m phase s t g k =
    subst (λ x. status_rank x ≤ status_rank s) (one (sym g.1 ∙ k.1)) (omega arith)
  where
    one : some s ≡ some t → s ≡ t
    one e = cc

IsHighest-raised :
    (seen : List MarkerFile) (m : MarkerFile) (phase : Text) (status : PhaseStatus)
    (o : Option PhaseStatus)
    → Gives m phase status
    → IsHighest seen phase o
    → IsHighest (seen ++ (m ∷ [])) phase (raised o status)
IsHighest-raised seen m phase status none gives h = (
  (m, In-right seen (m ∷ []) here, gives),
  λ y t q k. elim (In-append seen (m ∷ []) q) [
    | inl i ↦ absurd (h y t i k)
    | inr i ↦ same_rank m phase status t gives (subst (λ z. Gives z phase t) (In-one y m i) k)
  ],
)
IsHighest-raised seen m phase status (some current) gives ((x, p, g), h) =
    if_ind (IsHighest (seen ++ (m ∷ [])) phase) (ltb (status_rank current) (status_rank status)) _ _
      (λ e. (
        (m, In-right seen (m ∷ []) here, gives),
        λ y t q k. elim (In-append seen (m ∷ []) q) [
          | inl i ↦ below (h y t i k) e
          | inr i ↦ same_rank m phase status t gives (subst (λ z. Gives z phase t) (In-one y m i) k)
        ],
      ))
      (λ e. (
        (x, In-left seen (m ∷ []) p, g),
        λ y t q k. elim (In-append seen (m ∷ []) q) [
          | inl i ↦ h y t i k
          | inr i ↦
              above e
                (same_rank m phase status t gives (subst (λ z. Gives z phase t) (In-one y m i) k))
        ],
      ))
  where
    below :
        {n : ℕ}
        → n ≤ status_rank current
        → ltb (status_rank current) (status_rank status) ≡ true
        → n ≤ status_rank status
    below le e = ground arith

    above :
        {n : ℕ}
        → ltb (status_rank current) (status_rank status) ≡ false
        → n ≤ status_rank status
        → n ≤ status_rank current
    above e le = ground arith

get-update :
    (p phase : Text) (status : PhaseStatus) (map : Statuses)
    → get phase (update_phase_status map p status)
      ≡ (if text_eq p phase then raised (get p map) status else get phase map)
unfolding update_phase_status
get-update p phase status map = go (get p map) refl
  where
    own : (o : Option PhaseStatus) → get p map ≡ o → text_eq p phase ≡ true → get phase map ≡ o
    own o e f = subst (λ k. get k map ≡ o) (text_eq-eq p phase f) e

    go :
        (o : Option PhaseStatus)
        → get p map ≡ o
        → get phase (update_over o p status map)
          ≡ (if text_eq p phase then raised o status else get phase map)
    go none e = get-insert phase p status map
    go (some current) e =
        if_ind
          (λ (l : Statuses).
            get phase l ≡ (if text_eq p phase then raised (some current) status else get phase map))
          (ltb (status_rank current) (status_rank status)) _ _
          (λ h. get-insert phase p status map ∙ rw h refl)
          (λ h. elim (Bool-cases (text_eq p phase)) [
            | inl f ↦ rw f (rw h (own (some current) e f))
            | inr f ↦ rw f refl
          ])

noted-IsHighest :
    (seen : List MarkerFile) (m : MarkerFile) (map : Statuses)
    → ((phase : Text) → IsHighest seen phase (get phase map))
    → (phase : Text)
    → IsHighest
        (seen ++ (m ∷ []))
        phase
        (get phase (noted (marker_status m) (marker_phase m.name) map))
unfolding update_phase_status
noted-IsHighest seen m map h phase = go (marker_status m) refl
  where
    go :
        (o : Option PhaseStatus)
        → marker_status m ≡ o
        → IsHighest (seen ++ (m ∷ [])) phase (get phase (noted o (marker_phase m.name) map))
    go none e = IsHighest-other seen m phase (get phase map) (λ s g. cc (e, g.1)) (h phase)
    go (some status) e =
        subst (IsHighest (seen ++ (m ∷ [])) phase)
          (sym (get-update (marker_phase m.name) phase status map))
          (if_ind (IsHighest (seen ++ (m ∷ [])) phase) (text_eq (marker_phase m.name) phase) _ _
            (λ f.
              let same = text_eq-eq (marker_phase m.name) phase f in
              IsHighest-raised seen m phase status (get (marker_phase m.name) map) (same, e)
                (subst (λ k. IsHighest seen phase (get k map)) (sym same) (h phase)))
            (λ f.
              IsHighest-other seen m phase (get phase map) (λ s g. cc (text_eq_refl phase, g.0, f))
                (h phase)))

scan-IsHighest-from :
    (seen todo : List MarkerFile) (map : Statuses)
    → ((phase : Text) → IsHighest seen phase (get phase map))
    → (phase : Text) → IsHighest (seen ++ todo) phase (get phase (scan todo map))
unfolding scan
scan-IsHighest-from seen [] map h phase =
    subst (λ l. IsHighest l phase (get phase map)) (sym (append-nil seen)) (h phase)
scan-IsHighest-from seen (m ∷ todo) map h phase =
    subst
      (λ l.
        IsHighest l phase
          (get phase (scan todo (noted (marker_status m) (marker_phase m.name) map))))
      (append_assoc seen (m ∷ []) todo)
      (scan-IsHighest-from (seen ++ (m ∷ [])) todo
        (noted (marker_status m) (marker_phase m.name) map) (noted-IsHighest seen m map h) phase)

pub scan-IsHighest :
    (markers : List MarkerFile) (phase : Text)
    → IsHighest markers phase (get phase (scan markers []))
unfolding get
scan-IsHighest markers phase = scan-IsHighest-from [] markers [] (λ p m s i. elim i [ ]) phase

IsHighest-unique :
    (xs ys : List MarkerFile) (phase : Text) (a b : Option PhaseStatus)
    → ((m : MarkerFile) → In m xs ↔ In m ys)
    → IsHighest xs phase a
    → IsHighest ys phase b
    → a ≡ b
IsHighest-unique xs ys phase none none same h k = refl
IsHighest-unique xs ys phase none (some t) same h ((m, p, g), k) = absurd (h m t ((same m).1 p) g)
IsHighest-unique xs ys phase (some s) none same ((m, p, g), h) k = absurd (k m s ((same m).0 p) g)
IsHighest-unique xs ys phase (some s) (some t) same ((m, p, g), h) ((n, q, f), k) =
    ap some (status_rank_inj s t (omega (arith, h n t ((same n).1 q) f, k m s ((same m).0 p) g)))

-- Two listings of the same markers, in whatever order and however often each stands in them, give
-- every phase the same status.
pub scan-order :
    (xs ys : List MarkerFile) (phase : Text)
    → ((m : MarkerFile) → In m xs ↔ In m ys)
    → get phase (scan xs []) ≡ get phase (scan ys [])
scan-order xs ys phase same =
    IsHighest-unique xs ys phase (get phase (scan xs [])) (get phase (scan ys [])) same
      (scan-IsHighest xs phase) (scan-IsHighest ys phase)
