-- ===== src/Aggregator/Concat/Heading.antt =====
-- `render_heading` against a template that is given by its pieces.
use loker.Prelude.{
  ℕ, zero, suc, ◌+◌, ◌<◌, ◌≡◌, refl, sym, ap, ◌∙◌, true, false, Option, none, some, List, [], ◌∷◌,
  ◌++◌, append_assoc, length, length-append, take, drop, All, ◌==◌, Bool-cases, inl, inr, arith,
}
use loker.Prelude.Text.{Text, str, find, strip_prefix, starts_with}
use loker.Prelude.Decimal.{decimal}
use loker.Aggregator.Concat.{closed, at_brace, up_to_brace, heading_from, render_heading}

-- A piece of a template: text without an opening brace, one of the placeholders, or another text
-- in braces.
pub data Piece : Type 0 where
  literal : Text → Piece
  backend_id : Piece
  family : Piece
  index : Piece
  other : (body : Text) → Piece

abbrev pub print_piece : Piece → Text
print_piece (literal t) = t
print_piece backend_id = str "{backend_id}"
print_piece family = str "{family}"
print_piece index = str "{index}"
print_piece (other body) = str "{" ++ (body ++ str "}")

unfoldable pub print_pieces : List Piece → Text
print_pieces [] = []
print_pieces (p ∷ ps) = print_piece p ++ print_pieces ps

-- The text of an unknown placeholder stays.
abbrev pub fill_piece : (backend family : Text) → ℕ → Piece → Text
fill_piece b f i (literal t) = t
fill_piece b f i backend_id = b
fill_piece b f i family = f
fill_piece b f i index = decimal i
fill_piece b f i (other body) = str "{" ++ (body ++ str "}")

unfoldable pub fill_pieces : (backend family : Text) → ℕ → List Piece → Text
fill_pieces b f i [] = []
fill_pieces b f i (p ∷ ps) = fill_piece b f i p ++ fill_pieces b f i ps

abbrev pub Lacks : ℕ → Text → Type 0
Lacks c t = All (λ d. (d == c) ≡ false) t

-- Literals have no opening brace; a text in braces has no closing one and is no placeholder.
abbrev pub IsPiece : Piece → Type 0
IsPiece (literal t) = Lacks 123 t
IsPiece (other body) =
    Lacks 125 body
    × (¬ (body ≡ str "backend_id"))
    × (¬ (body ≡ str "family"))
    × (¬ (body ≡ str "index"))
IsPiece _ = Unit

abbrev shifted : ℕ → Option ℕ → Option ℕ
shifted n none = none
shifted n (some i) = some (n + i)

find-Lacks :
    (c : ℕ) (t s : Text) → Lacks c t → find (t ++ s) (c ∷ []) ≡ shifted (length t) (find s (c ∷ []))
unfolding find starts_with
find-Lacks c [] s h = go (find s (c ∷ []))
  where
    go : (o : Option ℕ) → o ≡ shifted 0 o
    go none = refl
    go (some i) = ap some (omega arith)
find-Lacks c (d ∷ t) s h = rw h.0 (rw (find-Lacks c t s h.1) (go (find s (c ∷ []))))
  where
    go :
        (o : Option ℕ)
        → elim (shifted (length t) o) [ none ↦ none | some n ↦ some (suc n) ]
          ≡ shifted (suc (length t)) o
    go none = refl
    go (some i) = ap some (omega arith)

suc-plus : (a i : ℕ) → suc a + i ≡ suc (a + i)
suc-plus a i = omega arith

take-left : (t s : Text) (i : ℕ) → take (length t + i) (t ++ s) ≡ t ++ take i s
take-left [] s i = ap (λ n. take n s) (omega arith)
take-left (c ∷ t) s i =
    ap (λ n. take n (c ∷ (t ++ s))) (suc-plus (length t) i) ∙ ap (λ l. c ∷ l) (take-left t s i)

drop-left : (t s : Text) (i : ℕ) → drop (length t + i) (t ++ s) ≡ drop i s
drop-left [] s i = ap (λ n. drop n s) (omega arith)
drop-left (c ∷ t) s i = ap (λ n. drop n (c ∷ (t ++ s))) (suc-plus (length t) i) ∙ drop-left t s i

-- A closed text in braces is a placeholder only where it is that placeholder's.
starts_with-closed :
    (w body rest : Text)
    → Lacks 125 w
    → Lacks 125 body
    → starts_with (body ++ (125 ∷ rest)) (w ++ (125 ∷ [])) ≡ true
    → body ≡ w
unfolding starts_with
starts_with-closed [] [] rest hw hb h = refl
starts_with-closed [] (c ∷ body) rest hw hb h = cc (hb.0, h)
starts_with-closed (d ∷ w) [] rest hw hb h = absurd (differ (ground (arith, hw.0, h)))
  where
    differ : (125 == d) ≡ true → ⊥
    differ e = ground (arith, hw.0)
starts_with-closed (d ∷ w) (c ∷ body) rest hw hb h =
    let same : (c == d) ≡ true = ground arith in
    let later : starts_with (body ++ (125 ∷ rest)) (w ++ (125 ∷ [])) ≡ true = ground arith in
    ap (λ (x : ℕ). x ∷ body) (ground arith)
    ∙ ap (λ l. d ∷ l) (starts_with-closed w body rest hw.1 hb.1 later)

find-head : (c : ℕ) (s : Text) → find (c ∷ s) (c ∷ []) ≡ some 0
unfolding find starts_with
find-head c s = ground arith

strip_prefix-other :
    (w body rest : Text)
    → Lacks 125 w
    → Lacks 125 body
    → ¬ (body ≡ w)
    → strip_prefix (123 ∷ (body ++ (125 ∷ rest))) (123 ∷ (w ++ (125 ∷ []))) ≡ none
unfolding strip_prefix starts_with
strip_prefix-other w body rest hw hb n =
    elim (Bool-cases (starts_with (body ++ (125 ∷ rest)) (w ++ (125 ∷ [])))) [
      | inl e ↦ absurd (n (starts_with-closed w body rest hw hb e))
      | inr e ↦ rw e refl
    ]

-- The round of the loop at a text in braces that is no placeholder.
at_brace-other :
    (b f : Text) (i : ℕ) (go : Text → Text) (body rest : Text)
    → IsPiece (other body)
    → at_brace b f i go (123 ∷ (body ++ (125 ∷ rest))) ≡ 123 ∷ (body ++ (125 ∷ go rest))
at_brace-other b f i go body rest (lacks, n1, n2, n3) =
    rw
      (strip_prefix-other (str "backend_id") body rest
        (refl, (refl, (refl, (refl, (refl, (refl, (refl, (refl, (refl, (refl, tt)))))))))) lacks n1)
      (rw
        (strip_prefix-other (str "family") body rest
          (refl, (refl, (refl, (refl, (refl, (refl, tt)))))) lacks n2)
        (rw
          (strip_prefix-other (str "index") body rest (refl, (refl, (refl, (refl, (refl, tt)))))
            lacks n3)
          (ap (λ o. closed o (123 ∷ (body ++ (125 ∷ rest))) go) found ∙ split)))
  where
    found : find (123 ∷ (body ++ (125 ∷ rest))) (str "}") ≡ some (length body + 1)
    found =
        find-Lacks 125 (123 ∷ body) (125 ∷ rest) (refl, lacks)
        ∙ rw (find-head 125 rest) (ap some (omega arith))

    split :
        closed (some (length body + 1)) (123 ∷ (body ++ (125 ∷ rest))) go
        ≡ 123 ∷ (body ++ (125 ∷ go rest))
    split =
        ap (λ (l : Text). 123 ∷ l)
          (ap (λ l. l ++ go (drop (length body + 1) (body ++ (125 ∷ rest))))
              (take-left body (125 ∷ rest) 1)
            ∙ append_assoc body (125 ∷ []) _)
        ∙ ap (λ l. 123 ∷ (body ++ (125 ∷ go l))) (drop-left body (125 ∷ rest) 1)

module _ (b f : Text) (i : ℕ) where
  heading-literal :
      (fuel : ℕ) (t s : Text)
      → Lacks 123 t
      → heading_from (suc fuel) b f i (t ++ s) ≡ t ++ heading_from (suc fuel) b f i s
  unfolding heading_from
  heading-literal fuel t s h = rw (find-Lacks 123 t s h) (go (find s (str "{")))
    where
      go :
          (o : Option ℕ)
          → up_to_brace
              (shifted (length t) o)
              (t ++ s)
              (λ at. at_brace b f i (heading_from fuel b f i) at)
            ≡ t ++ up_to_brace o s (λ at. at_brace b f i (heading_from fuel b f i) at)
      go none = refl
      go (some k) = rw (take-left t s k) (rw (drop-left t s k) (append_assoc t (take k s) _))

  heading-print :
      (fuel : ℕ) (ps : List Piece)
      → All IsPiece ps
      → length (print_pieces ps) < fuel
      → heading_from fuel b f i (print_pieces ps) ≡ fill_pieces b f i ps
  unfolding print_pieces fill_pieces heading_from starts_with strip_prefix find
  heading-print zero ps h lt = absurd (omega arith)
  heading-print (suc fuel) [] h lt = refl
  heading-print (suc fuel) (literal t ∷ ps) h lt =
      heading-literal fuel t (print_pieces ps) h.0
      ∙ ap (λ l. t ++ l)
          (heading-print (suc fuel) ps h.1 (omega (arith, length-append t (print_pieces ps))))
  heading-print (suc fuel) (backend_id ∷ ps) h lt =
      ap (λ x. b ++ x) (heading-print fuel ps h.1 (omega arith))
  heading-print (suc fuel) (family ∷ ps) h lt =
      ap (λ x. f ++ x) (heading-print fuel ps h.1 (omega arith))
  heading-print (suc fuel) (index ∷ ps) h lt =
      ap (λ x. decimal i ++ x) (heading-print fuel ps h.1 (omega arith))
  heading-print (suc fuel) (other body ∷ ps) h lt =
      let text = append_assoc body (str "}") (print_pieces ps) in
      ap (λ l. at_brace b f i (heading_from fuel b f i) (123 ∷ l)) text
      ∙ at_brace-other b f i (heading_from fuel b f i) body (print_pieces ps) h.0
      ∙ ap (λ l. 123 ∷ (body ++ (125 ∷ l)))
          (heading-print fuel ps h.1
            (omega (arith, length-append (body ++ str "}") (print_pieces ps))))
      ∙ ap (λ l. 123 ∷ l) (sym (append_assoc body (str "}") (fill_pieces b f i ps)))

  -- For a template that is printed from pieces (literals without an opening brace, the three
  -- placeholders, and other texts in braces that have no closing brace and are no placeholder),
  -- `render_heading` is the text in which each placeholder stands for its value and all else stands
  -- for itself; the values are not searched again.
  pub render_heading-print :
      (ps : List Piece)
      → All IsPiece ps
      → render_heading (print_pieces ps) b f i ≡ fill_pieces b f i ps
  unfolding render_heading
  render_heading-print ps h = heading-print (suc (length (print_pieces ps))) ps h (omega arith)
