-- ===== src/Manifest/Lookup.antt =====
-- src/manifest.rs: what is looked up and verified after a write.
use loker.Prelude.{
  Bool, true, false, Option, none, some, List, [], ◌∷◌, ◌≡◌, refl, sym, ap, subst, ◌∙◌, inl, inr,
  ◌⊎◌, ◌↔◌, Bool-cases, if_ind, if◌then◌else◌, Result, ok, err,
}
use loker.Prelude.Text.{Text, text_eq}
use loker.Prelude.TextOrd.{text_eq-eq}
use loker.Prelude.Names.{text_eq_refl}
use loker.Manifest.{
  ManifestEntry, Manifest, written, Codec, Store, replace_or_push, find_entry, digest_of,
  sha256_for, verify, verify_against, replace_by_name, replace_written, json_error, io_error,
  failed_before, failed_after, WriteEnd, ManifestError,
}
use loker.Family.{PhaseError}

find-replace_or_push :
    (n : Text) (e : ManifestEntry) (es : List ManifestEntry)
    → find_entry n (replace_or_push e es) ≡ (if text_eq e.name n then some e else find_entry n es)
unfolding find_entry replace_or_push
find-replace_or_push n e [] = refl
find-replace_or_push n e (x ∷ es) = elim (Bool-cases (text_eq x.name e.name)) [
  | inl q ↦ rw q (same q (Bool-cases (text_eq e.name n)))
  | inr q ↦ rw q (elim (Bool-cases (text_eq x.name n)) [
    | inl g ↦ rw g (rw (apart q g) refl)
    | inr g ↦ rw g (find-replace_or_push n e es)
  ])
]
  where
    same :
        text_eq x.name e.name ≡ true
        → (text_eq e.name n ≡ true) ⊎ (text_eq e.name n ≡ false)
        → (if text_eq e.name n then some e else find_entry n es) ≡ (
            if text_eq e.name n
            then some e
            else if text_eq x.name n
            then some x
            else find_entry n es)
    same q (inl g) = rw g refl
    same q (inr g) =
        let h : text_eq x.name n ≡ false = cc (text_eq-eq x.name e.name q) in rw g (rw h refl)

    apart : text_eq x.name e.name ≡ false → text_eq x.name n ≡ true → text_eq e.name n ≡ false
    apart q g = elim (Bool-cases (text_eq e.name n)) [
      | inl f ↦ cc (text_eq-eq e.name n f)
      | inr f ↦ f
    ]

digest-if :
    (b : Bool) (e : ManifestEntry) (o : Option ManifestEntry)
    → digest_of (if b then some e else o) ≡ (if b then some e.sha256 else digest_of o)
digest-if true e o = refl
digest-if false e o = refl

module _ {J : Type 0} (c : Codec J) (markers : Option (List Text)) (s s' : Store J) where
  replace_written-ok :
      (o : Option J) (m : Manifest) (end : WriteEnd)
      → replace_written c markers o m end s ≡ (ok tt, s')
      → s'.memory ≡ m
  replace_written-ok none m end h = absurd (
      let no : ◌≡◌ {A = Result (Unit {0}) ManifestError} (err json_error) (ok tt) =
        ap (λ (x : Result (Unit {0}) ManifestError × Store J). x.0) h in
      cc)
  replace_written-ok (some j) m written h =
      ap (λ (x : Result (Unit {0}) ManifestError × Store J). x.1.memory) (sym h)
  replace_written-ok (some j) m failed_before h = absurd (
      let no : ◌≡◌ {A = Result (Unit {0}) ManifestError} (err io_error) (ok tt) =
        ap (λ (x : Result (Unit {0}) ManifestError × Store J). x.0) h in
      cc)
  replace_written-ok (some j) m failed_after h = absurd (
      let no : ◌≡◌ {A = Result (Unit {0}) ManifestError} (err io_error) (ok tt) =
        ap (λ (x : Result (Unit {0}) ManifestError × Store J). x.0) h in
      cc)

  -- After a replacement that succeeds its entry is found under its name and verifies exactly the
  -- payloads of its digest, and every other name is found as before.
  pub replace_by_name-verify :
      (e : ManifestEntry) (end : WriteEnd)
      → replace_by_name c markers e end s ≡ (ok tt, s')
      → ((n : Text)
          → sha256_for n s'.memory
            ≡ (if text_eq e.name n then some e.sha256 else sha256_for n s.memory))
        × ((payload : Text)
            → (verify c e.name payload s'.memory ≡ ok tt) ↔ (e.sha256 ≡ c.sha256_hex payload))
  unfolding replace_by_name
  replace_by_name-verify e end h =
      (found, (λ payload. verified payload (found e.name ∙ rw (text_eq_refl e.name) refl)))
    where
      found :
          (n : Text)
          → sha256_for n s'.memory
            ≡ (if text_eq e.name n then some e.sha256 else sha256_for n s.memory)
      found n =
          ap (sha256_for n) (replace_written-ok _ _ end h)
          ∙ (ap digest_of (find-replace_or_push n e s.memory.entries)
              ∙ digest-if (text_eq e.name n) e _)

      verified :
          (payload : Text)
          → sha256_for e.name s'.memory ≡ some e.sha256
          → (verify c e.name payload s'.memory ≡ ok tt) ↔ (e.sha256 ≡ c.sha256_hex payload)
      verified payload own =
          subst
            (λ o. (verify_against c e.name payload o ≡ ok tt) ↔ (e.sha256 ≡ c.sha256_hex payload))
            (sym own)
            (
              (λ k.
                  if_ind
                    (λ (r : Result (Unit {0}) PhaseError).
                      r ≡ ok tt → e.sha256 ≡ c.sha256_hex payload)
                    (text_eq e.sha256 (c.sha256_hex payload)) _ _
                    (λ q k. text_eq-eq e.sha256 (c.sha256_hex payload) q) (λ q k. absurd (cc)) k),
              (λ k. rw k (rw (text_eq_refl (c.sha256_hex payload)) refl)),
            )
