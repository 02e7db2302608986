-- ===== src/Tests/Disk.antt =====
-- A disk that maps paths to texts, on which no call fails, and its laws.
use loker.Prelude.{
  subst, ◌≡◌, refl, sym, ap, Bool, true, false, ◌&&◌, Option, none, some, [], ◌∷◌, Result, ok, err,
  arith, if◌then◌else◌, inl, inr, ◌⊎◌, Bool-cases,
}
use loker.Prelude.TextOrd.{text_eq-eq}
use loker.Prelude.Text.{Text}
use loker.ApplyVerify.Files.{
  Component, root_dir, cur_dir, parent_dir, normal, PathBuf, component_eq, IoError, not_found,
  FileSystem, FileLaws, IsUnlinked, readable,
}
use loker.ApplyVerify.Rollback.Reliable.{Reliable}

component_eq-eq : (a b : Component) → component_eq a b ≡ true → a ≡ b
component_eq-eq root_dir root_dir h = refl
component_eq-eq cur_dir cur_dir h = refl
component_eq-eq parent_dir parent_dir h = refl
component_eq-eq (normal s) (normal t) h = ap normal (text_eq-eq s t h)
component_eq-eq root_dir _ h = cc
component_eq-eq cur_dir _ h = cc
component_eq-eq parent_dir _ h = cc
component_eq-eq (normal s) _ h = cc

abbrev pub path_eq : PathBuf → PathBuf → Bool
path_eq [] [] = true
path_eq (a ∷ p) (b ∷ q) = component_eq a b && path_eq p q
path_eq [] (b ∷ q) = false
path_eq (a ∷ p) [] = false

path_eq-eq : (p q : PathBuf) → path_eq p q ≡ true → p ≡ q
path_eq-eq [] [] h = refl
path_eq-eq [] (b ∷ q) h = cc
path_eq-eq (a ∷ p) [] h = cc
path_eq-eq (a ∷ p) (b ∷ q) h = ground (arith, component_eq-eq a b, path_eq-eq p q)

abbrev pub Disk : Type 0
Disk = PathBuf → Option Text

abbrev read_of : Option Text → Result Text IoError
read_of none = err not_found
read_of (some t) = ok t

abbrev removal_of : Option Text → Result (Unit {0}) IoError
removal_of none = err not_found
removal_of (some t) = ok tt

abbrev pub memory : FileSystem
memory = record {
  World = Disk;
  read_to_string = λ p w. read_of (w p);
  write = λ p t w. (ok tt, λ q. if path_eq p q then some t else w q);
  remove_file = λ p w. (removal_of (w p), λ q. if path_eq p q then none else w q);
  create_dir_all = λ p w. (ok tt, w);
}

readable-read_of : (o : Option Text) → readable (read_of o) ≡ o
readable-read_of none = refl
readable-read_of (some t) = refl

gone : (o : Option Text) → removal_of o ≡ err not_found → o ≡ none
gone none h = refl
gone (some t) h = cc

readable-if :
    (b : Bool) (o o' : Option Text)
    → readable (read_of (if b then o else o')) ≡ (if b then o else readable (read_of o'))
readable-if true o o' = readable-read_of o
readable-if false o o' = refl

gone_at :
    (p q : PathBuf) (w : Disk)
    → path_eq p q ≡ true
    → read_of (w p) ≡ err not_found
    → read_of (w q) ≡ err not_found
gone_at p q w h g = subst (λ r. read_of (w r) ≡ err not_found) (path_eq-eq p q h) g

some_read : (t : Text) → read_of (some t) ≡ err not_found → ⊥
some_read t h = cc

missing-if :
    (b : Bool) (t : Text) (o : Option Text)
    → read_of (if b then some t else o) ≡ err not_found
    → read_of o ≡ err not_found
missing-if true t o h = absurd (some_read t h)
missing-if false t o h = h

removed_missing :
    (p q : PathBuf) (w : Disk)
    → w p ≡ none
    → read_of (if path_eq p q then none else w q) ≡ read_of (w q)
removed_missing p q w h = elim (Bool-cases (path_eq p q)) [
  | inl e ↦ rw e (rw (← path_eq-eq p q e) (rw h))
  | inr n ↦ rw n
]

pub memory-laws : FileLaws memory
memory-laws = record {
  Links = Unit {0};
  links = λ w. tt;
  same = λ l. path_eq;
  below = λ l. path_eq;
  sole = λ l p. true;
  read-same = λ p q w h. ap (λ r. memory.read_to_string r w) (sym (path_eq-eq p q h));
  write-ok = λ p q t w h. readable-if (path_eq p q) (some t) (w q);
  write-other = λ p q t w h. rw h;
  write-gone = λ p q t w g. missing-if (path_eq p q) t (w q) g;
  write-links = λ p t w. refl;
  below-gone = λ p q w h g. gone_at p q w h g;
  remove-ok = λ p q w l h. readable-if (path_eq p q) none (w q);
  remove-gone =
      λ p q w l h g. elim (Bool-cases (path_eq p q)) [ inl e ↦ inl e | inr n ↦ inr (rw n at g) ];
  remove-missing = λ p q w h. (rw (gone (w p) h), removed_missing p q w (gone (w p) h));
  remove-links = λ p w l. refl;
  create_dir-keeps = λ p q w. refl;
  create_dir-gone = λ p q w g. g;
  create_dir-links = λ p w. refl;
}

pub memory-IsUnlinked : (w : Disk) → IsUnlinked memory memory-laws w
unfolding memory-laws
memory-IsUnlinked w p g = refl

removes_or_not : (o : Option Text) → (removal_of o ≡ ok tt) ⊎ (removal_of o ≡ err not_found)
removes_or_not none = inr refl
removes_or_not (some t) = inl refl

pub memory-Reliable : Reliable memory
memory-Reliable = record {
  writes = λ p t w. refl;
  removes = λ p w. removes_or_not (w p);
  creates = λ p w. refl;
}
