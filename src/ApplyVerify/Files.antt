-- ===== src/ApplyVerify/Files.antt =====
-- The file system that src/apply_verify runs on: `std::path` and `tokio::fs`.
-- A path is the list of its components, by which Rust compares paths. The disk and the calls on it
-- are parameters; `FileLaws` has what the program relies on.
use loker.Prelude.{
  ◌⊎◌, ◌≡◌, refl, Bool, true, false, ◌&&◌, Option, none, some, List, [], ◌∷◌, ◌++◌, Result, ok, err,
  ◌==◌, is_nil, if◌then◌else◌,
}
use loker.Prelude.Text.{Text, str, text_eq}

-- `std::path::Component` on Unix
pub data Component : Type 0 where
  root_dir cur_dir parent_dir : Component
  normal : Text → Component

abbrev pub PathBuf : Type 0
PathBuf = List Component

abbrev cons_segment : Text → List Component → List Component
cons_segment seg cs =
    if is_nil seg
    then cs
    else if text_eq seg (str ".")
    then cs
    else if text_eq seg (str "..")
    then parent_dir ∷ cs
    else normal seg ∷ cs

-- The components behind a first one: the text between slashes; `seg` is the current one so far.
unfoldable pub components_from : Text → Text → List Component
unfolding text_eq
components_from seg [] = cons_segment seg []
components_from seg (c ∷ s) =
    let slash = c == b'/' in
    let rest = components_from (if slash then [] else seg ++ (c ∷ [])) s in
    if slash then cons_segment seg rest else rest

abbrev starts_dot : Text → Bool
starts_dot [] = false
starts_dot (c ∷ []) = c == b'.'
starts_dot (c ∷ d ∷ s) = c == b'.' && d == b'/'

-- `Path::new(t).is_absolute()`
unfoldable pub is_absolute : Text → Bool
is_absolute [] = false
is_absolute (c ∷ s) = c == b'/'

-- `Path::new(t).components()`
unfoldable pub components : Text → PathBuf
unfolding components_from is_absolute
components t =
    if is_absolute t
    then root_dir ∷ components_from [] t
    else if starts_dot t
    then cur_dir ∷ components_from [] t
    else components_from [] t

abbrev drop_cur : PathBuf → PathBuf
drop_cur (cur_dir ∷ cs) = cs
drop_cur cs = cs

-- `cwd.join(file)`: an absolute path replaces `cwd`; a leading `.` is kept only behind nothing.
unfoldable pub join : PathBuf → Text → PathBuf
unfolding components
join cwd file =
    if is_absolute file
    then components file
    else if is_nil cwd
    then components file
    else cwd ++ drop_cur (components file)

abbrev pub is_parent_dir : Component → Bool
is_parent_dir parent_dir = true
is_parent_dir _ = false

-- `components().any(|c| matches!(c, Component::ParentDir))`
unfoldable pub has_parent_dir : PathBuf → Bool
has_parent_dir [] = false
has_parent_dir (c ∷ cs) = if is_parent_dir c then true else has_parent_dir cs

abbrev pub component_eq : Component → Component → Bool
component_eq root_dir root_dir = true
component_eq cur_dir cur_dir = true
component_eq parent_dir parent_dir = true
component_eq (normal a) (normal b) = text_eq a b
component_eq _ _ = false

-- `p.starts_with(base)`
unfoldable pub path_starts_with : PathBuf → PathBuf → Bool
unfolding text_eq
path_starts_with p [] = true
path_starts_with [] (b ∷ base) = false
path_starts_with (a ∷ p) (b ∷ base) = component_eq a b && path_starts_with p base

abbrev drop_last : PathBuf → PathBuf
drop_last [] = []
drop_last (c ∷ []) = []
drop_last (c ∷ d ∷ p) = c ∷ drop_last (d ∷ p)

-- `p.parent()`
unfoldable pub parent : PathBuf → Option PathBuf
parent [] = none
parent (root_dir ∷ []) = none
parent p = some (drop_last p)

-- `io::Error`, by the kinds that the program tells apart.
pub data IoError : Type 0 where
  not_found : IoError
  other : Text → IoError

-- The calls of `tokio::fs`. `World` is all that a call can see or change.
pub record FileSystem : Type 1 where
  pub World : Type 0
  pub read_to_string : PathBuf → World → Result Text IoError
  pub write : PathBuf → Text → World → Result (Unit {0}) IoError × World
  pub remove_file : PathBuf → World → Result (Unit {0}) IoError × World
  pub create_dir_all : PathBuf → World → Result (Unit {0}) IoError × World

abbrev pub readable : Result Text IoError → Option Text
readable (ok t) = some t
readable (err e) = none

-- The text of a file, if it can be read.
abbrev pub content : (fs : FileSystem) → PathBuf → fs.World → Option Text
content fs p w = readable (fs.read_to_string p w)

-- Nothing is found at a path.
abbrev pub Gone : (fs : FileSystem) → PathBuf → fs.World → Type 0
Gone fs p w = fs.read_to_string p w ≡ err not_found

-- What the program relies on. `Links` is the state of the links: `same l p q` says that two paths
-- resolve to one file or free place (by a link, by case, by an empty component), `below l p q` that `q`
-- resolves to the place of `p` or to one below it, where nothing is found if nothing is found at
-- `p`, and `sole l p` that `p` is the only name of its file: its last component is no symbolic link,
-- and there is no second hard link. A write follows links and changes only what is read through
-- paths of its place. A removal takes away the name `p` alone; what it does to other paths is known
-- only where `p` is the sole name. Creating a directory changes no file.
pub record FileLaws (fs : FileSystem) : Type 1 where
  pub Links : Type 0
  pub links : fs.World → Links
  pub same : Links → PathBuf → PathBuf → Bool
  pub below : Links → PathBuf → PathBuf → Bool
  pub sole : Links → PathBuf → Bool
  pub read-same :
      (p q : PathBuf) (w : fs.World)
      → same (links w) p q ≡ true
      → fs.read_to_string q w ≡ fs.read_to_string p w
  pub below-gone :
      (p q : PathBuf) (w : fs.World) → below (links w) p q ≡ true → Gone fs p w → Gone fs q w
  pub write-ok :
      (p q : PathBuf) (t : Text) (w : fs.World)
      → (fs.write p t w).0 ≡ ok tt
      → content fs q (fs.write p t w).1 ≡ (if same (links w) p q then some t else content fs q w)
  pub write-other :
      (p q : PathBuf) (t : Text) (w : fs.World)
      → same (links w) p q ≡ false
      → content fs q (fs.write p t w).1 ≡ content fs q w
  pub write-gone :
      (p q : PathBuf) (t : Text) (w : fs.World) → Gone fs q (fs.write p t w).1 → Gone fs q w
  pub write-links : (p : PathBuf) (t : Text) (w : fs.World) → links (fs.write p t w).1 ≡ links w
  pub remove-ok :
      (p q : PathBuf) (w : fs.World)
      → sole (links w) p ≡ true
      → (fs.remove_file p w).0 ≡ ok tt
      → content fs q (fs.remove_file p w).1 ≡ (if same (links w) p q then none else content fs q w)
  pub remove-gone :
      (p q : PathBuf) (w : fs.World)
      → sole (links w) p ≡ true
      → (fs.remove_file p w).0 ≡ ok tt
      → Gone fs q (fs.remove_file p w).1
      → (below (links w) p q ≡ true) ⊎ Gone fs q w
  pub remove-links :
      (p : PathBuf) (w : fs.World)
      → sole (links w) p ≡ true
      → links (fs.remove_file p w).1 ≡ links w
  pub remove-missing :
      (p q : PathBuf) (w : fs.World)
      → (fs.remove_file p w).0 ≡ err not_found
      → (content fs p w ≡ none)
        × (fs.read_to_string q (fs.remove_file p w).1 ≡ fs.read_to_string q w)
  pub create_dir-keeps :
      (p q : PathBuf) (w : fs.World) → content fs q (fs.create_dir_all p w).1 ≡ content fs q w
  pub create_dir-gone :
      (p q : PathBuf) (w : fs.World) → Gone fs q (fs.create_dir_all p w).1 → Gone fs q w
  pub create_dir-links : (p : PathBuf) (w : fs.World) → links (fs.create_dir_all p w).1 ≡ links w

-- From `w` to `v` the links and the texts of the files are the same, and no file is lost that cannot
-- be read.
abbrev pub SameFiles : (fs : FileSystem) → FileLaws fs → fs.World → fs.World → Type 0
SameFiles fs laws v w =
    (laws.links v ≡ laws.links w)
    × ((q : PathBuf) → Gone fs q v → Gone fs q w)
    × ((q : PathBuf) → content fs q v ≡ content fs q w)

-- No path at which nothing is found is a link: there are no dangling links.
abbrev pub IsUnlinked : (fs : FileSystem) → FileLaws fs → fs.World → Type 0
IsUnlinked fs laws w = (p : PathBuf) → Gone fs p w → laws.sole (laws.links w) p ≡ true

join_keeps_cwd :
    join (root_dir ∷ normal (str "w") ∷ []) (str "./a//b")
    ≡ root_dir ∷ normal (str "w") ∷ normal (str "a") ∷ normal (str "b") ∷ []
unfolding join
join_keeps_cwd = refl
