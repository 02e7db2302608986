-- ===== src/ApplyVerify/EditParser/RoundTrip.antt =====
-- Diffs printed line by line, and what `parse_files` reads from them.
use loker.Prelude.{
  ◌⊎◌, ℕ, zero, suc, ◌≤◌, ◌≡◌, refl, Bool, true, false, ◌&&◌, some, List, [], ◌∷◌, ◌++◌, map,
  append-nil, append_assoc, is_nil, All, length, length-append, ok, is_ok, arith, ◌∙◌,
}
use loker.Prelude.Text.{Text, str, starts_with, trim, trim_end_newlines}
use loker.ApplyVerify.EditParser.{FileEdit}
use loker.ApplyVerify.EditParser.Diff.{
  extract_diff_path, ends_file, is_new_header, with_newline, collect_hunks, parse_file, parse_files,
}

-- A line of a hunk as a diff tool means it.
pub data HunkLine : Type 0 where
  removed added context : Text → HunkLine

abbrev pub print_line : HunkLine → Text
print_line (removed t) = b'-' ∷ t
print_line (added t) = b'+' ∷ t
print_line (context t) = b' ' ∷ t

abbrev old_line : HunkLine → Text
old_line (removed t) = with_newline t
old_line (added t) = []
old_line (context t) = with_newline t

abbrev new_line : HunkLine → Text
new_line (removed t) = []
new_line (added t) = with_newline t
new_line (context t) = with_newline t

abbrev pub old_of : List HunkLine → Text
old_of [] = []
old_of (l ∷ ls) = old_line l ++ old_of ls

abbrev pub new_of : List HunkLine → Text
new_of [] = []
new_of (l ∷ ls) = new_line l ++ new_of ls

-- The printed line is no `---` header: only a removed line can look like one.
abbrev pub IsPlain : HunkLine → Type 0
IsPlain (removed t) = starts_with t (str "-- ") ≡ false
IsPlain (added t) = Unit
IsPlain (context t) = Unit

-- A file of a diff: its path, what follows `@@ ` in the hunk header, and the lines of the hunk.
pub record FileDiff : Type 0 where
  pub path : Text
  pub range : Text
  pub hunk : List HunkLine

abbrev pub print_file : FileDiff → List Text
print_file d =
    (str "--- a/" ++ d.path)
    ∷ (str "+++ b/" ++ d.path)
    ∷ (str "@@ " ++ d.range)
    ∷ map print_line d.hunk

abbrev pub print_files : List FileDiff → List Text
print_files [] = []
print_files (d ∷ ds) = print_file d ++ print_files ds

abbrev pub edit_of : FileDiff → FileEdit
edit_of d = record {
  file = d.path;
  old = trim_end_newlines (old_of d.hunk);
  new = trim_end_newlines (new_of d.hunk);
}

pub record IsPrintable (d : FileDiff) : Type 0 where
  pub trimmed : trim (str "b/" ++ d.path) ≡ str "b/" ++ d.path
  pub plain : All IsPlain d.hunk
  pub changes : (is_nil (old_of d.hunk) ≡ false) ⊎ (is_nil (new_of d.hunk) ≡ false)

-- A plain line stands in no branch but the one of its own prefix.
collect-line :
    (l : HunkLine) (old new : Text) (ls : List Text)
    → IsPlain l
    → collect_hunks true old new (print_line l ∷ ls)
      ≡ collect_hunks true (old ++ old_line l) (new ++ new_line l) ls
unfolding collect_hunks
collect-line (removed t) old new ls h = rw h
collect-line (added t) old new ls h = refl
collect-line (context t) old new ls h = refl

collect-hunk :
    (hunk : List HunkLine) (old new : Text) (rest : List Text)
    → All IsPlain hunk
    → collect_hunks true old new (map print_line hunk ++ rest)
      ≡ collect_hunks true (old ++ old_of hunk) (new ++ new_of hunk) rest
collect-hunk [] old new rest h = simp append-nil
collect-hunk (l ∷ ls) old new rest h =
    collect-line l old new (map print_line ls ++ rest) h.0
    ∙ collect-hunk ls (old ++ old_line l) (new ++ new_line l) rest h.1
    ∙ simp append_assoc

-- The lines that end a file's hunks: none, or the header of the next file.
abbrev Stops : List Text → Type 0
Stops [] = Unit
Stops (l ∷ ls) = ends_file l ≡ true

collect-stop :
    (in_hunk : Bool) (old new : Text) (rest : List Text)
    → Stops rest
    → collect_hunks in_hunk old new rest ≡ (old, new, rest)
unfolding collect_hunks
collect-stop in_hunk old new [] h = refl
collect-stop in_hunk old new (l ∷ ls) h = rw h

Stops-print_files : (ds : List FileDiff) → Stops (print_files ds)
unfolding starts_with
Stops-print_files [] = tt
Stops-print_files (d ∷ ds) = refl

collect-file :
    (d : FileDiff) (rest : List Text)
    → All IsPlain d.hunk
    → Stops rest
    → collect_hunks false [] [] ((str "@@ " ++ d.range) ∷ (map print_line d.hunk ++ rest))
      ≡ (old_of d.hunk, new_of d.hunk, rest)
collect-file d rest plain stops =
    step ∙ (collect-hunk d.hunk [] [] rest plain ∙ collect-stop true _ _ rest stops)
  where
    step :
        collect_hunks false [] [] ((str "@@ " ++ d.range) ∷ (map print_line d.hunk ++ rest))
        ≡ collect_hunks true [] [] (map print_line d.hunk ++ rest)
    step = unfold collect_hunks in refl

extract-print :
    (path : Text)
    → trim (str "b/" ++ path) ≡ str "b/" ++ path
    → extract_diff_path (str "+++ b/" ++ path) ≡ some path
unfolding extract_diff_path
extract-print path h = rw h

both_nil : (a b : Text) → (is_nil a ≡ false) ⊎ (is_nil b ≡ false) → (is_nil a && is_nil b) ≡ false
both_nil a b h = ground arith

parse_file-print :
    (d : FileDiff) (rest : List Text)
    → IsPrintable d
    → Stops rest
    → parse_file
        (str "--- a/" ++ d.path)
        ((str "+++ b/" ++ d.path) ∷ (str "@@ " ++ d.range) ∷ (map print_line d.hunk ++ rest))
      ≡ ok (edit_of d, rest)
parse_file-print d rest p stops =
    unfold parse_file in
    rw (collect-file d rest p.plain stops)
      (rw (extract-print d.path p.trimmed) (rw (both_nil _ _ p.changes) refl))

-- Reading the printed lines of a list of printable files, whose removed lines do not begin with `--
-- `, gives their edits, with any fuel that is as long as the lines.
pub parse_files-print_files :
    (ds : List FileDiff) (fuel : ℕ)
    → length (print_files ds) ≤ fuel
    → All IsPrintable ds
    → parse_files fuel (print_files ds) ≡ ok (map edit_of ds)
unfolding parse_files starts_with
parse_files-print_files [] zero h p = refl
parse_files-print_files [] (suc n) h p = refl
parse_files-print_files (d ∷ ds) zero h p = absurd (omega arith)
parse_files-print_files (d ∷ ds) (suc n) h p =
    let shorter : length (print_files ds) ≤ n = enough in
    let first = parse_file-print d (print_files ds) p.0 (Stops-print_files ds) in
    rw first (rw (parse_files-print_files ds n shorter p.1))
  where
    enough : length (print_files ds) ≤ n
    enough = omega (arith, length-append (map print_line d.hunk) (print_files ds))

-- The lines of a file whose hunk removes a line that begins with `-- `, between two parts of it.
abbrev pub print_dashed : FileDiff → Text → List HunkLine → List Text
print_dashed d t post =
    (str "--- a/" ++ d.path)
    ∷ (str "+++ b/" ++ d.path)
    ∷ (str "@@ " ++ d.range)
    ∷ (map print_line d.hunk ++ (print_line (removed (str "-- " ++ t)) ∷ map print_line post))

-- The line that follows is no `+++` header.
abbrev pub NoHeaderNext : List HunkLine → Type 0
NoHeaderNext [] = Unit
NoHeaderNext (l ∷ ls) = is_new_header (print_line l) ≡ false

parse_file-dashes :
    (t : Text) (post : List HunkLine)
    → NoHeaderNext post
    → is_ok (parse_file (print_line (removed (str "-- " ++ t))) (map print_line post)) ≡ false
unfolding parse_file
parse_file-dashes t [] h = refl
parse_file-dashes t (l ∷ ls) h = rw h

-- A diff of a printable file whose hunk then removes a line that begins with `-- ` is refused,
-- unless the next printed line looks like a `+++` header: the removed line is taken for the header
-- of another file.
pub parse_files-dashes :
    (d : FileDiff) (t : Text) (post : List HunkLine) (fuel : ℕ)
    → length (print_dashed d t post) ≤ fuel
    → IsPrintable d
    → NoHeaderNext post
    → is_ok (parse_files fuel (print_dashed d t post)) ≡ false
unfolding parse_files starts_with
parse_files-dashes d t post zero h p next = absurd (omega arith)
parse_files-dashes d t post (suc zero) h p next = absurd (omega arith)
parse_files-dashes d t post (suc (suc n)) h p next =
    let rest = print_line (removed (str "-- " ++ t)) ∷ map print_line post in
    rw (parse_file-print d rest p refl) (ground (arith, parse_file-dashes t post next))
