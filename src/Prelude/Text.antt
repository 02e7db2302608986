-- ===== src/Prelude/Text.antt =====
-- Text as the list of its code points, and the functions of Rust's `str` that the program uses.
-- Positions are counted in code points; `byte_len` counts the bytes of the UTF-8 encoding.
use Prim.Native.Nat.{ℕ, zero, suc, ◌+◌, ◌-◌}
use Prim.Native.Char.{code}
use Prim.Native.String.{String}
use mathlib.Core.Path.{◌≡◌, refl}
use mathlib.Core.Bool.{Bool, true, false, ◌&&◌, ◌||◌}
use mathlib.Core.Option.{Option, none, some}
use mathlib.Core.List.{List, [], ◌∷◌, ◌++◌}
use loker.Prelude.Tests.{◌==◌, leb, ltb, if◌then◌else◌}
use loker.Prelude.Lists.{length, drop, take}

abbrev pub Text : Type 0
Text = List ℕ

-- The text of a literal.
abbrev pub str : String → Text
str String.[] = []
str (String.◌∷◌ c s) = code c ∷ str s

-- `==` on `str`
unfoldable pub text_eq : Text → Text → Bool
text_eq [] [] = true
text_eq (a ∷ s) (b ∷ t) = a == b && text_eq s t
text_eq [] (b ∷ t) = false
text_eq (a ∷ s) [] = false

-- `s.starts_with(p)`
unfoldable pub starts_with : Text → Text → Bool
starts_with s [] = true
starts_with [] (a ∷ p) = false
starts_with (b ∷ s) (a ∷ p) = b == a && starts_with s p

-- `s.strip_prefix(p)`
unfoldable pub strip_prefix : Text → Text → Option Text
unfolding starts_with
strip_prefix s p = if starts_with s p then some (drop (length p) s) else none

-- `s.strip_suffix(p)`
unfoldable pub strip_suffix : Text → Text → Option Text
unfolding text_eq
strip_suffix s p =
    let n = length s - length p in
    if ltb (length s) (length p)
    then none
    else if text_eq (drop n s) p
    then some (take n s)
    else none

-- `s.contains(p)`
unfoldable pub contains : Text → Text → Bool
unfolding starts_with
contains [] p = starts_with [] p
contains (c ∷ s) p = starts_with (c ∷ s) p || contains s p

-- `s.find(p)`
unfoldable pub find : Text → Text → Option ℕ
unfolding starts_with
find [] p = if starts_with [] p then some 0 else none
find (c ∷ s) p =
    let rest = find s p in
    if starts_with (c ∷ s) p then some 0 else elim rest [ none ↦ none | some n ↦ some (suc n) ]

-- `s.split_once(c)`
unfoldable pub split_once : ℕ → Text → Option (Text × Text)
split_once c [] = none
split_once c (a ∷ s) =
    let rest = split_once c s in
    if a == c then some ([], s) else elim rest [ none ↦ none | some p ↦ some (a ∷ p.0, p.1) ]

-- `char::is_whitespace`, the code points of Unicode's White_Space.
unfoldable pub is_whitespace : ℕ → Bool
is_whitespace c =
    c == 32
    || (leb 9 c && leb c 13)
    || c == 133
    || c == 160
    || c == 5760
    || (leb 8192 c && leb c 8202)
    || c == 8232
    || c == 8233
    || c == 8239
    || c == 8287
    || c == 12288

unfoldable pub drop_while : (ℕ → Bool) → Text → Text
drop_while p [] = []
drop_while p (c ∷ s) = let rest = drop_while p s in if p c then rest else c ∷ s

abbrev pub cons_unless : (ℕ → Bool) → ℕ → Text → Text
cons_unless p c [] = if p c then [] else c ∷ []
cons_unless p c (d ∷ s) = c ∷ d ∷ s

-- Drops the longest suffix of code points that pass `p`.
unfoldable pub drop_end_while : (ℕ → Bool) → Text → Text
drop_end_while p [] = []
drop_end_while p (c ∷ s) = cons_unless p c (drop_end_while p s)

-- `s.trim()`
unfoldable pub trim : Text → Text
unfolding drop_while drop_end_while is_whitespace
trim s = drop_end_while is_whitespace (drop_while is_whitespace s)

-- `s.trim_end_matches('\n')`
unfoldable pub trim_end_newlines : Text → Text
unfolding drop_end_while
trim_end_newlines s = drop_end_while (λ c. c == 10) s

-- The walk of `replace`: `skip` code points of the last match are still to be passed over.
unfoldable pub replace_from : ℕ → Text → Text → Text → Text
unfolding starts_with
replace_from skip p new [] = []
replace_from (suc k) p new (c ∷ s) = replace_from k p new s
replace_from zero p new (c ∷ s) =
    let hit = starts_with (c ∷ s) p in
    let rest = replace_from (if hit then length p - 1 else 0) p new s in
    if hit then new ++ rest else c ∷ rest

-- `s.replace(p, new)` for a pattern that is not empty.
unfoldable pub replace : Text → Text → Text → Text
unfolding replace_from
replace s p new = replace_from 0 p new s

-- The walk of `matches(p).count()`, over matches that do not overlap.
unfoldable pub count_from : ℕ → Text → Text → ℕ
unfolding starts_with
count_from skip p [] = 0
count_from (suc k) p (c ∷ s) = count_from k p s
count_from zero p (c ∷ s) =
    let hit = starts_with (c ∷ s) p in
    let rest = count_from (if hit then length p - 1 else 0) p s in if hit then suc rest else rest

-- `s.matches(p).count()` for a pattern that is not empty.
unfoldable pub match_count : Text → Text → ℕ
unfolding count_from
match_count s p = count_from 0 p s

-- `s.replacen(p, new, 1)` for a pattern that is not empty.
unfoldable pub replace_first : Text → Text → Text → Text
unfolding starts_with
replace_first [] p new = []
replace_first (c ∷ s) p new =
    let rest = c ∷ replace_first s p new in
    if starts_with (c ∷ s) p then new ++ drop (length p) (c ∷ s) else rest

abbrev pub cons_line : ℕ → List Text → List Text
cons_line c [] = (c ∷ []) ∷ []
cons_line c (l ∷ ls) = (c ∷ l) ∷ ls

-- `s.lines()`: a line ends by `\n` or `\r\n`.
unfoldable pub lines : Text → List Text
unfolding starts_with
lines [] = []
lines (c ∷ s) =
    let rest = lines s in
    if c == 10
    then [] ∷ rest
    else if c == 13 && starts_with s (10 ∷ [])
    then rest
    else cons_line c rest

-- `ls.join("\n")`
unfoldable pub join_lines : List Text → Text
join_lines [] = []
join_lines (l ∷ []) = l
join_lines (l ∷ m ∷ ls) = l ++ (10 ∷ join_lines (m ∷ ls))

-- The bytes of one code point in UTF-8.
unfoldable pub char_len : ℕ → ℕ
char_len c = if leb c 127 then 1 else if leb c 2047 then 2 else if leb c 65535 then 3 else 4

-- `s.len()`
unfoldable pub byte_len : Text → ℕ
unfolding char_len
byte_len [] = 0
byte_len (c ∷ s) = char_len c + byte_len s

lines_ends : lines (str "a\r\n\nb") ≡ str "a" ∷ [] ∷ str "b" ∷ []
unfolding lines
lines_ends = refl

replace_twice : replace (str "aXXbXX") (str "XX") (str "-") ≡ str "a-b-"
unfolding replace
replace_twice = refl

trim_both : trim (str " a b \n") ≡ str "a b"
unfolding trim
trim_both = refl

match_count_no_overlap : match_count (str "aaaaa") (str "aa") ≡ 2
unfolding match_count
match_count_no_overlap = refl
