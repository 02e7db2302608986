-- ===== src/Aggregator/Verdict.antt =====
-- src/aggregator/mod.rs: the verdict of a branch, and the texts that models wrap in fences.
-- `serde_json` is the parameter `Json`.
use loker.Prelude.{ℕ, Bool, true, false, Option, none, some, unwrap_or, ◌++◌, Result, ok, err}
use loker.Prelude.Text.{Text, str, trim, strip_prefix, strip_suffix}

-- What the program uses of `serde_json`: the value of a text, its fields, and what a value is.
pub record Json (V : Type 0) : Type 0 where
  pub from_str : Text → Result V Text
  pub get : V → Text → Option V
  pub as_bool : V → Option Bool
  pub as_u64 : V → Option ℕ
  pub as_str : V → Option Text
  pub display : V → Text

unfoldable pub strip_markdown_fences : Text → Text
unfolding strip_prefix strip_suffix trim
strip_markdown_fences text =
    let bare = unwrap_or (strip_prefix text (str "```json")) text in
    let opened = unwrap_or (strip_prefix bare (str "```")) bare in
    trim (unwrap_or (strip_suffix opened (str "```")) opened)

pub data AnyFailReason : Type 0 where
  verdict_rejected : (payload : Text) → AnyFailReason
  verdict_contract : (message : Text) → AnyFailReason
  backend_failed : (detail : Text) → AnyFailReason

module _ {V : Type 0} (json : Json V) where
  abbrev pub judged : Option Bool → V → Text → Result (Unit {0}) AnyFailReason
  judged (some true) other stripped = ok tt
  judged (some false) other stripped = err (verdict_rejected stripped)
  judged none other stripped =
      err (verdict_contract (str "expected bool, got " ++ json.display other))

  abbrev pub passed : Option V → Text → Result (Unit {0}) AnyFailReason
  passed none stripped = err (verdict_contract (str "missing required field 'pass'"))
  passed (some v) stripped = judged (json.as_bool v) v stripped

  abbrev pub verdict_of : Result V Text → Text → Result (Unit {0}) AnyFailReason
  verdict_of (err e) stripped = err (verdict_contract (str "JSON parse error: " ++ e))
  verdict_of (ok v) stripped = passed (json.get v (str "pass")) stripped

  unfoldable pub any_fail_evaluate : Text → Result (Unit {0}) AnyFailReason
  any_fail_evaluate text =
      let stripped = strip_markdown_fences (trim text) in
      verdict_of (json.from_str stripped) stripped
