-- ===== src/Strategy/FanOut/Floor.antt =====
-- What the answers of a fan-out come to: the floor on the answers, and the aggregator's end.
use loker.Prelude.{false, ◌≡◌, true, ◌||◌, none, some, List, is_nil, Result, ok, err}
use loker.Prelude.Text.{Text}
use loker.ApplyVerify.Files.{FileSystem}
use loker.Strategy.{no_backends, prompt_render, backend_not_found}
use loker.Strategy.Escalating.{Backend, PhaseContext}
use loker.Aggregator.Verdict.{Json}
use loker.Aggregator.Judge.{Render}
use loker.Aggregator.Vote.{Deps}
use loker.Aggregator.Vote.Ties.{InRange}
use loker.Strategy.FanOut.{ParallelFanOut, FanOutput, FanError, strategy_error, Arrival, FanTexts}
use loker.Strategy.FanOut.Conclude.{missing_backend}
use loker.Strategy.FanOut.Fanned.{Fanned}
use loker.Strategy.FanOut.Gathered.{Gathered}

module _ (fs : FileSystem) {V : Type 0} (json : Json V) (render_ballot : Render) (deps : Deps)
    (texts : FanTexts) (self : ParallelFanOut) (ctx : PhaseContext)
    (backends : List (Backend fs.World)) (range : InRange deps) where
  open fs use {World}

  -- What a call returns: nobody to ask, a prompt that is not rendered, a target without its backend,
  -- or what comes of the queries.
  pub data Executed (rendered : Result Text Text) (arrivals : List Arrival)
      : Result FanOutput FanError → Type 0 where
    nobody :
        (is_nil self.targets || is_nil backends) ≡ true
        → Executed rendered arrivals (err (strategy_error no_backends))
    unrendered :
        (e : Text)
        → (is_nil self.targets || is_nil backends) ≡ false
        → rendered ≡ err e
        → Executed rendered arrivals (err (strategy_error (prompt_render e)))
    missing :
        (name prompt : Text)
        → (is_nil self.targets || is_nil backends) ≡ false
        → rendered ≡ ok prompt
        → missing_backend backends self.targets ≡ some name
        → Executed rendered arrivals (err (strategy_error (backend_not_found name)))
    queried :
        (r : Result FanOutput FanError) (prompt : Text)
        → (is_nil self.targets || is_nil backends) ≡ false
        → rendered ≡ ok prompt
        → missing_backend backends self.targets ≡ none
        → Fanned fs json render_ballot deps texts self ctx backends arrivals r
        → Executed rendered arrivals r
