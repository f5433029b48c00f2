-- ===== src/StepPipeline/Runs.antt =====
-- Which steps a pipeline runs, and what it reports.
use dragnet.Prelude.{
  true, false, none, some, List, [], ◌∷◌, ◌++◌, ◌≡◌, refl, sym, ◌∙◌, ap, Bool-cases, inl, inr, ◌⊎◌,
}
use mathlib.Core.List.{append_assoc, append-nil}
use dragnet.StepPipeline.{
  StepResult, StepDefinition, PipelineStepResult, PipelineResult, findings_of,
  is_infrastructure_failure, should_abort, with_retry, run_from, run,
}

module _ {F W : Type 0} where
  -- The steps of the list run one after the other from a state, and none of them stops the pipeline.
  pub data Passes
      : List (StepDefinition F W) → W → List (PipelineStepResult F) → List F → W → Type 0 where
    none_left : {w : W} → Passes [] w [] [] w
    pass :
        {steps : List (StepDefinition F W)} {w w' w'' : W} {rs : List (PipelineStepResult F)}
        {fs : List F} (step : StepDefinition F W) (r : StepResult F)
        → with_retry step w ≡ (r, w')
        → should_abort step r ≡ false
        → Passes steps w' rs fs w''
        → Passes
            (step ∷ steps)
            w
            (record { step_name = step.name; result = r } ∷ rs)
            (findings_of r ++ fs)
            w''

  -- The step at which a pipeline stops, with what ran before it and what is never run; `results` and
  -- `found` were collected before.
  pub record Stops (results : List (PipelineStepResult F)) (found : List F)
      (steps : List (StepDefinition F W)) (w : W) (p : PipelineResult F) (w' : W) : Type 0 where
    pub before : List (StepDefinition F W)
    pub step : StepDefinition F W
    pub skipped : List (StepDefinition F W)
    pub mid : W
    pub rs : List (PipelineStepResult F)
    pub fs : List F
    pub last : StepResult F
    pub order : steps ≡ before ++ step ∷ skipped
    pub passed : Passes before w rs fs mid
    pub ran : with_retry step mid ≡ (last, w')
    pub stops : should_abort step last ≡ true
    pub reported :
        p.step_results ≡ results ++ (rs ++ record { step_name = step.name; result = last } ∷ [])
    pub gathered : p.findings ≡ found ++ (fs ++ findings_of last)
    pub infrastructure : p.infrastructure_failure ≡ is_infrastructure_failure last
    pub named : p.last_step_name ≡ some step.name

  pub record Completes (results : List (PipelineStepResult F)) (found : List F)
      (steps : List (StepDefinition F W)) (w : W) (p : PipelineResult F) (w' : W) : Type 0 where
    pub rs : List (PipelineStepResult F)
    pub fs : List F
    pub passed : Passes steps w rs fs w'
    pub reported : p.step_results ≡ results ++ rs
    pub gathered : p.findings ≡ found ++ fs
    pub infrastructure : p.infrastructure_failure ≡ false
    pub named : p.last_step_name ≡ none

  abbrev pub Ran :
      List (PipelineStepResult F)
      → List F
      → List (StepDefinition F W)
      → W
      → PipelineResult F × W
      → Type 0
  Ran results found steps w (p, w') =
      ((p.aborted ≡ false) × Completes results found steps w p w')
      ⊎ ((p.aborted ≡ true) × Stops results found steps w p w')

  -- the results of a step and of those after it
  after_step :
      (results : List (PipelineStepResult F)) (found : List F) (step : StepDefinition F W)
      (steps : List (StepDefinition F W)) (w w' : W) (r : StepResult F) (out : PipelineResult F × W)
      → with_retry step w ≡ (r, w')
      → should_abort step r ≡ false
      → Ran
          (results ++ record { step_name = step.name; result = r } ∷ [])
          (found ++ findings_of r)
          steps
          w'
          out
      → Ran results found (step ∷ steps) w out
  after_step results found step steps w w' r (p, w'') e on (inl (done, c)) = inl (
    done,
    record {
      rs = record { step_name = step.name; result = r } ∷ c.rs;
      fs = findings_of r ++ c.fs;
      passed = pass step r e on c.passed;
      reported = c.reported ∙ append_assoc results _ c.rs;
      gathered = c.gathered ∙ append_assoc found (findings_of r) c.fs;
      infrastructure = c.infrastructure;
      named = c.named;
    },
  )
  after_step results found step steps w w' r (p, w'') e on (inr (stopped, s)) = inr (
    stopped,
    record {
      before = step ∷ s.before;
      step = s.step;
      skipped = s.skipped;
      mid = s.mid;
      rs = record { step_name = step.name; result = r } ∷ s.rs;
      fs = findings_of r ++ s.fs;
      last = s.last;
      order = ap (λ l. step ∷ l) s.order;
      passed = pass step r e on s.passed;
      ran = s.ran;
      stops = s.stops;
      reported = s.reported ∙ append_assoc results _ _;
      gathered = simp (s.gathered, append_assoc);
      infrastructure = s.infrastructure;
      named = s.named;
    },
  )

  run_from-Ran :
      (steps : List (StepDefinition F W)) (results : List (PipelineStepResult F)) (found : List F)
      (w : W)
      → Ran results found steps w (run_from steps results found w)
  unfolding run_from
  run_from-Ran [] results found w = inl (
    refl,
    record {
      rs = [];
      fs = [];
      passed = none_left;
      reported = sym (append-nil results);
      gathered = sym (append-nil found);
      infrastructure = refl;
      named = refl;
    },
  )
  run_from-Ran (step ∷ steps) results found w =
      let (r, w') = with_retry step w in
      elim (Bool-cases (should_abort step r)) [
        | inl stop ↦
            rw (stop, run_from)
              (inr (
                refl,
                record {
                  before = [];
                  step = step;
                  skipped = steps;
                  mid = w;
                  rs = [];
                  fs = [];
                  last = r;
                  order = refl;
                  passed = none_left;
                  ran = refl;
                  stops = stop;
                  reported = refl;
                  gathered = refl;
                  infrastructure = refl;
                  named = refl;
                },
              ))
        | inr on ↦
            rw (on, run_from)
              (after_step results found step steps w w' r _ refl on (run_from-Ran steps _ _ w'))
      ]

-- A pipeline runs its steps in order. Either every step passes, it does not abort, and it reports
-- every step's result and findings; or it aborts at the first step whose final error is
-- of the infrastructure or which is critical, reports the results and findings up to and with that
-- step, names it, and runs no later step.
pub run-Ran :
    {F W : Type 0} (steps : List (StepDefinition F W)) (w : W) → Ran [] [] steps w (run steps w)
unfolding run
run-Ran steps w = run_from-Ran steps [] [] w
