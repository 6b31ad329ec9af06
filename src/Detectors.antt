-- ===== src/Detectors.antt =====
-- src/vectorpin/detectors/isolation_forest.py: `IsolationForestDetector`, around the model of
-- scikit-learn, and the calls that one detector gets.
pub mod History
use vector_pin.Prelude.{
  ℕ, ℤ, pos, negsuc, eqb_ℤ, Bool, true, false, not, List, [], ◌∷◌, Option, none, some, map,
  if◌then◌else◌,
}
use vector_pin.Outcome.{Result, Checked, ok, err, Exc, ◌>>=◌, ◌>>◌, raise_if}

-- The arguments of the constructor.
pub record Settings (F : Type 0) : Type 0 where
  pub n_estimators : ℕ
  pub contamination : F
  pub random_state : ℕ

-- What is called: `sklearn.ensemble`, which may be missing, its `IsolationForest` with
-- `n_jobs=-1`, and floating-point numbers. A `fit` that raises may leave the model changed.
pub record Forest (M E F : Type 0) : Type 0 where
  pub is_installed : Bool
  pub isolation_forest : Settings F → M
  pub fit_model : M → E → M × Checked
  pub score_samples : M → E → Result (List F)
  pub predict : M → E → Result (List ℤ)
  pub negate : F → F
  pub greater : F → F → Bool
  -- The number `n / 10 ^ k`
  pub decimal : ℕ → ℕ → F

-- `IsolationForestDetector`: `_model` and `_fitted`
pub record Detector (M : Type 0) : Type 0 where
  pub model : M
  pub fitted : Bool

-- A method call on a detector.
pub data Call (E F : Type 0) : Type 0 where
  fit_call : E → Call E F
  score_call : E → Call E F
  decide_call : E → Option F → Call E F

-- What a call returns.
pub data Answer (F : Type 0) : Type 0 where
  itself : Answer F
  scores : List F → Answer F
  flags : List Bool → Answer F

module _ {M E F : Type 0} (sk : Forest M E F) where
  -- The defaults of `__init__`
  unfoldable pub default_settings : Settings F
  default_settings = record {
    n_estimators = 200;
    contamination = sk.decimal 5 2;
    random_state = 42;
  }

  -- `IsolationForestDetector(...)`: an `ImportError` where the package is missing
  unfoldable pub new_detector : Settings F → Result (Detector M)
  new_detector settings = do
    raise_if (not sk.is_installed) Exc.other
    ok (record { model = sk.isolation_forest settings; fitted = false })

  -- `fit`: the detector afterwards, and whether it raises. The flag is set last.
  unfoldable pub fit : Detector M → E → Detector M × Checked
  fit d clean =
      let (model, done) = sk.fit_model d.model clean in
      (record { model = model; fitted = elim done [ ok u ↦ true | err e ↦ d.fitted ] }, done)

  -- `score`, with its `RuntimeError`
  unfoldable pub score : Detector M → E → Result (List F)
  score d embeddings = do
    raise_if (not d.fitted) Exc.other
    samples ← sk.score_samples d.model embeddings
    ok (map sk.negate samples)

  -- `decide`: scores are computed first, with or without a threshold
  unfoldable pub decide : Detector M → E → Option F → Result (List Bool)
  unfolding score
  decide d embeddings threshold = do
    scored ← score d embeddings
    elim threshold [
      | none ↦ (sk.predict d.model embeddings >>= λ labels. ok (map (eqb_ℤ (negsuc 0)) labels))
      | some t ↦ ok (map (λ s. sk.greater s t) scored)
    ]

  -- One call: the detector afterwards, and what the call returns or raises.
  unfoldable pub call : Detector M → Call E F → Detector M × Result (Answer F)
  unfolding fit score decide
  call d (fit_call clean) = let (d', done) = fit d clean in (d', done >> ok itself)
  call d (score_call embeddings) = (d, score d embeddings >>= λ s. ok (scores s))
  call d (decide_call embeddings threshold) =
      (d, decide d embeddings threshold >>= λ f. ok (flags f))

  -- A sequence of calls: the detector afterwards, and each call with its answer.
  unfoldable pub calls :
      Detector M → List (Call E F) → Detector M × List (Call E F × Result (Answer F))
  unfolding call
  calls d [] = (d, [])
  calls d (c ∷ cs) =
      let step = call d c in let rest = calls step.0 cs in (rest.0, (c, step.1) ∷ rest.1)
