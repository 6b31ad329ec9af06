-- ===== src/Detectors/History.antt =====
-- What a detector answers after any sequence of calls.
use vector_pin.Prelude.{
  negsuc, eqb_ℤ, ◌≡◌, refl, ap, ◌∙◌, subst, Bool, true, false, not, ◌||◌, List, [], ◌∷◌, Option,
  none, some, map, any, if◌then◌else◌,
}
use vector_pin.Outcome.{
  Result, Checked, ok, err, Exc, ◌>>=◌, ◌>>◌, raise_if, >>=-eq-ok, ok-injective,
}
use vector_pin.Detectors.{
  Settings, Forest, Detector, Call, fit_call, score_call, decide_call, Answer, new_detector, fit,
  score, decide, itself, call, calls,
}

-- A call of `fit` that returned.
abbrev pub is_fit_returned : {E F : Type 0} → Call E F × Result (Answer F) → Bool
is_fit_returned (fit_call clean, ok a) = true
is_fit_returned _ = false

module _ {M E F : Type 0} (sk : Forest M E F) where
  -- The model that the `fit` calls of a sequence train, whatever comes between them.
  abbrev pub trained : M → List (Call E F) → M
  trained m [] = m
  trained m (fit_call clean ∷ cs) = trained (sk.fit_model m clean).0 cs
  trained m (_ ∷ cs) = trained m cs

  calls-model :
      (d : Detector M) (cs : List (Call E F)) → (calls sk d cs).0.model ≡ trained d.model cs
  unfolding calls call fit
  calls-model d [] = refl
  calls-model d (fit_call clean ∷ cs) = calls-model (fit sk d clean).0 cs
  calls-model d (score_call e ∷ cs) = calls-model d cs
  calls-model d (decide_call e t ∷ cs) = calls-model d cs

  or_false : (f : Bool) → f ≡ (f || false)
  or_false true = refl
  or_false false = refl

  flag_of :
      (clean : E) (done : Checked) (f rest : Bool)
      → (elim done [ ok u ↦ true | err e ↦ f ] || rest)
        ≡ (f || (is_fit_returned {F = F} (fit_call clean, done >> ok itself) || rest))
  flag_of clean (ok u) true rest = refl
  flag_of clean (ok u) false rest = refl
  flag_of clean (err e) f rest = refl

  calls-fitted :
      (d : Detector M) (cs : List (Call E F))
      → (calls sk d cs).0.fitted ≡ (d.fitted || any is_fit_returned (calls sk d cs).1)
  unfolding calls call fit
  calls-fitted d [] = or_false d.fitted
  calls-fitted d (fit_call clean ∷ cs) =
      calls-fitted (fit sk d clean).0 cs
      ∙ flag_of clean (sk.fit_model d.model clean).1 d.fitted
          (any is_fit_returned (calls sk (fit sk d clean).0 cs).1)
  calls-fitted d (score_call e ∷ cs) = calls-fitted d cs
  calls-fitted d (decide_call e t ∷ cs) = calls-fitted d cs

  -- The scores of a trained model, the higher the more anomalous.
  abbrev pub scored : M → E → Result (List F)
  scored m e = sk.score_samples m e >>= λ samples. ok (map sk.negate samples)

  -- Its decisions: scikit-learn's own label -1, or a score above the threshold.
  abbrev pub decided : M → E → Option F → Result (List Bool)
  decided m e none =
      scored m e >>= λ s. sk.predict m e >>= λ labels. ok (map (eqb_ℤ (negsuc 0)) labels)
  decided m e (some t) = scored m e >>= λ s. ok (map (λ x. sk.greater x t) s)

  score_fitted :
      (d : Detector M) (e : E)
      → score sk d e ≡ (if d.fitted then scored d.model e else err Exc.other)
  unfolding score
  score_fitted d e = by_flag d.fitted
    where
      by_flag :
          (f : Bool)
          → (raise_if (not f) Exc.other >>= λ u. scored d.model e)
            ≡ (if f then scored d.model e else err Exc.other)
      by_flag true = refl
      by_flag false = refl

  gated :
      {A B : Type 0} (f : Bool) (r : Result A) (next : A → Result B)
      → ((if f then r else err Exc.other) >>= next) ≡ (if f then r >>= next else err Exc.other)
  gated true r next = refl
  gated false r next = refl

  decide_fitted :
      (d : Detector M) (e : E) (t : Option F)
      → decide sk d e t ≡ (if d.fitted then decided d.model e t else err Exc.other)
  unfolding decide
  decide_fitted d e none =
      ap (λ r. r >>= λ s. sk.predict d.model e >>= λ labels. ok (map (eqb_ℤ (negsuc 0)) labels))
        (score_fitted d e)
      ∙ gated d.fitted (scored d.model e) _
  decide_fitted d e (some t) =
      ap (λ r. r >>= λ s. ok (map (λ x. sk.greater x t) s)) (score_fitted d e)
      ∙ gated d.fitted (scored d.model e) _

  -- What `score` and `decide` answer after the calls `cs`.
  abbrev Answers : Settings F → List (Call E F) → E → Option F → Detector M → Type 0
  Answers settings cs e t d =
      (score sk (calls sk d cs).0 e ≡ (
        if any is_fit_returned (calls sk d cs).1
        then scored (trained (sk.isolation_forest settings) cs) e
        else err Exc.other))
      × (decide sk (calls sk d cs).0 e t ≡ (
          if any is_fit_returned (calls sk d cs).1
          then decided (trained (sk.isolation_forest settings) cs) e t
          else err Exc.other))

  answers :
      (settings : Settings F) (cs : List (Call E F)) (e : E) (t : Option F)
      → Answers settings cs e t (record { model = sk.isolation_forest settings; fitted = false })
  answers settings cs e t =
      let d : Detector M = record { model = sk.isolation_forest settings; fitted = false } in
      let m = calls-model d cs in
      let f = calls-fitted d cs in
      (
        score_fitted (calls sk d cs).0 e ∙ rw (m, f) refl,
        decide_fitted (calls sk d cs).0 e t ∙ rw (m, f) refl,
      )

  -- After any sequence of calls on a new detector, `score` and `decide` raise `RuntimeError` when no
  -- call of `fit` in it has returned; otherwise they answer from the model that the fits have
  -- trained: the negated samples, and, with the threshold or without, the comparison of the scores
  -- or of the labels with -1.
  pub calls-history :
      (settings : Settings F) (d : Detector M) (cs : List (Call E F)) (e : E) (t : Option F)
      → new_detector sk settings ≡ ok d
      → let (after, answers) = calls sk d cs in
        let m = trained (sk.isolation_forest settings) cs in
        (score sk after e ≡ (if any is_fit_returned answers then scored m e else err Exc.other))
        × (decide sk after e t
            ≡ (if any is_fit_returned answers then decided m e t else err Exc.other))
  unfolding new_detector
  calls-history settings d cs e t h =
      let (_, _, h) = >>=-eq-ok (raise_if (not sk.is_installed) Exc.other) _ h in
      subst (Answers settings cs e t) (ok-injective h) (answers settings cs e t)
