-- ===== src/Cli/Options/Required.antt =====
-- The required options of a command line: each is given, with an argument.
use vector_pin.Prelude.{
  ℤ, ◌≡◌, ◌≢◌, ◌⊎◌, inl, inr, refl, sym, ap, ◌∙◌, subst, Bool, true, false, not, ◌||◌, List, [],
  ◌∷◌, Option, none, some, all, arith, Bool-cases,
}
use vector_pin.Text.{Text}
use vector_pin.Text.Equality.{text_eq}
use vector_pin.Dict.{Dict, lookup, has_key, put}
use vector_pin.Cli.Options.{
  text, Declared, Value, absent, text_value, Given, declared, value_in, act, act_all, has_required,
}
use vector_pin.Cli.Options.Meaning.{
  arguments, last_text, Acted, act_all-Acted, declared-eq_flag, act_all-acts, acts,
}

has_key-put_other :
    (j k : Text) (v : Value) (d : Dict Value)
    → text_eq k j ≡ false
    → has_key j (put k v d) ≡ has_key j d
unfolding put has_key
has_key-put_other j k v [] h = ground arith
has_key-put_other j k v ((i, w) ∷ d) h =
    by_key (Bool-cases (text_eq i k)) (has_key-put_other j k v d h)
  where
    by_key :
        (text_eq i k ≡ true) ⊎ (text_eq i k ≡ false)
        → has_key j (put k v d) ≡ has_key j d
        → has_key j (put k v ((i, w) ∷ d)) ≡ has_key j ((i, w) ∷ d)
    by_key (inl e) ih = rw e refl
    by_key (inr e) ih = rw e (ap (λ b. text_eq i j || b) ih)

module _ (to_int : Text → Option ℤ) where
  -- An option that is not given leaves no attribute.
  has_key-arguments :
      (ds : List Declared) (flag : Text) (ns after : Dict Value) (given : List Given)
      → act_all to_int ds ns given ≡ some after
      → arguments flag given ≡ []
      → has_key flag after ≡ has_key flag ns
  unfolding act_all
  has_key-arguments ds flag ns after [] h e = ap (has_key flag) (sym (some_injective h))
    where
      some_injective : some ns ≡ some after → ns ≡ after
      some_injective q = ground arith
  has_key-arguments ds flag ns after ((f, a) ∷ given) h e =
      let r = act_all-Acted to_int ds ns after f a given h in
      by_flag r (Bool-cases (text_eq f flag))
        (has_key-arguments ds flag (put r.option.flag r.value ns) after given r.rest)
    where
      by_flag :
          (r : Acted to_int ds ns after f a given)
          → (text_eq f flag ≡ true) ⊎ (text_eq f flag ≡ false)
          → (arguments flag given ≡ []
              → has_key flag after ≡ has_key flag (put r.option.flag r.value ns))
          → has_key flag after ≡ has_key flag ns
      by_flag r (inl q) ih = absurd (never (rw q at e))
        where
          never : a ∷ arguments flag given ≡ [] → ⊥
          never z = cc
      by_flag r (inr q) ih =
          ih (rw q at e)
          ∙ has_key-put_other flag r.option.flag r.value ns (
              subst (λ z. text_eq z flag ≡ false)
                (sym (declared-eq_flag to_int f ds r.option r.found)) q)

  texts_given :
      (old v : Value) (gs : List (Option Text))
      → acts to_int (text none) old gs ≡ some v
      → gs ≢ []
      → (s : Text) × (last_text gs ≡ some s)
  unfolding act
  texts_given old v [] h e = absurd (e refl)
  texts_given old v (none ∷ gs) h e = cc
  texts_given old v (some s ∷ []) h e = (s, refl)
  texts_given old v (some s ∷ g ∷ gs) h e =
      let (t, last) = texts_given (text_value s) v (g ∷ gs) h (λ q. cc) in (t, rw last refl)

  all-declared :
      (test : Declared → Bool) (ds : List Declared) (flag : Text) (d : Declared)
      → declared flag ds ≡ some d
      → all test ds ≡ true
      → test d ≡ true
  unfolding declared
  all-declared test [] flag d h k = cc
  all-declared test (e ∷ ds) flag d h k =
      by_flag (Bool-cases (text_eq e.flag flag)) (λ q. all-declared test ds flag d q (ground arith))
    where
      same : some e ≡ some d → e ≡ d
      same q = ground arith

      by_flag :
          (text_eq e.flag flag ≡ true) ⊎ (text_eq e.flag flag ≡ false)
          → (declared flag ds ≡ some d → test d ≡ true)
          → test d ≡ true
      by_flag (inl q) ih = subst (λ z. test z ≡ true) (same (rw q at h)) (ground arith)
      by_flag (inr q) ih = ih (rw q at h)

  -- A required text option was given an argument.
  pub required-given :
      (ds : List Declared) (flag : Text) (given : List Given) (ns : Dict Value)
      → declared flag ds ≡ some (record { flag = flag; required = true; kind = text none })
      → act_all to_int ds [] given ≡ some ns
      → has_required ds ns ≡ true
      → (s : Text) × (last_text (arguments flag given) ≡ some s)
  unfolding has_required value_in lookup has_key
  required-given ds flag given ns known acted there =
      texts_given absent (value_in d ns) (arguments flag given)
        (act_all-acts to_int ds d [] ns given known acted)
        (λ e.
          apart (has_key-arguments ds flag [] ns given acted e)
            (all-declared (λ o. not o.required || has_key o.flag ns) ds flag d known there))
    where
      d : Declared
      d = record { flag = flag; required = true; kind = text none }

      apart : has_key flag ns ≡ false → has_key flag ns ≡ true → ⊥
      apart a b = ground arith
