-- ===== src/Cli/Options/Meaning.antt =====
-- The options of a command line: what each attribute of the namespace is, from the arguments that
-- its option was given, in their order.
use vector_pin.Prelude.{
  ℤ, ◌≡◌, ◌≢◌, ◌⊎◌, inl, inr, refl, sym, ap, ◌∙◌, subst, true, false, List, [], ◌∷◌, ◌++◌,
  append_assoc, Option, none, some, if◌then◌else◌, is_empty, arith, Bool-cases,
}
use vector_pin.Text.{Text}
use vector_pin.Text.Equality.{text_eq, text_eq_iff}
use vector_pin.Dict.{Dict, put, lookup-put_same, lookup-put_other}
use vector_pin.Cli.Options.{
  Kind, text, choice, number, switch, repeated, Declared, Value, absent, text_value, number_value,
  switch_value, list_value, Given, declared, default_value, value_in, items_of, act, act_all,
}

-- The arguments that an option was given.
abbrev pub arguments : Text → List Given → List (Option Text)
arguments flag [] = []
arguments flag ((f, a) ∷ given) =
    if text_eq f flag then a ∷ arguments flag given else arguments flag given

-- The last text among them, and all texts.
abbrev pub last_text : List (Option Text) → Option Text
last_text [] = none
last_text (a ∷ gs) = elim (last_text gs) [ none ↦ a | some s ↦ some s ]

abbrev pub texts : List (Option Text) → List Text
texts [] = []
texts (none ∷ gs) = texts gs
texts (some s ∷ gs) = s ∷ texts gs

module _ (to_int : Text → Option ℤ) where
  abbrev pub read_int : Text → Value
  read_int s = elim (to_int s) [ none ↦ absent | some n ↦ number_value n ]

  -- The attribute that was `old`, once its option is given these arguments.
  abbrev pub meaning : Kind → Value → List (Option Text) → Value
  meaning (text d) old gs = elim (last_text gs) [ none ↦ old | some s ↦ text_value s ]
  meaning (choice cs d) old gs = elim (last_text gs) [ none ↦ old | some s ↦ text_value s ]
  meaning (number n) old gs = elim (last_text gs) [ none ↦ old | some s ↦ read_int s ]
  meaning switch old gs = if is_empty gs then old else switch_value true
  meaning repeated old gs = if is_empty gs then old else list_value (items_of old ++ texts gs)

  abbrev pub acts : Kind → Value → List (Option Text) → Option Value
  acts k old [] = some old
  acts k old (a ∷ gs) = elim (act to_int k old a) [ none ↦ none | some v ↦ acts k v gs ]

  -- An action that stores the conversion of its argument.
  module _ (k : Kind) (conv : Text → Value)
      (stores : (old v : Value) (s : Text) → act to_int k old (some s) ≡ some v → conv s ≡ v)
      (refuses : (old : Value) → act to_int k old none ≡ none) where
    abbrev stored : Value → List (Option Text) → Value
    stored old gs = elim (last_text gs) [ none ↦ old | some s ↦ conv s ]

    acts-stored :
        (old v : Value) (gs : List (Option Text)) → acts k old gs ≡ some v → stored old gs ≡ v
    acts-stored old v [] h = ground arith
    acts-stored old v (none ∷ gs) h = absurd (never (rw (refuses old, acts) at h))
      where
        never : none ≡ some v → ⊥
        never q = cc
    acts-stored old v (some s ∷ gs) h =
        by_act (λ w. acts-stored w v gs) (act to_int k old (some s)) refl h
      where
        by_last :
            (w : Value) (o : Option Text)
            → conv s ≡ w
            → elim o as (λ _. Value) [ none ↦ w | some t ↦ conv t ] ≡ v
            → elim (elim o as (λ _. Option Text) [ none ↦ some s | some t ↦ some t ])
                as (λ _. Value) [ none ↦ old | some t ↦ conv t ]
              ≡ v
        by_last w none e q = e ∙ q
        by_last w (some t) e q = q

        by_act :
            ((w : Value) → acts k w gs ≡ some v → stored w gs ≡ v)
            → (o : Option Value) → act to_int k old (some s) ≡ o
            → elim o as (λ _. Option Value) [ none ↦ none | some w ↦ acts k w gs ] ≡ some v
            → stored old (some s ∷ gs) ≡ v
        by_act ih none e q = cc
        by_act ih (some w) e q = by_last w (last_text gs) (stores old w s e) (ih w q)

  acts-switch :
      (old v : Value) (gs : List (Option Text))
      → acts switch old gs ≡ some v
      → meaning switch old gs ≡ v
  unfolding act
  acts-switch old v [] h = ground arith
  acts-switch old v (some s ∷ gs) h = cc
  acts-switch old v (none ∷ []) h = ground arith
  acts-switch old v (none ∷ some s ∷ gs) h = cc
  acts-switch old v (none ∷ none ∷ gs) h = acts-switch old v (none ∷ gs) h

  acts-repeated :
      (old v : Value) (gs : List (Option Text))
      → acts repeated old gs ≡ some v
      → meaning repeated old gs ≡ v
  unfolding act
  acts-repeated old v [] h = ground arith
  acts-repeated old v (none ∷ gs) h = cc
  acts-repeated old v (some s ∷ []) h = ground arith
  acts-repeated old v (some s ∷ none ∷ gs) h = cc
  acts-repeated old v (some s ∷ some t ∷ gs) h =
      ap list_value (sym (append_assoc (items_of old) (s ∷ []) (texts (some t ∷ gs))))
      ∙ acts-repeated (list_value (items_of old ++ s ∷ [])) v (some t ∷ gs) h

  acts-meaning :
      (k : Kind) (old v : Value) (gs : List (Option Text))
      → acts k old gs ≡ some v
      → meaning k old gs ≡ v
  unfolding act
  acts-meaning (text d) = acts-stored (text d) text_value (λ old v s h. ground arith) (λ old. refl)
  acts-meaning (choice cs d) =
      acts-stored (choice cs d) text_value (λ old v s h. ground arith) (λ old. refl)
  acts-meaning (number n) =
      acts-stored (number n) read_int (λ old v s h. ground arith) (λ old. refl)
  acts-meaning switch = acts-switch
  acts-meaning repeated = acts-repeated

  pub declared-eq_flag :
      (flag : Text) (ds : List Declared) (d : Declared) → declared flag ds ≡ some d → d.flag ≡ flag
  unfolding declared
  declared-eq_flag flag [] d h = cc
  declared-eq_flag flag (e ∷ ds) d h =
      by_test (Bool-cases (text_eq e.flag flag)) (declared-eq_flag flag ds d)
    where
      by_test :
          (text_eq e.flag flag ≡ true) ⊎ (text_eq e.flag flag ≡ false)
          → (declared flag ds ≡ some d → d.flag ≡ flag)
          → d.flag ≡ flag
      by_test (inl q) ih = ground (arith, text_eq_iff e.flag flag, rw q at h)
      by_test (inr q) ih = ih (rw q at h)

  value_in-put_same :
      (d : Declared) (v : Value) (ns : Dict Value) → value_in d (put d.flag v ns) ≡ v
  unfolding value_in
  value_in-put_same d v ns =
      ap (λ o. elim o [ none ↦ default_value d.kind | some w ↦ w ]) (lookup-put_same d.flag v ns)

  value_in-put_other :
      (d : Declared) (flag : Text) (v : Value) (ns : Dict Value)
      → flag ≢ d.flag
      → value_in d (put flag v ns) ≡ value_in d ns
  unfolding value_in
  value_in-put_other d flag v ns other =
      ap (λ o. elim o [ none ↦ default_value d.kind | some w ↦ w ])
        (lookup-put_other flag d.flag v ns other)

  -- One action of a command line.
  pub record Acted (ds : List Declared) (ns after : Dict Value) (flag : Text) (a : Option Text)
      (given : List Given) : Type 0 where
    pub option : Declared
    pub found : declared flag ds ≡ some option
    pub value : Value
    pub acted : act to_int option.kind (value_in option ns) a ≡ some value
    pub rest : act_all to_int ds (put option.flag value ns) given ≡ some after

  pub act_all-Acted :
      (ds : List Declared) (ns after : Dict Value) (flag : Text) (a : Option Text)
      (given : List Given)
      → act_all to_int ds ns ((flag, a) ∷ given) ≡ some after
      → Acted ds ns after flag a given
  unfolding act_all
  act_all-Acted ds ns after flag a given h = by_option (declared flag ds) refl h
    where
      by_value :
          (e : Declared)
          → declared flag ds ≡ some e
          → (o : Option Value) → act to_int e.kind (value_in e ns) a ≡ o
          → elim o as (λ _. Option (Dict Value)) [
            | none ↦ none
            | some v ↦ act_all to_int ds (put e.flag v ns) given
          ]
            ≡ some after
          → Acted ds ns after flag a given
      by_value e found none q r = cc
      by_value e found (some v) q r = record {
        option = e;
        found = found;
        value = v;
        acted = q;
        rest = r;
      }

      by_option :
          (o : Option Declared)
          → declared flag ds ≡ o
          → elim o as (λ _. Option (Dict Value)) [
            | none ↦ none
            | some e ↦ elim (act to_int e.kind (value_in e ns) a) [
              | none ↦ none
              | some v ↦ act_all to_int ds (put e.flag v ns) given
            ]
          ]
            ≡ some after
          → Acted ds ns after flag a given
      by_option none found r = cc
      by_option (some e) found r = by_value e found (act to_int e.kind (value_in e ns) a) refl r

  acted_same :
      (d : Declared) (old v w : Value) (a : Option Text) (gs : List (Option Text))
      → act to_int d.kind old a ≡ some v
      → acts d.kind v gs ≡ some w
      → acts d.kind old (a ∷ gs) ≡ some w
  acted_same d old v w a gs h k = rw (h, acts) k

  -- The actions of a command line on one attribute.
  pub act_all-acts :
      (ds : List Declared) (d : Declared) (ns after : Dict Value) (given : List Given)
      → declared d.flag ds ≡ some d
      → act_all to_int ds ns given ≡ some after
      → acts d.kind (value_in d ns) (arguments d.flag given) ≡ some (value_in d after)
  unfolding act_all
  act_all-acts ds d ns after [] known h = ap some (ap (value_in d) (some-injective h))
    where
      some-injective : some ns ≡ some after → ns ≡ after
      some-injective q = ground arith
  act_all-acts ds d ns after ((flag, a) ∷ given) known h =
      let r = act_all-Acted ds ns after flag a given h in
      by_flag r (act_all-acts ds d (put r.option.flag r.value ns) after given known r.rest)
        (Bool-cases (text_eq flag d.flag))
    where
      declared_once : {e : Declared} → some e ≡ some d → e ≡ d
      declared_once q = ground arith

      apart : text_eq flag d.flag ≡ false → flag ≢ d.flag
      apart q z = ground (arith, (text_eq_iff flag d.flag).1 z)

      by_flag :
          (r : Acted ds ns after flag a given)
          → acts d.kind (value_in d (put r.option.flag r.value ns)) (arguments d.flag given)
            ≡ some (value_in d after)
          → (text_eq flag d.flag ≡ true) ⊎ (text_eq flag d.flag ≡ false)
          → acts d.kind (value_in d ns) (arguments d.flag ((flag, a) ∷ given))
            ≡ some (value_in d after)
      by_flag r ih (inl q) =
          let flags : flag ≡ d.flag = (text_eq_iff flag d.flag).0 q in
          let same : r.option ≡ d =
            declared_once (sym r.found ∙ ap (λ f. declared f ds) flags ∙ known) in
          rw q (
            acted_same d (value_in d ns) r.value (value_in d after) a (arguments d.flag given)
              (subst (λ e. act to_int e.kind (value_in e ns) a ≡ some r.value) same r.acted)
              (subst (λ z. acts d.kind z (arguments d.flag given) ≡ some (value_in d after))
                (ap (λ e. value_in d (put e.flag r.value ns)) same ∙ value_in-put_same d r.value ns)
                ih))
      by_flag r ih (inr q) = rw q (
          subst (λ z. acts d.kind z (arguments d.flag given) ≡ some (value_in d after))
            (value_in-put_other d r.option.flag r.value ns
              (λ z. apart q (sym (declared-eq_flag flag ds r.option r.found) ∙ z)))
            ih)

  -- After the actions of a command line on the declared options, the attribute of an option is the
  -- last argument that it was given, or its default; the integer that this argument denotes;
  -- whether its switch was given; or, for an option that may be repeated, all its arguments in
  -- order.
  pub value_in-meaning :
      (ds : List Declared) (d : Declared) (given : List Given) (ns : Dict Value)
      → declared d.flag ds ≡ some d
      → act_all to_int ds [] given ≡ some ns
      → value_in d ns ≡ meaning d.kind (default_value d.kind) (arguments d.flag given)
  unfolding value_in
  value_in-meaning ds d given ns known h = sym (
      acts-meaning d.kind (default_value d.kind) (value_in d ns) (arguments d.flag given)
        (act_all-acts ds d [] ns given known h))
