-- ===== src/Adapters/Transport/Refuses.antt =====
-- When `_enforce_tls` of src/vectorpin/adapters/pgvector.py and qdrant.py lets a connection pass.
use vector_pin.Prelude.{
  ◌≡◌, ◌⊎◌, ◌↔◌, inl, inr, refl, sym, ap, ◌∙◌, Bool, true, false, not, arith, ◌++◌, ◌||◌, List, [],
  ◌∷◌, Option, none, some, Bool-cases, All, if◌then◌else◌,
}
use vector_pin.Outcome.{Checked, ok, err, Exc}
use vector_pin.Text.{Text, codes}
use vector_pin.Text.Split.{starts_with, after_first, split_on, lower, strip, is_bracket}
use vector_pin.Dict.{contains}
use vector_pin.Text.Equality.{text_eq_iff}
use vector_pin.Adapters.Transport.{
  Url, is_loopback, is_secure, secure_modes, sslmode_of, enforce_tls_pgvector,
}

-- A host name, but for the brackets around it and the case of its letters.
abbrev pub bare : Text → Text
bare host = lower (strip is_bracket host)

-- A name of the local host. The last alternative is any name that begins with `127.`.
abbrev pub Loopback : Option Text → Type 0
Loopback none = ⊥
Loopback (some host) =
    (bare host ≡ codes "localhost")
    ⊎ ((bare host ≡ codes "127.0.0.1")
        ⊎ ((bare host ≡ codes "::1") ⊎ ((rest : Text) × (bare host ≡ codes "127." ++ rest))))

starts_with-append : (a s : Text) → (starts_with a s ≡ true) ↔ ((rest : Text) × (s ≡ a ++ rest))
unfolding starts_with
starts_with-append [] s = (λ h. (s, refl), λ h. refl)
starts_with-append (c ∷ a) [] = (λ h. cc, λ (r, e). cc)
starts_with-append (c ∷ a) (d ∷ s) = (
  λ h.
      let (rest, q) = (starts_with-append a s).0 (ground arith) in
      let e : d ≡ c = ground arith in (rest, λ i. e i ∷ q i),
  λ (rest, q).
      let e : d ≡ c = ground (arith, q) in
      let t : s ≡ a ++ rest = ground (arith, q) in
      let m = (starts_with-append a s).1 (rest, t) in ground arith,
)

listed :
    {P : Type 0} (h a b c : Text) (d : Bool)
    → ((d ≡ true) ↔ P)
    → (contains h (a ∷ b ∷ c ∷ []) || d ≡ true) ↔ ((h ≡ a) ⊎ ((h ≡ b) ⊎ ((h ≡ c) ⊎ P)))
unfolding contains
listed h a b c d (f, g) =
    let (f1, g1) = text_eq_iff a h in
    let (f2, g2) = text_eq_iff b h in let (f3, g3) = text_eq_iff c h in ground arith

is_loopback_iff : (host : Option Text) → (is_loopback host ≡ true) ↔ Loopback host
unfolding is_loopback
is_loopback_iff none = (λ h. cc, λ h. absurd h)
is_loopback_iff (some []) = (λ h. cc, λ h. absurd (unnamed h))
  where
    unnamed : Loopback (some []) → ⊥
    unnamed (inl e) = cc
    unnamed (inr (inl e)) = cc
    unnamed (inr (inr (inl e))) = cc
    unnamed (inr (inr (inr (rest, e)))) = cc
is_loopback_iff (some (c ∷ s)) =
    let h = bare (c ∷ s) in
    listed h (codes "localhost") (codes "127.0.0.1") (codes "::1") (starts_with (codes "127.") h)
      (starts_with-append (codes "127.") h)

abbrev sets_mode : Text → Bool
sets_mode pair = starts_with (codes "sslmode=") pair

abbrev mode_in : Text → Text
mode_in pair = lower (after_first (codes "=") pair)

-- The last pair of a query that sets `sslmode` sets it to `mode`.
pub data LastMode (mode : Text) : List Text → Type 0 where
  last :
      (pair : Text) (pairs : List Text)
      → sets_mode pair ≡ true
      → mode ≡ mode_in pair
      → All (λ q. sets_mode q ≡ false) pairs
      → LastMode mode (pair ∷ pairs)
  before : (pair : Text) (pairs : List Text) → LastMode mode pairs → LastMode mode (pair ∷ pairs)

unset-sslmode :
    (m : Option Text) (pairs : List Text)
    → All (λ q. sets_mode q ≡ false) pairs
    → sslmode_of m pairs ≡ m
unfolding sslmode_of
unset-sslmode m [] a = refl
unset-sslmode m (pair ∷ pairs) (e, a) = (rw e) ∙ unset-sslmode m pairs a

last_sslmode :
    (mode : Text) (m : Option Text) (pairs : List Text)
    → LastMode mode pairs
    → sslmode_of m pairs ≡ some mode
unfolding sslmode_of
last_sslmode mode m _ (last pair pairs e q a) =
    (rw e) ∙ unset-sslmode (some (mode_in pair)) pairs a ∙ ap some (sym q)
last_sslmode mode m _ (before pair pairs l) =
    go (Bool-cases (sets_mode pair)) (λ k. last_sslmode mode k pairs l)
  where
    go :
        (sets_mode pair ≡ true) ⊎ (sets_mode pair ≡ false)
        → ((k : Option Text) → sslmode_of k pairs ≡ some mode)
        → sslmode_of m (pair ∷ pairs) ≡ some mode
    go (inl e) ih = (rw e) ∙ ih (some (mode_in pair))
    go (inr e) ih = (rw e) ∙ ih m

-- The loop gives the mode of the last pair that sets one, or what it started with.
sslmode_cases :
    (m : Option Text) (pairs : List Text)
    → ((mode : Text) × LastMode mode pairs) ⊎ All (λ q. sets_mode q ≡ false) pairs
sslmode_cases m [] = inr tt
sslmode_cases m (pair ∷ pairs) = go (Bool-cases (sets_mode pair)) (sslmode_cases m pairs)
  where
    go :
        (sets_mode pair ≡ true) ⊎ (sets_mode pair ≡ false)
        → ((mode : Text) × LastMode mode pairs) ⊎ All (λ q. sets_mode q ≡ false) pairs
        → ((mode : Text) × LastMode mode (pair ∷ pairs))
          ⊎ All (λ q. sets_mode q ≡ false) (pair ∷ pairs)
    go _ (inl (mode, l)) = inl (mode, before pair pairs l)
    go (inl e) (inr a) = inl (mode_in pair, last pair pairs e refl a)
    go (inr e) (inr a) = inr (e, a)

-- The last `sslmode` of a query is one that encrypts and cannot be stripped.
abbrev pub Encrypted : List Text → Type 0
Encrypted pairs = (mode : Text) × LastMode mode pairs × (contains mode secure_modes ≡ true)

secure_iff : (pairs : List Text) → (is_secure (sslmode_of none pairs) ≡ true) ↔ Encrypted pairs
secure_iff pairs = (forth, back)
  where
    forth : is_secure (sslmode_of none pairs) ≡ true → Encrypted pairs
    forth h = elim (sslmode_cases none pairs) [
      | inl (mode, l) ↦ (mode, l, sym (ap is_secure (last_sslmode mode none pairs l)) ∙ h)
      | inr a ↦ absurd (sym (ap is_secure (unset-sslmode none pairs a)) ∙ h)
    ]
      where
        absurd : false ≡ true → Encrypted pairs
        absurd e = cc

    back : Encrypted pairs → is_secure (sslmode_of none pairs) ≡ true
    back (mode, l, e) = ap is_secure (last_sslmode mode none pairs l) ∙ e

-- The pgvector check lets a DSN pass exactly when it is no PostgreSQL URL, or its host name, less
-- brackets and the case of its letters, is `localhost`, `127.0.0.1`, `::1` or any name that begins
-- with `127.` (an address or not, so `127.attacker.example` passes), or the last `sslmode` of its query is `require`, `verify-ca` or `verify-full`, or
-- insecure connections are allowed; otherwise it raises ValueError.
pub enforce_tls_pgvector_iff :
    (urlparse : Text → Url) (allow_insecure : Bool) (dsn : Text)
    → ((enforce_tls_pgvector urlparse allow_insecure dsn ≡ ok tt) ↔ (
        (contains (urlparse dsn).scheme (codes "postgresql" ∷ codes "postgres" ∷ []) ≡ false)
        ⊎ (Loopback (urlparse dsn).hostname
            ⊎ (Encrypted (split_on b'&' (urlparse dsn).query) ⊎ (allow_insecure ≡ true)))))
      × ((enforce_tls_pgvector urlparse allow_insecure dsn ≡ ok tt)
          ⊎ (enforce_tls_pgvector urlparse allow_insecure dsn ≡ err Exc.value_error))
unfolding enforce_tls_pgvector
enforce_tls_pgvector_iff urlparse allow_insecure dsn =
    let (f, g) = secure_iff (split_on b'&' (urlparse dsn).query) in
    chain (contains (urlparse dsn).scheme (codes "postgresql" ∷ codes "postgres" ∷ []))
      (is_loopback (urlparse dsn).hostname)
      (is_secure (sslmode_of none (split_on b'&' (urlparse dsn).query))) allow_insecure
      (is_loopback_iff (urlparse dsn).hostname) f g
  where
    refuse :
        {L P : Type 0}
        → (L → false ≡ true)
        → (P → false ≡ true)
        → (true ≡ false) ⊎ (L ⊎ (P ⊎ (false ≡ true)))
        → ◌≡◌ {A = Checked} (err Exc.value_error) (ok tt)
    refuse l g (inl e) = cc
    refuse l g (inr (inl q)) = let e = l q in cc
    refuse l g (inr (inr (inl q))) = let e = g q in cc
    refuse l g (inr (inr (inr e))) = cc

    chain :
        {L P : Type 0} (a b c d : Bool)
        → (b ≡ true) ↔ L
        → (c ≡ true → P)
        → (P → c ≡ true)
        → let r : Checked =
            if not a
            then ok tt
            else if b
            then ok tt
            else if c
            then ok tt
            else if d
            then ok tt
            else err Exc.value_error in
          ((r ≡ ok tt) ↔ ((a ≡ false) ⊎ (L ⊎ (P ⊎ (d ≡ true)))))
          × ((r ≡ ok tt) ⊎ (r ≡ err Exc.value_error))
    chain false b c d l f g = ((λ h. inl refl, λ h. refl), inl refl)
    chain true true c d l f g = ((λ h. inr (inl (l.0 refl)), λ h. refl), inl refl)
    chain true false true d l f g = ((λ h. inr (inr (inl (f refl))), λ h. refl), inl refl)
    chain true false false true l f g = ((λ h. inr (inr (inr refl)), λ h. refl), inl refl)
    chain true false false false l f g = ((λ h. cc, refuse l.1 g), inr refl)
