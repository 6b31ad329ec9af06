-- ===== src/Adapters/Transport.antt =====
-- The transport checks of the backend adapters in src/vectorpin/adapters: `_is_loopback`, which the
-- four modules repeat, and their `_enforce_tls`.
pub mod Refuses
use vector_pin.Prelude.{
  ℕ, Bool, true, false, not, ◌&&◌, ◌||◌, List, [], ◌∷◌, Option, none, some, if◌then◌else◌, is_empty,
  ◌==◌,
}
use vector_pin.Outcome.{Checked, ok, err, Exc, raise_if}
use vector_pin.Text.{Text, codes}
use vector_pin.Text.Equality.{text_eq}
use vector_pin.Text.Split.{
  starts_with, after_first, before_first, before_last, has_char, split_on, is_bracket, strip, lower,
}
use vector_pin.Dict.{Dict, contains}

-- What the code reads of `urllib.parse.urlparse`.
pub record Url : Type 0 where
  pub scheme : Text
  pub hostname : Option Text
  pub query : Text

abbrev pub loopback_hosts : List Text
loopback_hosts = codes "localhost" ∷ codes "127.0.0.1" ∷ codes "::1" ∷ []

unfoldable pub is_loopback : Option Text → Bool
unfolding starts_with strip lower contains
is_loopback none = false
is_loopback (some []) = false
is_loopback (some (c ∷ s)) =
    let h = lower (strip is_bracket (c ∷ s)) in
    contains h loopback_hosts || starts_with (codes "127.") h

abbrev pub is_given : Option Text → Bool
is_given none = false
is_given (some s) = not (is_empty s)

-- `sslmode` after the loop: the last `sslmode=` pair wins.
unfoldable pub sslmode_of : Option Text → List Text → Option Text
unfolding starts_with after_first lower
sslmode_of mode [] = mode
sslmode_of mode (pair ∷ pairs) =
    if starts_with (codes "sslmode=") pair
    then sslmode_of (some (lower (after_first (codes "=") pair))) pairs
    else sslmode_of mode pairs

abbrev pub secure_modes : List Text
secure_modes = codes "require" ∷ codes "verify-ca" ∷ codes "verify-full" ∷ []

abbrev pub is_secure : Option Text → Bool
is_secure none = false
is_secure (some mode) = contains mode secure_modes

-- The host part of the `host` argument of chroma.py.
unfoldable pub bare_host : Text → Text
unfolding after_first starts_with before_first before_last has_char
bare_host host =
    let bare = after_first (codes "://") host in
    if starts_with (codes "[") bare then bare else before_last b':' (before_first b'/' bare)

-- chroma.py
unfoldable pub enforce_tls_chroma : Bool → Text → Bool → Option (Dict Text) → Checked
unfolding is_loopback bare_host
enforce_tls_chroma allow_insecure host ssl headers =
    if not (has_headers headers) || ssl
    then ok tt
    else if is_loopback (some (bare_host host))
    then ok tt
    else if allow_insecure
    then ok tt
    else err Exc.value_error
  where
    has_headers : Option (Dict Text) → Bool
    has_headers none = false
    has_headers (some []) = false
    has_headers (some (e ∷ d)) = true

-- `urlparse`, and whether `VECTORPIN_ALLOW_INSECURE_HTTP` is `1`
module _ (urlparse : Text → Url) (allow_insecure : Bool) where
  -- qdrant.py
  unfoldable pub enforce_tls_qdrant : Text → Option Text → Checked
  unfolding is_loopback
  enforce_tls_qdrant url api_key =
      if not (is_given api_key)
      then ok tt
      else if not (text_eq (urlparse url).scheme (codes "http"))
      then ok tt
      else if is_loopback (urlparse url).hostname
      then ok tt
      else if allow_insecure
      then ok tt
      else err Exc.value_error

  -- pinecone.py
  unfoldable pub enforce_tls_host : Option Text → Option Text → Checked
  unfolding is_loopback
  enforce_tls_host none api_key = ok tt
  enforce_tls_host (some host) api_key =
      if is_empty host || not (is_given api_key)
      then ok tt
      else if is_empty (urlparse host).scheme
      then ok tt
      else if not (text_eq (urlparse host).scheme (codes "http"))
      then ok tt
      else if is_loopback (urlparse host).hostname
      then ok tt
      else if allow_insecure
      then ok tt
      else err Exc.value_error

  -- pgvector.py
  unfoldable pub enforce_tls_pgvector : Text → Checked
  unfolding is_loopback sslmode_of split_on
  enforce_tls_pgvector dsn =
      let parsed = urlparse dsn in
      if not (contains parsed.scheme (codes "postgresql" ∷ codes "postgres" ∷ []))
      then ok tt
      else if is_loopback parsed.hostname
      then ok tt
      else if is_secure (sslmode_of none (split_on b'&' parsed.query))
      then ok tt
      else if allow_insecure
      then ok tt
      else err Exc.value_error
