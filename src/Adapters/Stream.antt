-- ===== src/Adapters/Stream.antt =====
-- Generators: what they yield until they end or raise, and the loop over the pages of a client that
-- the `iter_records` of the adapters share.
pub mod Pages
use vector_pin.Prelude.{ℕ, zero, suc, List, [], ◌∷◌, ◌++◌, Option, none, some, if◌then◌else◌}
use vector_pin.Outcome.{Result, ok, err, Exc}

-- The values that a generator yields, and the exception that ends it, if one does.
pub record Stream (A : Type 0) : Type 0 where
  pub yielded : List A
  pub raised : Option Exc

abbrev pub finished : {A : Type 0} → Stream A
finished = record { yielded = []; raised = none }

abbrev pub raising : {A : Type 0} → Exc → Stream A
raising e = record { yielded = []; raised = some e }

-- What follows a `for` loop: nothing, if the loop raised.
abbrev pub unless_raised : {A : Type 0} → Option Exc → List A → Stream A → Stream A
unless_raised (some e) first rest = record { yielded = first; raised = some e }
unless_raised none first rest = record { yielded = first ++ rest.yielded; raised = rest.raised }

abbrev pub and_then : {A : Type 0} → Stream A → Stream A → Stream A
and_then s t = unless_raised s.raised s.yielded t

abbrev pub yield_or_raise : {A : Type 0} → Result A → Stream A → Stream A
yield_or_raise (ok a) rest = record { yielded = a ∷ rest.yielded; raised = rest.raised }
yield_or_raise (err e) rest = raising e

-- `for row in rows: yield f(row)`
unfoldable pub yield_all : {R A : Type 0} → (R → Result A) → List R → Stream A
yield_all f [] = finished
yield_all f (r ∷ rs) = yield_or_raise (f r) (yield_all f rs)

-- One round of a loop over pages: the rows, and the state for the next round, if there is one.
pub record Page (R C : Type 0) : Type 0 where
  pub rows : List R
  pub next : Option C

abbrev pub followed_by : {A : Type 0} → Stream A → Option (Stream A) → Option (Stream A)
followed_by s none = none
followed_by s (some t) = some (and_then s t)

-- The end of a round: the loop ends with the last page, and goes on with `again` otherwise.
abbrev pub next_round :
    {C A : Type 0} → (C → Option (Stream A)) → Stream A → Option C → Option (Stream A)
next_round again s none = some s
next_round again s (some c) = followed_by s (again c)

unfoldable pub round :
    {R C A : Type 0}
    → (R → Result A)
    → (C → Option (Stream A))
    → Result (Page R C)
    → Option (Stream A)
unfolding yield_all
round f again (err e) = some (raising e)
round f again (ok page) = next_round again (yield_all f page.rows) page.next

-- `while True` over the pages, on fuel; `none` is a run that the fuel did not let end.
unfoldable pub each_page :
    {R C A : Type 0} → ℕ → (C → Result (Page R C)) → (R → Result A) → C → Option (Stream A)
unfolding round
each_page zero fetch f c = none
each_page (suc fuel) fetch f c = round f (λ c'. each_page fuel fetch f c') (fetch c)
