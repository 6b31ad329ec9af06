-- ===== src/Cli/Audit/Covers.antt =====
-- An audit command of src/vectorpin/cli.py over the rows of a store.
use vector_pin.Prelude.{
  ℕ, ◌<◌, ◌≡◌, refl, ap, subst, List, [], ◌∷◌, Option, none, some, All, length, take, drop, arith,
}
use vector_pin.Outcome.{Result, ok, err, Exc, ok-injective}
use vector_pin.Text.{Text, codes}
use vector_pin.Platform.{Platform, Datetime}
use vector_pin.Verifier.{Verifier}
use vector_pin.Adapters.{PinnedRecord}
use vector_pin.Adapters.Vectors.{Arrays}
use vector_pin.Adapters.Stream.{Stream, yield_or_raise, yield_all}
use vector_pin.Adapters.Backends.Chroma
use vector_pin.Adapters.Backends.Walks.{chroma_walk}
use vector_pin.Audit.{Options, Report}
use vector_pin.Audit.Counters.{Passes, audit_loop_fails_closed}
use vector_pin.Cli.{Inputs, one_key_verifier}
use vector_pin.Cli.Audit.{AuditArgs, walk_of, audit_options, run_audit, cmd_audit, ◌>>=?◌}
use vector_pin.Cli.Audit.Commands.{cmd_audit_chroma}

module _ {R A : Type 0} (f : R → Result A) (P : A → Type 0) where
  -- A row that gives a record with the property.
  abbrev pub Gives : R → Type 0
  Gives row = (a : A) × (f row ≡ ok a) × P a

  All-given :
      (rows : List R)
      → (yield_all f rows).raised ≡ none
      → All P (yield_all f rows).yielded
      → All Gives rows
  unfolding yield_all
  All-given [] e h = tt
  All-given (row ∷ rows) e h = go (f row) refl (All-given rows) e h
    where
      go :
          (r : Result A)
          → f row ≡ r
          → ((yield_all f rows).raised ≡ none → All P (yield_all f rows).yielded → All Gives rows)
          → (yield_or_raise r (yield_all f rows)).raised ≡ none
          → All P (yield_or_raise r (yield_all f rows)).yielded
          → All Gives (row ∷ rows)
      go (ok a) q rest e h = ((a, q, h.0), rest e h.1)
      go (err x) q rest e h = cc

module _ {K S A : Type 0} (p : Platform K S A) (i : Inputs A) (describe : Exc → Text) where
  not_raised : (s : Stream (PinnedRecord A)) → (walk_of describe s).aborted ≡ none → s.raised ≡ none
  unfolding walk_of
  not_raised s h = ground arith

  pub >>=?-eq-ok :
      {B C : Type 0} (m : Result B) (g : B → Option (Result C)) {c : C}
      → m >>=? g ≡ some (ok c)
      → (b : B) × (m ≡ ok b) × (g b ≡ some (ok c))
  >>=?-eq-ok (ok b) g h = (b, refl, h)
  >>=?-eq-ok (err e) g h = cc

  pub some-injective : {B : Type 0} {a b : B} → some a ≡ some b → a ≡ b
  some-injective {a} h = ap (λ o. elim o [ some x ↦ x | none ↦ a ]) h

  -- What an audit that exits with 0 has shown of the rows of a store.
  abbrev pub Shown :
      {R : Type 0}
      → (R → Result (PinnedRecord A))
      → List R
      → AuditArgs
      → Option Text
      → Text
      → Text
      → Datetime
      → Type 0
  Shown f rows a source_key label value now =
      (vf : Verifier K) × (o : Options K S) × (one_key_verifier p i a.public_key a.key_id ≡ ok vf)
      × (audit_options p i a source_key label value now ≡ ok o)
      × All (Gives f (Passes p vf o.policy)) rows

  pub cmd_audit-Shown :
      {R C : Type 0} (f : R → Result (PinnedRecord A)) (rows : List R) (a : AuditArgs)
      (source_key : Option Text) (label value : Text) (now : Datetime) (connected : Result C)
      (records : C → Option (Stream (PinnedRecord A))) (rep : Report)
      → ((c : C) → connected ≡ ok c → records c ≡ some (yield_all f rows))
      → cmd_audit p i describe a source_key label value now connected records ≡ some (ok rep)
      → rep.exit_code ≡ 0
      → Shown f rows a source_key label value now
  unfolding cmd_audit run_audit walk_of
  cmd_audit-Shown f rows a source_key label value now connected records rep walked h zero_exit =
      let (vf, e, h) = >>=?-eq-ok (one_key_verifier p i a.public_key a.key_id) _ h in
      let (c, e'', h) = >>=?-eq-ok connected _ h in
      let (o, e', h) = >>=?-eq-ok (audit_options p i a source_key label value now) _ h in
      let (whole, passed, m) =
        (audit_loop_fails_closed p vf o (walk_of describe (yield_all f rows)) rep (
            some-injective
              (subst (λ s. run_audit p i describe vf o s ≡ some (ok rep)) (walked c e'') h))).0
          zero_exit in
      (
        vf,
        o,
        e,
        e',
        All-given f (Passes p vf o.policy) rows (not_raised (yield_all f rows) whole)
            (passing vf o passed),
      )
    where
      passing :
          (vf : Verifier K) (o : Options K S)
          → All (Passes p vf o.policy) (walk_of describe (yield_all f rows)).records
          → All (Passes p vf o.policy) (yield_all f rows).yielded
      passing vf o q = q

  -- `audit-chroma` over a collection whose `get` returns the slices of one list of rows, with a
  -- positive batch size and more fuel than rows: if the command returns with exit code 0, then
  -- every row of the list gives a record, and `verify_record` accepts it under the command's policy
  -- and verifier. No row of the store goes unseen.
  pub cmd_audit_chroma_covers :
      {V W : Type 0} (n : Arrays V A) (w : W) (fuel : ℕ) (a : AuditArgs) (collection : Text)
      (source_key : Option Text) (b : ℕ) (now : Datetime) (c : Chroma.Collection V A W)
      (rows : List (Chroma.Row V A)) (rep : Report)
      → ((limit offset : ℕ) → c.get_page w limit offset ≡ ok (take limit (drop offset rows)))
      → 0 < b
      → length rows < fuel
      → cmd_audit_chroma p i n w fuel describe a collection source_key b now (ok c) ≡ some (ok rep)
      → rep.exit_code ≡ 0
      → Shown (Chroma.build_row p n c w) rows a source_key (codes "collection") collection now
  unfolding cmd_audit_chroma
  cmd_audit_chroma_covers n w fuel a collection source_key b now c rows rep serves pos enough =
      cmd_audit-Shown (Chroma.build_row p n c w) rows a source_key (codes "collection") collection
        now (ok c) (λ c'. Chroma.iter_records p n c' w fuel b) rep
        (λ c' e.
          subst
            (λ z.
              Chroma.iter_records p n z w fuel b ≡ some (yield_all (Chroma.build_row p n c w) rows))
            (ok-injective e) (chroma_walk p n c w rows fuel b serves pos enough))
