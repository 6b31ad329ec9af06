-- ===== src/Adapters/Backends/Walks.antt =====
-- The `iter_records` of chroma.py, qdrant.py and pgvector.py in src/vectorpin/adapters, over a
-- client that pages through one list of rows.
use vector_pin.Prelude.{
  ℤ, pos, negsuc, ℕ, zero, suc, ◌+◌, ◌<◌, ◌≡◌, ◌⊎◌, refl, sym, ap, ◌∙◌, subst, inl, inr, true,
  false, List, [], ◌∷◌, ◌++◌, Option, none, some, length, take, drop, take-append-drop, drop-drop,
  length-take, take_short, arith, Bool-cases, ltb, is_empty,
}
use vector_pin.Outcome.{ok, err, ◌>>=◌}
use vector_pin.Platform.{Platform, Dtype}
use vector_pin.Adapters.Sql.{PgTable, select_all}
use vector_pin.Adapters.Vectors.{Arrays}
use vector_pin.Adapters.Stream.{Page, yield_all, each_page, raising}
use vector_pin.Adapters.Stream.Pages.{Covers, each_page_all}
use vector_pin.Adapters.Backends.Chroma
use vector_pin.Adapters.Backends.Qdrant
use vector_pin.Adapters.Backends.Pgvector

-- A slice that is not empty is followed by the rest; an empty one is all there is.
slice_cases {ℓ} :
    {A : Type ℓ} (b : ℕ) (l : List A) → 0 < b → (take b l ≡ [] × (l ≡ [])) ⊎ (0 < length (take b l))
slice_cases zero l h = absurd (omega arith)
slice_cases (suc b) [] h = inl (refl, refl)
slice_cases (suc b) (x ∷ l) h = inr (omega arith)

empty_slice {ℓ} : {A : Type ℓ} (b : ℕ) (l : List A) → 0 < b → take b l ≡ [] → l ≡ []
empty_slice zero l h e = absurd (omega arith)
empty_slice (suc b) [] h e = refl
empty_slice (suc b) (x ∷ l) h e = cc

chunk_pos : (b : ℤ) → 0 < Pgvector.chunk_of b
chunk_pos (pos n) = ground arith
chunk_pos (negsuc n) = omega arith

nonempty {ℓ} : {A : Type ℓ} (l : List A) → 0 < length l → is_empty l ≡ false
nonempty [] h = absurd (omega arith)
nonempty (x ∷ l) h = refl

module _ {K S V A W : Type 0} (p : Platform K S A) (n : Arrays V A) (c : Chroma.Collection V A W)
    (w : W) (rows : List (Chroma.Row V A)) where
  abbrev left : ℕ → List (Chroma.Row V A)
  left offset = drop offset rows

  chroma-Covers :
      (b offset : ℕ)
      → 0 < b
      → Covers left (left offset) (Chroma.page_at p n c w b offset (take b (left offset)))
  chroma-Covers b offset h =
      go (slice_cases b (left offset) h) (Bool-cases (ltb (length (take b (left offset))) b))
    where
      go :
          ((take b (left offset) ≡ []) × (left offset ≡ [])) ⊎ (0 < length (take b (left offset)))
          → (ltb (length (take b (left offset))) b ≡ true)
            ⊎ (ltb (length (take b (left offset))) b ≡ false)
          → Covers left (left offset) (Chroma.page_at p n c w b offset (take b (left offset)))
      go (inl (e, f)) q = inl (rw e, e ∙ sym f)
      go (inr some_row) (inl short) =
          inl (rw (nonempty _ some_row, short), take_short b (left offset) (ground arith))
      go (inr some_row) (inr full) =
          let size : length (take b (left offset)) ≡ b =
            ground (arith, length-take b (left offset)) in
          inr (
            offset + length (take b (left offset)),
            rw (nonempty _ some_row, full),
            sym (take-append-drop b (left offset))
                ∙ ap (λ l. take b (left offset) ++ l)
                    (sym (drop-drop offset b rows) ∙ ap (λ k. drop (offset + k) rows) (sym size)),
            some_row,
          )

  -- Over a collection whose `get` returns the slices of one list of rows, with a positive batch
  -- size and more fuel than rows, `iter_records` of chroma.py ends, and yields what one `for` over
  -- the whole list yields: every row once, in order, up to the first that raises.
  pub chroma_walk :
      (fuel b : ℕ)
      → ((limit offset : ℕ) → c.get_page w limit offset ≡ ok (take limit (drop offset rows)))
      → 0 < b
      → length rows < fuel
      → Chroma.iter_records p n c w fuel b ≡ some (yield_all (Chroma.build_row p n c w) rows)
  unfolding Chroma.iter_records Chroma.fetch_page
  chroma_walk fuel b serves h enough =
      each_page_all (Chroma.fetch_page p n c w b) (Chroma.build_row p n c w) left
        (λ offset. (
          Chroma.page_at p n c w b offset (take b (left offset)),
          ap (λ r. r >>= λ rs. ok (Chroma.page_at p n c w b offset rs)) (serves b offset),
          chroma-Covers b offset h,
        ))
        fuel 0 enough

module _ {K S V A O W : Type 0} (p : Platform K S A) (n : Arrays V A) (t : Dtype)
    (c : Qdrant.Client V A O W) (w : W) (rows : List (Qdrant.Point V A)) where
  -- What `scroll` returns of a list of points: the slice at the offset's position, and no offset
  -- where the slice reaches the end, or one that is a batch further.
  abbrev pub Scrolls : ℕ → (Option O → ℕ) → Option O → Type 0
  Scrolls b position o =
      (next : Option O) × (c.scroll w b o ≡ ok (take b (drop (position o) rows), next))
      × (((next ≡ none) × (take b (drop (position o) rows) ≡ drop (position o) rows))
          ⊎ ((o' : O) × (next ≡ some o') × (position (some o') ≡ position o + b)))

  qdrant-Covers :
      (b : ℕ) (position : Option O → ℕ) (o : Option O)
      → 0 < b
      → Scrolls b position o
      → (page : Page (Qdrant.Point V A) (Option O)) × (Qdrant.fetch_page p n t c w b o ≡ ok page)
        × Covers (λ o'. drop (position o') rows) (drop (position o) rows) page
  unfolding Qdrant.fetch_page
  qdrant-Covers b position o h (next, e, rest) = (
    Qdrant.page_of p n t c w (take b l, next),
    ap (λ r. r >>= λ z. ok (Qdrant.page_of p n t c w z)) e,
    go (take b l) next refl rest,
  )
    where
      l : List (Qdrant.Point V A)
      l = drop (position o) rows

      go :
          (s : List (Qdrant.Point V A)) (next : Option O)
          → take b l ≡ s
          → (((next ≡ none) × (take b l ≡ l))
              ⊎ ((o' : O) × (next ≡ some o') × (position (some o') ≡ position o + b)))
          → Covers (λ o'. drop (position o') rows) l (Qdrant.page_of p n t c w (s, next))
      go s none e (inl (last, whole)) = inl (refl, sym e ∙ whole)
      go s none e (inr (o', q, r)) = cc
      go [] (some o'') e q = inl (refl, sym (empty_slice b l h e))
      go (x ∷ s) (some o'') e (inl (last, whole)) = cc
      go (x ∷ s) (some o'') e (inr (o', q, r)) =
          inr (some o'', refl, rest_behind o'' (x ∷ s) e (ap position q ∙ r), omega arith)
        where
          rest_behind :
              (o'' : O) (s : List (Qdrant.Point V A))
              → take b l ≡ s
              → position (some o'') ≡ position o + b
              → l ≡ s ++ drop (position (some o'')) rows
          rest_behind o'' s e at =
              sym (take-append-drop b l)
              ∙ ap (λ z. z ++ drop b l) e
              ∙ ap (λ z. s ++ z)
                  (sym (drop-drop (position o) b rows) ∙ ap (λ k. drop k rows) (sym at))

  -- Over a client whose `scroll` goes through one list of points, with a positive batch size and
  -- more fuel than points, `iter_records` of qdrant.py ends, and yields what one `for` over the
  -- whole list yields: every point once, in order, up to the first that raises.
  pub qdrant_walk :
      (fuel b : ℕ) (position : Option O → ℕ)
      → position none ≡ 0
      → ((o : Option O) → Scrolls b position o)
      → 0 < b
      → length rows < fuel
      → Qdrant.iter_records p n t c w fuel b
        ≡ some (yield_all (Qdrant.point_to_record p n t c w) rows)
  unfolding Qdrant.iter_records
  qdrant_walk fuel b position start scrolls h enough =
      let all : drop (position none) rows ≡ rows = ap (λ k. drop k rows) start in
      each_page_all (Qdrant.fetch_page p n t c w b) (Qdrant.point_to_record p n t c w)
        (λ o. drop (position o) rows) (λ o. qdrant-Covers b position o h (scrolls o)) fuel none
        (subst (λ l. length l < fuel) (sym all) enough)
      ∙ ap (λ l. some (yield_all (Qdrant.point_to_record p n t c w) l)) all

module _ {K S V A Cursor W : Type 0} (p : Platform K S A) (n : Arrays V A) (t : PgTable)
    (c : Pgvector.Connection V A Cursor W) (w : W) where
  -- `fetchmany` hands out the rows that are left, in order.
  abbrev pub HandsOut : (Cursor → List (Pgvector.Row V A)) → Type 0
  HandsOut left =
      (cur : Cursor) (k : ℕ)
      → (next : Cursor) × (c.fetchmany cur k ≡ ok (take k (left cur), next))
        × (left next ≡ drop k (left cur))

  pgvector-Covers :
      (b : ℤ) (left : Cursor → List (Pgvector.Row V A)) (cur : Cursor)
      → HandsOut left
      → (page : Page (Pgvector.Row V A) Cursor) × (Pgvector.fetch_page p n t c w b cur ≡ ok page)
        × Covers left (left cur) page
  unfolding Pgvector.fetch_page
  pgvector-Covers b left cur hands =
      let (next, e, rest) = hands cur (Pgvector.chunk_of b) in
      (
        Pgvector.page_of p n t c w (take (Pgvector.chunk_of b) (left cur), next),
        ap (λ r. r >>= λ z. ok (Pgvector.page_of p n t c w z)) e,
        go (take (Pgvector.chunk_of b) (left cur)) next refl rest,
      )
    where
      go :
          (s : List (Pgvector.Row V A)) (next : Cursor)
          → take (Pgvector.chunk_of b) (left cur) ≡ s
          → left next ≡ drop (Pgvector.chunk_of b) (left cur)
          → Covers left (left cur) (Pgvector.page_of p n t c w (s, next))
      go [] next e r =
          inl (refl, sym (empty_slice (Pgvector.chunk_of b) (left cur) (chunk_pos b) e))
      go (x ∷ s) next e r = inr (
        next,
        refl,
        sym (take-append-drop (Pgvector.chunk_of b) (left cur))
            ∙ ap (λ z. z ++ drop (Pgvector.chunk_of b) (left cur)) e
            ∙ ap (λ z. x ∷ s ++ z) (sym r),
        omega arith,
      )

  -- Over a cursor that hands out one list of rows, with more fuel than rows, `iter_records` of
  -- pgvector.py ends for every batch size, zero and negative ones included, and yields what one `for` over the whole
  -- list yields: every row once, in order, up to the first that raises.
  pub pgvector_walk :
      (fuel : ℕ) (b : ℤ) (start : Cursor) (left : Cursor → List (Pgvector.Row V A))
      → c.execute w (select_all t) [] ≡ ok start
      → HandsOut left
      → length (left start) < fuel
      → Pgvector.iter_records p n t c w fuel b
        ≡ some (yield_all (Pgvector.row_to_record p n t c w) (left start))
  unfolding Pgvector.iter_records
  pgvector_walk fuel b start left executed hands enough =
      ap
        (λ r. elim r [
          | err e ↦ some (raising e)
          | ok cur ↦
              each_page fuel (Pgvector.fetch_page p n t c w b) (Pgvector.row_to_record p n t c w)
                cur
        ])
        executed
      ∙ each_page_all (Pgvector.fetch_page p n t c w b) (Pgvector.row_to_record p n t c w) left
          (λ cur. pgvector-Covers b left cur hands) fuel start enough
