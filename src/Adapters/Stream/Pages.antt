-- ===== src/Adapters/Stream/Pages.antt =====
-- The loop over pages, when the pages are those of one list.
use vector_pin.Prelude.{
  ℕ, zero, suc, ◌<◌, ◌≡◌, ◌⊎◌, refl, sym, ap, ◌∙◌, inl, inr, List, [], ◌∷◌, ◌++◌, Option, none,
  some, length, length-append, arith,
}
use vector_pin.Outcome.{Result, ok, err, Exc}
use vector_pin.Adapters.Stream.{
  Stream, Page, unless_raised, and_then, yield_or_raise, yield_all, each_page, round, next_round,
  followed_by,
}

unless_raised_append :
    {A : Type 0} (r : Result A) (s t : Stream A)
    → yield_or_raise r (and_then s t) ≡ and_then (yield_or_raise r s) t
unless_raised_append (ok a) s t = go s.raised
  where
    go :
        (e : Option Exc)
        → yield_or_raise (ok a) (unless_raised e s.yielded t) ≡ unless_raised e (a ∷ s.yielded) t
    go none = refl
    go (some e) = refl
unless_raised_append (err e) s t = refl

yield_all-append :
    {R A : Type 0} (f : R → Result A) (xs ys : List R)
    → yield_all f (xs ++ ys) ≡ and_then (yield_all f xs) (yield_all f ys)
unfolding yield_all
yield_all-append f [] ys = refl
yield_all-append f (x ∷ xs) ys =
    ap (yield_or_raise (f x)) (yield_all-append f xs ys)
    ∙ unless_raised_append (f x) (yield_all f xs) (yield_all f ys)

-- What a page shows of the rows that are left: it is the last one and holds them all, or it holds
-- one or more, and the rest is left behind it.
module _ {R C : Type 0} where
  abbrev pub Covers : (C → List R) → List R → Page R C → Type 0
  Covers left rows page =
      ((page.next ≡ none) × (page.rows ≡ rows))
      ⊎ ((c : C) × (page.next ≡ some c) × (rows ≡ page.rows ++ left c) × (0 < length page.rows))

module _ {R C A : Type 0} (fetch : C → Result (Page R C)) (f : R → Result A) (left : C → List R)
    (serves : (c : C) → (page : Page R C) × (fetch c ≡ ok page) × Covers left (left c) page) where
  round-Covers :
      (again : C → Option (Stream A)) (rows : List R) (page : Page R C)
      → Covers left rows page
      → ((c : C) → length (left c) < length rows → again c ≡ some (yield_all f (left c)))
      → round f again (ok page) ≡ some (yield_all f rows)
  unfolding round
  round-Covers again rows page (inl (last, e)) h =
      ap (next_round again (yield_all f page.rows)) last ∙ ap (λ l. some (yield_all f l)) e
  round-Covers again rows page (inr (c, more, e, some_row)) h =
      ap (next_round again (yield_all f page.rows)) more
      ∙ ap (followed_by (yield_all f page.rows)) (h c less)
      ∙ ap some (sym (yield_all-append f page.rows (left c)) ∙ ap (yield_all f) (sym e))
    where
      less : length (left c) < length rows
      less = rw e (omega (arith, length-append page.rows (left c)))

  -- Over pages that show one list, a loop with more fuel than rows yields what one `for` over the
  -- whole list yields.
  pub each_page_all :
      (fuel : ℕ) (c : C)
      → length (left c) < fuel
      → each_page fuel fetch f c ≡ some (yield_all f (left c))
  unfolding each_page
  each_page_all zero c h = absurd (omega arith)
  each_page_all (suc fuel) c h =
      let (page, e, covered) = serves c in
      ap (round f (λ c'. each_page fuel fetch f c')) e
      ∙ round-Covers (λ c'. each_page fuel fetch f c') (left c) page covered
          (λ c' l. each_page_all fuel c' (omega arith))
