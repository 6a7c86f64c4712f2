-- ===== src/Db/MarketRepository/Bars/Select.antt =====
-- Reading bars: one revision for each start, the newest one that was visible, in ascending order.
use event_alpha.Prelude.{
  ℕ, ◌+◌, ◌≤◌, ◌<◌, true, false, ◌≡◌, ◌≢◌, refl, sym, ap, ◌∙◌, ◌⊎◌, inl, inr, List, [], ◌∷◌, arith,
  Bool-cases, In, length, if◌then◌else◌, ◌==◌,
}
use mathlib.Core.Bool.{false≢true}
use native.Mathlib.Decide.{ℕ_discrete}
use event_alpha.Prelude.Order.{lex_le, Sorted}
use event_alpha.Contracts.Time.{Instant}
use event_alpha.Db.Schema.{MarketBarRow, Dialect, utc-column}
use event_alpha.Db.MarketRepository.Bars.{bar_rank, bar_before, contains, select_rows}

abbrev pub start : MarketBarRow → Instant
start row = row.bar_start_at

before-start : (a b : MarketBarRow) → bar_before a b ≡ true → start b ≤ start a
unfolding bar_before bar_rank lex_le
before-start a b h = ground arith

module _ (dialect : Dialect) (limit : ℕ) where
  select_rows_step :
      (seen : List Instant) (selected : ℕ) (row : MarketBarRow) (rows : List MarketBarRow)
      → select_rows dialect limit seen selected (row ∷ rows) ≡ (
          if contains seen (start row)
          then select_rows dialect limit seen selected rows
          else if selected + 1 == limit
          then row ∷ []
          else row ∷ select_rows dialect limit (start row ∷ seen) (selected + 1) rows)
  unfolding select_rows
  select_rows_step seen selected row rows = simp utc-column

  -- What is selected is a row whose start was not seen.
  pub select_rows-In :
      (seen : List Instant) (selected : ℕ) (rows : List MarketBarRow) (r : MarketBarRow)
      → In r (select_rows dialect limit seen selected rows)
      → In r rows × (contains seen (start r) ≡ false)
  unfolding select_rows
  select_rows-In seen selected [] r m = absurd m
  select_rows-In seen selected (row ∷ rows) r m = ground (
    arith,
    select_rows_step seen selected row rows,
    select_rows-In seen selected rows r,
    select_rows-In (start row ∷ seen) (selected + 1) rows r,
  )

  -- At most `limit` rows are selected.
  pub select_rows-le-limit :
      (seen : List Instant) (selected : ℕ) (rows : List MarketBarRow)
      → selected < limit
      → length (select_rows dialect limit seen selected rows) + selected ≤ limit
  unfolding select_rows
  select_rows-le-limit seen selected [] h = omega arith
  select_rows-le-limit seen selected (row ∷ rows) h = ground (
    arith,
    select_rows_step seen selected row rows,
    select_rows-le-limit seen selected rows,
    select_rows-le-limit (start row ∷ seen) (selected + 1) rows,
  )

  -- Of a sorted result, a selected row comes before every row with its start.
  pub select_rows-newest :
      (seen : List Instant) (selected : ℕ) (rows : List MarketBarRow)
      → Sorted bar_before rows
      → (r other : MarketBarRow) → In r (select_rows dialect limit seen selected rows)
      → In other rows
      → start other ≡ start r
      → (other ≡ r) ⊎ (bar_before r other ≡ true)
  unfolding select_rows
  select_rows-newest seen selected [] h r other m n e = absurd m
  select_rows-newest seen selected (row ∷ rows) h r other m n e = ground (
    arith,
    select_rows_step seen selected row rows,
    h.0 other,
    select_rows-In seen selected rows r,
    select_rows-In (start row ∷ seen) (selected + 1) rows r,
    select_rows-newest seen selected rows h.1 r other,
    select_rows-newest (start row ∷ seen) (selected + 1) rows h.1 r other,
  )

  -- The start of a row is among the selected ones, or the limit is reached and every selected
  -- start is later.
  abbrev pub CoveredBy : List MarketBarRow → ℕ → MarketBarRow → Type 0
  CoveredBy rows selected other =
      ((r : MarketBarRow) × In r rows × (start r ≡ start other))
      ⊎ (length rows + selected ≡ limit) × ((r : MarketBarRow) → In r rows → start other < start r)

  covered_cons :
      (row other : MarketBarRow) (rows : List MarketBarRow) (selected : ℕ)
      → start other < start row
      → CoveredBy rows (selected + 1) other
      → CoveredBy (row ∷ rows) selected other
  covered_cons row other rows selected h (inl (r, m, e)) = inl (r, inr m, e)
  covered_cons row other rows selected h (inr (full, all)) =
      inr (omega arith, λ r m. elim m [ inl e ↦ rw e h | inr m' ↦ all r m' ])

  -- A row at the head of a sorted list is later than every other start in it.
  head_later :
      (row other : MarketBarRow) (rows : List MarketBarRow)
      → Sorted bar_before (row ∷ rows)
      → In other (row ∷ rows)
      → start row ≢ start other
      → (start other < start row) × In other rows
  head_later row other rows h (inl e) ne = absurd (ne (ap start (sym e)))
  head_later row other rows h (inr m) ne = (
    omega
        (arith, before-start row other (h.0 other m), λ (e : start other ≡ start row). ne (sym e)),
    m,
  )

  pub select_rows-covers :
      (seen : List Instant) (selected : ℕ) (rows : List MarketBarRow)
      → Sorted bar_before rows
      → (other : MarketBarRow) → In other rows
      → contains seen (start other) ≡ false
      → CoveredBy (select_rows dialect limit seen selected rows) selected other
  select_rows-covers seen selected [] h other m new = absurd m
  select_rows-covers seen selected (row ∷ rows) h other m new =
      elim (Bool-cases (contains seen (start row))) [
        | inl old ↦
            rw (select_rows_step seen selected row rows, old)
              (select_rows-covers seen selected rows h.1 other (skipped old m) new)
        | inr fresh ↦ elim (ℕ_discrete (start row) (start other)) [
          | yes same ↦ elim (Bool-cases (selected + 1 == limit)) [
            | inl full ↦
                rw (select_rows_step seen selected row rows, fresh, full)
                  (inl (row, inl refl, same))
            | inr more ↦
                rw (select_rows_step seen selected row rows, fresh, more)
                  (inl (row, inl refl, same))
          ]
          | no ne ↦
              let (later, m') = head_later row other rows h m ne in
              elim (Bool-cases (selected + 1 == limit)) [
                | inl full ↦
                    rw (select_rows_step seen selected row rows, fresh, full)
                      (inr (ground arith, λ r m. elim m [ inl e ↦ rw e later | inr n ↦ absurd n ]))
                | inr more ↦
                    rw (select_rows_step seen selected row rows, fresh, more)
                      (covered_cons row other
                        (select_rows dialect limit (start row ∷ seen) (selected + 1) rows) selected
                        later
                        (select_rows-covers (start row ∷ seen) (selected + 1) rows h.1 other m'
                          (ground arith)))
              ]
        ]
      ]
    where
      skipped : contains seen (start row) ≡ true → In other (row ∷ rows) → In other rows
      skipped old (inl e) =
          absurd (false≢true (sym new ∙ ap (λ (r : MarketBarRow). contains seen (start r)) e ∙ old))
      skipped old (inr m) = m

-- The starts strictly descend.
abbrev pub Descending : List MarketBarRow → Type 0
Descending [] = Unit
Descending (r ∷ rows) = ((s : MarketBarRow) → In s rows → start s < start r) × Descending rows

module _ (dialect : Dialect) (limit : ℕ) where
  pub select_rows-Descending :
      (seen : List Instant) (selected : ℕ) (rows : List MarketBarRow)
      → Sorted bar_before rows
      → Descending (select_rows dialect limit seen selected rows)
  unfolding select_rows
  select_rows-Descending seen selected [] h = tt
  select_rows-Descending seen selected (row ∷ rows) h =
      elim (Bool-cases (contains seen (start row))) [
        | inl old ↦
            rw (select_rows_step dialect limit seen selected row rows, old)
              (select_rows-Descending seen selected rows h.1)
        | inr fresh ↦ elim (Bool-cases (selected + 1 == limit)) [
          | inl full ↦
              rw (select_rows_step dialect limit seen selected row rows, fresh, full)
                ((λ s m. absurd m), tt)
          | inr more ↦
              rw (select_rows_step dialect limit seen selected row rows, fresh, more)
                (
                  (λ s m.
                      let (found, new) =
                        select_rows-In dialect limit (start row ∷ seen) (selected + 1) rows s m in
                      ground (arith, before-start row s (h.0 s found))),
                  select_rows-Descending (start row ∷ seen) (selected + 1) rows h.1,
                )
        ]
      ]
