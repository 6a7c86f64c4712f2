-- ===== src/Tests/Market.antt =====
-- The market repository at concrete inputs.
use event_alpha.Prelude.{
  ℕ, ◌≤◌, ◌<◌, ◌≡◌, refl, ◌⊎◌, inl, ◌↔◌, true, false, List, [], ◌∷◌, none, some, arith, In, length,
  map, keep, Ascending,
}
use event_alpha.Prelude.Order.{lex_le, top, sort}
use event_alpha.Errors.{ok}
use event_alpha.Contracts.{healthy, unavailable, length_between, optional_length, symbol_pattern}
use event_alpha.Contracts.Market.{MarketBar, m1, validate_bar, bar_fields, validate_ohlc_bounds}
use event_alpha.Db.Schema.{MarketBarRow, MarketQuoteRow, BarChecks, utc}
use event_alpha.Db.Checks.{IsOhlc, HasBarFields, validate_bar_iff, validate_bar-BarChecks}
use event_alpha.Db.MarketRepository.Base.{MarketDb, ensure_provider, ensure_instrument}
use event_alpha.Db.MarketRepository.Fingerprint.{
  join, fingerprint, decimal_text, time_text, quote_fingerprint, bar_fingerprint,
}
use event_alpha.Db.MarketRepository.Quotes.{
  quote_row, quote_rank, quote_matches, quote_before, save_quote, latest_row, latest_quote,
}
use event_alpha.Db.MarketRepository.Quotes.Append.{
  SameContent, save_quote-append, save_quote-stored, save_quote-replay,
}
use event_alpha.Db.MarketRepository.Quotes.PointInTime.{
  Matches, latest_row-some, save_quote-latest_quote,
}
use event_alpha.Db.MarketRepository.Bars.{
  bar_row, bar_of_row, bar_rank, bar_before, bar_matches, bar_rows, selected_rows, select_rows,
  save_bar, save_bars, bars,
}
use event_alpha.Db.MarketRepository.Bars.Append.{
  save_bars-append, save_bars-IsStored, save_bars_twice,
}
use event_alpha.Db.MarketRepository.Bars.Revisions.{
  NoLater, Available, bars_bounded, bars-newest, bars_complete,
}
use event_alpha.Db.MarketRepository.State.{StoredMarketProviderState, provider_state}
use event_alpha.Db.MarketRepository.State.Machine.{
  Call, success, failure, replay_calls, provider_state-replay_calls,
}
use event_alpha.Tests.Samples.{memory, plain, empty_db, quote_at, bar_at}

abbrev first_db : MarketDb memory
first_db = (save_quote memory plain (quote_at 1000) empty_db).1

stored_row : MarketQuoteRow
stored_row = (save_quote-stored memory plain (quote_at 1000) empty_db).0

save_quote-append_example :
    memory.quotes.get
      (save_quote memory plain (quote_at 2000) first_db).1.quotes
      (quote_fingerprint plain (quote_at 1000))
    ≡ some stored_row
unfolding stored_row
save_quote-append_example =
    save_quote-append memory plain (quote_at 2000) first_db
      (quote_fingerprint plain (quote_at 1000)) stored_row
      (save_quote-stored memory plain (quote_at 1000) empty_db).1

-- The same quote, received again later.
same_quote : SameContent (quote_at 2000) (quote_at 1000)
same_quote = record {
  provider = refl;
  symbol = refl;
  native_id = refl;
  effective_time = refl;
  bid = refl;
  ask = refl;
  last = refl;
}

save_quote-replay_example :
    ((save_quote memory plain (quote_at 2000) first_db).0 ≡ false)
    × ((save_quote memory plain (quote_at 2000) first_db).1.quotes ≡ first_db.quotes)
save_quote-replay_example =
    save_quote-replay memory plain (quote_at 1000) (quote_at 2000) empty_db same_quote

save_quote-latest_quote_example :
    latest_quote memory plain "replay-market" "ACME"
      (some 1500)
      (save_quote memory plain (quote_at 2000) first_db).1
    ≡ latest_quote memory plain "replay-market" "ACME" (some 1500) first_db
save_quote-latest_quote_example =
    save_quote-latest_quote memory plain "replay-market" "ACME" 1500 (quote_at 2000) first_db
      (omega arith)

first_row : MarketQuoteRow
first_row = quote_row (quote_fingerprint plain (quote_at 1000)) (quote_at 1000)

reads_first : latest_row memory plain "replay-market" "ACME" (some 1500) first_db ≡ some first_row
unfolding first_row latest_row memory empty_db plain save_quote quote_row quote_matches quote_before
    quote_rank lex_le top keep quote_fingerprint ensure_provider ensure_instrument join fingerprint
    decimal_text time_text
reads_first = refl

latest_row-some_example :
    (memory.quotes.get first_db.quotes first_row.content_hash ≡ some first_row)
    × Matches "replay-market" "ACME" (some 1500) first_row
    × ((k : ℕ) (other : MarketQuoteRow)
        → memory.quotes.get first_db.quotes k ≡ some other
        → Matches "replay-market" "ACME" (some 1500) other
        → lex_le (quote_rank other) (quote_rank first_row) ≡ true)
unfolding plain
latest_row-some_example =
    latest_row-some memory plain "replay-market" "ACME" (some 1500) first_db first_row reads_first

abbrev bars_db : MarketDb memory
bars_db = (save_bars memory plain (bar_at 1000 ∷ bar_at 2000 ∷ []) empty_db).1

stored_bar : MarketBarRow
stored_bar = (save_bars-IsStored memory plain (bar_at 1000 ∷ []) empty_db).0.0

save_bars-append_example :
    memory.bars.get
      (save_bars memory plain
        (bar_at 2000 ∷ [])
        (save_bars memory plain (bar_at 1000 ∷ []) empty_db).1).1.bars
      (bar_fingerprint plain (bar_at 1000))
    ≡ some stored_bar
unfolding stored_bar
save_bars-append_example =
    save_bars-append memory plain (bar_at 2000 ∷ [])
      (save_bars memory plain (bar_at 1000 ∷ []) empty_db).1 (bar_fingerprint plain (bar_at 1000))
      stored_bar (save_bars-IsStored memory plain (bar_at 1000 ∷ []) empty_db).0.1

save_bars_twice_example :
    ((save_bars memory plain (bar_at 1000 ∷ bar_at 2000 ∷ []) bars_db).0 ≡ 0)
    × ((save_bars memory plain (bar_at 1000 ∷ bar_at 2000 ∷ []) bars_db).1.bars ≡ bars_db.bars)
save_bars_twice_example = save_bars_twice memory plain (bar_at 1000 ∷ bar_at 2000 ∷ []) empty_db

bars_bounded_example :
    (length (bars memory plain "replay-market" "ACME" m1 60 none true bars_db) ≤ 60)
    × Ascending
        (map (λ b. b.timestamp) (bars memory plain "replay-market" "ACME" m1 60 none true bars_db))
bars_bounded_example =
    bars_bounded memory plain "replay-market" "ACME" m1 60 none true bars_db (omega arith)

reads_bar : bars memory plain "replay-market" "ACME" m1 60 none true bars_db ≡ bar_at 1000 ∷ []
unfolding memory empty_db plain bars selected_rows select_rows bar_rows sort keep bar_matches
    bar_before bar_rank lex_le bar_of_row utc save_bars save_bar bar_row bar_fingerprint
    ensure_provider ensure_instrument join fingerprint decimal_text time_text
reads_bar = refl

bar_is_read : In (bar_at 1000) (bars memory plain "replay-market" "ACME" m1 60 none true bars_db)
bar_is_read = rw reads_bar (inl refl)

bars-newest_example :
    (row : MarketBarRow) × (bar_at 1000 ≡ bar_of_row memory.dialect row)
    × Available memory plain "replay-market" "ACME" m1 60 none true bars_db row
    × ((other : MarketBarRow)
        → Available memory plain "replay-market" "ACME" m1 60 none true bars_db other
        → other.bar_start_at ≡ row.bar_start_at
        → NoLater other row)
bars-newest_example =
    bars-newest memory plain "replay-market" "ACME" m1 60 none true bars_db (bar_at 1000)
      bar_is_read

abbrev bar_record : MarketBarRow
bar_record = bar_row (bar_fingerprint plain (bar_at 1000)) (bar_at 1000)

bar_record-Available :
    Available memory plain "replay-market" "ACME" m1 60 none true bars_db bar_record
unfolding memory empty_db plain save_bars save_bar bar_row bar_fingerprint ensure_provider
    ensure_instrument join fingerprint decimal_text time_text
bar_record-Available = record {
  stored = refl;
  matched = record {
    of_provider = refl;
    of_symbol = refl;
    of_timeframe = refl;
    received = tt;
    final = λ _. refl;
  };
}

bars_complete_example :
    ((bar : MarketBar) × In bar (bars memory plain "replay-market" "ACME" m1 60 none true bars_db)
      × (bar.timestamp ≡ bar_record.bar_start_at))
    ⊎ (length (bars memory plain "replay-market" "ACME" m1 60 none true bars_db) ≡ 60)
      × ((bar : MarketBar)
          → In bar (bars memory plain "replay-market" "ACME" m1 60 none true bars_db)
          → bar_record.bar_start_at < bar.timestamp)
bars_complete_example =
    bars_complete memory plain "replay-market" "ACME" m1 60 none true bars_db bar_record
      bar_record-Available

abbrev calls : List Call
calls = failure 30 "TimeoutError" false (some 25) ∷ success 20 (some 15) true ∷ []

empty_states : memory.states.get empty_db.states "replay-market" ≡ none
unfolding memory empty_db
empty_states = refl

provider_state-replay_calls_example :
    (state : StoredMarketProviderState) × (provider_state memory "replay-market"
        (replay_calls memory "replay-market" (failure 40 "TimeoutError" true none ∷ calls) empty_db)
      ≡ some state)
    × (state.consecutive_failures ≡ 2)
    × (state.reconnect_count ≡ 1)
    × (state.last_message_received_at ≡ some 25)
    × (state.status ≡ unavailable)
    × (state.heartbeat_at ≡ 40)
    × (state.detail ≡ some "TimeoutError")
    × ((state.status ≡ healthy) ↔ (state.consecutive_failures ≡ 0))
provider_state-replay_calls_example =
    provider_state-replay_calls memory "replay-market" (failure 40 "TimeoutError" true none) calls
      empty_db empty_states

accepts : validate_bar (bar_at 1000) ≡ ok (bar_at 1000)
unfolding validate_bar bar_fields validate_ohlc_bounds length_between optional_length symbol_pattern
accepts = refl

validate_bar_iff_example :
    (validate_bar (bar_at 1000) ≡ ok (bar_at 1000))
    ↔ (HasBarFields (bar_at 1000) × IsOhlc (bar_at 1000))
validate_bar_iff_example = validate_bar_iff (bar_at 1000)

validate_bar-BarChecks_example : BarChecks (bar_row 5 (bar_at 1000))
validate_bar-BarChecks_example = validate_bar-BarChecks 5 (bar_at 1000) (bar_at 1000) accepts
