-- ===== src/Examples/Books.antt =====
-- Quotes of hft-lead-lag/src/domain/screener/state.rs on concrete updates.
use hft_lead_lag.Prelude.{String, List, [], ◌∷◌, none, some, ℤ, pos}
use hft_lead_lag.Quotes.{Quote, SymbolState}
use hft_lead_lag.Quotes.Monotone.{Advances, ingest_all, ingest_all-Advances}
use hft_lead_lag.Examples.Floats.{cents}

abbrev no_quotes : SymbolState cents
no_quotes = record {
  binance = none;
  gate = none;
  binance_event_ts_ms = none;
  gate_event_ts_ms = none;
  lag_ms = some (pos 0);
}

abbrev quote : Quote cents
quote = record { bid = some (pos 100); ask = some (pos 101); ts_ms = pos 7 }

abbrev updates : List (String × (Quote cents × ℤ))
updates = ("gate", (quote, pos 9)) ∷ ("gate", (quote, pos 8)) ∷ ("binance", (quote, pos 0)) ∷ []

ingest_all-Advances_example : Advances cents no_quotes (ingest_all cents no_quotes updates)
ingest_all-Advances_example = ingest_all-Advances cents no_quotes updates tt tt
