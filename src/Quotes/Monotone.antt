-- ===== src/Quotes/Monotone.antt =====
-- The event times and the quotes that hft-lead-lag/src/domain/screener/state.rs keeps.
use hft_lead_lag.Prelude.{
  ◌≡◌, false, String, List, [], ◌∷◌, Option, none, some, ℤ, ◌≤ℤ◌, arith, string_key,
}
use hft_lead_lag.Prelude.Float.{Float64, lt_f64}
use hft_lead_lag.Quotes.{Quote, SymbolState, goes_back, monotonic_ts, ingest_quote}

-- A known time that does not go back, and stays known.
abbrev pub IsLater : Option ℤ → Option ℤ → Type 0
IsLater none b = Unit {0}
IsLater (some a) none = ⊥
IsLater (some a) (some b) = a ≤ℤ b

-- A quote that is there is not crossed.
abbrev pub IsSound : (fl : Float64) → Option (Quote fl) → Type 0
IsSound fl none = Unit {0}
IsSound fl (some q) = lt_f64 fl q.ask q.bid ≡ false

module _ (fl : Float64) where
  pub record Advances (s t : SymbolState fl) : Type 0 where
    pub binance_time : IsLater s.binance_event_ts_ms t.binance_event_ts_ms
    pub gate_time : IsLater s.gate_event_ts_ms t.gate_event_ts_ms
    pub binance_sound : IsSound fl t.binance
    pub gate_sound : IsSound fl t.gate

  IsLater-self : (a : Option ℤ) → IsLater a a
  IsLater-self none = tt
  IsLater-self (some a) = omega arith

  IsLater-of_step : (a : Option ℤ) (ts : ℤ) → goes_back a ts ≡ false → IsLater a (some ts)
  IsLater-of_step none ts h = tt
  IsLater-of_step (some a) ts h = ground arith

  IsLater-trans : (a b c : Option ℤ) → IsLater a b → IsLater b c → IsLater a c
  IsLater-trans none b c h k = tt
  IsLater-trans (some a) none c h k = absurd h
  IsLater-trans (some a) (some b) none h k = absurd k
  IsLater-trans (some a) (some b) (some c) h k = omega (arith, h, k)

  refl-Advances : (s : SymbolState fl) → IsSound fl s.binance → IsSound fl s.gate → Advances s s
  refl-Advances s b g = record {
    binance_time = IsLater-self s.binance_event_ts_ms;
    gate_time = IsLater-self s.gate_event_ts_ms;
    binance_sound = b;
    gate_sound = g;
  }

  ingest_quote-Advances :
      (s : SymbolState fl) (exchange : String) (quote : Quote fl) (event_ts : ℤ)
      → IsSound fl s.binance
      → IsSound fl s.gate
      → Advances s (ingest_quote fl s exchange quote event_ts).1
  unfolding ingest_quote
  ingest_quote-Advances s exchange quote event_ts b g =
      let ts = monotonic_ts fl quote event_ts in
      let same = refl-Advances s b g in
      let lb = IsLater-of_step s.binance_event_ts_ms ts in
      let lg = IsLater-of_step s.gate_event_ts_ms ts in ground (arith, same, lb, lg, b, g)

  -- The updates in order.
  unfoldable pub ingest_all : SymbolState fl → List (String × (Quote fl × ℤ)) → SymbolState fl
  ingest_all s [] = s
  ingest_all s ((exchange, (quote, event_ts)) ∷ rest) =
      ingest_all (ingest_quote fl s exchange quote event_ts).1 rest

  -- From a state whose quotes are not crossed, any sequence of updates by ingest_quote, accepted
  -- or refused, leaves no crossed quote, and the event time of neither exchange goes back or is
  -- forgotten.
  pub ingest_all-Advances :
      (s : SymbolState fl) (updates : List (String × (Quote fl × ℤ)))
      → IsSound fl s.binance
      → IsSound fl s.gate
      → Advances s (ingest_all s updates)
  unfolding ingest_all
  ingest_all-Advances s [] b g = refl-Advances s b g
  ingest_all-Advances s ((exchange, (quote, event_ts)) ∷ rest) b g =
      let t = (ingest_quote fl s exchange quote event_ts).1 in
      let now = ingest_quote-Advances s exchange quote event_ts b g in
      let later = ingest_all-Advances t rest now.binance_sound now.gate_sound in
      let end = ingest_all t rest in
      record {
        binance_time =
            IsLater-trans s.binance_event_ts_ms t.binance_event_ts_ms end.binance_event_ts_ms
              now.binance_time later.binance_time;
        gate_time =
            IsLater-trans s.gate_event_ts_ms t.gate_event_ts_ms end.gate_event_ts_ms now.gate_time
              later.gate_time;
        binance_sound = later.binance_sound;
        gate_sound = later.gate_sound;
      }
