-- ===== src/Shadow/Gap.antt =====
-- Entries of hft-lead-lag/src/domain/screener/shadow_trader.rs: `detect_gap` and `try_entry`.
use hft_lead_lag.Prelude.{
  ℕ, ◌+◌, ◌%◌, Bool, ◌&&◌, ◌||◌, not, List, [], ◌∷◌, ◌++◌, Option, none, some, ℤ, ◌-%◌, leb, leb_ℤ,
  ltb_ℤ, nat_beq, is_some, if◌then◌else◌, String,
}
use hft_lead_lag.Prelude.Float.{Float64, gt_f64, ge_f64}
use hft_lead_lag.Quotes.{Quote}
use hft_lead_lag.Prices.{PriceSample}
use hft_lead_lag.Shadow.Config.{TraderConfig}
use hft_lead_lag.Shadow.Types.{Direction, short, long, EntryOrder, entry, ShadowTrader}

-- `as u32`
abbrev pub as_u32 : ℕ → ℕ
as_u32 n = n % 4_294_967_296

module _ (fl : Float64) where
  abbrev pub zero_f64 : fl.F
  zero_f64 = fl.ratio 0 1

  -- `((a - b) / c) * 10_000.0`
  abbrev pub in_bps : fl.F → fl.F → fl.F → fl.F
  in_bps a b c = fl.mul (fl.div (fl.sub a b) c) (fl.ratio 10_000 1)

  -- The sum of the gaps of one side and their count.
  pub record GapSum : Type 0 where
    pub gap_sum : fl.F
    pub gap_count : ℕ

  abbrev pub no_gaps : GapSum
  no_gaps = record { gap_sum = zero_f64; gap_count = 0 }

  abbrev pub add_gap : Bool → fl.F → GapSum → GapSum
  add_gap valid gap g =
      if valid then record { gap_sum = fl.add g.gap_sum gap; gap_count = g.gap_count + 1 } else g

  abbrev pub ask_valid : PriceSample fl → Bool
  ask_valid s = gt_f64 fl s.gate_ask zero_f64 && gt_f64 fl s.binance_ask zero_f64

  abbrev pub bid_valid : PriceSample fl → Bool
  bid_valid s = gt_f64 fl s.gate_bid zero_f64 && gt_f64 fl s.binance_bid zero_f64

  -- The loop over the samples; the counts, which are at most the number of samples, are unbounded.
  unfoldable pub baseline : ℤ → ℤ → List (PriceSample fl) → GapSum → GapSum → GapSum × GapSum
  baseline cutoff ts_ms [] ask bid = (ask, bid)
  baseline cutoff ts_ms (s ∷ ss) ask bid =
      let outside = ltb_ℤ s.ts_ms cutoff || leb_ℤ ts_ms s.ts_ms in
      let ask_gap = in_bps s.binance_ask s.gate_ask s.gate_ask in
      let bid_gap = in_bps s.gate_bid s.binance_bid s.gate_bid in
      baseline cutoff ts_ms ss (add_gap (not outside && ask_valid s) ask_gap ask)
        (add_gap (not outside && bid_valid s) bid_gap bid)

  -- The signal of one side, if its baseline is ready, its price is above zero and it reaches the
  -- threshold.
  abbrev pub side_signal : TraderConfig fl → Bool → GapSum → fl.F → fl.F → Option fl.F
  side_signal cfg ready g price current_gap =
      let average = if ready then fl.div g.gap_sum (fl.of_nat g.gap_count) else zero_f64 in
      let signal = fl.sub current_gap average in
      if ready && gt_f64 fl price zero_f64 && ge_f64 fl signal cfg.spike_threshold_bps
      then some signal
      else none

  abbrev pub stronger : Option fl.F → Option fl.F → Option (Direction × fl.F)
  stronger (some long_bps) (some short_bps) =
      if gt_f64 fl short_bps long_bps then some (short, short_bps) else some (long, long_bps)
  stronger (some long_bps) none = some (long, long_bps)
  stronger none (some short_bps) = some (short, short_bps)
  stronger none none = none

  unfoldable pub detect_gap :
      TraderConfig fl → ℤ → Quote fl → Quote fl → List (PriceSample fl) → Option (Direction × fl.F)
  detect_gap cfg ts_ms binance gate samples =
      let (ask, bid) = baseline (ts_ms -% cfg.baseline_window_ms) ts_ms samples no_gaps no_gaps in
      let ask_ready = leb (as_u32 cfg.min_baseline_samples) ask.gap_count in
      let bid_ready = leb (as_u32 cfg.min_baseline_samples) bid.gap_count in
      let long_signal =
        side_signal cfg ask_ready ask gate.ask (in_bps binance.ask gate.ask gate.ask) in
      let short_signal =
        side_signal cfg bid_ready bid gate.bid (in_bps gate.bid binance.bid gate.bid) in
      if nat_beq ask.gap_count 0 && nat_beq bid.gap_count 0
      then none
      else if not ask_ready && not bid_ready
      then none
      else stronger long_signal short_signal

  abbrev pub gate_mid : Quote fl → fl.F
  gate_mid gate = fl.mul (fl.add gate.bid gate.ask) (fl.ratio 1 2)

  abbrev pub spread_bps : Quote fl → fl.F
  spread_bps gate = in_bps gate.ask gate.bid (gate_mid gate)

  abbrev pub too_wide : TraderConfig fl → Quote fl → Bool
  too_wide cfg gate =
      gt_f64 fl cfg.max_spread_bps zero_f64
      && gt_f64 fl (gate_mid gate) zero_f64
      && gt_f64 fl (spread_bps gate) cfg.max_spread_bps

  -- An order for a gap that was found.
  abbrev pub place_entry :
      ℤ
      → Quote fl
      → fl.F
      → Option String
      → Option (Direction × fl.F)
      → ShadowTrader fl
      → ShadowTrader fl
  place_entry ts_ms gate natr run_id none s = s
  place_entry ts_ms gate natr run_id (some (direction, gap_bps)) s =
      let order : EntryOrder fl = record {
        direction = direction;
        fire_ts_ms = ts_ms;
        spike_bps = gap_bps;
        gate_spread_at_entry_bps =
            if gt_f64 fl (gate_mid gate) zero_f64 then spread_bps gate else zero_f64;
        gate_natr_30m_pct_at_entry = natr;
        run_id = run_id;
      } in
      record s { spike_timestamps = s.spike_timestamps ++ ts_ms ∷ []; pending = some (entry order) }

  unfoldable pub try_entry :
      ℤ
      → Quote fl
      → Quote fl
      → List (PriceSample fl)
      → fl.F
      → Option String
      → ShadowTrader fl
      → ShadowTrader fl
  try_entry ts_ms binance gate samples natr run_id s =
      if is_some s.position || is_some s.pending || ltb_ℤ ts_ms s.cooldown_until_ms
      then s
      else if too_wide s.config gate
      then s
      else place_entry ts_ms gate natr run_id (detect_gap s.config ts_ms binance gate samples) s
