-- ===== src/Shadow/Config.antt =====
-- `TraderConfig` of hft-lead-lag/src/domain/screener/trader_config.rs and its validation.
use hft_lead_lag.Prelude.{
  ℕ, Bool, ◌||◌, not, String, Option, none, some, ℤ, pos, leb_ℤ, ltb_ℤ, nat_beq, if◌then◌else◌,
}
use hft_lead_lag.Prelude.Float.{Float64, lt_f64, le_f64, gt_f64, ge_f64}

pub record TraderConfig (fl : Float64) : Type 0 where
  pub spike_threshold_bps : fl.F
  pub target_ratio : fl.F
  pub stop_loss_bps : fl.F
  pub max_hold_ms : ℤ
  pub max_spread_bps : fl.F
  pub trailing_decay_ratio : fl.F
  pub baseline_window_ms : ℤ
  pub fill_delay_ms : ℤ
  pub cooldown_ms : ℤ
  pub warmup_ms : ℤ
  pub quote_freshness_ms : ℤ
  pub taker_fee : fl.F
  pub min_baseline_samples : ℕ

pub record TraderConfigValidationError : Type 0 where
  pub field : String
  pub reason : String

abbrev pub default_trader_config : (fl : Float64) → TraderConfig fl
default_trader_config fl = record {
  spike_threshold_bps = fl.ratio 50 1;
  target_ratio = fl.ratio 1 2;
  stop_loss_bps = fl.ratio 15 1;
  max_hold_ms = pos 10_000;
  max_spread_bps = fl.ratio 5 1;
  trailing_decay_ratio = fl.ratio 1 2;
  baseline_window_ms = pos 20_000;
  fill_delay_ms = pos 6;
  cooldown_ms = pos 3_000;
  warmup_ms = pos 30_000;
  quote_freshness_ms = pos 1_000;
  taker_fee = fl.ratio 5 10_000;
  min_baseline_samples = 20;
}

-- The error of a check that fails, or what the later checks say.
abbrev pub refuse :
    Bool → String → String → Option TraderConfigValidationError → Option TraderConfigValidationError
refuse bad field reason later =
    if bad then some (record { field = field; reason = reason }) else later

-- `none` is `Ok(())`.
unfoldable pub validate : (fl : Float64) → TraderConfig fl → Option TraderConfigValidationError
validate fl c =
    let zero = fl.ratio 0 1 in
    let one = fl.ratio 1 1 in
    let wild = λ (x : fl.F). not (fl.is_finite x) in
    refuse (wild c.spike_threshold_bps || le_f64 fl c.spike_threshold_bps zero)
      "spike_threshold_bps" "must be finite and > 0"
      (refuse (wild c.target_ratio || le_f64 fl c.target_ratio zero || gt_f64 fl c.target_ratio one)
        "target_ratio" "must be finite and in (0, 1]"
        (refuse (wild c.stop_loss_bps || le_f64 fl c.stop_loss_bps zero) "stop_loss_bps"
          "must be finite and > 0"
          (refuse (leb_ℤ c.max_hold_ms (pos 0)) "max_hold_ms" "must be > 0" (
            refuse (wild c.max_spread_bps || lt_f64 fl c.max_spread_bps zero) "max_spread_bps"
              "must be finite and >= 0"
              (refuse
                (wild c.trailing_decay_ratio
                  || le_f64 fl c.trailing_decay_ratio zero
                  || gt_f64 fl c.trailing_decay_ratio one)
                "trailing_decay_ratio" "must be finite and in (0, 1]"
                (refuse (leb_ℤ c.baseline_window_ms (pos 0)) "baseline_window_ms" "must be > 0" (
                  refuse (ltb_ℤ c.fill_delay_ms (pos 0)) "fill_delay_ms" "must be >= 0" (
                    refuse (ltb_ℤ c.cooldown_ms (pos 0)) "cooldown_ms" "must be >= 0" (
                      refuse (ltb_ℤ c.warmup_ms (pos 0)) "warmup_ms" "must be >= 0" (
                        refuse (leb_ℤ c.quote_freshness_ms (pos 0)) "quote_freshness_ms"
                          "must be > 0"
                          (refuse
                            (wild c.taker_fee
                              || lt_f64 fl c.taker_fee zero
                              || ge_f64 fl c.taker_fee one)
                            "taker_fee" "must be finite and in [0, 1)"
                            (refuse (nat_beq c.min_baseline_samples 0) "min_baseline_samples"
                              "must be > 0" none))))))))))))
