-- ===== src/Portfolio/Guard/Cooldown.antt =====
-- While a symbol cools down it is not re-entered, whatever trades are recorded meanwhile.
use hft_lead_lag.Prelude.{
  ◌≡◌, Bool, true, false, String, List, [], ◌∷◌, Option, none, some, ℤ, ◌≤ℤ◌, ◌<ℤ◌, arith,
  saturating_add, saturating_add_mono, inl, inr, Bool-cases, Option-cases, same_self, string_key,
  if◌then◌else◌,
}
use hft_lead_lag.Prelude.Float.{Float64}
use hft_lead_lag.Prelude.Maps.{lookup, lookup-insert}
use hft_lead_lag.Portfolio.Types.{SymbolStats, GuardState, Engine, cooldown_ms}
use hft_lead_lag.Portfolio.Guard.{
  stop_loss, close_trade, record_closed_trade, can_reenter, or_default, cooling,
}
use hft_lead_lag.Portfolio.Guard.Streak.{Trade}

-- The deadline that a trade at `ts` may set.
abbrev pub deadline : ℤ → ℤ
deadline ts = saturating_add ts cooldown_ms

-- Later trades set later deadlines.
deadline_mono : (a b : ℤ) → a ≤ℤ b → deadline a ≤ℤ deadline b
deadline_mono a b h = saturating_add_mono a b cooldown_ms h

-- A guard that cools down at least until `d`.
abbrev CoolsUntil : Option ℤ → ℤ → Type 0
CoolsUntil none d = ⊥
CoolsUntil (some until) d = d ≤ℤ until

-- A trade that starts a cooldown sets its deadline, and any other leaves the deadline as it is.
close_trade-deadline :
    (fl : Float64) (g : GuardState) (pnl : fl.F) (sl : Bool) (ts : ℤ)
    → (close_trade fl g pnl sl ts).0.cooldown_until_ms
      ≡ (if (close_trade fl g pnl sl ts).1 then some (deadline ts) else g.cooldown_until_ms)
unfolding close_trade stop_loss
close_trade-deadline fl g pnl sl ts = ground arith

CoolsUntil-self : (d : ℤ) → CoolsUntil (some d) d
CoolsUntil-self d = omega arith

close_trade-CoolsUntil :
    (fl : Float64) (g : GuardState) (pnl : fl.F) (sl : Bool) (ts start : ℤ)
    → start ≤ℤ ts
    → CoolsUntil g.cooldown_until_ms (deadline start)
    → CoolsUntil (close_trade fl g pnl sl ts).0.cooldown_until_ms (deadline start)
close_trade-CoolsUntil fl g pnl sl ts start h c = elim (Bool-cases (close_trade fl g pnl sl ts).1) [
  | inl now ↦ rw (close_trade-deadline fl g pnl sl ts, now) (deadline_mono start ts h)
  | inr later ↦ rw (close_trade-deadline fl g pnl sl ts, later) c
]

-- The closed trades of all symbols in order.
unfoldable pub record_trades : (fl : Float64) → Engine → List (String × Trade fl) → Engine
record_trades fl e [] = e
record_trades fl e ((symbol, t) ∷ ts) =
    record_trades fl (record_closed_trade fl e symbol t.pnl_pct t.is_stop_loss t.ts_ms).0 ts

abbrev pub AreSince : (fl : Float64) → ℤ → List (String × Trade fl) → Type 0
AreSince fl start [] = Unit {0}
AreSince fl start ((symbol, t) ∷ ts) = (start ≤ℤ t.ts_ms) × AreSince fl start ts

-- The deadline of a symbol in an engine.
abbrev until_of : Engine → String → Option ℤ
until_of e symbol = (or_default (lookup symbol e.guards)).cooldown_until_ms

until_of-record :
    (fl : Float64) (e : Engine) (symbol other : String) (pnl : fl.F) (sl : Bool) (ts : ℤ)
    → until_of (record_closed_trade fl e other pnl sl ts).0 symbol ≡ (
        if string_key.same other symbol
        then (close_trade fl (or_default (lookup other e.guards)) pnl sl ts).0.cooldown_until_ms
        else until_of e symbol)
unfolding record_closed_trade
until_of-record fl e symbol other pnl sl ts = ground (
  arith,
  lookup-insert other symbol (close_trade fl (or_default (lookup other e.guards)) pnl sl ts).0
      e.guards,
)

record-CoolsUntil :
    (fl : Float64) (e : Engine) (symbol other : String) (t : Trade fl) (start : ℤ)
    → start ≤ℤ t.ts_ms
    → CoolsUntil (until_of e symbol) (deadline start)
    → CoolsUntil
        (until_of (record_closed_trade fl e other t.pnl_pct t.is_stop_loss t.ts_ms).0 symbol)
        (deadline start)
record-CoolsUntil fl e symbol other t start h c =
    rw (until_of-record fl e symbol other t.pnl_pct t.is_stop_loss t.ts_ms)
      (elim (Bool-cases (string_key.same other symbol)) [
        | inl same ↦
            let eq : other ≡ symbol = (string_key.same_iff other symbol).0 same in
            rw (same, eq)
              (close_trade-CoolsUntil fl (or_default (lookup symbol e.guards)) t.pnl_pct
                t.is_stop_loss t.ts_ms start h c)
        | inr other_one ↦ rw other_one c
      ])

record_trades-CoolsUntil :
    (fl : Float64) (e : Engine) (symbol : String) (ts : List (String × Trade fl)) (start : ℤ)
    → AreSince fl start ts
    → CoolsUntil (until_of e symbol) (deadline start)
    → CoolsUntil (until_of (record_trades fl e ts) symbol) (deadline start)
unfolding record_trades
record_trades-CoolsUntil fl e symbol [] start h c = c
record_trades-CoolsUntil fl e symbol ((other, t) ∷ ts) start h c =
    record_trades-CoolsUntil fl (record_closed_trade fl e other t.pnl_pct t.is_stop_loss t.ts_ms).0
      symbol ts start h.1 (record-CoolsUntil fl e symbol other t start h.0 c)

cooling_of :
    (o : Option GuardState) (d now : ℤ)
    → CoolsUntil (or_default o).cooldown_until_ms d
    → now <ℤ d
    → cooling o now ≡ true
cooling_of none d now c h = absurd c
cooling_of (some g) d now c h = elim (Option-cases g.cooldown_until_ms) [
  | inl never ↦ absurd (rw never at c)
  | inr (until, e) ↦ let c' : d ≤ℤ until = rw e at c in rw e (ground arith)
]

blocked :
    (fl : Float64) (e : Engine) (symbol : String) (stats : SymbolStats fl) (d now : ℤ)
    → CoolsUntil (until_of e symbol) d
    → now <ℤ d
    → can_reenter fl e symbol stats now ≡ false
unfolding can_reenter
blocked fl e symbol stats d now c h = rw (cooling_of (lookup symbol e.guards) d now c h)

-- What a trade that starts a cooldown sets.
started :
    (fl : Float64) (e : Engine) (symbol : String) (t : Trade fl)
    → (record_closed_trade fl e symbol t.pnl_pct t.is_stop_loss t.ts_ms).1 ≡ true
    → until_of (record_closed_trade fl e symbol t.pnl_pct t.is_stop_loss t.ts_ms).0 symbol
      ≡ some (deadline t.ts_ms)
started fl e symbol t trig =
    rw (until_of-record fl e symbol symbol t.pnl_pct t.is_stop_loss t.ts_ms, same_self symbol)
      (rw (
        close_trade-deadline fl (or_default (lookup symbol e.guards)) t.pnl_pct t.is_stop_loss
            t.ts_ms,
        triggered fl e symbol t trig,
      ))
  where
    triggered :
        (fl : Float64) (e : Engine) (symbol : String) (t : Trade fl)
        → (record_closed_trade fl e symbol t.pnl_pct t.is_stop_loss t.ts_ms).1 ≡ true
        → (close_trade fl (or_default (lookup symbol e.guards)) t.pnl_pct t.is_stop_loss t.ts_ms).1
          ≡ true
    triggered fl e symbol t h = unfold record_closed_trade in h

-- When a closed trade at ts starts a cooldown, the symbol is not re-entered before ts plus the
-- cooldown time, whatever its statistics are and whatever trades of whatever symbols are recorded
-- after it, as long as they are not closed before ts.
pub no_reentry_while_cooling :
    (fl : Float64) (e : Engine) (symbol : String) (t : Trade fl) (ts : List (String × Trade fl))
    (stats : SymbolStats fl) (now : ℤ)
    → (record_closed_trade fl e symbol t.pnl_pct t.is_stop_loss t.ts_ms).1 ≡ true
    → AreSince fl t.ts_ms ts
    → now <ℤ deadline t.ts_ms
    → can_reenter fl (record_trades fl e ((symbol, t) ∷ ts)) symbol stats now ≡ false
unfolding record_trades
no_reentry_while_cooling fl e symbol t ts stats now trig since early =
    blocked fl (record_trades fl after ts) symbol stats (deadline t.ts_ms) now
      (record_trades-CoolsUntil fl after symbol ts t.ts_ms since
        (rw (started fl e symbol t trig) (CoolsUntil-self (deadline t.ts_ms))))
      early
  where
    after : Engine
    after = (record_closed_trade fl e symbol t.pnl_pct t.is_stop_loss t.ts_ms).0
