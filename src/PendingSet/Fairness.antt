-- ===== src/PendingSet/Fairness.antt =====
-- How long a waiting symbol at or above the cursor waits.
use hft_lead_lag.Prelude.{
  ℕ, suc, ◌-◌, ◌^◌, ◌≤◌, ◌<◌, ◌≡◌, refl, ap, ◌∙◌, ◌*◌, ◌/◌, true, ◌⊎◌, Option, none, some, nat_beq,
  arith, inl, inr, Bool-cases, List, [], ◌∷◌, length,
}
use native.Mathlib.Nat.{mod-eq_of_lt}
use hft_lead_lag.PendingSet.{
  PendingSymbolSet, contains, pop_first, insert, total_bits, start_symbol,
}
use hft_lead_lag.PendingSet.Members.{contains-insert, cursor-insert}
use hft_lead_lag.PendingSet.Nearest.{IsHidden, distance, start_lem, member_in_range}
use hft_lead_lag.PendingSet.Valid.{IsValid, insert-IsValid, Taken}
use hft_lead_lag.PendingSet.Order.{pop_first-none_iff, pop_first-some}

-- What the event loop does to the set: `mark_pending_signal_symbols` and `handle_signal_tick`.
pub data Command : Type 0 where
  mark : ℕ → Command
  take : Command

-- The symbols that come out, in order.
unfoldable pub handed_out : PendingSymbolSet → List Command → List ℕ
handed_out s [] = []
handed_out s (mark k ∷ cs) = handed_out (insert s k) cs
handed_out s (take ∷ cs) =
    let (r, t) = pop_first s in
    let rest = handed_out t cs in elim r [ none ↦ rest | some k ↦ k ∷ rest ]

abbrev pub takes : List Command → ℕ
takes [] = 0
takes (mark k ∷ cs) = takes cs
takes (take ∷ cs) = suc (takes cs)

-- Every symbol that is marked is a `u16`.
abbrev pub AreSymbols : List Command → Type 0
AreSymbols [] = Unit {0}
AreSymbols (mark k ∷ cs) = (k < 2 ^ 16) × AreSymbols cs
AreSymbols (take ∷ cs) = AreSymbols cs

abbrev pub IsIn : ℕ → List ℕ → Type 0
IsIn j [] = ⊥
IsIn j (k ∷ ks) = (k ≡ j) ⊎ IsIn j ks

-- A member at or above the cursor.
pub record IsAhead (s : PendingSymbolSet) (j : ℕ) : Type 0 where
  pub valid : IsValid s
  pub member : contains s j ≡ true
  pub ahead : s.next_cursor_symbol ≤ j

insert-IsAhead :
    (s : PendingSymbolSet) (k j : ℕ) → k < 2 ^ 16 → IsAhead s j → IsAhead (insert s k) j
insert-IsAhead s k j h a = record {
  valid = insert-IsValid s k h a.valid;
  member = ground (arith, contains-insert s k j, a.member);
  ahead = ground (arith, cursor-insert s k, a.ahead);
}

not-IsHidden : (s : PendingSymbolSet) (j : ℕ) → IsAhead s j → ¬ IsHidden s j
not-IsHidden s j a h = omega (
  arith,
  a.ahead,
  member_in_range s j a.member,
  start_lem s a.valid (omega (arith, member_in_range s j a.member)),
)

-- One call of `pop_first` returns the member itself, or one below it after which it is still ahead
-- and the cursor is nearer.
data Served (s : PendingSymbolSet) (j : ℕ) : Type 0 where
  now : (t : PendingSymbolSet) → pop_first s ≡ (some j, t) → Served s j
  later :
      (k : ℕ) (t : PendingSymbolSet)
      → pop_first s ≡ (some k, t)
      → IsAhead t j
      → s.next_cursor_symbol < t.next_cursor_symbol
      → Served s j

served : (s : PendingSymbolSet) (j : ℕ) → IsAhead s j → Served s j
served s j a = split (pop_first s) refl
  where
    started :
        (total_bits s ≡ length s.words * 64)
        × (start_symbol s < total_bits s)
        × (start_symbol s / 64 < length s.words)
    started = start_lem s a.valid (omega (arith, member_in_range s j a.member))

    from_cursor : start_symbol s ≡ s.next_cursor_symbol
    from_cursor =
        mod-eq_of_lt {n = s.next_cursor_symbol} {m = total_bits s}
          (omega (arith, started, a.ahead, member_in_range s j a.member))

    between : (k : ℕ) → distance s k ≤ distance s j → (s.next_cursor_symbol ≤ k) × (k ≤ j)
    between k near = ground (arith, from_cursor, started, a.ahead, member_in_range s j a.member)

    after :
        (k : ℕ) (t : PendingSymbolSet)
        → pop_first s ≡ (some k, t)
        → Taken s k (k, t)
        → distance s k ≤ distance s j
        → Served s j
    after k t e taken near = elim (Bool-cases (nat_beq k j)) [
      | inl same ↦ let eq : k ≡ j = ground arith in now t (rw (← eq) e)
      | inr other ↦
          later k t e
            (record {
              valid = taken.valid;
              member = ground (arith, taken.others j, a.member);
              ahead = ground (
                arith,
                taken.cursor,
                between k near,
                started,
                a.ahead,
                member_in_range s j a.member,
              );
            })
            (ground
              (arith, taken.cursor, between k near, started, a.ahead, member_in_range s j a.member))
    ]

    split : (r : Option ℕ × PendingSymbolSet) → pop_first s ≡ r → Served s j
    split (none, t) e =
        absurd (not-IsHidden s j a ((pop_first-none_iff s a.valid).0 (ap (λ p. p.0) e) j a.member))
    split (some k, t) e =
        let h = pop_first-some s t k a.valid e in
        elim (h.1 j a.member) [
          | inl hidden ↦ absurd (not-IsHidden s j a hidden)
          | inr near ↦ after k t e h.0 near
        ]

-- What a call of `pop_first` puts out and goes on with.
abbrev after_take : List Command → Option ℕ × PendingSymbolSet → List ℕ
after_take cs (none, t) = handed_out t cs
after_take cs (some k, t) = k ∷ handed_out t cs

handed_out-take :
    (s : PendingSymbolSet) (cs : List Command) (r : Option ℕ × PendingSymbolSet)
    → pop_first s ≡ r
    → handed_out s (take ∷ cs) ≡ after_take cs r
unfolding handed_out
handed_out-take s cs r e = shape (pop_first s) ∙ ap (after_take cs) e
  where
    shape :
        (p : Option ℕ × PendingSymbolSet)
        → (elim p.0 [ none ↦ handed_out p.1 cs | some k ↦ k ∷ handed_out p.1 cs ]) ≡ after_take cs p
    shape (none, t) = refl
    shape (some k, t) = refl

-- A symbol that waits at or above the cursor of a valid set is handed out within j -
-- next_cursor_symbol + 1 calls of pop_first, whatever symbols are inserted before, between and
-- after them.
pub handed_out-IsIn_time :
    (s : PendingSymbolSet) (j : ℕ) (cs : List Command)
    → IsValid s
    → contains s j ≡ true
    → s.next_cursor_symbol ≤ j
    → AreSymbols cs
    → j - s.next_cursor_symbol < takes cs
    → IsIn j (handed_out s cs)
unfolding handed_out
handed_out-IsIn_time s j [] v m h k n = absurd (omega arith)
handed_out-IsIn_time s j (mark i ∷ cs) v m h k n =
    let a = insert-IsAhead s i j k.0 (record { valid = v; member = m; ahead = h }) in
    handed_out-IsIn_time (insert s i) j cs a.valid a.member a.ahead k.1
      (omega (arith, cursor-insert s i))
handed_out-IsIn_time s j (take ∷ cs) v m h k n =
    elim (served s j (record { valid = v; member = m; ahead = h })) [
      | now t e ↦ rw (handed_out-take s cs (some j, t) e) (inl refl)
      | later i t e a c ↦
          rw (handed_out-take s cs (some i, t) e)
            (inr (handed_out-IsIn_time t j cs a.valid a.member a.ahead k (omega (arith, a.ahead))))
    ]
