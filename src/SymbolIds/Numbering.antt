-- ===== src/SymbolIds/Numbering.antt =====
-- Which ids hft-lead-lag/src/domain/strategy_symbol_ids.rs gives.
use hft_lead_lag.Prelude.{
  ℕ, ◌+◌, ◌≤◌, ◌≡◌, refl, ap, String, List, [], ◌∷◌, ◌++◌, ◌⊎◌, inl, inr, is_some, ltb, leb, arith,
  length, string_key, Bool-cases, u64_max, sat_inc, if◌then◌else◌,
}
use hft_lead_lag.Prelude.Maps.{lookup, insert, lookup-insert, contains, contains-append}
use hft_lead_lag.SymbolIds.{
  StrategySymbolIdCapacityError, Pairs, collect_pairs, build_strategy_symbol_id_pairs,
}

-- The symbols that are not done, each at its first place.
unfoldable pub first_seen : List String → List String → List String
first_seen done [] = []
first_seen done (s ∷ ss) =
    let skip = first_seen done ss in
    let keep = s ∷ first_seen (done ++ s ∷ []) ss in if contains s done then skip else keep

-- Numbered from `n` on.
unfoldable pub numbered : ℕ → List String → Pairs
numbered n [] = []
numbered n (s ∷ ss) = (s, n) ∷ numbered (n + 1) ss

-- What the ids of distinct symbols are, as far as they fit.
abbrev pub ids_of : Pairs → ℕ → List String → StrategySymbolIdCapacityError ⊎ Pairs
ids_of pairs n ss =
    if leb (n + length ss) 65_536
    then inr (pairs ++ numbered n ss)
    else inl (record { unique_symbols = 65_537; max_symbols = 65_536 })

append_assoc {ℓ} : {A : Type ℓ} (xs ys zs : List A) → (xs ++ ys) ++ zs ≡ xs ++ (ys ++ zs)
append_assoc [] ys zs = refl
append_assoc (x ∷ xs) ys zs = ap (λ l. x ∷ l) (append_assoc xs ys zs)

append-nil {ℓ} : {A : Type ℓ} (xs : List A) → xs ++ [] ≡ xs
append-nil [] = refl
append-nil (x ∷ xs) = ap (λ l. x ∷ l) (append-nil xs)

seen_done :
    (seen : Pairs) (done : List String) (n : ℕ) (s t : String)
    → is_some (lookup t seen) ≡ contains t done
    → is_some (lookup t (insert s n seen)) ≡ contains t (done ++ s ∷ [])
unfolding contains
seen_done seen done n s t h =
    ground (arith, h, lookup-insert s t n seen, contains-append t done (s ∷ []))

collect_pairs_lem :
    (pairs seen : Pairs) (done : List String) (n : ℕ) (ss : List String)
    → ((t : String) → is_some (lookup t seen) ≡ contains t done)
    → n ≤ 65_536
    → collect_pairs pairs seen n ss ≡ ids_of pairs n (first_seen done ss)
unfolding collect_pairs first_seen numbered
collect_pairs_lem pairs seen done n [] h b = ground (arith, append-nil pairs)
collect_pairs_lem pairs seen done n (s ∷ ss) h b = elim (Bool-cases (contains s done)) [
  | inl e ↦ let skip = collect_pairs_lem pairs seen done n ss h b in ground (arith, h s, e, skip)
  | inr e ↦ elim (Bool-cases (ltb n 65_536)) [
    | inl small ↦
        let push =
          collect_pairs_lem (pairs ++ (s, n) ∷ []) (insert s n seen) (done ++ s ∷ []) (n + 1) ss
            (λ t. seen_done seen done n s t (h t)) (ground arith) in
        let next : sat_inc u64_max n ≡ n + 1 = ground arith in
        ground (
          arith,
          h s,
          e,
          small,
          push,
          next,
          append_assoc pairs ((s, n) ∷ []) (numbered (n + 1) (first_seen (done ++ s ∷ []) ss)),
        )
    | inr large ↦ ground (arith, h s, e, large)
  ]
]

-- build_strategy_symbol_id_pairs numbers the distinct symbols from 0 in the order in which they
-- are first seen if there are at most 65536 of them, and otherwise fails with 65537 unique symbols
-- counted.
pub build_strategy_symbol_id_pairs_lem :
    (symbols : List String)
    → build_strategy_symbol_id_pairs symbols ≡ ids_of [] 0 (first_seen [] symbols)
unfolding build_strategy_symbol_id_pairs lookup contains
build_strategy_symbol_id_pairs_lem symbols =
    collect_pairs_lem [] [] [] 0 symbols (λ t. ground arith) (omega arith)
