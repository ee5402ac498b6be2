-- ===== src/PendingSet/Order.antt =====
-- Which member `pop_first` takes: the first one from the cursor on, going round at the end of the
-- words. The search never visits the bits of the cursor's own word below the cursor.
use hft_lead_lag.Prelude.{
  ℕ, ◌+◌, ◌-◌, ◌*◌, ◌≤◌, ◌<◌, ◌≡◌, refl, true, false, Option, none, some, ◌∙◌, sym, ap, length,
  arith, inl, inr, ◌⊎◌, Bool-cases, ◌↔◌, subst,
}
use hft_lead_lag.PendingSet.{
  PendingSymbolSet, take_bit, total_bits, start_word, start_offset, search_words, contains,
  pop_first, is_empty, found,
}
use hft_lead_lag.PendingSet.Scan.{pop_from_word-WordOutcome, pop_from_words-WordsOutcome}
use hft_lead_lag.PendingSet.Valid.{IsValid, Taken, take_bit-Taken, len-pos, len-pos_of_member}
use hft_lead_lag.PendingSet.Nearest.{
  IsHidden, distance, start_lem, SearchOutcome, Nearest, here_Nearest, after_Nearest,
  before_Nearest, all-IsHidden,
}

pub search_words-SearchOutcome :
    (s : PendingSymbolSet) → IsValid s → 0 < length s.words → SearchOutcome s (search_words s)
unfolding search_words
search_words-SearchOutcome s v h = elim (pop_from_word-WordOutcome s i k total v.fit) [
  | inr (b, e, f) ↦ inr (i, b, rw (e, search_words), here_Nearest s v h b f)
  | inl (e, none_here) ↦ elim (pop_from_words-WordsOutcome s (i + 1) n total v.fit) [
    | inr (j, b, e', f) ↦ inr (j, b, rw (e, e', search_words), after_Nearest s v h j b none_here f)
    | inl (e', none_after) ↦ elim (pop_from_words-WordsOutcome s 0 i total v.fit) [
      | inr (j, b, e'', f) ↦
          inr (j, b, rw (e, e', e'', search_words), before_Nearest s v h j b none_here none_after f)
      | inl (e'', none_before) ↦
          inl (rw (e, e', e'', search_words), all-IsHidden s v h none_here none_after none_before)
    ]
  ]
]
  where
    i : ℕ
    i = start_word s

    k : ℕ
    k = start_offset s

    total : ℕ
    total = total_bits s

    n : ℕ
    n = length s.words - (i + 1)

-- A set that is not empty has a word.
words-pos : (s : PendingSymbolSet) → IsValid s → is_empty s ≡ false → 0 < length s.words
unfolding is_empty
words-pos s v ne = len-pos s v (ground arith)

-- What `pop_first` does on a set that is not empty, by what the searches return.
pop_first_nonempty :
    (s : PendingSymbolSet) → IsValid s → is_empty s ≡ false → pop_first s ≡ found s (search_words s)
unfolding pop_first is_empty
pop_first_nonempty s v ne = ground (arith, start_lem s v (words-pos s v ne))

pop_first_empty :
    (s : PendingSymbolSet)
    → is_empty s ≡ true
    → (t : PendingSymbolSet) (k : ℕ) → pop_first s ≡ (some k, t)
    → ⊥
unfolding pop_first is_empty
pop_first_empty s empty t k e = ground arith

pop_first_of_empty : (s : PendingSymbolSet) → is_empty s ≡ true → (pop_first s).0 ≡ none
unfolding pop_first is_empty
pop_first_of_empty s empty = ground arith

pub is_empty_of_member :
    (s : PendingSymbolSet) (j : ℕ) → IsValid s → contains s j ≡ true → is_empty s ≡ false
unfolding is_empty
is_empty_of_member s j v t = let h = len-pos_of_member s j v t in ground arith

-- A symbol that pop_first returns from a valid set was a member and is taken out, no other member
-- changes, len falls by one and the result is valid; no member that the search sees is nearer to
-- the cursor.
pub pop_first-some :
    (s t : PendingSymbolSet) (k : ℕ)
    → IsValid s
    → pop_first s ≡ (some k, t)
    → Taken s k (k, t)
      × ((j : ℕ) → contains s j ≡ true → IsHidden s j ⊎ (distance s k ≤ distance s j))
pop_first-some s t k v e = elim (Bool-cases (is_empty s)) [
  | inl empty ↦ absurd (pop_first_empty s empty t k e)
  | inr ne ↦
      taken (search_words-SearchOutcome s v (words-pos s v ne))
        (sym (pop_first_nonempty s v ne) ∙ e)
]
  where
    taken :
        {r : Option (ℕ × PendingSymbolSet)}
        → SearchOutcome s r
        → found s r ≡ (some k, t)
        → Taken s k (k, t)
          × ((j : ℕ) → contains s j ≡ true → IsHidden s j ⊎ (distance s k ≤ distance s j))
    taken (inl (none_found, _)) f = ground arith
    taken (inr (i, b, some_found, n)) f =
        let r : take_bit s i b (total_bits s) ≡ (k, t) = ground arith in
        let here = take_bit-Taken s i b v n.in_word n.is_set n.inside in
        let same : i * 64 + b ≡ k = sym here.symbol ∙ ap (λ p. p.0) r in
        (
          subst (λ p. Taken s k p) r
              (subst (λ m. Taken s m (take_bit s i b (total_bits s))) same here),
          subst (λ m. (j : ℕ) → contains s j ≡ true → IsHidden s j ⊎ (distance s m ≤ distance s j))
              same n.nearest,
        )

-- pop_first returns nothing from a valid set exactly if all its members lie in the cursor's word
-- below the cursor.
pub pop_first-none_iff :
    (s : PendingSymbolSet)
    → IsValid s
    → ((pop_first s).0 ≡ none) ↔ ((j : ℕ) → contains s j ≡ true → IsHidden s j)
pop_first-none_iff s v = elim (Bool-cases (is_empty s)) [
  | inl empty ↦ (λ _ j t. absurd (no_member empty j t), λ _. pop_first_of_empty s empty)
  | inr ne ↦
      rw (pop_first_nonempty s v ne) (outcome (search_words-SearchOutcome s v (words-pos s v ne)))
]
  where
    no_member : is_empty s ≡ true → (j : ℕ) → contains s j ≡ true → ⊥
    no_member empty j t =
        let full = is_empty_of_member s j v t in let both : true ≡ false = sym empty ∙ full in cc

    seen : (i b : ℕ) → Nearest s i b → ((j : ℕ) → contains s j ≡ true → IsHidden s j) → ⊥
    seen i b n hidden =
        n.visible (hidden (i * 64 + b) (take_bit-Taken s i b v n.in_word n.is_set n.inside).member)

    outcome :
        {r : Option (ℕ × PendingSymbolSet)}
        → SearchOutcome s r
        → ((found s r).0 ≡ none) ↔ ((j : ℕ) → contains s j ≡ true → IsHidden s j)
    outcome (inl (e, hidden)) = rw e ((λ _. hidden), (λ _. refl))
    outcome (inr (i, b, e, n)) = rw e ((λ z. cc), (λ hidden. absurd (seen i b n hidden)))
