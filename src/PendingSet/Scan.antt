-- ===== src/PendingSet/Scan.antt =====
-- What the searches of `pop_first` find: the lowest bit of the words that they visit.
use hft_lead_lag.Prelude.{
  ℕ, zero, suc, ◌+◌, ◌^◌, ◌≤◌, ◌<◌, ◌≡◌, refl, true, false, List, [], ◌∷◌, Option, none, some,
  nat_beq, if◌then◌else◌, get_or, arith, inl, inr, ◌⊎◌, Bool-cases, All, leb,
}
use hft_lead_lag.Word.{test_bit, mask_from, trailing_zeros}
use hft_lead_lag.Word.Bits.{
  test_bit-mask_from, test_bit-zero, mask_from-le, trailing_zeros_lem, trailing_zeros_first,
}
use hft_lead_lag.PendingSet.{
  PendingSymbolSet, word_at, take_bit, pop_from_word, pop_from_words, bit_at,
}

-- Every word is a `u64`.
abbrev pub AreWords : List ℕ → Type 0
AreWords = All (λ w. w < 2 ^ 64)

pub get_or-lt : (words : List ℕ) (i : ℕ) → AreWords words → get_or words i 0 < 2 ^ 64
get_or-lt [] i h = omega arith
get_or-lt (w ∷ ws) zero h = h.0
get_or-lt (w ∷ ws) (suc i) h = get_or-lt ws i h.1

-- No bit from `k` on is set in the word `i`.
abbrev pub NoneFrom : PendingSymbolSet → ℕ → ℕ → Type 0
NoneFrom s i k = (b : ℕ) → k ≤ b → bit_at s.words i b ≡ false

-- `b` is the lowest bit from `k` on of the word `i`.
pub record FirstFrom (s : PendingSymbolSet) (i k b : ℕ) : Type 0 where
  pub above : k ≤ b
  pub in_word : b < 64
  pub is_set : bit_at s.words i b ≡ true
  pub lowest : (c : ℕ) → k ≤ c → c < b → bit_at s.words i c ≡ false

-- The two outcomes of a search in one word.
abbrev pub WordOutcome : PendingSymbolSet → ℕ → ℕ → ℕ → Option (ℕ × PendingSymbolSet) → Type 0
WordOutcome s i k total r =
    ((r ≡ none) × NoneFrom s i k)
    ⊎ ((b : ℕ) × (r ≡ some (take_bit s i b total)) × FirstFrom s i k b)

pub pop_from_word-WordOutcome :
    (s : PendingSymbolSet) (i k total : ℕ)
    → AreWords s.words
    → WordOutcome s i k total (pop_from_word s i k total)
unfolding pop_from_word
pop_from_word-WordOutcome s i k total h =
    elim (Bool-cases (nat_beq (mask_from (word_at s i) k) 0)) [
      | inl empty ↦ inl (rw empty, λ b kb. no_bit b kb (ground arith))
      | inr full ↦
          let low =
            trailing_zeros_lem (mask_from (word_at s i) k)
              (omega (arith, get_or-lt s.words i h, mask_from-le (word_at s i) k)) (ground arith) in
          inr (
            trailing_zeros (mask_from (word_at s i) k),
            rw full,
            record {
              above = ground (arith, bit_of (trailing_zeros (mask_from (word_at s i) k)));
              in_word = low.0;
              is_set = ground (arith, bit_of (trailing_zeros (mask_from (word_at s i) k)));
              lowest = λ c kc cb.
                  ground (arith, bit_of c, trailing_zeros_first (mask_from (word_at s i) k) c cb);
            },
          )
    ]
  where
    bit_of :
        (b : ℕ)
        → test_bit (mask_from (word_at s i) k) b
          ≡ (if leb k b then test_bit (word_at s i) b else false)
    bit_of b = ground (arith, test_bit-mask_from (word_at s i) k b)

    no_bit : (b : ℕ) → k ≤ b → mask_from (word_at s i) k ≡ 0 → bit_at s.words i b ≡ false
    no_bit b kb e =
        let z : test_bit (mask_from (word_at s i) k) b ≡ false = rw e (test_bit-zero b) in
        ground (arith, bit_of b)

-- The two outcomes of a search in `n` words from the word `i`.
pub record FirstWord (s : PendingSymbolSet) (i n j b : ℕ) : Type 0 where
  pub from : i ≤ j
  pub below : j < i + n
  pub first : FirstFrom s j 0 b
  pub skipped : (l : ℕ) → i ≤ l → l < j → NoneFrom s l 0

abbrev pub WordsOutcome : PendingSymbolSet → ℕ → ℕ → ℕ → Option (ℕ × PendingSymbolSet) → Type 0
WordsOutcome s i n total r =
    ((r ≡ none) × ((l : ℕ) → i ≤ l → l < i + n → NoneFrom s l 0))
    ⊎ ((j : ℕ) × (b : ℕ) × (r ≡ some (take_bit s j b total)) × FirstWord s i n j b)

-- A word without bits, and what the words after it hold.
NoneFrom-cons :
    (s : PendingSymbolSet) (i m : ℕ)
    → NoneFrom s i 0
    → ((l : ℕ) → i + 1 ≤ l → l < m → NoneFrom s l 0)
    → (l : ℕ) → i ≤ l
    → l < m
    → NoneFrom s l 0
NoneFrom-cons s i m here later l il lm = elim (Bool-cases (nat_beq l i)) [
  | inl same ↦ let e : l ≡ i = ground arith in rw e here
  | inr other ↦ later l (ground arith) lm
]

pub pop_from_words-WordsOutcome :
    (s : PendingSymbolSet) (i n total : ℕ)
    → AreWords s.words
    → WordsOutcome s i n total (pop_from_words s i n total)
unfolding pop_from_words
pop_from_words-WordsOutcome s i zero total h = inl (refl, λ l il li b _. absurd (omega arith))
pop_from_words-WordsOutcome s i (suc n) total h = elim (pop_from_word-WordOutcome s i 0 total h) [
  | inr (b, e, first) ↦ inr (
    i,
    b,
    rw (e, pop_from_words),
    record {
      from = omega arith;
      below = omega arith;
      first = first;
      skipped = λ l il li _ _. absurd (omega arith);
    },
  )
  | inl (e, here) ↦
      rw (e, pop_from_words) (after here (pop_from_words-WordsOutcome s (i + 1) n total h))
]
  where
    after :
        NoneFrom s i 0
        → {r : Option (ℕ × PendingSymbolSet)} → WordsOutcome s (i + 1) n total r
        → WordsOutcome s i (suc n) total r
    after here (inl (e, later)) = inl (
      e,
      λ l il lm.
          NoneFrom-cons s i (i + suc n) here (λ l' il' lm'. later l' il' (omega arith)) l il lm,
    )
    after here (inr (j, b, e, f)) = inr (
      j,
      b,
      e,
      record {
        from = omega (arith, f.from);
        below = omega (arith, f.below);
        first = f.first;
        skipped = λ l il lj. NoneFrom-cons s i j here (λ l' il' lm'. f.skipped l' il' lm') l il lj;
      },
    )
