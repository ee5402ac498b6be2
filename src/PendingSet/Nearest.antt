-- ===== src/PendingSet/Nearest.antt =====
-- Why what a search of `pop_first` finds is the nearest member from the cursor on, going round at the
-- end of the words. The search never visits the bits of the cursor's own word below the cursor.
use hft_lead_lag.Prelude.{
  ℕ, ◌+◌, ◌-◌, ◌*◌, ◌/◌, ◌%◌, ◌≤◌, ◌<◌, ◌≡◌, true, false, Option, none, some, nat_beq,
  if◌then◌else◌, length, arith, inl, inr, ◌⊎◌, Bool-cases, leb, ltb, get_or_out,
}
use hft_lead_lag.Word.Bits.{test_bit-zero}
use hft_lead_lag.PendingSet.{
  PendingSymbolSet, take_bit, total_bits, start_symbol, start_word, start_offset, contains, bit_at,
}
use hft_lead_lag.PendingSet.Scan.{NoneFrom, FirstFrom, FirstWord}
use hft_lead_lag.PendingSet.Valid.{IsValid}

-- The members that the search does not see.
abbrev pub IsHidden : PendingSymbolSet → ℕ → Type 0
IsHidden s j = (j / 64 ≡ start_word s) × (j < start_symbol s)

-- How far a symbol is from the cursor, going up and round.
abbrev pub distance : PendingSymbolSet → ℕ → ℕ
distance s j =
    if leb (start_symbol s) j then j - start_symbol s else j + total_bits s - start_symbol s

FirstFrom-le :
    {s : PendingSymbolSet} {i k b : ℕ}
    → FirstFrom s i k b
    → (c : ℕ) → k ≤ c
    → bit_at s.words i c ≡ true
    → b ≤ c
FirstFrom-le f c kc t = ground (arith, f.lowest c kc)

FirstWord-le :
    {s : PendingSymbolSet} {i n j b : ℕ}
    → FirstWord s i n j b
    → (l c : ℕ) → i ≤ l
    → c < 64
    → bit_at s.words l c ≡ true
    → j * 64 + b ≤ l * 64 + c
FirstWord-le {s} {j = j} f l c il hc t = elim (Bool-cases (ltb l j)) [
  | inl before ↦ ground (arith, f.skipped l il (ground arith) c (omega arith))
  | inr not_before ↦ elim (Bool-cases (nat_beq l j)) [
    | inl same ↦
        let e : l ≡ j = ground arith in
        let t' : bit_at s.words j c ≡ true = rw e at t in
        omega (arith, FirstFrom-le f.first c (omega arith) t')
    | inr later ↦ ground (arith, f.first.in_word)
  ]
]

-- A member lies inside the words.
pub member_in_range : (s : PendingSymbolSet) (j : ℕ) → contains s j ≡ true → j / 64 < length s.words
unfolding contains
member_in_range s j t = elim (Bool-cases (ltb (j / 64) (length s.words))) [
  | inl inside ↦ ground arith
  | inr outside ↦
      let e : bit_at s.words (j / 64) (j % 64) ≡ false =
        rw (get_or_out s.words (j / 64) 0 (ground arith)) (test_bit-zero (j % 64)) in
      ground arith
]

-- Where the search starts, in a valid set that has a word.
pub start_lem :
    (s : PendingSymbolSet)
    → IsValid s
    → 0 < length s.words
    → (total_bits s ≡ length s.words * 64)
      × (start_symbol s < total_bits s)
      × (start_word s < length s.words)
start_lem s v h = (omega (arith, v.room), omega (arith, v.room), omega (arith, v.room))

-- The two outcomes of the three searches together.
pub record Nearest (s : PendingSymbolSet) (i b : ℕ) : Type 0 where
  pub inside : i < length s.words
  pub in_word : b < 64
  pub is_set : bit_at s.words i b ≡ true
  pub visible : ¬ IsHidden s (i * 64 + b)
  pub nearest :
      (j : ℕ) → contains s j ≡ true → IsHidden s j ⊎ (distance s (i * 64 + b) ≤ distance s j)

abbrev pub SearchOutcome : PendingSymbolSet → Option (ℕ × PendingSymbolSet) → Type 0
SearchOutcome s r =
    ((r ≡ none) × ((j : ℕ) → contains s j ≡ true → IsHidden s j))
    ⊎ ((i : ℕ) × (b : ℕ) × (r ≡ some (take_bit s i b (total_bits s))) × Nearest s i b)

module _ (s : PendingSymbolSet) (v : IsValid s) (h : 0 < length s.words) where
  -- Found in the cursor's word.
  pub here_Nearest :
      (b : ℕ) → FirstFrom s (start_word s) (start_offset s) b → Nearest s (start_word s) b
  unfolding contains
  here_Nearest b f = record {
    inside = (start_lem s v h).2;
    in_word = f.in_word;
    is_set = f.is_set;
    visible = λ hid. omega (arith, f.above, f.in_word, hid);
    nearest = λ j t. elim (Bool-cases (nat_beq (j / 64) (start_word s))) [
      | inl same ↦ elim (Bool-cases (ltb (j % 64) (start_offset s))) [
        | inl low ↦ inl (ground arith, ground arith)
        | inr high ↦
            let e : j / 64 ≡ start_word s = ground arith in
            let t' : bit_at s.words (start_word s) (j % 64) ≡ true = rw e at t in
            inr (ground (arith, start_lem s v h, FirstFrom-le f (j % 64) (ground arith) t'))
      ]
      | inr other ↦ inr (ground (arith, start_lem s v h, f.above, f.in_word, member_in_range s j t))
    ];
  }

  -- Found in a word above it.
  pub after_Nearest :
      (i b : ℕ)
      → NoneFrom s (start_word s) (start_offset s)
      → FirstWord s (start_word s + 1) (length s.words - (start_word s + 1)) i b
      → Nearest s i b
  unfolding contains
  after_Nearest i b none_here f = record {
    inside = omega (arith, f.below, f.from);
    in_word = f.first.in_word;
    is_set = f.first.is_set;
    visible = λ hid. omega (arith, f.from, f.first.in_word, hid);
    nearest = λ j t. elim (Bool-cases (leb (start_word s + 1) (j / 64))) [
      | inl above ↦ inr (
          ground (
            arith,
            start_lem s v h,
            f.from,
            FirstWord-le f (j / 64) (j % 64) (ground arith) (omega arith) t,
          ))
      | inr not_above ↦ elim (Bool-cases (nat_beq (j / 64) (start_word s))) [
        | inl same ↦
            let e : j / 64 ≡ start_word s = ground arith in
            let t' : bit_at s.words (start_word s) (j % 64) ≡ true = rw e at t in
            inl (e, ground (arith, none_here (j % 64)))
        | inr below ↦ inr (
            ground
              (arith, start_lem s v h, f.from, f.below, f.first.in_word, member_in_range s j t))
      ]
    ];
  }

  -- Found in a word below it.
  pub before_Nearest :
      (i b : ℕ)
      → NoneFrom s (start_word s) (start_offset s)
      → ((l : ℕ)
          → start_word s + 1 ≤ l
          → l < start_word s + 1 + (length s.words - (start_word s + 1))
          → NoneFrom s l 0)
      → FirstWord s 0 (start_word s) i b
      → Nearest s i b
  unfolding contains
  before_Nearest i b none_here none_after f = record {
    inside = omega (arith, f.below, start_lem s v h);
    in_word = f.first.in_word;
    is_set = f.first.is_set;
    visible = λ hid. omega (arith, f.below, f.first.in_word, hid);
    nearest = λ j t. elim (Bool-cases (leb (start_word s + 1) (j / 64))) [
      | inl above ↦ absurd (
          ground (
            arith,
            member_in_range s j t,
            none_after (j / 64) (ground arith) (ground (arith, member_in_range s j t)) (j % 64)
                (omega arith),
          ))
      | inr not_above ↦ elim (Bool-cases (nat_beq (j / 64) (start_word s))) [
        | inl same ↦
            let e : j / 64 ≡ start_word s = ground arith in
            let t' : bit_at s.words (start_word s) (j % 64) ≡ true = rw e at t in
            inl (e, ground (arith, none_here (j % 64)))
        | inr below ↦ inr (
            ground (
              arith,
              start_lem s v h,
              f.below,
              f.first.in_word,
              FirstWord-le f (j / 64) (j % 64) (omega arith) (omega arith) t,
            ))
      ]
    ];
  }

  pub all-IsHidden :
      NoneFrom s (start_word s) (start_offset s)
      → ((l : ℕ)
          → start_word s + 1 ≤ l
          → l < start_word s + 1 + (length s.words - (start_word s + 1))
          → NoneFrom s l 0)
      → ((l : ℕ) → 0 ≤ l → l < 0 + start_word s → NoneFrom s l 0)
      → (j : ℕ) → contains s j ≡ true
      → IsHidden s j
  unfolding contains
  all-IsHidden none_here none_after none_before j t =
      elim (Bool-cases (nat_beq (j / 64) (start_word s))) [
        | inl same ↦
            let e : j / 64 ≡ start_word s = ground arith in
            let t' : bit_at s.words (start_word s) (j % 64) ≡ true = rw e at t in
            (e, ground (arith, none_here (j % 64)))
        | inr other ↦ elim (Bool-cases (ltb (j / 64) (start_word s))) [
          | inl below ↦
              absurd (ground (arith, none_before (j / 64) (omega arith) (ground arith) (j % 64)))
          | inr above ↦ absurd (
              ground (
                arith,
                none_after (j / 64) (ground arith) (ground (arith, member_in_range s j t)) (j % 64),
              ))
        ]
      ]
