-- ===== src/PendingSet/Valid.antt =====
-- The invariant of a `PendingSymbolSet`: `len` counts the bits, and every symbol is a `u16`.
use hft_lead_lag.Prelude.{
  ℕ, zero, suc, ◌+◌, ◌-◌, ◌*◌, ◌/◌, ◌%◌, ◌^◌, ◌≤◌, ◌<◌, ◌≡◌, refl, true, false, List, [], ◌∷◌, ◌++◌,
  nat_beq, if◌then◌else◌, get_or, set, length, replicate, arith, inl, inr, Bool-cases, leb,
  length-append, length-replicate, length-set,
}
use hft_lead_lag.Word.{set_bit, clear_bit, count_bits}
use hft_lead_lag.Word.Bits.{set_bit-lt, clear_bit-le, test_bit-clear_bit}
use hft_lead_lag.Word.Count.{
  count_bits-set_bit, count_bits-clear_bit, count_bits-le, count_bits-pos, count_bits-zero,
}
use hft_lead_lag.PendingSet.{
  PendingSymbolSet, new, word_at, resize, insert, take_bit, contains, bit_at, total_bits,
}
use hft_lead_lag.PendingSet.Members.{word_in_range, bit_at-set, beq_split}
use hft_lead_lag.PendingSet.Scan.{AreWords, get_or-lt}

unfoldable pub count_words : List ℕ → ℕ
count_words [] = 0
count_words (w ∷ ws) = count_bits 64 w + count_words ws

pub record IsValid (s : PendingSymbolSet) : Type 0 where
  pub fit : AreWords s.words
  pub room : length s.words ≤ 1024
  pub counted : s.len ≡ count_words s.words

count_words-le : (ws : List ℕ) → count_words ws ≤ length ws * 64
unfolding count_words
count_words-le [] = omega arith
count_words-le (w ∷ ws) = omega (arith, count_bits-le 64 w, count_words-le ws)

count_words-set :
    (ws : List ℕ) (i v : ℕ)
    → i < length ws
    → count_words (set ws i v) + count_bits 64 (get_or ws i 0) ≡ count_words ws + count_bits 64 v
unfolding count_words
count_words-set [] i v h = absurd (omega arith)
count_words-set (w ∷ ws) zero v h = omega arith
count_words-set (w ∷ ws) (suc i) v h = omega (arith, count_words-set ws i v (omega arith))

count_words-pos : (ws : List ℕ) (i b : ℕ) → b < 64 → bit_at ws i b ≡ true → 0 < count_words ws
unfolding count_words
count_words-pos [] i b h t = absurd (omega (arith, count_bits-pos 64 0 b h t, count_bits-zero 64))
count_words-pos (w ∷ ws) zero b h t = omega (arith, count_bits-pos 64 w b h t)
count_words-pos (w ∷ ws) (suc i) b h t = omega (arith, count_words-pos ws i b h t)

AreWords-set : (ws : List ℕ) (i v : ℕ) → AreWords ws → v < 2 ^ 64 → AreWords (set ws i v)
AreWords-set [] i v h k = h
AreWords-set (w ∷ ws) zero v h k = (k, h.1)
AreWords-set (w ∷ ws) (suc i) v h k = (h.0, AreWords-set ws i v h.1 k)

AreWords-pad : (ws : List ℕ) (n : ℕ) → AreWords ws → AreWords (ws ++ replicate n 0)
AreWords-pad [] zero h = tt
AreWords-pad [] (suc n) h = (omega arith, AreWords-pad [] n tt)
AreWords-pad (w ∷ ws) n h = (h.0, AreWords-pad ws n h.1)

count_words-pad : (ws : List ℕ) (n : ℕ) → count_words (ws ++ replicate n 0) ≡ count_words ws
unfolding count_words
count_words-pad [] zero = refl
count_words-pad [] (suc n) = omega (arith, count_bits-zero 64, count_words-pad [] n)
count_words-pad (w ∷ ws) n = omega (arith, count_words-pad ws n)

-- What growing keeps.
record Grown (words grown : List ℕ) : Type 0 where
  fit : AreWords grown
  room : length grown ≤ 1024
  same : count_words grown ≡ count_words words

resize-Grown :
    (ws : List ℕ) (i : ℕ) → AreWords ws → length ws ≤ 1024 → i < 1024 → Grown ws (resize ws i)
resize-Grown ws i h r k = elim (Bool-cases (leb (length ws) i)) [
  | inl grow ↦ rw grow (record {
    fit = AreWords-pad ws (i + 1 - length ws) h;
    room = ground (
      arith,
      length-append ws (replicate (i + 1 - length ws) 0),
      length-replicate {A = ℕ} (i + 1 - length ws) 0,
    );
    same = count_words-pad ws (i + 1 - length ws);
  })
  | inr keep ↦ rw keep (record { fit = h; room = r; same = refl })
]

pub new-IsValid : IsValid new
unfolding new count_words
new-IsValid = record { fit = tt; room = omega arith; counted = refl }

module _ (ws : List ℕ) (i b : ℕ) (h : AreWords ws) (hi : i < length ws) (hb : b < 64) where
  set_word-fit : AreWords (set ws i (set_bit (get_or ws i 0) b))
  set_word-fit = AreWords-set ws i _ h (set_bit-lt 64 (get_or ws i 0) b (get_or-lt ws i h) hb)

  set_word-count :
      bit_at ws i b ≡ false
      → count_words (set ws i (set_bit (get_or ws i 0) b)) ≡ count_words ws + 1
  set_word-count t = omega (
    arith,
    count_words-set ws i (set_bit (get_or ws i 0) b) hi,
    count_bits-set_bit 64 (get_or ws i 0) b hb t,
  )

  clear_word-fit : AreWords (set ws i (clear_bit (get_or ws i 0) b))
  clear_word-fit =
      AreWords-set ws i _ h (omega (arith, get_or-lt ws i h, clear_bit-le (get_or ws i 0) b))

  clear_word-count :
      bit_at ws i b ≡ true
      → count_words (set ws i (clear_bit (get_or ws i 0) b)) + 1 ≡ count_words ws
  clear_word-count t = omega (
    arith,
    count_words-set ws i (clear_bit (get_or ws i 0) b) hi,
    count_bits-clear_bit 64 (get_or ws i 0) b hb t,
  )

-- insert of a u16 keeps a set valid: words of 64 bits, at most 1024 of them, and len the number of
-- bits.
pub insert-IsValid : (s : PendingSymbolSet) (k : ℕ) → k < 2 ^ 16 → IsValid s → IsValid (insert s k)
unfolding insert
insert-IsValid s k hk v = elim (Bool-cases (bit_at grown (k / 64) (k % 64))) [
  | inl old ↦
      rw old (record { fit = g.fit; room = g.room; counted = omega (arith, g.same, v.counted) })
  | inr fresh ↦ rw fresh (record {
    fit = set_word-fit grown (k / 64) (k % 64) g.fit in_range (omega arith);
    room = omega (arith, length-set grown (k / 64) word, g.room);
    counted = ground (
      arith,
      g.same,
      v.counted,
      v.room,
      count_words-le s.words,
      set_word-count grown (k / 64) (k % 64) g.fit in_range (omega arith) fresh,
    );
  })
]
  where
    grown : List ℕ
    grown = resize s.words (k / 64)

    word : ℕ
    word = set_bit (get_or grown (k / 64) 0) (k % 64)

    g : Grown s.words grown
    g = resize-Grown s.words (k / 64) v.fit v.room (omega arith)

    in_range : k / 64 < length grown
    in_range = word_in_range s.words (k / 64)

-- What taking a bit that is set leaves behind.
pub record Taken (s : PendingSymbolSet) (k : ℕ) (r : ℕ × PendingSymbolSet) : Type 0 where
  pub symbol : r.0 ≡ k
  pub bound : k < 2 ^ 16
  pub member : contains s k ≡ true
  pub others : (j : ℕ) → contains r.1 j ≡ (if nat_beq j k then false else contains s j)
  pub fewer : r.1.len + 1 ≡ s.len
  pub cursor : r.1.next_cursor_symbol ≡ (if leb (total_bits s) (k + 1) then 0 else k + 1)
  pub valid : IsValid r.1
  pub same_size : length r.1.words ≡ length s.words

pub take_bit-Taken :
    (s : PendingSymbolSet) (i b : ℕ)
    → IsValid s
    → b < 64
    → bit_at s.words i b ≡ true
    → i < length s.words
    → Taken s (i * 64 + b) (take_bit s i b (total_bits s))
unfolding contains
take_bit-Taken s i b v hb t hi = record {
  symbol = omega (arith, v.room);
  bound = omega (arith, v.room);
  member = rw (word_of, bit_of) t;
  others = λ j. ground (
    arith,
    word_of,
    bit_of,
    beq_split j (i * 64 + b),
    bit_at-set s.words i (clear_bit (word_at s i) b) (j / 64) (j % 64) hi,
    test_bit-clear_bit (word_at s i) b (j % 64),
  );
  fewer = omega (arith, v.counted, count_words-pos s.words i b hb t);
  cursor = refl;
  valid = record {
    fit = clear_word-fit s.words i b v.fit hi hb;
    room = omega (arith, v.room, length-set s.words i (clear_bit (word_at s i) b));
    counted = omega (arith, v.counted, clear_word-count s.words i b v.fit hi hb t);
  };
  same_size = length-set s.words i (clear_bit (word_at s i) b);
}
  where
    word_of : (i * 64 + b) / 64 ≡ i
    word_of = omega arith

    bit_of : (i * 64 + b) % 64 ≡ b
    bit_of = omega arith

-- A set with a member has `len` above 0, and a set with `len` above 0 has a word.
pub len-pos : (s : PendingSymbolSet) → IsValid s → 0 < s.len → 0 < length s.words
len-pos s v h = omega (arith, v.counted, count_words-le s.words)

pub len-pos_of_member : (s : PendingSymbolSet) (j : ℕ) → IsValid s → contains s j ≡ true → 0 < s.len
unfolding contains
len-pos_of_member s j v t =
    omega (arith, v.counted, count_words-pos s.words (j / 64) (j % 64) (omega arith) t)
