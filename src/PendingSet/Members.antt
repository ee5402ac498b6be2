-- ===== src/PendingSet/Members.antt =====
-- What `insert` does to the set that the words of a `PendingSymbolSet` stand for.
use hft_lead_lag.Prelude.{
  ℕ, zero, suc, ◌+◌, ◌-◌, ◌/◌, ◌%◌, ◌≤◌, ◌<◌, ◌≡◌, refl, false, ◌||◌, List, [], ◌∷◌, ◌++◌, nat_beq,
  if◌then◌else◌, get_or, set, length, replicate, arith, inl, inr, Bool-cases, length-append,
  length-replicate, get_or-set_self, get_or-set_ne, leb,
}
use hft_lead_lag.Word.{test_bit, set_bit}
use hft_lead_lag.Word.Bits.{test_bit-set_bit}
use hft_lead_lag.PendingSet.{PendingSymbolSet, resize, insert, contains, bit_at}

get_or-replicate : (n i : ℕ) → get_or {A = ℕ} (replicate n 0) i 0 ≡ 0
get_or-replicate zero i = refl
get_or-replicate (suc n) zero = refl
get_or-replicate (suc n) (suc i) = get_or-replicate n i

get_or-pad : (words : List ℕ) (n i : ℕ) → get_or (words ++ replicate n 0) i 0 ≡ get_or words i 0
get_or-pad [] n i = get_or-replicate n i
get_or-pad (w ∷ ws) n zero = refl
get_or-pad (w ∷ ws) n (suc i) = get_or-pad ws n i

-- Growing the vector adds no member, and makes room for the word that is written.
pub get_or-resize : (words : List ℕ) (i j : ℕ) → get_or (resize words i) j 0 ≡ get_or words j 0
get_or-resize words i j = elim (Bool-cases (leb (length words) i)) [
  | inl grow ↦ rw grow (get_or-pad words _ j)
  | inr keep ↦ rw keep
]

pub length-resize : (words : List ℕ) (i : ℕ) → length words ≤ length (resize words i)
length-resize words i = ground (arith, length-append words (replicate (i + 1 - length words) 0))

pub word_in_range : (words : List ℕ) (i : ℕ) → i < length (resize words i)
word_in_range words i = ground (
  arith,
  length-append words (replicate (i + 1 - length words) 0),
  length-replicate {A = ℕ} (i + 1 - length words) 0,
)

-- Writing one word changes the bits of that word alone.
pub bit_at-set :
    (words : List ℕ) (i v j b : ℕ)
    → i < length words
    → bit_at (set words i v) j b ≡ (if nat_beq j i then test_bit v b else bit_at words j b)
bit_at-set words i v j b h = elim (Bool-cases (nat_beq j i)) [
  | inl same ↦ ground (arith, get_or-set_self words i v 0)
  | inr other ↦ ground (arith, get_or-set_ne words i j v 0)
]

-- Two symbols are the same if they have the same word and the same bit.
pub beq_split :
    (j k : ℕ)
    → nat_beq j k ≡ (if nat_beq (j / 64) (k / 64) then nat_beq (j % 64) (k % 64) else false)
beq_split j k = ground arith

-- insert adds the symbol and no other.
pub contains-insert :
    (s : PendingSymbolSet) (k j : ℕ) → contains (insert s k) j ≡ nat_beq j k || contains s j
unfolding contains insert
contains-insert s k j = ground (
  arith,
  beq_split j k,
  get_or-resize s.words (k / 64) (j / 64),
  get_or-resize s.words (k / 64) (k / 64),
  word_in_range s.words (k / 64),
  bit_at-set (resize s.words (k / 64)) (k / 64)
      (set_bit (get_or (resize s.words (k / 64)) (k / 64) 0) (k % 64)) (j / 64) (j % 64),
  test_bit-set_bit (get_or (resize s.words (k / 64)) (k / 64) 0) (k % 64) (j % 64),
)

pub cursor-insert :
    (s : PendingSymbolSet) (k : ℕ) → (insert s k).next_cursor_symbol ≡ s.next_cursor_symbol
unfolding insert
cursor-insert s k = ground arith
