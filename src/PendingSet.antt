-- ===== src/PendingSet.antt =====
-- The set of symbols that wait for a signal check: `PendingSymbolSet` of
-- hft-lead-lag/src/event_loop_core.rs, a bit set over `u64` words with a rotating cursor.
-- A method that takes `&mut self` returns the new set. `usize` is 64 bits wide.
pub mod Members
pub mod Scan
pub mod Valid
pub mod Nearest
pub mod Order
pub mod Lost
pub mod Fairness
use hft_lead_lag.Prelude.{
  ℕ, zero, suc, ◌+◌, ◌-◌, ◌*◌, ◌/◌, ◌%◌, ◌^◌, min, Bool, true, List, [], ◌++◌, Option, none, some,
  ltb, leb, nat_beq, if◌then◌else◌, get_or, set, length, replicate, sat_inc, u64_max,
}
use hft_lead_lag.Word.{test_bit, set_bit, clear_bit, mask_from, trailing_zeros}

pub record PendingSymbolSet : Type 0 where
  pub words : List ℕ
  pub len : ℕ
  pub next_cursor_symbol : ℕ

unfoldable pub new : PendingSymbolSet
new = record { words = []; len = 0; next_cursor_symbol = 0 }

-- `self.words[i]`. The callers below index inside the vector (`Scan.start_word-lt`,
-- `Members.word_in_range`), so that the panic of an index out of range is not reached.
abbrev pub word_at : PendingSymbolSet → ℕ → ℕ
word_at s i = get_or s.words i 0

-- `if self.words.len() <= word_idx { self.words.resize(word_idx + 1, 0) }`
abbrev pub resize : List ℕ → ℕ → List ℕ
resize words i = if leb (length words) i then words ++ replicate (i + 1 - length words) 0 else words

-- `symbol_id` is a `u16`.
unfoldable pub insert : PendingSymbolSet → ℕ → PendingSymbolSet
insert s symbol_id =
    let i = symbol_id / 64 in
    let b = symbol_id % 64 in
    let grown = resize s.words i in
    let word = get_or grown i 0 in
    if test_bit word b
    then record s { words = grown }
    else record s { words = set grown i (set_bit word b); len = sat_inc u64_max s.len }

-- The tail of `pop_from_word`, for the bit that it found.
abbrev pub take_bit : PendingSymbolSet → ℕ → ℕ → ℕ → ℕ × PendingSymbolSet
take_bit s i b total_bits =
    let symbol_id = i * 64 + b in
    (
      symbol_id % 2 ^ 16,
      record {
        words = set s.words i (clear_bit (word_at s i) b);
        len = s.len - 1;
        next_cursor_symbol = if leb total_bits (symbol_id + 1) then 0 else symbol_id + 1;
      },
    )

-- The masks that are passed are `!0 << k`; `k` stands for the mask.
unfoldable pub pop_from_word : PendingSymbolSet → ℕ → ℕ → ℕ → Option (ℕ × PendingSymbolSet)
pop_from_word s i k total_bits =
    let word = mask_from (word_at s i) k in
    if nat_beq word 0 then none else some (take_bit s i (trailing_zeros word) total_bits)

-- `for word_idx in i..i + n`, which returns at the first word with a bit.
unfoldable pub pop_from_words : PendingSymbolSet → ℕ → ℕ → ℕ → Option (ℕ × PendingSymbolSet)
pop_from_words s i zero total_bits = none
pop_from_words s i (suc n) total_bits =
    let rest = pop_from_words s (i + 1) n total_bits in
    elim (pop_from_word s i 0 total_bits) [ some r ↦ some r | none ↦ rest ]

-- `total_bits`, `start_symbol`, `start_word` and `start_offset` of `pop_first`.
abbrev pub total_bits : PendingSymbolSet → ℕ
total_bits s = min (length s.words * 64) u64_max

abbrev pub start_symbol : PendingSymbolSet → ℕ
start_symbol s = s.next_cursor_symbol % total_bits s

abbrev pub start_word : PendingSymbolSet → ℕ
start_word s = start_symbol s / 64

abbrev pub start_offset : PendingSymbolSet → ℕ
start_offset s = start_symbol s % 64

-- The three searches of `pop_first`, in turn.
unfoldable pub search_words : PendingSymbolSet → Option (ℕ × PendingSymbolSet)
search_words s =
    let i = start_word s in
    let after = pop_from_words s (i + 1) (length s.words - (i + 1)) (total_bits s) in
    let before = pop_from_words s 0 i (total_bits s) in
    elim (pop_from_word s i (start_offset s) (total_bits s)) [
      | some r ↦ some r
      | none ↦ elim after [ some r ↦ some r | none ↦ before ]
    ]

abbrev pub found : PendingSymbolSet → Option (ℕ × PendingSymbolSet) → Option ℕ × PendingSymbolSet
found s (some (symbol_id, t)) = (some symbol_id, t)
found s none = (none, record s { next_cursor_symbol = 0; len = 0 })

unfoldable pub pop_first : PendingSymbolSet → Option ℕ × PendingSymbolSet
pop_first s =
    if nat_beq s.len 0
    then (none, record s { next_cursor_symbol = 0 })
    else if nat_beq (total_bits s) 0
    then (none, record s { next_cursor_symbol = 0; len = 0 })
    else found s (search_words s)

unfoldable pub is_empty : PendingSymbolSet → Bool
is_empty s = nat_beq s.len 0

-- Whether the bit of a symbol is set: the set that the words stand for.
abbrev pub bit_at : List ℕ → ℕ → ℕ → Bool
bit_at words i b = test_bit (get_or words i 0) b

unfoldable pub contains : PendingSymbolSet → ℕ → Bool
contains s j = bit_at s.words (j / 64) (j % 64)
