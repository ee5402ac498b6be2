-- ===== src/Examples/Pending.antt =====
-- Runs of `PendingSymbolSet` (hft-lead-lag/src/event_loop_core.rs), those of its own tests among
-- them, and its theorems at concrete sets.
use hft_lead_lag.Prelude.{
  ℕ, ◌≤◌, ◌≡◌, refl, true, false, none, ◌⊎◌, [], ◌∷◌, ◌||◌, nat_beq, arith, ◌↔◌,
}
use hft_lead_lag.Word.{test_bit, set_bit, clear_bit, mask_from, trailing_zeros, count_bits}
use hft_lead_lag.PendingSet.{
  PendingSymbolSet, new, insert, pop_first, contains, is_empty, search_words, pop_from_word,
  pop_from_words,
}
use hft_lead_lag.PendingSet.Members.{contains-insert}
use hft_lead_lag.PendingSet.Valid.{IsValid, Taken, count_words}
use hft_lead_lag.PendingSet.Nearest.{IsHidden, distance}
use hft_lead_lag.PendingSet.Order.{pop_first-some, pop_first-none_iff}
use hft_lead_lag.PendingSet.Lost.{pop_first_loses}
use hft_lead_lag.PendingSet.Fairness.{mark, take, handed_out, IsIn, handed_out-IsIn_time}

-- Symbols 9, 2 and 5 come out in the order 2, 5, 9.
id_order : handed_out new (mark 9 ∷ mark 2 ∷ mark 5 ∷ take ∷ take ∷ take ∷ []) ≡ 2 ∷ 5 ∷ 9 ∷ []
unfolding handed_out new insert pop_first search_words pop_from_word pop_from_words test_bit set_bit
    clear_bit mask_from trailing_zeros
id_order = refl

-- A low symbol that comes back does not overtake a high one in a later word.
fair_cursor :
    handed_out new (mark 1 ∷ mark 100 ∷ take ∷ mark 1 ∷ take ∷ take ∷ []) ≡ 1 ∷ 100 ∷ 1 ∷ []
unfolding handed_out new insert pop_first search_words pop_from_word pop_from_words test_bit set_bit
    clear_bit mask_from trailing_zeros
fair_cursor = refl

-- In one word it is lost: after 9, the symbol 2 is not handed out.
lost_in_one_word : handed_out new (mark 9 ∷ take ∷ mark 2 ∷ take ∷ take ∷ []) ≡ 9 ∷ []
unfolding handed_out new insert pop_first search_words pop_from_word pop_from_words test_bit set_bit
    clear_bit mask_from trailing_zeros
lost_in_one_word = refl

-- Two symbols wait, the cursor stands at 0.
abbrev waiting : PendingSymbolSet
waiting = record { words = 36 ∷ []; len = 2; next_cursor_symbol = 0 }

-- Symbol 2 waits, the cursor stands at 6.
abbrev behind : PendingSymbolSet
behind = record { words = 4 ∷ []; len = 1; next_cursor_symbol = 6 }

waiting-IsValid : IsValid waiting
unfolding count_words count_bits
waiting-IsValid = record { fit = omega arith; room = omega arith; counted = refl }

behind-IsValid : IsValid behind
unfolding count_words count_bits
behind-IsValid = record { fit = omega arith; room = omega arith; counted = refl }

contains-insert_example : contains (insert waiting 70) 70 ≡ (nat_beq 70 70 || contains waiting 70)
contains-insert_example = contains-insert waiting 70 70

abbrev after_two : PendingSymbolSet
after_two = record { words = 32 ∷ []; len = 1; next_cursor_symbol = 3 }

pop_first-some_example :
    Taken waiting 2 (2, after_two)
    × ((j : ℕ)
        → contains waiting j ≡ true
        → IsHidden waiting j ⊎ (distance waiting 2 ≤ distance waiting j))
unfolding pop_first search_words pop_from_word pop_from_words clear_bit mask_from trailing_zeros
pop_first-some_example = pop_first-some waiting after_two 2 waiting-IsValid refl

pop_first-none_iff_example :
    ((pop_first behind).0 ≡ none) ↔ ((j : ℕ) → contains behind j ≡ true → IsHidden behind j)
pop_first-none_iff_example = pop_first-none_iff behind behind-IsValid

behind-IsHidden : (j : ℕ) → contains behind j ≡ true → IsHidden behind j
unfolding pop_first search_words pop_from_word pop_from_words clear_bit mask_from trailing_zeros
behind-IsHidden = (pop_first-none_iff behind behind-IsValid).0 refl

pop_first_loses_example :
    let (r, t) = pop_first behind in
    (is_empty behind ≡ false)
    × (r ≡ none)
    × (is_empty t ≡ true)
    × ((j : ℕ) → contains t j ≡ contains behind j)
    × (is_empty (insert t 2) ≡ true)
unfolding contains test_bit
pop_first_loses_example = pop_first_loses behind 2 behind-IsValid refl behind-IsHidden

handed_out-IsIn_time_example :
    IsIn 5 (handed_out waiting (take ∷ mark 1 ∷ take ∷ mark 2 ∷ take ∷ take ∷ take ∷ take ∷ []))
unfolding contains test_bit
handed_out-IsIn_time_example =
    handed_out-IsIn_time waiting 5 (take ∷ mark 1 ∷ take ∷ mark 2 ∷ take ∷ take ∷ take ∷ take ∷ [])
      waiting-IsValid refl (omega arith) (omega arith) (omega arith)
