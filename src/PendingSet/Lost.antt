-- ===== src/PendingSet/Lost.antt =====
-- Members that `pop_first` loses: it reports an empty set and resets `len` while their bits stay.
use hft_lead_lag.Prelude.{ℕ, ◌/◌, ◌≡◌, true, false, none, arith}
use hft_lead_lag.PendingSet.{PendingSymbolSet, contains, pop_first, is_empty, insert}
use hft_lead_lag.PendingSet.Members.{get_or-resize}
use hft_lead_lag.PendingSet.Nearest.{IsHidden}
use hft_lead_lag.PendingSet.Valid.{IsValid}
use hft_lead_lag.PendingSet.Order.{pop_first-none_iff, is_empty_of_member}

-- `pop_first` that returns nothing leaves the words as they are, and sets `len` to 0.
pop_first-none_keeps :
    (s : PendingSymbolSet)
    → (pop_first s).0 ≡ none
    → ((pop_first s).1.len ≡ 0) × ((pop_first s).1.words ≡ s.words)
unfolding pop_first
pop_first-none_keeps s e = ground arith

-- A member that is inserted again is not counted again.
len-insert_of_member :
    (s : PendingSymbolSet) (k : ℕ) → contains s k ≡ true → (insert s k).len ≡ s.len
unfolding insert contains
len-insert_of_member s k m = ground (arith, get_or-resize s.words (k / 64) (k / 64))

-- In a valid set with a member, where every member lies in the cursor's word below the cursor,
-- pop_first returns nothing and calls the set empty; the bits of the members stay set, and
-- inserting one of them again leaves the set empty by its own account.
pub pop_first_loses :
    (s : PendingSymbolSet) (k : ℕ)
    → IsValid s
    → contains s k ≡ true
    → ((j : ℕ) → contains s j ≡ true → IsHidden s j)
    → let (r, t) = pop_first s in
      (is_empty s ≡ false)
      × (r ≡ none)
      × (is_empty t ≡ true)
      × ((j : ℕ) → contains t j ≡ contains s j)
      × (is_empty (insert t k) ≡ true)
unfolding is_empty contains
pop_first_loses s k v m hidden = (
  is_empty_of_member s k v m,
  nothing,
  ground (arith, kept),
  (λ j. rw (kept.1)),
  ground (arith, kept, len-insert_of_member (pop_first s).1 k still),
)
  where
    nothing : (pop_first s).0 ≡ none
    nothing = (pop_first-none_iff s v).1 hidden

    kept : ((pop_first s).1.len ≡ 0) × ((pop_first s).1.words ≡ s.words)
    kept = pop_first-none_keeps s nothing

    still : contains (pop_first s).1 k ≡ true
    still = rw (kept.1) m
