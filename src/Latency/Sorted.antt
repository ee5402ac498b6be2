-- ===== src/Latency/Sorted.antt =====
-- The sort of the samples, and the percentiles of a snapshot.
use hft_lead_lag.Prelude.{
  ℕ, zero, suc, ◌+◌, ◌-◌, ◌*◌, ◌/◌, ◌≤◌, ◌<◌, ◌≡◌, refl, inl, inr, List, [], ◌∷◌, arith, leb,
  length, get_or, if◌then◌else◌, Bool-cases, All, nat_beq, subst,
}
use hft_lead_lag.Latency.{
  LatencyStatsSnapshot, place, sort, snapshot_of, latency_snapshot_and_reset,
}

abbrev pub IsSorted : List ℕ → Type 0
IsSorted [] = Unit {0}
IsSorted (x ∷ xs) = All (λ y. x ≤ y) xs × IsSorted xs

-- How often a value is among the samples.
abbrev pub count : ℕ → List ℕ → ℕ
count a [] = 0
count a (x ∷ xs) = (if nat_beq x a then 1 else 0) + count a xs

count-place : (a x : ℕ) (xs : List ℕ) → count a (place x xs) ≡ count a (x ∷ xs)
unfolding place
count-place a x [] = refl
count-place a x (y ∷ ys) = ground (arith, count-place a x ys)

pub count-sort : (a : ℕ) (xs : List ℕ) → count a (sort xs) ≡ count a xs
unfolding sort
count-sort a [] = refl
count-sort a (x ∷ xs) = omega (arith, count-place a x (sort xs), count-sort a xs)

All-place :
    (lo x : ℕ) (xs : List ℕ) → lo ≤ x → All (λ y. lo ≤ y) xs → All (λ y. lo ≤ y) (place x xs)
unfolding place
All-place lo x [] h a = (h, a)
All-place lo x (y ∷ ys) h a = elim (Bool-cases (leb x y)) [
  | inl here ↦ rw here (h, a)
  | inr later ↦ rw later (a.0, All-place lo x ys h a.1)
]

All-mono : (lo hi : ℕ) (xs : List ℕ) → lo ≤ hi → All (λ y. hi ≤ y) xs → All (λ y. lo ≤ y) xs
All-mono lo hi [] h a = tt
All-mono lo hi (x ∷ xs) h a = (omega (arith, a.0), All-mono lo hi xs h a.1)

place-IsSorted : (x : ℕ) (xs : List ℕ) → IsSorted xs → IsSorted (place x xs)
unfolding place
place-IsSorted x [] s = (tt, tt)
place-IsSorted x (y ∷ ys) s = elim (Bool-cases (leb x y)) [
  | inl here ↦ rw here ((ground arith, All-mono x y ys (ground arith) s.0), s)
  | inr later ↦ rw later (All-place y x ys (ground arith) s.0, place-IsSorted x ys s.1)
]

pub sort-IsSorted : (xs : List ℕ) → IsSorted (sort xs)
unfolding sort
sort-IsSorted [] = tt
sort-IsSorted (x ∷ xs) = place-IsSorted x (sort xs) (sort-IsSorted xs)

length-place : (x : ℕ) (xs : List ℕ) → length (place x xs) ≡ suc (length xs)
unfolding place
length-place x [] = refl
length-place x (y ∷ ys) = ground (arith, length-place x ys)

pub length-sort : (xs : List ℕ) → length (sort xs) ≡ length xs
unfolding sort
length-sort [] = refl
length-sort (x ∷ xs) = omega (arith, length-place x (sort xs), length-sort xs)

All-get : (lo : ℕ) (xs : List ℕ) (i : ℕ) → All (λ y. lo ≤ y) xs → i < length xs → lo ≤ get_or xs i 0
All-get lo [] i a h = absurd (omega arith)
All-get lo (x ∷ xs) zero a h = a.0
All-get lo (x ∷ xs) (suc i) a h = All-get lo xs i a.1 (omega arith)

-- In a sorted list a later index has a larger value.
get_or_mono :
    (xs : List ℕ) (i j : ℕ) → IsSorted xs → i ≤ j → j < length xs → get_or xs i 0 ≤ get_or xs j 0
get_or_mono [] i j s h k = absurd (omega arith)
get_or_mono (x ∷ xs) zero zero s h k = omega arith
get_or_mono (x ∷ xs) zero (suc j) s h k = All-get x xs j s.0 (omega arith)
get_or_mono (x ∷ xs) (suc i) zero s h k = absurd (omega arith)
get_or_mono (x ∷ xs) (suc i) (suc j) s h k = get_or_mono xs i j s.1 (omega arith) (omega arith)

-- Every index that a snapshot of `n` samples reads is in range.
pub index_lt :
    (n : ℕ)
    → 0 < n
    → (n / 2 ≤ n * 95 / 100) × (n * 95 / 100 ≤ n * 99 / 100) × (n * 99 / 100 ≤ n - 1) × (n - 1 < n)
index_lt n h = (omega arith, omega arith, omega arith, omega arith)

member_of_get : (xs : List ℕ) (i : ℕ) → i < length xs → 0 < count (get_or xs i 0) xs
member_of_get [] i h = absurd (omega arith)
member_of_get (x ∷ xs) zero h = ground arith
member_of_get (x ∷ xs) (suc i) h = omega (arith, member_of_get xs i (omega arith))

bounded_by_last :
    (x : ℕ) (xs : List ℕ) (a : ℕ)
    → IsSorted (x ∷ xs)
    → 0 < count a (x ∷ xs)
    → a ≤ get_or (x ∷ xs) (length xs) 0
bounded_by_last x [] a s h = ground arith
bounded_by_last x (y ∷ ys) a s h = elim (Bool-cases (nat_beq x a)) [
  | inl e ↦
      let below : x ≤ get_or (y ∷ ys) (length ys) 0 =
        All-get x (y ∷ ys) (length ys) s.0 (omega arith) in
      ground (arith, below)
  | inr e ↦ bounded_by_last y ys a s.1 (ground arith)
]

bounded_by_max :
    (xs : List ℕ) (a : ℕ) → IsSorted xs → 0 < count a xs → a ≤ get_or xs (length xs - 1) 0
bounded_by_max [] a s h = absurd (omega arith)
bounded_by_max (x ∷ xs) a s h =
    let last : length (x ∷ xs) - 1 ≡ length xs = omega arith in rw last (bounded_by_last x xs a s h)

-- What a snapshot of samples that are not empty says of them.
pub record Describes (xs : List ℕ) (r : LatencyStatsSnapshot × List ℕ) : Type 0 where
  pub cleared : r.1 ≡ []
  pub counted : r.0.samples ≡ length xs
  pub median : 0 < count r.0.p50_us xs
  pub ninety_five : 0 < count r.0.p95_us xs
  pub ninety_nine : 0 < count r.0.p99_us xs
  pub largest : 0 < count r.0.max_us xs
  pub in_order : (r.0.p50_us ≤ r.0.p95_us) × (r.0.p95_us ≤ r.0.p99_us) × (r.0.p99_us ≤ r.0.max_us)
  pub bounded : (a : ℕ) → 0 < count a xs → a ≤ r.0.max_us

sampled : (xs : List ℕ) (i : ℕ) → i < length xs → 0 < count (get_or (sort xs) i 0) xs
sampled xs i h = omega (
  arith,
  count-sort (get_or (sort xs) i 0) xs,
  member_of_get (sort xs) i (omega (arith, length-sort xs)),
)

ordered :
    (xs : List ℕ) (i j : ℕ) → i ≤ j → j < length xs → get_or (sort xs) i 0 ≤ get_or (sort xs) j 0
ordered xs i j h k = get_or_mono (sort xs) i j (sort-IsSorted xs) h (omega (arith, length-sort xs))

bounded_by_largest : (xs : List ℕ) (a : ℕ) → 0 < count a xs → a ≤ get_or (sort xs) (length xs - 1) 0
bounded_by_largest xs a h =
    let p = bounded_by_max (sort xs) a (sort-IsSorted xs) (omega (arith, count-sort a xs)) in
    subst (λ n. a ≤ get_or (sort xs) (n - 1) 0) (length-sort xs) p

-- The snapshot of samples that are not empty counts them, its percentiles and its maximum are
-- samples and stand in order, no sample is above the maximum, and the samples are cleared.
pub snapshot-Describes :
    (x : ℕ) (xs : List ℕ) → Describes (x ∷ xs) (latency_snapshot_and_reset (x ∷ xs))
unfolding latency_snapshot_and_reset snapshot_of
snapshot-Describes x xs =
    let n = length (x ∷ xs) in
    let i = index_lt n (omega arith) in
    let same = length-sort (x ∷ xs) in
    rw same (record {
      cleared = refl;
      counted = refl;
      median = sampled (x ∷ xs) (n / 2) (omega (arith, i));
      ninety_five = sampled (x ∷ xs) (n * 95 / 100) (omega (arith, i));
      ninety_nine = sampled (x ∷ xs) (n * 99 / 100) (omega (arith, i));
      largest = sampled (x ∷ xs) (n - 1) (omega arith);
      in_order = (
        ordered (x ∷ xs) (n / 2) (n * 95 / 100) i.0 (omega (arith, i)),
        ordered (x ∷ xs) (n * 95 / 100) (n * 99 / 100) i.1 (omega (arith, i)),
        ordered (x ∷ xs) (n * 99 / 100) (n - 1) i.2 (omega arith),
      );
      bounded = bounded_by_largest (x ∷ xs);
    })
