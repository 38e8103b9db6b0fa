-- ===== src/Metrics/Histogram.antt =====
-- The histogram of `recordProcessingUs` against the list of the observations.
use lob.Prelude.{ℕ, ◌+◌, ◌≤◌, ◌≡◌, refl, ap, ◌∙◌, arith, List, [], ◌∷◌, if◌then◌else◌, length}
use lob.Prelude.Int.{ℤ, pos, ◌+ℤ◌, leb_ℤ, ◌≤ℤ◌}
use lob.Metrics.{Metrics, bucket_bounds, new_metrics, count_in_buckets, record_processing_us}

-- How many observations are at most the bound.
unfoldable pub count_up_to : ℤ → List ℤ → ℕ
count_up_to bound [] = 0
count_up_to bound (x ∷ xs) =
    if leb_ℤ x bound then count_up_to bound xs + 1 else count_up_to bound xs

-- The cumulative histogram of a list of observations.
unfoldable pub histogram : List ℤ → List ℤ → List ℕ
unfolding count_up_to
histogram xs [] = length xs ∷ []
histogram xs (bound ∷ bounds) = count_up_to bound xs ∷ histogram xs bounds

unfoldable pub total : List ℤ → ℤ
total [] = pos 0
total (x ∷ xs) = total xs +ℤ x

-- The observations in the order of their arrival, the last one first.
unfoldable pub record_all : List ℤ → Metrics
unfolding record_processing_us
record_all [] = new_metrics
record_all (x ∷ xs) = record_processing_us (record_all xs) x

count-histogram :
    (x : ℤ) (xs bounds : List ℤ)
    → count_in_buckets x bounds (histogram xs bounds) ≡ histogram (x ∷ xs) bounds
unfolding count_in_buckets histogram
count-histogram x xs [] = ground arith
count-histogram x xs (bound ∷ bounds) = rw (count-histogram x xs bounds) refl

-- After any observations, the buckets are their cumulative histogram and the sum is their sum.
pub record_all-histogram :
    (xs : List ℤ)
    → ((record_all xs).processing_buckets ≡ histogram xs bucket_bounds)
      × ((record_all xs).processing_us_sum ≡ total xs)
unfolding record_all histogram total
record_all-histogram [] = (refl, refl)
record_all-histogram (x ∷ xs) =
    let (buckets, sum) = record_all-histogram xs in
    (
      ap (count_in_buckets x bucket_bounds) buckets ∙ count-histogram x xs bucket_bounds,
      ap (λ s. s +ℤ x) sum,
    )

-- A larger bound counts at least as many observations, and none counts more than there are.
pub count_up_to_mono :
    (a b : ℤ) (xs : List ℤ)
    → a ≤ℤ b
    → (count_up_to a xs ≤ count_up_to b xs) × (count_up_to b xs ≤ length xs)
unfolding count_up_to
count_up_to_mono a b [] h = omega arith
count_up_to_mono a b (x ∷ xs) h = ground (arith, count_up_to_mono a b xs)
