-- ===== src/Search/Pruner/Tests.antt =====
-- A frontier of four states, two of which have the same score.
use sts2_training.Base.{◌≡◌, refl, ℕ, List, [], ◌∷◌, length, map, ◌≤◌}
use sts2_training.Base.Outcome.{ok}
use sts2_training.Json.{arr, of_list}
use sts2_training.Search.Pruner.{select, validated_pruner_indices}
use sts2_training.Search.Pruner.Whole.{whole}
use sts2_training.Search.Pruner.Ranking.{IsBest, select-IsBest}
use sts2_training.Search.Pruner.Indices.{AreIndices, IsAnswer, index_values, validated-AreIndices}
use sts2_training.Search.Pruner.Baseline.{validated-select}

abbrev frontier : List ℕ
frontier = 5 ∷ 9 ∷ 5 ∷ 2 ∷ []

abbrev kept : List ℕ
kept = 1 ∷ 0 ∷ 2 ∷ []

three_best : select whole frontier 3 ≡ ok kept
unfolding select
three_best = refl

select-IsBest_example :
    (es : List (ℕ × ℕ)) × (dropped : List (ℕ × ℕ)) × (map (λ e. e.0) es ≡ kept)
    × IsBest whole frontier 3 es dropped
select-IsBest_example = select-IsBest whole frontier 3 kept three_best

validated-select_example :
    validated_pruner_indices (arr (of_list (index_values kept))) (length frontier) 3 ≡ ok kept
validated-select_example = validated-select whole frontier 3 kept three_best

is_valid : validated_pruner_indices (arr (of_list (index_values kept))) 4 3 ≡ ok kept
unfolding validated_pruner_indices
is_valid = refl

validated-AreIndices_example :
    (length kept ≤ 3) × AreIndices 4 kept × IsAnswer (arr (of_list (index_values kept))) kept
validated-AreIndices_example =
    validated-AreIndices (arr (of_list (index_values kept))) 4 3 kept is_valid
