-- ===== src/CoPartition/Tests.antt =====
-- Two members and two topics of three partitions.
use Prim.Native.String.{String}
use fieldstream.Common.{ℕ, ◌≡◌, refl, inl, inr, true, List, [], ◌∷◌, arith, Any}
use fieldstream.Common.Keys.{Distinct, contains}
use fieldstream.CoPartition.{assign_partitions}
use fieldstream.CoPartition.Turns.{reads}
use fieldstream.CoPartition.Owner.{assign_partitions-owner, assign_partitions-together}

abbrev three : String → List ℕ
three topic = 2 ∷ 0 ∷ 1 ∷ []

abbrev topics : List String
topics = "frames" ∷ "cycles" ∷ []

assign_partitions-owner_example :
    reads "a" "frames" (assign_partitions three ("b" ∷ "a" ∷ []) topics) ≡ 0 ∷ 2 ∷ []
unfolding fieldstream.Common.Keys.sort fieldstream.Common.sort_by
assign_partitions-owner_example =
    assign_partitions-owner three ("b" ∷ "a" ∷ []) topics "a" "frames" (refl, (refl, tt))

assign_partitions-together_example :
    (m : String) × (contains m ("b" ∷ "a" ∷ []) ≡ true)
    × Any (λ q. q ≡ 1) (reads m "frames" (assign_partitions three ("b" ∷ "a" ∷ []) topics))
    × Any (λ q. q ≡ 1) (reads m "cycles" (assign_partitions three ("b" ∷ "a" ∷ []) topics))
assign_partitions-together_example =
    assign_partitions-together three ("b" ∷ "a" ∷ []) topics "frames" "cycles" 1 (omega arith)
      (refl, (refl, tt)) refl refl (inr (inr (inl refl))) (inr (inr (inl refl)))
