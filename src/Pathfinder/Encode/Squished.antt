-- ===== src/Pathfinder/Encode/Squished.antt =====
-- pathfinder/encode.go, EncodeSquished and EncodeSquishedWithQuoter: merged routes as one call.
use defi_toolbox_avalanche.Common.{ℕ, Option, some, List}
use defi_toolbox_avalanche.Uint256.{Uint256}
use defi_toolbox_avalanche.Formulas.MulDiv.{◌>>=◌}
use defi_toolbox_avalanche.Pathfinder.Route.{SquishRoute}
use defi_toolbox_avalanche.Pathfinder.Merge.Whole.{merge_routes, merge_routes_with_quoter}
use defi_toolbox_avalanche.Pathfinder.Merge.FirstHops.{Quoter}
use defi_toolbox_avalanche.Pathfinder.Encode.{encode_merged_steps}

module _ (u : Uint256) (encode_v4 : List ℕ → List ℕ) where
  unfoldable pub encode_squished : List SquishRoute → Option ℕ → Option (List ℕ)
  unfolding merge_routes encode_merged_steps
  encode_squished routes min_output =
      merge_routes u routes >>= (λ legs. some (encode_merged_steps encode_v4 legs min_output))

  unfoldable pub encode_squished_with_quoter :
      List SquishRoute → Option ℕ → Quoter → Option (List ℕ)
  unfolding merge_routes_with_quoter encode_merged_steps
  encode_squished_with_quoter routes min_output quoter =
      merge_routes_with_quoter u routes quoter
      >>= (λ legs. some (encode_merged_steps encode_v4 legs min_output))
