-- ===== src/Cutting/Constructors/Greedy.antt =====
-- `greedy_fill`: what its fill holds.
use opticutter_api.Prelude.{
  ℕ, ◌≡◌, refl, true, Option, none, some, List, [], ◌∷◌, ◌++◌, sort_by, sort_by-perm, Permᴰ,
}
use opticutter_api.Cutting.Models.{Piece, PlacedPiece, BinSpec, to_material, CuttingParameters}
use opticutter_api.Cutting.Geometry.{Box}
use opticutter_api.Cutting.Packer.Expand.{expand_pieces}
use opticutter_api.Cutting.Packer.ExpandLaws.{expand_pieces-perm}
use opticutter_api.Cutting.Packer.Split.{State}
use opticutter_api.Cutting.Packer.Place.{InitResult, ready, value_error, init, optimize}
use opticutter_api.Cutting.Packer.Optimize.{usable_box}
use opticutter_api.Cutting.Constructors.Order.{GreedyConfig, key_lt, sort_keys}
use opticutter_api.Cutting.Constructors.Fill.{BinFill, filled, greedy_fill}
use opticutter_api.Cutting.Constructors.Parted.{IsParted}
use opticutter_api.Cutting.Constructors.Packs.{MayBe, IsPack, optimize-IsPack}
use opticutter_api.Cutting.Constructors.Pieces.{pieces}
use opticutter_api.Cutting.Constructors.Distances.{contents}

-- The fill keeps its distances, and its pieces and some rest are the physical pieces of `ps`.
abbrev pub IsGreedy : ℕ → Box → List Piece → BinFill → Type 0
IsGreedy kerf usable ps f =
    IsParted kerf usable (contents f)
    × (rest : List Piece) × Permᴰ (pieces f.placed ++ rest) (expand_pieces ps)

filled-IsGreedy :
    (spec : BinSpec) (kerf : ℕ) (usable : Box) (ps : List Piece) (placed : List PlacedPiece)
    (un : List Piece) (s : State)
    → IsPack kerf usable ps placed s
    → (o : Option BinFill) × (filled spec (some (placed, un, s)) ≡ some o)
      × MayBe (IsGreedy kerf usable ps) o
unfolding filled
filled-IsGreedy spec kerf usable ps [] un s h = (none, refl, tt)
filled-IsGreedy spec kerf usable ps (pp ∷ pps) un s h =
    (_, refl, (rw h.shown h.parted, h.unplaced, h.pieces))

-- `greedy_fill` always returns. The fill, if it returns one, has its pieces in their own dimensions,
-- turned only where they may be; they and the free rectangles lie within the trims, a kerf apart
-- from one another, and no blade pass enters any of them. Its pieces and some rest are the pool's
-- physical pieces, each as often.
pub greedy_fill-IsGreedy :
    (pool : List Piece) (spec : BinSpec) (params : CuttingParameters) (config : GreedyConfig)
    (min_rect_size : ℕ)
    → (o : Option BinFill) × (greedy_fill pool spec params config min_rect_size ≡ some o)
      × MayBe (IsGreedy params.kerf (usable_box (to_material spec) params) pool) o
unfolding greedy_fill
greedy_fill-IsGreedy pool spec params config mrs =
    go (init (to_material spec) params config.split mrs config.selection) refl
  where
    unsorted :
        (o : Option BinFill)
        → MayBe
            (IsGreedy params.kerf
              (usable_box (to_material spec) params)
              (sort_by (key_lt (sort_keys config.sort)) pool))
            o
        → MayBe (IsGreedy params.kerf (usable_box (to_material spec) params) pool) o
    unsorted none k = tt
    unsorted (some f) (parted, rest, shared) = (
      parted,
      rest,
      Permᴰ.trans shared (expand_pieces-perm (sort_by-perm (key_lt (sort_keys config.sort)) pool)),
    )

    go :
        (r : InitResult)
        → init (to_material spec) params config.split mrs config.selection ≡ r
        → (o : Option BinFill) × (elim r [
          | value_error _ ↦ some none
          | ready c s ↦
              filled spec (optimize c (sort_by (key_lt (sort_keys config.sort)) pool) true s)
        ]
            ≡ some o)
          × MayBe (IsGreedy params.kerf (usable_box (to_material spec) params) pool) o
    go (value_error _) e = (none, refl, tt)
    go (ready c s) e =
        let (placed, un, s', done, h) =
          optimize-IsPack (to_material spec) params config.split mrs config.selection c s e
            (sort_by (key_lt (sort_keys config.sort)) pool) in
        let (o, e', k) = filled-IsGreedy spec params.kerf _ _ placed un s' h in
        (o, rw done e', unsorted o k)
