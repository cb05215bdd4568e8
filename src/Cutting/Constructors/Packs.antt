-- ===== src/Cutting/Constructors/Packs.antt =====
-- What the nested packs of `strip_fill` and the pack of `greedy_fill` give.
use opticutter_api.Prelude.{
  ℕ, ◌≤◌, ◌<◌, ◌≡◌, refl, sym, subst, Bool, true, Bool-cases, inl, inr, Option, none, some, List,
  [], ◌∷◌, ◌++◌, map, All, Permᴰ, max, leb, filter_by, sort_by, arith, if◌then◌else◌,
}
use opticutter_api.Cutting.Models.{
  Piece, PlacedPiece, Material, material_validates, CuttingParameters, SplitRule, Selection,
}
use opticutter_api.Cutting.Geometry.{Box, blade_box, Within, grown}
use opticutter_api.Cutting.Packer.Expand.{expand_pieces}
use opticutter_api.Cutting.Packer.Split.{Settings, State}
use opticutter_api.Cutting.Packer.Place.{InitResult, ready, value_error, init, optimize}
use opticutter_api.Cutting.Packer.Run.{Run-IsSound, Run-blades, Run-pieces}
use opticutter_api.Cutting.Packer.Optimize.{usable_box, optimize-Run, init_fresh, init-IsSound}
use opticutter_api.Cutting.Constructors.Order.{count_of, signature_of, same_signature, key_lt}
use opticutter_api.Cutting.Constructors.Parted.{IsParted, IsSound-IsParted}
use opticutter_api.Cutting.Constructors.Strip.{
  StripJob, mat_w, mat_h, strip_params, strip_material, open_strip, fits_strip, strip_key, Strip,
  strip_of, Repeats, capped, packed, pack_fitting, try_size, keep_better, beats, best_strip,
}

-- The contents of a freshly packed sheet, and where its pieces come from.
pub record IsPack (kerf : ℕ) (usable : Box) (ps : List Piece) (placed : List PlacedPiece)
    (s : State) : Type 0 where
  pub shown : placed ≡ s.placed_pieces
  pub parted : IsParted kerf usable s
  pub blades : All (λ cut. Within (grown kerf usable) (blade_box kerf cut)) s.cuts
  pub unplaced : List Piece
  pub pieces : Permᴰ (map (λ q. q.piece) placed ++ unplaced) (expand_pieces ps)

-- A pack of pieces already sorted always returns, and is such a pack.
pub optimize-IsPack :
    (m : Material) (params : CuttingParameters) (rule : SplitRule) (min_rect_size : ℕ)
    (sel : Selection) (c : Settings) (s : State)
    → init m params rule min_rect_size sel ≡ ready c s
    → (ps : List Piece)
    → (placed : List PlacedPiece) × (un : List Piece) × (s' : State) × (optimize c ps true s
        ≡ some (placed, un, s'))
      × IsPack params.kerf (usable_box m params) ps placed s'
optimize-IsPack m params rule mrs sel c s fresh ps =
    let (un, s', e, r) = optimize-Run m params rule mrs sel fresh ps true in
    let sound = init-IsSound m params rule mrs sel fresh in
    let (begin, _, _, kerf) = init_fresh m params rule mrs sel fresh in
    (
      s'.placed_pieces,
      un,
      s',
      e,
      record {
        shown = refl;
        parted = IsSound-IsParted c params.kerf _ s' kerf (Run-IsSound c _ r sound);
        blades = rw kerf at (Run-blades c (usable_box m params) r sound (rw begin tt));
        unplaced = un;
        pieces = rw begin at (Run-pieces c r);
      },
    )

abbrev pub strip_box : StripJob → ℕ → Box
strip_box j size = usable_box (strip_material j.spec (mat_w j size) (mat_h j size)) (strip_params j)

-- The strip is not empty, and its contents are a pack of the pieces that fit across it.
pub record IsStrip (j : StripJob) (remaining : List Piece) (size : ℕ) (strip : Strip) : Type 0 where
  pub sized : strip.size ≡ size
  pub positive : 0 < size
  pub pack :
      IsPack
        (max 0 j.params.kerf)
        (strip_box j size)
        (sort_by
          (key_lt (strip_key j size))
          (filter_by (fits_strip (mat_w j size) (mat_h j size)) remaining))
        strip.placed
        strip.packer

abbrev pub MayBe {ℓ} : {A : Type ℓ} → (A → Type 0) → Option A → Type 0
MayBe P none = Unit
MayBe P (some a) = P a

module _ (j : StripJob) (size : ℕ) where
  abbrev Begun : Option (Settings × State) → Type 0
  Begun none = Unit
  Begun (some (c, s)) =
      (0 < size)
      × (init (strip_material j.spec (mat_w j size) (mat_h j size)) (strip_params j)
            SplitRule.shorter_leftover_axis j.min_rect_size Selection.best_area_fit
          ≡ ready c s)

  open_strip-Begun : Begun (open_strip j size)
  unfolding open_strip
  open_strip-Begun =
      let m = strip_material j.spec (mat_w j size) (mat_h j size) in
      elim (Bool-cases (material_validates m)) [
        | inl e ↦ rw e (go (positive j.horizontal e) _ refl)
        | inr e ↦ rw e tt
      ]
    where
      positive :
          (h : Bool)
          → material_validates (strip_material j.spec (mat_w j size) (mat_h j size)) ≡ true
          → 0 < size
      positive h e = ground arith

      go :
          0 < size
          → (r : InitResult)
          → init
              (strip_material j.spec (mat_w j size) (mat_h j size))
              (strip_params j)
              SplitRule.shorter_leftover_axis
              j.min_rect_size
              Selection.best_area_fit
            ≡ r
          → Begun (elim r [ value_error _ ↦ none | ready c s ↦ some (c, s) ])
      go l (value_error _) e = tt
      go l (ready c s) e = (l, e)

-- A strip that fits into the room.
abbrev pub Chosen : StripJob → List Piece → ℕ → Strip → Type 0
Chosen j remaining room strip = IsStrip j remaining strip.size strip × (strip.size ≤ room)

module _ (j : StripJob) (remaining : List Piece) (repeats : Repeats) where
  module _ (size : ℕ) (l : 0 < size) where
    abbrev PackOf : List Piece → List PlacedPiece → State → Type 0
    PackOf ps placed s =
        IsPack (max 0 j.params.kerf) (strip_box j size) (sort_by (key_lt (strip_key j size)) ps)
          placed s

    capped-IsStrip :
        (placed : List PlacedPiece) (s : State)
        → PackOf (filter_by (fits_strip (mat_w j size) (mat_h j size)) remaining) placed s
        → MayBe (IsStrip j remaining size) (capped j repeats size placed s)
    unfolding capped strip_of
    capped-IsStrip placed s h = go j.max_repeat
      where
        go :
            (most : Option ℕ)
            → MayBe (IsStrip j remaining size) (elim most [
              | none ↦ some (strip_of j size placed s none)
              | some n ↦
                  if leb n (count_of same_signature (signature_of placed) repeats)
                  then none
                  else some (strip_of j size placed s (some (signature_of placed)))
            ])
        go none = record { sized = refl; positive = l; pack = h }
        go (some n) =
            elim (Bool-cases (leb n (count_of same_signature (signature_of placed) repeats))) [
              | inl e ↦ rw e tt
              | inr e ↦ rw e (record { sized = refl; positive = l; pack = h })
            ]

    packed-IsStrip :
        (placed : List PlacedPiece) (un : List Piece) (s : State)
        → PackOf (filter_by (fits_strip (mat_w j size) (mat_h j size)) remaining) placed s
        → (o : Option Strip) × (packed j repeats size (some (placed, un, s)) ≡ some o)
          × MayBe (IsStrip j remaining size) o
    unfolding packed
    packed-IsStrip [] un s h = (none, refl, tt)
    packed-IsStrip (pp ∷ pps) un s h = (_, refl, capped-IsStrip (pp ∷ pps) s h)

    pack_fitting-IsStrip :
        (c : Settings) (s : State)
        → init
            (strip_material j.spec (mat_w j size) (mat_h j size))
            (strip_params j)
            SplitRule.shorter_leftover_axis
            j.min_rect_size
            Selection.best_area_fit
          ≡ ready c s
        → (ps : List Piece) → filter_by (fits_strip (mat_w j size) (mat_h j size)) remaining ≡ ps
        → (o : Option Strip) × (pack_fitting j repeats size c s ps ≡ some o)
          × MayBe (IsStrip j remaining size) o
    unfolding pack_fitting
    pack_fitting-IsStrip c s fresh [] e = (none, refl, tt)
    pack_fitting-IsStrip c s fresh (p ∷ ps) e =
        let (placed, un, s', done, h) =
          optimize-IsPack _ _ _ _ _ c s fresh (sort_by (key_lt (strip_key j size)) (p ∷ ps)) in
        let (o, eo, ho) = packed-IsStrip placed un s' (rw e h) in (o, rw done eo, ho)

  try_size-IsStrip :
      (size : ℕ)
      → (o : Option Strip) × (try_size j remaining repeats size ≡ some o)
        × MayBe (IsStrip j remaining size) o
  unfolding try_size
  try_size-IsStrip size = go (open_strip j size) (open_strip-Begun j size)
    where
      go :
          (o : Option (Settings × State))
          → Begun j size o
          → (r : Option Strip) × (elim o [
            | none ↦ some none
            | some (c, s) ↦
                pack_fitting j repeats size c s
                  (filter_by (fits_strip (mat_w j size) (mat_h j size)) remaining)
          ]
              ≡ some r)
            × MayBe (IsStrip j remaining size) r
      go none h = (none, refl, tt)
      go (some (c, s)) (l, fresh) = pack_fitting-IsStrip size l c s fresh _ refl

  keep_better-Chosen :
      (room : ℕ) (new best : Option Strip)
      → MayBe (Chosen j remaining room) new
      → MayBe (Chosen j remaining room) best
      → MayBe (Chosen j remaining room) (keep_better new best)
  unfolding keep_better
  keep_better-Chosen room none best h k = k
  keep_better-Chosen room (some new) none h k = h
  keep_better-Chosen room (some new) (some best) h k = elim (Bool-cases (beats new best)) [
    | inl e ↦ rw e h
    | inr e ↦ rw e k
  ]

  chosen :
      (room size : ℕ) (o : Option Strip)
      → size ≤ room
      → MayBe (IsStrip j remaining size) o
      → MayBe (Chosen j remaining room) o
  chosen room size none l h = tt
  chosen room size (some strip) l h =
      (subst (λ n. IsStrip j remaining n strip) (sym h.sized) h, omega (arith, h.sized))

  -- The loop over the sizes always returns. Its choice is a strip that was packed.
  pub best_strip-Chosen :
      (room : ℕ) (sizes : List ℕ) (best : Option Strip)
      → All (λ size. size ≤ room) sizes
      → MayBe (Chosen j remaining room) best
      → (o : Option Strip) × (best_strip j remaining repeats sizes best ≡ some o)
        × MayBe (Chosen j remaining room) o
  unfolding best_strip
  best_strip-Chosen room [] best l h = (best, refl, h)
  best_strip-Chosen room (size ∷ sizes) best l h =
      let (new, e, k) = try_size-IsStrip size in
      let (o, e', k') =
        best_strip-Chosen room sizes (keep_better new best) l.1
          (keep_better-Chosen room new best (chosen room size new l.0 k) h) in
      (o, rw (e, best_strip) e', k')
