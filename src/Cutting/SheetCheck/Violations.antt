-- ===== src/Cutting/SheetCheck/Violations.antt =====
-- src/cutting/sheet_check.py, `usable_bounds`, `_box`, `_separation`, `iter_violations` and
-- `is_cuttable`. `_EPS` is 1e-6 mm, which is the unit of length here.
use opticutter_api.Prelude.{
  ℕ, max, Bool, true, false, not, ◌&&◌, ◌||◌, List, [], ◌∷◌, ◌++◌, ◌==◌, if◌then◌else◌,
}
use opticutter_api.Prelude.Int.{ℤ, pos, negsuc, ◌+ℤ◌, ◌-ℤ◌, sub_ℕ, ltb_ℤ, max_ℤ}
use opticutter_api.Cutting.Models.{Text, Piece, PlacedPiece, CuttingParameters}

-- A `PlacedPiece` and a `Rectangle` as they come from outside.
pub record SheetPiece : Type 0 where
  pub piece : Piece
  pub x : ℤ
  pub y : ℤ
  pub width : ℕ
  pub height : ℕ
  pub rotated : Bool

pub record SheetRectangle : Type 0 where
  pub x : ℤ
  pub y : ℤ
  pub width : ℕ
  pub height : ℕ

-- `(x0, y0, x1, y1)`
pub record SheetBox : Type 0 where
  pub x0 : ℤ
  pub y0 : ℤ
  pub x1 : ℤ
  pub y1 : ℤ

pub data Code : Type 0 where
  out_of_bounds inside_trim rotation_not_allowed wrong_dimensions overlap kerf_violation
        whole_offcut_overlap not_guillotine unverifiable :
      Code

pub record Violation : Type 0 where
  pub code : Code
  pub piece_ids : List Text

abbrev pub violation : Code → List Text → Violation
violation code ids = record { code = code; piece_ids = ids }

unfoldable pub usable_bounds : ℕ → ℕ → CuttingParameters → SheetBox
usable_bounds width height params = record {
  x0 = pos params.left_trim;
  y0 = pos params.bottom_trim;
  x1 = sub_ℕ width params.right_trim;
  y1 = sub_ℕ height params.top_trim;
}

unfoldable pub piece_box : SheetPiece → SheetBox
piece_box p = record { x0 = p.x; y0 = p.y; x1 = p.x +ℤ pos p.width; y1 = p.y +ℤ pos p.height }

unfoldable pub offcut_box : SheetRectangle → SheetBox
offcut_box r = record { x0 = r.x; y0 = r.y; x1 = r.x +ℤ pos r.width; y1 = r.y +ℤ pos r.height }

unfoldable pub separation : SheetBox → SheetBox → ℤ
separation a b =
    let gap_x = max_ℤ (b.x0 -ℤ a.x1) (a.x0 -ℤ b.x1) in
    let gap_y = max_ℤ (b.y0 -ℤ a.y1) (a.y0 -ℤ b.y1) in max_ℤ gap_x gap_y

-- `b.x0 < lo.x0 - _EPS or … or b.x1 > hi.x1 + _EPS or …`
unfoldable pub exceeds : SheetBox → SheetBox → Bool
exceeds limit b =
    ltb_ℤ b.x0 (limit.x0 -ℤ pos 1)
    || ltb_ℤ b.y0 (limit.y0 -ℤ pos 1)
    || ltb_ℤ (limit.x1 +ℤ pos 1) b.x1
    || ltb_ℤ (limit.y1 +ℤ pos 1) b.y1

abbrev pub sheet_box : ℕ → ℕ → SheetBox
sheet_box width height = record { x0 = pos 0; y0 = pos 0; x1 = pos width; y1 = pos height }

-- `if test: yield v`
abbrev pub yield_if : Bool → Violation → List Violation
yield_if b v = if b then v ∷ [] else []

unfoldable pub same_size : ℕ → ℕ → ℕ → ℕ → Bool
same_size w h w' h' = w == w' && h == h'

-- The body of the first loop.
unfoldable pub piece_violations : ℕ → ℕ → CuttingParameters → SheetPiece → List Violation
piece_violations width height params pp =
    let ids = pp.piece.id ∷ [] in
    let b = piece_box pp in
    (if exceeds (sheet_box width height) b
      then violation out_of_bounds ids ∷ []
      else yield_if (exceeds (usable_bounds width height params) b) (violation inside_trim ids))
    ++ (if pp.rotated
        then yield_if (not pp.piece.can_rotate) (violation rotation_not_allowed ids)
          ++ yield_if (not (same_size pp.width pp.height pp.piece.height pp.piece.width))
              (violation wrong_dimensions ids)
        else yield_if (not (same_size pp.width pp.height pp.piece.width pp.piece.height))
            (violation wrong_dimensions ids))

-- `_separation(a, b) < kerf - _EPS`
unfoldable pub too_close : ℕ → SheetBox → SheetBox → Bool
too_close kerf a b = ltb_ℤ (separation a b) (sub_ℕ kerf 1)

-- The body of the loop over pairs.
unfoldable pub pair_violations : ℕ → SheetPiece → SheetPiece → List Violation
pair_violations kerf p q =
    let a = piece_box p in
    let b = piece_box q in
    yield_if (too_close kerf a b) (
      violation (if ltb_ℤ (separation a b) (negsuc 0) then overlap else kerf_violation)
        (p.piece.id ∷ q.piece.id ∷ []))

abbrev pub concat_map {ℓ} : {A : Type ℓ} → (A → List Violation) → List A → List Violation
concat_map f [] = []
concat_map f (x ∷ xs) = f x ++ concat_map f xs

-- `for i …: for j in range(i + 1, …): …`
abbrev pub over_pairs {ℓ} : {A : Type ℓ} → (A → A → List Violation) → List A → List Violation
over_pairs f [] = []
over_pairs f (x ∷ xs) = concat_map (f x) xs ++ over_pairs f xs

-- The body of the loop over the whole offcuts, `later` being those after this one.
unfoldable pub offcut_violations :
    ℕ → SheetBox → List SheetPiece → SheetRectangle → List SheetRectangle → List Violation
offcut_violations kerf usable placed r later =
    let b = offcut_box r in
    yield_if (exceeds usable b) (violation whole_offcut_overlap [])
    ++ (concat_map
          (λ pp.
            yield_if (too_close kerf b (piece_box pp))
              (violation whole_offcut_overlap (pp.piece.id ∷ [])))
          placed
        ++ concat_map
            (λ other.
              yield_if (too_close kerf b (offcut_box other)) (violation whole_offcut_overlap []))
            later)

unfoldable pub offcuts_violations :
    ℕ → SheetBox → List SheetPiece → List SheetRectangle → List Violation
offcuts_violations kerf usable placed [] = []
offcuts_violations kerf usable placed (r ∷ later) =
    offcut_violations kerf usable placed r later ++ offcuts_violations kerf usable placed later

unfoldable pub iter_violations :
    ℕ → ℕ → List SheetPiece → CuttingParameters → List SheetRectangle → List Violation
iter_violations width height placed params whole_offcuts =
    let kerf = max 0 params.kerf in
    concat_map (piece_violations width height params) placed
    ++ (over_pairs (pair_violations kerf) placed
        ++ offcuts_violations kerf (usable_bounds width height params) placed whole_offcuts)

unfoldable pub is_cuttable : ℕ → ℕ → List SheetPiece → CuttingParameters → Bool
is_cuttable width height placed params = elim (iter_violations width height placed params []) [
  | [] ↦ true
  | _ ∷ _ ↦ false
]

-- A piece where the packer put it.
abbrev pub on_sheet : PlacedPiece → SheetPiece
on_sheet p = record {
  piece = p.piece;
  x = pos p.x;
  y = pos p.y;
  width = p.width;
  height = p.height;
  rotated = p.rotated;
}
