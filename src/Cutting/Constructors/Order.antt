-- ===== src/Cutting/Constructors/Order.antt =====
-- src/cutting/constructors.py, `piece_type`, `SORT_KEYS` and `GREEDY_PORTFOLIO`: the types of
-- pieces and the orders in which a fill tries them.
use opticutter_api.Prelude.{
  ℕ, ◌+◌, max, min, Bool, true, false, ◌&&◌, List, [], ◌∷◌, ◌++◌, map, ◌==◌, if◌then◌else◌, sort_by,
}
use opticutter_api.Cutting.Models.{Piece, piece_area, PlacedPiece, SplitRule, Selection}
use opticutter_api.Cutting.Packer.Place.{lex_lt}

pub record PieceType : Type 0 where
  pub width : ℕ
  pub height : ℕ
  pub can_rotate : Bool
  pub priority : ℕ

abbrev pub piece_type : Piece → PieceType
piece_type p = record {
  width = p.width;
  height = p.height;
  can_rotate = p.can_rotate;
  priority = p.priority;
}

-- Equality of strings and of tuples of numbers.
abbrev pub same_id : List ℕ → List ℕ → Bool
same_id [] [] = true
same_id (c ∷ s) (d ∷ t) = c == d && same_id s t
same_id [] (d ∷ t) = false
same_id (c ∷ s) [] = false

-- The tuple, whose Boolean counts as 0 or 1.
unfoldable pub type_key : PieceType → List ℕ
type_key t = t.width ∷ t.height ∷ (if t.can_rotate then 1 else 0) ∷ t.priority ∷ []

-- `counts[t] = counts.get(t, 0) + 1`, and a look-up with default 0.
abbrev pub Counts {ℓ} : Type ℓ → Type ℓ
Counts A = List (A × ℕ)

unfoldable pub count_in {ℓ} : {A : Type ℓ} → (A → A → Bool) → A → Counts A → Counts A
count_in same a [] = (a, 1) ∷ []
count_in same a ((b, n) ∷ rest) =
    if same a b then (b, n + 1) ∷ rest else (b, n) ∷ count_in same a rest

unfoldable pub count_of {ℓ} : {A : Type ℓ} → (A → A → Bool) → A → Counts A → ℕ
count_of same a [] = 0
count_of same a ((b, n) ∷ rest) = if same a b then n else count_of same a rest

abbrev pub Signature : Type 0
Signature = Counts PieceType

abbrev pub same_type : PieceType → PieceType → Bool
same_type s t = same_id (type_key s) (type_key t)

unfoldable pub count_types : List PlacedPiece → Signature → Signature
count_types [] counts = counts
count_types (pp ∷ pps) counts = count_types pps (count_in same_type (piece_type pp.piece) counts)

-- `sorted(counts.items())`
abbrev pub item_lt : PieceType × ℕ → PieceType × ℕ → Bool
item_lt (s, m) (t, n) = lex_lt (type_key s ++ m ∷ []) (type_key t ++ n ∷ [])

unfoldable pub signature_of : List PlacedPiece → Signature
signature_of placed = sort_by item_lt (count_types placed [])

unfoldable pub same_signature : Signature → Signature → Bool
same_signature [] [] = true
same_signature ((s, m) ∷ ss) ((t, n) ∷ ts) = same_type s t && m == n && same_signature ss ts
same_signature [] (_ ∷ ts) = false
same_signature (_ ∷ ss) [] = false

-- A sort key is a tuple of negated numbers and then the id.
unfoldable pub key_lt : (Piece → List ℕ) → Piece → Piece → Bool
key_lt key p q =
    if lex_lt (key q) (key p)
    then true
    else (if lex_lt (key p) (key q) then false else lex_lt p.id q.id)

pub data SortKey : Type 0 where
  area maxdim height width perimeter mindim : SortKey

-- `SORT_KEYS`: the numbers of the key, before they are negated.
unfoldable pub sort_keys : SortKey → Piece → List ℕ
sort_keys SortKey.area p = p.priority ∷ piece_area p ∷ p.height ∷ []
sort_keys SortKey.maxdim p = p.priority ∷ max p.width p.height ∷ min p.width p.height ∷ []
sort_keys SortKey.height p = p.priority ∷ p.height ∷ p.width ∷ []
sort_keys SortKey.width p = p.priority ∷ p.width ∷ p.height ∷ []
sort_keys SortKey.perimeter p = p.priority ∷ (p.width + p.height) ∷ piece_area p ∷ []
sort_keys SortKey.mindim p = p.priority ∷ min p.width p.height ∷ max p.width p.height ∷ []

pub record GreedyConfig : Type 0 where
  pub sort : SortKey
  pub split : SplitRule
  pub selection : Selection

abbrev selections : List Selection
selections = Selection.best_area_fit ∷ Selection.bottom_left ∷ []

abbrev splits : List SplitRule
splits =
    SplitRule.shorter_leftover_axis ∷ SplitRule.longer_axis ∷ SplitRule.minimize_area
    ∷ SplitRule.maximize_area ∷ []

abbrev sorts : List SortKey
sorts =
    SortKey.area ∷ SortKey.maxdim ∷ SortKey.height ∷ SortKey.width ∷ SortKey.perimeter
    ∷ SortKey.mindim ∷ []

-- `for a in xs for b in …`
abbrev for_each {ℓ κ} : {A : Type ℓ} {B : Type κ} → List A → (A → List B) → List B
for_each [] f = []
for_each (a ∷ as') f = f a ++ for_each as' f

abbrev pub greedy_portfolio : List GreedyConfig
greedy_portfolio = for_each sorts (λ s.
    for_each splits
      (λ sp. map (λ sel. record { sort = s; split = sp; selection = sel }) selections))
