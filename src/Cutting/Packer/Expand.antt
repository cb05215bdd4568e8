-- ===== src/Cutting/Packer/Expand.antt =====
-- src/cutting/packer.py, `_sort_pieces` and `expand_pieces`: the pieces in placement order, one for
-- each physical piece.
use opticutter_api.Prelude.{
  ℕ, zero, suc, ◌+◌, ◌/◌, ◌%◌, Bool, true, false, List, [], ◌∷◌, ◌++◌, ltb, ◌==◌, if◌then◌else◌,
  all_by, sort_by,
}
use opticutter_api.Cutting.Models.{Text, Piece, piece_area}

-- `key=lambda p: (-p.priority, -p.area)`
unfoldable pub placement_lt : Piece → Piece → Bool
placement_lt p q =
    if ltb q.priority p.priority
    then true
    else (if p.priority == q.priority then ltb (piece_area q) (piece_area p) else false)

unfoldable pub sort_pieces : List Piece → List Piece
sort_pieces = sort_by placement_lt

-- `str(n)`: the digits of `n`, on fuel above `n`.
unfoldable pub digits_from : ℕ → ℕ → Text
digits_from zero n = []
digits_from (suc f) n =
    let front = digits_from f (n / 10) in
    if ltb n 10 then (b'0' + n) ∷ [] else front ++ (b'0' + n % 10) ∷ []

unfoldable pub decimal : ℕ → Text
unfolding digits_from
decimal n = digits_from (suc n) n

-- `f"{piece.id}#{i + 1}" if piece.quantity > 1 else piece.id`
unfoldable pub instance_id : Piece → ℕ → Text
instance_id p i = if ltb 1 p.quantity then p.id ++ b'#' ∷ decimal (i + 1) else p.id

unfoldable pub instance_of : Piece → ℕ → Piece
instance_of p i = record p { id = instance_id p i; quantity = 1 }

-- `for i in range(piece.quantity)`, from round `i` with `n` rounds left.
unfoldable pub instances_from : Piece → ℕ → ℕ → List Piece
instances_from p zero i = []
instances_from p (suc n) i = instance_of p i ∷ instances_from p n (suc i)

-- The nested loops, without the fast path.
unfoldable pub expand_all : List Piece → List Piece
expand_all [] = []
expand_all (p ∷ ps) = instances_from p p.quantity 0 ++ expand_all ps

unfoldable pub expand_pieces : List Piece → List Piece
expand_pieces ps = if all_by (λ p. p.quantity == 1) ps then ps else expand_all ps
