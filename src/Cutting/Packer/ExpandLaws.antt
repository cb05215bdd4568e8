-- ===== src/Cutting/Packer/ExpandLaws.antt =====
-- `expand_pieces`: one piece for each physical piece, and a fast path that changes nothing.
use opticutter_api.Prelude.{
  ℕ, zero, suc, ◌*◌, ◌≡◌, refl, sym, subst, Permᴰ, append_assoc, ◌++◌, ap, true, List, [], ◌∷◌, All,
  All-append, All-mono, Bool-cases, inl, inr, arith, length, length-append, sum_of, sum_of-append,
  all_by, ◌==◌,
}
use mathlib.Core.List.Permᴰ
use opticutter_api.Cutting.Models.{Piece, piece_area}
use opticutter_api.Cutting.Packer.Expand.{
  instance_id, instance_of, instances_from, expand_all, expand_pieces,
}

instances_from-single : (p : Piece) → p.quantity ≡ 1 → instances_from p 1 0 ≡ p ∷ []
unfolding instances_from instance_of instance_id
instances_from-single p h = ground arith

-- A list of single pieces expands to itself: the fast path is the general one.
pub expand_all-singles :
    (ps : List Piece) → all_by (λ p. p.quantity == 1) ps ≡ true → expand_all ps ≡ ps
unfolding expand_all
expand_all-singles [] h = refl
expand_all-singles (p ∷ ps) h =
    let one : p.quantity ≡ 1 = ground arith in
    let more : all_by (λ q. q.quantity == 1) ps ≡ true = ground arith in
    cc (ap (λ n. instances_from p n 0) one, instances_from-single p one, expand_all-singles ps more)

-- The fast path of `expand_pieces` changes no result.
pub expand_pieces-eq-expand_all : (ps : List Piece) → expand_pieces ps ≡ expand_all ps
unfolding expand_pieces
expand_pieces-eq-expand_all ps = elim (Bool-cases (all_by (λ p. p.quantity == 1) ps)) [
  | inl singles ↦ rw (singles, expand_all-singles ps singles)
  | inr several ↦ rw several
]

-- What a physical instance of `p` is: one piece, of `p`'s geometry, rotation and priority.
abbrev pub IsInstance : Piece → Piece → Type 0
IsInstance p q =
    (q.quantity ≡ 1)
    × (q.width ≡ p.width)
    × (q.height ≡ p.height)
    × (q.can_rotate ≡ p.can_rotate)
    × (q.priority ≡ p.priority)

instances_from-length :
    (p : Piece) (n i : ℕ)
    → (length (instances_from p n i) ≡ n) × All (IsInstance p) (instances_from p n i)
unfolding instances_from instance_of
instances_from-length p zero i = (refl, tt)
instances_from-length p (suc n) i =
    let (len, all) = instances_from-length p n (suc i) in
    (omega (arith, len), ((refl, refl, refl, refl, refl), all))

instances_from-area :
    (p : Piece) (n i : ℕ) → sum_of piece_area (instances_from p n i) ≡ n * piece_area p
unfolding instances_from instance_of
instances_from-area p zero i = omega arith
instances_from-area p (suc n) i = omega (arith, instances_from-area p n (suc i))

expand_all-area :
    (ps : List Piece)
    → sum_of piece_area (expand_all ps) ≡ sum_of (λ p. p.quantity * piece_area p) ps
unfolding expand_all
expand_all-area [] = refl
expand_all-area (p ∷ ps) = omega (
  arith,
  sum_of-append piece_area (instances_from p p.quantity 0) (expand_all ps),
  instances_from-area p p.quantity 0,
  expand_all-area ps,
)

expand_all-length :
    (ps : List Piece)
    → (length (expand_all ps) ≡ sum_of (λ p. p.quantity) ps)
      × All (λ q. q.quantity ≡ 1) (expand_all ps)
unfolding expand_all
expand_all-length [] = (refl, tt)
expand_all-length (p ∷ ps) =
    let (len, singles) = instances_from-length p p.quantity 0 in
    let (rest, more) = expand_all-length ps in
    (
      omega (arith, length-append (instances_from p p.quantity 0) (expand_all ps), len, rest),
      All-append _ (instances_from p p.quantity 0) (expand_all ps) (All-mono (λ q h. h.0) _ singles)
          more,
    )

-- Expanding gives as many pieces as the quantities add up to, each of quantity 1, and their area is
-- the quantity-weighted area of the pieces given.
pub expand_pieces-quantities :
    (ps : List Piece)
    → (length (expand_pieces ps) ≡ sum_of (λ p. p.quantity) ps)
      × All (λ q. q.quantity ≡ 1) (expand_pieces ps)
      × (sum_of piece_area (expand_pieces ps) ≡ sum_of (λ p. p.quantity * piece_area p) ps)
expand_pieces-quantities ps =
    let (len, singles) = expand_all-length ps in
    rw expand_pieces-eq-expand_all (len, singles, expand_all-area ps)

expand_all-perm : {ps qs : List Piece} → Permᴰ ps qs → Permᴰ (expand_all ps) (expand_all qs)
unfolding expand_all
expand_all-perm Permᴰ.nil = Permᴰ.nil
expand_all-perm (Permᴰ.cons {a = p} {l₁ = ps} {l₂ = qs} e h) =
    subst (λ q. Permᴰ (expand_all (p ∷ ps)) (expand_all (q ∷ qs))) e
      (Permᴰ.append_left (instances_from p p.quantity 0) (expand_all-perm h))
expand_all-perm (Permᴰ.swap {a = a} {b = b} {b' = b'} {l = l} e f) =
    let xs = instances_from a a.quantity 0 in
    let ys = instances_from b b.quantity 0 in
    let swapped : Permᴰ (xs ++ (ys ++ expand_all l)) (ys ++ (xs ++ expand_all l)) =
      rw (sym (append_assoc xs ys (expand_all l)), sym (append_assoc ys xs (expand_all l)))
        (Permᴰ.append_right (expand_all l) (Permᴰ.append_comm xs ys)) in
    subst (λ q. Permᴰ (expand_all (a ∷ b ∷ l)) (expand_all (q ∷ b' ∷ l))) f
      (subst (λ q. Permᴰ (expand_all (a ∷ b ∷ l)) (expand_all (b ∷ q ∷ l))) e swapped)
expand_all-perm (Permᴰ.trans h k) = Permᴰ.trans (expand_all-perm h) (expand_all-perm k)

-- The order of the pieces does not matter to their instances.
pub expand_pieces-perm :
    {ps qs : List Piece} → Permᴰ ps qs → Permᴰ (expand_pieces ps) (expand_pieces qs)
expand_pieces-perm {ps} {qs} h =
    rw (expand_pieces-eq-expand_all ps, expand_pieces-eq-expand_all qs) (expand_all-perm h)
