-- ===== src/Cutting/Constructors/Pieces.antt =====
-- `strip_fill` and `greedy_fill`: no piece of the pool is lost, changed, or cut twice.
use opticutter_api.Prelude.{
  ℕ, ◌≡◌, ◌≢◌, refl, sym, ap, subst, Bool, true, false, not, Bool-cases, inl, inr, List, [], ◌∷◌,
  ◌++◌, map, All, All-append, All-mono, All-append_split, Pairwise, Pairwise-perm, Permᴰ, any_by,
  filter_by, arith,
}
use mathlib.Core.List.Permᴰ
use opticutter_api.Cutting.Models.{Piece, PlacedPiece}
use opticutter_api.Cutting.Constructors.Order.{same_id}
use opticutter_api.Cutting.Constructors.Fill.{ids_of}

-- Filtering and partitioning, up to order.
module _ {ℓ} {A : Type ℓ} (p : A → Bool) where
  filter_by-cons :
      (b : A) (xs ys : List A)
      → Permᴰ (filter_by p xs) (filter_by p ys)
      → Permᴰ (filter_by p (b ∷ xs)) (filter_by p (b ∷ ys))
  filter_by-cons b xs ys h = elim (Bool-cases (p b)) [
    | inl e ↦ rw e (Permᴰ.cons refl h)
    | inr e ↦ rw e h
  ]

  filter_by-swap :
      (a b : A) (l : List A) → Permᴰ (filter_by p (a ∷ b ∷ l)) (filter_by p (b ∷ a ∷ l))
  filter_by-swap a b l = elim (Bool-cases (p a)) [
    | inl e ↦ elim (Bool-cases (p b)) [
      | inl f ↦ rw (e, f) (Permᴰ.swap refl refl)
      | inr f ↦ rw (e, f) (Permᴰ.refl _)
    ]
    | inr e ↦ elim (Bool-cases (p b)) [
      | inl f ↦ rw (e, f) (Permᴰ.refl _)
      | inr f ↦ rw (e, f) (Permᴰ.refl _)
    ]
  ]

  filter_by-perm : {xs ys : List A} → Permᴰ xs ys → Permᴰ (filter_by p xs) (filter_by p ys)
  filter_by-perm Permᴰ.nil = Permᴰ.nil
  filter_by-perm (Permᴰ.cons {a = a} {l₁ = l} {l₂ = l'} e h) =
      subst (λ b. Permᴰ (filter_by p (a ∷ l)) (filter_by p (b ∷ l'))) e
        (filter_by-cons a _ _ (filter_by-perm h))
  filter_by-perm (Permᴰ.swap {a = a} {b = b} {b' = b'} {l = l} e f) =
      subst (λ c. Permᴰ (filter_by p (a ∷ b ∷ l)) (filter_by p (c ∷ b' ∷ l))) f
        (subst (λ c. Permᴰ (filter_by p (a ∷ b ∷ l)) (filter_by p (b ∷ c ∷ l))) e
          (filter_by-swap a b l))
  filter_by-perm (Permᴰ.trans h k) = Permᴰ.trans (filter_by-perm h) (filter_by-perm k)

  pub partition-perm : (xs : List A) → Permᴰ (filter_by p xs ++ filter_by (λ x. not (p x)) xs) xs
  partition-perm [] = Permᴰ.nil
  partition-perm (x ∷ xs) = elim (Bool-cases (p x)) [
    | inl e ↦ rw e (Permᴰ.cons refl (partition-perm xs))
    | inr e ↦ rw e (
        Permᴰ.trans (Permᴰ.middle x (filter_by p xs) (filter_by (λ y. not (p y)) xs))
          (Permᴰ.cons refl (partition-perm xs)))
  ]

  -- A prefix that the filter drops, before a rest that it keeps.
  filter_by-rest :
      (xs ys : List A)
      → All (λ x. p x ≡ false) xs
      → All (λ y. p y ≡ true) ys
      → filter_by p (xs ++ ys) ≡ ys
  filter_by-rest [] [] h k = refl
  filter_by-rest [] (y ∷ ys) h k = rw (k.0, filter_by-rest [] ys tt k.1) refl
  filter_by-rest (x ∷ xs) ys h k = rw (h.0, filter_by-rest xs ys h.1 k) refl

pub same_id-eq : (s t : List ℕ) → same_id s t ≡ true → s ≡ t
same_id-eq [] [] h = refl
same_id-eq [] (d ∷ t) h = absurd (ground arith)
same_id-eq (c ∷ s) [] h = absurd (ground arith)
same_id-eq (c ∷ s) (d ∷ t) h =
    let e : c ≡ d = ground arith in
    let more : same_id s t ≡ true = ground arith in rw (e, same_id-eq s t more) refl

pub same_id_refl : (s : List ℕ) → same_id s s ≡ true
same_id_refl [] = refl
same_id_refl (c ∷ s) = ground (arith, same_id_refl s)

pub same_id-ne : (s t : List ℕ) → same_id s t ≡ false → s ≢ t
same_id-ne s t h e =
    let own : same_id s t ≡ true = subst (λ u. same_id s u ≡ true) e (same_id_refl s) in
    absurd (ground arith)

-- No two pieces share an id.
abbrev pub AreDistinct : List Piece → Type 0
AreDistinct ps = Pairwise (λ p q. p.id ≢ q.id) ps

abbrev pub pieces : List PlacedPiece → List Piece
pieces placed = map (λ pp. pp.piece) placed

-- `p.id in ids`
abbrev taken : List (List ℕ) → Piece → Bool
taken ids p = any_by (same_id p.id) ids

taken_more :
    (i : List ℕ) (ids : List (List ℕ)) (p : Piece) → taken ids p ≡ true → taken (i ∷ ids) p ≡ true
taken_more i ids p h = ground arith

taken_own : (placed : List PlacedPiece) → All (λ p. taken (ids_of placed) p ≡ true) (pieces placed)
taken_own [] = tt
taken_own (pp ∷ pps) = (
  rw (same_id_refl pp.piece.id) refl,
  All-mono (taken_more pp.piece.id (ids_of pps)) (pieces pps) (taken_own pps),
)

taken_other :
    (placed : List PlacedPiece) (q : Piece)
    → All (λ p. p.id ≢ q.id) (pieces placed)
    → taken (ids_of placed) q ≡ false
taken_other [] q h = refl
taken_other (pp ∷ pps) q h = elim (Bool-cases (same_id q.id pp.piece.id)) [
  | inl e ↦ absurd (h.0 (sym (same_id-eq q.id pp.piece.id e)))
  | inr e ↦ rw e (taken_other pps q h.1)
]

flipped :
    (placed : List PlacedPiece) (q : Piece) (rest : List Piece)
    → Pairwise (λ p q. p.id ≢ q.id) (pieces placed ++ q ∷ rest)
    → All (λ p. p.id ≢ q.id) (pieces placed)
flipped [] q rest h = tt
flipped (pp ∷ pps) q rest h =
    ((All-append_split _ (pieces pps) (q ∷ rest) h.0).1.0, flipped pps q rest h.1)

without :
    (placed : List PlacedPiece) (q : Piece) (rest : List Piece)
    → AreDistinct (pieces placed ++ q ∷ rest)
    → AreDistinct (pieces placed ++ rest)
without [] q rest h = h.1
without (pp ∷ pps) q rest h =
    let (l, r) = All-append_split _ (pieces pps) (q ∷ rest) h.0 in
    (All-append _ (pieces pps) rest l r.1, without pps q rest h.1)

others_free :
    (placed : List PlacedPiece) (rest : List Piece)
    → AreDistinct (pieces placed ++ rest)
    → All (λ p. taken (ids_of placed) p ≡ false) rest
others_free placed [] h = tt
others_free placed (q ∷ rest) h = (
  taken_other placed q (flipped placed q rest h),
  others_free placed rest (without placed q rest h),
)

-- Where the ids differ, taking out the placed pieces by their ids takes out these and no other.
pub taken_perm :
    (placed : List PlacedPiece) (rest remaining : List Piece)
    → AreDistinct remaining
    → Permᴰ (pieces placed ++ rest) remaining
    → Permᴰ
        (pieces placed ++ filter_by (λ p. not (any_by (same_id p.id) (ids_of placed))) remaining)
        remaining
taken_perm placed rest remaining distinct h =
    let there = Pairwise-perm (λ p q. p.id ≢ q.id) (λ p q n e. n (sym e)) (Permᴰ.symm h) distinct in
    let keeps = λ (p : Piece). not (any_by (same_id p.id) (ids_of placed)) in
    let exact : filter_by keeps (pieces placed ++ rest) ≡ rest =
      filter_by-rest keeps (pieces placed) rest
        (All-mono (λ p e. ap not e) (pieces placed) (taken_own placed))
        (All-mono (λ p e. ap not e) rest (others_free placed rest there)) in
    let same = rw exact at (filter_by-perm keeps h) in
    Permᴰ.trans (Permᴰ.append_left (pieces placed) (Permᴰ.symm same)) h
