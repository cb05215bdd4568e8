-- ===== src/Optimizations/GroupLaws.antt =====
-- `group_layouts`: the groups are the sheets by their signatures.
use opticutter_api.Prelude.{
  ℕ, ◌≡◌, refl, sym, ap, ◌∙◌, Bool, true, false, Bool-cases, inl, inr, Option, none, some, List, [],
  ◌∷◌, ◌++◌, map, map-append, length, length-append, filter_by, arith,
}
use opticutter_api.Cutting.Constructors.Pieces.{same_id-eq, same_id_refl}
use opticutter_api.Optimizations.Groups.{
  LaidPiece, Sheet, LayoutSignature, layout_signature, same_bool, same_key, same_piece, same_pieces,
  same_layout, Group, one_more, new_group,
}

same_bool-eq : (a b : Bool) → same_bool a b ≡ true → a ≡ b
unfolding same_bool
same_bool-eq true true h = refl
same_bool-eq true false h = sym h
same_bool-eq false true h = h
same_bool-eq false false h = refl

same_key-eq : (a b : Option (List ℕ)) → same_key a b ≡ true → a ≡ b
unfolding same_key
same_key-eq none none h = refl
same_key-eq none (some t) h = absurd (ground arith)
same_key-eq (some s) none h = absurd (ground arith)
same_key-eq (some s) (some t) h = ap some (same_id-eq s t h)

same_piece-eq : (p q : LaidPiece) → same_piece p q ≡ true → p ≡ q
unfolding same_piece
same_piece-eq p q h =
    let i = same_id-eq p.piece_id q.piece_id (ground arith) in
    let r = same_bool-eq p.rotated q.rotated (ground arith) in
    let x : p.x ≡ q.x = ground arith in
    let y : p.y ≡ q.y = ground arith in
    let w : p.width ≡ q.width = ground arith in
    let v : p.height ≡ q.height = ground arith in
    λ k. record { piece_id = i k; x = x k; y = y k; width = w k; height = v k; rotated = r k }

same_pieces-eq : (ps qs : List LaidPiece) → same_pieces ps qs ≡ true → ps ≡ qs
unfolding same_pieces
same_pieces-eq [] [] h = refl
same_pieces-eq [] (q ∷ qs) h = absurd (ground arith)
same_pieces-eq (p ∷ ps) [] h = absurd (ground arith)
same_pieces-eq (p ∷ ps) (q ∷ qs) h =
    let head = same_piece-eq p q (ground arith) in
    let tail = same_pieces-eq ps qs (ground arith) in λ k. head k ∷ tail k

pub same_layout-eq : (a b : LayoutSignature) → same_layout a b ≡ true → a ≡ b
unfolding same_layout
same_layout-eq a b h =
    let m = same_key-eq a.material_key b.material_key (ground arith) in
    let v = same_bool-eq a.half_board b.half_board (ground arith) in
    let ps = same_pieces-eq a.pieces b.pieces (ground arith) in
    λ k. record { material_key = m k; half_board = v k; pieces = ps k }

same_bool_refl : (a : Bool) → same_bool a a ≡ true
unfolding same_bool
same_bool_refl true = refl
same_bool_refl false = refl

same_key_refl : (a : Option (List ℕ)) → same_key a a ≡ true
unfolding same_key
same_key_refl none = refl
same_key_refl (some s) = same_id_refl s

same_pieces_refl : (ps : List LaidPiece) → same_pieces ps ps ≡ true
unfolding same_pieces same_piece
same_pieces_refl [] = refl
same_pieces_refl (p ∷ ps) =
    let i = same_id_refl p.piece_id in
    let b = same_bool_refl p.rotated in let rest = same_pieces_refl ps in ground arith

pub same_layout_refl : (a : LayoutSignature) → same_layout a a ≡ true
unfolding same_layout
same_layout_refl a =
    let m = same_key_refl a.material_key in
    let b = same_bool_refl a.half_board in let ps = same_pieces_refl a.pieces in ground arith

-- Signatures of two sheets agree.
abbrev pub alike : Sheet → Sheet → Bool
alike a b = same_layout (layout_signature a) (layout_signature b)

-- The sheets of a group: those like its representative.
abbrev pub members : List Sheet → Group → List Sheet
members layouts g = filter_by (λ l. alike l g.layout) layouts

-- What a group says of the sheets: its representative is the first of them, and it has their number
-- and their sheet numbers in order.
pub record IsGroup (layouts : List Sheet) (g : Group) : Type 0 where
  pub others : List Sheet
  pub first : members layouts g ≡ g.layout ∷ others
  pub counted : g.count ≡ length (members layouts g)
  pub numbered : g.sheet_numbers ≡ map (λ l. l.sheet_number) (members layouts g)
  pub keyed : g.material_key ≡ g.layout.material_key

filter_by-append {ℓ} :
    {A : Type ℓ} (p : A → Bool) (xs ys : List A)
    → filter_by p (xs ++ ys) ≡ filter_by p xs ++ filter_by p ys
filter_by-append p [] ys = refl
filter_by-append p (x ∷ xs) ys = elim (Bool-cases (p x)) [
  | inl e ↦ rw (e, filter_by-append p xs ys) refl
  | inr e ↦ rw (e, filter_by-append p xs ys) refl
]

append_nil {ℓ} : {A : Type ℓ} (xs : List A) → xs ++ [] ≡ xs
append_nil [] = refl
append_nil (x ∷ xs) = rw (append_nil xs) refl

module _ (layouts : List Sheet) (l : Sheet) where
  -- A sheet of another pattern leaves a group as it is.
  pub IsGroup-other :
      (g : Group) → alike l g.layout ≡ false → IsGroup layouts g → IsGroup (layouts ++ l ∷ []) g
  IsGroup-other g d h =
      let e : members (layouts ++ l ∷ []) g ≡ members layouts g =
        filter_by-append (λ x. alike x g.layout) layouts (l ∷ []) ∙ rw d (append_nil _) in
      record {
        others = h.others;
        first = e ∙ h.first;
        counted = rw e h.counted;
        numbered = rw e h.numbered;
        keyed = h.keyed;
      }

  -- One of the group's pattern joins it.
  pub IsGroup-one_more :
      (g : Group)
      → alike l g.layout ≡ true
      → IsGroup layouts g
      → IsGroup (layouts ++ l ∷ []) (one_more l.sheet_number g)
  unfolding one_more
  IsGroup-one_more g d h =
      let e : members (layouts ++ l ∷ []) g ≡ members layouts g ++ l ∷ [] =
        filter_by-append (λ x. alike x g.layout) layouts (l ∷ []) ∙ rw d refl in
      let n = length-append (members layouts g) (l ∷ []) in
      record {
        others = h.others ++ l ∷ [];
        first = e ∙ ap (λ xs. xs ++ l ∷ []) h.first;
        counted = rw e (omega (arith, h.counted, n));
        numbered = rw (e, map-append) (ap (λ xs. xs ++ l.sheet_number ∷ []) h.numbered);
        keyed = h.keyed;
      }

  -- A pattern that no sheet had yet.
  pub IsGroup-new :
      (n : ℕ)
      → filter_by (λ x. alike x l) layouts ≡ []
      → IsGroup (layouts ++ l ∷ []) (new_group n l)
  unfolding new_group
  IsGroup-new n none_yet =
      let own = same_layout_refl (layout_signature l) in
      let e : filter_by (λ x. alike x l) (layouts ++ l ∷ []) ≡ l ∷ [] =
        filter_by-append (λ x. alike x l) layouts (l ∷ []) ∙ rw (none_yet, own) refl in
      record { others = []; first = e; counted = rw e refl; numbered = rw e refl; keyed = refl }
