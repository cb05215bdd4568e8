-- ===== src/Orders/Owed.antt =====
-- Who is owed pieces, and what a mark on a piece changes in the count of them.
use opticutter_api.Prelude.{
  ℕ, suc, ◌≤◌, ◌≡◌, refl, ◌∙◌, ap, inl, inr, Bool, true, false, List, [], ◌∷◌, length, Option, some,
  arith, ◌==◌, filter_by, Bool-cases,
}
use opticutter_api.Orders.Status.{
  ActivityType, PieceSet, activity_pieces, pause_reasons_by_activity,
}
use opticutter_api.Orders.Model.{Activity, OrderPiece, Order}
use opticutter_api.Orders.Pauses.{
  waits_on_banding, banding_is_open, owes_pieces, piece_arrives, in_set, is_waiting,
}
use opticutter_api.Orders.Activities.{is_cut, pieces_left}
use opticutter_api.Orders.Registers.{find_piece, update_piece}

-- Who waits is owed pieces, by the saw or by an open banding.
abbrev pub IsOwed : Order → Activity → Type 0
IsOwed o a =
    is_waiting a ≡ true
    → owes_pieces a.kind (pieces_left o (activity_pieces a.kind)) (banding_is_open o.activities)
      ≡ true

some_piece : (p q : OrderPiece) → Option.some p ≡ some q → p ≡ q
some_piece p q h = cc

module _ (id : ℕ) (f : OrderPiece → OrderPiece) (s : PieceSet)
    (keeps : (p : OrderPiece) → in_set s (f p) ≡ in_set s p) where
  pub members_update :
      (ps : List OrderPiece)
      → length (filter_by (in_set s) (update_piece id f ps)) ≡ length (filter_by (in_set s) ps)
  unfolding update_piece
  members_update [] = refl
  members_update (p ∷ ps) =
      let k = keeps p in
      elim (Bool-cases (p.id == id)) [
        | inl e ↦
            rw (e, k) (elim (Bool-cases (in_set s p)) [ inl m ↦ rw m refl | inr m ↦ rw m refl ])
        | inr e ↦ rw e (elim (Bool-cases (in_set s p)) [
          | inl m ↦ rw m (ap suc (members_update ps))
          | inr m ↦ rw m (members_update ps)
        ])
      ]

  pub cut_elsewhere :
      (ps : List OrderPiece) (p : OrderPiece)
      → find_piece id ps ≡ some p
      → in_set s p ≡ false
      → filter_by (in_set s) (update_piece id f ps) ≡ filter_by (in_set s) ps
  unfolding update_piece find_piece
  cut_elsewhere [] p h out = refl
  cut_elsewhere (q ∷ qs) p h out = elim (Bool-cases (q.id == id)) [
    | inl e ↦
        let same = some_piece q p (rw e at h) in
        let q_out = ap (in_set s) same ∙ out in
        let fq_out = keeps q ∙ q_out in rw (e, fq_out, q_out) refl
    | inr e ↦ rw e (elim (Bool-cases (in_set s q)) [
      | inl m ↦ rw m (ap (λ ps. q ∷ ps) (cut_elsewhere qs p (rw e at h) out))
      | inr m ↦ rw m (cut_elsewhere qs p (rw e at h) out)
    ])
  ]

  pub fewer_cut :
      ((p : OrderPiece) → is_cut (f p) ≡ false)
      → (ps : List OrderPiece)
      → length (filter_by is_cut (filter_by (in_set s) (update_piece id f ps)))
        ≤ length (filter_by is_cut (filter_by (in_set s) ps))
  unfolding update_piece
  fewer_cut uncut [] = ground arith
  fewer_cut uncut (p ∷ ps) =
      let k = keeps p in
      let u = uncut p in
      elim (Bool-cases (p.id == id)) [
        | inl e ↦
            rw (e, k)
              (elim (Bool-cases (in_set s p)) [
                | inl m ↦
                    rw (m, u)
                      (elim (Bool-cases (is_cut p)) [
                        | inl c ↦ rw c (omega arith)
                        | inr c ↦ rw c (omega arith)
                      ])
                | inr m ↦ rw m (omega arith)
              ])
        | inr e ↦ rw e (elim (Bool-cases (in_set s p)) [
          | inl m ↦ rw m (elim (Bool-cases (is_cut p)) [
            | inl c ↦ rw c (omega (arith, fewer_cut uncut ps))
            | inr c ↦ rw c (fewer_cut uncut ps)
          ])
          | inr m ↦ rw m (fewer_cut uncut ps)
        ])
      ]

pub owes_pieces_mono :
    (t : ActivityType) (m n : ℕ) (b : Bool)
    → m ≤ n
    → owes_pieces t m b ≡ true
    → owes_pieces t n b ≡ true
unfolding owes_pieces pause_reasons_by_activity waits_on_banding
owes_pieces_mono t m n b le h = ground arith

-- What is not reached by the piece is owed as before, or by the banding.
pub owes_pieces-unreached :
    (t : ActivityType) (m n : ℕ) (member is_banded b : Bool)
    → piece_arrives t member is_banded b ≡ false
    → (member ≡ false → m ≡ n)
    → owes_pieces t m b ≡ true
    → owes_pieces t n b ≡ true
unfolding owes_pieces piece_arrives pause_reasons_by_activity waits_on_banding
owes_pieces-unreached t m n member is_banded b away same h = ground arith
