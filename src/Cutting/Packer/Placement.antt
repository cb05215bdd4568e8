-- ===== src/Cutting/Packer/Placement.antt =====
-- `_place_piece` as a choice: either it puts the piece into the best free rectangle that takes it,
-- or no free rectangle takes it and nothing changes.
use opticutter_api.Prelude.{
  ℕ, zero, suc, ◌≡◌, refl, Bool, true, false, Option, none, some, List, [], ◌∷◌, ◌++◌, All, Permᴰ,
  get_elem?, All-mono,
}
use mathlib.Core.List.Permᴰ
use opticutter_api.Cutting.Models.{Rectangle, Piece}
use opticutter_api.Cutting.Packer.Split.{Settings, State, pop_at, split_remainder}
use opticutter_api.Cutting.Packer.Place.{
  lex_lt, Best, fits, score_of, scan, put_piece, place_at, place_piece,
}
use opticutter_api.Cutting.Packer.Choice.{
  Covered, IsChosen, Both, scan-Both, AllChosen, scan-AllChosen,
}

pop_at-perm {ℓ} :
    {A : Type ℓ} (xs : List A) (i : ℕ) {x : A}
    → get_elem? xs i ≡ some x
    → (rest : List A) × (pop_at xs i ≡ some (x, rest)) × Permᴰ xs (x ∷ rest)
unfolding pop_at
pop_at-perm [] i e = cc
pop_at-perm (y ∷ xs) zero e = (xs, cc, Permᴰ.cons (cc) (Permᴰ.refl xs))
pop_at-perm (y ∷ xs) (suc i) e =
    let (rest, popped, p) = pop_at-perm xs i e in
    (y ∷ rest, rw popped, Permᴰ.trans (Permᴰ.cons refl p) (Permᴰ.swap refl refl))

-- The piece was put into a free rectangle of least score, and that rectangle was split.
pub record IsPlaced (c : Settings) (p : Piece) (s s' : State) : Type 0 where
  pub rect : Rectangle
  pub rest : List Rectangle
  pub rotated : Bool
  pub taken : Permᴰ s.remainders (rect ∷ rest)
  pub fitting : fits p rotated rect ≡ true
  pub least :
      All
        (λ r.
          (turned : Bool)
          → fits p turned r ≡ true
          → lex_lt (score_of c.selection p turned r) (score_of c.selection p rotated rect) ≡ false)
        s.remainders
  pub after :
      s'
      ≡ split_remainder c
          (record s { placed_pieces = s.placed_pieces ++ put_piece p rotated rect ∷ [] })
          rest
          rect
          (put_piece p rotated rect)

abbrev pub FitsNowhere : Piece → State → Type 0
FitsNowhere p s = All (λ r. (turned : Bool) → fits p turned r ≡ false) s.remainders

abbrev pub Outcome : Settings → Piece → State → Bool → State → Type 0
Outcome c p s true s' = IsPlaced c p s s'
Outcome c p s false s' = (s' ≡ s) × FitsNowhere p s

module _ (c : Settings) (p : Piece) (s : State) where
  both :
      (r : Rectangle) (o : Option Best)
      → Both c.selection p r o
      → (t : Bool) → Covered c.selection p r t o
  both r o h true = h.1
  both r o h false = h.0

  place_at-IsPlaced :
      (best : Best)
      → IsChosen c.selection p s.remainders best
      → All (λ r. Both c.selection p r (some best)) s.remainders
      → (s' : State) × (place_at c p s best ≡ some s') × IsPlaced c p s s'
  unfolding place_at
  place_at-IsPlaced best chosen covered =
      let (rest, popped, taken) = pop_at-perm s.remainders best.index chosen.found in
      (
        _,
        rw (popped, place_at),
        record {
          rect = chosen.rect;
          rest = rest;
          rotated = best.rotated;
          taken = taken;
          fitting = chosen.fitting;
          least =
              All-mono (λ r h t f. rw chosen.scored at (both r (some best) h t f)) s.remainders
                covered;
          after = refl;
        },
      )

  -- `_place_piece` always returns. Either it places the piece into a free rectangle that takes it,
  -- with the least score over all free rectangles and orientations that take it, and splits that
  -- rectangle; or no free rectangle takes the piece in any orientation, and nothing changes.
  pub place_piece-Outcome :
      (placed : Bool) × (s' : State) × (place_piece c p s ≡ some (placed, s'))
      × Outcome c p s placed s'
  unfolding place_piece
  place_piece-Outcome =
      go (scan c.selection p 0 s.remainders none) refl (scan-Both c.selection p 0 s.remainders none)
        (scan-AllChosen c.selection p s.remainders [] 0 s.remainders none refl refl tt)
    where
      go :
          (o : Option Best)
          → scan c.selection p 0 s.remainders none ≡ o
          → All (λ r. Both c.selection p r (scan c.selection p 0 s.remainders none)) s.remainders
          → AllChosen c.selection p s.remainders (scan c.selection p 0 s.remainders none)
          → (placed : Bool) × (s' : State) × (place_piece c p s ≡ some (placed, s'))
            × Outcome c p s placed s'
      go none e covered chosen = (
        false,
        s,
        rw (e, place_piece),
        (refl, All-mono (λ r h. both r none h) s.remainders (rw e at covered)),
      )
      go (some best) e covered chosen =
          let (s', at, done) = place_at-IsPlaced best (rw e at chosen) (rw e at covered) in
          (true, s', rw (e, place_piece) (rw at), done)
