-- ===== src/Cutting/Packer/Choice.antt =====
-- Which free rectangle `_place_piece` takes: one that the piece fits, with the least score of all
-- the rectangles and orientations that it fits.
use opticutter_api.Prelude.{
  ℕ, suc, ◌≡◌, refl, Bool, true, false, Option, none, some, List, [], ◌∷◌, ◌++◌, arith, All,
  Bool-cases, inl, inr, get_elem?, get_elem?-middle, length, length-append, append_assoc,
}
use opticutter_api.Cutting.Models.{Rectangle, Piece, Selection}
use opticutter_api.Cutting.Packer.Place.{
  lex_lt, Best, fits, score_of, improve, try_orientation, scan,
}

lex_lt_trans : (a b c : List ℕ) → lex_lt a b ≡ true → lex_lt b c ≡ true → lex_lt a c ≡ true
unfolding lex_lt
lex_lt_trans [] [] c h k = cc
lex_lt_trans [] (y ∷ b) [] h k = cc
lex_lt_trans [] (y ∷ b) (z ∷ c) h k = refl
lex_lt_trans (x ∷ a) [] c h k = cc
lex_lt_trans (x ∷ a) (y ∷ b) [] h k = cc
lex_lt_trans (x ∷ a) (y ∷ b) (z ∷ c) h k = ground (arith, lex_lt_trans a b c)

lex_lt_irrefl : (a : List ℕ) → lex_lt a a ≡ false
unfolding lex_lt
lex_lt_irrefl [] = refl
lex_lt_irrefl (x ∷ a) = ground (arith, lex_lt_irrefl a)

module _ (sel : Selection) (p : Piece) where
  -- After the loop has seen `rect` turned `rotated`: it does not fit, or does not beat the best.
  abbrev pub Covered : Rectangle → Bool → Option Best → Type 0
  Covered rect rotated none = fits p rotated rect ≡ false
  Covered rect rotated (some best) =
      fits p rotated rect ≡ true → lex_lt (score_of sel p rotated rect) best.score ≡ false

  -- The best is a rectangle of `all` that the piece fits, with its score.
  pub record IsChosen (all : List Rectangle) (best : Best) : Type 0 where
    pub rect : Rectangle
    pub found : get_elem? all best.index ≡ some rect
    pub fitting : fits p best.rotated rect ≡ true
    pub scored : best.score ≡ score_of sel p best.rotated rect

  try-Covered_new :
      (i : ℕ) (rect : Rectangle) (rotated : Bool) (best : Option Best)
      → Covered rect rotated (try_orientation sel p i rect rotated best)
  unfolding try_orientation improve
  try-Covered_new i rect rotated none = ground (arith, lex_lt_irrefl (score_of sel p rotated rect))
  try-Covered_new i rect rotated (some best) =
      ground (arith, lex_lt_irrefl (score_of sel p rotated rect))

  try-Covered_old :
      (i : ℕ) (r rect : Rectangle) (turned rotated : Bool) (best : Option Best)
      → Covered r turned best
      → Covered r turned (try_orientation sel p i rect rotated best)
  unfolding try_orientation improve
  try-Covered_old i r rect turned rotated none h = ground arith
  try-Covered_old i r rect turned rotated (some best) h =
      ground
        (arith, lex_lt_trans (score_of sel p turned r) (score_of sel p rotated rect) best.score)

  abbrev pub Both : Rectangle → Option Best → Type 0
  Both rect best = Covered rect false best × Covered rect true best

  scan-Both_old :
      (i : ℕ) (rects : List Rectangle) (r : Rectangle) (best : Option Best)
      → Both r best
      → Both r (scan sel p i rects best)
  unfolding scan
  scan-Both_old i [] r best h = h
  scan-Both_old i (rect ∷ rects) r best h =
      let after = try_orientation sel p i rect false best in
      let old = λ (turned : Bool) (b : Covered r turned best).
        try-Covered_old i r rect turned true after (try-Covered_old i r rect turned false best b) in
      scan-Both_old (suc i) rects r (try_orientation sel p i rect true after)
        (old false h.0, old true h.1)

  -- Every rectangle that the loop has seen is covered by its result.
  pub scan-Both :
      (i : ℕ) (rects : List Rectangle) (best : Option Best)
      → All (λ r. Both r (scan sel p i rects best)) rects
  unfolding scan
  scan-Both i [] best = tt
  scan-Both i (rect ∷ rects) best =
      let after = try_orientation sel p i rect false best in
      (
        scan-Both_old (suc i) rects rect (try_orientation sel p i rect true after) (
          try-Covered_old i rect rect false true after (try-Covered_new i rect false best),
          try-Covered_new i rect true after,
        ),
        scan-Both (suc i) rects (try_orientation sel p i rect true after),
      )

  abbrev pub AllChosen : List Rectangle → Option Best → Type 0
  AllChosen all none = Unit
  AllChosen all (some best) = IsChosen all best

  try-AllChosen :
      (all : List Rectangle) (i : ℕ) (rect : Rectangle) (rotated : Bool) (best : Option Best)
      → get_elem? all i ≡ some rect
      → AllChosen all best
      → AllChosen all (try_orientation sel p i rect rotated best)
  unfolding try_orientation improve
  try-AllChosen all i rect rotated none e h = elim (Bool-cases (fits p rotated rect)) [
    | inl f ↦ rw f (record { rect = rect; found = e; fitting = f; scored = refl })
    | inr f ↦ rw f tt
  ]
  try-AllChosen all i rect rotated (some best) e h = elim (Bool-cases (fits p rotated rect)) [
    | inl f ↦ rw f (elim (Bool-cases (lex_lt (score_of sel p rotated rect) best.score)) [
      | inl l ↦ rw l (record { rect = rect; found = e; fitting = f; scored = refl })
      | inr l ↦ rw l h
    ])
    | inr f ↦ rw f h
  ]

  pub scan-AllChosen :
      (all before : List Rectangle) (i : ℕ) (rects : List Rectangle) (best : Option Best)
      → i ≡ length before
      → all ≡ before ++ rects
      → AllChosen all best
      → AllChosen all (scan sel p i rects best)
  unfolding scan
  scan-AllChosen all before i [] best e split h = h
  scan-AllChosen all before i (rect ∷ rects) best e split h =
      let at : get_elem? all i ≡ some rect = rw split (rw e (get_elem?-middle before rects rect)) in
      scan-AllChosen all (before ++ rect ∷ []) (suc i) rects _
        (omega (arith, length-append before (rect ∷ [])))
        (cc (append_assoc before (rect ∷ []) rects))
        (try-AllChosen all i rect true _ at (try-AllChosen all i rect false best at h))
