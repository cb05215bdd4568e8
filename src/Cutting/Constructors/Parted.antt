-- ===== src/Cutting/Constructors/Parted.antt =====
-- Contents of a sheet that keep their distance, and what moving them keeps.
use opticutter_api.Prelude.{
  ℕ, ◌+◌, ◌≡◌, refl, Bool-cases, inl, inr, List, [], ◌∷◌, map, All, Pairwise, All-mono, All-map,
  map-append, arith,
}
use opticutter_api.Cutting.Models.{Rectangle, Cut, PlacedPiece}
use opticutter_api.Cutting.Geometry.{
  Box, rectangle_box, placed_box, blade_box, Within, Apart, Within-trans,
}
use opticutter_api.Cutting.Packer.Split.{Settings, State}
use opticutter_api.Cutting.Packer.Invariant.{boxes, IsLegal, IsSound}
use opticutter_api.Cutting.Constructors.Strip.{moved_piece, moved_cut, moved_rectangle, translate}

-- Pieces and free rectangles lie in the box, a kerf apart, and no blade pass enters any of them.
pub record IsParted (kerf : ℕ) (usable : Box) (s : State) : Type 0 where
  pub inside : All (Within usable) (boxes s)
  pub apart : Pairwise (Apart kerf) (boxes s)
  pub clear : All (λ cut. All (Apart 0 (blade_box kerf cut)) (boxes s)) s.cuts
  pub legal : All IsLegal s.placed_pieces

pub IsSound-IsParted :
    (c : Settings) (kerf : ℕ) (usable : Box) (s : State)
    → c.kerf ≡ kerf
    → IsSound c usable s
    → IsParted kerf usable s
IsSound-IsParted c kerf usable s e h = record {
  inside = h.inside;
  apart = rw e at h.apart;
  clear = rw e at h.clear;
  legal = h.legal;
}

abbrev pub moved_box : ℕ → ℕ → Box → Box
moved_box dx dy b = record { x0 = b.x0 + dx; y0 = b.y0 + dy; x1 = b.x1 + dx; y1 = b.y1 + dy }

module _ (dx dy : ℕ) where
  shift : (a d w : ℕ) → a + d + w ≡ a + w + d
  shift a d w = omega arith

  rectangles_moved :
      (rs : List Rectangle)
      → map rectangle_box (map (moved_rectangle dx dy) rs)
        ≡ map (moved_box dx dy) (map rectangle_box rs)
  rectangles_moved [] = refl
  rectangles_moved (r ∷ rs) =
      rw (rectangles_moved rs, shift r.x dx r.width, shift r.y dy r.height) refl

  pieces_moved :
      (ps : List PlacedPiece)
      → map placed_box (map (moved_piece dx dy) ps) ≡ map (moved_box dx dy) (map placed_box ps)
  pieces_moved [] = refl
  pieces_moved (p ∷ ps) = rw (pieces_moved ps, shift p.x dx p.width, shift p.y dy p.height) refl

  pub blade_box-moved_cut :
      (kerf : ℕ) (c : Cut) → blade_box kerf (moved_cut dx dy c) ≡ moved_box dx dy (blade_box kerf c)
  blade_box-moved_cut kerf c = elim (Bool-cases c.is_horizontal) [
    | inl e ↦ rw (e, shift c.x dx c.length, shift c.y dy kerf) refl
    | inr e ↦ rw (e, shift c.y dy c.length, shift c.x dx kerf) refl
  ]

  pub boxes-translate : (s : State) → boxes (translate dx dy s) ≡ map (moved_box dx dy) (boxes s)
  unfolding translate
  boxes-translate s =
      rw (rectangles_moved s.remainders, pieces_moved s.placed_pieces, map-append) refl

  Apart-moved_box :
      (gap : ℕ) (a b : Box) → Apart gap a b → Apart gap (moved_box dx dy a) (moved_box dx dy b)
  Apart-moved_box gap a b (inl (inl h)) = inl (inl (omega arith))
  Apart-moved_box gap a b (inl (inr h)) = inl (inr (omega arith))
  Apart-moved_box gap a b (inr (inl h)) = inr (inl (omega arith))
  Apart-moved_box gap a b (inr (inr h)) = inr (inr (omega arith))

  All-moved_box :
      (P Q : Box → Type 0)
      → ((b : Box) → P b → Q (moved_box dx dy b))
      → (bs : List Box) → All P bs
      → All Q (map (moved_box dx dy) bs)
  All-moved_box P Q f bs h = All-map Q (moved_box dx dy) bs (All-mono f bs h)

  Pairwise-moved_box :
      (gap : ℕ) (bs : List Box)
      → Pairwise (Apart gap) bs
      → Pairwise (Apart gap) (map (moved_box dx dy) bs)
  Pairwise-moved_box gap [] h = tt
  Pairwise-moved_box gap (b ∷ bs) h = (
    All-moved_box (Apart gap b) _ (λ o a. Apart-moved_box gap b o a) bs h.0,
    Pairwise-moved_box gap bs h.1,
  )

  IsLegal-moved_piece :
      (ps : List PlacedPiece) → All IsLegal ps → All IsLegal (map (moved_piece dx dy) ps)
  IsLegal-moved_piece [] h = tt
  IsLegal-moved_piece (p ∷ ps) h = (h.0, IsLegal-moved_piece ps h.1)

  clear_moved :
      (kerf : ℕ) (cuts : List Cut) (bs : List Box)
      → All (λ cut. All (Apart 0 (blade_box kerf cut)) bs) cuts
      → All
          (λ cut. All (Apart 0 (blade_box kerf cut)) (map (moved_box dx dy) bs))
          (map (moved_cut dx dy) cuts)
  clear_moved kerf [] bs h = tt
  clear_moved kerf (cut ∷ cuts) bs h = (
    rw (blade_box-moved_cut kerf cut) (
        All-moved_box (Apart 0 (blade_box kerf cut)) _
          (λ o t. Apart-moved_box 0 (blade_box kerf cut) o t) bs h.0),
    clear_moved kerf cuts bs h.1,
  )

  pub translate-IsParted :
      (kerf : ℕ) (usable : Box) (s : State)
      → IsParted kerf usable s
      → IsParted kerf (moved_box dx dy usable) (translate dx dy s)
  unfolding translate
  translate-IsParted kerf usable s h =
      let e = boxes-translate s in
      record {
        inside = rw e (All-moved_box (Within usable) _ (λ b w. omega arith) (boxes s) h.inside);
        apart = rw e (Pairwise-moved_box kerf (boxes s) h.apart);
        clear = rw e (clear_moved kerf s.cuts (boxes s) h.clear);
        legal = IsLegal-moved_piece s.placed_pieces h.legal;
      }

  pub blades_moved :
      (kerf : ℕ) (area : Box) (cuts : List Cut)
      → All (λ cut. Within area (blade_box kerf cut)) cuts
      → All (λ cut. Within (moved_box dx dy area) (blade_box kerf cut)) (map (moved_cut dx dy) cuts)
  blades_moved kerf area [] h = tt
  blades_moved kerf area (cut ∷ cuts) h =
      (rw (blade_box-moved_cut kerf cut) (omega arith), blades_moved kerf area cuts h.1)

pub IsParted-mono :
    (kerf : ℕ) (outer inner : Box) (s : State)
    → Within outer inner
    → IsParted kerf inner s
    → IsParted kerf outer s
IsParted-mono kerf outer inner s w h = record {
  inside = All-mono (λ b v. Within-trans outer inner b w v) (boxes s) h.inside;
  apart = h.apart;
  clear = h.clear;
  legal = h.legal;
}
