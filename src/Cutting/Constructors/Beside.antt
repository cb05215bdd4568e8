-- ===== src/Cutting/Constructors/Beside.antt =====
-- Two contents of a sheet beside one another, along the axis on which the strips advance.
use opticutter_api.Prelude.{
  ℕ, ◌+◌, ◌≤◌, ◌≡◌, Bool, true, false, inl, inr, List, [], ◌∷◌, ◌++◌, map, All, Permᴰ, All-append,
  All-perm, All-mono, Pairwise-append, Pairwise-perm, map-append, append_assoc, arith,
  if◌then◌else◌,
}
use mathlib.Core.List.Permᴰ
use opticutter_api.Cutting.Models.{Cut}
use opticutter_api.Cutting.Geometry.{Box, rectangle_box, placed_box, blade_box, Apart, Apart-sym}
use opticutter_api.Cutting.Packer.Split.{State}
use opticutter_api.Cutting.Packer.Invariant.{boxes, IsLegal}
use opticutter_api.Cutting.Constructors.Parted.{IsParted}

-- Where a box begins and ends along the axis on which the strips advance.
abbrev pub low : Bool → Box → ℕ
low horizontal b = if horizontal then b.y0 else b.x0

abbrev pub high : Bool → Box → ℕ
high horizontal b = if horizontal then b.y1 else b.x1

pub high-low-Apart : (h : Bool) (gap : ℕ) (a b : Box) → high h a + gap ≤ low h b → Apart gap a b
high-low-Apart true gap a b l = inr (inl l)
high-low-Apart false gap a b l = inl (inl l)

-- The contents of two sheets on one.
abbrev pub joined : State → State → State
joined s t = record {
  remainders = s.remainders ++ t.remainders;
  placed_pieces = s.placed_pieces ++ t.placed_pieces;
  cuts = s.cuts ++ t.cuts;
}

shuffle {ℓ} :
    {A : Type ℓ} (r r' p p' : List A) → Permᴰ ((r ++ r') ++ (p ++ p')) ((r ++ p) ++ (r' ++ p'))
shuffle r r' p p' =
    let e : (r ++ r') ++ (p ++ p') ≡ r ++ ((r' ++ p) ++ p') = simp append_assoc in
    let e' : r ++ ((p ++ r') ++ p') ≡ (r ++ p) ++ (r' ++ p') = simp append_assoc in
    rw e (rw e' at (Permᴰ.append_left r (Permᴰ.append_right p' (Permᴰ.append_comm r' p))))

pub boxes-joined : (s t : State) → Permᴰ (boxes (joined s t)) (boxes s ++ boxes t)
boxes-joined s t =
    rw (map-append, map-append)
      (shuffle (map rectangle_box s.remainders) (map rectangle_box t.remainders)
        (map placed_box s.placed_pieces) (map placed_box t.placed_pieces))

-- Two contents side by side along the axis, `at` being where the second one begins.
module _ (h : Bool) (kerf : ℕ) (usable : Box) (at : ℕ) (s t : State) (left : IsParted kerf usable s)
    (right : IsParted kerf usable t) (behind : All (λ b. high h b + kerf ≤ at) (boxes s))
    (ahead : All (λ b. at ≤ low h b) (boxes t)) where
  between :
      (as' bs : List Box)
      → All (λ b. high h b + kerf ≤ at) as'
      → All (λ b. at ≤ low h b) bs
      → All (λ a. All (Apart kerf a) bs) as'
  between [] bs l r = tt
  between (a ∷ as') bs l r =
      (All-mono (λ b m. high-low-Apart h kerf a b (omega (arith, l.0))) bs r, between as' bs l.1 r)

  blades_behind :
      (cuts : List Cut) (bs : List Box)
      → All (λ cut. high h (blade_box kerf cut) ≤ at) cuts
      → All (λ b. at ≤ low h b) bs
      → All (λ cut. All (Apart 0 (blade_box kerf cut)) (boxes s)) cuts
      → All (λ cut. All (Apart 0 (blade_box kerf cut)) (boxes s ++ bs)) cuts
  blades_behind [] bs l r c = tt
  blades_behind (cut ∷ cuts) bs l r c = (
    All-append _ (boxes s) bs c.0
        (All-mono (λ b m. high-low-Apart h 0 (blade_box kerf cut) b (omega (arith, l.0))) bs r),
    blades_behind cuts bs l.1 r c.1,
  )

  blades_ahead :
      (cuts : List Cut) (bs : List Box)
      → All (λ cut. at ≤ low h (blade_box kerf cut)) cuts
      → All (λ b. high h b + kerf ≤ at) bs
      → All (λ cut. All (Apart 0 (blade_box kerf cut)) (boxes t)) cuts
      → All (λ cut. All (Apart 0 (blade_box kerf cut)) (bs ++ boxes t)) cuts
  blades_ahead [] bs l r c = tt
  blades_ahead (cut ∷ cuts) bs l r c = (
    All-append _ bs (boxes t)
        (All-mono
          (λ b m.
            Apart-sym 0 b (blade_box kerf cut)
              (high-low-Apart h 0 b (blade_box kerf cut) (omega (arith, l.0))))
          bs r)
        c.0,
    blades_ahead cuts bs l.1 r c.1,
  )

  pub joined-IsParted :
      All (λ cut. high h (blade_box kerf cut) ≤ at) s.cuts
      → All (λ cut. at ≤ low h (blade_box kerf cut)) t.cuts
      → IsParted kerf usable (joined s t)
  joined-IsParted cuts cuts' =
      let back = Permᴰ.symm (boxes-joined s t) in
      record {
        inside = All-perm _ back (All-append _ (boxes s) (boxes t) left.inside right.inside);
        apart = Pairwise-perm (Apart kerf) (Apart-sym kerf) back (
            Pairwise-append (Apart kerf) (Apart-sym kerf) (boxes s) (boxes t) left.apart right.apart
              (between (boxes s) (boxes t) behind ahead));
        clear =
            All-append _ s.cuts t.cuts
              (All-mono (λ cut a. All-perm (Apart 0 (blade_box kerf cut)) back a) s.cuts
                (blades_behind s.cuts (boxes t) cuts ahead left.clear))
              (All-mono (λ cut a. All-perm (Apart 0 (blade_box kerf cut)) back a) t.cuts
                (blades_ahead t.cuts (boxes s) cuts' behind right.clear));
        legal = All-append IsLegal s.placed_pieces t.placed_pieces left.legal right.legal;
      }
