-- ===== src/Cutting/Constructors/Advance.antt =====
-- `strip_fill`: a round puts its strip beside what the sheet holds, and leaves the rest open.
use opticutter_api.Prelude.{
  ℕ, ◌+◌, ◌-◌, ◌≤◌, ◌<◌, ◌≡◌, refl, Bool, true, false, Bool-cases, inl, inr, List, [], ◌∷◌, ◌++◌,
  All, All-append, All-mono, All-perm, append_assoc, max, ltb, arith, if◌then◌else◌,
}
use mathlib.Core.List.Permᴰ
use opticutter_api.Cutting.Models.{Cut, Piece, to_material}
use opticutter_api.Cutting.Geometry.{Box, blade_box, Within, Apart-sym, grown}
use opticutter_api.Cutting.Packer.Split.{State}
use opticutter_api.Cutting.Packer.Invariant.{boxes}
use opticutter_api.Cutting.Packer.Optimize.{usable_box}
use opticutter_api.Cutting.Constructors.Parted.{
  IsParted, IsParted-mono, moved_box, translate-IsParted, blades_moved,
}
use opticutter_api.Cutting.Constructors.Beside.{
  low, high, high-low-Apart, joined, boxes-joined, joined-IsParted,
}
use opticutter_api.Cutting.Constructors.Strip.{
  StripJob, usable_w, usable_h, axis_room, translate, Strip,
}
use opticutter_api.Cutting.Constructors.Packs.{strip_box, Chosen}
use opticutter_api.Cutting.Constructors.Rounds.{offset_x, offset_y, strip_cut, with_strip}

-- The sheet less its trims.
abbrev pub job_box : StripJob → Box
job_box j = usable_box (to_material j.spec) j.params

abbrev pub kerf_of : StripJob → ℕ
kerf_of j = max 0 j.params.kerf

-- Where the axis stands at the cursor.
abbrev pub position : StripJob → ℕ → ℕ
position j cursor = if j.horizontal then offset_y j cursor else offset_x j cursor

abbrev strip_at : StripJob → ℕ → ℕ → Box
strip_at j cursor size = moved_box (offset_x j cursor) (offset_y j cursor) (strip_box j size)

-- Room on both axes.
abbrev pub IsOpen : StripJob → Type 0
IsOpen j = (0 < usable_w j) × (0 < usable_h j)

strip_at_lem :
    (j : StripJob) (cursor size : ℕ)
    → IsOpen j
    → cursor + size ≤ axis_room j
    → Within (job_box j) (strip_at j cursor size)
      × (low j.horizontal (strip_at j cursor size) ≡ position j cursor)
      × (high j.horizontal (strip_at j cursor size) ≡ position j cursor + size)
strip_at_lem j cursor size room l = ground arith

strip_cut_lem :
    (j : StripJob) (at : ℕ)
    → (low j.horizontal (blade_box (kerf_of j) (strip_cut j at)) ≡ position j at)
      × (high j.horizontal (blade_box (kerf_of j) (strip_cut j at)) ≡ position j at + kerf_of j)
strip_cut_lem j at = ground arith

pub position_add : (j : StripJob) (m n : ℕ) → position j (m + n) ≡ position j m + n
position_add j m n = ground arith

low_mono : (h : Bool) (a b : Box) → Within a b → low h a ≤ low h b
low_mono true a b w = w.1
low_mono false a b w = w.0

high_mono : (h : Bool) (a b : Box) → Within a b → high h b ≤ high h a
high_mono true a b w = w.3
high_mono false a b w = w.2

high_grown :
    (h : Bool) (gap dx dy : ℕ) (b : Box)
    → (high h (moved_box dx dy (grown gap b)) ≡ high h (moved_box dx dy b) + gap)
      × (low h (moved_box dx dy (grown gap b)) ≡ low h (moved_box dx dy b))
high_grown true gap dx dy b = (omega arith, refl)
high_grown false gap dx dy b = (omega arith, refl)

-- The sheet's contents keep their distance, and lie a kerf before the cursor, blades included.
pub record IsBehind (j : StripJob) (sheet : State) (cursor room : ℕ) : Type 0 where
  pub behind : All (λ b. high j.horizontal b + kerf_of j ≤ position j cursor) (boxes sheet)
  pub blades :
      All (λ cut. high j.horizontal (blade_box (kerf_of j) cut) ≤ position j cursor) sheet.cuts
  pub total : cursor + room ≡ axis_room j

-- One more cut, which enters nothing.
with_cut : State → Cut → State
with_cut t cut = record t { cuts = t.cuts ++ cut ∷ [] }

module _ (j : StripJob) (sheet : State) (cursor room : ℕ) (open_job : IsOpen j)
    (old : IsParted (kerf_of j) (job_box j) sheet) (before : IsBehind j sheet cursor room)
    (remaining : List Piece) (strip : Strip) (chosen : Chosen j remaining room strip) where
  abbrev moved : State
  moved = translate (offset_x j cursor) (offset_y j cursor) strip.packer

  abbrev area : Box
  area = strip_at j cursor strip.size

  area_lem :
      Within (job_box j) area
      × (low j.horizontal area ≡ position j cursor)
      × (high j.horizontal area ≡ position j cursor + strip.size)
  area_lem = strip_at_lem j cursor strip.size open_job (omega (arith, before.total, chosen.1))

  moved-IsParted : IsParted (kerf_of j) area moved
  moved-IsParted =
      translate-IsParted (offset_x j cursor) (offset_y j cursor) (kerf_of j)
        (strip_box j strip.size) strip.packer chosen.0.pack.parted

  moved_low : All (λ b. position j cursor ≤ low j.horizontal b) (boxes moved)
  moved_low =
      All-mono (λ b w. omega (arith, low_mono j.horizontal area b w, area_lem.1)) (boxes moved)
        moved-IsParted.inside

  moved_high : All (λ b. high j.horizontal b ≤ position j cursor + strip.size) (boxes moved)
  moved_high =
      All-mono (λ b w. omega (arith, high_mono j.horizontal area b w, area_lem.2)) (boxes moved)
        moved-IsParted.inside

  moved_blades :
      All
        (λ cut.
          (position j cursor ≤ low j.horizontal (blade_box (kerf_of j) cut))
          × (high j.horizontal (blade_box (kerf_of j) cut)
              ≤ position j cursor + strip.size + kerf_of j))
        moved.cuts
  unfolding translate
  moved_blades =
      let g =
        high_grown j.horizontal (kerf_of j) (offset_x j cursor) (offset_y j cursor)
          (strip_box j strip.size) in
      let grown_area =
        moved_box (offset_x j cursor) (offset_y j cursor)
          (grown (kerf_of j) (strip_box j strip.size)) in
      All-mono
        (λ cut w. (
          omega (
            arith,
            low_mono j.horizontal grown_area (blade_box (kerf_of j) cut) w,
            g.1,
            area_lem.1,
          ),
          omega (
            arith,
            high_mono j.horizontal grown_area (blade_box (kerf_of j) cut) w,
            g.0,
            area_lem.2,
          ),
        ))
        _
        (blades_moved (offset_x j cursor) (offset_y j cursor) (kerf_of j) _ strip.packer.cuts
          chosen.0.pack.blades)

  abbrev last_cut : Cut
  last_cut = strip_cut j (cursor + strip.size)

  last_cut_lem :
      (low j.horizontal (blade_box (kerf_of j) last_cut) ≡ position j cursor + strip.size)
      × (high j.horizontal (blade_box (kerf_of j) last_cut)
          ≡ position j cursor + strip.size + kerf_of j)
  last_cut_lem =
      let (l, h) = strip_cut_lem j (cursor + strip.size) in
      (
        omega (arith, l, position_add j cursor strip.size),
        omega (arith, h, position_add j cursor strip.size),
      )

  abbrev added : List Cut
  added = if ltb strip.size room then last_cut ∷ [] else []

  abbrev right : State
  right = record {
    remainders = moved.remainders;
    placed_pieces = moved.placed_pieces;
    cuts = moved.cuts ++ added;
  }

  with_strip-joined : with_strip j sheet cursor room strip ≡ joined sheet right
  unfolding with_strip
  with_strip-joined = rw append_assoc refl

  -- What holds of the last cut holds of the cut that is added, if one is.
  added-All : (P : Cut → Type 0) → P last_cut → All P added
  added-All P h = elim (Bool-cases (ltb strip.size room)) [ inl e ↦ rw e (h, tt) | inr e ↦ rw e tt ]

  right-IsParted : IsParted (kerf_of j) (job_box j) right
  right-IsParted =
      let whole = IsParted-mono (kerf_of j) (job_box j) area moved area_lem.0 moved-IsParted in
      record {
        inside = whole.inside;
        apart = whole.apart;
        clear = All-append _ moved.cuts added whole.clear (
            added-All _ (
              All-mono
                (λ b l. Apart-sym 0 b (blade_box (kerf_of j) last_cut) (
                  high-low-Apart j.horizontal 0 b (blade_box (kerf_of j) last_cut)
                    (omega (arith, last_cut_lem.0))))
                (boxes moved) moved_high));
        legal = whole.legal;
      }

  right_blades :
      All (λ cut. position j cursor ≤ low j.horizontal (blade_box (kerf_of j) cut)) right.cuts
  right_blades =
      All-append _ moved.cuts added (All-mono (λ cut h. h.0) moved.cuts moved_blades)
        (added-All _ (omega (arith, last_cut_lem.0)))

  -- The sheet after the round keeps its distances.
  pub with_strip-IsParted : IsParted (kerf_of j) (job_box j) (with_strip j sheet cursor room strip)
  with_strip-IsParted = rw with_strip-joined (
      joined-IsParted j.horizontal (kerf_of j) (job_box j) (position j cursor) sheet right old
        right-IsParted before.behind moved_low before.blades right_blades)

  -- Where the strip leaves room, all of the sheet is a kerf before the next strip.
  pub with_strip-IsBehind :
      strip.size < room
      → strip.size + kerf_of j ≤ room
      → IsBehind j
          (with_strip j sheet cursor room strip)
          (cursor + (strip.size + kerf_of j))
          (room - (strip.size + kerf_of j))
  with_strip-IsBehind l k =
      let at = position_add j cursor (strip.size + kerf_of j) in
      rw with_strip-joined (record {
        behind = All-perm _ (Permᴰ.symm (boxes-joined sheet right)) (
            All-append _ (boxes sheet) (boxes moved)
              (All-mono (λ b m. omega (arith, at)) (boxes sheet) before.behind)
              (All-mono (λ b m. omega (arith, at)) (boxes moved) moved_high));
        blades =
            All-append _ sheet.cuts right.cuts
              (All-mono (λ cut m. omega (arith, at)) sheet.cuts before.blades)
              (All-append _ moved.cuts added
                (All-mono (λ cut m. omega (arith, at)) moved.cuts moved_blades)
                (added-All _ (omega (arith, at, last_cut_lem.1))));
        total = omega (arith, before.total);
      })
