-- ===== src/Cutting/Constructors/Rounds.antt =====
-- src/cutting/constructors.py, `strip_fill`: its loop, and the fill that it returns.
use opticutter_api.Prelude.{
  ℕ, zero, suc, ◌+◌, ◌-◌, max, Bool, true, false, not, ◌&&◌, ◌||◌, Option, none, some, List, [],
  ◌∷◌, ◌++◌, leb, ltb, ◌==◌, if◌then◌else◌, any_by, filter_by,
}
use opticutter_api.Cutting.Models.{Rectangle, Cut, Piece}
use opticutter_api.Cutting.Packer.Split.{State}
use opticutter_api.Cutting.Constructors.Order.{same_id, Signature, same_signature, count_in}
use opticutter_api.Cutting.Constructors.Fill.{BinFill, ids_of}
use opticutter_api.Cutting.Constructors.Strip.{
  strip_candidate_dims, translate, StripJob, usable_w, usable_h, axis_room, Strip, Repeats,
  best_strip,
}

-- The variables of the loop. `room` is `none` once it is negative.
pub record Progress : Type 0 where
  pub remaining : List Piece
  pub sheet : State
  pub cursor : ℕ
  pub room : Option ℕ
  pub first : Bool
  pub repeat_counts : Repeats

abbrev pub empty_bin : StripJob → List Piece → Progress
empty_bin j pool = record {
  remaining = pool;
  sheet = record { remainders = []; placed_pieces = []; cuts = [] };
  cursor = 0;
  room = some (axis_room j);
  first = true;
  repeat_counts = [];
}

-- `room - advance`
unfoldable pub minus : ℕ → ℕ → Option ℕ
minus room advance = if leb advance room then some (room - advance) else none

unfoldable pub sizes_to_try : StripJob → Bool → List ℕ → ℕ → List ℕ
sizes_to_try j first dims room =
    let candidates = if any_by (λ d. d == room) dims then dims else dims ++ room ∷ [] in
    elim j.first_dim [
      | none ↦ candidates
      | some d ↦ if first && leb d room then d ∷ [] else candidates
    ]

abbrev pub first_after : StripJob → Bool → Bool
first_after j first = elim j.first_dim [ none ↦ first | some _ ↦ false ]

abbrev pub offset_x : StripJob → ℕ → ℕ
offset_x j cursor =
    if j.horizontal then max 0 j.params.left_trim else max 0 j.params.left_trim + cursor

abbrev pub offset_y : StripJob → ℕ → ℕ
offset_y j cursor =
    if j.horizontal then max 0 j.params.bottom_trim + cursor else max 0 j.params.bottom_trim

-- The first-stage cut at `at` along the axis.
abbrev pub strip_cut : StripJob → ℕ → Cut
strip_cut j at = record {
  x = offset_x j at;
  y = offset_y j at;
  length = if j.horizontal then usable_w j else usable_h j;
  is_horizontal = j.horizontal;
}

unfoldable pub count_strip : Option Signature → Repeats → Repeats
count_strip none repeats = repeats
count_strip (some sig) repeats = count_in same_signature sig repeats

abbrev pub advance : StripJob → ℕ → ℕ → ℕ
advance j room size = if ltb size room then size + max 0 j.params.kerf else size

-- The sheet with a strip's contents on it, and the cut after the strip.
unfoldable pub with_strip : StripJob → State → ℕ → ℕ → Strip → State
with_strip j sheet cursor room strip =
    let moved = translate (offset_x j cursor) (offset_y j cursor) strip.packer in
    record {
      remainders = sheet.remainders ++ moved.remainders;
      placed_pieces = sheet.placed_pieces ++ moved.placed_pieces;
      cuts =
          (sheet.cuts ++ moved.cuts)
          ++ (if ltb strip.size room then strip_cut j (cursor + strip.size) ∷ [] else []);
    }

-- What follows the choice of the best strip.
unfoldable pub commit : StripJob → Progress → ℕ → Strip → Progress
commit j pr room strip =
    let step = advance j room strip.size in
    let ids = ids_of strip.placed in
    record {
      remaining = filter_by (λ p. not (any_by (same_id p.id) ids)) pr.remaining;
      sheet = with_strip j pr.sheet pr.cursor room strip;
      cursor = pr.cursor + step;
      room = minus room step;
      first = first_after j pr.first;
      repeat_counts = count_strip strip.strip_sig pr.repeat_counts;
    }

-- The body of the loop: an inner `none` is `break`.
unfoldable pub round : StripJob → Progress → ℕ → Option (Option Progress)
round j pr room = elim (strip_candidate_dims pr.remaining room j.horizontal) [
  | [] ↦ some none
  | d ∷ ds ↦
      elim (best_strip j pr.remaining pr.repeat_counts (sizes_to_try j pr.first (d ∷ ds) room)
        none) [
          | none ↦ none
          | some none ↦ some none
          | some (some strip) ↦ some (some (commit j pr room strip))
        ]
]

-- `while remaining and room >= min_rect_size`: the room of the round to come.
unfoldable pub next_room : StripJob → Progress → Option ℕ
next_room j pr = elim pr.remaining [
  | [] ↦ none
  | _ ∷ _ ↦ elim pr.room [
    | none ↦ none
    | some room ↦ if leb j.min_rect_size room then some room else none
  ]
]

-- The loop, on fuel; each round but the last narrows the room. The outer `none` is an IndexError,
-- or the end of the fuel.
unfoldable pub fill_strips : StripJob → ℕ → Progress → Option Progress
fill_strips j zero pr = none
fill_strips j (suc fuel) pr = elim (next_room j pr) [
  | none ↦ some pr
  | some room ↦ elim (round j pr room) [
    | none ↦ none
    | some none ↦ some pr
    | some (some pr') ↦ fill_strips j fuel pr'
  ]
]

-- The unopened tail of the bin.
unfoldable pub tail_of : StripJob → Progress → List Rectangle
tail_of j pr = elim pr.room [
  | none ↦ []
  | some room ↦
      if leb j.min_rect_size room
      then record {
        x = offset_x j pr.cursor;
        y = offset_y j pr.cursor;
        width = if j.horizontal then usable_w j else room;
        height = if j.horizontal then room else usable_h j;
      }
        ∷ []
      else []
]

unfoldable pub close : StripJob → Progress → Option BinFill
close j pr = elim pr.sheet.placed_pieces [
  | [] ↦ none
  | pp ∷ pps ↦ some (record {
    spec = j.spec;
    placed = pp ∷ pps;
    remainders = pr.sheet.remainders ++ tail_of j pr;
    cuts = pr.sheet.cuts;
  })
]

unfoldable pub strip_fill : List Piece → StripJob → Option (Option BinFill)
strip_fill pool j =
    if leb (usable_w j) 0 || leb (usable_h j) 0
    then some none
    else elim (fill_strips j (suc (suc (axis_room j))) (empty_bin j pool)) [
      | none ↦ none
      | some pr ↦ some (close j pr)
    ]
