-- ===== src/Cutting/Constructors/Pool.antt =====
-- `strip_fill` and `greedy_fill`: no piece of the pool is lost, changed, or cut twice.
use opticutter_api.Prelude.{
  ℕ, suc, ◌≤◌, ◌≡◌, refl, sym, ap, ◌∙◌, Bool, true, not, Bool-cases, inl, inr, Option, none, some,
  List, [], ◌∷◌, ◌++◌, map, map-append, append_assoc, All, All-filter_by, All-perm,
  Pairwise-filter_by, Permᴰ, any_by, all_by, filter_by, sort_by, sort_by-perm, ◌==◌, ◌||◌, leb,
  arith,
}
use mathlib.Core.List.Permᴰ
use opticutter_api.Cutting.Models.{Piece, PlacedPiece}
use opticutter_api.Cutting.Packer.Expand.{expand_pieces}
use opticutter_api.Cutting.Packer.ExpandLaws.{expand_pieces-eq-expand_all, expand_all-singles}
use opticutter_api.Cutting.Constructors.Order.{same_id, key_lt}
use opticutter_api.Cutting.Constructors.Fill.{BinFill, ids_of}
use opticutter_api.Cutting.Constructors.Strip.{
  StripJob, axis_room, usable_w, usable_h, mat_w, mat_h, fits_strip, strip_key, Strip, moved_piece,
  translate,
}
use opticutter_api.Cutting.Constructors.Rounds.{
  Progress, empty_bin, offset_x, offset_y, with_strip, commit, tail_of, close, strip_fill,
}
use opticutter_api.Cutting.Constructors.Packs.{MayBe, Chosen}
use opticutter_api.Cutting.Constructors.Filled.{room_left, fill_strips-keeps}
use opticutter_api.Cutting.Constructors.Pieces.{AreDistinct, pieces, partition-perm, taken_perm}

abbrev pub AreSingle : List Piece → Type 0
AreSingle ps = All (λ p. p.quantity ≡ 1) ps

singles-all_by : (ps : List Piece) → AreSingle ps → all_by (λ p. p.quantity == 1) ps ≡ true
singles-all_by [] h = refl
singles-all_by (p ∷ ps) h = ground (arith, singles-all_by ps h.1)

expand_pieces-singles : (ps : List Piece) → AreSingle ps → expand_pieces ps ≡ ps
expand_pieces-singles ps h =
    expand_pieces-eq-expand_all ps ∙ expand_all-singles ps (singles-all_by ps h)

pieces_moved :
    (dx dy : ℕ) (placed : List PlacedPiece)
    → pieces (map (moved_piece dx dy) placed) ≡ pieces placed
pieces_moved dx dy [] = refl
pieces_moved dx dy (pp ∷ pps) = rw (pieces_moved dx dy pps) refl

-- The placed pieces and what remains are the pool.
record IsShared (pool : List Piece) (pr : Progress) : Type 0 where
  whole : Permᴰ (pieces pr.sheet.placed_pieces ++ pr.remaining) pool
  distinct : AreDistinct pr.remaining
  single : AreSingle pr.remaining

module _ (j : StripJob) (remaining : List Piece) (distinct : AreDistinct remaining)
    (single : AreSingle remaining) (room : ℕ) (strip : Strip)
    (chosen : Chosen j remaining room strip) where
  abbrev fits_it : Piece → Bool
  fits_it = fits_strip (mat_w j strip.size) (mat_h j strip.size)

  abbrev ordered : List Piece
  ordered = sort_by (key_lt (strip_key j strip.size)) (filter_by fits_it remaining)

  ordered-perm : Permᴰ ordered (filter_by fits_it remaining)
  ordered-perm = sort_by-perm (key_lt (strip_key j strip.size)) (filter_by fits_it remaining)

  -- What is left is what the strip did not take, each piece as often.
  strip-perm :
      Permᴰ
        (pieces strip.placed
          ++ filter_by (λ p. not (any_by (same_id p.id) (ids_of strip.placed))) remaining)
        remaining
  strip-perm =
      let pack = chosen.0.pack in
      let alone : AreSingle ordered =
        All-perm _ (Permᴰ.symm ordered-perm) (All-filter_by _ fits_it remaining single) in
      let e = expand_pieces-singles ordered alone in
      let fit = Permᴰ.trans (rw e at pack.pieces) ordered-perm in
      let misfits = filter_by (λ x. not (fits_it x)) remaining in
      let all = Permᴰ.trans (Permᴰ.append_right misfits fit) (partition-perm fits_it remaining) in
      taken_perm strip.placed (pack.unplaced ++ misfits) remaining distinct (rw append_assoc at all)

commit-IsShared :
    (pool : List Piece) (j : StripJob) (pr : Progress) (room : ℕ) (strip : Strip)
    → pr.room ≡ some room
    → j.min_rect_size ≤ room
    → Chosen j pr.remaining room strip
    → IsShared pool pr
    → IsShared pool (commit j pr room strip)
unfolding commit with_strip translate
commit-IsShared pool j pr room strip _ _ chosen h =
    let kept = λ (p : Piece). not (any_by (same_id p.id) (ids_of strip.placed)) in
    let dx = offset_x j pr.cursor in
    let dy = offset_y j pr.cursor in
    let old = pr.sheet.placed_pieces in
    let shown : pieces (map (moved_piece dx dy) strip.packer.placed_pieces) ≡ pieces strip.placed =
      pieces_moved dx dy strip.packer.placed_pieces ∙ sym (ap pieces chosen.0.pack.shown) in
    let e : pieces (old ++ map (moved_piece dx dy) strip.packer.placed_pieces)
          ++ filter_by kept pr.remaining
        ≡ pieces old ++ (pieces strip.placed ++ filter_by kept pr.remaining) =
      rw (map-append, shown, append_assoc) refl in
    record {
      whole = rw e (
          Permᴰ.trans
            (Permᴰ.append_left (pieces old)
              (strip-perm j pr.remaining h.distinct h.single room strip chosen))
            h.whole);
      distinct = Pairwise-filter_by _ kept pr.remaining h.distinct;
      single = All-filter_by _ kept pr.remaining h.single;
    }

-- The fill's pieces and some rest are the pool.
abbrev pub Shares : List Piece → BinFill → Type 0
Shares pool f = (rest : List Piece) × Permᴰ (pieces f.placed ++ rest) pool

close-Shares :
    (j : StripJob) (pool : List Piece) (pr : Progress)
    → IsShared pool pr
    → MayBe (Shares pool) (close j pr)
unfolding close
close-Shares j pool pr h = go pr.sheet.placed_pieces h.whole
  where
    go :
        (placed : List PlacedPiece)
        → Permᴰ (pieces placed ++ pr.remaining) pool
        → MayBe (Shares pool) (elim placed [
          | [] ↦ none
          | pp ∷ pps ↦ some (record {
            spec = j.spec;
            placed = pp ∷ pps;
            remainders = pr.sheet.remainders ++ tail_of j pr;
            cuts = pr.sheet.cuts;
          })
        ])
    go [] p = tt
    go (pp ∷ pps) p = (pr.remaining, p)

-- From a pool of single pieces whose ids differ, `strip_fill` always returns, and the pieces of the
-- fill that it returns, if any, are pieces of the pool, none of them cut twice.
pub strip_fill-Shares :
    (pool : List Piece) (j : StripJob)
    → AreDistinct pool
    → AreSingle pool
    → (o : Option BinFill) × (strip_fill pool j ≡ some o) × MayBe (Shares pool) o
unfolding strip_fill
strip_fill-Shares pool j distinct single =
    elim (Bool-cases (leb (usable_w j) 0 || leb (usable_h j) 0)) [
      | inl e ↦ rw e (none, refl, tt)
      | inr e ↦
          let begin : IsShared pool (empty_bin j pool) = record {
            whole = Permᴰ.refl pool;
            distinct = distinct;
            single = single;
          } in
          let (pr, done, h) =
            fill_strips-keeps j (IsShared pool) (commit-IsShared pool j) (suc (suc (axis_room j)))
              (empty_bin j pool) (unfold room_left in omega arith) begin in
          rw e (close j pr, rw done refl, close-Shares j pool pr h)
    ]
