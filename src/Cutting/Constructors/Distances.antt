-- ===== src/Cutting/Constructors/Distances.antt =====
-- `strip_fill` and `greedy_fill`: the fill keeps its distances.
use opticutter_api.Prelude.{
  ℕ, suc, ◌+◌, ◌≤◌, ◌<◌, ◌≡◌, refl, subst, true, Bool-cases, inl, inr, Option, none, some, List, [],
  ◌∷◌, ◌++◌, ◌||◌, ltb, leb, arith, if◌then◌else◌,
}
use opticutter_api.Cutting.Models.{Rectangle, Piece, PlacedPiece}
use opticutter_api.Cutting.Geometry.{Within, rectangle_box}
use opticutter_api.Cutting.Packer.Split.{State}
use opticutter_api.Cutting.Constructors.Fill.{BinFill}
use opticutter_api.Cutting.Constructors.Parted.{IsParted}
use opticutter_api.Cutting.Constructors.Beside.{low, joined-IsParted}
use opticutter_api.Cutting.Constructors.Strip.{StripJob, usable_w, usable_h, axis_room, Strip}
use opticutter_api.Cutting.Constructors.Packs.{MayBe, Chosen}
use opticutter_api.Cutting.Constructors.Rounds.{
  Progress, empty_bin, minus, advance, commit, tail_of, close, strip_fill, with_strip, offset_x,
  offset_y,
}
use opticutter_api.Cutting.Constructors.Advance.{
  job_box, kerf_of, position, IsOpen, IsBehind, with_strip-IsParted, with_strip-IsBehind,
}
use opticutter_api.Cutting.Constructors.Filled.{room_left, fill_strips-keeps}

-- What a fill puts on its sheet.
abbrev pub contents : BinFill → State
contents f = record { remainders = f.remainders; placed_pieces = f.placed; cuts = f.cuts }

record IsGoing (j : StripJob) (pr : Progress) : Type 0 where
  parted : IsParted (kerf_of j) (job_box j) pr.sheet
  going : MayBe (λ room. 0 < room → IsBehind j pr.sheet pr.cursor room) pr.room

module _ (j : StripJob) (open_job : IsOpen j) (least : 0 < j.min_rect_size) where
  empty_bin-IsGoing : (pool : List Piece) → IsGoing j (empty_bin j pool)
  empty_bin-IsGoing pool = record {
    parted = record { inside = tt; apart = tt; clear = tt; legal = tt };
    going = λ _. record { behind = tt; blades = tt; total = omega arith };
  }

  minus-IsBehind :
      (pr : Progress) (room : ℕ) (strip : Strip)
      → IsParted (kerf_of j) (job_box j) pr.sheet
      → IsBehind j pr.sheet pr.cursor room
      → Chosen j pr.remaining room strip
      → MayBe
          (λ left.
            0 < left
            → IsBehind j
                (with_strip j pr.sheet pr.cursor room strip)
                (pr.cursor + advance j room strip.size)
                left)
          (minus room (advance j room strip.size))
  unfolding minus
  minus-IsBehind pr room strip parted before chosen = elim (Bool-cases (ltb strip.size room)) [
    | inl less ↦ rw less (elim (Bool-cases (leb (strip.size + kerf_of j) room)) [
      | inl e ↦ rw e (λ _.
          with_strip-IsBehind j pr.sheet pr.cursor room open_job parted before pr.remaining strip
            chosen (ground arith) (ground arith))
      | inr e ↦ rw e tt
    ])
    | inr whole ↦
        let e : leb strip.size room ≡ true = ground (arith, chosen.1) in
        rw (whole, e) (λ l. absurd (ground (arith, chosen.1)))
  ]

  commit-IsGoing :
      (pr : Progress) (room : ℕ) (strip : Strip)
      → pr.room ≡ some room
      → j.min_rect_size ≤ room
      → Chosen j pr.remaining room strip
      → IsGoing j pr
      → IsGoing j (commit j pr room strip)
  unfolding commit
  commit-IsGoing pr room strip e l chosen h =
      let going : MayBe (λ r. 0 < r → IsBehind j pr.sheet pr.cursor r) (some room) =
        rw e at h.going in
      let before = going (omega (arith, least)) in
      record {
        parted =
            with_strip-IsParted j pr.sheet pr.cursor room open_job h.parted before pr.remaining
              strip chosen;
        going = minus-IsBehind pr room strip h.parted before chosen;
      }

append_nil {ℓ} : {A : Type ℓ} (xs : List A) → xs ++ [] ≡ xs
append_nil [] = refl
append_nil (x ∷ xs) = rw (append_nil xs) refl

module _ (j : StripJob) (open_job : IsOpen j) (least : 0 < j.min_rect_size) (pr : Progress)
    (good : IsGoing j pr) where
  -- The sheet with its tail, which begins at the cursor.
  abbrev whole : State
  whole = record pr.sheet { remainders = pr.sheet.remainders ++ tail_of j pr }

  tailed :
      (rect : Rectangle)
      → Within (job_box j) (rectangle_box rect)
      → position j pr.cursor ≤ low j.horizontal (rectangle_box rect)
      → (room : ℕ) → IsBehind j pr.sheet pr.cursor room
      → IsParted
          (kerf_of j)
          (job_box j)
          (record pr.sheet { remainders = pr.sheet.remainders ++ rect ∷ [] })
  tailed rect w l room before =
      let single : IsParted (kerf_of j) (job_box j)
          (record { remainders = rect ∷ []; placed_pieces = []; cuts = [] }) =
        record { inside = (w, tt); apart = (tt, tt); clear = tt; legal = tt } in
      let both =
        joined-IsParted j.horizontal (kerf_of j) (job_box j) (position j pr.cursor) pr.sheet
          (record { remainders = rect ∷ []; placed_pieces = []; cuts = [] }) good.parted single
          before.behind (l, tt) before.blades tt in
      rw (append_nil pr.sheet.placed_pieces, append_nil pr.sheet.cuts) at both

  whole-IsParted : IsParted (kerf_of j) (job_box j) whole
  unfolding tail_of
  whole-IsParted = go pr.room good.going
    where
      go :
          (o : Option ℕ)
          → MayBe (λ room. 0 < room → IsBehind j pr.sheet pr.cursor room) o
          → IsParted (kerf_of j) (job_box j) (record pr.sheet {
            remainders = pr.sheet.remainders ++ (elim o [
              | none ↦ []
              | some room ↦
                  if leb j.min_rect_size room
                  then record {
                    x = offset_x j pr.cursor;
                    y = offset_y j pr.cursor;
                    width = if j.horizontal then usable_w j else room;
                    height = if j.horizontal then room else usable_h j;
                  }
                    ∷ []
                  else []
            ]);
          })
      go none h = rw (append_nil pr.sheet.remainders) good.parted
      go (some room) h = elim (Bool-cases (leb j.min_rect_size room)) [
        | inl e ↦
            let before = h (ground (arith, least)) in
            let total = before.total in
            rw e (tailed _ (ground (arith, open_job)) (ground arith) room before)
        | inr e ↦ rw (e, append_nil pr.sheet.remainders) good.parted
      ]

  close-IsParted : MayBe (λ f. IsParted (j.params.kerf) (job_box j) (contents f)) (close j pr)
  unfolding close
  close-IsParted =
      go pr.sheet.placed_pieces
        (subst (λ k. IsParted k (job_box j) whole) {x = kerf_of j} (omega arith) whole-IsParted)
    where
      go :
          (placed : List PlacedPiece)
          → IsParted (j.params.kerf) (job_box j) (record whole { placed_pieces = placed })
          → MayBe
              (λ f. IsParted (j.params.kerf) (job_box j) (contents f))
              (elim placed [
                | [] ↦ none
                | pp ∷ pps ↦ some (record {
                  spec = j.spec;
                  placed = pp ∷ pps;
                  remainders = pr.sheet.remainders ++ tail_of j pr;
                  cuts = pr.sheet.cuts;
                })
              ])
      go [] h = tt
      go (pp ∷ pps) h = h

-- With a positive least size, `strip_fill` always returns, whatever its pool. The fill, if it
-- returns one, has its pieces in their own dimensions, turned only where they may be; they and the
-- leftovers lie within the trims, a kerf apart from one another, and no blade pass of its cuts
-- enters any of them.
pub strip_fill-IsParted :
    (pool : List Piece) (j : StripJob)
    → 0 < j.min_rect_size
    → (o : Option BinFill) × (strip_fill pool j ≡ some o)
      × MayBe (λ f. IsParted j.params.kerf (job_box j) (contents f)) o
unfolding strip_fill
strip_fill-IsParted pool j least = elim (Bool-cases (leb (usable_w j) 0 || leb (usable_h j) 0)) [
  | inl e ↦ rw e (none, refl, tt)
  | inr e ↦
      let open_job : IsOpen j = ground arith in
      let (pr, done, good) =
        fill_strips-keeps j (IsGoing j) (commit-IsGoing j open_job least) (suc (suc (axis_room j)))
          (empty_bin j pool) (unfold room_left in omega arith)
          (empty_bin-IsGoing j open_job least pool) in
      rw e (close j pr, rw done refl, close-IsParted j open_job least pr good)
]
