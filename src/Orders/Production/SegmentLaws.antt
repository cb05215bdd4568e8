-- ===== src/Orders/Production/SegmentLaws.antt =====
-- src/modules/orders/production.py, `cut_segments`: the segments of a cut follow one another up to its last mark.
use opticutter_api.Prelude.{
  ℕ, ◌-◌, ◌≤◌, ◌≡◌, refl, ap, true, false, not, ◌&&◌, List, [], ◌∷◌, map, map-append, sort_by,
  insert_by, sort_by-perm, filter_by, All, All-mono, All-perm, All-map, All-filter_by,
  All-filter_by_both, leb, arith, Bool-cases, inl, inr, leb→le,
}
use mathlib.Core.List.Permᴰ
use opticutter_api.Shared.Schedule.{WorkSchedule}
use opticutter_api.Shared.ScheduleLaws.{AreWorkdays}
use opticutter_api.Shared.Windows.{Zone, IsFixed, Interval, OpenDays, worked, seconds}
use opticutter_api.Shared.Intervals.{AreWithin, AreWithin-lower, AreWithin-append, seconds-le}
use opticutter_api.Shared.WorkedTime.{worked-AreWithin}
use opticutter_api.Orders.Production.Days.{WorkSegment}
use opticutter_api.Orders.Production.Segments.{
  TimelineEvent, is_mark, event_lt, closes_work, is_pause, Stretch, stretch_to, stretches_between,
  stretches_after, stretches_of, worked_stretches, mark_times, minimum, maximum, segment_of,
  segments_by, cut_segments,
}

-- Earlier events first, from `lo` on.
abbrev AreOrdered : ℕ → List TimelineEvent → Type 0
AreOrdered lo [] = Unit
AreOrdered lo (e ∷ es) = (lo ≤ e.at) × AreOrdered e.at es

insert_by-AreOrdered :
    (lo : ℕ) (x : TimelineEvent) (ys : List TimelineEvent)
    → lo ≤ x.at
    → AreOrdered lo ys
    → AreOrdered lo (insert_by event_lt x ys)
insert_by-AreOrdered lo x [] l h = (l, tt)
insert_by-AreOrdered lo x (y ∷ ys) l h = elim (Bool-cases (event_lt y x)) [
  | inl e ↦ rw e (h.0, insert_by-AreOrdered y.at x ys (lt-at y x e) h.1)
  | inr e ↦ rw e (l, (not-lt-at y x e, h.1))
]
  where
    lt-at : (a b : TimelineEvent) → event_lt a b ≡ true → a.at ≤ b.at
    lt-at a b e = ground arith

    not-lt-at : (a b : TimelineEvent) → event_lt a b ≡ false → b.at ≤ a.at
    not-lt-at a b e = ground arith

sort_by-AreOrdered :
    (lo : ℕ) (es : List TimelineEvent)
    → All (λ e. lo ≤ e.at) es
    → AreOrdered lo (sort_by event_lt es)
sort_by-AreOrdered lo [] h = tt
sort_by-AreOrdered lo (e ∷ es) h = insert_by-AreOrdered lo e _ h.0 (sort_by-AreOrdered lo es h.1)

abbrev pub stretch_span : Stretch → Interval
stretch_span s = (s.start, s.end)

abbrev pub segment_span : WorkSegment → Interval
segment_span s = (s.start, s.end)

map-stretch_to :
    (cur : TimelineEvent) (is : List Interval) → map stretch_span (map (stretch_to cur) is) ≡ is
map-stretch_to cur [] = refl
map-stretch_to cur (i ∷ is) = ap (◌∷◌ i) (map-stretch_to cur is)

map-segment_of :
    (first : ℕ) (ss : List Stretch)
    → map segment_span (map (segment_of first) ss) ≡ map stretch_span ss
map-segment_of first [] = refl
map-segment_of first (s ∷ ss) = ap (◌∷◌ (stretch_span s)) (map-segment_of first ss)

maximum-ge : (m : ℕ) (ms : List ℕ) (k : ℕ) → All (λ n. k ≤ n) (m ∷ ms) → k ≤ maximum m ms
maximum-ge m [] k h = h.0
maximum-ge m (n ∷ ms) k h = ground arith

mark_times-ge :
    (lo : ℕ) (es : List TimelineEvent) → All (λ e. lo ≤ e.at) es → All (λ n. lo ≤ n) (mark_times es)
mark_times-ge lo es h =
    All-map (λ n. lo ≤ n) (λ e. e.at) _ (All-filter_by (λ e. lo ≤ e.at) (λ e. is_mark e.kind) es h)

-- The segments for these marks: none without marks, and otherwise one after the other from `lo` to the last mark.
abbrev pub IsCutTime : ℕ → List WorkSegment → List ℕ → Type 0
IsCutTime lo segments [] = segments ≡ []
IsCutTime lo segments (m ∷ ms) =
    AreWithin lo (maximum m ms) (map segment_span segments)
    × (seconds (map segment_span segments) ≤ maximum m ms - lo)

module _ (z : Zone) (fixed : IsFixed z) (s : WorkSchedule) (valid : AreWorkdays s.days)
    (open_days : OpenDays) where
  stretches_between-AreWithin :
      (prev cur : TimelineEvent)
      → prev.at ≤ cur.at
      → AreWithin prev.at cur.at (map stretch_span (stretches_between z s open_days prev cur))
  unfolding stretches_between
  stretches_between-AreWithin prev cur l =
      elim (Bool-cases (closes_work cur.kind && not (is_pause prev.kind))) [
        | inl e ↦ rw e (
            rw (map-stretch_to cur (worked z s prev.at cur.at open_days))
              (worked-AreWithin z fixed s valid open_days prev.at cur.at l).0)
        | inr e ↦ rw e l
      ]

  stretches_after-AreWithin :
      (hi : ℕ) (prev : TimelineEvent) (es : List TimelineEvent)
      → prev.at ≤ hi
      → AreOrdered prev.at es
      → All (λ e. e.at ≤ hi) es
      → AreWithin prev.at hi (map stretch_span (stretches_after z s open_days prev es))
  unfolding stretches_after
  stretches_after-AreWithin hi prev [] l o h = l
  stretches_after-AreWithin hi prev (cur ∷ es) l o h =
      rw
        (map-append stretch_span (stretches_between z s open_days prev cur)
          (stretches_after z s open_days cur es))
        (AreWithin-append prev.at cur.at hi _ _ (stretches_between-AreWithin prev cur o.0)
          (stretches_after-AreWithin hi cur es h.0 o.1 h.1))

  stretches_of-AreWithin :
      (lo hi : ℕ) (es : List TimelineEvent)
      → lo ≤ hi
      → AreOrdered lo es
      → All (λ e. e.at ≤ hi) es
      → AreWithin lo hi (map stretch_span (stretches_of z s open_days es))
  stretches_of-AreWithin lo hi [] l o h = l
  stretches_of-AreWithin lo hi (e ∷ es) l o h =
      AreWithin-lower e.at lo hi _ o.0 (stretches_after-AreWithin hi e es h.0 o.1 h.1)

  segments_by-IsCutTime :
      (lo : ℕ) (events : List TimelineEvent) (marks : List ℕ)
      → All (λ e. lo ≤ e.at) events
      → All (λ n. lo ≤ n) marks
      → IsCutTime lo (segments_by z s open_days events marks) marks
  unfolding segments_by worked_stretches
  segments_by-IsCutTime lo events [] h k = refl
  segments_by-IsCutTime lo events (m ∷ ms) h k =
      let last = maximum m ms in
      let kept = filter_by (λ e. leb e.at last) events in
      let both = All-filter_by_both (λ e. lo ≤ e.at) (λ e. leb e.at last) events h in
      let order = sort_by-AreOrdered lo kept (All-mono (λ e b. b.0) kept both) in
      let early =
        All-perm (λ e. e.at ≤ last) (Permᴰ.symm (sort_by-perm event_lt kept))
          (All-mono (λ e b. leb→le e.at last b.1) kept both) in
      let within =
        stretches_of-AreWithin lo last (sort_by event_lt kept) (maximum-ge m ms lo k) order early in
      rw (map-segment_of (minimum m ms) (stretches_of z s open_days (sort_by event_lt kept)))
        (within, seconds-le lo last _ within)

  -- A cut without marks has no working time. Otherwise its segments follow one another without overlap, from the
  -- first event, or any instant before all of them, to the last mark, and add up to no more than
  -- what lies between; the events stand in any order. The schedule is one of seven days in order.
  pub cut_segments-IsCutTime :
      (lo : ℕ) (events : List TimelineEvent)
      → All (λ e. lo ≤ e.at) events
      → IsCutTime lo (cut_segments z s open_days events) (mark_times events)
  unfolding cut_segments
  cut_segments-IsCutTime lo events h =
      segments_by-IsCutTime lo events (mark_times events) h (mark_times-ge lo events h)
