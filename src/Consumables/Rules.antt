-- ===== src/Consumables/Rules.antt =====
-- src/modules/consumables/rules.py: when a change of a consumable may be registered, and what a life
-- gave. Spans are microseconds.
use opticutter_api.Prelude.{
  ℕ, zero, suc, ◌+◌, ◌≤◌, ◌<◌, ◌≡◌, refl, ap, ◌∙◌, Bool, false, ◌&&◌, List, [], ◌∷◌, Option, none,
  some, map, length, sum_of, leb, ltb, ◌==◌, if◌then◌else◌, arith, Bool-cases, inl, inr,
}
use opticutter_api.Shared.Schedule.{WorkSchedule}
use opticutter_api.Shared.Windows.{Zone, overlap, seconds}

abbrev pub min_change_gap : ℕ
min_change_gap = 60_000_000

abbrev pub early_change : ℕ
early_change = 14_400_000_000

abbrev pub undo_window : ℕ
undo_window = 600_000_000

pub data Gate : Type 0 where
  blocked early free : Gate

unfoldable pub worked_seconds : Zone → ℕ → ℕ → WorkSchedule → ℕ
worked_seconds z start end schedule = seconds (overlap z schedule start end none)

unfoldable pub change_gate : Zone → Option ℕ → ℕ → WorkSchedule → Gate
change_gate z none now schedule = free
change_gate z (some last_at) now schedule =
    if leb now (last_at + min_change_gap)
    then blocked
    else if ltb (worked_seconds z last_at now schedule) early_change
    then early
    else free

unfoldable pub can_undo : ℕ → Option ℕ → Option ℕ → Bool → ℕ → Bool
can_undo registered_at none user_id is_latest now = false
can_undo registered_at (some author_id) none is_latest now = false
can_undo registered_at (some author_id) (some user_id) is_latest now =
    author_id == user_id && is_latest && leb now (registered_at + undo_window)

-- `at, meters, units`
pub record WorkEvent : Type 0 where
  pub at : ℕ
  pub meters : ℕ
  pub units : ℕ

pub record Usage : Type 0 where
  pub meters : ℕ
  pub units : ℕ

-- `bisect_right`, as it is on the ascending starts that its caller gives: the lives are read in the order of
-- their starts.
unfoldable pub bisect_right : List ℕ → ℕ → ℕ
bisect_right [] at = 0
bisect_right (s ∷ ss) at = if leb s at then suc (bisect_right ss at) else 0

unfoldable pub add_usage : ℕ → WorkEvent → List Usage → List Usage
add_usage i e [] = []
add_usage zero e (u ∷ us) = record { meters = u.meters + e.meters; units = u.units + e.units } ∷ us
add_usage (suc i) e (u ∷ us) = u ∷ add_usage i e us

-- `index = bisect_right(starts, at) - 1` and, if it is not negative, the addition.
unfoldable pub deal : ℕ → WorkEvent → List Usage → List Usage
deal zero e us = us
deal (suc i) e us = add_usage i e us

unfoldable pub deal_all : List ℕ → List WorkEvent → List Usage → List Usage
deal_all starts [] us = us
deal_all starts (e ∷ es) us = deal_all starts es (deal (bisect_right starts e.at) e us)

unfoldable pub usage_by_life : List ℕ → List WorkEvent → List Usage
usage_by_life starts events =
    deal_all starts events (map (λ s. record { meters = 0; units = 0 }) starts)

-- What an event counts for: nothing before the first life.
abbrev pub counted : List ℕ → WorkEvent → ℕ
counted [] e = 0
counted (s ∷ ss) e = if leb s e.at then e.meters else 0

abbrev pub total_meters : List Usage → ℕ
total_meters = sum_of (λ u. u.meters)

length-add_usage : (i : ℕ) (e : WorkEvent) (us : List Usage) → length (add_usage i e us) ≡ length us
unfolding add_usage
length-add_usage i e [] = refl
length-add_usage zero e (u ∷ us) = refl
length-add_usage (suc i) e (u ∷ us) = ap suc (length-add_usage i e us)

total_meters-add_usage :
    (i : ℕ) (e : WorkEvent) (us : List Usage)
    → i < length us
    → total_meters (add_usage i e us) ≡ total_meters us + e.meters
unfolding add_usage
total_meters-add_usage i e [] l = absurd (omega arith)
total_meters-add_usage zero e (u ∷ us) l = omega arith
total_meters-add_usage (suc i) e (u ∷ us) l =
    omega (arith, total_meters-add_usage i e us (omega arith))

bisect_right-le : (ss : List ℕ) (at : ℕ) → bisect_right ss at ≤ length ss
unfolding bisect_right
bisect_right-le [] at = omega arith
bisect_right-le (s ∷ ss) at = elim (Bool-cases (leb s at)) [
  | inl e ↦ rw e (omega (arith, bisect_right-le ss at))
  | inr e ↦ rw e (omega arith)
]

length-deal : (n : ℕ) (e : WorkEvent) (us : List Usage) → length (deal n e us) ≡ length us
unfolding deal
length-deal zero e us = refl
length-deal (suc n) e us = length-add_usage n e us

total_meters-deal :
    (starts : List ℕ) (e : WorkEvent) (us : List Usage)
    → length us ≡ length starts
    → total_meters (deal (bisect_right starts e.at) e us) ≡ total_meters us + counted starts e
unfolding deal bisect_right
total_meters-deal [] e us l = omega arith
total_meters-deal (s ∷ ss) e us l = elim (Bool-cases (leb s e.at)) [
  | inl d ↦
      rw d (
        total_meters-add_usage (bisect_right ss e.at) e us (omega (arith, bisect_right-le ss e.at)))
  | inr d ↦ rw d (omega arith)
]

total_meters-deal_all :
    (starts : List ℕ) (es : List WorkEvent) (us : List Usage)
    → length us ≡ length starts
    → total_meters (deal_all starts es us) ≡ total_meters us + sum_of (counted starts) es
unfolding deal_all
total_meters-deal_all starts [] us l = omega arith
total_meters-deal_all starts (e ∷ es) us l = omega (
  arith,
  total_meters-deal_all starts es (deal (bisect_right starts e.at) e us) (length-deal _ e us ∙ l),
  total_meters-deal starts e us l,
)

-- The metres dealt to the lives are together those of the events from the first life's start on: none is lost and none
-- counts twice.
pub usage_by_life-total :
    (starts : List ℕ) (events : List WorkEvent)
    → total_meters (usage_by_life starts events) ≡ sum_of (counted starts) events
unfolding usage_by_life
usage_by_life-total starts events =
    total_meters-deal_all starts events _ (fresh_length starts)
    ∙ ap (λ n. n + sum_of (counted starts) events) (fresh_total starts)
    ∙ omega arith
  where
    fresh_length :
        (ss : List ℕ)
        → length (map (λ s. let u : Usage = record { meters = 0; units = 0 } in u) ss) ≡ length ss
    fresh_length [] = refl
    fresh_length (s ∷ ss) = ap suc (fresh_length ss)

    fresh_total :
        (ss : List ℕ)
        → total_meters (map (λ s. let u : Usage = record { meters = 0; units = 0 } in u) ss) ≡ 0
    fresh_total [] = refl
    fresh_total (s ∷ ss) = omega (arith, fresh_total ss)
