-- ===== src/Consumables/Tests.antt =====
-- Two lives of a blade and four events, of which the first came before either.
use opticutter_api.Prelude.{ℕ, ◌≡◌, refl, List, [], ◌∷◌, sum_of}
use opticutter_api.Consumables.Rules.{
  WorkEvent, bisect_right, add_usage, deal, deal_all, usage_by_life, counted, total_meters,
  usage_by_life-total,
}

abbrev done : ℕ → ℕ → WorkEvent
done at meters = record { at = at; meters = meters; units = 1 }

abbrev events : List WorkEvent
events = done 5 10 ∷ done 20 7 ∷ done 10 4 ∷ done 19 2 ∷ []

-- An event on a change belongs to the blade that went on.
dealt :
    usage_by_life (10 ∷ 20 ∷ []) events
    ≡ record { meters = 6; units = 2 } ∷ record { meters = 7; units = 1 } ∷ []
unfolding usage_by_life deal_all deal add_usage bisect_right
dealt = refl

usage_by_life-total_example :
    total_meters (usage_by_life (10 ∷ 20 ∷ []) events) ≡ sum_of (counted (10 ∷ 20 ∷ [])) events
usage_by_life-total_example = usage_by_life-total (10 ∷ 20 ∷ []) events
