-- ===== src/Optimizations/Patterning.antt =====
-- `group_layouts` and `order_sheets`: what they make of the sheets of a payload.
use opticutter_api.Prelude.{
  ℕ, suc, ◌+◌, ◌≡◌, refl, sym, ap, subst, ◌∙◌, true, false, inl, inr, Option, some, List, [], ◌∷◌,
  ◌++◌, map, map-append, length, length-append, All, All-append, All-append_split, All-mono,
  Pairwise, Pairwise-append, any_by, append_assoc, arith,
}
use opticutter_api.Optimizations.Groups.{
  Sheet, layout_signature, Group, find_index, one_more, add_to_group, new_group, group_from,
  group_layouts,
}
use opticutter_api.Optimizations.GroupLaws.{
  alike, IsGroup, same_layout_refl, IsGroup-other, IsGroup-one_more, IsGroup-new,
}
use opticutter_api.Optimizations.Grouping.{
  index_of, index_of-append, representatives, Looked, look, add_to_group-middle, alike-sym,
  alike-eq, any_by-append, any_by-middle, no_members, numbers, numbers-suc,
}

-- The groups of the sheets: one for each pattern that occurs, numbered in order.
pub record IsGrouping (layouts : List Sheet) (gs : List Group) : Type 0 where
  pub each : All (IsGroup layouts) gs
  pub distinct : Pairwise (λ a b. alike a b ≡ false) (representatives gs)
  pub covered : All (λ l. any_by (alike l) (representatives gs) ≡ true) layouts
  pub numbered : map (λ g. g.pattern_id) gs ≡ numbers 1 (length gs)

module _ (done : List Sheet) (l : Sheet) where
  others_same :
      (gs : List Group)
      → All (λ s. alike l s ≡ false) (representatives gs)
      → All (IsGroup done) gs
      → All (IsGroup (done ++ l ∷ [])) gs
  others_same [] d h = tt
  others_same (g ∷ gs) d h = (IsGroup-other done l g d.0 h.0, others_same gs d.1 h.1)

  -- The groups after the one that the sheet joins are of other patterns.
  after_differ :
      (before after : List Group) (g : Group)
      → alike l g.layout ≡ true
      → Pairwise (λ a b. alike a b ≡ false) (representatives (before ++ g ∷ after))
      → All (λ s. alike l s ≡ false) (representatives after)
  after_differ [] after g e d =
      All-mono (λ s h. alike-eq l g.layout s e ∙ h) (representatives after) d.0
  after_differ (b ∷ before) after g e d = after_differ before after g e d.1

  joined-IsGrouping :
      (before after : List Group) (g : Group)
      → alike l g.layout ≡ true
      → All (λ s. alike l s ≡ false) (representatives before)
      → IsGrouping done (before ++ g ∷ after)
      → IsGrouping (done ++ l ∷ []) (before ++ one_more l.sheet_number g ∷ after)
  unfolding one_more
  joined-IsGrouping before after g e d h =
      let (old, more) = All-append_split (IsGroup done) before (g ∷ after) h.each in
      let same : representatives (before ++ one_more l.sheet_number g ∷ after)
          ≡ representatives (before ++ g ∷ after) =
        rw (map-append, map-append) refl in
      let ids : map (λ x. x.pattern_id) (before ++ one_more l.sheet_number g ∷ after)
          ≡ map (λ x. x.pattern_id) (before ++ g ∷ after) =
        rw (map-append, map-append) refl in
      let size : length (before ++ one_more l.sheet_number g ∷ after)
          ≡ length (before ++ g ∷ after) =
        omega (
          arith,
          length-append before (one_more l.sheet_number g ∷ after),
          length-append before (g ∷ after),
        ) in
      record {
        each =
            All-append (IsGroup (done ++ l ∷ [])) before (one_more l.sheet_number g ∷ after)
              (others_same before d old)
              (
                IsGroup-one_more done l g e more.0,
                others_same after (after_differ before after g e h.distinct) more.1,
              );
        distinct = rw same h.distinct;
        covered = rw same (
            All-append _ done (l ∷ []) h.covered (
              rw map-append (
                  any_by-middle (alike l) (representatives before) (representatives after) g.layout
                    e),
              tt,
            ));
        numbered = ids ∙ h.numbered ∙ ap (numbers 1) (sym size);
      }

  opened-IsGrouping :
      (gs : List Group)
      → All (λ s. alike l s ≡ false) (representatives gs)
      → IsGrouping done gs
      → IsGrouping (done ++ l ∷ []) (gs ++ new_group (length gs) l ∷ [])
  unfolding new_group
  opened-IsGrouping gs d h =
      let e : representatives (gs ++ new_group (length gs) l ∷ []) ≡ representatives gs ++ l ∷ [] =
        rw map-append refl in
      let ids : map (λ x. x.pattern_id) (gs ++ new_group (length gs) l ∷ [])
          ≡ map (λ x. x.pattern_id) gs ++ (length gs + 1) ∷ [] =
        rw map-append refl in
      let next : numbers 1 (length gs) ++ (length gs + 1) ∷ [] ≡ numbers 1 (suc (length gs)) =
        sym (numbers-suc 1 (length gs) ∙ ap (λ n. numbers 1 (length gs) ++ n ∷ []) (omega arith)) in
      let size : suc (length gs) ≡ length (gs ++ new_group (length gs) l ∷ []) =
        omega (arith, length-append gs (new_group (length gs) l ∷ [])) in
      record {
        each = All-append _ gs (new_group (length gs) l ∷ []) (others_same gs d h.each) (
          IsGroup-new done l (length gs) (no_members done (representatives gs) l h.covered d),
          tt,
        );
        distinct = rw e (
            Pairwise-append (λ a b. alike a b ≡ false) alike-sym (representatives gs) (l ∷ [])
              h.distinct (tt, tt) (All-mono (λ s n. (alike-sym l s n, tt)) (representatives gs) d));
        covered = rw e (
            All-append _ done (l ∷ [])
              (All-mono (λ x f. any_by-append (alike x) (representatives gs) (l ∷ []) f) done
                h.covered)
              (
                any_by-middle (alike l) (representatives gs) [] l
                    (same_layout_refl (layout_signature l)),
                tt,
              ));
        numbered =
            ids ∙ ap (λ ns. ns ++ (length gs + 1) ∷ []) h.numbered ∙ next ∙ ap (numbers 1) size;
      }

opened_index :
    (gs : List Group) (l : Sheet)
    → index_of 0 (representatives (gs ++ new_group (length gs) l ∷ []))
      ≡ index_of 0 (representatives gs) ++ (layout_signature l, length gs) ∷ []
unfolding new_group
opened_index gs l =
    let size : 0 + length (representatives gs) ≡ length gs = length_representatives gs in
    rw (map-append, index_of-append 0 (representatives gs) l, size) refl
  where
    length_representatives : (xs : List Group) → 0 + length (representatives xs) ≡ length xs
    length_representatives [] = omega arith
    length_representatives (x ∷ xs) = omega (arith, length_representatives xs)

grown_representatives :
    (before after : List Group) (g : Group) (n : Option ℕ)
    → representatives (before ++ one_more n g ∷ after) ≡ representatives (before ++ g ∷ after)
unfolding one_more
grown_representatives before after g n = rw (map-append, map-append) refl

append_nil {ℓ} : {A : Type ℓ} (xs : List A) → xs ++ [] ≡ xs
append_nil [] = refl
append_nil (x ∷ xs) = rw (append_nil xs) refl

-- From the groups of the sheets read so far, the loop returns the groups of all of them.
Continues : List Sheet → List Sheet → List Group → Type 0
Continues done rest gs =
    (gs' : List Group) × (group_from rest gs (index_of 0 (representatives gs)) ≡ some gs')
    × IsGrouping (done ++ rest) gs'

group_from-IsGrouping :
    (rest done : List Sheet) (gs : List Group) → IsGrouping done gs → Continues done rest gs
unfolding group_from Continues
group_from-IsGrouping [] done gs h =
    (gs, refl, subst (λ ls. IsGrouping ls gs) (sym (append_nil done)) h)
group_from-IsGrouping (l ∷ ls) done gs h =
    go (look l 0 gs) (group_from-IsGrouping ls (done ++ l ∷ []))
  where
    go :
        Looked l 0 gs
        → ((gs₁ : List Group) → IsGrouping (done ++ l ∷ []) gs₁ → Continues (done ++ l ∷ []) ls gs₁)
        → Continues done (l ∷ ls) gs
    go (inl (unknown, differs)) rec =
        let opened = gs ++ new_group (length gs) l ∷ [] in
        let (gs', e, k) = rec opened (opened-IsGrouping done l gs differs h) in
        let index : index_of 0 (representatives opened)
            ≡ index_of 0 (representatives gs) ++ (layout_signature l, length gs) ∷ [] =
          opened_index gs l in
        (
          gs',
          rw (unknown, group_from) (rw index at e),
          subst (λ xs. IsGrouping xs gs') (append_assoc done (l ∷ []) ls) k,
        )
    go (inr (before, g, after, split, found, same, differs)) rec =
        let grown = before ++ one_more l.sheet_number g ∷ after in
        let old = subst (λ xs. IsGrouping done xs) split h in
        let (gs', e, k) = rec grown (joined-IsGrouping done l before after g same differs old) in
        let added : add_to_group (length before) l.sheet_number gs ≡ some grown =
          subst (λ xs. add_to_group (length before) l.sheet_number xs ≡ some grown) (sym split)
            (add_to_group-middle before after g l.sheet_number) in
        let place : find_index (layout_signature l) (index_of 0 (representatives gs))
            ≡ some (length before) =
          found ∙ ap some (omega arith) in
        let index : index_of 0 (representatives grown) ≡ index_of 0 (representatives gs) =
          ap (index_of 0) (
            grown_representatives before after g l.sheet_number ∙ ap representatives (sym split)) in
        (
          gs',
          rw (place, group_from) (rw added (rw index at e)),
          subst (λ xs. IsGrouping xs gs') (append_assoc done (l ∷ []) ls) k,
        )

-- `group_layouts` always returns, one group for each cutting pattern that occurs: groups have
-- different patterns, every sheet has the pattern of a group, and a group keeps the first sheet of its
-- pattern, how many have it and their sheet numbers in order. The patterns are numbered from 1.
pub group_layouts-IsGrouping :
    (layouts : List Sheet)
    → (gs : List Group) × (group_layouts layouts ≡ some gs) × IsGrouping layouts gs
unfolding group_layouts index_of Continues
group_layouts-IsGrouping layouts =
    group_from-IsGrouping layouts [] []
      (record { each = tt; distinct = tt; covered = tt; numbered = unfold numbers in refl })
