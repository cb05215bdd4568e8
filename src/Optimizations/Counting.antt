-- ===== src/Optimizations/Counting.antt =====
-- `piece_instance_ids`: the counters count, so that no name is given twice.
use opticutter_api.Prelude.{
  ℕ, zero, suc, ◌+◌, ◌≤◌, ◌<◌, ◌≡◌, ◌≢◌, refl, sym, ap, subst, ◌∙◌, false, Bool-cases, inl, inr,
  List, [], ◌∷◌, ◌++◌, All, All-append, All-mono, Pairwise, Pairwise-append, arith,
}
use opticutter_api.Cutting.Models.{Text}
use opticutter_api.Cutting.Constructors.Order.{same_id}
use opticutter_api.Cutting.Constructors.Pieces.{same_id-eq, same_id_refl}
use opticutter_api.Optimizations.Patterns.{
  base_label, Counter, counter_get, counter_add, instance_name, name_instances, name_entries,
}
use opticutter_api.Optimizations.Decimal.{
  HasNoMark, base_label-instance_name, instance_name_injective,
}
use opticutter_api.Optimizations.CounterLaws.{counter_get-add, counter_get-add_other, asked}

module _ (totals : Counter) where
  -- The name of an instance whose number lies between two states of the counter.
  pub record IsName (lo hi : Counter) (id : Text) : Type 0 where
    base : Text
    number : ℕ
    plain : HasNoMark base
    is_name : id ≡ instance_name base (counter_get base totals) number
    above : counter_get base lo < number
    below : number ≤ counter_get base hi
    asked_for : number ≤ counter_get base totals

  IsName-differ : (lo mid hi : Counter) (a b : Text) → IsName lo mid a → IsName mid hi b → a ≢ b
  IsName-differ lo mid hi a b h k e =
      let one : base_label a ≡ h.base =
        subst (λ t. base_label t ≡ h.base) (sym h.is_name)
          (base_label-instance_name h.base (counter_get h.base totals) h.number h.plain) in
      let two : base_label b ≡ k.base =
        subst (λ t. base_label t ≡ k.base) (sym k.is_name)
          (base_label-instance_name k.base (counter_get k.base totals) k.number k.plain) in
      let same : k.base ≡ h.base = sym two ∙ ap base_label (sym e) ∙ one in
      let name = subst (λ t. b ≡ instance_name t (counter_get t totals) k.number) same k.is_name in
      let above = subst (λ t. counter_get t mid < k.number) same k.above in
      let asked_for = subst (λ t. k.number ≤ counter_get t totals) same k.asked_for in
      let low = h.above in
      let high = h.below in
      let clash =
        instance_name_injective h.base (counter_get h.base totals) h.number k.number (omega arith)
          (sym h.is_name ∙ e ∙ name) in
      absurd (omega arith)

  pub record IsNaming (seen seen' : Counter) (named : List (ℕ × Text)) : Type 0 where
    pub grows : (b : Text) → counter_get b seen ≤ counter_get b seen'
    pub names : All (λ p. IsName seen seen' p.1) named
    pub differ : Pairwise (λ p q. p.1 ≢ q.1) named

  later :
      (lo mid hi : Counter) (id : Text)
      → ((b : Text) → counter_get b mid ≤ counter_get b hi)
      → IsName lo mid id
      → IsName lo hi id
  later lo mid hi id g h = record {
    base = h.base;
    number = h.number;
    plain = h.plain;
    is_name = h.is_name;
    above = h.above;
    below = omega (arith, h.below, g h.base);
    asked_for = h.asked_for;
  }

  earlier :
      (lo mid hi : Counter) (id : Text)
      → ((b : Text) → counter_get b lo ≤ counter_get b mid)
      → IsName mid hi id
      → IsName lo hi id
  earlier lo mid hi id g h = record {
    base = h.base;
    number = h.number;
    plain = h.plain;
    is_name = h.is_name;
    above = omega (arith, h.above, g h.base);
    below = h.below;
    asked_for = h.asked_for;
  }

  nothing_named : (seen : Counter) → IsNaming seen seen []
  nothing_named seen = record { grows = λ b. omega arith; names = tt; differ = tt }

  -- One naming after another.
  then_named :
      (a b c : Counter) (xs ys : List (ℕ × Text))
      → IsNaming a b xs
      → IsNaming b c ys
      → IsNaming a c (xs ++ ys)
  then_named a b c xs ys h k = record {
    grows = λ t. omega (arith, h.grows t, k.grows t);
    names =
        All-append _ xs ys (All-mono (λ p n. later a b c p.1 k.grows n) xs h.names)
          (All-mono (λ p n. earlier a b c p.1 h.grows n) ys k.names);
    differ =
        Pairwise-append (λ p q. p.1 ≢ q.1) (λ p q d e. d (sym e)) xs ys h.differ k.differ
          (All-mono (λ p n. All-mono (λ q m. IsName-differ a b c p.1 q.1 n m) ys k.names) xs
            h.names);
  }

  grows-add :
      (name : Text) (seen : Counter) (b : Text)
      → counter_get b seen ≤ counter_get b (counter_add name 1 seen)
  grows-add name seen b = elim (Bool-cases (same_id b name)) [
    | inl e ↦
        let same = same_id-eq b name e in
        subst (λ t. counter_get t seen ≤ counter_get t (counter_add name 1 seen)) (sym same)
          (omega (arith, counter_get-add name 1 seen))
    | inr e ↦ omega (arith, counter_get-add_other b name 1 seen e)
  ]

  one_named :
      (seen : Counter) (i : ℕ) (base : Text)
      → HasNoMark base
      → counter_get base seen < counter_get base totals
      → IsNaming seen (counter_add base 1 seen) (
          (
            i,
            instance_name base
                (counter_get base totals)
                (counter_get base (counter_add base 1 seen)),
          )
          ∷ [])
  one_named seen i base plain l = record {
    grows = grows-add base seen;
    names = (
      record {
        base = base;
        number = counter_get base (counter_add base 1 seen);
        plain = plain;
        is_name = refl;
        above = omega (arith, counter_get-add base 1 seen);
        below = omega arith;
        asked_for = omega (arith, counter_get-add base 1 seen);
      },
      tt,
    );
    differ = (tt, tt);
  }

  -- Naming the instances of one entry moves that entry's counter by its quantity, and no other.
  name_instances-IsNaming :
      (n : ℕ) (seen : Counter) (i : ℕ) (base : Text)
      → HasNoMark base
      → counter_get base seen + n ≤ counter_get base totals
      → IsNaming seen
          (name_instances totals seen i base n).1
          (name_instances totals seen i base n).0
        × (counter_get base (name_instances totals seen i base n).1 ≡ counter_get base seen + n)
        × ((b : Text)
            → same_id b base ≡ false
            → counter_get b (name_instances totals seen i base n).1 ≡ counter_get b seen)
  unfolding name_instances
  name_instances-IsNaming zero seen i base plain l = (nothing_named seen, omega arith, λ b e. refl)
  name_instances-IsNaming (suc n) seen i base plain l =
      let next = counter_add base 1 seen in
      let step = counter_get-add base 1 seen in
      let (naming, own, other) =
        name_instances-IsNaming n next i base plain (omega (arith, step)) in
      (
        then_named seen next _ _ _ (one_named seen i base plain (omega arith)) naming,
        omega (arith, own, step),
        λ b e. other b e ∙ counter_get-add_other b base 1 seen e,
      )

  pub name_entries-differ :
      (bases : List (Text × ℕ)) (seen : Counter) (i : ℕ)
      → All (λ e. HasNoMark e.0) bases
      → ((b : Text) → counter_get b seen + asked b bases ≤ counter_get b totals)
      → (seen' : Counter) × IsNaming seen seen' (name_entries totals seen i bases)
  unfolding name_entries asked
  name_entries-differ [] seen i plain l = (seen, nothing_named seen)
  name_entries-differ ((base, quantity) ∷ bases) seen i plain l =
      let own_limit : counter_get base seen + (quantity + asked base bases)
          ≤ counter_get base totals =
        rw (same_id_refl base) at (l base) in
      let (naming, own, other) =
        name_instances-IsNaming quantity seen i base plain.0 (omega arith) in
      let after = (name_instances totals seen i base quantity).1 in
      let (last, more) = name_entries-differ bases after (suc i) plain.1 (limit own other) in
      (last, then_named seen after last _ _ naming more)
    where
      limit :
          counter_get base (name_instances totals seen i base quantity).1
            ≡ counter_get base seen + quantity
          → ((b : Text)
              → same_id b base ≡ false
              → counter_get b (name_instances totals seen i base quantity).1 ≡ counter_get b seen)
          → (b : Text)
          → counter_get b (name_instances totals seen i base quantity).1 + asked b bases
            ≤ counter_get b totals
      limit own other b = elim (Bool-cases (same_id b base)) [
        | inl e ↦
            let bound : counter_get b seen + (quantity + asked b bases) ≤ counter_get b totals =
              rw e at (l b) in
            let mine =
              subst
                (λ t.
                  counter_get t (name_instances totals seen i base quantity).1
                  ≡ counter_get t seen + quantity)
                (sym (same_id-eq b base e)) own in
            omega arith
        | inr e ↦
            let bound : counter_get b seen + (0 + asked b bases) ≤ counter_get b totals =
              rw e at (l b) in
            let theirs = other b e in omega arith
      ]
