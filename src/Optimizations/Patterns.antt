-- ===== src/Optimizations/Patterns.antt =====
-- src/modules/optimizations/patterns.py: the names of the instances of a cut list, and the grouping
-- of sheets by pattern. Of the digits that `\d` takes, those of ASCII.
use opticutter_api.Prelude.{
  ℕ, zero, suc, ◌+◌, Bool, false, ◌&&◌, ◌||◌, Option, none, some, List, [], ◌∷◌, ◌++◌, ltb, leb,
  ◌==◌, if◌then◌else◌,
}
use opticutter_api.Cutting.Models.{Text}
use opticutter_api.Cutting.Packer.Expand.{decimal}
use opticutter_api.Cutting.Constructors.Order.{same_id}

abbrev pub is_decimal : ℕ → Bool
is_decimal c = leb b'0' c && leb c b'9'

-- `\d+$` matches here: digits up to the end, or up to a newline at the end.
unfoldable pub is_number : Text → Bool
is_number [] = false
is_number (c ∷ []) = is_decimal c
is_number (c ∷ d ∷ []) = is_decimal c && (is_decimal d || d == 10)
is_number (c ∷ d ∷ e ∷ s) = is_decimal c && is_number (d ∷ e ∷ s)

-- What stands after the match: a newline at the end stays.
unfoldable pub after_number : Text → Text
after_number [] = []
after_number (c ∷ []) = if c == 10 then c ∷ [] else []
after_number (c ∷ d ∷ s) = after_number (d ∷ s)

-- `re.sub(r"#\d+$", "", piece_id)`
unfoldable pub base_label : Text → Text
base_label [] = []
base_label (c ∷ s) =
    let rest = base_label s in if c == b'#' && is_number s then after_number s else c ∷ rest

-- A requirement of the cut list: its label, if any, and its quantity.
abbrev pub CutListEntry : Type 0
CutListEntry = Option Text × ℕ

-- `f"piece_{i+1}"`
unfoldable pub unnamed : ℕ → Text
unnamed i = b'p' ∷ b'i' ∷ b'e' ∷ b'c' ∷ b'e' ∷ b'_' ∷ decimal (i + 1)

-- `label or …`: an empty label counts as none.
unfoldable pub base_of : Option Text → ℕ → Text
base_of none i = unnamed i
base_of (some []) i = unnamed i
base_of (some (c ∷ s)) i = c ∷ s

-- The base and the quantity of each entry, from index `i`.
unfoldable pub bases_from : ℕ → List CutListEntry → List (Text × ℕ)
bases_from i [] = []
bases_from i ((label, quantity) ∷ entries) =
    (base_of label i, quantity) ∷ bases_from (suc i) entries

-- `Counter`, with `counter[name]` and `counter[name] += n`.
abbrev pub Counter : Type 0
Counter = List (Text × ℕ)

unfoldable pub counter_get : Text → Counter → ℕ
counter_get name [] = 0
counter_get name ((other, n) ∷ rest) = if same_id name other then n else counter_get name rest

unfoldable pub counter_add : Text → ℕ → Counter → Counter
counter_add name n [] = (name, n) ∷ []
counter_add name n ((other, m) ∷ rest) =
    if same_id name other then (other, m + n) ∷ rest else (other, m) ∷ counter_add name n rest

unfoldable pub count_totals : List (Text × ℕ) → Counter → Counter
count_totals [] totals = totals
count_totals ((name, quantity) ∷ bases) totals =
    count_totals bases (counter_add name quantity totals)

unfoldable pub instance_name : Text → ℕ → ℕ → Text
instance_name base total k = if ltb 1 total then base ++ b'#' ∷ decimal k else base

-- `for _ in range(quantity)`: what it yields, and `seen` after it.
unfoldable pub name_instances : Counter → Counter → ℕ → Text → ℕ → List (ℕ × Text) × Counter
name_instances totals seen i base zero = ([], seen)
name_instances totals seen i base (suc n) =
    let seen' = counter_add base 1 seen in
    let rest = name_instances totals seen' i base n in
    ((i, instance_name base (counter_get base totals) (counter_get base seen')) ∷ rest.0, rest.1)

unfoldable pub name_entries : Counter → Counter → ℕ → List (Text × ℕ) → List (ℕ × Text)
name_entries totals seen i [] = []
name_entries totals seen i ((base, quantity) ∷ bases) =
    let named = name_instances totals seen i base quantity in
    named.0 ++ name_entries totals named.1 (suc i) bases

unfoldable pub piece_instance_ids : List CutListEntry → List (ℕ × Text)
piece_instance_ids entries =
    let bases = bases_from 0 entries in name_entries (count_totals bases []) [] 0 bases
