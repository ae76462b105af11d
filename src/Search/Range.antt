-- ===== src/Search/Range.antt =====
-- The range search of src/pgroonga.c: `PGrnIsRangeSearchable`, `PGrnFillBorder` and `PGrnRangeSearch`. Groonga
-- compares two values of a domain by their ranks. The scan opaque keeps the border values, where `none` is an object
-- of the type GRN_DB_VOID; `*min` and `*max` are null or the border value, and the cursor's flags start as 0.
pub mod Laws
use pgroonga.Base.{
  ℕ, Bool, true, false, not, ◌&&◌, ◌||◌, List, [], ◌∷◌, length, ltb, leb, ◌==◌, if◌then◌else◌,
  Option, none, some,
}

-- `ScanKey`: the attribute, the strategy number and the argument.
pub record ScanKey (V : Type 0) : Type 0 where
  pub attribute : ℕ
  pub strategy : ℕ
  pub argument : V

abbrev pub less_strategy : ℕ
less_strategy = 1

abbrev pub less_equal_strategy : ℕ
less_equal_strategy = 2

abbrev pub greater_equal_strategy : ℕ
greater_equal_strategy = 4

abbrev pub greater_strategy : ℕ
greater_strategy = 5

pub record Borders (V : Type 0) : Type 0 where
  pub min_border_value : Option V
  pub max_border_value : Option V
  pub min : Option V
  pub max : Option V
  pub gt : Bool
  pub lt : Bool

-- `PGrnScanOpaqueInit` makes both border values of the type GRN_DB_VOID.
abbrev pub no_borders : {V : Type 0} → Borders V
no_borders = record {
  min_border_value = none;
  max_border_value = none;
  min = none;
  max = none;
  gt = false;
  lt = false;
}

pub is_range_strategy : ℕ → Bool
is_range_strategy n =
    (n == less_strategy)
    || ((n == less_equal_strategy) || ((n == greater_strategy) || (n == greater_equal_strategy)))

module _ {V : Type 0} where
  -- The loop over the keys: one attribute, and strategies of a range.
  pub are_range_keys : ℕ → List (ScanKey V) → Bool
  unfolding is_range_strategy
  are_range_keys attribute [] = true
  are_range_keys attribute (key ∷ keys) =
      (key.attribute == attribute)
      && (is_range_strategy key.strategy && are_range_keys attribute keys)

  -- The loop over the sort keys, which are not more than the keys.
  pub are_sorted_alike : List (ScanKey V) → List ℕ → Bool
  are_sorted_alike keys [] = true
  are_sorted_alike [] (sort_key ∷ sort_keys) = false
  are_sorted_alike (key ∷ keys) (sort_key ∷ sort_keys) =
      (key.attribute == sort_key) && are_sorted_alike keys sort_keys

  pub first_attribute : List (ScanKey V) → ℕ
  first_attribute [] = 0
  first_attribute (key ∷ keys) = key.attribute

  -- `is_whole_scan`: whether an index may be scanned without a key, of one attribute that is no jsonb, or of several,
  -- and with no tokenizer.
  unfoldable pub is_range_searchable : Bool → List (ScanKey V) → List ℕ → Bool
  unfolding are_range_keys are_sorted_alike first_attribute
  is_range_searchable is_whole_scan keys sort_keys =
      ((ltb 0 (length keys)) || is_whole_scan)
      && (are_range_keys (first_attribute keys) keys
          && (not (ltb (length keys) (length sort_keys)) && are_sorted_alike keys sort_keys))

module _ {V : Type 0} (rank : V → ℕ) where
  unfoldable pub is_meaningful_max : V → V → Bool → ℕ → Bool
  is_meaningful_max current new lt strategy =
      if lt && (strategy == less_equal_strategy)
      then leb (rank new) (rank current)
      else ltb (rank new) (rank current)

  unfoldable pub is_meaningful_min : V → V → Bool → ℕ → Bool
  is_meaningful_min current new gt strategy =
      if gt && (strategy == greater_equal_strategy)
      then leb (rank current) (rank new)
      else ltb (rank current) (rank new)

  unfoldable pub replaces_max : ScanKey V → Borders V → Bool
  unfolding is_meaningful_max
  replaces_max key b = elim b.max_border_value [
    | none ↦ true
    | some current ↦ is_meaningful_max current key.argument b.lt key.strategy
  ]

  unfoldable pub replaces_min : ScanKey V → Borders V → Bool
  unfolding is_meaningful_min
  replaces_min key b = elim b.min_border_value [
    | none ↦ true
    | some current ↦ is_meaningful_min current key.argument b.gt key.strategy
  ]

  -- One round of `PGrnFillBorder`; `none` is the error about an unexpected strategy number.
  unfoldable pub fill_one : ScanKey V → Borders V → Option (Borders V)
  unfolding replaces_max replaces_min
  fill_one key b =
      if (key.strategy == less_strategy) || (key.strategy == less_equal_strategy)
      then (if replaces_max key b
          then some (record b {
            max_border_value = some key.argument;
            max = some key.argument;
            lt = key.strategy == less_strategy;
          })
          else some b)
      else if (key.strategy == greater_equal_strategy) || (key.strategy == greater_strategy)
      then (if replaces_min key b
          then some (record b {
            min_border_value = some key.argument;
            min = some key.argument;
            gt = not (key.strategy == greater_equal_strategy);
          })
          else some b)
      else none

  unfoldable pub fill_border : List (ScanKey V) → Borders V → Option (Borders V)
  unfolding fill_one
  fill_border [] b = some b
  fill_border (key ∷ keys) b = elim (fill_one key b) [ none ↦ none | some b' ↦ fill_border keys b' ]

  -- `PGrnRangeSearch`: which keys of the lexicon the table cursor gives. The cursor is opened with the minimum, the
  -- maximum and the flags GRN_CURSOR_GT and GRN_CURSOR_LT.
  unfoldable pub range_search :
      (Option V → Option V → Bool → Bool → V → Bool)
      → List (ScanKey V)
      → Borders V
      → Option (V → Bool)
  unfolding fill_border
  range_search cursor keys opaque = elim (fill_border keys opaque) [
    | none ↦ none
    | some b ↦ some (cursor b.min b.max b.gt b.lt)
  ]
