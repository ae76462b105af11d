-- ===== src/Search/Range/Laws.antt =====
-- The range search against the meaning of the keys.
use pgroonga.Base.{
  ℕ, ◌<◌, ◌≡◌, ◌⊎◌, inl, inr, refl, Bool, true, false, not, ◌&&◌, Bool-cases, List, All, [], ◌∷◌,
  ltb, leb, ◌==◌, if◌then◌else◌, Option, none, some, arith,
}
use pgroonga.Search.Range.{
  ScanKey, Borders, no_borders, less_strategy, less_equal_strategy, greater_equal_strategy,
  is_range_strategy, are_range_keys, is_range_searchable, fill_one, fill_border, range_search,
  is_meaningful_min, is_meaningful_max, first_attribute,
}

module _ {V : Type 0} (rank : V → ℕ) where
  -- The operator of a key, at a value and the key's argument.
  abbrev pub holds : V → ScanKey V → Bool
  holds v key =
      if key.strategy == less_strategy
      then ltb (rank v) (rank key.argument)
      else if key.strategy == less_equal_strategy
      then leb (rank v) (rank key.argument)
      else if key.strategy == greater_equal_strategy
      then leb (rank key.argument) (rank v)
      else ltb (rank key.argument) (rank v)

  abbrev pub all_hold : V → List (ScanKey V) → Bool
  all_hold v [] = true
  all_hold v (key ∷ keys) = holds v key && all_hold v keys

  abbrev pub is_above : Option V → Bool → V → Bool
  is_above none gt v = true
  is_above (some min) gt v = if gt then ltb (rank min) (rank v) else leb (rank min) (rank v)

  abbrev pub is_below : Option V → Bool → V → Bool
  is_below none lt v = true
  is_below (some max) lt v = if lt then ltb (rank v) (rank max) else leb (rank v) (rank max)

  -- Two keys with arguments of one rank that bound the same side have the same strategy.
  abbrev pub IsUntied : ScanKey V → ScanKey V → Type 0
  IsUntied a b =
      rank a.argument ≡ rank b.argument
      → ltb a.strategy 3 ≡ ltb b.strategy 3
      → a.strategy ≡ b.strategy

  abbrev pub AreUntied : List (ScanKey V) → Type 0
  AreUntied [] = Unit
  AreUntied (key ∷ keys) = All (IsUntied key) keys × AreUntied keys

  abbrev MaxAgrees : Option V → Bool → ScanKey V → Type 0
  MaxAgrees none lt key = Unit
  MaxAgrees (some m) lt key =
      rank m ≡ rank key.argument → key.strategy < 3 → lt ≡ (key.strategy == 1)

  abbrev MinAgrees : Option V → Bool → ScanKey V → Type 0
  MinAgrees none gt key = Unit
  MinAgrees (some m) gt key =
      rank m ≡ rank key.argument → 3 < key.strategy → gt ≡ not (key.strategy == 4)

  abbrev AgreesWith : Option V → Option V → Bool → Bool → ScanKey V → Type 0
  AgreesWith min max gt lt key = MaxAgrees max lt key × MinAgrees min gt key

  -- The borders are the border values.
  abbrev filled : Option V → Option V → Bool → Bool → Borders V
  filled min max gt lt = record {
    min_border_value = min;
    max_border_value = max;
    min = min;
    max = max;
    gt = gt;
    lt = lt;
  }

  abbrev admits : Option V → Option V → Bool → Bool → V → Bool
  admits min max gt lt v = is_above min gt v && is_below max lt v

  meaningful_max :
      (key : ScanKey V) (m : V) (lt : Bool) (v : V)
      → (key.strategy ≡ 1) ⊎ (key.strategy ≡ 2)
      → MaxAgrees (some m) lt key
      → is_meaningful_max rank m key.argument lt key.strategy ≡ true
      → is_below (some key.argument) (key.strategy == 1) v ≡ (holds v key && is_below (some m) lt v)
  unfolding is_meaningful_max
  meaningful_max key m lt v h a e = ground arith

  meaningless_max :
      (key : ScanKey V) (m : V) (lt : Bool) (v : V)
      → (key.strategy ≡ 1) ⊎ (key.strategy ≡ 2)
      → MaxAgrees (some m) lt key
      → is_meaningful_max rank m key.argument lt key.strategy ≡ false
      → is_below (some m) lt v ≡ (holds v key && is_below (some m) lt v)
  unfolding is_meaningful_max
  meaningless_max key m lt v h a e = ground arith

  meaningful_min :
      (key : ScanKey V) (m : V) (gt : Bool) (v : V)
      → (key.strategy ≡ 4) ⊎ (key.strategy ≡ 5)
      → MinAgrees (some m) gt key
      → is_meaningful_min rank m key.argument gt key.strategy ≡ true
      → is_above (some key.argument) (not (key.strategy == 4)) v
        ≡ (holds v key && is_above (some m) gt v)
  unfolding is_meaningful_min
  meaningful_min key m gt v h a e = ground arith

  meaningless_min :
      (key : ScanKey V) (m : V) (gt : Bool) (v : V)
      → (key.strategy ≡ 4) ⊎ (key.strategy ≡ 5)
      → MinAgrees (some m) gt key
      → is_meaningful_min rank m key.argument gt key.strategy ≡ false
      → is_above (some m) gt v ≡ (holds v key && is_above (some m) gt v)
  unfolding is_meaningful_min
  meaningless_min key m gt v h a e = ground arith

  -- The pairwise condition, from the state of the flags to the next key.
  max_kept :
      (a b : ScanKey V)
      → (a.strategy ≡ 1) ⊎ (a.strategy ≡ 2)
      → IsUntied a b
      → MaxAgrees (some a.argument) (a.strategy == 1) b
  max_kept a b h u e l = ground (arith, u e)

  min_kept :
      (a b : ScanKey V)
      → (a.strategy ≡ 4) ⊎ (a.strategy ≡ 5)
      → IsUntied a b
      → MinAgrees (some a.argument) (not (a.strategy == 4)) b
  min_kept a b h u e l = ground (arith, u e)

  -- What a round does: the borders admit what the key and the borders admitted, and agree with the keys to come.
  record Filled (key : ScanKey V) (min max : Option V) (gt lt : Bool) : Type 0 where
    min' : Option V
    max' : Option V
    gt' : Bool
    lt' : Bool
    fills : fill_one rank key (filled min max gt lt) ≡ some (filled min' max' gt' lt')
    admitted : (v : V) → admits min' max' gt' lt' v ≡ (holds v key && admits min max gt lt v)
    agrees :
        (next : ScanKey V)
        → IsUntied key next
        → AgreesWith min max gt lt next
        → AgreesWith min' max' gt' lt' next

  and_left : (a b c : Bool) → (b && (a && c)) ≡ (a && (b && c))
  and_left true b c = refl
  and_left false true c = refl
  and_left false false c = refl

  fill_max :
      (key : ScanKey V) (min max : Option V) (gt lt : Bool)
      → (key.strategy ≡ 1) ⊎ (key.strategy ≡ 2)
      → MaxAgrees max lt key
      → Filled key min max gt lt
  unfolding fill_one
  fill_max key min none gt lt h a = record {
    min' = min;
    max' = some key.argument;
    gt' = gt;
    lt' = key.strategy == 1;
    fills = ground arith;
    admitted = λ v. ground arith;
    agrees = λ next u (am, an). (max_kept key next h u, an);
  }
  fill_max key min (some m) gt lt h a =
      elim (Bool-cases (is_meaningful_max rank m key.argument lt key.strategy)) [
        | inl e ↦ record {
          min' = min;
          max' = some key.argument;
          gt' = gt;
          lt' = key.strategy == 1;
          fills = ground arith;
          admitted = λ v.
              rw (meaningful_max key m lt v h a e)
                (and_left (holds v key) (is_above min gt v) (is_below (some m) lt v));
          agrees = λ next u (am, an). (max_kept key next h u, an);
        }
        | inr e ↦ record {
          min' = min;
          max' = some m;
          gt' = gt;
          lt' = lt;
          fills = ground arith;
          admitted = λ v. ground (arith, meaningless_max key m lt v h a e);
          agrees = λ next u g. g;
        }
      ]

  fill_min :
      (key : ScanKey V) (min max : Option V) (gt lt : Bool)
      → (key.strategy ≡ 4) ⊎ (key.strategy ≡ 5)
      → MinAgrees min gt key
      → Filled key min max gt lt
  unfolding fill_one
  fill_min key none max gt lt h a = record {
    min' = some key.argument;
    max' = max;
    gt' = not (key.strategy == 4);
    lt' = lt;
    fills = ground arith;
    admitted = λ v. ground arith;
    agrees = λ next u (am, an). (am, min_kept key next h u);
  }
  fill_min key (some m) max gt lt h a =
      elim (Bool-cases (is_meaningful_min rank m key.argument gt key.strategy)) [
        | inl e ↦ record {
          min' = some key.argument;
          max' = max;
          gt' = not (key.strategy == 4);
          lt' = lt;
          fills = ground arith;
          admitted = λ v. ground (arith, meaningful_min key m gt v h a e);
          agrees = λ next u (am, an). (am, min_kept key next h u);
        }
        | inr e ↦ record {
          min' = some m;
          max' = max;
          gt' = gt;
          lt' = lt;
          fills = ground arith;
          admitted = λ v. ground (arith, meaningless_min key m gt v h a e);
          agrees = λ next u g. g;
        }
      ]

  sides : (n : ℕ) → is_range_strategy n ≡ true → ((n ≡ 1) ⊎ (n ≡ 2)) ⊎ ((n ≡ 4) ⊎ (n ≡ 5))
  unfolding is_range_strategy
  sides n h = ground arith

  fill_lem :
      (key : ScanKey V) (min max : Option V) (gt lt : Bool)
      → is_range_strategy key.strategy ≡ true
      → AgreesWith min max gt lt key
      → Filled key min max gt lt
  fill_lem key min max gt lt h (am, an) = elim (sides key.strategy h) [
    | inl side ↦ fill_max key min max gt lt side am
    | inr side ↦ fill_min key min max gt lt side an
  ]

  all_agree :
      (key : ScanKey V) (min max min' max' : Option V) (gt lt gt' lt' : Bool)
      (keys : List (ScanKey V))
      → ((next : ScanKey V)
          → IsUntied key next
          → AgreesWith min max gt lt next
          → AgreesWith min' max' gt' lt' next)
      → All (IsUntied key) keys
      → All (AgreesWith min max gt lt) keys
      → All (AgreesWith min' max' gt' lt') keys
  all_agree key min max min' max' gt lt gt' lt' [] f us gs = tt
  all_agree key min max min' max' gt lt gt' lt' (k ∷ keys) f (u, us) (a, gs) =
      (f k u a, all_agree key min max min' max' gt lt gt' lt' keys f us gs)

  are_range_keys-strategies :
      (attribute : ℕ) (keys : List (ScanKey V))
      → are_range_keys attribute keys ≡ true
      → All (λ key. is_range_strategy key.strategy ≡ true) keys
  unfolding are_range_keys
  are_range_keys-strategies attribute [] h = tt
  are_range_keys-strategies attribute (key ∷ keys) h =
      (ground arith, are_range_keys-strategies attribute keys (ground arith))

  fill_border-admits :
      (keys : List (ScanKey V)) (min max : Option V) (gt lt : Bool)
      → All (λ key. is_range_strategy key.strategy ≡ true) keys
      → AreUntied keys
      → All (AgreesWith min max gt lt) keys
      → (b : Borders V) × (fill_border rank keys (filled min max gt lt) ≡ some b)
        × ((v : V) → admits b.min b.max b.gt b.lt v ≡ (all_hold v keys && admits min max gt lt v))
  unfolding fill_border
  fill_border-admits [] min max gt lt hs us gs = (filled min max gt lt, refl, λ v. refl)
  fill_border-admits (key ∷ keys) min max gt lt (h, hs) (u, us) (a, gs) =
      let f = fill_lem key min max gt lt h a in
      let (b, e, g) =
        fill_border-admits keys f.min' f.max' f.gt' f.lt' hs us
          (all_agree key min max f.min' f.max' gt lt f.gt' f.lt' keys f.agrees u gs) in
      (b, rw (f.fills, fill_border) e, λ v. rw (g v, f.admitted v) (ground arith))

  all_agree_at_first : (keys : List (ScanKey V)) → All (AgreesWith none none false false) keys
  all_agree_at_first [] = tt
  all_agree_at_first (key ∷ keys) = ((tt, tt), all_agree_at_first keys)

  -- A fresh scan with keys that may be searched as a range, where no two keys bound the same side by equal values
  -- with different operators: the table cursor gives exactly the values for which every key holds. The cursor gives
  -- what is above its minimum and below its maximum, either strictly or not as its flags say.
  pub range_search-exact :
      (cursor : Option V → Option V → Bool → Bool → V → Bool) (is_whole_scan : Bool)
      (keys : List (ScanKey V)) (sort_keys : List ℕ)
      → ((min max : Option V) (gt lt : Bool) (v : V)
          → cursor min max gt lt v ≡ (is_above min gt v && is_below max lt v))
      → is_range_searchable is_whole_scan keys sort_keys ≡ true
      → AreUntied keys
      → (found : V → Bool) × (range_search rank cursor keys no_borders ≡ some found)
        × ((v : V) → found v ≡ all_hold v keys)
  unfolding range_search is_range_searchable
  range_search-exact cursor is_whole_scan keys sort_keys documented searchable untied =
      let strategies = are_range_keys-strategies (first_attribute keys) keys (ground arith) in
      let (b, e, g) =
        fill_border-admits keys none none false false strategies untied (all_agree_at_first keys) in
      (
        cursor b.min b.max b.gt b.lt,
        rw (e, range_search),
        λ v. rw (documented b.min b.max b.gt b.lt v, g v) (ground arith),
      )
