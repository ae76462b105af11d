-- ===== src/Jsonb/Values/Laws.antt =====
-- The table of values after a value is inserted.
use pgroonga.Base.{
  ℕ, ◌≡◌, ◌≢◌, refl, sym, ap, ap₂, ◌∙◌, subst, Bool, Bool-cases, inl, inr, Bytes, List, All, [],
  ◌∷◌, ◌++◌, map, length, append_assoc, append-nil, ◌==◌, ==-refl, ==_iff, ◌⊎◌, if◌then◌else◌,
  Option, none, some, arith,
}
use pgroonga.Jsonb.{Scalar, Component, Part, Place, Container, container_tokens, places}
use pgroonga.Jsonb.Insert.{ok, insert_container}
use pgroonga.Jsonb.Insert.Laws.{set_all, insert_container-places}
use pgroonga.Jsonb.Values.{Row, WalRow, Tables, find, key_text, row_of, wal_row, set_row, value_set}
use pgroonga.Jsonb.Values.Rows.{IsRowOf, row_of-IsRowOf}
use pgroonga.Jsonb.Values.Keys.{IsQuoting, key_text-injective, row_of-shape}

Option-cases : (o : Option Row) → (o ≡ none) ⊎ ((row : Row) × (o ≡ some row))
Option-cases none = inl refl
Option-cases (some row) = inr (row, refl)

none_is_not_some : (row : Row) → none ≢ some row
none_is_not_some row e = cc

-- The columns of a row for the standby are as many as were announced.
abbrev IsCounted : WalRow → Type 0
IsCounted row = row.n_columns ≡ length row.columns

IsCounted-columns :
    (key : ℕ) (path : Option Bytes) (ids : List ℕ) (column : Option Scalar) (type : Bytes)
    → IsCounted (wal_row key (record { path = path; paths = ids; column = column; type = type }))
unfolding wal_row
IsCounted-columns key none ids none type = omega arith
IsCounted-columns key none ids (some s) type = omega arith
IsCounted-columns key (some path) ids none type = omega arith
IsCounted-columns key (some path) ids (some s) type = omega arith

wal_row-IsCounted : (key : ℕ) (row : Row) → IsCounted (wal_row key row)
wal_row-IsCounted key row = IsCounted-columns key row.path row.paths row.column row.type

All-append {ℓ κ} :
    {A : Type ℓ} (P : A → Type κ) (xs : List A) (x : A) → All P xs → P x → All P (xs ++ x ∷ [])
All-append P [] x ps p = (p, tt)
All-append P (y ∷ ys) x (q, ps) p = (q, All-append P ys x ps p)

-- `Occurs` are the places of the values that are inserted.
module _ (esc : Bytes → Bytes) (path_id : Bytes → ℕ) (hash : Bytes → ℕ) (has_wal : Bool)
    (Occurs : Place → Type 0) where
  abbrev pub key_of : Place → ℕ
  key_of p = hash (key_text esc p.components p.part)

  abbrev pub row_at : Place → Row
  row_at p = row_of esc path_id p.components p.part

  abbrev pub set_value : List Component → Part → Tables → Tables
  set_value = value_set esc path_id hash has_wal

  -- A row under its key is that of a place.
  abbrev pub IsOfPlace : ℕ × Row → Type 0
  IsOfPlace (key, row) = (p : Place) × Occurs p × (key ≡ key_of p) × (row ≡ row_at p)

  pub record IsValid (t : Tables) : Type 0 where
    pub of_places : All IsOfPlace t.rows
    pub counted : All IsCounted t.wal

  -- The texts of the different keys that occur have different hash values.
  abbrev pub HasNoCollision : Type 0
  HasNoCollision =
      (p q : Place)
      → Occurs p
      → Occurs q
      → key_of p ≡ key_of q
      → key_text esc p.components p.part ≡ key_text esc q.components q.part

  module _ (quoting : IsQuoting esc) (no_collision : HasNoCollision) where
    same_row : (p q : Place) → Occurs p → Occurs q → key_of p ≡ key_of q → row_at p ≡ row_at q
    same_row p q op oq e =
        let (same, part) =
          key_text-injective esc p.components q.components p.part q.part quoting
            (no_collision p q op oq e) in
        sym (row_of-shape esc path_id p.components p.part)
        ∙ (ap₂ (row_of esc path_id) same part ∙ row_of-shape esc path_id q.components q.part)

    find-IsOfPlace :
        (p : Place) (rows : List (ℕ × Row)) (row : Row)
        → Occurs p
        → All IsOfPlace rows
        → find (key_of p) rows ≡ some row
        → row ≡ row_at p
    unfolding find
    find-IsOfPlace p [] row o v h = cc
    find-IsOfPlace p ((k, r) ∷ rows) row o ((q, oq, e, f), v) h =
        elim (Bool-cases (key_of p == k)) [
          | inl same ↦
              let found : some r ≡ some row = rw same at h in
              let first : row ≡ r = cc in
              first ∙ (f ∙ same_row q p oq o (sym e ∙ sym ((==_iff (key_of p) k).0 same)))
          | inr other ↦ find-IsOfPlace p rows row o v (rw other at h)
        ]

    -- What one place does to the tables.
    record Sets (p : Place) (t t' : Tables) : Type 0 where
      valid : IsValid t'
      ids : t'.value_ids ≡ t.value_ids ++ key_of p ∷ []
      here : find (key_of p) t'.rows ≡ some (row_at p)
      kept : (key : ℕ) (row : Row) → find key t.rows ≡ some row → find key t'.rows ≡ some row

    IsCounted-wal :
        (p : Place) (t : Tables)
        → IsValid t
        → All IsCounted (if has_wal then t.wal ++ wal_row (key_of p) (row_at p) ∷ [] else t.wal)
    IsCounted-wal p t v = elim (Bool-cases has_wal) [
      | inl enabled ↦ rw enabled (
          All-append IsCounted t.wal (wal_row (key_of p) (row_at p)) v.counted
            (wal_row-IsCounted (key_of p) (row_at p)))
      | inr disabled ↦ rw disabled v.counted
    ]

    abbrev new_tables : Place → Tables → Tables
    new_tables p t = record {
      rows = (key_of p, row_at p) ∷ t.rows;
      value_ids = t.value_ids ++ key_of p ∷ [];
      wal = if has_wal then t.wal ++ wal_row (key_of p) (row_at p) ∷ [] else t.wal;
    }

    value_set_new :
        (p : Place) (t : Tables)
        → find (key_of p) t.rows ≡ none
        → set_value p.components p.part t ≡ new_tables p t
    unfolding value_set set_row
    value_set_new p t new = ap (set_row has_wal (key_of p) (row_at p) t) new

    value_set_old :
        (p : Place) (t : Tables) (row : Row)
        → find (key_of p) t.rows ≡ some row
        → set_value p.components p.part t ≡ record t { value_ids = t.value_ids ++ key_of p ∷ [] }
    unfolding value_set set_row
    value_set_old p t row old = ap (set_row has_wal (key_of p) (row_at p) t) old

    kept_behind :
        (k : ℕ) (r : Row) (rows : List (ℕ × Row)) (key : ℕ) (row : Row)
        → find k rows ≡ none
        → find key rows ≡ some row
        → find key ((k, r) ∷ rows) ≡ some row
    unfolding find
    kept_behind k r rows key row new h = elim (Bool-cases (key == k)) [
      | inr other ↦ rw other h
      | inl same ↦ absurd (
          none_is_not_some row
            (sym new ∙ (ap (λ x. find x rows) (sym ((==_iff key k).0 same)) ∙ h)))
    ]

    value_set-Sets :
        (p : Place) (t : Tables) → Occurs p → IsValid t → Sets p t (set_value p.components p.part t)
    unfolding find
    value_set-Sets p t o v = elim (Option-cases (find (key_of p) t.rows)) [
      | inl new ↦ subst (Sets p t) (sym (value_set_new p t new)) (record {
        valid = record {
          of_places = ((p, o, refl, refl), v.of_places);
          counted = IsCounted-wal p t v;
        };
        ids = refl;
        here = rw (==-refl (key_of p)) refl;
        kept = λ key row h. kept_behind (key_of p) (row_at p) t.rows key row new h;
      })
      | inr (row, old) ↦ subst (Sets p t) (sym (value_set_old p t row old)) (record {
        valid = record { of_places = v.of_places; counted = v.counted };
        ids = refl;
        here = old ∙ ap some (find-IsOfPlace p t.rows row o v.of_places old);
        kept = λ key row h. h;
      })
    ]

    -- What some places do, one after the other.
    record SetsAll (ps : List Place) (t t' : Tables) : Type 0 where
      valid : IsValid t'
      ids : t'.value_ids ≡ t.value_ids ++ map key_of ps
      here : All (λ p. find (key_of p) t'.rows ≡ some (row_at p)) ps
      kept : (key : ℕ) (row : Row) → find key t.rows ≡ some row → find key t'.rows ≡ some row

    set_all-SetsAll :
        (ps : List Place) (t : Tables)
        → All Occurs ps
        → IsValid t
        → SetsAll ps t (set_all set_value ps t)
    set_all-SetsAll [] t os v = record {
      valid = v;
      ids = sym (append-nil t.value_ids);
      here = tt;
      kept = λ key row h. h;
    }
    set_all-SetsAll (p ∷ ps) t (o, os) v =
        let one = value_set-Sets p t o v in
        let rest = set_all-SetsAll ps (set_value p.components p.part t) os one.valid in
        record {
          valid = rest.valid;
          ids =
              rest.ids
              ∙ (ap (λ ids. ids ++ map key_of ps) one.ids
                  ∙ append_assoc t.value_ids (key_of p ∷ []) (map key_of ps));
          here = (rest.kept (key_of p) (row_at p) one.here, rest.here);
          kept = λ key row h. rest.kept key row (one.kept key row h);
        }

    with_rows :
        (t : Tables) (ps : List Place)
        → All (λ p. find (key_of p) t.rows ≡ some (row_at p)) ps
        → All
            (λ p. (row : Row) × (find (key_of p) t.rows ≡ some row) × IsRowOf esc path_id p row)
            ps
    with_rows t [] all = tt
    with_rows t (p ∷ ps) (here, all) =
        ((row_at p, here, row_of-IsRowOf esc path_id p), with_rows t ps all)

    -- The insertion of a jsonb value ends without an error; the ids of the record grow by those of the places of the
    -- value in their order; under the key of each place there is a row with its complete path, if that is shorter
    -- than 4096 bytes, the ids of its paths, each once, the name of its type, and its value if it has one; all rows
    -- that were there are kept; and each row for the standby has as many columns as it was announced with. The rows
    -- that were there are of places, the quoting of a text tells its end, and the keys of the places that occur do not
    -- collide.
    pub insert_container-rows :
        (c : Container) (t : Tables) (key : ℕ)
        → All Occurs (places [] c)
        → IsValid t
        → (t' : Tables) × (insert_container set_value
              (container_tokens c)
              (record { components = []; token_stack = []; tables = t })
            ≡ ok (record { components = []; token_stack = []; tables = t' }))
          × IsValid t'
          × (t'.value_ids ≡ t.value_ids ++ map key_of (places [] c))
          × All
              (λ p. (row : Row) × (find (key_of p) t'.rows ≡ some row) × IsRowOf esc path_id p row)
              (places [] c)
          × ((find key t.rows ≡ none) ⊎ (find key t'.rows ≡ find key t.rows))
    insert_container-rows c t key os v =
        let all = set_all-SetsAll (places [] c) t os v in
        (
          set_all set_value (places [] c) t,
          insert_container-places set_value c
              (record { components = []; token_stack = []; tables = t }),
          all.valid,
          all.ids,
          with_rows (set_all set_value (places [] c) t) (places [] c) all.here,
          elim (Option-cases (find key t.rows)) [
            | inl new ↦ inl new
            | inr (row, old) ↦ inr (all.kept key row old ∙ sym old)
          ],
        )
