-- ===== src/Wal/Value/Laws.antt =====
-- A value is read back from what was written for it.
use pgroonga.Base.{
  ℕ, ◌^◌, ◌<◌, ◌≡◌, refl, subst, sym, ap, Bytes, ◌++◌, length, take, take_all, some,
}
use pgroonga.Wal.Raw.{ok, refer, u32}
use pgroonga.Wal.Raw.Parses.{
  Parses, Parses-bind, Parses-bind_pure, Parses-read_u32, Parses-read_data,
}
use pgroonga.Wal.Raw.Extends.{Extends, extends_rules, Extends-read_u32}
use pgroonga.Wal.Record.Laws.{Parses-taken}
use pgroonga.Wal.Value.{
  BuiltIn, bool, Groonga, Layout, fixed, sized, unsupported, write_layout, read_layout,
  write_laid_out, read_laid_out, write_value, read_value,
}

-- The two switches agree on every label.
read_layout-eq-write_layout : (b : BuiltIn) → read_layout b ≡ write_layout b
unfolding read_layout write_layout
read_layout-eq-write_layout bool = refl
read_layout-eq-write_layout _ = refl

-- The value has the size of its type; a text's size fits its variable.
abbrev pub Suits : Layout → Bytes → Type 0
Suits (fixed width) value = length value ≡ width
Suits sized value = length value < 2 ^ 32
Suits unsupported value = ⊥

-- The bytes that stand for a value in the record.
abbrev pub laid_out : Layout → Bytes → Bytes
laid_out sized value = u32 (length value) ++ value
laid_out _ value = value

write-laid_out :
    (l : Layout) (domain : ℕ) (value : Bytes)
    → Suits l value
    → write_laid_out l domain value (length value) ≡ ok (laid_out l value)
unfolding write_laid_out
write-laid_out (fixed width) domain value h =
    ap ok (subst (λ n. take n value ≡ value) h (take_all value))
write-laid_out sized domain value h = ap (λ t. ok (u32 (length value) ++ t)) (take_all value)
write-laid_out unsupported domain value h = absurd h

Parses-laid_out :
    (l : Layout) (value : Bytes)
    → Suits l value
    → Parses (read_laid_out l) (laid_out l value) (some value)
unfolding read_laid_out
Parses-laid_out (fixed width) value h = Parses-bind_pure some (Parses-read_data value h)
Parses-laid_out sized value h = Parses-bind _ (Parses-read_u32 (length value) h) (
    Parses-bind_pure some (
      subst (λ t. Parses (refer (length value)) t value) (take_all value)
        (Parses-taken (length value) value refl)))
Parses-laid_out unsupported value h = absurd h

Extends-laid_out : (l : Layout) → Extends (read_laid_out l)
unfolding read_laid_out
Extends-laid_out (fixed width) = search extends_rules
Extends-laid_out sized = search (extends_rules, Extends-read_u32)
Extends-laid_out unsupported = search extends_rules

module _ (g : Groonga) where
  abbrev pub layout_of : ℕ → Layout
  layout_of domain = write_layout (g.built_in domain)

  pub write_value-eq-ok :
      (domain : ℕ) (value : Bytes)
      → Suits (layout_of domain) value
      → write_value g domain value (length value) ≡ ok (laid_out (layout_of domain) value)
  unfolding write_value
  write_value-eq-ok domain value h = write-laid_out (layout_of domain) domain value h

  pub Parses-value :
      (domain : ℕ) (value : Bytes)
      → Suits (layout_of domain) value
      → Parses (read_value g domain) (laid_out (layout_of domain) value) (some value)
  unfolding read_value
  Parses-value domain value h =
      subst (λ l. Parses (read_laid_out l) (laid_out (layout_of domain) value) (some value))
        (sym (read_layout-eq-write_layout (g.built_in domain)))
        (Parses-laid_out (layout_of domain) value h)

  pub Extends-value : (domain : ℕ) → Extends (read_value g domain)
  unfolding read_value
  Extends-value domain = Extends-laid_out (read_layout (g.built_in domain))
