-- ===== src/Wal/Record/Laws.antt =====
-- The rules of `Parses` and `Extends` for the common fields, and what they give for whole records.
use pgroonga.Base.{
  ℕ, ◌≡◌, ◌≢◌, refl, sym, subst, ap, Bytes, [], ◌∷◌, ◌++◌, length, take, take_all,
  from_le-to_le_four, arith,
}
use pgroonga.Wal.Raw.{
  Reader, Raw, Result, ok, err, garbage, pure, continue, ◌>>=◌, ◌>>◌, refer, expect_end,
}
use pgroonga.Wal.Raw.Parses.{Parses, Parses-all, Parses-bind_pure, Parses-read_data, Parses-refer}
use pgroonga.Wal.Raw.Extends.{Extends, extends_rules}
use pgroonga.Wal.Record.{Common, common_bytes, common_of, read_common, until_end, IsWords}

pub common_of-bytes :
    (c : Common) (rest : Bytes) → IsWords c → common_of (common_bytes c ++ rest) ≡ c
unfolding common_bytes
common_of-bytes c rest h = λ i. record {
  db_id = from_le-to_le_four c.db_id h.db_id i;
  db_encoding = from_le-to_le_four c.db_encoding h.db_encoding i;
  db_table_space_id = from_le-to_le_four c.db_table_space_id h.db_table_space_id i;
}

pub Parses-read_common :
    (c : Common) (padding : Bytes)
    → IsWords c
    → length padding ≡ 4
    → Parses (read_common 16) (common_bytes c ++ padding) c
unfolding read_common
Parses-read_common c padding h e =
    subst (λ d. Parses (read_common 16) (common_bytes c ++ padding) d) (common_of-bytes c padding h)
      (Parses-bind_pure common_of
        (Parses-read_data (common_bytes c ++ padding) (unfold common_bytes in omega arith)))

-- A pointer and a size: the memory written is exactly what the reference reads.
pub Parses-taken : (n : ℕ) (bs : Bytes) → length bs ≡ n → Parses (refer n) (take n bs) bs
Parses-taken n bs e =
    subst (λ k. Parses (refer k) (take k bs) bs) e
      (subst (λ t. Parses (refer (length bs)) t bs) (sym (take_all bs)) (Parses-refer bs refl))

pub Extends-read_common : (size : ℕ) → Extends (read_common size)
unfolding read_common
Extends-read_common size = search extends_rules

module _ {ℓ} {A : Type ℓ} where
  finished :
      (x : Result (A × Raw)) (r : A × Raw)
      → continue (λ a. expect_end >> pure a) x ≡ ok r
      → (a : A) × (x ≡ ok (a, []))
  unfolding expect_end ◌>>=◌ pure
  finished (ok (a, [])) r h = (a, refl)
  finished (ok (a, b ∷ raw)) r h = cc
  finished (err e) r h = cc

  -- The whole record is read back, and nothing is left.
  pub until_end_all :
      {m : Reader A} {bs : Bytes} {a : A} → Parses m bs a → until_end m bs ≡ ok (a, [])
  unfolding until_end ◌>>=◌ pure expect_end
  until_end_all {m} {bs} p = ap (continue (λ r. expect_end >> pure r)) (Parses-all p)

  -- Whatever follows the record is reported as garbage of that size.
  pub until_end_garbage :
      {m : Reader A} {bs : Bytes} {a : A} (more : Bytes)
      → Parses m bs a
      → more ≢ []
      → until_end m (bs ++ more) ≡ err (garbage (length more))
  unfolding until_end ◌>>=◌ pure expect_end
  until_end_garbage {m} [] p h = absurd (h refl)
  until_end_garbage {m} (b ∷ more) p h = ap (continue (λ r. expect_end >> pure r)) (p.at (b ∷ more))

  -- A record that is cut short is refused.
  pub until_end_cut :
      {m : Reader A} {bs : Bytes} {a : A} (part lost : Bytes)
      → Extends m
      → Parses m bs a
      → part ++ lost ≡ bs
      → lost ≢ []
      → (r : A × Raw) → until_end m part ≢ ok r
  unfolding until_end ◌>>=◌
  until_end_cut {m} part lost e p q h r accepted =
      let (a', read) = finished (m part) r accepted in
      h (cc (e.at part lost a' [] read, Parses-all p, ap m q))
