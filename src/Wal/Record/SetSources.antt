-- ===== src/Wal/Record/SetSources.antt =====
-- The record of the sources of an index column: `PGrnWALRecordSetSources` of src/pgrn-wal-custom.h.

use pgroonga.Base.{
  ℕ, zero, suc, ◌-◌, ◌^◌, ◌<◌, ◌≡◌, subst, sym, false, Bytes, List, [], ◌∷◌, ◌++◌, append-nil,
  append_assoc, length, ◌==◌, if◌then◌else◌, Option, none, some, All, arith, ap, refl,
}
use pgroonga.Wal.Raw.{Reader, pure, ◌>>=◌, refer, read_u32, read_u64, u32, u64}
use pgroonga.Wal.Raw.Parses.{
  Parses, Parses-pure, Parses-bind, Parses-bind_pure, Parses-read_u32, Parses-read_u64,
  Parses-refer,
}
use pgroonga.Wal.Raw.Extends.{
  Extends, extends_rules, Extends-pure, Extends-bind, Extends-read_u32, Extends-read_u64,
}
use pgroonga.Wal.Object.{GrnObj, write_grn_obj, read_grn_obj, loaded, IsSmall}
use pgroonga.Wal.Object.Laws.{Parses-grn_obj, Extends-grn_obj}
use pgroonga.Wal.Record.{Common, common_bytes, read_common, until_end, IsWords}
use pgroonga.Wal.Record.Laws.{Parses-read_common, Extends-read_common}

pub record SetSources (O : Type 0) : Type 0 where
  pub common : Common
  pub column : O
  pub source_ids : List ℕ
  pub source_names : List Bytes

unfoldable pub fill : {O : Type 0} → Common → O → List ℕ → SetSources O
fill common column source_ids = record {
  common = common;
  column = column;
  source_ids = source_ids;
  source_names = [];
}

-- The size -1 of a source that Groonga does not know.
abbrev no_source : ℕ
no_source = 2 ^ 32 - 1

-- The size and the bytes that stand for one source.
write_source : Option Bytes → Bytes
write_source none = u32 no_source
write_source (some name) = u32 (length name) ++ name

write_sources : List (Option Bytes) → Bytes
write_sources [] = []
write_sources (source ∷ sources) = write_source source ++ write_sources sources

-- `source_name id` is the name of the object with that id, if Groonga has one (`grn_ctx_at` and
-- `grn_obj_name`).
abbrev pub sources_of : (ℕ → Option Bytes) → List ℕ → List (Option Bytes)
sources_of source_name [] = []
sources_of source_name (id ∷ ids) = source_name id ∷ sources_of source_name ids

unfoldable pub write : (ℕ → Option Bytes) → SetSources (Option GrnObj) → Bytes → Bytes
unfolding write_sources write_source
write source_name r padding =
    (common_bytes r.common ++ padding)
    ++ (write_grn_obj r.column
        ++ (u64 (length r.source_ids) ++ write_sources (sources_of source_name r.source_ids)))

-- The name that a round of the loop adds, if any.
read_source : ℕ → Reader (List Bytes)
read_source size = if size == no_source then pure [] else do name ← refer size; pure (name ∷ [])

read_sources : ℕ → List Bytes → Reader (List Bytes)
read_sources zero names = pure names
read_sources (suc n) names = do
  size ← read_u32
  found ← read_source size
  read_sources n (names ++ found)

unfoldable pub fields : Reader (SetSources (Option Bytes))
unfolding read_source read_sources
fields = do
  common ← read_common 16
  column ← read_grn_obj
  n ← read_u64
  names ← read_sources n []
  pure (record { common = common; column = column; source_ids = []; source_names = names })

unfoldable pub read : Reader (SetSources (Option Bytes))
unfolding fields
read = until_end fields

-- The names of the sources that Groonga knows, in the order of the ids.
unfoldable pub known_names : List (Option Bytes) → List Bytes
known_names [] = []
known_names (none ∷ sources) = known_names sources
known_names (some name ∷ sources) = name ∷ known_names sources

-- The reader has names where the writer had ids.
unfoldable pub as_read : (ℕ → Option Bytes) → SetSources (Option GrnObj) → SetSources (Option Bytes)
unfolding known_names
as_read source_name r = record {
  common = r.common;
  column = loaded r.column;
  source_ids = [];
  source_names = known_names (sources_of source_name r.source_ids);
}

-- A name's size is a non-negative int32.
abbrev pub IsName : Option Bytes → Type 0
IsName none = Unit
IsName (some name) = length name < 2 ^ 31

pub record IsFilled (source_name : ℕ → Option Bytes) (r : SetSources (Option GrnObj))
    (padding : Bytes) : Type 0 where
  pub words : IsWords r.common
  pub padded : length padding ≡ 4
  pub column : IsSmall r.column
  pub count_fits : length r.source_ids < 2 ^ 64
  pub names : All IsName (sources_of source_name r.source_ids)

named_source :
    (name : Bytes) → length name < 2 ^ 31 → Parses (read_source (length name)) name (name ∷ [])
unfolding read_source
named_source name h =
    let named : (length name == no_source) ≡ false = ground arith in
    rw named (Parses-bind_pure (λ n. n ∷ []) (Parses-refer name refl))

void_source : Parses (read_source no_source) [] []
unfolding read_source
void_source = Parses-pure []

-- One round, and the rounds that follow it.
Parses-round :
    {size : ℕ} {bs rest : Bytes} {found known : List Bytes} (names : List Bytes) (n : ℕ)
    → size < 2 ^ 32
    → Parses (read_source size) bs found
    → Parses (read_sources n (names ++ found)) rest known
    → Parses (read_sources (suc n) names) (u32 size ++ (bs ++ rest)) known
unfolding read_sources
Parses-round names n h p q = Parses-bind _ (Parses-read_u32 _ h) (Parses-bind _ p q)

Parses-sources :
    (sources : List (Option Bytes)) (names : List Bytes)
    → All IsName sources
    → Parses
        (read_sources (length sources) names)
        (write_sources sources)
        (names ++ known_names sources)
unfolding write_sources known_names write_source
Parses-sources [] names h = unfold read_sources in rw append-nil (Parses-pure names)
Parses-sources (none ∷ sources) names h =
    Parses-round names (length sources) (omega arith) void_source (
      subst
        (λ ns.
          Parses (read_sources (length sources) (names ++ [])) (write_sources sources)
            (ns ++ known_names sources))
        (append-nil names) (Parses-sources sources (names ++ []) h.1))
Parses-sources (some name ∷ sources) names h =
    subst
      (λ bs.
        Parses (read_sources (suc (length sources)) names) bs
          (names ++ known_names (some name ∷ sources)))
      (sym (append_assoc (u32 (length name)) name (write_sources sources)))
      (Parses-round names (length sources) (omega arith) (named_source name h.0) (
        subst
          (λ ns.
            Parses (read_sources (length sources) (names ++ name ∷ [])) (write_sources sources) ns)
          (append_assoc names (name ∷ []) (known_names sources))
          (Parses-sources sources (names ++ name ∷ []) h.1)))

length-sources_of :
    (source_name : ℕ → Option Bytes) (ids : List ℕ)
    → length (sources_of source_name ids) ≡ length ids
length-sources_of source_name [] = refl
length-sources_of source_name (id ∷ ids) = ap suc (length-sources_of source_name ids)

pub Parses-fields :
    (source_name : ℕ → Option Bytes) (r : SetSources (Option GrnObj)) (padding : Bytes)
    → IsFilled source_name r padding
    → Parses fields (write source_name r padding) (as_read source_name r)
unfolding fields write as_read
Parses-fields source_name r padding h =
    Parses-bind _ (Parses-read_common r.common padding h.words h.padded) (
      Parses-bind _ (Parses-grn_obj r.column h.column) (
        Parses-bind _ (Parses-read_u64 (length r.source_ids) h.count_fits) (
          Parses-bind_pure _ (
            subst (λ n. Parses (read_sources n []) (write_sources sources) (known_names sources))
              (length-sources_of source_name r.source_ids) (Parses-sources sources [] h.names)))))
  where
    sources : List (Option Bytes)
    sources = sources_of source_name r.source_ids

Extends-read_source : (size : ℕ) → Extends (read_source size)
unfolding read_source
Extends-read_source size = search extends_rules

Extends-read_sources : (n : ℕ) (names : List Bytes) → Extends (read_sources n names)
unfolding read_sources
Extends-read_sources zero names = Extends-pure names
Extends-read_sources (suc n) names = Extends-bind _ _ Extends-read_u32 (λ size.
    Extends-bind _ _ (Extends-read_source size) (λ found. Extends-read_sources n (names ++ found)))

pub Extends-fields : Extends fields
unfolding fields
Extends-fields =
    search
      (extends_rules, Extends-read_u64, Extends-read_common, Extends-grn_obj, Extends-read_sources)
      depth 18
