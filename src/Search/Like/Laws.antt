-- ===== src/Search/Like/Laws.antt =====
-- What the condition of LIKE asks for, and that a text which matches has it.
use pgroonga.Base.{ℕ, ◌≡◌, false, Bytes, List, [], ◌∷◌, ◌++◌, ◌==◌}
use pgroonga.Search.Like.{Condition, all_records, any_of, flush, is_wildcard}

-- A part of a pattern: a byte that stands for itself, any byte behind a backslash, %, and _.
pub data Part : Type 0 where
  plain escaped : ℕ → Part
  any_text any_character : Part

abbrev pub pattern_of : List Part → Bytes
pattern_of [] = []
pattern_of (plain b ∷ parts) = b ∷ pattern_of parts
pattern_of (escaped b ∷ parts) = b'\\' ∷ (b ∷ pattern_of parts)
pattern_of (any_text ∷ parts) = b'%' ∷ pattern_of parts
pattern_of (any_character ∷ parts) = b'_' ∷ pattern_of parts

abbrev pub IsWritten : Part → Type 0
IsWritten (plain b) = ((b == b'\\') ≡ false) × (is_wildcard b ≡ false)
IsWritten (escaped b) = Unit
IsWritten any_text = Unit
IsWritten any_character = Unit

-- The texts that the parts of a pattern match; `IsCharacter` are the bytes of a character.
abbrev pub Matches : (Bytes → Type 0) → List Part → Bytes → Type 0
Matches IsCharacter [] text = text ≡ []
Matches IsCharacter (plain b ∷ parts) text =
    (rest : Bytes) × (text ≡ b ∷ rest) × Matches IsCharacter parts rest
Matches IsCharacter (escaped b ∷ parts) text =
    (rest : Bytes) × (text ≡ b ∷ rest) × Matches IsCharacter parts rest
Matches IsCharacter (any_text ∷ parts) text =
    (skipped : Bytes) × (rest : Bytes) × (text ≡ skipped ++ rest) × Matches IsCharacter parts rest
Matches IsCharacter (any_character ∷ parts) text =
    (character : Bytes) × (rest : Bytes) × IsCharacter character
    × (text ≡ character ++ rest)
    × Matches IsCharacter parts rest

-- The runs of bytes between the wildcards, behind an open one.
abbrev pub runs : Bytes → List Part → List Bytes
runs keyword [] = flush keyword []
runs keyword (plain b ∷ parts) = runs (keyword ++ b ∷ []) parts
runs keyword (escaped b ∷ parts) = runs (keyword ++ b ∷ []) parts
runs keyword (any_text ∷ parts) = flush keyword [] ++ runs [] parts
runs keyword (any_character ∷ parts) = flush keyword [] ++ runs [] parts

abbrev pub Contains : Bytes → Bytes → Type 0
Contains text keyword = (before : Bytes) × (after : Bytes) × (text ≡ before ++ (keyword ++ after))

-- The condition that asks for one of some keywords, and for every row where there is none.
abbrev pub asks_for : List Bytes → Condition
asks_for [] = all_records
asks_for (keyword ∷ keywords) = any_of (keyword ∷ keywords)
