-- ===== src/Strings.antt =====
-- Texts with variables: src/pgrn-string.c. `charlen` stands for Groonga's `grn_charlen`, which gives 0 at bytes that are
-- no character. A pointer to the start of a variable is the bytes from there on.
pub mod Laws
pub mod Index
use pgroonga.Base.{
  ℕ, zero, suc, ◌+◌, Bool, true, false, ◌&&◌, Bytes, codes, List, [], ◌∷◌, ◌++◌, length, take, drop,
  bytes_eq, leb, ◌==◌, if◌then◌else◌, Option, none, some,
}

-- The state, with the bytes from the `$` on, and those from the start of the target on once the variable is known.
pub data State : Type 0 where
  raw escape : State
  variable_start : Bytes → State
  in_variable_block : Bytes → Option Bytes → State

abbrev pub is_byte : ℕ → Bytes → Bool
is_byte b character = bytes_eq character (b ∷ [])

module _ (charlen : Bytes → ℕ) where
  -- `index_text` is what `grn_text_printf` prints for "%s[%d]".
  unfoldable pub substitute_index_from : Bytes → ℕ → Bytes → Bytes
  substitute_index_from index_text zero string = []
  substitute_index_from index_text (suc fuel) [] = []
  substitute_index_from index_text (suc fuel) (c ∷ string) =
      let n = charlen (c ∷ string) in
      let is_variable = (n == 1) && bytes_eq (take 6 (c ∷ string)) (codes "$index") in
      let rest =
        substitute_index_from index_text fuel (drop (if is_variable then 6 else n) (c ∷ string)) in
      if n == 0 then [] else (if is_variable then index_text else take n (c ∷ string)) ++ rest

  -- `PGrnStringSubstituteIndex`
  unfoldable pub substitute_index : Bytes → Bytes → Bytes
  unfolding substitute_index_from
  substitute_index index_text string = substitute_index_from index_text (length string) string

  -- `sources_table_name` stands for `PGrnFormatSourcesTableName`.
  module _ (sources_table_name : Bytes → Bytes) where
    -- What one character writes, and the state behind it.
    unfoldable pub end_of_block : Bytes → Option Bytes → Bytes
    end_of_block start none = start ++ codes "}"
    end_of_block start (some target) = sources_table_name target

    unfoldable pub in_block : Bytes → Option Bytes → Bytes → Bytes × State
    unfolding end_of_block
    in_block start none character =
        if is_byte b':' character
        then (
          [],
          in_variable_block (start ++ character)
              (if bytes_eq (drop 2 start) (codes "table") then some [] else none),
        )
        else if is_byte b'}' character
        then (end_of_block start none, raw)
        else ([], in_variable_block (start ++ character) none)
    in_block start (some target) character =
        if is_byte b'}' character
        then (end_of_block start (some target), raw)
        else ([], in_variable_block (start ++ character) (some (target ++ character)))

    unfoldable pub step : State → Bytes → Bytes × State
    unfolding in_block
    step raw character =
        if is_byte b'\\' character
        then ([], escape)
        else if is_byte b'$' character
        then ([], variable_start character)
        else (character, raw)
    step escape character = (character, raw)
    step (variable_start start) character =
        if is_byte b'{' character
        then ([], in_variable_block (start ++ character) none)
        else (start ++ character, raw)
    step (in_variable_block start target) character = in_block start target character

    -- The loop of `PGrnStringSubstituteVariables`; what is in no state `raw` at the end is not written.
    unfoldable pub substitute_from : ℕ → State → Bytes → Bytes
    unfolding step
    substitute_from zero state string = []
    substitute_from (suc fuel) state [] = []
    substitute_from (suc fuel) state (c ∷ string) =
        let n = charlen (c ∷ string) in
        let written = step state (take n (c ∷ string)) in
        let rest = substitute_from fuel written.1 (drop n (c ∷ string)) in
        if n == 0 then [] else written.0 ++ rest

    unfoldable pub substitute_variables : Bytes → Bytes
    unfolding substitute_from
    substitute_variables string = substitute_from (length string) raw string
