-- ===== src/Strings/Laws.antt =====
-- The substitution of variables undoes the writing of a template.
use pgroonga.Base.{
  ℕ, zero, suc, ◌-◌, ◌≤◌, ◌<◌, ◌≡◌, ◌≢◌, refl, sym, ap, ◌∙◌, false, Bytes, codes, List, All, [],
  ◌∷◌, ◌++◌, length, length-append, append_assoc, append-nil, take-append, drop-append, ◌==◌, none,
  some, arith,
}
use pgroonga.Strings.{
  State, raw, escape, variable_start, in_variable_block, is_byte, step, substitute_from,
  substitute_variables,
}

-- A part of a template: a character that stands for itself, any character behind a backslash, or the name of the
-- sources table of an index.
pub data Part : Type 0 where
  plain escaped : Bytes → Part
  table : List Bytes → Part

abbrev pub concat : List Bytes → Bytes
concat [] = []
concat (c ∷ cs) = c ++ concat cs

-- How a template is written.
abbrev pub template : List Part → Bytes
template [] = []
template (plain c ∷ parts) = c ++ template parts
template (escaped c ∷ parts) = b'\\' ∷ (c ++ template parts)
template (table cs ∷ parts) = codes "${table:" ++ (concat cs ++ (b'}' ∷ template parts))

pub not_zero : (n : ℕ) → (suc n == 0) ≡ false
not_zero n = ground arith

pub some_bytes : (c : Bytes) → c ≢ [] → 1 ≤ length c
some_bytes [] ne = absurd (ne refl)
some_bytes (b ∷ c) ne = omega arith

module _ (charlen : Bytes → ℕ) (sources_table_name : Bytes → Bytes) where
  -- What a template means.
  abbrev pub meaning : List Part → Bytes
  meaning [] = []
  meaning (plain c ∷ parts) = c ++ meaning parts
  meaning (escaped c ∷ parts) = c ++ meaning parts
  meaning (table cs ∷ parts) = sources_table_name (concat cs) ++ meaning parts

  -- The length of a character is found, whatever follows it.
  abbrev pub IsCharacter : Bytes → Type 0
  IsCharacter c = (c ≢ []) × ((rest : Bytes) → charlen (c ++ rest) ≡ length c)

  abbrev pub IsPart : Part → Type 0
  IsPart (plain c) = IsCharacter c × (is_byte b'\\' c ≡ false) × (is_byte b'$' c ≡ false)
  IsPart (escaped c) = IsCharacter c
  IsPart (table cs) = All (λ c. IsCharacter c × (is_byte b'}' c ≡ false)) cs

  -- A round of the loop.
  round :
      (fuel : ℕ) (state : State) (c rest : Bytes)
      → IsCharacter c
      → substitute_from charlen sources_table_name (suc fuel) state (c ++ rest)
        ≡ (step charlen sources_table_name state c).0
          ++ substitute_from charlen sources_table_name fuel
              (step charlen sources_table_name state c).1
              rest
  unfolding substitute_from
  round fuel state [] rest (ne, len) = absurd (ne refl)
  round fuel state (b ∷ c) rest (ne, len) =
      rw (len rest, take-append (b ∷ c) rest, drop-append (b ∷ c) rest, not_zero (length c)) refl

  step_target :
      (start target c : Bytes)
      → is_byte b'}' c ≡ false
      → step charlen sources_table_name (in_variable_block start (some target)) c
        ≡ ([], in_variable_block (start ++ c) (some (target ++ c)))
  unfolding step
  step_target start target c h = rw h refl

  step_plain :
      (c : Bytes)
      → is_byte b'\\' c ≡ false
      → is_byte b'$' c ≡ false
      → step charlen sources_table_name raw c ≡ (c, raw)
  unfolding step
  step_plain c h k = rw (h, k) refl

  -- The loop over the name of an index, up to the brace.
  over_target :
      (fuel : ℕ) (start target : Bytes) (cs : List Bytes) (rest : Bytes)
      → IsCharacter (codes "}")
      → All (λ c. IsCharacter c × (is_byte b'}' c ≡ false)) cs
      → length (concat cs ++ (b'}' ∷ rest)) ≤ fuel
      → (fuel' : ℕ) × (length rest ≤ fuel')
        × (substitute_from charlen sources_table_name fuel
              (in_variable_block start (some target))
              (concat cs ++ (b'}' ∷ rest))
            ≡ sources_table_name (target ++ concat cs)
              ++ substitute_from charlen sources_table_name fuel' raw rest)
  unfolding step
  over_target zero start target cs rest brace all le =
      absurd (omega (arith, le, length-append (concat cs) (b'}' ∷ rest)))
  over_target (suc fuel) start target [] rest brace all le = (
    fuel,
    omega (arith, le),
    round fuel (in_variable_block start (some target)) (codes "}") rest brace
        ∙ ap (λ t. sources_table_name t ++ substitute_from charlen sources_table_name fuel raw rest)
            (sym (append-nil target)),
  )
  over_target (suc fuel) start target (c ∷ cs) rest brace ((is, no_brace), all) le =
      let ih = over_target fuel (start ++ c) (target ++ c) cs rest brace all (
        omega (
          arith,
          le,
          some_bytes c is.0,
          length-append (c ++ concat cs) (b'}' ∷ rest),
          length-append c (concat cs),
          length-append (concat cs) (b'}' ∷ rest),
        )) in
      (
        ih.0,
        ih.1,
        ap
              (substitute_from charlen sources_table_name (suc fuel)
                (in_variable_block start (some target)))
              (append_assoc c (concat cs) (b'}' ∷ rest))
            ∙ round fuel (in_variable_block start (some target)) c (concat cs ++ (b'}' ∷ rest)) is
            ∙ ap
                (λ w.
                  w.0
                  ++ substitute_from charlen sources_table_name fuel w.1
                      (concat cs ++ (b'}' ∷ rest)))
                (step_target start target c no_brace)
            ∙ ih.2
            ∙ ap
                (λ t.
                  sources_table_name t ++ substitute_from charlen sources_table_name ih.0 raw rest)
                (append_assoc target c (concat cs)),
      )

  abbrev AreCharacters : Type 0
  AreCharacters = (b : ℕ) → b < 128 → IsCharacter (b ∷ [])

  -- The eight characters that start the name of a sources table.
  over_start :
      (f : ℕ) (s : Bytes)
      → AreCharacters
      → substitute_from charlen sources_table_name
          (suc (suc (suc (suc (suc (suc (suc (suc f))))))))
          raw
          (codes "${table:" ++ s)
        ≡ substitute_from charlen sources_table_name f
            (in_variable_block (codes "${table:") (some []))
            s
  unfolding step
  over_start f s ascii =
      round (suc (suc (suc (suc (suc (suc (suc f))))))) raw (codes "$") (codes "{table:" ++ s)
        (ascii b'$' (omega arith))
      ∙ round (suc (suc (suc (suc (suc (suc f)))))) (variable_start (codes "$")) (codes "{")
          (codes "table:" ++ s) (ascii b'{' (omega arith))
      ∙ round (suc (suc (suc (suc (suc f))))) (in_variable_block (codes "${") none) (codes "t")
          (codes "able:" ++ s) (ascii b't' (omega arith))
      ∙ round (suc (suc (suc (suc f)))) (in_variable_block (codes "${t") none) (codes "a")
          (codes "ble:" ++ s) (ascii b'a' (omega arith))
      ∙ round (suc (suc (suc f))) (in_variable_block (codes "${ta") none) (codes "b")
          (codes "le:" ++ s) (ascii b'b' (omega arith))
      ∙ round (suc (suc f)) (in_variable_block (codes "${tab") none) (codes "l") (codes "e:" ++ s)
          (ascii b'l' (omega arith))
      ∙ round (suc f) (in_variable_block (codes "${tabl") none) (codes "e") (codes ":" ++ s)
          (ascii b'e' (omega arith))
      ∙ round f (in_variable_block (codes "${table") none) (codes ":") s (ascii b':' (omega arith))

  at_end :
      (fuel : ℕ) (state : State) → substitute_from charlen sources_table_name fuel state [] ≡ []
  unfolding substitute_from
  at_end zero state = refl
  at_end (suc fuel) state = refl

  substitute_from-template :
      (fuel : ℕ) (parts : List Part)
      → AreCharacters
      → All IsPart parts
      → length (template parts) ≤ fuel
      → substitute_from charlen sources_table_name fuel raw (template parts) ≡ meaning parts
  unfolding step
  substitute_from-template fuel [] ascii all le = at_end fuel raw
  substitute_from-template zero (plain c ∷ parts) ascii ((is, h, k), all) le =
      absurd (omega (arith, le, some_bytes c is.0, length-append c (template parts)))
  substitute_from-template (suc fuel) (plain c ∷ parts) ascii ((is, h, k), all) le =
      round fuel raw c (template parts) is
      ∙ ap (λ w. w.0 ++ substitute_from charlen sources_table_name fuel w.1 (template parts))
          (step_plain c h k)
      ∙ ap (λ t. c ++ t)
          (substitute_from-template fuel parts ascii all
            (omega (arith, le, some_bytes c is.0, length-append c (template parts))))
  substitute_from-template zero (escaped c ∷ parts) ascii (is, all) le = absurd (omega (arith, le))
  substitute_from-template (suc zero) (escaped c ∷ parts) ascii (is, all) le =
      absurd (omega (arith, le, some_bytes c is.0, length-append c (template parts)))
  substitute_from-template (suc (suc fuel)) (escaped c ∷ parts) ascii (is, all) le =
      round (suc fuel) raw (b'\\' ∷ []) (c ++ template parts) (ascii b'\\' (omega arith))
      ∙ round fuel escape c (template parts) is
      ∙ ap (λ t. c ++ t)
          (substitute_from-template fuel parts ascii all
            (omega (arith, le, some_bytes c is.0, length-append c (template parts))))
  substitute_from-template fuel (table cs ∷ parts) ascii (is, all) le =
      let eight : fuel ≡ suc (suc (suc (suc (suc (suc (suc (suc (fuel - 8)))))))) =
        omega (arith, le) in
      let r =
        over_target (fuel - 8) (codes "${table:") [] cs (template parts) (ascii b'}' (omega arith))
          is (omega (arith, le)) in
      ap (λ f. substitute_from charlen sources_table_name f raw (template (table cs ∷ parts))) eight
      ∙ over_start (fuel - 8) (concat cs ++ (b'}' ∷ template parts)) ascii
      ∙ r.2
      ∙ ap (λ t. sources_table_name (concat cs) ++ t)
          (substitute_from-template r.0 parts ascii all r.1)

  -- A written template is substituted by what it means: a character that is neither a backslash nor a dollar by
  -- itself, any character behind a backslash by itself, and ${table:index} by the sources table's name of the
  -- index. The length of each character, and of each byte of ASCII, is found whatever follows it, and the
  -- name of an index has no brace that closes.
  pub substitute_variables-template :
      (parts : List Part)
      → ((b : ℕ) → b < 128 → IsCharacter (b ∷ []))
      → All IsPart parts
      → substitute_variables charlen sources_table_name (template parts) ≡ meaning parts
  unfolding substitute_variables
  substitute_variables-template parts ascii all =
      substitute_from-template (length (template parts)) parts ascii all (omega arith)
