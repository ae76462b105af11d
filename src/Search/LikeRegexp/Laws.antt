-- ===== src/Search/LikeRegexp/Laws.antt =====
-- The regular expression finds the texts that LIKE matches.
use pgroonga.Base.{
  ℕ, zero, suc, ◌<◌, ◌≡◌, ◌↔◌, refl, sym, ap, ◌∙◌, Bool, true, false, Bytes, codes, List, All, [],
  ◌∷◌, ◌++◌, length, append_assoc, append-nil, length-append, take-append, drop-append, ◌==◌, arith,
}
use pgroonga.Search.LikeRegexp.{
  Built, regexp, is_special, quoted, is_empty, round, finish, like_loop, first_byte, like_regexp,
}
use pgroonga.Search.LikeRegexp.Items.{
  Single, plain, escaped, any_character, Part, one, any_text, single_bytes, pattern_of, Matches,
  Item, literal, character, print, print_all, Finds, item_of, body, items_of, Finds-items_of,
}

-- `grn_charlen` measures the characters; those of several bytes do not begin as a wildcard or a backslash.
pub record Measures (charlen : Bytes → ℕ) (IsCharacter : Bytes → Type 0) : Type 0 where
  pub measured : (c rest : Bytes) → IsCharacter c → charlen (c ++ rest) ≡ length c
  pub ended : charlen [] ≡ 0
  pub positive : (c : Bytes) → IsCharacter c → 0 < length c
  pub percent : IsCharacter (b'%' ∷ [])
  pub underscore : IsCharacter (b'_' ∷ [])
  pub backslash : IsCharacter (b'\\' ∷ [])

abbrev pub IsPlain : Bytes → Type 0
IsPlain [] = Unit
IsPlain (b ∷ bs) = ((b == b'%') ≡ false) × ((b == b'_') ≡ false) × ((b == b'\\') ≡ false)

abbrev pub IsWritten : (Bytes → Type 0) → Part → Type 0
IsWritten IsCharacter (one (plain c)) = IsCharacter c × IsPlain c
IsWritten IsCharacter (one (escaped c)) = IsCharacter c
IsWritten IsCharacter (one any_character) = Unit
IsWritten IsCharacter any_text = Unit

abbrev pub IsPrintable : (Bytes → Type 0) → Item → Type 0
IsPrintable IsCharacter (character c) = IsCharacter c
IsPrintable IsCharacter _ = Unit

module _ (charlen : Bytes → ℕ) (IsCharacter : Bytes → Type 0)
    (measures : Measures charlen IsCharacter) where
  quoted-literal : (c : Bytes) → quoted c ≡ literal c
  unfolding quoted is_special
  quoted-literal [] = refl
  quoted-literal (b ∷ []) = refl
  quoted-literal (b ∷ (c ∷ bs)) = refl

  zero_test : (n : ℕ) → 0 < n → (n == 0) ≡ false
  zero_test n h = ground arith

  -- A round takes one character.
  loop_step :
      (fuel : ℕ) (at_start escaping percent : Bool) (c rest built : Bytes)
      → IsCharacter c
      → like_loop charlen (suc fuel) at_start escaping percent (c ++ rest) built
        ≡ like_loop charlen fuel false
            (round at_start escaping percent c (is_empty rest) built).0
            (round at_start escaping percent c (is_empty rest) built).1
            rest
            (round at_start escaping percent c (is_empty rest) built).2
  unfolding like_loop
  loop_step fuel at_start escaping percent c rest built h =
      rw
        (
          measures.measured c rest h,
          take-append c rest,
          drop-append c rest,
          zero_test (length c) (measures.positive c h),
        )
        refl

  round_plain :
      (at_start percent at_end : Bool) (c built : Bytes)
      → IsPlain c
      → round at_start false percent c at_end built ≡ (false, percent, built ++ quoted c)
  unfolding round
  round_plain at_start percent at_end [] built h = refl
  round_plain at_start percent at_end (b ∷ []) built (p, u, s) = rw (p, u, s) refl
  round_plain at_start percent at_end (b ∷ (c ∷ bs)) built h = refl

  loop_end :
      (fuel : ℕ) (at_start percent : Bool) (built : Bytes)
      → like_loop charlen (suc fuel) at_start false percent [] built ≡ finish percent [] built
  unfolding like_loop
  loop_end fuel at_start percent built = rw measures.ended refl

  -- A part that stands for one character adds its item, and the rest is left.
  one_step :
      (at_start : Bool) (s : Single) (rest built : Bytes) (fuel : ℕ) (result : Built)
      → IsWritten IsCharacter (one s)
      → length (single_bytes s ++ rest) < fuel
      → ((fuel' : ℕ)
          → length rest < fuel'
          → like_loop charlen fuel' false false false rest (built ++ print (item_of s)) ≡ result)
      → like_loop charlen fuel at_start false false (single_bytes s ++ rest) built ≡ result
  unfolding round
  one_step at_start s rest built zero result w le next = absurd (omega arith)
  one_step at_start (plain c) rest built (suc fuel) result (w, p) le next =
      loop_step fuel at_start false false c rest built w
      ∙ rw (round_plain at_start false (is_empty rest) c built p)
          (next fuel (omega (arith, length-append c rest)))
  one_step at_start any_character rest built (suc fuel) result w le next =
      loop_step fuel at_start false false (b'_' ∷ []) rest built measures.underscore
      ∙ next fuel (omega arith)
  one_step at_start (escaped c) rest built (suc zero) result w le next = absurd (omega arith)
  one_step at_start (escaped c) rest built (suc (suc fuel)) result w le next =
      loop_step (suc fuel) at_start false false (b'\\' ∷ []) (c ++ rest) built measures.backslash
      ∙ (loop_step fuel false true false c rest built w
          ∙ rw (quoted-literal c) (next fuel (omega (arith, length-append c rest))))

  pattern_of-written :
      (p : Part) (parts : List Part)
      → IsWritten IsCharacter p
      → is_empty (pattern_of (p ∷ parts)) ≡ false
  pattern_of-written any_text parts w = refl
  pattern_of-written (one any_character) parts w = refl
  pattern_of-written (one (escaped c)) parts w = refl
  pattern_of-written (one (plain [])) parts (w, h) = absurd (omega (arith, measures.positive [] w))
  pattern_of-written (one (plain (b ∷ bs))) parts w = refl

  like_loop-body :
      (parts : List Part) (fuel : ℕ) (built : Bytes)
      → All (IsWritten IsCharacter) parts
      → length (pattern_of parts) < fuel
      → like_loop charlen fuel false false false (pattern_of parts) built
        ≡ regexp (built ++ print_all (body parts))
  unfolding finish round
  like_loop-body parts zero built ws le = absurd (omega arith)
  like_loop-body [] (suc fuel) built ws le = loop_end fuel false false built
  like_loop-body (one s ∷ parts) (suc fuel) built (w, ws) le =
      one_step false s (pattern_of parts) built (suc fuel) _ w le (λ fuel' le'.
        like_loop-body parts fuel' (built ++ print (item_of s)) ws le'
        ∙ ap regexp (append_assoc built (print (item_of s)) (print_all (body parts))))
  like_loop-body (any_text ∷ []) (suc zero) built ws le = absurd (omega arith)
  like_loop-body (any_text ∷ []) (suc (suc fuel)) built ws le =
      loop_step (suc fuel) false false false (b'%' ∷ []) [] built measures.percent
      ∙ (loop_end fuel false true built ∙ ap regexp (sym (append-nil built)))
  like_loop-body (any_text ∷ (p ∷ parts)) (suc fuel) built (w, (v, ws)) le =
      loop_step fuel false false false (b'%' ∷ []) (pattern_of (p ∷ parts)) built measures.percent
      ∙ (rw (pattern_of-written p parts v)
            (like_loop-body (p ∷ parts) fuel (built ++ codes ".*") (v, ws) (omega arith))
          ∙ ap regexp (append_assoc built (codes ".*") (print_all (body (p ∷ parts)))))

  first_byte-one :
      (beyond : ℕ) (s : Single) (rest : Bytes)
      → IsWritten IsCharacter (one s)
      → (first_byte beyond (single_bytes s ++ rest) == b'%') ≡ false
  first_byte-one beyond (plain []) rest (w, h) = absurd (omega (arith, measures.positive [] w))
  first_byte-one beyond (plain (b ∷ bs)) rest (w, (h, u, e)) = h
  first_byte-one beyond (escaped c) rest w = refl
  first_byte-one beyond any_character rest w = refl

  like_regexp-print_all :
      (beyond : ℕ) (part : Part) (parts : List Part)
      → All (IsWritten IsCharacter) (part ∷ parts)
      → like_regexp charlen beyond (pattern_of (part ∷ parts))
        ≡ regexp (print_all (items_of (part ∷ parts)))
  unfolding like_regexp round
  like_regexp-print_all beyond any_text parts (w, ws) =
      loop_step (length (b'%' ∷ pattern_of parts)) true false false (b'%' ∷ []) (pattern_of parts)
        [] measures.percent
      ∙ like_loop-body parts (length (b'%' ∷ pattern_of parts)) [] ws (omega arith)
  like_regexp-print_all beyond (one s) parts (w, ws) =
      rw (first_byte-one beyond s (pattern_of parts) w) (
        one_step true s (pattern_of parts) (codes "\\A") (suc (length (pattern_of (one s ∷ parts))))
          _ w (omega arith)
          (λ fuel le.
            like_loop-body parts fuel (codes "\\A" ++ print (item_of s)) ws le
            ∙ ap regexp (append_assoc (codes "\\A") (print (item_of s)) (print_all (body parts)))))

  body-IsPrintable :
      (parts : List Part)
      → All (IsWritten IsCharacter) parts
      → All (IsPrintable IsCharacter) (body parts)
  body-IsPrintable [] ws = (tt, tt)
  body-IsPrintable (one (plain c) ∷ parts) (w, ws) = (w.0, body-IsPrintable parts ws)
  body-IsPrintable (one (escaped c) ∷ parts) (w, ws) = (w, body-IsPrintable parts ws)
  body-IsPrintable (one any_character ∷ parts) (w, ws) = (tt, body-IsPrintable parts ws)
  body-IsPrintable (any_text ∷ []) ws = tt
  body-IsPrintable (any_text ∷ (p ∷ parts)) (w, ws) = (tt, body-IsPrintable (p ∷ parts) ws)

  items_of-IsPrintable :
      (parts : List Part)
      → All (IsWritten IsCharacter) parts
      → All (IsPrintable IsCharacter) (items_of parts)
  items_of-IsPrintable [] ws = (tt, (tt, tt))
  items_of-IsPrintable (any_text ∷ parts) (w, ws) = body-IsPrintable parts ws
  items_of-IsPrintable (one s ∷ parts) ws = (tt, body-IsPrintable (one s ∷ parts) ws)

  -- When `charlen` measures characters and `finds` is the search for a regular expression, which finds a text
  -- of characters where the printed items match somewhere in it, a written pattern that is not empty is made
  -- into a regular expression, and that finds exactly the texts that the pattern matches.
  pub like_regexp-Matches :
      (finds : Bytes → List Bytes → Type 0)
      → ((items : List Item) (text : List Bytes)
          → All (IsPrintable IsCharacter) items
          → All IsCharacter text
          → finds (print_all items) text ↔ Finds items text)
      → (beyond : ℕ) (part : Part) (parts : List Part) (text : List Bytes)
      → All (IsWritten IsCharacter) (part ∷ parts)
      → All IsCharacter text
      → (built : Bytes) × (like_regexp charlen beyond (pattern_of (part ∷ parts)) ≡ regexp built)
        × (finds built text ↔ Matches (part ∷ parts) text)
  like_regexp-Matches finds agree beyond part parts text ws cs =
      let items = items_of (part ∷ parts) in
      let (sound, complete) = agree items text (items_of-IsPrintable (part ∷ parts) ws) cs in
      let (matches, found) = Finds-items_of (part ∷ parts) text in
      (
        print_all items,
        like_regexp-print_all beyond part parts ws,
        (λ f. matches (sound f), λ m. complete (found m)),
      )
