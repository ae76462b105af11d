-- ===== src/Search/LikeRegexp/Items.antt =====
-- Patterns of LIKE and regular expressions on texts of characters.
use pgroonga.Base.{
  ◌||◌, ℕ, ◌≡◌, ◌↔◌, refl, sym, Bool, false, Bytes, codes, List, [], ◌∷◌, ◌++◌, append-nil, ◌==◌,
  if◌then◌else◌,
}

-- What stands for one character in a pattern of LIKE: a character, one behind a backslash, or _.
pub data Single : Type 0 where
  plain escaped : Bytes → Single
  any_character : Single

-- A part of a pattern.
pub data Part : Type 0 where
  one : Single → Part
  any_text : Part

abbrev pub single_bytes : Single → Bytes
single_bytes (plain c) = c
single_bytes (escaped c) = b'\\' ∷ c
single_bytes any_character = b'_' ∷ []

abbrev pub pattern_of : List Part → Bytes
pattern_of [] = []
pattern_of (one s ∷ parts) = single_bytes s ++ pattern_of parts
pattern_of (any_text ∷ parts) = b'%' ∷ pattern_of parts

abbrev pub MatchesOne : Single → Bytes → Type 0
MatchesOne (plain c) d = d ≡ c
MatchesOne (escaped c) d = d ≡ c
MatchesOne any_character d = Unit

-- The texts, as lists of characters, that a pattern matches.
abbrev pub Matches : List Part → List Bytes → Type 0
Matches [] text = text ≡ []
Matches (one s ∷ parts) text =
    (c : Bytes) × (rest : List Bytes) × MatchesOne s c × (text ≡ c ∷ rest) × Matches parts rest
Matches (any_text ∷ parts) text =
    (skipped : List Bytes) × (rest : List Bytes) × (text ≡ skipped ++ rest) × Matches parts rest

-- What the regular expressions consist of: \A, \z, a character, `.` and `.*`.
pub data Item : Type 0 where
  begin end any_item any_items : Item
  character : Bytes → Item

-- The characters of the syntax of regular expressions; a backslash before one makes it stand for itself.
abbrev pub metacharacters : Bytes
metacharacters = codes "\\|()[].*+?{}^$"

abbrev pub is_one_of : Bool → ℕ → Bytes → Bool
is_one_of found b [] = found
is_one_of found b (c ∷ cs) = is_one_of (found || (b == c)) b cs

abbrev pub literal : Bytes → Bytes
literal (b ∷ []) = if is_one_of false b metacharacters then b'\\' ∷ (b ∷ []) else b ∷ []
literal c = c

abbrev pub print : Item → Bytes
print begin = codes "\\A"
print end = codes "\\z"
print any_item = codes "."
print any_items = codes ".*"
print (character c) = literal c

abbrev pub print_all : List Item → Bytes
print_all [] = []
print_all (i ∷ items) = print i ++ print_all items

-- The items match at a place of the text, with what is before and behind it.
abbrev pub Runs : List Item → List Bytes → List Bytes → Type 0
Runs [] before text = Unit
Runs (begin ∷ items) before text = (before ≡ []) × Runs items before text
Runs (end ∷ items) before text = (text ≡ []) × Runs items before text
Runs (any_item ∷ items) before text =
    (c : Bytes) × (rest : List Bytes) × (text ≡ c ∷ rest) × Runs items (before ++ c ∷ []) rest
Runs (character d ∷ items) before text =
    (c : Bytes) × (rest : List Bytes) × (c ≡ d)
    × (text ≡ c ∷ rest)
    × Runs items (before ++ c ∷ []) rest
Runs (any_items ∷ items) before text =
    (skipped : List Bytes) × (rest : List Bytes) × (text ≡ skipped ++ rest)
    × Runs items (before ++ skipped) rest

-- The items match somewhere.
abbrev pub Finds : List Item → List Bytes → Type 0
Finds items text =
    (before : List Bytes) × (rest : List Bytes) × (text ≡ before ++ rest) × Runs items before rest

abbrev pub item_of : Single → Item
item_of (plain c) = character c
item_of (escaped c) = character c
item_of any_character = any_item

-- The items for a pattern behind its begin, and for a whole pattern.
abbrev pub body : List Part → List Item
body [] = end ∷ []
body (one s ∷ parts) = item_of s ∷ body parts
body (any_text ∷ []) = []
body (any_text ∷ (p ∷ parts)) = any_items ∷ body (p ∷ parts)

abbrev pub items_of : List Part → List Item
items_of (any_text ∷ parts) = body parts
items_of parts = begin ∷ body parts

Runs-item_of :
    (s : Single) (parts : List Part) (before text : List Bytes)
    → ((rest : List Bytes) (before' : List Bytes)
        → Runs (body parts) before' rest ↔ Matches parts rest)
    → Runs (item_of s ∷ body parts) before text ↔ Matches (one s ∷ parts) text
Runs-item_of (plain d) parts before text ih = (
  λ (c, rest, e, f, m). (c, rest, e, f, (ih rest (before ++ c ∷ [])).0 m),
  λ (c, rest, e, f, m). (c, rest, e, f, (ih rest (before ++ c ∷ [])).1 m),
)
Runs-item_of (escaped d) parts before text ih = (
  λ (c, rest, e, f, m). (c, rest, e, f, (ih rest (before ++ c ∷ [])).0 m),
  λ (c, rest, e, f, m). (c, rest, e, f, (ih rest (before ++ c ∷ [])).1 m),
)
Runs-item_of any_character parts before text ih = (
  λ (c, rest, f, m). (c, rest, tt, f, (ih rest (before ++ c ∷ [])).0 m),
  λ (c, rest, u, f, m). (c, rest, f, (ih rest (before ++ c ∷ [])).1 m),
)

Runs-body :
    (parts : List Part) (text before : List Bytes)
    → Runs (body parts) before text ↔ Matches parts text
Runs-body [] text before = (λ r. r.0, λ e. (e, tt))
Runs-body (one s ∷ parts) text before = Runs-item_of s parts before text (Runs-body parts)
Runs-body (any_text ∷ []) text before = (λ r. (text, [], sym (append-nil text), refl), λ m. tt)
Runs-body (any_text ∷ (p ∷ parts)) text before = (
  λ (skipped, rest, e, m). (skipped, rest, e, (Runs-body (p ∷ parts) rest (before ++ skipped)).0 m),
  λ (skipped, rest, e, m). (skipped, rest, e, (Runs-body (p ∷ parts) rest (before ++ skipped)).1 m),
)

Finds-begin :
    (parts : List Part) (text : List Bytes) → Finds (begin ∷ body parts) text ↔ Matches parts text
Finds-begin parts text = (
  λ (before, rest, e, (f, m)). rw (e, f) ((Runs-body parts rest before).0 m),
  λ m. ([], text, refl, (refl, (Runs-body parts text []).1 m)),
)

pub Finds-items_of :
    (parts : List Part) (text : List Bytes) → Finds (items_of parts) text ↔ Matches parts text
Finds-items_of [] text = Finds-begin [] text
Finds-items_of (one s ∷ parts) text = Finds-begin (one s ∷ parts) text
Finds-items_of (any_text ∷ parts) text = (
  λ (before, rest, e, m). (before, rest, e, (Runs-body parts rest before).0 m),
  λ (skipped, rest, e, m). (skipped, rest, e, (Runs-body parts rest skipped).1 m),
)
