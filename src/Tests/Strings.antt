-- ===== src/Tests/Strings.antt =====
-- Texts with variables, over characters of one byte.
use pgroonga.Base.{ℕ, ◌≡◌, refl, Bytes, codes, [], ◌∷◌}
use pgroonga.Strings.{substitute_index, substitute_variables}
use pgroonga.Strings.Laws
use pgroonga.Strings.Laws.{IsCharacter, substitute_variables-template}
use pgroonga.Strings.Index
use pgroonga.Strings.Index.{substitute_index-template}

abbrev one : Bytes → ℕ
one string = 1

abbrev sources_of : Bytes → Bytes
sources_of index = codes "Sources16400"

one-IsCharacter : (b : ℕ) → IsCharacter one sources_of (b ∷ [])
one-IsCharacter b = ((λ h. cc), (λ rest. refl))

-- A block that is not closed is not written, nor a variable of another name kept apart.
open_block : substitute_variables one sources_of (codes "a${table:x") ≡ codes "a"
unfolding substitute_variables
open_block = refl

other_variable :
    substitute_variables one sources_of (codes "a${column:x}$b") ≡ codes "a${column:x}$b"
unfolding substitute_variables
other_variable = refl

substitute_variables-template_example :
    substitute_variables one sources_of (codes "a\\$${table:i}") ≡ codes "a$Sources16400"
substitute_variables-template_example =
    substitute_variables-template one sources_of
      (Laws.plain (codes "a") ∷ Laws.escaped (codes "$") ∷ Laws.table (codes "i" ∷ []) ∷ [])
      (λ b small. one-IsCharacter b)
      (
        (one-IsCharacter b'a', refl, refl),
        (one-IsCharacter b'$', (((one-IsCharacter b'i', refl), tt), tt)),
      )

substitute_index-template_example :
    substitute_index one (codes "i[2]") (codes "$a$index") ≡ codes "$ai[2]"
substitute_index-template_example =
    substitute_index-template one (codes "i[2]")
      (Index.dollar ∷ Index.plain (codes "a") ∷ Index.variable ∷ []) (λ rest. refl)
      (refl, ((((λ h. cc), (λ rest. refl)), refl), tt))
