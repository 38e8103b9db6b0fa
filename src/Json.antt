-- ===== src/Json.antt =====
-- The values of the JSON library, with what the source asks of them: `contains`, `[]`, `is_array`,
-- `is_string`, `is_number_integer`. The library reads them from texts.
use lob.Prelude.{List, [], ◌∷◌, Option, none, some, if◌then◌else◌, Bytes, same_text, Bool}
use lob.Prelude.Int.{ℤ}

-- A number that is not an integer is kept as its text.
mutual
  pub data Json : Type 0 where
    null : Json
    boolean : Bool → Json
    integer : ℤ → Json
    real : Bytes → Json
    text : Bytes → Json
    array : Items → Json
    object : Fields → Json

  pub data Items : Type 0 where
    nil : Items
    cons : Json → Items → Items

  pub data Fields : Type 0 where
    end : Fields
    field : Bytes → Json → Fields → Fields

unfoldable pub find_field : Fields → Bytes → Option Json
find_field end key = none
find_field (field k v fields) key = if same_text k key then some v else find_field fields key

-- `contains(key)` and `[key]`
abbrev pub member : Json → Bytes → Option Json
member (object fields) key = find_field fields key
member _ key = none

abbrev pub elements : Items → List Json
elements nil = []
elements (cons v items) = v ∷ elements items

abbrev pub values : Fields → List Json
values end = []
values (field k v fields) = v ∷ values fields

-- The range of a `for`: the elements of an array, the values of an object, nothing for null, and any
-- other value itself.
unfoldable pub range : Json → List Json
range null = []
range (array items) = elements items
range (object fields) = values fields
range v = v ∷ []

abbrev pub as_array : Option Json → Option (List Json)
as_array (some (array items)) = some (elements items)
as_array _ = none

abbrev pub as_text : Option Json → Option Bytes
as_text (some (text s)) = some s
as_text _ = none

-- An array of texts.
abbrev pub texts : List Bytes → Items
texts [] = nil
texts (s ∷ ss) = cons (text s) (texts ss)
