-- ===== src/Json/Value.antt =====
-- A JSON value, as encoding/json reads and writes it: a text stands for a string with its escapes
-- undone, and a number is its literal. White space is not part of a value.
use ticketbutler_proxy.Common.{[], ◌∷◌, ◌++◌, ◌||◌, Bool, true, false, ◌==◌, if◌then◌else◌}
use ticketbutler_proxy.Text.{Text, codes}

mutual
  pub data Json : Type 0 where
    null : Json
    bool : Bool → Json
    number : Text → Json
    text : Text → Json
    array : Items → Json
    object : Fields → Json

  pub data Items : Type 0 where
    nil : Items
    cons : Json → Items → Items

  pub data Fields : Type 0 where
    end : Fields
    entry : Text → Json → Fields → Fields

-- The characters that a string's token escapes by a backslash.
unfoldable pub escape : Text → Text
escape [] = []
escape (c ∷ s) = if c == b'"' || c == 0x5c then 0x5c ∷ c ∷ escape s else c ∷ escape s

-- The token that an `UnmarshalJSON` is given. Those of arrays and objects, which no number is read
-- from, are not written out.
unfoldable pub token : Json → Text
unfolding escape
token null = codes "null"
token (bool true) = codes "true"
token (bool false) = codes "false"
token (number s) = s
token (text s) = b'"' ∷ (escape s ++ b'"' ∷ [])
token (array items) = codes "["
token (object fields) = codes "{"
