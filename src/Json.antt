-- ===== src/Json.antt =====
-- The values that Python's `json.loads` makes. A number keeps its literal and whether it is zero.
use dsa_api.Base.{Bool, List, [], ◌∷◌, Dict}
use dsa_api.Text.{Text}

pub record Number : Type 0 where
  pub is_zero : Bool
  pub literal : Text

mutual
  pub data Json : Type 0 where
    null : Json
    boolean : Bool → Json
    number : Number → Json
    string : Text → Json
    array : Items → Json
    object : Members → Json

  pub data Items : Type 0 where
    no_items : Items
    item : Json → Items → Items

  pub data Members : Type 0 where
    no_members : Members
    member : Text → Json → Members → Members

-- An array as its list, and an object as its dictionary, in which no key stands twice.
abbrev pub elements : Items → List Json
elements no_items = []
elements (item x xs) = x ∷ elements xs

abbrev pub entries : Members → Dict Text Json
entries no_members = []
entries (member k x ms) = (k, x) ∷ entries ms
