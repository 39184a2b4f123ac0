-- ===== src/Json.antt =====
-- The values that `json.loads` gives, as the program reads them, and what it uses of `str()`,
-- `float()` and truth. A float is given by the text that Python prints for it. A dict is the list
-- of its entries in insertion order.
use flyrank_capstone_widgetp.Base.{
  ℕ, String, Bool, true, false, not, Option, none, some, List, [], ◌∷◌, str_eq, if◌then◌else◌, ◌==◌,
}

-- `negsuc n` is -(n + 1).
pub data ℤ : Type 0 where
  pos : ℕ → ℤ
  negsuc : ℕ → ℤ

mutual
  pub data Json : Type 0 where
    null : Json
    bool : Bool → Json
    int : ℤ → Json
    float : String → Json
    str : String → Json
    arr : Items → Json
    obj : Members → Json

  pub data Items : Type 0 where
    nil : Items
    item : Json → Items → Items

  pub data Members : Type 0 where
    end : Members
    member : String → Json → Members → Members

abbrev pub entries : Members → List (String × Json)
entries end = []
entries (member k v ms) = (k, v) ∷ entries ms

abbrev pub members : List (String × Json) → Members
members [] = end
members ((k, v) ∷ es) = member k v (members es)

-- What Python computes with numbers and containers that the program only passes on: the text of
-- an int and of a container, the float nearest to an int (`none` where it raises OverflowError)
-- and the float that a text spells (`none` where it raises ValueError).
pub record Python : Type 0 where
  pub int_text : ℤ → String
  pub container_text : Json → String
  pub float_of_int : ℤ → Option String
  pub float_of_text : String → Option String

-- `str(value)`
abbrev pub to_text : Python → Json → String
to_text p null = "None"
to_text p (bool true) = "True"
to_text p (bool false) = "False"
to_text p (int n) = p.int_text n
to_text p (float x) = x
to_text p (str s) = s
to_text p (arr xs) = p.container_text (arr xs)
to_text p (obj ms) = p.container_text (obj ms)

pub data FloatResult : Type 0 where
  value : String → FloatResult
  type_error value_error overflow_error : FloatResult

abbrev int_float : Option String → FloatResult
int_float none = overflow_error
int_float (some x) = value x

abbrev text_float : Option String → FloatResult
text_float none = value_error
text_float (some x) = value x

-- `float(value)`
abbrev pub to_float : Python → Json → FloatResult
to_float p null = type_error
to_float p (bool true) = value "1.0"
to_float p (bool false) = value "0.0"
to_float p (int n) = int_float (p.float_of_int n)
to_float p (float x) = value x
to_float p (str s) = text_float (p.float_of_text s)
to_float p (arr xs) = type_error
to_float p (obj ms) = type_error

-- `bool(value)`
abbrev pub truthy : Json → Bool
truthy null = false
truthy (bool b) = b
truthy (int (pos n)) = not (n == 0)
truthy (int (negsuc n)) = true
truthy (float x) = if str_eq x "0.0" then false else not (str_eq x "-0.0")
truthy (str s) = not (str_eq s "")
truthy (arr nil) = false
truthy (arr (item v vs)) = true
truthy (obj end) = false
truthy (obj (member k v ms)) = true
