-- ===== src/Nodes/Values.antt =====
-- JSON values, and their canonical text: `canonicalize` and `stableStringify`. The order of the
-- keys is the text order; any order would do, since the texts are only compared.
use Prim.Native.Char.{code}
use Prim.Native.String.{◌++◌ as concat, compare}
use Prim.Native.Nat.{Ordering}
use browser_bridge.Prelude.{
  ℕ, List, [], ◌∷◌, or_else, get_elem?, ltb, Bool, true, false, String, eqb, if◌then◌else◌, ◌/◌,
  ◌%◌,
}

-- A number is the text that JSON prints for it.
mutual
  pub data Json : Type 0 where
    null : Json
    boolean : Bool → Json
    number : String → Json
    text : String → Json
    array : Items → Json
    object : Fields → Json

  pub data Items : Type 0 where
    nil : Items
    cons : Json → Items → Items

  pub data Fields : Type 0 where
    end : Fields
    field : String → Json → Fields → Fields

abbrev pub text_le : String → String → Bool
text_le s t = elim (compare s t) [ Ordering.gt ↦ false | _ ↦ true ]

pub insert_field : String → Json → Fields → Fields
insert_field key value end = field key value end
insert_field key value (field k v rest) =
    if text_le key k
    then field key value (field k v rest)
    else field k v (insert_field key value rest)

-- The keys are sorted, at every depth.
mutual
  unfolding insert_field

  pub canonicalize : Json → Json
  canonicalize (array items) = array (canonicalize_items items)
  canonicalize (object fields) = object (canonicalize_fields fields)
  canonicalize value = value

  pub canonicalize_items : Items → Items
  canonicalize_items nil = nil
  canonicalize_items (cons item items) = cons (canonicalize item) (canonicalize_items items)

  pub canonicalize_fields : Fields → Fields
  canonicalize_fields end = end
  canonicalize_fields (field key value rest) =
      insert_field key (canonicalize value) (canonicalize_fields rest)

abbrev hex_digits : List String
hex_digits =
    "0" ∷ "1" ∷ "2" ∷ "3" ∷ "4" ∷ "5" ∷ "6" ∷ "7" ∷ "8" ∷ "9" ∷ "a" ∷ "b" ∷ "c" ∷ "d" ∷ "e" ∷ "f"
    ∷ []

abbrev hex_digit : ℕ → String
hex_digit n = or_else (get_elem? hex_digits n) ""

-- A control character without an escape of its own.
abbrev unicode_escape : ℕ → String
unicode_escape c = concat "\\u00" (concat (hex_digit (c / 16)) (hex_digit (c % 16)))

-- How JSON writes a character inside a text.
pub escape : ℕ → String → String
escape c itself =
    if eqb c 34
    then "\\\""
    else if eqb c 92
    then "\\\\"
    else if eqb c 8
    then "\\b"
    else if eqb c 9
    then "\\t"
    else if eqb c 10
    then "\\n"
    else if eqb c 12
    then "\\f"
    else if eqb c 13
    then "\\r"
    else if ltb c 32
    then unicode_escape c
    else itself

pub escape_text : String → String
escape_text String.[] = ""
escape_text (String.◌∷◌ c rest) = concat (escape (code c) (String.◌∷◌ c "")) (escape_text rest)

abbrev quote : String → String
quote s = concat "\"" (concat (escape_text s) "\"")

-- `JSON.stringify`; the items and fields behind the first one follow a comma.
mutual
  unfolding escape_text

  pub stringify : Json → String
  stringify null = "null"
  stringify (boolean true) = "true"
  stringify (boolean false) = "false"
  stringify (number digits) = digits
  stringify (text s) = quote s
  stringify (array nil) = "[]"
  stringify (array (cons item items)) = concat "[" (concat (stringify item) (stringify_items items))
  stringify (object end) = "{}"
  stringify (object (field key value rest)) =
      concat "{"
        (concat (quote key) (concat ":" (concat (stringify value) (stringify_fields rest))))

  pub stringify_items : Items → String
  stringify_items nil = "]"
  stringify_items (cons item items) = concat "," (concat (stringify item) (stringify_items items))

  pub stringify_fields : Fields → String
  stringify_fields end = "}"
  stringify_fields (field key value rest) =
      concat ","
        (concat (quote key) (concat ":" (concat (stringify value) (stringify_fields rest))))

pub stable_stringify : Json → String
stable_stringify value = stringify (canonicalize value)
