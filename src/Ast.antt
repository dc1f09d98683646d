-- ===== src/Ast.antt =====
-- src/sql-ast.ts: the parse tree as JSON, the values that are read out of it, and the parse boundary.
use migraguard.Prelude.{
  ℕ, zero, suc, Bool, true, false, not, Option, none, some, List, [], ◌∷◌, map, nat_eq,
  if◌then◌else◌,
}
use migraguard.Prelude.Text.{Text, codes, ◌==◌}

mutual
  pub data Json : Type 0 where
    null : Json
    boolean : Bool → Json
    number : ℕ → Json
    string : Text → Json
    array : Items → Json
    object : Fields → Json

  pub data Items : Type 0 where
    empty : Items
    item : Json → Items → Items

  -- The entries of an object, in order.
  pub data Fields : Type 0 where
    end : Fields
    entry : Text → Json → Fields → Fields

-- What an expression of the source holds: `none` is undefined.
abbrev pub Value : Type 0
Value = Option Json

unfoldable pub field_at : Text → Fields → Value
field_at key end = none
field_at key (entry k v rest) = if k == key then some v else field_at key rest

-- x?.[key]. A value that is no object has none of the keys that the source asks for.
abbrev pub get : Text → Value → Value
get key (some (object fields)) = field_at key fields
get key _ = none

-- key in x
abbrev pub has_field : Text → Value → Bool
has_field key x = elim (get key x) [ none ↦ false | some v ↦ true ]

abbrev pub json_truthy : Json → Bool
json_truthy null = false
json_truthy (boolean b) = b
json_truthy (number n) = not (nat_eq n 0)
json_truthy (string s) = not (s == [])
json_truthy _ = true

-- if (x)
abbrev pub truthy : Value → Bool
truthy none = false
truthy (some j) = json_truthy j

-- A value that the source takes for a string; the source only asks whether it is falsy or equal
-- to a constant that is not empty, so undefined is read as the empty string.
abbrev pub text_of : Value → Text
text_of (some (string s)) = s
text_of _ = []

abbrev pub string_of : Value → Option Text
string_of (some (string s)) = some s
string_of _ = none

abbrev pub number_of : Value → Option ℕ
number_of (some (number n)) = some n
number_of _ = none

-- x === true, for a value that the source takes for a Boolean
abbrev pub bool_of : Value → Bool
bool_of (some (boolean b)) = b
bool_of _ = false

unfoldable pub list_of : Items → List Json
list_of empty = []
list_of (item j rest) = j ∷ list_of rest

-- The entries that a loop over x visits: none if x is undefined.
abbrev pub items_of : Value → List Json
items_of (some (array items)) = list_of items
items_of _ = []

-- x[key], as a string and as an array
abbrev pub text_at : Text → Value → Text
text_at key x = text_of (get key x)

abbrev pub items_at : Text → Value → List Json
items_at key x = items_of (get key x)

pub record RawStatementEntry : Type 0 where
  pub stmt : Value
  pub location : ℕ
  pub byte_length : Option ℕ

pub data PlPgSqlParse : Type 0 where
  parsed : Json → PlPgSqlParse
  rejected : Text → PlPgSqlParse

-- libpg-query, whose `parse` throws (`none`) on a text that is no SQL, and the UTF-8 codec of
-- the runtime.
pub record SqlParser : Type 0 where
  pub parse : Text → Option Json
  pub parse_pl_pgsql : Text → PlPgSqlParse
  pub encode : Text → List ℕ
  pub decode : List ℕ → Text

abbrev or_object : Value → Value
or_object none = some (object end)
or_object (some j) = some j

abbrev or_zero : Option ℕ → ℕ
or_zero none = 0
or_zero (some n) = n

abbrev statement_entry : Json → RawStatementEntry
statement_entry j = record {
  stmt = or_object (get (codes "stmt") (some j));
  location = or_zero (number_of (get (codes "stmt_location") (some j)));
  byte_length = number_of (get (codes "stmt_len") (some j));
}

abbrev statement_entries : Value → Option (List RawStatementEntry)
statement_entries none = none
statement_entries (some ast) = some (map statement_entry (items_at (codes "stmts") (some ast)))

unfoldable pub parse_statements : SqlParser → Text → Option (List RawStatementEntry)
parse_statements p sql = statement_entries (p.parse sql)

-- bytes.subarray(start, end)
abbrev skip_bytes : ℕ → List ℕ → List ℕ
skip_bytes zero bytes = bytes
skip_bytes (suc n) [] = []
skip_bytes (suc n) (b ∷ bytes) = skip_bytes n bytes

abbrev first_bytes : ℕ → List ℕ → List ℕ
first_bytes zero bytes = []
first_bytes (suc n) [] = []
first_bytes (suc n) (b ∷ bytes) = b ∷ first_bytes n bytes

abbrev up_to : Option ℕ → List ℕ → List ℕ
up_to none bytes = bytes
up_to (some n) bytes = first_bytes n bytes

unfoldable pub statement_text : SqlParser → Text → RawStatementEntry → Text
statement_text p sql e = p.decode (up_to e.byte_length (skip_bytes e.location (p.encode sql)))
