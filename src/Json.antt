-- ===== src/Json.antt =====
-- Parsed JSON as the program reads and builds it through serde_json's `Value` (the accessors are
-- those of its documentation). An object is its fields in the order in which they were given.
use commmon.Base.{ℕ, String, Bool, Option, none, some, List, [], ◌∷◌, ◌==◌, if◌then◌else◌}

mutual
  pub data Value : Type 0 where
    null : Value
    bool : Bool → Value
    number : ℕ → Value
    -- a number that is no u64: negative, or with a fraction, in its text
    other_number : String → Value
    string : String → Value
    array : Items → Value
    object : Fields → Value

  pub data Items : Type 0 where
    nil : Items
    cons : Value → Items → Items

  pub data Fields : Type 0 where
    end : Fields
    field : String → Value → Fields → Fields

abbrev pub items : List Value → Items
items [] = nil
items (v ∷ vs) = cons v (items vs)

abbrev pub elements : Items → List Value
elements nil = []
elements (cons v vs) = v ∷ elements vs

abbrev pub fields : List (String × Value) → Fields
fields [] = end
fields ((k, v) ∷ more) = field k v (fields more)

-- `json!({ … })`
abbrev pub json : List (String × Value) → Value
json members = object (fields members)

-- `Value::Array(list)`
abbrev pub array_of : List Value → Value
array_of vs = array (items vs)

abbrev find : String → Fields → Option Value
find k end = none
find k (field j v more) = if j == k then some v else find k more

-- `value.get(key)`: `None` on what is no object
abbrev pub get : String → Value → Option Value
get k (object fs) = find k fs
get k _ = none

abbrev put : String → Value → Fields → Fields
put k v end = field k v end
put k v (field j w more) =
    let rest = put k v more in if j == k then field k v more else field j w rest

-- `value[key] = v` on an object; the program assigns to objects only
abbrev pub set : String → Value → Value → Value
set k v (object fs) = object (put k v fs)
set k v w = w

abbrev pub as_str : Value → Option String
as_str (string s) = some s
as_str _ = none

abbrev pub as_u64 : Value → Option ℕ
as_u64 (number n) = some n
as_u64 _ = none

abbrev pub as_bool : Value → Option Bool
as_bool (bool b) = some b
as_bool _ = none

abbrev pub and_then {ℓ κ} : {A : Type ℓ} {B : Type κ} → Option A → (A → Option B) → Option B
and_then none f = none
and_then (some a) f = f a

infixl 1 ◌>>=◌
abbrev pub ◌>>=◌ {ℓ κ} : {A : Type ℓ} {B : Type κ} → Option A → (A → Option B) → Option B
o >>= f = and_then o f

-- `args.get(key).and_then(|v| v.as_str())`, and so on
abbrev pub str_of : String → Value → Option String
str_of k args = and_then (get k args) as_str

abbrev pub u64_of : String → Value → Option ℕ
u64_of k args = and_then (get k args) as_u64

abbrev pub bool_of : String → Value → Option Bool
bool_of k args = and_then (get k args) as_bool

-- An optional text in `json!`: null if there is none.
abbrev pub option_string : Option String → Value
option_string none = null
option_string (some s) = string s
