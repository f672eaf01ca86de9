-- ===== src/Validation.antt =====
-- src/validation: the values of a configuration, the rules that they are checked by, and validate.js,
-- which is not under this repository and so a parameter.
pub mod Types
pub mod Options
pub mod Registry
pub mod Consumer
pub mod Producer
pub mod Rules
pub mod Ports
use rabbitmqtobucketqueue.Common.{
  ℕ, zero, ◌≡◌, Bool, true, false, not, ◌&&◌, ◌||◌, if◌then◌else◌, ltb, leb, Option, none, some,
  List, [], ◌∷◌, String, str_eq,
}
use rabbitmqtobucketqueue.Common.Int.{ℤ, pos, negsuc}

-- The classes that the code tests for with `instanceof`.
pub data Class : Type 0 where
  channel confirm_channel coordinator_driver other : Class

-- A value of JavaScript. A number is an integer or a fraction (NaN is left out). A function has a
-- `prototype` or not. Arrays, instances of classes and plain objects have properties, which are
-- undefined where they have none; the last two also a number of keys.
pub data Value : Type 0 where
  undefined null fraction : Value
  boolean : Bool → Value
  integer : ℤ → Value
  text : String → Value
  function : Bool → Value
  array : (String → Value) → Value
  instance_of : Class → ℕ → (String → Value) → Value
  object : ℕ → (String → Value) → Value

-- The property of a value; a value without properties has none that the code reads.
abbrev pub prop : String → Value → Value
prop key (array f) = f key
prop key (instance_of c keys f) = f key
prop key (object n f) = f key
prop key _ = undefined

-- `'object' === typeof value && null !== value`, and whether a value counts as true.
abbrev pub is_object : Value → Bool
is_object (array f) = true
is_object (instance_of c keys f) = true
is_object (object n f) = true
is_object _ = false

abbrev pub is_truthy : Value → Bool
is_truthy undefined = false
is_truthy null = false
is_truthy (boolean b) = b
is_truthy (integer (pos zero)) = false
is_truthy (text t) = not (str_eq t "")
is_truthy _ = true

abbrev pub is_undefined : Value → Bool
is_undefined undefined = true
is_undefined _ = false

abbrev pub is_text : Value → Bool
is_text (text t) = true
is_text _ = false

abbrev pub is_boolean : Value → Bool
is_boolean (boolean b) = true
is_boolean _ = false

abbrev pub is_integer : Value → Bool
is_integer (integer n) = true
is_integer _ = false

abbrev pub is_function : Value → Bool
is_function (function p) = true
is_function _ = false

-- `value === text`
abbrev pub is_the_text : String → Value → Bool
is_the_text t (text u) = str_eq u t
is_the_text t _ = false

abbrev pub within : List String → Value → Bool
within [] v = false
within (t ∷ ts) v = is_the_text t v || within ts v

-- The options of `numericality`; `noStrings`, `strict` and `onlyInteger` are always set.
pub record Range : Type 0 where
  pub greater_than : Option ℕ
  pub at_least : Option ℕ
  pub at_most : Option ℕ

-- One validator of an attribute with its options, apart from its message. `custom` is a validator
-- that `addCustomType` registers.
pub data Rule : Type 0 where
  exists : Rule
  presence : Bool → Rule
  type_is : String → Rule
  numericality : Range → Rule
  inclusion : List String → Rule
  custom : String → Rule

abbrev pub Constraints : Type 0
Constraints = List (String × List Rule)

-- The types that are registered by name: `none` for `true`, and otherwise the message.
abbrev pub Registered : Type 0
Registered = String → Value → Option String

abbrev pub holds : Option String → Bool
holds none = true
holds (some message) = false

-- What the documentation of validate.js says of the validators. `presence`, `type`,
-- `numericality` and `inclusion` take null and undefined for a value that is not given, which only
-- `presence` minds; a validator whose options are `false` is not run; one that is registered is
-- called with every value, undefined included.
abbrev pub is_given : Value → Bool
is_given undefined = false
is_given null = false
is_given _ = true

abbrev pub has_type : Registered → String → Value → Bool
has_type types t v =
    if str_eq t "string"
    then is_text v
    else if str_eq t "integer"
    then is_integer v
    else if str_eq t "boolean"
    then is_boolean v
    else holds (types t v)

abbrev pub above : Option ℕ → ℕ → Bool
above none n = true
above (some m) n = ltb m n

abbrev pub from : Option ℕ → ℕ → Bool
from none n = true
from (some m) n = leb m n

abbrev pub up_to : Option ℕ → ℕ → Bool
up_to none n = true
up_to (some m) n = leb n m

abbrev pub is_absent : Option ℕ → Bool
is_absent none = true
is_absent (some n) = false

abbrev pub in_range : Range → Value → Bool
in_range r (integer (pos n)) = above r.greater_than n && from r.at_least n && up_to r.at_most n
in_range r (integer (negsuc n)) = is_absent r.greater_than && is_absent r.at_least
in_range r _ = false

abbrev pub passes_rule : Registered → Rule → Value → Bool
passes_rule types exists v = not (is_undefined v)
passes_rule types (presence wanted) v = not wanted || is_given v
passes_rule types (type_is t) v = not (is_given v) || has_type types t v
passes_rule types (numericality r) v = not (is_given v) || in_range r v
passes_rule types (inclusion ts) v = not (is_given v) || within ts v
passes_rule types (custom t) v = holds (types t v)

abbrev pub passes_rules : Registered → List Rule → Value → Bool
passes_rules types [] v = true
passes_rules types (r ∷ rs) v = passes_rule types r v && passes_rules types rs v

abbrev pub passes : Registered → Constraints → Value → Bool
passes types [] v = true
passes types ((k, rs) ∷ cs) v = passes_rules types rs (prop k v) && passes types cs v

abbrev pub no_errors : List String → Bool
no_errors [] = true
no_errors (e ∷ es) = false

-- `validate(value, constraints)`: the errors, none if all attributes pass.
pub record ValidateJs : Type 0 where
  pub validate : Registered → Constraints → Value → List String
  pub validate_lem :
      (types : Registered) (cs : Constraints) (v : Value)
      → no_errors (validate types cs v) ≡ passes types cs v
