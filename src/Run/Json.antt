-- ===== src/Run/Json.antt =====
-- JsonValue of v2/src/footballai_v2/contracts/v1/analysis_run.py. An object is the list of its
-- items in the order of its keys, each key once. Integers and floats are one constructor, since
-- Python compares them by value; a finite number is read in millionths.
use Prim.Native.String.{compare}
use Prim.Native.Nat.{Ordering}
use football_ai.Prelude.{
  true, false, ℕ, String, Bool, Option, none, some, str_eq, if◌then◌else◌, String-discrete,
}
use native.Mathlib.Decide.{ℕ_discrete}

pub data ℤ : Type 0 where
  pos : ℕ → ℤ
  negsuc : ℕ → ℤ

pub data Number : Type 0 where
  finite : ℤ → Number
  not_finite : Number

pub data Key : Type 0 where
  named : String → Key
  not_a_string : Key

mutual
  pub data Json : Type 0 where
    null : Json
    boolean : (b : Bool) → Json
    number : Number → Json
    text : String → Json
    array : Items → Json
    object : Fields → Json
    unsupported : Json

  pub data Items : Type 0 where
    nil : Items
    cons : Json → Items → Items

  pub data Fields : Type 0 where
    end : Fields
    field : Key → Json → Fields → Fields

pub Json-discrete : Discrete Json
Json-discrete = hlevel (ℕ_discrete, String-discrete)

-- `fields.get(key)`
unfoldable pub get : Fields → String → Option Json
get end key = none
get (field (named name) value rest) key = if str_eq name key then some value else get rest key
get (field not_a_string value rest) key = get rest key

abbrev name_leb : String → String → Bool
name_leb a b = elim (compare a b) [ Ordering.gt ↦ false | _ ↦ true ]

-- `{**fields, key: value}`, in the order of the keys.
unfoldable pub put : Fields → String → Json → Fields
put end key value = field (named key) value end
put (field not_a_string v rest) key value = field not_a_string v (put rest key value)
put (field (named name) v rest) key value =
    let later = put rest key value in
    if str_eq name key
    then field (named key) value rest
    else if name_leb name key
    then field (named name) v later
    else field (named key) value (field (named name) v rest)
