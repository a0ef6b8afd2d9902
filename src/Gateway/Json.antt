-- ===== src/Gateway/Json.antt =====
-- Python values that `json.loads` builds. A float is kept as its decimal text: the gateway only
-- tells it apart from an int. Numbers that are ints have their sign in the constructor.
use mnemostroma.Prelude.{
  ℕ, String, Bool, true, false, Option, none, some, List, ◌==◌, string_eq, if◌then◌else◌, contains,
  ◌&&◌,
}

mutual
  pub data Json : Type 0 where
    null : Json
    bool : Bool → Json
    int : ℕ → Json
    neg_int : ℕ → Json
    float : String → Json
    str : String → Json
    arr : Items → Json
    obj : Fields → Json

  pub data Items : Type 0 where
    nil : Items
    cons : Json → Items → Items

  pub data Fields : Type 0 where
    end : Fields
    field : String → Json → Fields → Fields

-- `d.get(key)`, where `none` is the `None` of an absent key
abbrev pub get_field : String → Fields → Option Json
get_field k end = none
get_field k (field j v fs) = if j == k then some v else get_field k fs

-- `d.get(key)` as a value: an absent key and a null read the same
abbrev pub get_or_null : String → Fields → Json
get_or_null k fs = elim (get_field k fs) [ none ↦ Json.null | some v ↦ v ]

-- `set(d.keys()) - allowed` is empty
abbrev pub keys_within : List String → Fields → Bool
keys_within allowed end = true
keys_within allowed (field k v fs) = contains k allowed && keys_within allowed fs

-- Lists and dictionaries cannot be hashed, so looking one up in a set raises a TypeError.
abbrev pub is_hashable : Json → Bool
is_hashable (Json.arr _) = false
is_hashable (Json.obj _) = false
is_hashable Json.null = true
is_hashable (Json.bool _) = true
is_hashable (Json.int _) = true
is_hashable (Json.neg_int _) = true
is_hashable (Json.float _) = true
is_hashable (Json.str _) = true

-- `isinstance(v, str)`
abbrev pub as_str : Json → Option String
as_str (Json.str s) = some s
as_str Json.null = none
as_str (Json.bool _) = none
as_str (Json.int _) = none
as_str (Json.neg_int _) = none
as_str (Json.float _) = none
as_str (Json.arr _) = none
as_str (Json.obj _) = none
