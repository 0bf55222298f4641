-- ===== src/Python/Values.antt =====
-- The values that `json.loads` returns and that the code takes apart with `.get`, subscripts and
-- type tests. A dict has no key twice: the decoder keeps the last value of a repeated key.
use haetae.Prelude.{
  ℕ, zero, suc, String, Bool, true, false, not, ◌&&◌, Option, none, some, if◌then◌else◌, List,
  length, all, ◌==◌,
}
use haetae.Prelude.Int.{ℤ, pos}
use haetae.Python.Double.{is_zero}
use text.Mathlib.Text.{◌==◌ as str_eq}

mutual
  pub data Json : Type 0 where
    null : Json
    bool : Bool → Json
    int : ℤ → Json
    float : ℕ → Json
    str : String → Json
    arr : Items → Json
    obj : Fields → Json

  pub data Items : Type 0 where
    nil : Items
    cons : Json → Items → Items

  pub data Fields : Type 0 where
    end : Fields
    field : String → Json → Fields → Fields

-- `fields.get(key)` with the missing key kept apart from a null.
unfoldable pub find? : String → Fields → Option Json
find? key end = none
find? key (field k v rest) = if str_eq k key then some v else find? key rest

-- `fields.get(key, default)`
unfoldable pub find_or : String → Json → Fields → Json
find_or key default fields = elim (find? key fields) [ none ↦ default | some v ↦ v ]

-- `fields.get(key)`
abbrev pub find : String → Fields → Json
find key fields = find_or key null fields

-- `key in fields`
unfoldable pub has : String → Fields → Bool
has key fields = elim (find? key fields) [ none ↦ false | some _ ↦ true ]

abbrev pub field_count : Fields → ℕ
field_count end = 0
field_count (field _ _ rest) = suc (field_count rest)

-- `set(value) == FIELDS`, of a dict with no key twice.
unfoldable pub has_exactly : List String → Fields → Bool
unfolding has
has_exactly keys fields = field_count fields == length keys && all (λ key. has key fields) keys

-- `bool(value)`
abbrev pub truthy : Json → Bool
truthy null = false
truthy (bool b) = b
truthy (int (pos zero)) = false
truthy (int _) = true
truthy (float bits) = not (is_zero bits)
truthy (str s) = not (str_eq s "")
truthy (arr nil) = false
truthy (arr (cons _ _)) = true
truthy (obj end) = false
truthy (obj (field _ _ _)) = true

-- `value or {}`
abbrev pub or_empty : Json → Json
or_empty value = if truthy value then value else obj end

-- `value == text`
abbrev pub is_str : String → Json → Bool
is_str text (str s) = str_eq s text
is_str text _ = false

-- `value is True`
abbrev pub is_true : Json → Bool
is_true (bool b) = b
is_true _ = false

-- `value is None`
abbrev pub is_null : Json → Bool
is_null null = true
is_null _ = false

-- `value == 0`
abbrev pub eq_zero : Json → Bool
eq_zero (bool b) = not b
eq_zero (int (pos zero)) = true
eq_zero (float bits) = is_zero bits
eq_zero _ = false

-- `value == []`
abbrev pub is_empty_list : Json → Bool
is_empty_list (arr nil) = true
is_empty_list _ = false

-- `value == {"type": "stop"}`
abbrev pub is_stop_action : Json → Bool
is_stop_action (obj (field k v end)) = str_eq k "type" && is_str "stop" v
is_stop_action _ = false
