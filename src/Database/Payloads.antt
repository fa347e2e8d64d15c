-- ===== src/Database/Payloads.antt =====
-- Reading and writing the payload of an event.
use adrouter_agent.Prelude.{
  ◌==◌, if◌then◌else◌, Text, same_text, is_empty, Bool, true, false, not, Option, none, some,
}
use adrouter_agent.Json.{Json, null, bool, num, str, arr, obj, nil, Fields, end, field}

unfoldable pub lookup : Text → Fields → Option Json
lookup key end = none
lookup key (field k j fields) = if same_text k key then some j else lookup key fields

-- `safeRecord`: what is not an object reads as an empty one.
unfoldable pub safe_record : Json → Fields
safe_record (obj fields) = fields
safe_record null = end
safe_record (bool b) = end
safe_record (num n) = end
safe_record (str s) = end
safe_record (arr items) = end

abbrev pub as_string : Option Json → Option Text
as_string none = none
as_string (some (str s)) = some s
as_string (some null) = none
as_string (some (bool b)) = none
as_string (some (num n)) = none
as_string (some (arr items)) = none
as_string (some (obj fields)) = none

-- `value ?? []`
abbrev pub or_empty_array : Option Json → Json
or_empty_array none = arr nil
or_empty_array (some null) = arr nil
or_empty_array (some (bool b)) = bool b
or_empty_array (some (num n)) = num n
or_empty_array (some (str s)) = str s
or_empty_array (some (arr items)) = arr items
or_empty_array (some (obj fields)) = obj fields

-- `Boolean(value)`
abbrev pub truthy : Option Json → Bool
truthy none = false
truthy (some null) = false
truthy (some (bool b)) = b
truthy (some (num n)) = not (n == 0)
truthy (some (str s)) = not (is_empty s)
truthy (some (arr items)) = true
truthy (some (obj fields)) = true

-- A property that may be undefined, which is not written.
abbrev pub optional_field : Text → Option Json → Fields → Fields
optional_field key none fields = fields
optional_field key (some j) fields = field key j fields

-- `typeof value === 'string' && …`: the rest where there is a value.
abbrev pub when_some {ℓ κ} : {A : Type ℓ} {B : Type κ} → Option A → (A → Option B) → Option B
when_some none f = none
when_some (some a) f = f a
