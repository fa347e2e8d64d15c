-- ===== src/Json.antt =====
-- JSON values, and the functions on them of src/shared/security.ts, src/shared/automation-protocol.ts
-- and src/runtime/operation-manifest.ts. An object is its entries in the order of
-- `Object.entries`; keys spelled as array indices, which JavaScript moves to the front, are left out.
-- A number stands by a code of its own.
pub mod Sponsor
pub mod Canonical
use adrouter_agent.Prelude.{
  if◌then◌else◌, Text, codes, same_text, text_lt, to_lower_case, text_in, ℕ, Bool, false, not, ◌||◌,
  List, [], ◌∷◌,
}

mutual
  pub data Json : Type 0 where
    null : Json
    bool : Bool → Json
    num : ℕ → Json
    str : Text → Json
    arr : Items → Json
    obj : Fields → Json

  pub data Items : Type 0 where
    nil : Items
    cons : Json → Items → Items

  pub data Fields : Type 0 where
    end : Fields
    field : Text → Json → Fields → Fields

abbrev pub sponsor_keys : List Text
sponsor_keys =
    codes "ad"
    ∷ codes "ads"
    ∷ codes "advertiser"
    ∷ codes "sponsor"
    ∷ codes "sponsorship"
    ∷ codes "settlement"
    ∷ codes "subsidy"
    ∷ codes "economics"
    ∷ []

-- `SPONSOR_KEYS.has(key.toLowerCase())`
unfoldable pub is_sponsor_key : Text → Bool
unfolding to_lower_case same_text
is_sponsor_key key = text_in (to_lower_case key) sponsor_keys

unfoldable mutual
  pub remove_sponsor_data : Json → Json
  remove_sponsor_data (arr items) = arr (remove_items items)
  remove_sponsor_data (obj fields) = obj (remove_fields fields)
  remove_sponsor_data null = null
  remove_sponsor_data (bool b) = bool b
  remove_sponsor_data (num n) = num n
  remove_sponsor_data (str s) = str s

  pub remove_items : Items → Items
  remove_items nil = nil
  remove_items (cons j items) = cons (remove_sponsor_data j) (remove_items items)

  pub remove_fields : Fields → Fields
  remove_fields end = end
  remove_fields (field key j fields) =
      if not (is_sponsor_key key)
      then field key (remove_sponsor_data j) (remove_fields fields)
      else remove_fields fields

unfoldable mutual
  pub contains_sponsor_key : Json → Bool
  contains_sponsor_key (arr items) = contains_items items
  contains_sponsor_key (obj fields) = contains_fields fields
  contains_sponsor_key null = false
  contains_sponsor_key (bool b) = false
  contains_sponsor_key (num n) = false
  contains_sponsor_key (str s) = false

  pub contains_items : Items → Bool
  contains_items nil = false
  contains_items (cons j items) = contains_sponsor_key j || contains_items items

  pub contains_fields : Fields → Bool
  contains_fields end = false
  contains_fields (field key j fields) =
      (is_sponsor_key key || contains_sponsor_key j) || contains_fields fields

-- The stable sort of the entries by key, `left < right ? -1 : left > right ? 1 : 0`.
unfoldable pub insert_field : Text → Json → Fields → Fields
insert_field key j end = field key j end
insert_field key j (field k v fields) =
    if text_lt k key then field k v (insert_field key j fields) else field key j (field k v fields)

-- `canonicalize` and `canonicalizeLocalRpc`.
unfoldable mutual
  pub canonicalize : Json → Json
  canonicalize (arr items) = arr (canonicalize_items items)
  canonicalize (obj fields) = obj (canonicalize_fields fields)
  canonicalize null = null
  canonicalize (bool b) = bool b
  canonicalize (num n) = num n
  canonicalize (str s) = str s

  pub canonicalize_items : Items → Items
  canonicalize_items nil = nil
  canonicalize_items (cons j items) = cons (canonicalize j) (canonicalize_items items)

  pub canonicalize_fields : Fields → Fields
  canonicalize_fields end = end
  canonicalize_fields (field key j fields) =
      insert_field key (canonicalize j) (canonicalize_fields fields)
