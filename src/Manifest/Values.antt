-- ===== src/Manifest/Values.antt =====
-- The parts of a JSON value, and the parts of a manifest that are texts.
use adrouter_agent.Prelude.{
  Text, ℕ, zero, suc, ◌≡◌, refl, Bool, true, false, Option, none, some, List, [], ◌∷◌,
}
use adrouter_agent.Json.{
  Json, null, bool, num, str, arr, obj, Items, nil, cons, Fields, end, field, canonicalize,
  canonicalize_items,
}
use adrouter_agent.TaskPolicy.{}
use adrouter_agent.Manifest.{text_or_null, texts_json, argv_json}

-- The value of the n-th entry of an object, and the parts of a value.
abbrev pub value_in : ℕ → Fields → Json
value_in n end = null
value_in zero (field key j fields) = j
value_in (suc n) (field key j fields) = value_in n fields

abbrev pub value_at : ℕ → Json → Json
value_at n (obj fields) = value_in n fields
value_at n null = null
value_at n (bool b) = null
value_at n (num k) = null
value_at n (str s) = null
value_at n (arr items) = null

abbrev pub text_of : Json → Text
text_of (str s) = s
text_of null = []
text_of (bool b) = []
text_of (num n) = []
text_of (arr items) = []
text_of (obj fields) = []

abbrev pub items_of : Json → Items
items_of (arr items) = items
items_of null = nil
items_of (bool b) = nil
items_of (num n) = nil
items_of (str s) = nil
items_of (obj fields) = nil

abbrev pub number_of : Json → ℕ
number_of (num n) = n
number_of null = 0
number_of (bool b) = 0
number_of (str s) = 0
number_of (arr items) = 0
number_of (obj fields) = 0

pub text_or_null_inj :
    (s t : Option Text) → canonicalize (text_or_null s) ≡ canonicalize (text_or_null t) → s ≡ t
unfolding canonicalize
text_or_null_inj none none h = refl
text_or_null_inj none (some t) h = cc
text_or_null_inj (some s) none h = cc
text_or_null_inj (some s) (some t) h = cc

pub texts_json_inj :
    (ss ts : List Text)
    → canonicalize_items (texts_json ss) ≡ canonicalize_items (texts_json ts)
    → ss ≡ ts
unfolding canonicalize
texts_json_inj [] [] h = refl
texts_json_inj [] (t ∷ ts) h = cc
texts_json_inj (s ∷ ss) [] h = cc
texts_json_inj (s ∷ ss) (t ∷ ts) h = cc (texts_json_inj ss ts (cc))

pub argv_json_inj :
    (s t : Option (List Text)) → canonicalize (argv_json s) ≡ canonicalize (argv_json t) → s ≡ t
unfolding canonicalize
argv_json_inj none none h = refl
argv_json_inj none (some t) h = cc
argv_json_inj (some s) none h = cc
argv_json_inj (some s) (some t) h = cc (texts_json_inj s t (cc))

abbrev pub head_item : Items → Json
head_item nil = null
head_item (cons j items) = j

abbrev pub tail_items : Items → Items
tail_items nil = nil
tail_items (cons j items) = items

abbrev pub is_empty_items : Items → Bool
is_empty_items nil = true
is_empty_items (cons j items) = false

abbrev pub is_object : Json → Bool
is_object (obj fields) = true
is_object null = false
is_object (bool b) = false
is_object (num n) = false
is_object (str s) = false
is_object (arr items) = false
