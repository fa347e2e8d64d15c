-- ===== src/Json/Canonical.antt =====
-- The canonical form that digests and signatures are taken of.
use adrouter_agent.Prelude.{
  Text, text_lt, text_lt_trans, text_lt_asym, text_lt_total, ◌≡◌, refl, ap, ◌∙◌, ◌≢◌, Bool, true,
  false, not, ◌&&◌, arith,
}
use adrouter_agent.Json.{
  Json, null, bool, num, str, arr, obj, Items, nil, cons, Fields, end, field, insert_field,
  canonicalize, canonicalize_items, canonicalize_fields,
}

-- No key stands before a smaller one.
unfoldable pub starts_from : Text → Fields → Bool
starts_from key end = true
starts_from key (field k v fields) = not (text_lt k key)

unfoldable mutual
  pub is_canonical : Json → Bool
  is_canonical (arr items) = canonical_items items
  is_canonical (obj fields) = canonical_fields fields
  is_canonical null = true
  is_canonical (bool b) = true
  is_canonical (num n) = true
  is_canonical (str s) = true

  pub canonical_items : Items → Bool
  canonical_items nil = true
  canonical_items (cons j items) = is_canonical j && canonical_items items

  pub canonical_fields : Fields → Bool
  canonical_fields end = true
  canonical_fields (field key j fields) =
      (is_canonical j && starts_from key fields) && canonical_fields fields

starts_from-insert_field :
    (low key : Text) (j : Json) (fields : Fields)
    → text_lt key low ≡ false
    → starts_from low fields ≡ true
    → starts_from low (insert_field key j fields) ≡ true
unfolding insert_field starts_from
starts_from-insert_field low key j end h k = ground arith
starts_from-insert_field low key j (field k v fields) h e = ground arith

canonical_fields-insert_field :
    (key : Text) (j : Json) (fields : Fields)
    → is_canonical j ≡ true
    → canonical_fields fields ≡ true
    → canonical_fields (insert_field key j fields) ≡ true
unfolding insert_field is_canonical starts_from
canonical_fields-insert_field key j end h e = ground arith
canonical_fields-insert_field key j (field k v fields) h e = ground (
  arith,
  canonical_fields-insert_field key j fields h,
  starts_from-insert_field k key j fields,
  text_lt_asym k key,
)

mutual
  unfolding canonicalize is_canonical

  sorts : (j : Json) → is_canonical (canonicalize j) ≡ true
  sorts (arr items) = sorts_items items
  sorts (obj fields) = sorts_fields fields
  sorts null = refl
  sorts (bool b) = refl
  sorts (num n) = refl
  sorts (str s) = refl

  sorts_items : (items : Items) → canonical_items (canonicalize_items items) ≡ true
  sorts_items nil = refl
  sorts_items (cons j items) = ground (arith, sorts j, sorts_items items)

  sorts_fields : (fields : Fields) → canonical_fields (canonicalize_fields fields) ≡ true
  sorts_fields end = refl
  sorts_fields (field key j fields) =
      canonical_fields-insert_field key (canonicalize j) (canonicalize_fields fields) (sorts j)
        (sorts_fields fields)

insert_field_first :
    (key : Text) (j : Json) (fields : Fields)
    → starts_from key fields ≡ true
    → insert_field key j fields ≡ field key j fields
unfolding insert_field starts_from
insert_field_first key j end h = refl
insert_field_first key j (field k v fields) h = ground arith

mutual
  unfolding canonicalize is_canonical

  stays : (j : Json) → is_canonical j ≡ true → canonicalize j ≡ j
  stays (arr items) h = ap arr (stays_items items h)
  stays (obj fields) h = ap obj (stays_fields fields h)
  stays null h = refl
  stays (bool b) h = refl
  stays (num n) h = refl
  stays (str s) h = refl

  stays_items : (items : Items) → canonical_items items ≡ true → canonicalize_items items ≡ items
  stays_items nil h = refl
  stays_items (cons j items) h = ground (arith, stays j, stays_items items)

  stays_fields :
      (fields : Fields) → canonical_fields fields ≡ true → canonicalize_fields fields ≡ fields
  stays_fields end h = refl
  stays_fields (field key j fields) h =
      ground (arith, stays j, stays_fields fields, insert_field_first key j fields)

-- The canonical form has the keys of every object in order, and is its own canonical form.
pub canonicalize_idem :
    (j : Json)
    → (is_canonical (canonicalize j) ≡ true) × (canonicalize (canonicalize j) ≡ canonicalize j)
canonicalize_idem j = (sorts j, stays (canonicalize j) (sorts j))

insert_field_swap :
    (a b : Text) (x y : Json) (fields : Fields)
    → a ≢ b
    → insert_field a x (insert_field b y fields) ≡ insert_field b y (insert_field a x fields)
unfolding insert_field
insert_field_swap a b x y end h = ground (arith, text_lt_asym a b, text_lt_total a b)
insert_field_swap a b x y (field k v fields) h = ground (
  arith,
  insert_field_swap a b x y fields h,
  text_lt_asym a b,
  text_lt_total a b,
  text_lt_trans k a b,
  text_lt_trans k b a,
)

-- The same value with the entries of its objects, at any depth, in another order. Two entries that
-- change places have different keys.
mutual
  pub data Reordered : Json → Json → Type 0 where
    same : {j : Json} → Reordered j j
    items : {xs ys : Items} → ReorderedItems xs ys → Reordered (arr xs) (arr ys)
    fields : {fs gs : Fields} → ReorderedFields fs gs → Reordered (obj fs) (obj gs)

  pub data ReorderedItems : Items → Items → Type 0 where
    none_left : ReorderedItems nil nil
    next :
        {j k : Json} {xs ys : Items}
        → Reordered j k
        → ReorderedItems xs ys
        → ReorderedItems (cons j xs) (cons k ys)

  pub data ReorderedFields : Fields → Fields → Type 0 where
    all_done : ReorderedFields end end
    keep :
        {key : Text} {j k : Json} {fs gs : Fields}
        → Reordered j k
        → ReorderedFields fs gs
        → ReorderedFields (field key j fs) (field key k gs)
    swap :
        {a b : Text} {x y : Json} {fs : Fields}
        → a ≢ b
        → ReorderedFields (field a x (field b y fs)) (field b y (field a x fs))
    both :
        {fs gs hs : Fields} → ReorderedFields fs gs → ReorderedFields gs hs → ReorderedFields fs hs

mutual
  unfolding canonicalize

  agree : {j k : Json} → Reordered j k → canonicalize j ≡ canonicalize k
  agree same = refl
  agree (items r) = ap arr (agree_items r)
  agree (fields r) = ap obj (agree_fields r)

  agree_items :
      {xs ys : Items} → ReorderedItems xs ys → canonicalize_items xs ≡ canonicalize_items ys
  agree_items none_left = refl
  agree_items (next r rs) = cc (agree r, agree_items rs)

  agree_fields :
      {fs gs : Fields} → ReorderedFields fs gs → canonicalize_fields fs ≡ canonicalize_fields gs
  agree_fields all_done = refl
  agree_fields (keep {key} r rs) = cc (agree r, agree_fields rs)
  agree_fields (swap {a} {b} {x} {y} {fs} h) =
      insert_field_swap a b (canonicalize x) (canonicalize y) (canonicalize_fields fs) h
  agree_fields (both r rs) = agree_fields r ∙ agree_fields rs

-- Values that differ in the order of the entries of their objects have one canonical form, so one
-- digest and one signing payload.
pub canonicalize-Reordered : (j k : Json) → Reordered j k → canonicalize j ≡ canonicalize k
canonicalize-Reordered j k r = agree r
