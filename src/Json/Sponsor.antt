-- ===== src/Json/Sponsor.antt =====
-- Sponsor data never passes `removeSponsorData`.
use adrouter_agent.Prelude.{◌≡◌, refl, ap, subst, ◌↔◌, false, arith}
use adrouter_agent.Json.{
  Json, null, bool, num, str, arr, obj, Items, nil, cons, Fields, end, field, remove_sponsor_data,
  remove_items, remove_fields, contains_sponsor_key, contains_items, contains_fields,
}

mutual
  unfolding remove_sponsor_data contains_sponsor_key

  removes : (j : Json) → contains_sponsor_key (remove_sponsor_data j) ≡ false
  removes (arr items) = removes_items items
  removes (obj fields) = removes_fields fields
  removes null = refl
  removes (bool b) = refl
  removes (num n) = refl
  removes (str s) = refl

  removes_items : (items : Items) → contains_items (remove_items items) ≡ false
  removes_items nil = refl
  removes_items (cons j items) = ground (arith, removes j, removes_items items)

  removes_fields : (fields : Fields) → contains_fields (remove_fields fields) ≡ false
  removes_fields end = refl
  removes_fields (field key j fields) = ground (arith, removes j, removes_fields fields)

-- After `removeSponsorData` no object at any depth has a sponsor key, in any case of letters.
pub contains_sponsor_key-remove_sponsor_data :
    (j : Json) → contains_sponsor_key (remove_sponsor_data j) ≡ false
contains_sponsor_key-remove_sponsor_data j = removes j

mutual
  unfolding remove_sponsor_data contains_sponsor_key

  keeps : (j : Json) → contains_sponsor_key j ≡ false → remove_sponsor_data j ≡ j
  keeps (arr items) h = ap arr (keeps_items items h)
  keeps (obj fields) h = ap obj (keeps_fields fields h)
  keeps null h = refl
  keeps (bool b) h = refl
  keeps (num n) h = refl
  keeps (str s) h = refl

  keeps_items : (items : Items) → contains_items items ≡ false → remove_items items ≡ items
  keeps_items nil h = refl
  keeps_items (cons j items) h = ground (arith, keeps j, keeps_items items)

  keeps_fields : (fields : Fields) → contains_fields fields ≡ false → remove_fields fields ≡ fields
  keeps_fields end h = refl
  keeps_fields (field key j fields) h = ground (arith, keeps j, keeps_fields fields)

-- A value without sponsor keys passes unchanged.
pub remove_sponsor_data_clean :
    (j : Json) → contains_sponsor_key j ≡ false → remove_sponsor_data j ≡ j
remove_sponsor_data_clean j h = keeps j h

-- The removal is exactly what the check asks for: a value is unchanged by it exactly when the
-- check finds no sponsor key.
pub remove_sponsor_data_iff :
    (j : Json) → (remove_sponsor_data j ≡ j) ↔ (contains_sponsor_key j ≡ false)
remove_sponsor_data_iff j =
    (λ e. subst (λ k. contains_sponsor_key k ≡ false) e (removes j), keeps j)
