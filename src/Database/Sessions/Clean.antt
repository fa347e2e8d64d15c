-- ===== src/Database/Sessions/Clean.antt =====
-- What is projected to the session has no sponsor data.
use adrouter_agent.Prelude.{
  Bool-cases, or-eq-false, any, Text, codes, same_text, lower_unit, to_lower_case, text_in, ℕ, ◌≡◌,
  refl, ap, subst, inl, inr, Bool, false, Option, none, some, List, [], ◌∷◌, arith,
}
use adrouter_agent.Json.{
  Json, null, bool, num, str, arr, obj, Fields, end, field, is_sponsor_key, contains_sponsor_key,
  contains_fields,
}
use adrouter_agent.Json.Sponsor.{contains_sponsor_key-remove_sponsor_data}
use adrouter_agent.Database.{
  SessionEntryKind, entry_user, entry_assistant, entry_tool_result, entry_compaction, entry_anchor,
  found,
}
use adrouter_agent.Database.Payloads.{lookup, as_string, optional_field, when_some}
use adrouter_agent.Database.Sessions.{
  Projection, token_count, usage_json, optional_text, project_user, project_assistant, project_tool,
  copied_fields, copy_fields, project_compaction, project_anchor,
}

abbrev pub IsClean : Json → Type 0
IsClean j = contains_sponsor_key j ≡ false

abbrev pub AreClean : Fields → Type 0
AreClean fields = contains_fields fields ≡ false

field-Clean :
    (key : Text) (j : Json) (fields : Fields)
    → is_sponsor_key key ≡ false
    → IsClean j
    → AreClean fields
    → AreClean (field key j fields)
unfolding contains_sponsor_key
field-Clean key j fields k h l = rw (k, h, l) refl

optional_field-Clean :
    (key : Text) (o : Option Json) (fields : Fields)
    → is_sponsor_key key ≡ false
    → ((j : Json) → o ≡ some j → IsClean j)
    → AreClean fields
    → AreClean (optional_field key o fields)
optional_field-Clean key none fields k h l = l
optional_field-Clean key (some j) fields k h l = field-Clean key j fields k (h j refl) l

lookup-Clean :
    (key : Text) (fields : Fields) (j : Json)
    → AreClean fields
    → lookup key fields ≡ some j
    → IsClean j
unfolding lookup contains_sponsor_key
lookup-Clean key end j h found = cc
lookup-Clean key (field k v fields) j h found = ground (arith, lookup-Clean key fields j)

str-Clean : (s : Text) → IsClean (str s)
unfolding contains_sponsor_key
str-Clean s = refl

bool-Clean : (b : Bool) → IsClean (bool b)
unfolding contains_sponsor_key
bool-Clean b = refl

end-Clean : AreClean end
unfolding contains_sponsor_key
end-Clean = refl

IsClean-obj : (fields : Fields) → AreClean fields → IsClean (obj fields)
unfolding contains_sponsor_key
IsClean-obj fields h = h

pub AreClean-obj : (fields : Fields) → IsClean (obj fields) → AreClean fields
unfolding contains_sponsor_key
AreClean-obj fields h = h

optional_text-Clean : (o : Option Text) (j : Json) → optional_text o ≡ some j → IsClean j
unfolding contains_sponsor_key
optional_text-Clean none j h = cc
optional_text-Clean (some s) j h = cc

token_count-Clean : (is_count : ℕ → Bool) (o : Option Json) → IsClean (token_count is_count o)
unfolding contains_sponsor_key
token_count-Clean is_count none = refl
token_count-Clean is_count (some null) = refl
token_count-Clean is_count (some (bool b)) = refl
token_count-Clean is_count (some (num n)) = elim (Bool-cases (is_count n)) [
  | inl e ↦ rw e refl
  | inr e ↦ rw e refl
]
token_count-Clean is_count (some (str s)) = refl
token_count-Clean is_count (some (arr items)) = refl
token_count-Clean is_count (some (obj fields)) = refl

usage_json-Clean : (is_count : ℕ → Bool) (usage : Fields) → IsClean (usage_json is_count usage)
unfolding usage_json contains_sponsor_key is_sponsor_key to_lower_case text_in same_text lower_unit
usage_json-Clean is_count usage =
    rw
      (
        token_count-Clean is_count (lookup (codes "input") usage),
        token_count-Clean is_count (lookup (codes "output") usage),
        token_count-Clean is_count (lookup (codes "cacheRead") usage),
        token_count-Clean is_count (lookup (codes "cacheWrite") usage),
        token_count-Clean is_count (lookup (codes "totalTokens") usage),
      )
      refl

-- Whatever is projected is clean.
abbrev pub Projects : Option Projection → Type 0
Projects o = (p : Projection) → o ≡ some p → IsClean p.payload

Projects-some :
    (kind : SessionEntryKind) (payload : Json)
    → IsClean payload
    → Projects (some (record { kind = kind; payload = payload }))
Projects-some kind payload h p e = subst IsClean (ap (λ q. q.payload) (projection_inj e)) h
  where
    projection_inj : {a b : Projection} → ◌≡◌ {A = Option Projection} (some a) (some b) → a ≡ b
    projection_inj e = ground arith

Projects-when_some {ℓ} :
    {A : Type ℓ} (o : Option A) (f : A → Option Projection)
    → ((a : A) → Projects (f a))
    → Projects (when_some o f)
Projects-when_some none f h p e = cc
Projects-when_some (some a) f h p e = h a p e

pub Projects-user : (payload : Fields) → Projects (project_user payload)
unfolding project_user is_sponsor_key to_lower_case text_in same_text lower_unit
Projects-user payload = Projects-when_some (as_string (lookup (codes "text") payload)) _ (λ text.
    Projects-some entry_user _ (
      IsClean-obj _ (
        field-Clean (codes "role") _ _ refl (str-Clean _) (
          field-Clean (codes "text") _ _ refl (str-Clean text) (
            optional_field-Clean (codes "mode") _ end refl
              (optional_text-Clean (as_string (lookup (codes "mode") payload))) end-Clean)))))

pub Projects-assistant :
    (is_count : ℕ → Bool) (payload : Fields) → Projects (project_assistant is_count payload)
unfolding project_assistant is_sponsor_key to_lower_case text_in same_text lower_unit
Projects-assistant is_count payload =
    Projects-when_some (as_string (lookup (codes "text") payload)) _ (λ text.
      Projects-some entry_assistant _ (
        IsClean-obj _ (
          field-Clean (codes "role") _ _ refl (str-Clean _) (
            field-Clean (codes "text") _ _ refl (str-Clean text) (
              field-Clean (codes "content") _ _ refl (contains_sponsor_key-remove_sponsor_data _) (
                field-Clean (codes "model") _ _ refl (str-Clean _) (
                  field-Clean (codes "usage") _ _ refl (usage_json-Clean is_count _)
                    end-Clean)))))))

pub Projects-tool : (payload : Fields) → Projects (project_tool payload)
unfolding project_tool is_sponsor_key to_lower_case text_in same_text lower_unit
Projects-tool payload = Projects-when_some (as_string (lookup (codes "name") payload)) _ (λ name.
    Projects-when_some (as_string (lookup (codes "toolCallId") payload)) _ (λ call.
      Projects-when_some (as_string (lookup (codes "output") payload)) _ (λ output.
        Projects-some entry_tool_result _ (
          IsClean-obj _ (
            field-Clean (codes "name") _ _ refl (str-Clean name) (
              field-Clean (codes "toolCallId") _ _ refl (str-Clean call) (
                field-Clean (codes "output") _ _ refl (str-Clean output)
                  (field-Clean (codes "isError") _ _ refl (bool-Clean _) end-Clean))))))))

copy_fields-Clean :
    (keys : List Text) (payload rest : Fields)
    → any is_sponsor_key keys ≡ false
    → AreClean payload
    → AreClean rest
    → AreClean (copy_fields keys payload rest)
unfolding copy_fields
copy_fields-Clean [] payload rest k h l = l
copy_fields-Clean (key ∷ keys) payload rest k h l =
    let (here, later) = or-eq-false (is_sponsor_key key) (any is_sponsor_key keys) k in
    optional_field-Clean key (lookup key payload) _ here (λ j. lookup-Clean key payload j h)
      (copy_fields-Clean keys payload rest later h l)

pub Projects-compaction :
    (payload : Fields) → AreClean payload → Projects (project_compaction payload)
unfolding project_compaction is_sponsor_key to_lower_case text_in same_text lower_unit
Projects-compaction payload h =
    Projects-when_some (as_string (lookup (codes "summary") payload)) _ (λ summary.
      Projects-some entry_compaction _ (
        IsClean-obj _ (
          field-Clean (codes "summary") _ _ refl (str-Clean summary) (
            copy_fields-Clean copied_fields payload _ refl h (
              field-Clean (codes "retainedMessages") _ _ refl
                (contains_sponsor_key-remove_sponsor_data _) end-Clean)))))

pub Projects-anchor : (name : Text) (payload : Fields) → Projects (project_anchor name payload)
unfolding project_anchor is_sponsor_key to_lower_case text_in same_text lower_unit
Projects-anchor name payload = Projects-some entry_anchor _ (
    IsClean-obj _ (
      field-Clean (codes "eventType") _ _ refl (str-Clean name) (
        field-Clean (codes "value") _ _ refl (contains_sponsor_key-remove_sponsor_data _)
          end-Clean)))
