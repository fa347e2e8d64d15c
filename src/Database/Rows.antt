-- ===== src/Database/Rows.antt =====
-- Rows by their ids, and the updates of rows.
use adrouter_agent.Prelude.{
  if◌then◌else◌, Bool-cases, Text, same_text, same_text_iff, ◌≡◌, refl, ◌⊎◌, inl, inr, Bool, true,
  false, Option, none, some, List, [], ◌∷◌, ◌++◌, arith,
}
use adrouter_agent.Database.{DbError, find_row, update_rows, found}

abbrev pub change {ℓ} : {A : Type ℓ} → (A → A) → Option A → Option A
change f none = none
change f (some a) = some (f a)

pub change-some {ℓ} :
    {A : Type ℓ} (f : A → A) (o : Option A) (b : A)
    → change f o ≡ some b
    → (a : A) × (o ≡ some a) × (f a ≡ b)
change-some f none b h = cc
change-some f (some a) b h = (a, refl, ground arith)

pub change-none {ℓ} : {A : Type ℓ} (f : A → A) (o : Option A) → change f o ≡ none → o ≡ none
change-none f none h = refl
change-none f (some a) h = cc

pub if_none {ℓ} :
    {A : Type ℓ} (b : Bool) (a : A) (o : Option A) → (if b then some a else o) ≡ none → o ≡ none
if_none true a o h = cc
if_none false a o h = h

pub if_some {ℓ} :
    {A : Type ℓ} (b : Bool) (a : A) (o : Option A) (c : A)
    → (if b then some a else o) ≡ some c
    → ((b ≡ true) × (a ≡ c)) ⊎ ((b ≡ false) × (o ≡ some c))
if_some true a o c h = inl (refl, ground arith)
if_some false a o c h = inr (refl, h)

module _ {ℓ} {A : Type ℓ} (key : A → Text) where
  abbrev pub by_key : Text → List A → Option A
  by_key id rows = find_row (λ t. same_text (key t) id) rows

  pub by_key_id : (id : Text) (rows : List A) (a : A) → by_key id rows ≡ some a → key a ≡ id
  unfolding find_row
  by_key_id id [] a h = cc
  by_key_id id (t ∷ rows) a h = ground (arith, same_text_iff (key t) id, by_key_id id rows a)

  -- A new row under a new id.
  pub by_key-append :
      (j : Text) (rows : List A) (a : A)
      → by_key (key a) rows ≡ none
      → by_key j (rows ++ a ∷ []) ≡ (if same_text (key a) j then some a else by_key j rows)
  unfolding find_row
  by_key-append j [] a fresh = refl
  by_key-append j (t ∷ rows) a fresh = ground (
    arith,
    same_text_iff (key t) j,
    same_text_iff (key a) j,
    same_text_iff (key t) (key a),
    by_key-append j rows a,
  )

  module _ (f : A → A) (keeps : (t : A) → key (f t) ≡ key t) where
    pub by_key-update :
        (i j : Text) (rows : List A)
        → by_key j (update_rows (λ t. same_text (key t) i) f rows)
          ≡ change (λ t. if same_text i j then f t else t) (by_key j rows)
    unfolding find_row update_rows
    by_key-update i j [] = refl
    by_key-update i j (t ∷ rows) = ground (
      arith,
      keeps t,
      same_text_iff (key t) i,
      same_text_iff (key t) j,
      same_text_iff i j,
      by_key-update i j rows,
    )

pub found-inr {ℓ} :
    {A : Type ℓ} (x : DbError) (o : Option A) (a : A) → found x o ≡ inr a → o ≡ some a
found-inr x none a h = cc
found-inr x (some b) a h = ground arith

pub some_inj {ℓ} : {A : Type ℓ} (a b : A) → some a ≡ some b → a ≡ b
some_inj a b h = ground arith

module _ {ℓ} {A : Type ℓ} (key : A → Text) where
  -- An update of the rows that pass any test.
  pub by_key-update_where :
      (p : A → Bool) (f : A → A)
      → ((t : A) → key (f t) ≡ key t)
      → (j : Text) (rows : List A)
      → by_key key j (update_rows p f rows)
        ≡ change (λ t. if p t then f t else t) (by_key key j rows)
  unfolding find_row update_rows
  by_key-update_where p f keeps j [] = refl
  by_key-update_where p f keeps j (t ∷ rows) =
      ground (arith, keeps t, by_key-update_where p f keeps j rows)

  pub by_key-append_some :
      (j : Text) (rows more : List A) (a : A)
      → by_key key j rows ≡ some a
      → by_key key j (rows ++ more) ≡ some a
  unfolding find_row
  by_key-append_some j [] more a h = cc
  by_key-append_some j (t ∷ rows) more a h = ground (arith, by_key-append_some j rows more a)

  pub by_key-append_cases :
      (j : Text) (rows : List A) (x a : A)
      → by_key key j (rows ++ x ∷ []) ≡ some a
      → (by_key key j rows ≡ some a) ⊎ (x ≡ a)
  unfolding find_row
  by_key-append_cases j [] x a h = inr (elim (Bool-cases (same_text (key x) j)) [
    | inl e ↦ some_inj x a (rw e at h)
    | inr e ↦ let k = rw e at h in absurd (cc)
  ])
  by_key-append_cases j (t ∷ rows) x a h = elim (Bool-cases (same_text (key t) j)) [
    | inl e ↦ inl (rw e (rw e at h))
    | inr e ↦ rw e (by_key-append_cases j rows x a (rw e at h))
  ]
