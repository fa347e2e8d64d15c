-- ===== src/Prelude/Results.antt =====
-- Results, a sum with the error on the left, and what a result that is no error says.
use mathlib.Core.Path.{◌≡◌, refl}
use mathlib.Core.Logic.{◌⊎◌, inl, inr}
use mathlib.Core.Bool.{Bool, true, false}
use native.Mathlib.Omega.{arith}
use adrouter_agent.Prelude.Tests.{if◌then◌else◌}

abbrev pub and_then {ℓ κ μ} : {A : Type ℓ} {B : Type κ} {C : Type μ} → A ⊎ B → (B → A ⊎ C) → A ⊎ C
and_then (inl x) f = inl x
and_then (inr b) f = f b

pub chosen {ℓ κ} :
    {A : Type ℓ} {B : Type κ} (b : Bool) (x m : B) (y : A)
    → (if b then inr x else inl y) ≡ inr m
    → (b ≡ true) × (x ≡ m)
chosen true x m y h = (refl, ground arith)
chosen false x m y h = cc

pub not_refused {ℓ κ} :
    {A : Type ℓ} {B : Type κ} (b : Bool) (r : A ⊎ B) (m : B) (y : A)
    → (if b then inl y else r) ≡ inr m
    → (b ≡ false) × (r ≡ inr m)
not_refused true r m y h = cc
not_refused false r m y h = (refl, h)

pub and_then-inr {ℓ κ μ} :
    {A : Type ℓ} {B : Type κ} {C : Type μ} (r : A ⊎ B) (f : B → A ⊎ C) (c : C)
    → and_then r f ≡ inr c
    → (b : B) × (r ≡ inr b) × (f b ≡ inr c)
and_then-inr (inl x) f c h = cc
and_then-inr (inr b) f c h = (b, refl, h)

pub inr_inj {ℓ κ} : {A : Type ℓ} {B : Type κ} (x m : B) → ◌≡◌ {A = A ⊎ B} (inr x) (inr m) → x ≡ m
inr_inj x m h = ground arith
