-- ===== src/Database/Journal/Sequence.antt =====
-- The numbers of the events of a thread.
use mathlib.Core.List.{append-nil}
use adrouter_agent.Prelude.{
  if◌then◌else◌, Bool-cases, length, filter, filter-append, Text, same_text, ℕ, suc, ◌+◌, max, ◌≡◌,
  refl, inl, inr, Bool, true, List, [], ◌∷◌, ◌++◌, arith,
}
use adrouter_agent.Database.{JournalEvent, max_of}
use adrouter_agent.Database.Journal.{insert_event, sort_events}

-- One after the other, from a number on.
abbrev pub Numbered : ℕ → List JournalEvent → Type 0
Numbered n [] = Unit
Numbered n (x ∷ xs) = (x.sequence ≡ n) × Numbered (suc n) xs

pub sort_events-Numbered : (n : ℕ) (xs : List JournalEvent) → Numbered n xs → sort_events xs ≡ xs
unfolding sort_events insert_event
sort_events-Numbered n [] h = refl
sort_events-Numbered n (x ∷ []) h = refl
sort_events-Numbered n (x ∷ y ∷ ys) h =
    rw (sort_events-Numbered (suc n) (y ∷ ys) h.1) (ground (arith, h.0, h.1.0))

pub Numbered-append :
    (n : ℕ) (xs : List JournalEvent) (x : JournalEvent)
    → Numbered n xs
    → x.sequence ≡ n + length xs
    → Numbered n (xs ++ x ∷ [])
Numbered-append n [] x h same = (omega (arith, same), tt)
Numbered-append n (y ∷ ys) x h same = (h.0, Numbered-append (suc n) ys x h.1 (omega (arith, same)))

max_of-filter :
    (p : JournalEvent → Bool) (xs : List JournalEvent)
    → max_of p (λ x. x.sequence) xs ≡ max_of (λ x. true) (λ x. x.sequence) (filter p xs)
unfolding max_of
max_of-filter p [] = refl
max_of-filter p (x ∷ xs) = ground (arith, max_of-filter p xs)

max_of-Numbered :
    (n : ℕ) (xs : List JournalEvent)
    → Numbered (suc n) xs
    → max n (max_of (λ x. true) (λ x. x.sequence) xs) ≡ n + length xs
unfolding max_of
max_of-Numbered n [] h = omega arith
max_of-Numbered n (x ∷ xs) h = omega (arith, h.0, max_of-Numbered (suc n) xs h.1)

abbrev pub events_of : Text → List JournalEvent → List JournalEvent
events_of id xs = filter (λ x. same_text x.thread_id id) xs

pub next_sequence :
    (id : Text) (xs : List JournalEvent)
    → Numbered 1 (events_of id xs)
    → max_of (λ x. same_text x.thread_id id) (λ x. x.sequence) xs + 1 ≡ 1 + length (events_of id xs)
next_sequence id xs h =
    omega (
      arith,
      max_of-filter (λ x. same_text x.thread_id id) xs,
      max_of-Numbered 0 (events_of id xs) h,
    )

pub events_of-append :
    (id : Text) (xs : List JournalEvent) (x : JournalEvent)
    → events_of id (xs ++ x ∷ [])
      ≡ (if same_text x.thread_id id then events_of id xs ++ x ∷ [] else events_of id xs)
events_of-append id xs x = elim (Bool-cases (same_text x.thread_id id)) [
  | inl e ↦ rw (filter-append (λ y. same_text y.thread_id id) xs (x ∷ []), e) refl
  | inr e ↦
      rw (filter-append (λ y. same_text y.thread_id id) xs (x ∷ []), e)
        (append-nil (events_of id xs))
]
