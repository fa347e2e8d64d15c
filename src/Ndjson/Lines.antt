-- ===== src/Ndjson/Lines.antt =====
-- The lines of a text behind another, src/runtime/ndjson.ts.
use adrouter_agent.Prelude.{
  ◌==◌, Bool-cases, and-eq-true, Text, ℕ, ◌≡◌, refl, sym, ap, subst, ◌∙◌, ◌⊎◌, inl, inr, true,
  false, ◌&&◌, List, [], ◌∷◌, ◌++◌,
}
use adrouter_agent.Ndjson.{starts_line_feed, prepend, split_lines, pop_line}

pub split_feed : (c : ℕ) (s : Text) → c == 10 ≡ true → split_lines (c ∷ s) ≡ [] ∷ split_lines s
unfolding split_lines
split_feed c s h = rw h refl

pub split_return :
    (c : ℕ) (s : Text)
    → c == 10 ≡ false
    → c == 13 && starts_line_feed s ≡ true
    → split_lines (c ∷ s) ≡ split_lines s
unfolding split_lines
split_return c s h k = rw (h, k) refl

pub split_inside :
    (c : ℕ) (s : Text)
    → c == 10 ≡ false
    → c == 13 && starts_line_feed s ≡ false
    → split_lines (c ∷ s) ≡ prepend c (split_lines s)
unfolding split_lines
split_inside c s h k = rw (h, k) refl

pub split_lines-cons : (s : Text) → (x : Text) × (lines : List Text) × (split_lines s ≡ x ∷ lines)
unfolding split_lines
split_lines-cons [] = ([], [], refl)
split_lines-cons (c ∷ s) =
    let (x, lines, e) = split_lines-cons s in
    elim (Bool-cases (c == 10)) [
      | inl feed ↦ ([], split_lines s, split_feed c s feed)
      | inr plain ↦ elim (Bool-cases (c == 13 && starts_line_feed s)) [
        | inl break ↦ (x, lines, split_return c s plain break ∙ e)
        | inr inside ↦ (c ∷ x, lines, split_inside c s plain inside ∙ ap (prepend c) e)
      ]
    ]

split_lines_feed :
    (s : Text)
    → starts_line_feed s ≡ true
    → (x : Text) × (lines : List Text) × (split_lines s ≡ [] ∷ x ∷ lines)
split_lines_feed [] h = cc
split_lines_feed (c ∷ s) h =
    let (x, lines, e) = split_lines-cons s in
    (x, lines, split_feed c s h ∙ ap (λ rest. [] ∷ rest) e)

-- A text has no line break, or a first line with others behind it.
split_lines-cases :
    (s : Text)
    → (split_lines s ≡ s ∷ [])
      ⊎ ((x : Text) × (y : Text) × (lines : List Text) × (split_lines s ≡ x ∷ y ∷ lines))
unfolding split_lines
split_lines-cases [] = inl refl
split_lines-cases (c ∷ s) = elim (Bool-cases (c == 10)) [
  | inl feed ↦
      let (x, lines, e) = split_lines-cons s in
      inr ([], x, lines, split_feed c s feed ∙ ap (λ rest. [] ∷ rest) e)
  | inr plain ↦ elim (Bool-cases (c == 13 && starts_line_feed s)) [
    | inl break ↦
        let (x, lines, e) =
          split_lines_feed s (and-eq-true (c == 13) (starts_line_feed s) break).1 in
        inr ([], x, lines, split_return c s plain break ∙ e)
    | inr inside ↦ elim (split_lines-cases s) [
      | inl e ↦ inl (split_inside c s plain inside ∙ ap (prepend c) e)
      | inr (x, y, lines, e) ↦
          inr (c ∷ x, y, lines, split_inside c s plain inside ∙ ap (prepend c) e)
    ]
  ]
]

starts_line_feed-append :
    (s t : Text) → starts_line_feed s ≡ true → starts_line_feed (s ++ t) ≡ true
starts_line_feed-append [] t h = cc
starts_line_feed-append (d ∷ s) t h = h

starts_line_feed_same :
    (s t x y : Text) (lines : List Text)
    → split_lines s ≡ x ∷ y ∷ lines
    → starts_line_feed (s ++ t) ≡ starts_line_feed s
unfolding split_lines
starts_line_feed_same [] t x y lines h = cc
starts_line_feed_same (d ∷ s) t x y lines h = refl

pop_line-cons :
    (line x : Text) (rest lines : List Text)
    → rest ≡ x ∷ lines
    → pop_line (line ∷ rest) ≡ (line ∷ (pop_line rest).0, (pop_line rest).1)
unfolding pop_line
pop_line-cons line x rest lines e = rw e refl

split_lines-nil : split_lines [] ≡ [] ∷ []
unfolding split_lines
split_lines-nil = refl

-- The lines of a text behind another: those of the first up to its last line break, and those of
-- what is left with the second.
split_lines-append :
    (s t : Text)
    → split_lines (s ++ t)
      ≡ (pop_line (split_lines s)).0 ++ split_lines ((pop_line (split_lines s)).1 ++ t)
unfolding pop_line
split_lines-append [] t = rw split_lines-nil refl
split_lines-append (c ∷ s) t =
    let rest = split_lines-append s t in
    elim (Bool-cases (c == 10)) [
      | inl feed ↦
          let (x, lines, e) = split_lines-cons s in
          rw (split_feed c (s ++ t) feed, split_feed c s feed)
            (rw (pop_line-cons [] x (split_lines s) lines e) (ap (λ ls. [] ∷ ls) rest))
      | inr plain ↦ elim (Bool-cases (c == 13 && starts_line_feed s)) [
        | inl break ↦
            let (return, feed) = and-eq-true (c == 13) (starts_line_feed s) break in
            let again = starts_line_feed-append s t feed in
            rw
              (
                split_return c s plain break,
                split_return c (s ++ t) plain (rw (return, again) refl),
              )
              rest
        | inr inside ↦ elim (split_lines-cases s) [
          | inl e ↦ rw (split_inside c s plain inside, e) refl
          | inr (x, y, lines, e) ↦
              let same = starts_line_feed_same s t x y lines e in
              let more =
                subst
                  (λ ls.
                    split_lines (s ++ t) ≡ (pop_line ls).0 ++ split_lines ((pop_line ls).1 ++ t))
                  e rest in
              rw (split_inside c (s ++ t) plain (rw same inside), split_inside c s plain inside, e)
                (ap (prepend c) more)
        ]
      ]
    ]

-- The last part of more lines.
pub pop_line-append :
    (xs : List Text) (y : Text) (ys : List Text)
    → pop_line (xs ++ y ∷ ys) ≡ (xs ++ (pop_line (y ∷ ys)).0, (pop_line (y ∷ ys)).1)
unfolding pop_line
pop_line-append [] y ys = refl
pop_line-append (x ∷ []) y ys = refl
pop_line-append (x ∷ z ∷ xs) y ys = rw (pop_line-append (z ∷ xs) y ys) refl

-- The lines that are complete in a text behind another, and what is left.
pub pop_line-split_lines :
    (s t : Text)
    → pop_line (split_lines (s ++ t)) ≡ (
      (pop_line (split_lines s)).0
          ++ (pop_line (split_lines ((pop_line (split_lines s)).1 ++ t))).0,
      (pop_line (split_lines ((pop_line (split_lines s)).1 ++ t))).1,
    )
pop_line-split_lines s t =
    let rest = (pop_line (split_lines s)).1 ++ t in
    let (y, ys, e) = split_lines-cons rest in
    let popped = pop_line-append (pop_line (split_lines s)).0 y ys in
    rw (split_lines-append s t) (
      subst
        (λ ls.
          pop_line ((pop_line (split_lines s)).0 ++ ls)
          ≡ ((pop_line (split_lines s)).0 ++ (pop_line ls).0, (pop_line ls).1))
        (sym e) popped)
