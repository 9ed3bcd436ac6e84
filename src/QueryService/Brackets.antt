-- ===== src/QueryService/Brackets.antt =====
-- The bracket check of `validate_syntax` against the grammar of balanced texts.
use mathlib.Core.List.{append_assoc, append-nil}
use mathlib.Core.Path.{subst}
use hass_ontology_fix.Common.{
  ℕ, ◌≡◌, ◌↔◌, refl, ap, sym, ◌∙◌, Bool, true, false, ◌||◌, Option, none, some, List, [], ◌∷◌, ◌++◌,
  ◌==◌, if◌then◌else◌, arith, Bool-cases, Option-cases, inl, inr,
}

-- Each closing bracket with its opening one; no other code is one.
abbrev pub opener_of : ℕ → Option ℕ
opener_of c =
    if c == 41 then some 40 else if c == 93 then some 91 else if c == 125 then some 123 else none

abbrev pub is_opener : ℕ → Bool
is_opener c = c == 40 || c == 91 || c == 123

-- A closing bracket that wants this opening one, against the stack.
abbrev pub close : ℕ → List ℕ → Option (List ℕ)
close o [] = none
close o (top ∷ stack) = if top == o then some stack else none

abbrev pub close_if : Option ℕ → List ℕ → Option (List ℕ)
close_if none stack = some stack
close_if (some o) stack = close o stack

unfoldable pub push_or_pop : ℕ → List ℕ → Option (List ℕ)
push_or_pop c stack = if is_opener c then some (c ∷ stack) else close_if (opener_of c) stack

-- The loop over the text; `none` is the exception.
unfoldable pub scan : Option (List ℕ) → List ℕ → Option (List ℕ)
unfolding push_or_pop
scan none text = none
scan (some stack) [] = some stack
scan (some stack) (c ∷ cs) = scan (push_or_pop c stack) cs

abbrev pub no_stack_left : Option (List ℕ) → Bool
no_stack_left (some []) = true
no_stack_left _ = false

unfoldable pub is_balanced : List ℕ → Bool
unfolding scan
is_balanced text = no_stack_left (scan (some []) text)

-- The texts whose brackets match, by the grammar.
pub data IsBalanced : List ℕ → Type 0 where
  empty : IsBalanced []
  plain :
      (c : ℕ) (w : List ℕ)
      → is_opener c ≡ false
      → opener_of c ≡ none
      → IsBalanced w
      → IsBalanced (c ∷ w)
  pair :
      (o c : ℕ) (u w : List ℕ)
      → is_opener o ≡ true
      → opener_of c ≡ some o
      → IsBalanced u
      → IsBalanced w
      → IsBalanced (o ∷ u ++ c ∷ w)

opener_of-is_opener : (c o : ℕ) → opener_of c ≡ some o → is_opener c ≡ false
opener_of-is_opener c o h = ground arith

push : (c : ℕ) (stack : List ℕ) → is_opener c ≡ true → push_or_pop c stack ≡ some (c ∷ stack)
unfolding push_or_pop
push c stack h = rw h refl

closer : (c o : ℕ) (stack : List ℕ) → opener_of c ≡ some o → push_or_pop c stack ≡ close o stack
unfolding push_or_pop
closer c o stack h = rw (opener_of-is_opener c o h, h) refl

pop : (c o : ℕ) (stack : List ℕ) → opener_of c ≡ some o → push_or_pop c (o ∷ stack) ≡ some stack
unfolding push_or_pop
pop c o stack h = ground (arith, h, opener_of-is_opener c o h)

keep :
    (c : ℕ) (stack : List ℕ)
    → is_opener c ≡ false
    → opener_of c ≡ none
    → push_or_pop c stack ≡ some stack
unfolding push_or_pop
keep c stack h k = rw (h, k) refl

scan-balanced :
    (u v stack : List ℕ) → IsBalanced u → scan (some stack) (u ++ v) ≡ scan (some stack) v
unfolding scan
scan-balanced _ v stack empty = refl
scan-balanced _ v stack (plain c w h k b) =
    ap (λ s. scan s (w ++ v)) (keep c stack h k) ∙ scan-balanced w v stack b
scan-balanced _ v stack (pair o c u w h k b d) =
    ap (λ s. scan s ((u ++ c ∷ w) ++ v)) (push o stack h)
    ∙ ap (scan (some (o ∷ stack))) (append_assoc u (c ∷ w) v)
    ∙ scan-balanced u (c ∷ w ++ v) (o ∷ stack) b
    ∙ ap (λ s. scan s (w ++ v)) (pop c o stack k)
    ∙ scan-balanced w v stack d

-- What the rest of a text must be for the stack to be emptied.
Empties : List ℕ → List ℕ → Type 0
Empties [] text = IsBalanced text
Empties (o ∷ stack) text =
    (u : List ℕ) × (c : ℕ) × (w : List ℕ) × (text ≡ u ++ c ∷ w)
    × IsBalanced u
    × (opener_of c ≡ some o)
    × Empties stack w

Empties-plain :
    (c : ℕ) (stack w : List ℕ)
    → is_opener c ≡ false
    → opener_of c ≡ none
    → Empties stack w
    → Empties stack (c ∷ w)
unfolding Empties
Empties-plain c [] w h k b = plain c w h k b
Empties-plain c (o ∷ stack) w h k (u, d, v, same, b, m, e) =
    (c ∷ u, d, v, ap (λ t. c ∷ t) same, plain c u h k b, m, e)

Empties-pair :
    (o c : ℕ) (stack u w : List ℕ)
    → is_opener o ≡ true
    → opener_of c ≡ some o
    → IsBalanced u
    → Empties stack w
    → Empties stack (o ∷ u ++ c ∷ w)
unfolding Empties
Empties-pair o c [] u w h k b d = pair o c u w h k b d
Empties-pair o c (o' ∷ stack) u w h k b (u', d, v, same, b', m, e) = (
  o ∷ u ++ c ∷ u',
  d,
  v,
  ap (λ t. o ∷ u ++ c ∷ t) same ∙ sym (ap (λ t. o ∷ t) (append_assoc u (c ∷ u') (d ∷ v))),
  pair o c u u' h k b b',
  m,
  e,
)

-- A closing bracket that does not end the scan is the one that the stack wants.
Empties-close :
    (c o : ℕ) (stack cs : List ℕ)
    → opener_of c ≡ some o
    → ((st : List ℕ) → no_stack_left (scan (some st) cs) ≡ true → Empties st cs)
    → no_stack_left (scan (push_or_pop c stack) cs) ≡ true
    → Empties stack (c ∷ cs)
unfolding scan Empties
Empties-close c o stack cs k rest h =
    at_top stack (sym (ap (λ s. no_stack_left (scan s cs)) (closer c o stack k)) ∙ h)
  where
    at_top : (st : List ℕ) → no_stack_left (scan (close o st) cs) ≡ true → Empties st (c ∷ cs)
    at_top [] h' = cc
    at_top (top ∷ st) h' =
        let left = λ (b : Bool). no_stack_left (scan (if b then some st else none) cs) in
        elim (Bool-cases (top == o)) [
          | inl same ↦
              let here : top ≡ o = ground arith in
              ([], c, cs, refl, empty, k ∙ ap some (sym here), rest st (sym (ap left same) ∙ h'))
          | inr other ↦ absurd (ground (arith, sym (ap left other) ∙ h'))
        ]

Empties-of-scan :
    (text stack : List ℕ) → no_stack_left (scan (some stack) text) ≡ true → Empties stack text
unfolding scan Empties
Empties-of-scan [] [] h = empty
Empties-of-scan [] (o ∷ stack) h = cc
Empties-of-scan (c ∷ cs) stack h = elim (Bool-cases (is_opener c)) [
  | inl opens ↦
      let (u, d, w, same, b, m, e) =
        Empties-of-scan cs (c ∷ stack)
          (sym (ap (λ s. no_stack_left (scan s cs)) (push c stack opens)) ∙ h) in
      subst (λ t. Empties stack (c ∷ t)) (sym same) (Empties-pair c d stack u w opens m b e)
  | inr not_opener ↦ elim (Option-cases (opener_of c)) [
    | inl other ↦ Empties-plain c stack cs not_opener other (
        Empties-of-scan cs stack
          (sym (ap (λ s. no_stack_left (scan s cs)) (keep c stack not_opener other)) ∙ h))
    | inr (o, closes) ↦ Empties-close c o stack cs closes (Empties-of-scan cs) h
  ]
]

-- The check accepts exactly the texts whose brackets match by the grammar: other codes anywhere, and
-- each opening bracket closed by its own closing one after a text that matches.
pub is_balanced_exact : (text : List ℕ) → (is_balanced text ≡ true) ↔ IsBalanced text
unfolding is_balanced Empties scan
is_balanced_exact text = (
  Empties-of-scan text [],
  λ b. ap no_stack_left (ap (scan (some [])) (sym (append-nil text)) ∙ scan-balanced text [] [] b),
)
