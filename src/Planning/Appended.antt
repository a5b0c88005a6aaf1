-- ===== src/Planning/Appended.antt =====
-- What AppendResolvedQuestion of backend/domain/resolveq.go adds to a PRD.
use saki_cli.Base.{
  ℕ, ◌≡◌, refl, sym, ap, subst, ◌∙◌, ◌⊎◌, inl, inr, Bool, true, false, Option, none, some, List, [],
  ◌∷◌, ◌++◌, append_assoc, append-nil, arith, Bool-cases, Option-cases, Text, codes, is_empty,
  has_prefix, contains, trim, join_at, lines_of,
}
use saki_cli.Planning.Questions.{is_open_q_marker}
use saki_cli.Planning.Resolve.{
  open_q_marker, collapse_from, split_section, split_next, insert_behind_marker, add_line,
  split_blank, inserted, insert_bullet, new_section, appended_in, resolved_bullet, append_bullet,
  append_resolved_question,
}

has_prefix-append : (p s : Text) → has_prefix p (p ++ s) ≡ true
unfolding has_prefix
has_prefix-append [] s = refl
has_prefix-append (c ∷ p) s = ground (arith, has_prefix-append p s)

contains-prefix : (p s : Text) → has_prefix p s ≡ true → contains p s ≡ true
unfolding contains
contains-prefix p [] h = h
contains-prefix p (c ∷ s) h = rw h refl

contains-behind : (p t s : Text) → contains p s ≡ true → contains p (t ++ s) ≡ true
unfolding contains
contains-behind p [] s h = h
contains-behind p (c ∷ t) s h = ground (arith, contains-behind p t s h)

contains-here : (p s : Text) → contains p (p ++ s) ≡ true
contains-here p s = contains-prefix p (p ++ s) (has_prefix-append p s)

abbrev HasLine : Text → List Text → Type 0
HasLine p [] = ⊥
HasLine p (l ∷ ls) = (l ≡ p) ⊎ HasLine p ls

contains-join_at :
    (sep : ℕ) (p : Text) (ls : List Text) → HasLine p ls → contains p (join_at sep ls) ≡ true
unfolding join_at
contains-join_at sep p [] h = elim h [ ]
contains-join_at sep p (l ∷ []) (inr h) = elim h [ ]
contains-join_at sep p (l ∷ []) (inl e) =
    rw e (subst (λ t. contains p t ≡ true) (append-nil p) (contains-here p []))
contains-join_at sep p (l ∷ k ∷ ks) (inl e) = rw e (contains-here p (sep ∷ join_at sep (k ∷ ks)))
contains-join_at sep p (l ∷ k ∷ ks) (inr h) =
    contains-behind p l (sep ∷ join_at sep (k ∷ ks))
      (contains-behind p (sep ∷ []) (join_at sep (k ∷ ks)) (contains-join_at sep p (k ∷ ks) h))

HasLine-behind : (p : Text) (ks ls : List Text) → HasLine p ls → HasLine p (ks ++ ls)
HasLine-behind p [] ls h = h
HasLine-behind p (k ∷ ks) ls h = inr (HasLine-behind p ks ls h)

HasLine-before : (p : Text) (ks ls : List Text) → HasLine p ks → HasLine p (ks ++ ls)
HasLine-before p [] ls h = elim h [ ]
HasLine-before p (k ∷ ks) ls (inl e) = inl e
HasLine-before p (k ∷ ks) ls (inr h) = inr (HasLine-before p ks ls h)

-- Lines with others put in at one place.
abbrev pub Inserts : Text → List Text → List Text → Type 0
Inserts bullet old new =
    (a : List Text) × (b : List Text) × (more : List Text) × (old ≡ a ++ b)
    × (new ≡ a ++ (more ++ b))
    × HasLine bullet more

insert_behind_marker-Inserts :
    (bullet : Text) (ls out : List Text)
    → insert_behind_marker bullet ls ≡ some out
    → Inserts bullet ls out
unfolding insert_behind_marker
insert_behind_marker-Inserts bullet [] out h = cc
insert_behind_marker-Inserts bullet (l ∷ ls) out h = elim (Bool-cases (is_open_q_marker l)) [
  | inl e ↦
      let found : l ∷ bullet ∷ ls ≡ out = ground (arith, e, h) in
      (l ∷ [], ls, bullet ∷ [], refl, sym found, inl refl)
  | inr e ↦ elim (Option-cases (insert_behind_marker bullet ls)) [
    | inl n ↦ ground (arith, e, n, h)
    | inr (rest, n) ↦
        let (a, b, more, old, new, has) = insert_behind_marker-Inserts bullet ls rest n in
        let found : l ∷ rest ≡ out = ground (arith, e, n, h) in
        (l ∷ a, b, more, ap (λ t. l ∷ t) old, sym found ∙ ap (λ t. l ∷ t) new, has)
  ]
]

add_line-append :
    (l : Text) (blank : Bool) (p : List Text × List Text)
    → (add_line l blank p).0 ++ (add_line l blank p).1 ≡ l ∷ (p.0 ++ p.1)
add_line-append l true ([], post) = refl
add_line-append l false ([], post) = refl
add_line-append l blank (k ∷ ks, post) = refl

split_blank-append : (ls : List Text) → (split_blank ls).0 ++ (split_blank ls).1 ≡ ls
unfolding split_blank
split_blank-append [] = refl
split_blank-append (l ∷ ls) =
    add_line-append l (is_empty (trim l)) (split_blank ls) ∙ ap (λ t. l ∷ t) (split_blank-append ls)

inserted-Inserts :
    (bullet : Text) (body : List Text) (o : Option (List Text))
    → insert_behind_marker bullet body ≡ o
    → Inserts bullet body (inserted bullet body o)
inserted-Inserts bullet body (some out) h = insert_behind_marker-Inserts bullet body out h
inserted-Inserts bullet body none h = (
  (split_blank body).0,
  (split_blank body).1,
  [] ∷ open_q_marker ∷ bullet ∷ [],
  sym (split_blank-append body),
  refl,
  inr (inr (inl refl)),
)

split_next-append : (ls : List Text) → (split_next ls).0 ++ (split_next ls).1 ≡ ls
unfolding split_next
split_next-append [] = refl
split_next-append (l ∷ ls) = ground (arith, split_next-append ls)

split_section-append :
    (ls pre post : List Text) → split_section ls ≡ some (pre, post) → pre ++ post ≡ ls
unfolding split_section
split_section-append [] pre post h = cc
split_section-append (l ∷ ls) pre post h = elim (Option-cases (split_section ls)) [
  | inl n ↦ ground (arith, n, h)
  | inr ((a, b), n) ↦ ground (arith, n, h, split_section-append ls a b n)
]

-- What an append may be: the text as it was, which holds the bullet; the text with more behind it;
-- or its lines with others put in at one place.
abbrev pub Appends : Text → Text → Text → Type 0
Appends bullet md out =
    (out ≡ md)
    ⊎ ((more : Text) × (out ≡ md ++ more))
    ⊎ ((new : List Text) × (out ≡ join_at 10 new) × Inserts bullet (lines_of md) new)

-- The lines around a part into which others are put.
Inserts-around :
    (bullet : Text) (pre body new post all : List Text)
    → pre ++ (body ++ post) ≡ all
    → Inserts bullet body new
    → Inserts bullet all (pre ++ (new ++ post))
Inserts-around bullet pre body new post all e (a, b, more, old, n, has) = (
  pre ++ a,
  b ++ post,
  more,
  sym e
      ∙ ap (λ t. pre ++ (t ++ post)) old
      ∙ ap (λ t. pre ++ t) (append_assoc a b post)
      ∙ sym (append_assoc pre a (b ++ post)),
  ap (λ t. pre ++ (t ++ post)) n
      ∙ ap (λ t. pre ++ t)
          (append_assoc a (more ++ b) post ∙ ap (λ t. a ++ t) (append_assoc more b post))
      ∙ sym (append_assoc pre a (more ++ (b ++ post))),
  has,
)

Inserts-HasLine :
    (bullet : Text) (old new : List Text) → Inserts bullet old new → HasLine bullet new
Inserts-HasLine bullet old new (a, b, more, o, n, has) =
    subst (HasLine bullet) (sym n)
      (HasLine-behind bullet a (more ++ b) (HasLine-before bullet more b has))

-- The bullet is in the text.
abbrev pub Recorded : Text → Text → Text → Type 0
Recorded bullet md out = Appends bullet md out × (contains bullet out ≡ true)

new_section-contains : (md bullet : Text) → contains bullet (new_section md bullet) ≡ true
new_section-contains md bullet = contains-behind bullet md _ (
    contains-behind bullet _ _ (
      contains-behind bullet (codes "\n## Rabbit Holes & Open Questions\n\n") _ (
        contains-behind bullet open_q_marker _
          (contains-behind bullet (codes "\n") _ (contains-here bullet (codes "\n"))))))

appended_in-Recorded :
    (md bullet : Text) (o : Option (List Text × List Text))
    → split_section (lines_of md) ≡ o
    → Recorded bullet md (appended_in md bullet o)
appended_in-Recorded md bullet none h = (inr (inl (_, refl)), new_section-contains md bullet)
appended_in-Recorded md bullet (some (pre, post)) h =
    let body = (split_next post).0 in
    let others = (split_next post).1 in
    let new = pre ++ (insert_bullet bullet body ++ others) in
    let put_in : Inserts bullet (lines_of md) new =
      Inserts-around bullet pre body (insert_bullet bullet body) others (lines_of md)
        (ap (λ t. pre ++ t) (split_next-append post)
          ∙ split_section-append (lines_of md) pre post h)
        (unfold insert_bullet in
          inserted-Inserts bullet body (insert_behind_marker bullet body) refl) in
    (
      inr (inr (new, refl, put_in)),
      contains-join_at 10 bullet new (Inserts-HasLine bullet (lines_of md) new put_in),
    )

append_bullet-Recorded : (md bullet : Text) → Recorded bullet md (append_bullet md bullet)
unfolding append_bullet
append_bullet-Recorded md bullet = elim (Bool-cases (contains bullet md)) [
  | inl e ↦ rw e (inl refl, e)
  | inr e ↦ rw e (appended_in-Recorded md bullet (split_section (lines_of md)) refl)
]

-- A decision on a question, both not blank, is recorded once: the bullet is in the text, nothing of
-- the old text is taken out, and recording it again changes nothing.
pub append_resolved_question_once :
    (md question decision : Text)
    → is_empty (trim (collapse_from false question)) ≡ false
    → is_empty (trim decision) ≡ false
    → let out = append_resolved_question md question decision in
      Recorded (resolved_bullet (trim (collapse_from false question)) (trim decision)) md out
      × (append_resolved_question out question decision ≡ out)
unfolding append_resolved_question
append_resolved_question_once md question decision q a =
    let bullet = resolved_bullet (trim (collapse_from false question)) (trim decision) in
    let (appends, there) = append_bullet-Recorded md bullet in
    rw (q, a) ((appends, there), append_again (append_bullet md bullet) bullet there)
  where
    append_again : (t b : Text) → contains b t ≡ true → append_bullet t b ≡ t
    append_again t b h = unfold append_bullet in rw h refl
