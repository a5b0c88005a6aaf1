-- ===== src/Stream/Chunks.antt =====
-- NdjsonParser of backend/usecase/ndjson.go on output that arrives in chunks.
use saki_cli.Base.{
  ℕ, zero, suc, ◌≤◌, ◌<◌, ◌≡◌, refl, sym, ap, ◌∙◌, inl, inr, Option, none, some, List, [], ◌∷◌,
  ◌++◌, append_assoc, arith, Option-cases, Text, length, length-append,
}
use saki_cli.Json.{Json}
use saki_cli.Stream.Ndjson.{trim_cr, cut_line, keep_line, push_loop, push, NdjsonParser, ParsedLine}

pub cut_line-shorter : (s : Text) {l r : Text} → cut_line s ≡ some (l, r) → length r < length s
unfolding cut_line
cut_line-shorter [] h = cc
cut_line-shorter (c ∷ s) h = elim (Option-cases (cut_line s)) [
  | inl e ↦ ground (arith, e)
  | inr ((l', r'), e) ↦ ground (arith, e, cut_line-shorter s e)
]

pub cut_line-nil : cut_line [] ≡ none
unfolding cut_line
cut_line-nil = refl

cut_line-append :
    (s t : Text) {l r : Text} → cut_line s ≡ some (l, r) → cut_line (s ++ t) ≡ some (l, r ++ t)
unfolding cut_line
cut_line-append [] t h = cc
cut_line-append (c ∷ s) t h = elim (Option-cases (cut_line s)) [
  | inl e ↦ ground (arith, e)
  | inr ((l', r'), e) ↦ ground (arith, e, cut_line-append s t e)
]

module _ (decode : Text → Option Json) where
  -- The lines of a rest, put behind those before.
  abbrev pub merge : List ParsedLine × Text → List ParsedLine × Text → List ParsedLine × Text
  merge (out, left) (out', left') = (out ++ out', left')

  pub loop_none : (f : ℕ) (buf : Text) → cut_line buf ≡ none → push_loop decode f buf ≡ ([], buf)
  unfolding push_loop
  loop_none zero buf e = refl
  loop_none (suc f) buf e = rw (e, push_loop)

  pub loop_some :
      (f : ℕ) (buf : Text) {l r : Text}
      → cut_line buf ≡ some (l, r)
      → push_loop decode (suc f) buf
        ≡ (keep_line decode (trim_cr l) ++ (push_loop decode f r).0, (push_loop decode f r).1)
  unfolding push_loop
  loop_some f buf e = rw (e, push_loop)

  -- Any fuel that is enough gives the same lines.
  loop_fuel :
      (f g : ℕ) (buf : Text)
      → length buf ≤ f
      → length buf ≤ g
      → push_loop decode f buf ≡ push_loop decode g buf
  loop_fuel zero zero buf a b = refl
  loop_fuel zero (suc g) [] a b =
      loop_none zero [] cut_line-nil ∙ sym (loop_none (suc g) [] cut_line-nil)
  loop_fuel zero (suc g) (c ∷ s) a b = absurd (omega arith)
  loop_fuel (suc f) zero [] a b =
      loop_none (suc f) [] cut_line-nil ∙ sym (loop_none zero [] cut_line-nil)
  loop_fuel (suc f) zero (c ∷ s) a b = absurd (omega arith)
  loop_fuel (suc f) (suc g) buf a b = elim (Option-cases (cut_line buf)) [
    | inl e ↦ loop_none (suc f) buf e ∙ sym (loop_none (suc g) buf e)
    | inr ((l, r), e) ↦
        let lt = cut_line-shorter buf e in
        rw (loop_some f buf e, loop_some g buf e) (rw (loop_fuel f g r (omega arith) (omega arith)))
  ]

  loop_left : (f : ℕ) (s : Text) → length s ≤ f → length (push_loop decode f s).1 ≤ length s
  loop_left zero s a = rw (ap (λ p. length p.1) (loop_zero s)) (omega arith)
    where
      loop_zero : (s : Text) → push_loop decode 0 s ≡ ([], s)
      loop_zero s = unfold push_loop in refl
  loop_left (suc f) s a = elim (Option-cases (cut_line s)) [
    | inl e ↦ rw (loop_none (suc f) s e) (omega arith)
    | inr ((l, r), e) ↦
        let lt = cut_line-shorter s e in
        rw (loop_some f s e) (omega (arith, loop_left f r (omega arith)))
  ]

  loop_append :
      (f g : ℕ) (s t : Text)
      → length s ≤ f
      → length (s ++ t) ≤ g
      → push_loop decode g (s ++ t)
        ≡ merge (push_loop decode f s) (push_loop decode g ((push_loop decode f s).1 ++ t))
  loop_append zero g [] t a b = rw (loop_none zero [] cut_line-nil)
  loop_append zero g (c ∷ s) t a b = absurd (omega arith)
  loop_append (suc f) zero [] t a b = rw (loop_none (suc f) [] cut_line-nil)
  loop_append (suc f) zero (c ∷ s) t a b = absurd (omega arith)
  loop_append (suc f) (suc g) s t a b = elim (Option-cases (cut_line s)) [
    | inl e ↦ rw (loop_none (suc f) s e)
    | inr ((l, r), e) ↦
        let lt = cut_line-shorter s e in
        let left = (push_loop decode f r).1 in
        let sizes : (length r ≤ f) × (length (r ++ t) ≤ g) × (length (left ++ t) ≤ g) =
          fits s r t left f g lt (loop_left f r (omega arith)) a b in
        rw (loop_some f s e, loop_some g (s ++ t) (cut_line-append s t e))
          (rw (
            loop_append f g r t (sizes.0) (sizes.1),
            loop_fuel (suc g) g (left ++ t) (omega (arith, sizes.2)) (sizes.2),
            append_assoc,
          ))
  ]
    where
      fits :
          (s r t left : Text) (f g : ℕ)
          → length r < length s
          → length left ≤ length r
          → length s ≤ suc f
          → length (s ++ t) ≤ suc g
          → (length r ≤ f) × (length (r ++ t) ≤ g) × (length (left ++ t) ≤ g)
      fits s r t left f g lt le a b = (
        omega arith,
        omega (arith, length-append s t, length-append r t),
        omega (arith, length-append s t, length-append left t),
      )

  loop_whole :
      (a t : Text)
      → push_loop decode (length (a ++ t)) (a ++ t)
        ≡ merge (push_loop decode (length a) a) (
            push_loop decode
              (length ((push_loop decode (length a) a).1 ++ t))
              ((push_loop decode (length a) a).1 ++ t))
  loop_whole a t =
      let left = (push_loop decode (length a) a).1 in
      let shorter = loop_left (length a) a (omega arith) in
      loop_append (length a) (length (a ++ t)) a t (omega arith) (omega arith)
      ∙ ap (merge (push_loop decode (length a) a)) (
          loop_fuel (length (a ++ t)) (length (left ++ t)) (left ++ t)
            (omega (arith, shorter, length-append a t, length-append left t)) (omega arith))

-- Whatever chunks a run's output arrives in, the lines are the same: a chunk that is pushed in two
-- parts gives the lines, and leaves the buffer, that it gives as a whole.
pub push-append :
    (decode : Text → Option Json) (p : NdjsonParser) (s t : Text)
    → push decode p (s ++ t) ≡ (
      (push decode p s).0 ++ (push decode (push decode p s).1 t).0,
      (push decode (push decode p s).1 t).1,
    )
unfolding push
push-append decode p s t = ap as_parser (
    ap (λ (b : Text). push_loop decode (length b) b) (sym (append_assoc p.buf s t))
    ∙ loop_whole decode (p.buf ++ s) t)
  where
    as_parser : List ParsedLine × Text → List ParsedLine × NdjsonParser
    as_parser (out, left) = (out, record { buf = left })
