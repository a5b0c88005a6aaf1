-- ===== src/Stream/Refines.antt =====
-- The events of backend/usecase/stream.go against the whole output at once.
use saki_cli.Base.{
  ℕ, zero, suc, ◌+◌, ◌≤◌, ◌≡◌, refl, sym, ap, subst, ◌∙◌, inl, inr, Bool, true, false, Option, none,
  some, List, [], ◌∷◌, ◌++◌, append_assoc, append-nil, arith, if◌then◌else◌, Option-cases, is_some,
  Text, length, length-append, drop,
}
use saki_cli.Json.{Json}
use saki_cli.Stream.Ndjson.{cut_line, push_loop, push, flush, NdjsonParser, ParsedLine}
use saki_cli.Stream.Feed.{
  read_from, is_over, ended_as, numbered, emitted, drained, drain, finish, behind_events, round,
  stream_from, stream, Tick, StreamEvent, Session, Ended, File, missing, unreadable, content,
}
use saki_cli.Stream.Chunks.{cut_line-shorter, cut_line-nil, loop_none, loop_some, push-append}

-- The output that is known after a read.
abbrev pub now : Text → File → Text
now seen missing = seen
now seen unreadable = seen
now seen (content t) = t

-- A file that can be read begins with what was known.
abbrev pub Extends : Text → File → Type 0
Extends seen missing = Unit
Extends seen unreadable = Unit
Extends seen (content t) = (rest : Text) × (t ≡ seen ++ rest)

-- The output file is only appended to while the polls follow it.
abbrev pub IsAppended : Text → List Tick → Type 0
IsAppended seen [] = Unit
IsAppended seen (t ∷ ts) =
    Extends seen t.first × Extends (now seen t.first) t.second × IsAppended (now seen t.first) ts

-- The whole output at the last read.
unfoldable pub whole_output : Text → List Tick → Text
whole_output seen [] = seen
whole_output seen (t ∷ ts) =
    let rest = whole_output (now seen t.first) ts in
    if is_over t.run then now (now seen t.first) t.second else rest

-- What a read finds behind what is known.
abbrev news : Text → File → Text
news seen missing = []
news seen unreadable = []
news seen (content t) = drop (length seen) t

unfoldable output_from : Text → List Tick → Text
output_from seen [] = []
output_from seen (t ∷ ts) =
    let rest = output_from (now seen t.first) ts in
    news seen t.first ++ (if is_over t.run then news (now seen t.first) t.second else rest)

drop-append : (s t : Text) → drop (length s) (s ++ t) ≡ t
drop-append [] t = refl
drop-append (c ∷ s) t = drop-append s t

length-drop : (n : ℕ) (t : Text) → n ≤ length t → n + length (drop n t) ≡ length t
length-drop zero t le = omega arith
length-drop (suc n) [] le = absurd (omega arith)
length-drop (suc n) (c ∷ t) le = omega (arith, length-drop n t (omega arith))

seen_news : (seen : Text) (f : File) → Extends seen f → seen ++ news seen f ≡ now seen f
seen_news seen missing e = append-nil seen
seen_news seen unreadable e = append-nil seen
seen_news seen (content t) (rest, e) =
    ap (λ u. seen ++ drop (length seen) u) e ∙ ap (λ u. seen ++ u) (drop-append seen rest) ∙ sym e

output_from_lem :
    (seen : Text) (ts : List Tick)
    → IsAppended seen ts
    → seen ++ output_from seen ts ≡ whole_output seen ts
unfolding output_from whole_output
output_from_lem seen [] a = append-nil seen
output_from_lem seen (t ∷ ts) (first, second, later) =
    sym (append_assoc seen (news seen t.first) _)
    ∙ ap
        (λ u.
          u
          ++ (if is_over t.run
              then news (now seen t.first) t.second
              else output_from (now seen t.first) ts))
        (seen_news seen t.first first)
    ∙ by_state (is_over t.run) (output_from_lem (now seen t.first) ts later)
  where
    by_state :
        (b : Bool)
        → now seen t.first ++ output_from (now seen t.first) ts ≡ whole_output (now seen t.first) ts
        → now seen t.first
            ++ (if b then news (now seen t.first) t.second else output_from (now seen t.first) ts)
          ≡ (if b then now (now seen t.first) t.second else whole_output (now seen t.first) ts)
    by_state true ih = seen_news (now seen t.first) t.second second
    by_state false ih = ih

module _ (decode : Text → Option Json) where
  -- No whole line is left in the buffer.
  abbrev IsDrained : NdjsonParser → Type 0
  IsDrained p = cut_line p.buf ≡ none

  loop_left-none : (f : ℕ) (s : Text) → length s ≤ f → cut_line (push_loop decode f s).1 ≡ none
  loop_left-none zero [] a = rw (loop_none decode zero [] cut_line-nil) cut_line-nil
  loop_left-none zero (c ∷ s) a = absurd (omega arith)
  loop_left-none (suc f) s a = elim (Option-cases (cut_line s)) [
    | inl e ↦ rw (loop_none decode (suc f) s e) e
    | inr ((l, r), e) ↦
        let lt = cut_line-shorter s e in
        rw (loop_some decode f s e) (loop_left-none f r (omega arith))
  ]

  push-IsDrained : (p : NdjsonParser) (t : Text) → IsDrained (push decode p t).1
  unfolding push
  push-IsDrained p t = loop_left-none (length (p.buf ++ t)) (p.buf ++ t) (omega arith)

  push-nil : (p : NdjsonParser) → IsDrained p → push decode p [] ≡ ([], p)
  unfolding push
  push-nil p d = rw (append-nil p.buf, loop_none decode (length p.buf) p.buf d)

  -- What the lines are after a text, and with the flush where the run has ended.
  abbrev pub lines_after : NdjsonParser → Text → Bool → List ParsedLine
  lines_after p t ended =
      if ended
      then (push decode p t).0 ++ (flush decode (push decode p t).1).0
      else (push decode p t).0

  lines_after-append :
      (p : NdjsonParser) (s t : Text) (ended : Bool)
      → lines_after p (s ++ t) ended
        ≡ (push decode p s).0 ++ lines_after (push decode p s).1 t ended
  lines_after-append p s t true = rw (push-append decode p s t) (
      append_assoc (push decode p s).0 (push decode (push decode p s).1 t).0
        (flush decode (push decode (push decode p s).1 t).1).0)
  lines_after-append p s t false = rw (push-append decode p s t) refl

  module _ (clock : ℕ → ℕ) where
    numbered-append :
        (n : ℕ) (xs ys : List ParsedLine)
        → numbered decode clock n (xs ++ ys)
          ≡ numbered decode clock n xs ++ numbered decode clock (n + length xs) ys
    unfolding numbered
    numbered-append n [] ys = ap (λ k. numbered decode clock k ys) (omega arith)
    numbered-append n (x ∷ xs) ys =
        ap (λ es. record { seq = n; ts = clock n; line = x } ∷ es)
          (numbered-append (suc n) xs ys
            ∙ ap (λ k. numbered decode clock (suc n) xs ++ numbered decode clock k ys)
                (omega arith))

    -- The session after a read.
    abbrev read_to : Session → Text → Session
    read_to s known = record s { offset = length known }

    drained_news :
        (s : Session) (u : Text) (o : ℕ)
        → IsDrained s.parser
        → o ≡ s.offset + length u
        → drained decode clock s (some (u, s.offset + length u))
          ≡ emitted decode clock (record s { offset = o }) (push decode s.parser u)
    unfolding numbered
    drained_news s [] o d e = sym (
        ap (λ r. emitted decode clock (record s { offset = o }) r) (push-nil s.parser d)
        ∙ ap (λ k. ([], record { parser = s.parser; offset = o; seq = k })) (omega arith)
        ∙ ap (λ k. ([], record { parser = s.parser; offset = k; seq = s.seq })) (omega (arith, e)))
    drained_news s (c ∷ u) o d e =
        ap (λ k. emitted decode clock (record s { offset = k }) (push decode s.parser (c ∷ u)))
          (sym e)

    drained_nil :
        (s : Session) (o : ℕ)
        → IsDrained s.parser
        → o ≡ s.offset
        → ([], s) ≡ emitted decode clock (record s { offset = o }) (push decode s.parser [])
    drained_nil s o d e = drained_news s [] o d (omega (arith, e))

    -- A drain is a push of what the file has behind the offset.
    drain_lem :
        (s : Session) (seen : Text) (f : File)
        → IsDrained s.parser
        → s.offset ≡ length seen
        → Extends seen f
        → drain decode clock s f
          ≡ emitted decode clock (read_to s (now seen f)) (push decode s.parser (news seen f))
    unfolding drain read_from
    drain_lem s seen missing d at e = drained_nil s (length seen) d (sym at)
    drain_lem s seen unreadable d at e = drained_nil s (length seen) d (sym at)
    drain_lem s seen (content t) d at (rest, e) =
        let le : length seen ≤ length t = omega (arith, ap length e, length-append seen rest) in
        drained_news s (drop s.offset t) (length t) d
          (sym (length-drop s.offset t (omega (arith, at, le))))
        ∙ ap (λ k. emitted decode clock (read_to s t) (push decode s.parser (drop k t))) at

    finish_lem :
        (s : Session) (seen : Text) (f : File)
        → IsDrained s.parser
        → s.offset ≡ length seen
        → Extends seen f
        → finish decode clock s f
          ≡ numbered decode clock s.seq (lines_after s.parser (news seen f) true)
    unfolding finish
    finish_lem s seen f d at e = rw (drain_lem s seen f d at e) (
        sym (
          numbered-append s.seq (push decode s.parser (news seen f)).0
            (flush decode (push decode s.parser (news seen f)).1).0))

    abbrev Streamed : Session → Text → List StreamEvent × Option Ended → Type 0
    Streamed s out (es, e) = es ≡ numbered decode clock s.seq (lines_after s.parser out (is_some e))

    behind-Streamed :
        (s : Session) (d out : Text) (r : List StreamEvent × Option Ended)
        → Streamed (emitted decode clock s (push decode s.parser d)).1 out r
        → Streamed s
            (d ++ out)
            (behind_events decode clock (numbered decode clock s.seq (push decode s.parser d).0) r)
    behind-Streamed s d out (es, e) h =
        rw (h, lines_after-append s.parser d out (is_some e))
          (sym (
            numbered-append s.seq (push decode s.parser d).0
              (lines_after (push decode s.parser d).1 out (is_some e))))

    stream_from_lem :
        (s : Session) (seen : Text) (ts : List Tick)
        → IsDrained s.parser
        → s.offset ≡ length seen
        → IsAppended seen ts
        → Streamed s (output_from seen ts) (stream_from decode clock s ts)
    unfolding stream_from output_from numbered
    stream_from_lem s seen [] d at a =
        sym (ap (λ r. numbered decode clock s.seq r.0) (push-nil s.parser d))
    stream_from_lem s seen (t ∷ ts) d at (first, second, later) =
        rw (drain_lem s seen t.first d at first) (
          by_state (is_over t.run)
            (behind-Streamed s (news seen t.first) (news (now seen t.first) t.second)
              (finish decode clock next t.second, some (ended_as t.run))
              (finish_lem next (now seen t.first) t.second d' refl second))
            (behind-Streamed s (news seen t.first) (output_from (now seen t.first) ts)
              (stream_from decode clock next ts)
              (stream_from_lem next (now seen t.first) ts d' refl later)))
      where
        next : Session
        next =
            (emitted decode clock (read_to s (now seen t.first))
              (push decode s.parser (news seen t.first))).1

        d' : IsDrained next.parser
        d' = push-IsDrained s.parser (news seen t.first)

        by_state :
            (b : Bool)
            → Streamed s (news seen t.first ++ news (now seen t.first) t.second) (
                round decode clock true t
                  (emitted decode clock
                    (read_to s (now seen t.first))
                    (push decode s.parser (news seen t.first)))
                  (stream_from decode clock next ts))
            → Streamed s (news seen t.first ++ output_from (now seen t.first) ts) (
                round decode clock false t
                  (emitted decode clock
                    (read_to s (now seen t.first))
                    (push decode s.parser (news seen t.first)))
                  (stream_from decode clock next ts))
            → Streamed s
                (news seen t.first
                  ++ (if b
                      then news (now seen t.first) t.second
                      else output_from (now seen t.first) ts))
                (round decode clock b t
                  (emitted decode clock
                    (read_to s (now seen t.first))
                    (push decode s.parser (news seen t.first)))
                  (stream_from decode clock next ts))
        by_state true h g = h
        by_state false h g = g

-- Where the output file of a run is only appended to, however the polls cut it and whichever of its
-- reads fail: the events are the lines of the whole output at the last read, each once, with the rest
-- of the buffer where the run has ended, in order and numbered from 0; a client that leaves has the
-- lines up to then.
pub stream-numbered :
    (decode : Text → Option Json) (clock : ℕ → ℕ) (ts : List Tick)
    → IsAppended [] ts
    → (stream decode clock ts).0
      ≡ numbered decode clock 0 (
          lines_after decode
            (record { buf = [] })
            (whole_output [] ts)
            (is_some (stream decode clock ts).1))
unfolding stream
stream-numbered decode clock ts appended =
    let s : Session = record { parser = record { buf = [] }; offset = 0; seq = 0 } in
    subst (λ out. Streamed decode clock s out (stream_from decode clock s ts))
      (output_from_lem [] ts appended)
      (stream_from_lem decode clock s [] ts cut_line-nil refl appended)
