-- ===== src/Security/Ingest.antt =====
-- `parse` of internal/security/authlog.go on a log that grows.
use monitoring.Base.{
  ◌==◌, Bool-cases, Option-cases, length, drop, length-append, All, Text, Fits, tokens-all,
  stop_at-none, ℕ, zero, suc, ◌≤◌, ◌≡◌, refl, sym, ap, subst, ◌∙◌, inl, inr, Bool, true, some, List,
  [], ◌∷◌, ◌++◌, map, arith,
}
use monitoring.Storage.{SshEvent, ok, Env, World, insert_ssh_event}
use monitoring.Security.Recorded.{is_dated, IsDated, no_id, recorded, ingest-recorded}
use monitoring.Security.AuthLog.{
  Matchers, Parser, moment_of, date_or_now, parse_timestamp, event_of, match_line, after_match,
  parse_auth_log_line, push_byte, lines_of, drop_return, ingest_line, ingest, start_offset,
  parse_path, parse,
}

-- The text is empty, or its last byte is a newline.
unfoldable pub ends_line : Text → Bool
ends_line [] = true
ends_line (c ∷ []) = c == 10
ends_line (c ∷ d ∷ s) = ends_line (d ∷ s)

-- A text that is not empty has a first line.
first_line : (c : ℕ) (s : Text) → (l : Text) × (ls : List Text) × (lines_of (c ∷ s) ≡ l ∷ ls)
unfolding lines_of
first_line c s = elim (Bool-cases (c == 10)) [
  | inl e ↦ ([], lines_of s, rw e refl)
  | inr e ↦ push_first c (lines_of s) (rw e refl)
]
  where
    push_first :
        (c : ℕ) (ls : List Text) {x : List Text}
        → x ≡ push_byte c ls
        → (l : Text) × (rest : List Text) × (x ≡ l ∷ rest)
    push_first c [] e = (c ∷ [], [], e)
    push_first c (l ∷ ls) e = (c ∷ l, ls, e)

lines_of-append : (s t : Text) → ends_line s ≡ true → lines_of (s ++ t) ≡ lines_of s ++ lines_of t
unfolding lines_of ends_line
lines_of-append [] t h = refl
lines_of-append (c ∷ []) t h = ground arith
lines_of-append (c ∷ d ∷ s) t h =
    let (l, ls, e) = first_line d s in ground (arith, lines_of-append (d ∷ s) t h, e)

ends_line-drop : (n : ℕ) (s : Text) → ends_line s ≡ true → ends_line (drop n s) ≡ true
unfolding ends_line
ends_line-drop zero s h = h
ends_line-drop (suc n) [] h = h
ends_line-drop (suc n) (c ∷ []) h = ends_line-drop n [] refl
ends_line-drop (suc n) (c ∷ d ∷ s) h = ends_line-drop n (d ∷ s) h

drop-append : (n : ℕ) (s t : Text) → n ≤ length s → drop n (s ++ t) ≡ drop n s ++ t
drop-append zero s t h = refl
drop-append (suc n) [] t h = absurd (omega arith)
drop-append (suc n) (c ∷ s) t h = drop-append n s t (omega arith)

drop-all : (s t : Text) → drop (length s) (s ++ t) ≡ t
drop-all [] t = refl
drop-all (c ∷ s) t = drop-all s t

-- A world with another count of clock readings.
abbrev pub at_reads : ℕ → World → World
at_reads k w = record w { reads = k }

module _ (env : Env) (m : Matchers) (year : ℕ) where
  ingest-append :
      (xs ys : List Text) (w : World)
      → ingest env m year (xs ++ ys) w ≡ ingest env m year ys (ingest env m year xs w)
  unfolding ingest
  ingest-append [] ys w = refl
  ingest-append (x ∷ xs) ys w = ingest-append xs ys _

  insert_ssh_event-reads :
      (e : SshEvent) (k : ℕ) (w : World)
      → (insert_ssh_event env e (at_reads k w)).1 ≡ at_reads k (insert_ssh_event env e w).1
  unfolding insert_ssh_event
  insert_ssh_event-reads e k w = ground (arith, Option-cases (env.faults w.calls))

  -- Where no line falls back on the clock, the readings do not matter and stay as they are.
  ingest_line-reads :
      (line : Text) (k : ℕ) (w : World)
      → IsDated m line
      → ingest_line env m year line (at_reads k w) ≡ at_reads k (ingest_line env m year line w)
  unfolding ingest_line parse_auth_log_line parse_timestamp is_dated
  ingest_line-reads line k w dated = elim (Option-cases (match_line m (drop_return line))) [
    | inl e ↦ rw (e, after_match) refl
    | inr ((type, g), e) ↦ elim (Option-cases (moment_of m g.stamp)) [
      | inl f ↦ absurd (ground (arith, e, f, dated))
      | inr (t, f) ↦
          rw (e, after_match, f, date_or_now)
            (insert_ssh_event-reads (event_of type g (m.date year t)) k w)
    ]
  ]

  ingest-reads :
      (lines : List Text) (k : ℕ) (w : World)
      → All (IsDated m) lines
      → ingest env m year lines (at_reads k w) ≡ at_reads k (ingest env m year lines w)
  unfolding ingest
  ingest-reads [] k w h = refl
  ingest-reads (line ∷ lines) k w h =
      ap (ingest env m year lines) (ingest_line-reads line k w h.0)
      ∙ ingest-reads lines k (ingest_line env m year line w) h.1

start_offset_within :
    (p : Parser) (content : Text)
    → p.last_offset ≤ length content
    → start_offset p content ≡ p.last_offset
start_offset_within p content h = ground arith

-- The lines that `parse` finds.
abbrev pub new_lines : Parser → Text → List Text
new_lines p content = lines_of (drop p.last_offset content)

parse-eq :
    (env : Env) (m : Matchers) (path content : Text) (p : Parser) (w : World)
    → p.log_path ≡ some path
    → p.last_offset ≤ length content
    → All Fits (new_lines p content)
    → parse env m (some content) p w ≡ (
      record p { last_offset = length content },
      ok tt,
      ingest env m (m.year_of (env.clock w.reads)) (new_lines p content) (at_reads (suc w.reads) w),
    )
unfolding parse
parse-eq env m path content p w named within short =
    ap (parse_path env m (some content) p w) named
    ∙ rw (start_offset_within p content within)
        (rw (stop_at-none (new_lines p content) short, tokens-all (new_lines p content) short) refl)

All-left : (P : Text → Type 0) (xs ys : List Text) → All P (xs ++ ys) → All P xs
All-left P [] ys h = tt
All-left P (x ∷ xs) ys h = (h.0, All-left P xs ys h.1)

All-right : (P : Text → Type 0) (xs ys : List Text) → All P (xs ++ ys) → All P ys
All-right P [] ys h = h
All-right P (x ∷ xs) ys h = All-right P xs ys h.1

new_lines-append :
    (p : Parser) (old new : Text)
    → p.last_offset ≤ length old
    → ends_line old ≡ true
    → new_lines p (old ++ new) ≡ new_lines p old ++ lines_of new
new_lines-append p old new within whole =
    ap lines_of (drop-append p.last_offset old new within)
    ∙ lines_of-append (drop p.last_offset old) new (ends_line-drop p.last_offset old whole)

module _ (env : Env) (m : Matchers) (w : World) where
  -- The lines of two scans, of which the second reads the year again, are those of one.
  ingest_both :
      (xs ys : List Text)
      → All (IsDated m) (xs ++ ys)
      → m.year_of (env.clock (suc w.reads)) ≡ m.year_of (env.clock w.reads)
      → let year = m.year_of (env.clock w.reads) in
        let w' = ingest env m year xs (at_reads (suc w.reads) w) in
        let w1 = ingest env m year (xs ++ ys) (at_reads (suc w.reads) w) in
        ingest env m (m.year_of (env.clock w'.reads)) ys (at_reads (suc w'.reads) w')
        ≡ at_reads (suc w1.reads) w1
  ingest_both xs ys dated same =
      let year = m.year_of (env.clock w.reads) in
      let xs_dated = All-left (IsDated m) xs ys dated in
      let first = ingest-reads env m year xs (suc w.reads) w xs_dated in
      let both = ingest-reads env m year (xs ++ ys) (suc w.reads) w dated in
      rw (first, same)
        (ingest-reads env m year ys _ (ingest env m year xs w) (All-right (IsDated m) xs ys dated)
          ∙ rw (both, ingest-append env m year xs ys w) refl)

-- Take a log whose path is known, whose content is empty or ends with a newline, and which was
-- read no further than its end; append any text, and let every line that was not read be shorter
-- than 64 KB, and its timestamp, where it tells an event, be one; and let the year be the same at
-- two readings of the clock in a row. Then to parse the log, and to parse it again once it was
-- appended to, has no error, and leaves the parser and the world just as one parse of the longer
-- log, but for one more reading of the clock. Afterwards the events in the table are, their ids
-- aside, those of the lines that were not read, in order, each once, but for those whose
-- insertions fail, in front of those that were there before: no line is lost and none is stored
-- twice.
pub parse_twice :
    (env : Env) (m : Matchers) (path old new : Text) (p : Parser) (w : World)
    → p.log_path ≡ some path
    → p.last_offset ≤ length old
    → ends_line old ≡ true
    → All Fits (new_lines p (old ++ new))
    → All (IsDated m) (new_lines p (old ++ new))
    → m.year_of (env.clock (suc w.reads)) ≡ m.year_of (env.clock w.reads)
    → let (p', r, w') = parse env m (some old) p w in
      let (p1, r1, w1) = parse env m (some (old ++ new)) p w in
      (r ≡ ok tt)
      × (r1 ≡ ok tt)
      × (parse env m (some (old ++ new)) p' w' ≡ (p1, r1, at_reads (suc w1.reads) w1))
      × (map no_id w1.tables.ssh_events
          ≡ recorded env m
              (m.year_of (env.clock w.reads))
              w.calls
              (new_lines p (old ++ new))
              (map no_id w.tables.ssh_events))
parse_twice env m path old new p w named within whole short dated same =
    let longer : length old ≤ length (old ++ new) = omega (arith, length-append old new) in
    let lines = new_lines-append p old new within whole in
    let fit : All Fits (new_lines p old ++ lines_of new) = subst (All Fits) lines short in
    let p' = record p { last_offset = length old } in
    let rest : new_lines p' (old ++ new) ≡ lines_of new = ap lines_of (drop-all old new) in
    let year = m.year_of (env.clock w.reads) in
    let w' = ingest env m year (new_lines p old) (at_reads (suc w.reads) w) in
    rw
      (
        parse-eq env m path old p w named within
            (All-left Fits (new_lines p old) (lines_of new) fit),
        parse-eq env m path (old ++ new) p w named (omega arith) short,
      )
      (
        refl,
        refl,
        parse-eq env m path (old ++ new) p' w' named longer
              (subst (All Fits) (sym rest) (All-right Fits (new_lines p old) (lines_of new) fit))
            ∙ rw (rest, lines)
                (ap (λ x. (record p { last_offset = length (old ++ new) }, ok tt, x))
                  (ingest_both env m w (new_lines p old) (lines_of new)
                    (subst (All (IsDated m)) lines dated) same)),
        ingest-recorded env m year (new_lines p (old ++ new)) (at_reads (suc w.reads) w) dated,
      )
