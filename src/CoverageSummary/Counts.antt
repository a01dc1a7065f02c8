-- ===== src/CoverageSummary/Counts.antt =====
-- The counts against an independent reading of the lines: which lines show a count, and which count.
use sisrv_platform.Prelude.{
  ℕ, zero, suc, if◌then◌else◌, ◌+◌, ◌≤◌, ◌≡◌, refl, sym, ap, ◌∙◌, inl, inr, Bool, true, false,
  Option, none, some, List, [], ◌∷◌, ◌++◌, append_assoc, append-nil, Text, codes, starts_with,
  length, take, drop, ltb, ◌==◌, Bool-cases, Option-cases, split_lines, span, run1, nonempty,
  span-append, run1-append, strip_right, is_space, is_digit, IsDigits, parse_dec, arith, All,
}
use sisrv_platform.CoverageSummary.{
  Annotation, ended_count, match_count, excerpt, annotate_line, annotate_lines, parse_annotate,
}

-- A line that shows a count: at most five blanks, one or more digits, and white space behind them.
pub record Shows (line : Text) (n : ℕ) : Type 0 where
  pub indent : Text
  pub first : ℕ
  pub more : Text
  pub space : ℕ
  pub behind : Text
  pub shallow : length indent ≤ 5
  pub blank : All (λ c. (c == 32) ≡ true) indent
  pub digits : IsDigits (first ∷ more)
  pub ended : is_space space ≡ true
  pub reads : line ≡ indent ++ ((first ∷ more) ++ space ∷ behind)
  pub value : n ≡ parse_dec 0 (first ∷ more)

span-parts :
    (p : ℕ → Bool) (s : Text)
    → (s ≡ (span p s).0 ++ (span p s).1) × All (λ c. p c ≡ true) (span p s).0
unfolding span
span-parts p [] = (refl, tt)
span-parts p (c ∷ s) = elim (Bool-cases (p c)) [
  | inl here ↦ let (parts, every) = span-parts p s in rw here (ap (◌∷◌ c) parts, (here, every))
  | inr other ↦ rw other (refl, tt)
]

module _ (line : Text) (n : ℕ) where
  -- The digits behind the blanks.
  Shows-digits :
      (indent digits after : Text)
      → length indent ≤ 5
      → All (λ c. (c == 32) ≡ true) indent
      → IsDigits digits
      → line ≡ indent ++ (digits ++ after)
      → nonempty (digits, after) ≡ some (digits, after)
      → ended_count digits after ≡ some n
      → Shows line n
  Shows-digits indent [] after p b d e some_digit h = cc
  Shows-digits indent (c ∷ more) [] p b d e _ h = cc
  Shows-digits indent (c ∷ more) (space ∷ behind) p b d e _ h = elim (Bool-cases (is_space space)) [
    | inl white ↦ record {
      indent = indent;
      first = c;
      more = more;
      space = space;
      behind = behind;
      shallow = p;
      blank = b;
      digits = d;
      ended = white;
      reads = e;
      value = let found : some (parse_dec 0 (c ∷ more)) ≡ some n = rw white at h in cc;
    }
    | inr other ↦ let gone : ◌≡◌ {A = Option ℕ} none (some n) = rw other at h in cc
  ]

nonempty-some : (run found : Text × Text) → nonempty run ≡ some found → run ≡ found
nonempty-some ([], rest) found h = cc
nonempty-some (c ∷ run, rest) found h = cc

match_count-Shows : (line : Text) (n : ℕ) → match_count line ≡ some n → Shows line n
unfolding match_count run1
match_count-Shows line n h =
    let blanks : Text = (span (λ c. c == 32) line).0 in
    let rest : Text = (span (λ c. c == 32) line).1 in
    let (parts, blank) = span-parts (λ c. c == 32) line in
    let (numbered, digits) = span-parts is_digit rest in
    elim (Bool-cases (ltb 5 (length blanks))) [
      | inl deep ↦ let gone : ◌≡◌ {A = Option ℕ} none (some n) = rw deep at h in cc
      | inr shallow ↦ elim (Option-cases (nonempty (span is_digit rest))) [
        | inl no_digit ↦
            let gone : ◌≡◌ {A = Option ℕ} none (some n) = rw (shallow, no_digit) at h in cc
        | inr (found, reads) ↦
            let same : span is_digit rest ≡ found = nonempty-some _ found reads in
            Shows-digits line n blanks (span is_digit rest).0 (span is_digit rest).1
              (ground (arith, shallow)) blank digits
              (parts ∙ ap (λ (t : Text). blanks ++ t) numbered) (reads ∙ ap some (sym same))
              (rw same (rw (shallow, reads) at h))
      ]
    ]

Shows-match_count : (line : Text) (n : ℕ) → Shows line n → match_count line ≡ some n
unfolding match_count
Shows-match_count line n s =
    let shallow : ltb 5 (length s.indent) ≡ false = ground (arith, s.shallow) in
    rw
      (
        s.reads,
        span-append (λ c. c == 32) s.indent ((s.first ∷ s.more) ++ s.space ∷ s.behind) s.blank
            (digit_not_blank s.first s.digits.0),
        shallow,
        run1-append is_digit s.first s.more (s.space ∷ s.behind) s.digits
            (space_not_digit s.space s.ended),
        s.ended,
        s.value,
      )
      refl
  where
    digit_not_blank : (c : ℕ) → is_digit c ≡ true → (c == 32) ≡ false
    digit_not_blank c h = ground arith

    space_not_digit : (c : ℕ) → is_space c ≡ true → is_digit c ≡ false
    space_not_digit c h = ground arith

-- What the lines from a number on add: how many are hit, and the missed ones with their numbers and
-- what is quoted of them. A line that starts with `%00` is missed, and so is one that shows 0; one
-- that shows a larger count is hit; any other is neither.
pub data Tally : ℕ → List Text → ℕ → List (ℕ × Text) → Type 0 where
  no_lines : (i : ℕ) → Tally i [] 0 []
  marked :
      (i : ℕ) (line : Text) (lines : List Text) (hit : ℕ) (missed : List (ℕ × Text))
      → starts_with line (codes "%00") ≡ true
      → Tally (i + 1) lines hit missed
      → Tally i (line ∷ lines) hit ((i, strip_right (drop 7 (take 140 line))) ∷ missed)
  zero_shown :
      (i : ℕ) (line : Text) (lines : List Text) (hit : ℕ) (missed : List (ℕ × Text))
      → Shows line 0
      → Tally (i + 1) lines hit missed
      → Tally i (line ∷ lines) hit ((i, strip_right (drop 6 (take 140 line))) ∷ missed)
  count_shown :
      (i : ℕ) (line : Text) (lines : List Text) (n hit : ℕ) (missed : List (ℕ × Text))
      → Shows line (suc n)
      → Tally (i + 1) lines hit missed
      → Tally i (line ∷ lines) (suc hit) missed
  nothing_shown :
      (i : ℕ) (line : Text) (lines : List Text) (hit : ℕ) (missed : List (ℕ × Text))
      → starts_with line (codes "%00") ≡ false
      → ((n : ℕ) → Shows line n → ⊥)
      → Tally (i + 1) lines hit missed
      → Tally i (line ∷ lines) hit missed

-- The counts that some lines add to what is there.
abbrev Adds : ℕ → List Text → Annotation → Annotation → Type 0
Adds i lines st st' =
    (hit : ℕ) × (missed : List (ℕ × Text)) × Tally i lines hit missed
    × (st'.hit ≡ st.hit + hit)
    × (st'.miss ≡ st.miss + length missed)
    × (st'.uncovered ≡ st.uncovered ++ missed)

Adds-missed :
    (i : ℕ) (line : Text) (lines : List Text) (text : Text) (st st' : Annotation)
    → ((hit : ℕ) (missed : List (ℕ × Text))
        → Tally (i + 1) lines hit missed
        → Tally i (line ∷ lines) hit ((i, text) ∷ missed))
    → Adds
        (i + 1)
        lines
        (record st { miss = st.miss + 1; uncovered = st.uncovered ++ (i, text) ∷ [] })
        st'
    → Adds i (line ∷ lines) st st'
Adds-missed i line lines text st st' counts (hit, missed, tally, hits, misses, listed) = (
  hit,
  (i, text) ∷ missed,
  counts hit missed tally,
  hits,
  omega (arith, misses),
  listed ∙ append_assoc st.uncovered ((i, text) ∷ []) missed,
)

-- One round, before what the rounds behind it do.
module _ (i : ℕ) (line : Text) (lines : List Text) (rounds : Annotation → Annotation)
    (later : (st : Annotation) → Adds (i + 1) lines st (rounds st)) where
  count_shown-Adds :
      (st : Annotation) (cnt : ℕ)
      → Shows line cnt
      → Adds i (line ∷ lines) st (
          rounds (
            if ltb 0 cnt then record st { hit = st.hit + 1 } else record st {
              miss = st.miss + 1;
              uncovered = st.uncovered ++ (i, excerpt 6 line) ∷ [];
            }))
  count_shown-Adds st zero s =
      Adds-missed i line lines (excerpt 6 line) st _
        (λ hit missed. zero_shown i line lines hit missed s) (later _)
  count_shown-Adds st (suc n) s =
      let (hit, missed, tally, hits, misses, listed) = later (record st { hit = st.hit + 1 }) in
      let above : ltb 0 (suc n) ≡ true = ground arith in
      rw above (
        suc hit,
        missed,
        count_shown i line lines n hit missed s tally,
        omega (arith, hits),
        misses,
        listed,
      )

  Shows-none : match_count line ≡ none → (n : ℕ) → Shows line n → ⊥
  Shows-none no_count n s =
      let both : ◌≡◌ {A = Option ℕ} none (some n) = sym no_count ∙ Shows-match_count line n s in cc

  annotate_line-Adds :
      (st : Annotation) → Adds i (line ∷ lines) st (rounds (annotate_line i line st))
  unfolding annotate_line
  annotate_line-Adds st = elim (Bool-cases (starts_with line (codes "%00"))) [
    | inl marks ↦ rw marks (
        Adds-missed i line lines (excerpt 7 line) st _
          (λ hit missed. marked i line lines hit missed marks) (later _))
    | inr other ↦ elim (Option-cases (match_count line)) [
      | inl no_count ↦
          let (hit, missed, tally, hits, misses, listed) = later st in
          rw (other, no_count)
            (
              hit,
              missed,
              nothing_shown i line lines hit missed other (Shows-none no_count) tally,
              hits,
              misses,
              listed,
            )
      | inr (cnt, counted) ↦
          rw (other, counted) (count_shown-Adds st cnt (match_count-Shows line cnt counted))
    ]
  ]

annotate_lines-Adds :
    (i : ℕ) (lines : List Text) (st : Annotation) → Adds i lines st (annotate_lines i lines st)
unfolding annotate_lines
annotate_lines-Adds i [] st =
    (0, [], no_lines i, omega arith, omega arith, sym (append-nil st.uncovered))
annotate_lines-Adds i (line ∷ lines) st =
    annotate_line-Adds i line lines (annotate_lines (i + 1) lines)
      (λ st. annotate_lines-Adds (i + 1) lines st) st

-- Of every annotated text: the count of hits is the number of lines that show a count above 0, and
-- the listed lines are, in order and with their numbers and excerpts, those that start with `%00` and
-- those that show the count 0; as many are missed as are listed.
pub parse_annotate-Tally :
    (text : Text)
    → Tally 1 (split_lines text) (parse_annotate text).hit (parse_annotate text).uncovered
      × ((parse_annotate text).miss ≡ length (parse_annotate text).uncovered)
unfolding parse_annotate
parse_annotate-Tally text =
    let (hit, missed, tally, hits, misses, listed) =
      annotate_lines-Adds 1 (split_lines text) (record { hit = 0; miss = 0; uncovered = [] }) in
    let all_hits : 0 + hit ≡ hit = omega arith in
    let all_missed : 0 + length missed ≡ length missed = omega arith in
    rw (hits, misses, listed, all_hits, all_missed) (tally, refl)
