-- ===== src/Riscof/Format/Laws.antt =====
-- Text without braces is formatted to itself, and what is replaced at the front is replaced once.
use sisrv_platform.Prelude.{
  ℕ, suc, ◌+◌, ◌-◌, ◌<◌, ◌≡◌, refl, ◌∙◌, ap, sym, true, false, some, List, [], ◌∷◌, ◌++◌,
  append_assoc, Text, Result, ok, err, ◌>>=◌, starts_with, contains, length, get_elem?, ◌==◌, All,
  is_digit, arith,
}
use sisrv_platform.Riscof.Format.{
  replace_from, replace, Place, plain, opened, closed, field_number, FormatError, format_step,
  format_from,
}

-- A text with no brace in it.
abbrev pub IsPlain : Text → Type 0
IsPlain = All (λ c. ((c == b'{') ≡ false) × ((c == b'}') ≡ false))

-- What is put before a text that is formatted.
abbrev pub put_before : Text → Result FormatError Text → Result FormatError Text
put_before out (ok rest) = ok (out ++ rest)
put_before out (err e) = err e

put_before-append :
    (a b : Text) (r : Result FormatError Text)
    → put_before a (put_before b r) ≡ put_before (a ++ b) r
put_before-append a b (ok rest) = rw (append_assoc a b rest)
put_before-append a b (err e) = refl

put_before-nil : (r : Result FormatError Text) → put_before [] r ≡ r
put_before-nil (ok rest) = refl
put_before-nil (err e) = refl

module _ (args : List Text) where
  format_from-step :
      (place : Place) (c : ℕ) (s : Text) {out : Text} {next : Place}
      → format_step args place c ≡ ok (out, next)
      → format_from args place (c ∷ s) ≡ put_before out (format_from args next s)
  unfolding format_from
  format_from-step place c s {out} {next} h = unfolded place h ∙ joined (format_from args next s)
    where
      joined : (r : Result FormatError Text) → (r >>= λ rest. ok (out ++ rest)) ≡ put_before out r
      joined (ok rest) = refl
      joined (err e) = refl

      unfolded :
          (place : Place)
          → format_step args place c ≡ ok (out, next)
          → format_from args place (c ∷ s) ≡ (format_from args next s >>= λ rest. ok (out ++ rest))
      unfolded plain e = rw e
      unfolded opened e = rw e
      unfolded closed e = rw e
      unfolded (field_number n) e = rw e

  -- Plain text in front of a template stands in front of what the template gives.
  pub format_from-plain :
      (s template : Text)
      → IsPlain s
      → format_from args plain (s ++ template) ≡ put_before s (format_from args plain template)
  unfolding format_step
  format_from-plain [] template _ = sym (put_before-nil (format_from args plain template))
  format_from-plain (c ∷ s) template ((no_open, no_close), more) =
      format_from-step plain c (s ++ template) {out = c ∷ []} {next = plain}
        (rw (no_open, no_close))
      ∙ ap (put_before (c ∷ [])) (format_from-plain s template more)
      ∙ put_before-append (c ∷ []) s (format_from args plain template)

  -- A field of one digit gives its argument.
  pub format_from-field :
      (n : ℕ) (template : Text) {arg : Text}
      → n < 10
      → get_elem? args n ≡ some arg
      → format_from args plain (b'{' ∷ (b'0' + n) ∷ b'}' ∷ template)
        ≡ put_before arg (format_from args plain template)
  unfolding format_step
  format_from-field n template {arg} d h =
      let digit : is_digit (b'0' + n) ≡ true = ground arith in
      let no_brace : ((b'0' + n) == b'{') ≡ false = ground arith in
      let value : b'0' + n - b'0' ≡ n = omega arith in
      format_from-step plain b'{' _ {out = []} {next = opened} refl
      ∙ put_before-nil (format_from args opened ((b'0' + n) ∷ b'}' ∷ template))
      ∙ format_from-step opened (b'0' + n) (b'}' ∷ template) {out = []} {next = field_number n}
          (rw (no_brace, digit, value))
      ∙ put_before-nil (format_from args (field_number n) (b'}' ∷ template))
      ∙ format_from-step (field_number n) b'}' template {out = arg} {next = plain} (rw h)

-- A replacement of what occurs nowhere changes nothing.
replace_from-absent :
    (d : ℕ) (old new s : Text) → contains s (d ∷ old) ≡ false → replace_from (d ∷ old) new 0 s ≡ s
unfolding replace_from
replace_from-absent d old new [] h = refl
replace_from-absent d old new (c ∷ s) h = ground (arith, replace_from-absent d old new s)

replace_from-skip :
    (old new passed s : Text)
    → replace_from old new (length passed) (passed ++ s) ≡ replace_from old new 0 s
unfolding replace_from
replace_from-skip old new [] s = refl
replace_from-skip old new (c ∷ passed) s = replace_from-skip old new passed s

starts_with-append : (p s : Text) → starts_with (p ++ s) p ≡ true
starts_with-append [] [] = refl
starts_with-append [] (c ∷ s) = refl
starts_with-append (c ∷ p) s = ground (arith, starts_with-append p s)

replace_from-match :
    (d : ℕ) (old new s : Text)
    → replace_from (d ∷ old) new 0 ((d ∷ old) ++ s)
      ≡ new ++ replace_from (d ∷ old) new (suc (length old) - 1) (old ++ s)
unfolding replace_from
replace_from-match d old new s = ground (arith, starts_with-append (d ∷ old) s)

-- Where the text begins with what is replaced and has it nowhere behind, the front is exchanged.
pub replace-front :
    (d : ℕ) (old new s : Text)
    → contains s (d ∷ old) ≡ false
    → replace (d ∷ old) new ((d ∷ old) ++ s) ≡ new ++ s
unfolding replace
replace-front d old new s h =
    let one_less : suc (length old) - 1 ≡ length old = omega arith in
    rw (
      replace_from-match d old new s,
      one_less,
      replace_from-skip (d ∷ old) new old s,
      replace_from-absent d old new s h,
    )
