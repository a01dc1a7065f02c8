-- ===== src/Cosim/Logs/RoundTrip.antt =====
-- The simulator's trace is read back: what `dpi_sisrv_retire_insn` of tb/verilator/main.cpp prints,
-- a line of five hexadecimal fields for each retired instruction, is what `parse_rtl_commits` finds.
use sisrv_platform.Prelude.{
  Field, field_text, field_value, hex-not_space, hex-not_break, All-weaken, ◌≡◌, refl, ◌∙◌, ap,
  Option, some, List, [], ◌∷◌, ◌++◌, append_assoc, append-nil, sym, arith, Text, All-append, is_hex,
  is_space, is_break, split_lines, run1, run1-append, strip, strip-append, split_lines-append,
  split_lines-nil, map, IsLine,
}
use sisrv_platform.Cosim.Logs.{Commit, match_rtl, at_end, collect, parse_rtl_commits}

-- A printed line: the counter, the encoding, and three fields that the comparison leaves out.
pub record Retired : Type 0 where
  pub pc : Field
  pub insn : Field
  pub rd : Field
  pub wdata : Field
  pub we : Field

pub rtl_line : Retired → Text
rtl_line r =
    field_text r.pc
    ++ (32 ∷ field_text r.insn
        ++ (32 ∷ field_text r.rd ++ (32 ∷ field_text r.wdata ++ (32 ∷ field_text r.we))))

pub rtl_log : List Retired → Text
rtl_log [] = []
rtl_log (r ∷ rs) = rtl_line r ++ 10 ∷ rtl_log rs

abbrev pub commit_of : Retired → Commit
commit_of r = (field_value r.pc, field_value r.insn)

-- One field and the blank behind it.
match_field :
    (f : Field) (rest : Text)
    → run1 is_hex (field_text f ++ 32 ∷ rest) ≡ some (field_text f, 32 ∷ rest)
match_field f rest = run1-append is_hex f.first f.more (32 ∷ rest) f.digits refl

match_blank :
    (f : Field) (rest : Text)
    → run1 is_space (32 ∷ field_text f ++ rest) ≡ some (32 ∷ [], field_text f ++ rest)
match_blank f rest =
    run1-append is_space 32 [] (field_text f ++ rest) (refl, tt) (hex-not_space f.first f.digits.0)

match_last : (f : Field) → run1 is_hex (field_text f) ≡ some (field_text f, [])
match_last f =
    ap (run1 is_hex) (sym (append-nil (field_text f)))
    ∙ run1-append is_hex f.first f.more [] f.digits tt

match_last_blank : (f : Field) → run1 is_space (32 ∷ field_text f) ≡ some (32 ∷ [], field_text f)
match_last_blank f =
    run1-append is_space 32 [] (field_text f) (refl, tt) (hex-not_space f.first f.digits.0)

match_rtl-rtl_line : (r : Retired) → match_rtl (rtl_line r) ≡ some (commit_of r)
unfolding match_rtl rtl_line at_end
match_rtl-rtl_line r =
    let from_wdata = field_text r.wdata ++ 32 ∷ field_text r.we in
    let from_rd = field_text r.rd ++ 32 ∷ from_wdata in
    let from_insn = field_text r.insn ++ 32 ∷ from_rd in
    rw (
      match_field r.pc from_insn,
      match_blank r.insn (32 ∷ from_rd),
      match_field r.insn from_rd,
      match_blank r.rd (32 ∷ from_wdata),
      match_field r.rd from_wdata,
      match_blank r.wdata (32 ∷ field_text r.we),
      match_field r.wdata (field_text r.we),
      match_last_blank r.we,
      match_last r.we,
    )

-- The line has no white space at its ends and no line break inside.
strip-rtl_line : (r : Retired) → strip (rtl_line r) ≡ rtl_line r
unfolding rtl_line
strip-rtl_line r =
    ap strip together
    ∙ strip-append r.pc.first front r.we.first r.we.more (hex-not_space r.pc.first r.pc.digits.0)
        (All-weaken is_hex is_space hex-not_space (field_text r.we) r.we.digits)
    ∙ sym together
  where
    front : Text
    front =
        r.pc.more
        ++ (32 ∷ field_text r.insn
            ++ (32 ∷ field_text r.rd ++ (32 ∷ field_text r.wdata ++ 32 ∷ [])))

    together :
        field_text r.pc
          ++ (32 ∷ field_text r.insn
              ++ (32 ∷ field_text r.rd ++ (32 ∷ field_text r.wdata ++ (32 ∷ field_text r.we))))
        ≡ (r.pc.first ∷ front) ++ field_text r.we
    together = simp append_assoc

IsLine-field : (f : Field) → IsLine (field_text f)
IsLine-field f = All-weaken is_hex is_break hex-not_break (field_text f) f.digits

IsLine-rtl_line : (r : Retired) → IsLine (rtl_line r)
unfolding rtl_line
IsLine-rtl_line r = join r.pc _ (join r.insn _ (join r.rd _ (join r.wdata _ (IsLine-field r.we))))
  where
    join : (f : Field) (rest : Text) → IsLine rest → IsLine (field_text f ++ 32 ∷ rest)
    join f rest h = All-append _ (field_text f) (32 ∷ rest) (IsLine-field f) (refl, h)

collect-some :
    (matching : Text → Option Commit) (line : Text) (lines : List Text) (commit : Commit)
    → matching line ≡ some commit
    → collect matching (line ∷ lines) ≡ commit ∷ collect matching lines
unfolding collect
collect-some matching line lines commit h = ground arith

match_stripped : (r : Retired) → match_rtl (strip (rtl_line r)) ≡ some (commit_of r)
match_stripped r = ap match_rtl (strip-rtl_line r) ∙ match_rtl-rtl_line r

collect-rtl_log :
    (rs : List Retired)
    → collect (λ line. match_rtl (strip line)) (split_lines (rtl_log rs)) ≡ map commit_of rs
unfolding rtl_log
collect-rtl_log [] = rw split_lines-nil (unfold collect in refl)
collect-rtl_log (r ∷ rs) =
    ap (collect (λ line. match_rtl (strip line)))
      (split_lines-append (rtl_line r) (rtl_log rs) (IsLine-rtl_line r))
    ∙ collect-some _ (rtl_line r) (split_lines (rtl_log rs)) (commit_of r) (match_stripped r)
    ∙ ap (λ (cs : List Commit). commit_of r ∷ cs) (collect-rtl_log rs)

-- The trace file that the simulator prints is read back as the commits that it printed, in order.
pub parse_rtl_commits-rtl_log :
    (rs : List Retired) → parse_rtl_commits (some (rtl_log rs)) ≡ map commit_of rs
unfolding parse_rtl_commits
parse_rtl_commits-rtl_log rs = collect-rtl_log rs
