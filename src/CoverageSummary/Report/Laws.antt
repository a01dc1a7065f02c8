-- ===== src/CoverageSummary/Report/Laws.antt =====
-- The order of the rows, and the totals.
use sisrv_platform.Prelude.{
  sort_by, IsSortedBy, sort_by-perm, sort_by-IsSortedBy, ℕ, ◌+◌, ◌*◌, ◌≡◌, refl, ◌∙◌, ap, sym, inl,
  inr, Bool, true, false, ◌&&◌, ◌||◌, List, [], ◌∷◌, ◌++◌, Text, text_le, text_le-total, subst,
  append_assoc, append-nil, not, keep, map, take, ltb, ◌==◌, Bool-cases, arith,
}
use mathlib.Core.List.{Perm}
use sisrv_platform.CoverageSummary.{parse_annotate}
use sisrv_platform.CoverageSummary.Report.{
  AnnotatedFile, FileRow, Summed, row_le, add_file, add_files, summarize,
}

row_le-total : (r s : FileRow) → row_le r s ≡ false → row_le s r ≡ true
row_le-total r s h = by_name (r.hit * (s.hit + s.miss)) (s.hit * (r.hit + r.miss)) r.name s.name h
  where
    by_name :
        (a b : ℕ) (s t : Text)
        → (ltb a b || (a == b && text_le s t)) ≡ false
        → (ltb b a || (b == a && text_le t s)) ≡ true
    by_name a b s t h = ground (arith, text_le-total s t)

-- A file's row.
abbrev pub row_of : AnnotatedFile → FileRow
row_of f =
    let found = parse_annotate f.text in
    record { hit = found.hit; miss = found.miss; name = f.name; samples = take 15 found.uncovered }

abbrev pub has_count : FileRow → Bool
has_count row = not (row.hit + row.miss == 0)

-- The rows of the files in which a line is counted.
abbrev pub rows_of : List AnnotatedFile → List FileRow
rows_of files = keep has_count (map row_of files)

abbrev pub sum : (FileRow → ℕ) → List FileRow → ℕ
sum value [] = 0
sum value (row ∷ rows) = value row + sum value rows

abbrev summed : ℕ → ℕ → List FileRow → Summed
summed th tm rows = record { th = th; tm = tm; rows = rows }

same_sums :
    {th th' tm tm' : ℕ} {rows rows' : List FileRow}
    → th ≡ th'
    → tm ≡ tm'
    → rows ≡ rows'
    → summed th tm rows ≡ summed th' tm' rows'
same_sums {th} {th'} {tm} {tm'} {rows} {rows'} p q r =
    ap (λ (n : ℕ). summed n tm rows) p ∙ ap (λ (n : ℕ). summed th' n rows) q ∙ ap (summed th' tm') r

add_file-counted :
    (f : AnnotatedFile) (st : Summed)
    → has_count (row_of f) ≡ true
    → add_file f st
      ≡ summed (st.th + (row_of f).hit) (st.tm + (row_of f).miss) (st.rows ++ row_of f ∷ [])
unfolding add_file
add_file-counted f st h =
    let some_lines : ((parse_annotate f.text).hit + (parse_annotate f.text).miss == 0) ≡ false =
      ground arith in
    rw some_lines refl

add_file-empty :
    (f : AnnotatedFile) (st : Summed) → has_count (row_of f) ≡ false → add_file f st ≡ st
unfolding add_file
add_file-empty f st h =
    let no_lines : ((parse_annotate f.text).hit + (parse_annotate f.text).miss == 0) ≡ true =
      ground arith in
    rw no_lines refl

add_files-rows_of :
    (files : List AnnotatedFile) (st : Summed)
    → add_files files st
      ≡ summed
          (st.th + sum (λ r. r.hit) (rows_of files))
          (st.tm + sum (λ r. r.miss) (rows_of files))
          (st.rows ++ rows_of files)
unfolding add_files
add_files-rows_of [] st = same_sums (omega arith) (omega arith) (sym (append-nil st.rows))
add_files-rows_of (f ∷ files) st = elim (Bool-cases (has_count (row_of f))) [
  | inl counted ↦ rw counted (
      ap (add_files files) (add_file-counted f st counted)
      ∙ add_files-rows_of files _
      ∙ same_sums (omega arith) (omega arith)
          (append_assoc st.rows (row_of f ∷ []) (rows_of files)))
  | inr empty ↦
      rw empty (ap (add_files files) (add_file-empty f st empty) ∙ add_files-rows_of files st)
]

-- What the summary promises of its files.
pub record IsSummary (files : List AnnotatedFile) (st : Summed) : Type 0 where
  pub sorted : IsSortedBy row_le st.rows
  pub all_rows : Perm st.rows (rows_of files)
  pub hits : st.th ≡ sum (λ r. r.hit) (rows_of files)
  pub misses : st.tm ≡ sum (λ r. r.miss) (rows_of files)

-- The summary of any files has exactly one row for each file in which a line is counted, each row's
-- share of hit lines is at most the next one's, rows of the same share are in the order of their
-- names, and the totals are the sums over the rows.
pub summarize-IsSummary : (files : List AnnotatedFile) → IsSummary files (summarize files)
unfolding summarize
summarize-IsSummary files =
    subst (λ (st : Summed). IsSummary files (record st { rows = sort_by row_le st.rows }))
      (sym (add_files-rows_of files (summed 0 0 [])))
      (record {
        sorted = sort_by-IsSortedBy row_le row_le-total (rows_of files);
        all_rows = sort_by-perm row_le (rows_of files);
        hits = omega arith;
        misses = omega arith;
      })
