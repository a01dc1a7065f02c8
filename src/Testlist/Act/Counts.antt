-- ===== src/Testlist/Act/Counts.antt =====
-- What is kept, and that every exclusion is counted once.
use sisrv_platform.Prelude.{
  ℕ, ◌+◌, ◌≡◌, refl, ◌∙◌, ap, Bool, true, false, not, Option, List, [], ◌∷◌, ◌++◌, append_assoc,
  append-nil, Text, codes, contains, eq_text, if◌then◌else◌, any, keep, All, length, sym,
  length-append, Bool-cases, inl, inr, arith,
}
use sisrv_platform.Testlist.Act.{
  should_exclude, normalized, Counter, count_one, count_reason, strip_slashes, strip_slashes_left,
  strip_slashes_right, path_of, Filtered, filter_item, filter_items, filter_list, excluded_total,
  exclude_path_parts, full_path_parts,
}

pub total : Counter → ℕ
total [] = 0
total ((name, n) ∷ counts) = n + total counts

total-nil : total [] ≡ 0
unfolding total
total-nil = refl

total-count_one :
    (name : Text) (counts : Counter) → total (count_one name counts) ≡ total counts + 1
unfolding count_one total
total-count_one name [] = refl
total-count_one name ((other, n) ∷ counts) = ground (arith, total-count_one name counts)

total-count_reason :
    (normal : Text) (parts : List Text) (counts : Counter)
    → total (count_reason normal parts counts) ≡ total counts + 1
unfolding count_reason
total-count_reason normal [] counts = total-count_one (codes "other") counts
total-count_reason normal (part ∷ parts) counts =
    ground
      (arith, total-count_one (strip_slashes part) counts, total-count_reason normal parts counts)

-- Every counted name has a property.
abbrev pub AllNames : (Text → Type 0) → Counter → Type 0
AllNames P = All (λ c. P c.0)

AllNames-count_one :
    (P : Text → Type 0) (name : Text) (counts : Counter)
    → P name
    → AllNames P counts
    → AllNames P (count_one name counts)
unfolding count_one
AllNames-count_one P name [] p h = (p, tt)
AllNames-count_one P name ((other, n) ∷ counts) p h =
    ground (arith, AllNames-count_one P name counts p)

AllNames-count_reason :
    (P : Text → Type 0) (normal : Text) (parts : List Text) (counts : Counter)
    → All (λ part. P (strip_slashes part)) parts
    → any (λ part. contains normal part) parts ≡ true
    → AllNames P counts
    → AllNames P (count_reason normal parts counts)
unfolding count_reason
AllNames-count_reason P normal [] counts named some_part h = cc
AllNames-count_reason P normal (part ∷ parts) counts (p, named) some_part h =
    elim (Bool-cases (contains normal part)) [
      | inl found ↦ rw found (AllNames-count_one P (strip_slashes part) counts p h)
      | inr missing ↦
          rw missing (AllNames-count_reason P normal parts counts named (rw missing at some_part) h)
    ]

module _ {Entry : Type 0} (test_path : Entry → Option Text) where
  -- The test that an item has to pass.
  abbrev pub is_kept : List Text → Text × Entry → Bool
  is_kept parts e = not (should_exclude (path_of test_path e.0 e.1) parts)

  filter_item-kept :
      (parts : List Text) (e : Text × Entry) (st : Filtered Entry)
      → (filter_item test_path parts e st).kept
        ≡ (if is_kept parts e then st.kept ++ e ∷ [] else st.kept)
  unfolding filter_item
  filter_item-kept parts (key, entry) st = ground arith

  filter_item-total :
      (parts : List Text) (e : Text × Entry) (st : Filtered Entry)
      → length (filter_item test_path parts e st).kept
          + total (filter_item test_path parts e st).excluded
        ≡ length st.kept + total st.excluded + 1
  unfolding filter_item
  filter_item-total parts (key, entry) st = ground (
    arith,
    total-count_reason (normalized (path_of test_path key entry)) parts st.excluded,
    length-append {0} st.kept ((key, entry) ∷ []),
  )

  filter_item-names :
      (P : Text → Type 0) (parts : List Text) (e : Text × Entry) (st : Filtered Entry)
      → All (λ part. P (strip_slashes part)) parts
      → AllNames P st.excluded
      → AllNames P (filter_item test_path parts e st).excluded
  unfolding filter_item should_exclude
  filter_item-names P parts (key, entry) st named h =
      let normal = normalized (path_of test_path key entry) in
      elim (Bool-cases (any (λ part. contains normal part) parts)) [
        | inl out ↦ rw out (AllNames-count_reason P normal parts st.excluded named out h)
        | inr stays ↦ rw stays h
      ]

  filter_items-kept :
      (parts : List Text) (items : List (Text × Entry)) (st : Filtered Entry)
      → (filter_items test_path parts items st).kept ≡ st.kept ++ keep (is_kept parts) items
  unfolding filter_items
  filter_items-kept parts [] st = sym (append-nil st.kept)
  filter_items-kept parts (e ∷ items) st = ground (
    arith,
    filter_items-kept parts items (filter_item test_path parts e st),
    filter_item-kept parts e st,
    append_assoc st.kept (e ∷ []) (keep (is_kept parts) items),
  )

  filter_items-total :
      (parts : List Text) (items : List (Text × Entry)) (st : Filtered Entry)
      → length (filter_items test_path parts items st).kept
          + total (filter_items test_path parts items st).excluded
        ≡ length st.kept + total st.excluded + length items
  unfolding filter_items
  filter_items-total parts [] st = omega arith
  filter_items-total parts (e ∷ items) st = omega (
    arith,
    filter_items-total parts items (filter_item test_path parts e st),
    filter_item-total parts e st,
  )

  filter_items-names :
      (P : Text → Type 0) (parts : List Text) (items : List (Text × Entry)) (st : Filtered Entry)
      → All (λ part. P (strip_slashes part)) parts
      → AllNames P st.excluded
      → AllNames P (filter_items test_path parts items st).excluded
  unfolding filter_items
  filter_items-names P parts [] st named h = h
  filter_items-names P parts (e ∷ items) st named h =
      filter_items-names P parts items (filter_item test_path parts e st) named
        (filter_item-names P parts e st named h)

  abbrev parts_of : Bool → List Text
  parts_of full = if full then full_path_parts else exclude_path_parts

  -- What is written is the items whose path holds none of the excluded parts, in their order.
  pub filter_list-kept :
      (full : Bool) (entries : List (Text × Entry))
      → (filter_list test_path full entries).kept
        ≡ keep (is_kept (if full then full_path_parts else exclude_path_parts)) entries
  unfolding filter_list
  filter_list-kept full entries = filter_items-kept (parts_of full) entries _

  -- The total of the summary line is the sum of its breakdown.
  pub filter_list-total :
      (full : Bool) (entries : List (Text × Entry))
      → excluded_total entries (filter_list test_path full entries)
        ≡ total (filter_list test_path full entries).excluded
  unfolding filter_list excluded_total
  filter_list-total full entries = omega (
    arith,
    filter_items-total (parts_of full) entries (record { kept = []; excluded = [] }),
    total-nil,
  )

  -- No exclusion is ever counted as "other".
  pub filter_list-never_other :
      (full : Bool) (entries : List (Text × Entry))
      → AllNames
          (λ name. eq_text name (codes "other") ≡ false)
          (filter_list test_path full entries).excluded
  unfolding filter_list strip_slashes_left strip_slashes_right
  filter_list-never_other full entries =
      filter_items-names (λ name. eq_text name (codes "other") ≡ false) (parts_of full) entries _
        (by_mode full) tt
    where
      by_mode :
          (full : Bool)
          → All (λ part. eq_text (strip_slashes part) (codes "other") ≡ false) (parts_of full)
      by_mode true = (refl, (refl, (refl, (refl, (refl, tt)))))
      by_mode false = (refl, (refl, (refl, (refl, (refl, (refl, (refl, (refl, tt))))))))

  full_excludes_less :
      (e : Text × Entry) → is_kept exclude_path_parts e ≡ true → is_kept full_path_parts e ≡ true
  unfolding should_exclude
  full_excludes_less e h = ground arith

  -- The short profile keeps only what --full keeps: filtering the output of --full gives the same
  -- items as filtering the whole list.
  pub filter_list-full :
      (entries : List (Text × Entry))
      → (filter_list test_path false (filter_list test_path true entries).kept).kept
        ≡ (filter_list test_path false entries).kept
  filter_list-full entries =
      filter_list-kept false (filter_list test_path true entries).kept
      ∙ ap (keep (is_kept exclude_path_parts)) (filter_list-kept true entries)
      ∙ keep_keep entries
      ∙ sym (filter_list-kept false entries)
    where
      keep_keep :
          (items : List (Text × Entry))
          → keep (is_kept exclude_path_parts) (keep (is_kept full_path_parts) items)
            ≡ keep (is_kept exclude_path_parts) items
      keep_keep [] = refl
      keep_keep (e ∷ items) = ground (arith, full_excludes_less e, keep_keep items)
