-- ===== src/Testlist/Pick/Choice.antt =====
-- Which key is picked: one of those that match, and the best of them in a rank.
use sisrv_platform.Prelude.{
  ℕ, ◌≡◌, ◌≢◌, subst, ◌⊎◌, inl, inr, Bool, true, false, not, ◌||◌, ◌&&◌, none, some, List, [], ◌∷◌,
  Text, contains, eq_text, ltb, ◌==◌, if◌then◌else◌, any, keep, All, Bool-cases, Option-cases,
  arith, text_le,
}
use sisrv_platform.Testlist.Pick.{least, first_choice, hints, pick_match}
use sisrv_platform.Testlist.Pick.Least.{
  text_le_refl, eq_text_refl, eq_text-eq, least-IsLeast, first_choice-IsLeast, first_choice-none,
}

-- 0 for a key with the preferred text, 1 for one that is no hint, 2 for a hint.
abbrev pub rank : Text → Text → ℕ
rank prefer key = if contains key prefer then 0 else if contains key hints then 2 else 1

-- The first key is no worse than the second: of a lower rank, or of the same and not later in
-- the order of texts.
abbrev pub no_worse : Text → Text → Text → Bool
no_worse prefer best key =
    ltb (rank prefer best) (rank prefer key)
    || (rank prefer best == rank prefer key && text_le best key)

pub record IsBest (prefer : Text) (keys : List Text) (best : Text) : Type 0 where
  pub among : any (λ key. eq_text key best) keys ≡ true
  pub no_other : All (λ key. no_worse prefer best key ≡ true) keys

module _ (class : Text → Bool) where
  any-keep :
      (keys : List Text) (best : Text)
      → any (λ key. eq_text key best) (keep class keys) ≡ true
      → (any (λ key. eq_text key best) keys ≡ true) × (class best ≡ true)
  any-keep [] best h = cc
  any-keep (key ∷ keys) best h = elim (Bool-cases (class key)) [
    | inl kept ↦ elim (Bool-cases (eq_text key best)) [
      | inl same ↦ (rw same, rw (eq_text-eq key best same) at kept)
      | inr other ↦ ground (arith, any-keep keys best)
    ]
    | inr dropped ↦ ground (arith, any-keep keys best)
  ]

  All-keep :
      (keys : List Text) (best : Text)
      → All (λ key. text_le best key ≡ true) (keep class keys)
      → All (λ key. (class key ≡ false) ⊎ (text_le best key ≡ true)) keys
  All-keep [] best h = tt
  All-keep (key ∷ keys) best h = elim (Bool-cases (class key)) [
    | inl kept ↦
        let (p, more) : (text_le best key ≡ true)
            × All (λ k. text_le best k ≡ true) (keep class keys) =
          rw kept at h in
        (inr p, All-keep keys best more)
    | inr dropped ↦ (inl dropped, All-keep keys best (rw dropped at h))
  ]

  keep-nil : (keys : List Text) → keep class keys ≡ [] → All (λ key. class key ≡ false) keys
  keep-nil [] h = tt
  keep-nil (key ∷ keys) h = elim (Bool-cases (class key)) [
    | inl kept ↦ ground arith
    | inr dropped ↦ (dropped, keep-nil keys (rw dropped at h))
  ]

-- What is true of a key for two reasons.
All-both {ℓ} :
    {A : Type ℓ} (P Q R : A → Type 0) (xs : List A)
    → ((x : A) → P x → Q x → R x)
    → All P xs
    → All Q xs
    → All R xs
All-both P Q R [] both _ _ = tt
All-both P Q R (x ∷ xs) both (p, hp) (q, hq) = (both x p q, All-both P Q R xs both hp hq)

-- What is true of every key is true of one of them.
All-among :
    (P : Text → Type 0) (keys : List Text) (best : Text)
    → any (λ key. eq_text key best) keys ≡ true
    → All P keys
    → P best
All-among P [] best h _ = cc
All-among P (key ∷ keys) best h (p, more) = elim (Bool-cases (eq_text key best)) [
  | inl same ↦ subst P (eq_text-eq key best same) p
  | inr other ↦ All-among P keys best (ground arith) more
]

-- The choice among the keys of a class, where there is one.
choice_among :
    (class : Text → Bool) (keys : List Text) {best : Text}
    → first_choice (keep class keys) ≡ some best
    → (any (λ key. eq_text key best) keys ≡ true)
      × (class best ≡ true)
      × All (λ key. (class key ≡ false) ⊎ (text_le best key ≡ true)) keys
choice_among class keys {best} h =
    let (among, below) = first_choice-IsLeast (keep class keys) h in
    let (found, of_class) = any-keep class keys best among in
    (found, of_class, All-keep class keys best below)

no_choice :
    (class : Text → Bool) (keys : List Text)
    → first_choice (keep class keys) ≡ none
    → All (λ key. class key ≡ false) keys
no_choice class keys h = keep-nil class keys (first_choice-none (keep class keys) h)

module _ (prefer best key : Text) where
  preferred_no_worse :
      contains best prefer ≡ true
      → (contains key prefer ≡ false) ⊎ (text_le best key ≡ true)
      → no_worse prefer best key ≡ true
  preferred_no_worse p (inl other) = ground arith
  preferred_no_worse p (inr later) = ground arith

  non_hint_no_worse :
      not (contains best hints) ≡ true
      → contains key prefer ≡ false
      → (not (contains key hints) ≡ false) ⊎ (text_le best key ≡ true)
      → no_worse prefer best key ≡ true
  non_hint_no_worse p q (inl other) = ground arith
  non_hint_no_worse p q (inr later) = ground arith

  hint_no_worse :
      contains best prefer ≡ false
      → not (contains best hints) ≡ false
      → contains key prefer ≡ false
      → not (contains key hints) ≡ false
      → text_le best key ≡ true
      → no_worse prefer best key ≡ true
  hint_no_worse a b c d later = ground arith

-- The case of several keys.
several-IsBest :
    (key next : Text) (keys : List Text) (prefer : Text) {best : Text}
    → pick_match (key ∷ next ∷ keys) prefer ≡ some best
    → IsBest prefer (key ∷ next ∷ keys) best
unfolding pick_match
several-IsBest key next keys prefer {best} h =
    let every = key ∷ next ∷ keys in
    elim (Option-cases (first_choice (keep (λ k. contains k prefer) every))) [
      | inr (one, chosen) ↦
          let same : one ≡ best = ground arith in
          let (found, of_class, below) = choice_among (λ k. contains k prefer) every chosen in
          subst (λ (t : Text). IsBest prefer every t) same
            (record {
              among = found;
              no_other =
                  All-both _ _ _ every (λ k p q. preferred_no_worse prefer one k of_class p) below
                    below;
            })
      | inl no_preferred ↦
          let none_preferred = no_choice (λ k. contains k prefer) every no_preferred in
          elim (Option-cases (first_choice (keep (λ k. not (contains k hints)) every))) [
            | inr (one, chosen) ↦
                let same : one ≡ best = ground arith in
                let (found, of_class, below) =
                  choice_among (λ k. not (contains k hints)) every chosen in
                subst (λ (t : Text). IsBest prefer every t) same
                  (record {
                    among = found;
                    no_other =
                        All-both _ _ _ every (λ k p q. non_hint_no_worse prefer one k of_class p q)
                          none_preferred below;
                  })
            | inl no_other ↦
                let none_other = no_choice (λ k. not (contains k hints)) every no_other in
                let same : least key (next ∷ keys) ≡ best = ground arith in
                let (found, below) = least-IsLeast key (next ∷ keys) in
                let both =
                  All-both _ _ (λ k. (contains k prefer ≡ false) × (not (contains k hints) ≡ false))
                    every (λ k p q. (p, q)) none_preferred none_other in
                let (bp, bh) = All-among _ every (least key (next ∷ keys)) found both in
                subst (λ (t : Text). IsBest prefer every t) same
                  (record {
                    among = found;
                    no_other =
                        All-both _ _ _ every
                          (λ k p q.
                            hint_no_worse prefer (least key (next ∷ keys)) k bp bh p.0 p.1 q)
                          both below;
                  })
          ]
    ]

picked-IsBest :
    (key : Text) (keys : List Text) (prefer : Text) {best : Text}
    → pick_match (key ∷ keys) prefer ≡ some best
    → IsBest prefer (key ∷ keys) best
unfolding pick_match
picked-IsBest key [] prefer {best} h =
    let same : key ≡ best = cc in
    subst (λ (t : Text). IsBest prefer (key ∷ []) t) same
      (record {
        among = ground (arith, eq_text_refl key);
        no_other = (ground (arith, text_le_refl key), tt);
      })
picked-IsBest key (next ∷ keys) prefer h = several-IsBest key next keys prefer h

pick_match-ne-none :
    (key : Text) (keys : List Text) (prefer : Text) → pick_match (key ∷ keys) prefer ≢ none
unfolding pick_match
pick_match-ne-none key [] prefer h = cc
pick_match-ne-none key (next ∷ keys) prefer h = ground arith

-- Where some key matches, one of the matching keys is picked: a preferred one before one that is
-- no hint, and that before a hint, and among equals the first in the order of texts.
pub pick_match-IsBest :
    (key : Text) (keys : List Text) (prefer : Text)
    → (best : Text) × (pick_match (key ∷ keys) prefer ≡ some best) × IsBest prefer (key ∷ keys) best
pick_match-IsBest key keys prefer = elim (Option-cases (pick_match (key ∷ keys) prefer)) [
  | inl nothing ↦ absurd (pick_match-ne-none key keys prefer nothing)
  | inr (best, picked) ↦ (best, picked, picked-IsBest key keys prefer picked)
]
