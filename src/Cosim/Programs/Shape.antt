-- ===== src/Cosim/Programs/Shape.antt =====
-- What the generated programs are made of.
use sisrv_platform.Prelude.{
  ℕ, zero, suc, ◌+◌, ◌≡◌, refl, ◌⊎◌, inl, inr, List, [], ◌∷◌, ◌++◌, arith, All, length, get_or,
  ◌==◌, if◌then◌else◌,
}
use sisrv_platform.Cosim.Programs.{
  nop, store_x3, tail_loop, word_ops, draw_words, gen_program_words,
}

-- The words that may stand before the tail loop: a no-op and two register operations.
abbrev pub IsPlainWord : ℕ → Type 0
IsPlainWord w = (w ≡ nop) ⊎ ((w ≡ 0x0010_0093) ⊎ (w ≡ 0x0020_8133))

draw_words-plain : (draw : ℕ → ℕ) (n i : ℕ) → All IsPlainWord (draw_words draw n i)
unfolding draw_words
draw_words-plain draw zero i = tt
draw_words-plain draw (suc n) i = (one (draw i), draw_words-plain draw n (i + 1))
  where
    one :
        (k : ℕ)
        → IsPlainWord (if get_or word_ops k nop == store_x3 then nop else get_or word_ops k nop)
    one zero = inl refl
    one (suc zero) = inr (inl refl)
    one (suc (suc zero)) = inr (inr refl)
    one (suc (suc (suc zero))) = inl refl
    one (suc (suc (suc (suc k)))) = inl refl

length-draw_words : (draw : ℕ → ℕ) (n i : ℕ) → length (draw_words draw n i) ≡ n
unfolding draw_words
length-draw_words draw zero i = refl
length-draw_words draw (suc n) i = omega (arith, length-draw_words draw n (i + 1))

-- Whatever is drawn, a program of n instructions is n words, none of which is a store, branch or
-- trap, and the loop that follows them.
pub gen_program_words-shape :
    (draw : ℕ → ℕ) (n : ℕ)
    → (body : List ℕ) × (gen_program_words draw n ≡ body ++ tail_loop ∷ [])
      × (length body ≡ n)
      × All IsPlainWord body
unfolding gen_program_words
gen_program_words-shape draw n =
    (draw_words draw n 0, refl, length-draw_words draw n 0, draw_words-plain draw n 0)
