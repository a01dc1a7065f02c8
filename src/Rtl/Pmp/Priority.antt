-- ===== src/Rtl/Pmp/Priority.antt =====
-- The entry that decides an access.
use sisrv_platform.Prelude.{ℕ, ◌≡◌, refl, Bool, true, false, List, [], ◌∷◌, Bool-cases, inl, inr}
use sisrv_platform.Rtl.Pmp.{PmpEntry, entry_matches, winner}

-- The first entry that matches, each with the address of the entry before it.
pub data First (byte_addr : ℕ) : ℕ → List PmpEntry → Bool × ℕ → Type 0 where
  none_matches : (prev : ℕ) → First byte_addr prev [] (false, 0)
  here :
      (prev : ℕ) (e : PmpEntry) (es : List PmpEntry)
      → entry_matches byte_addr e.cfg e.addr prev ≡ true
      → First byte_addr prev (e ∷ es) (true, e.cfg)
  later :
      (prev : ℕ) (e : PmpEntry) (es : List PmpEntry) (w : Bool × ℕ)
      → entry_matches byte_addr e.cfg e.addr prev ≡ false
      → First byte_addr e.addr es w
      → First byte_addr prev (e ∷ es) w

-- Once an entry has matched, the loop keeps it.
winner_kept :
    (byte_addr prev : ℕ) (es : List PmpEntry) (cfg : ℕ)
    → winner byte_addr prev es true cfg ≡ (true, cfg)
unfolding winner
winner_kept byte_addr prev [] cfg = refl
winner_kept byte_addr prev (e ∷ es) cfg =
    elim (Bool-cases (entry_matches byte_addr e.cfg e.addr prev)) [
      | inl hit ↦ rw hit (winner_kept byte_addr e.addr es cfg)
      | inr miss ↦ rw miss (winner_kept byte_addr e.addr es cfg)
    ]

-- The loop finds the first entry that matches, and there is one answer.
winner-First :
    (byte_addr prev : ℕ) (es : List PmpEntry)
    → First byte_addr prev es (winner byte_addr prev es false 0)
unfolding winner
winner-First byte_addr prev [] = none_matches prev
winner-First byte_addr prev (e ∷ es) =
    elim (Bool-cases (entry_matches byte_addr e.cfg e.addr prev)) [
      | inl hit ↦ rw hit (rw (winner_kept byte_addr e.addr es e.cfg) (here prev e es hit))
      | inr miss ↦ rw miss (later prev e es _ miss (winner-First byte_addr e.addr es))
    ]

abbrev pub no_entries : List PmpEntry → Bool
no_entries [] = true
no_entries (e ∷ es) = false

-- Some entry is the first that matches, or none matches.
pub First-total : (byte_addr : ℕ) (es : List PmpEntry) → (w : Bool × ℕ) × First byte_addr 0 es w
First-total byte_addr es = (winner byte_addr 0 es false 0, winner-First byte_addr 0 es)
