-- ===== src/Bridge/Bounds.antt =====
-- What do_read and do_write do on any device: how many edges they wait for, and what they make of a
-- device that never answers.
use sisrv_platform.Prelude.{
  ℕ, zero, suc, ◌+◌, ◌≤◌, ◌≡◌, refl, ap, ◌∙◌, Bool, true, false, Bool-cases, inl, inr, ok, err,
  Result, ◌&&◌, arith, max,
}
use sisrv_platform.Rtl.AxiLite.{Inputs, Outputs}
use sisrv_platform.Bridge.Bench.{
  Dut, AssertionFailure, Test, Bench, ◌>>=◌, pure, after_edge, after_edges, after_wait,
}
use sisrv_platform.Bridge.Driver.{
  int, read_address, read_data, response, do_read, accept_aw, accept_w, handshakes, write_address,
  write_response, do_write, offer_aw, offer_w,
}

continue-edges :
    {S A B : Type 0} (f : A → Test S B) (x : Result AssertionFailure A × Bench S) (n k : ℕ)
    → x.1.edges ≤ n
    → ((a : A) (b : Bench S) → (f a b).1.edges ≤ b.edges + k)
    → (((λ _. x) >>= f) x.1).1.edges ≤ n + k
continue-edges f (ok a, b) n k first rest = omega (arith, rest a b)
continue-edges f (err raised, b) n k first rest = omega arith

-- One step after another.
>>=-edges :
    {S A B : Type 0} (m : Test S A) (f : A → Test S B) (b : Bench S) (n k total : ℕ)
    → n + k ≡ total
    → (m b).1.edges ≤ n
    → ((a : A) (b' : Bench S) → (f a b').1.edges ≤ b'.edges + k)
    → ((m >>= f) b).1.edges ≤ total
>>=-edges m f b n k total e first rest = rw (← e) (continue-edges f (m b) n k first rest)

module _ (d : Dut) where
  open d use {State, rising}

  edges-after_edge : (b : Bench State) → (after_edge d b).edges ≡ b.edges + 1
  unfolding after_edge
  edges-after_edge b = omega arith

  edges-after_edges : (n : ℕ) (b : Bench State) → (after_edges d n b).edges ≡ b.edges + n
  unfolding after_edges
  edges-after_edges zero b = omega arith
  edges-after_edges (suc n) b =
      omega (arith, edges-after_edges n (after_edge d b), edges-after_edge b)

  edges-after_wait :
      (flag : Outputs → Bool) (n : ℕ) (b : Bench State)
      → (after_wait d flag n b).edges ≤ b.edges + n
  unfolding after_wait
  edges-after_wait flag zero b = omega arith
  edges-after_wait flag (suc n) b = elim (Bool-cases (flag (after_edge d b).seen)) [
    | inl shown ↦ rw (shown, after_wait) (omega (arith, edges-after_edge b))
    | inr hidden ↦
        rw (hidden, after_wait)
          (omega (arith, edges-after_edge b, edges-after_wait flag n (after_edge d b)))
  ]

  -- A flag that the device never shows: every round passes.
  waits_out :
      (n : ℕ) (b : Bench State)
      → ((i : Inputs) (s : State) → (rising i s).0.rsp_valid ≡ false)
      → after_wait d (λ o. o.rsp_valid) n b ≡ after_edges d n b
  unfolding after_wait after_edges after_edge
  waits_out zero b silent = refl
  waits_out (suc n) b silent =
      ap
        (λ (t : Bool).
          let left : Bench State = elim t [
            | true ↦ after_edge d b
            | false ↦ after_wait d (λ o. o.rsp_valid) n (after_edge d b)
          ] in
          left)
        (silent b.pins b.device)
      ∙ waits_out n (after_edge d b) silent

  edges-read_address :
      (addr stall_ar : ℕ) (b : Bench State)
      → (read_address d addr stall_ar b).1.edges ≤ b.edges + stall_ar + 201
  unfolding read_address
  edges-read_address addr stall_ar b =
      grind (arith, edges-after_edge, edges-after_edges, edges-after_wait)

  edges-read_data :
      (stall_r beat resp : ℕ) (b : Bench State)
      → (read_data d stall_r beat resp b).1.edges ≤ b.edges + stall_r + 101
  unfolding read_data
  edges-read_data stall_r beat resp b =
      grind (arith, edges-after_edge, edges-after_edges, edges-after_wait)

  edges-response : (b : Bench State) → (response d b).1.edges ≤ b.edges + 101
  unfolding response
  edges-response b = grind (arith, edges-after_edge, edges-after_wait)

  edges-accept_aw :
      (addr : ℕ) (done : Bool) (b : Bench State) → (accept_aw d addr done b).1.edges ≡ b.edges
  unfolding accept_aw
  edges-accept_aw addr true b = refl
  edges-accept_aw addr false b = ground arith

  edges-accept_w :
      (word strb : ℕ) (done : Bool) (b : Bench State)
      → (accept_w d word strb done b).1.edges ≡ b.edges
  unfolding accept_w
  edges-accept_w word strb true b = refl
  edges-accept_w word strb false b = ground arith

  -- The end of a round: the loop is left, or another round follows.
  edges-another :
      (n addr word strb : ℕ) (x y : Bool) (b : Bench State)
      → (handshakes d n addr word strb x y b).1.edges ≤ b.edges + n
      → (let last : Test State (Bool × Bool) = elim (x && y) [
        | true ↦ pure (x, y)
        | false ↦ handshakes d n addr word strb x y
      ] in
          (last b).1.edges ≤ b.edges + n)
  edges-another n addr word strb true true b h = omega arith
  edges-another n addr word strb true false b h = h
  edges-another n addr word strb false y b h = h

  edges-handshakes :
      (n addr word strb : ℕ) (aw w : Bool) (b : Bench State)
      → (handshakes d n addr word strb aw w b).1.edges ≤ b.edges + n
  unfolding handshakes
  edges-handshakes zero addr word strb aw w b = omega arith
  edges-handshakes (suc n) addr word strb aw w b =
      let last : Bool → Bool → Test State (Bool × Bool) =
        λ x y. elim (x && y) [ true ↦ pure (x, y) | false ↦ handshakes d n addr word strb x y ] in
      let offered : Bench State = record b { pins = offer_w w (offer_aw aw b.pins) } in
      >>=-edges (accept_aw d addr aw) (λ x. accept_w d word strb w >>= last x)
        (after_edge d offered) (b.edges + 1) n (b.edges + suc n) (omega arith)
        (omega (arith, edges-after_edge offered, edges-accept_aw addr aw (after_edge d offered)))
        (λ x b'.
          >>=-edges (accept_w d word strb w) (last x) b' b'.edges n (b'.edges + n) refl
            (omega (arith, edges-accept_w word strb w b'))
            (λ y b''.
              edges-another n addr word strb x y b'' (edges-handshakes n addr word strb x y b'')))

  edges-write_address :
      (addr word strb stall_aw stall_w : ℕ) (b : Bench State)
      → (write_address d addr word strb stall_aw stall_w b).1.edges
        ≤ b.edges + max stall_aw stall_w + 200
  unfolding write_address
  edges-write_address addr word strb stall_aw stall_w b =
      grind (arith, edges-after_edges, edges-after_wait, edges-handshakes)

  edges-write_response :
      (stall_b resp : ℕ) (b : Bench State)
      → (write_response d stall_b resp b).1.edges ≤ b.edges + stall_b + 101
  unfolding write_response
  edges-write_response stall_b resp b =
      grind (arith, edges-after_edge, edges-after_edges, edges-after_wait)

  -- Whatever the device does, a read ends after at most 403 edges and those of its two stalls.
  pub do_read-edges :
      (addr stall_ar stall_r beat resp : ℕ) (b : Bench State)
      → (do_read d addr stall_ar stall_r beat resp b).1.edges ≤ b.edges + stall_ar + stall_r + 403
  unfolding do_read
  do_read-edges addr stall_ar stall_r beat resp b =
      grind (arith, edges-read_address, edges-read_data, edges-response)

  -- Whatever the device does, a write ends after at most 402 edges and those of its stalls.
  pub do_write-edges :
      (addr word strb stall_aw stall_w stall_b resp : ℕ) (b : Bench State)
      → (do_write d addr word strb stall_aw stall_w stall_b resp b).1.edges
        ≤ b.edges + max stall_aw stall_w + stall_b + 402
  unfolding do_write
  do_write-edges addr word strb stall_aw stall_w stall_b resp b =
      grind (arith, edges-write_address, edges-write_response, edges-response)

  -- A device that never raises `rsp_valid` is not found out: after 101 edges the answer is what
  -- `rsp_rdata` and `rsp_err` showed at the last edge of the loop.
  pub response_unseen :
      (b : Bench State)
      → ((i : Inputs) (s : State) → (rising i s).0.rsp_valid ≡ false)
      → ((response d b).0
          ≡ ok ((after_edges d 100 b).seen.rsp_rdata, int (after_edges d 100 b).seen.rsp_err))
        × ((response d b).1.edges ≡ b.edges + 101)
  unfolding response
  response_unseen b silent =
      rw (waits_out 100 b silent) (refl, omega (arith, edges-after_edges 100 b, edges-after_edge _))
