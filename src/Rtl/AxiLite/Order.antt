-- ===== src/Rtl/AxiLite/Order.antt =====
-- Every run of the bridge is served: the handshakes follow the registers.
use sisrv_platform.Prelude.{
  ℕ, Bool, true, false, not, ◌&&◌, ◌==◌, if◌then◌else◌, List, [], ◌∷◌, ◌++◌, ◌≡◌, refl, sym, ap,
  ◌∙◌, subst, append_assoc, append-nil, arith,
}
use sisrv_platform.Rtl.AxiLite.{
  Inputs, Registers, Phase, s_idle, s_rd_addr, s_rd_data, s_wr_addr, s_wr_resp, s_rsp, outputs,
  clocked, reset_values,
}
use sisrv_platform.Rtl.AxiLite.Served.{
  Transfer, read_request, write_request, ar, r, aw, w, b, transfers, run_transfers, IsTransaction,
  is_read, is_write, IsServed, started, served,
}

-- The handshakes of a write's address and data.
abbrev both : Bool → Registers → List Transfer
both w_first s =
    if w_first
    then w s.wdata_reg s.wstrb_reg ∷ aw s.addr_reg ∷ []
    else aw s.addr_reg ∷ w s.wdata_reg s.wstrb_reg ∷ []

-- The part of a transaction that the registers stand for. The order of a write's two handshakes, and
-- the response that was taken, are not kept in a register.
abbrev begun : Phase → Registers → Bool → ℕ → List Transfer
begun s_idle s w_first resp = []
begun s_rd_addr s w_first resp = read_request s.addr_reg ∷ []
begun s_rd_data s w_first resp = read_request s.addr_reg ∷ ar s.addr_reg ∷ []
begun s_wr_addr s w_first resp =
    write_request s.addr_reg s.wdata_reg s.wstrb_reg
    ∷ (if s.aw_done
        then aw s.addr_reg ∷ []
        else if s.w_done
        then w s.wdata_reg s.wstrb_reg ∷ []
        else [])
begun s_wr_resp s w_first resp = write_request s.addr_reg s.wdata_reg s.wstrb_reg ∷ both w_first s
begun s_rsp s w_first resp =
    if s.we_reg
    then write_request s.addr_reg s.wdata_reg s.wstrb_reg ∷ (both w_first s ++ (b resp ∷ []))
    else read_request s.addr_reg ∷ ar s.addr_reg ∷ r s.rdata_reg resp ∷ []

abbrev pending : Registers → Bool → ℕ → List Transfer
pending s = begun s.state s

-- What holds of the registers in each phase.
abbrev IsSound : Phase → Registers → ℕ → Type 0
IsSound s_idle s resp = Unit
IsSound s_rd_addr s resp = s.we_reg ≡ false
IsSound s_rd_data s resp = s.we_reg ≡ false
IsSound s_wr_addr s resp = (s.we_reg ≡ true) × (s.aw_done && s.w_done ≡ false)
IsSound s_wr_resp s resp = s.we_reg ≡ true
IsSound s_rsp s resp = (s.err_reg ≡ not (resp == 0)) × (s.we_reg ≡ true → s.rdata_reg ≡ 0)

-- An edge takes the transaction further, or ends it.
data Advance (i : Inputs) (s : Registers) (w_first : Bool) (resp : ℕ) : Type 0 where
  goes_on :
      (w_first' : Bool) (resp' : ℕ)
      → IsSound (clocked i s).state (clocked i s) resp'
      → pending (clocked i s) w_first' resp' ≡ pending s w_first resp ++ transfers i (outputs s)
      → Advance i s w_first resp
  ends :
      IsTransaction (pending s w_first resp ++ transfers i (outputs s))
      → (clocked i s).state ≡ s_idle
      → Advance i s w_first resp

at_phase :
    (phase : Phase) (i : Inputs) (s : Registers) (f : Bool) (k : ℕ)
    → s.state ≡ phase
    → Advance i (record s { state = phase }) f k
    → Advance i s f k
at_phase phase i s f k e h = subst (λ (p : Phase). Advance i (record s { state = p }) f k) (sym e) h

on_request :
    (valid we : Bool) (i : Inputs) (s : Registers) (f : Bool) (k : ℕ)
    → Advance (record i { req_valid = valid; req_we = we }) (record s { state = s_idle }) f k
unfolding clocked outputs transfers
on_request false we i s f k = goes_on f k tt refl
on_request true true i s f k = goes_on f k (refl, refl) refl
on_request true false i s f k = goes_on f k refl refl

on_read_address :
    (ready : Bool) (i : Inputs) (s : Registers) (f : Bool) (k : ℕ)
    → s.we_reg ≡ false
    → Advance (record i { arready = ready }) (record s { state = s_rd_addr }) f k
unfolding clocked outputs transfers
on_read_address false i s f k h = goes_on f k h refl
on_read_address true i s f k h = goes_on f k h refl

on_read_data :
    (valid : Bool) (i : Inputs) (s : Registers) (f : Bool) (k : ℕ)
    → s.we_reg ≡ false
    → Advance (record i { rvalid = valid }) (record s { state = s_rd_data }) f k
unfolding clocked outputs transfers
on_read_data false i s f k h = goes_on f k h refl
on_read_data true i s f k h = goes_on f i.rresp (refl, λ e. absurd (ground arith)) (rw h refl)

on_write_address :
    (aw_ready w_ready aw_gone w_gone : Bool) (i : Inputs) (s : Registers) (f : Bool) (k : ℕ)
    → s.we_reg ≡ true
    → aw_gone && w_gone ≡ false
    → Advance
        (record i { awready = aw_ready; wready = w_ready })
        (record s { state = s_wr_addr; aw_done = aw_gone; w_done = w_gone })
        f
        k
unfolding clocked outputs transfers
on_write_address x y true true i s f k h g = cc
on_write_address x false true false i s f k h g = goes_on f k (h, refl) refl
on_write_address x true true false i s f k h g = goes_on false k h refl
on_write_address false y false true i s f k h g = goes_on f k (h, refl) refl
on_write_address true y false true i s f k h g = goes_on true k h refl
on_write_address false false false false i s f k h g = goes_on f k (h, refl) refl
on_write_address false true false false i s f k h g = goes_on f k (h, refl) refl
on_write_address true false false false i s f k h g = goes_on f k (h, refl) refl
on_write_address true true false false i s f k h g = goes_on false k h refl

on_write_response :
    (valid : Bool) (i : Inputs) (s : Registers) (f : Bool) (k : ℕ)
    → s.we_reg ≡ true
    → Advance (record i { bvalid = valid }) (record s { state = s_wr_resp }) f k
unfolding clocked outputs transfers
on_write_response false i s f k h = goes_on f k h (simp append-nil)
on_write_response true i s f k h = goes_on f i.bresp (refl, λ e. refl) (rw h refl)

on_response :
    (ready we : Bool) (i : Inputs) (s : Registers) (f : Bool) (k : ℕ)
    → s.err_reg ≡ not (k == 0)
    → (we ≡ true → s.rdata_reg ≡ 0)
    → Advance (record i { rsp_ready = ready }) (record s { state = s_rsp; we_reg = we }) f k
unfolding clocked outputs transfers
on_response false true i s f k e z = goes_on f k (e, z) (simp append-nil)
on_response false false i s f k e z = goes_on f k (e, z) refl
on_response true false i s f k e z = ends (is_read s.addr_reg s.rdata_reg k _ (rw e refl)) refl
on_response true true i s true k e z =
    ends (is_write s.addr_reg s.wdata_reg s.wstrb_reg k true _ (rw (e, z refl) refl)) refl
on_response true true i s false k e z =
    ends (is_write s.addr_reg s.wdata_reg s.wstrb_reg k false _ (rw (e, z refl) refl)) refl

-- Every phase.
on_edge :
    (phase : Phase) (i : Inputs) (s : Registers) (f : Bool) (k : ℕ)
    → s.state ≡ phase
    → IsSound phase s k
    → Advance i s f k
on_edge s_idle i s f k e h = at_phase s_idle i s f k e (on_request i.req_valid i.req_we i s f k)
on_edge s_rd_addr i s f k e h = at_phase s_rd_addr i s f k e (on_read_address i.arready i s f k h)
on_edge s_rd_data i s f k e h = at_phase s_rd_data i s f k e (on_read_data i.rvalid i s f k h)
on_edge s_wr_addr i s f k e h =
    at_phase s_wr_addr i s f k e
      (on_write_address i.awready i.wready s.aw_done s.w_done i s f k h.0 h.1)
on_edge s_wr_resp i s f k e h = at_phase s_wr_resp i s f k e (on_write_response i.bvalid i s f k h)
on_edge s_rsp i s f k e h =
    at_phase s_rsp i s f k e (on_response i.rsp_ready s.we_reg i s f k h.0 h.1)

rest_of_addresses :
    (x y : Bool) (s : Registers)
    → x && y ≡ false
    → (rest : List Transfer) × IsTransaction
        (begun s_wr_addr (record s { aw_done = x; w_done = y }) false 0 ++ rest)
rest_of_addresses true true s h = cc
rest_of_addresses true false s h = (_, is_write s.addr_reg s.wdata_reg s.wstrb_reg 0 false _ refl)
rest_of_addresses false true s h = (_, is_write s.addr_reg s.wdata_reg s.wstrb_reg 0 true _ refl)
rest_of_addresses false false s h = (_, is_write s.addr_reg s.wdata_reg s.wstrb_reg 0 false _ refl)

rest_of_answer :
    (we f : Bool) (s : Registers) (k : ℕ)
    → (rest : List Transfer) × IsTransaction (begun s_rsp (record s { we_reg = we }) f k ++ rest)
rest_of_answer false f s k = (_, is_read s.addr_reg s.rdata_reg k _ refl)
rest_of_answer true false s k = (_, is_write s.addr_reg s.wdata_reg s.wstrb_reg k false _ refl)
rest_of_answer true true s k = (_, is_write s.addr_reg s.wdata_reg s.wstrb_reg k true _ refl)

-- What a transaction still needs.
rest_of :
    (phase : Phase) (s : Registers) (f : Bool) (k : ℕ)
    → IsSound phase s k
    → (rest : List Transfer) × IsTransaction (begun phase s f k ++ rest)
rest_of s_idle s f k h = (_, is_read 0 0 0 _ refl)
rest_of s_rd_addr s f k h = (_, is_read s.addr_reg 0 0 _ refl)
rest_of s_rd_data s f k h = (_, is_read s.addr_reg 0 0 _ refl)
rest_of s_wr_addr s f k h = rest_of_addresses s.aw_done s.w_done s h.1
rest_of s_wr_resp s f k h = (_, is_write s.addr_reg s.wdata_reg s.wstrb_reg 0 f _ refl)
rest_of s_rsp s f k h = rest_of_answer s.we_reg f s k

serves :
    (is : List Inputs) (s : Registers) (f : Bool) (k : ℕ)
    → IsSound s.state s k
    → IsServed (pending s f k ++ run_transfers s is)
unfolding run_transfers
serves [] s f k h =
    let (rest, whole) = rest_of s.state s f k h in
    started _ rest (
      subst (λ (ts : List Transfer). IsTransaction (ts ++ rest)) (sym (append-nil (pending s f k)))
        whole)
serves (i ∷ is) s f k h = further (on_edge s.state i s f k refl h) (serves is (clocked i s))
  where
    further :
        Advance i s f k
        → ((f' : Bool) (k' : ℕ)
            → IsSound (clocked i s).state (clocked i s) k'
            → IsServed (pending (clocked i s) f' k' ++ run_transfers (clocked i s) is))
        → IsServed (pending s f k ++ (transfers i (outputs s) ++ run_transfers (clocked i s) is))
    further (goes_on f' k' sound e) next =
        subst IsServed
          (ap (λ (t : List Transfer). t ++ run_transfers (clocked i s) is) e
            ∙ append_assoc (pending s f k) (transfers i (outputs s))
                (run_transfers (clocked i s) is))
          (next f' k' sound)
    further (ends whole idle) next =
        served (pending s f k ++ transfers i (outputs s)) (run_transfers (clocked i s) is) _ whole
          (subst
            (λ (p : Phase). IsServed (begun p (clocked i s) f k ++ run_transfers (clocked i s) is))
            idle (next f k (subst (λ (p : Phase). IsSound p (clocked i s) k) (sym idle) tt)))
          (sym (
            append_assoc (pending s f k) (transfers i (outputs s))
              (run_transfers (clocked i s) is)))

-- From reset, whatever is driven and however long, the handshakes at the ports are those of whole
-- transactions, one after another, and of the start of one more: a read passes on the address that
-- was asked, takes one beat and answers with its data and its error; a write passes on the address,
-- the data and the strobes that were asked, each once and in either order, takes one response and
-- answers with its error.
pub run_transfers-IsServed : (is : List Inputs) → IsServed (run_transfers reset_values is)
run_transfers-IsServed is = serves is reset_values false 0 tt
