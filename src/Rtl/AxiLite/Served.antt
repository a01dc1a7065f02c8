-- ===== src/Rtl/AxiLite/Served.antt =====
-- What crosses the ports of the bridge in the long run: the transfers of one transaction after
-- another, each in its order.
use sisrv_platform.Prelude.{ℕ, Bool, not, ◌&&◌, ◌==◌, if◌then◌else◌, List, [], ◌∷◌, ◌++◌, ◌≡◌}
use sisrv_platform.Rtl.AxiLite.{Inputs, Outputs, Registers, outputs, clocked}

-- A handshake, with what it carries.
pub data Transfer : Type 0 where
  read_request : (addr : ℕ) → Transfer
  write_request : (addr word strb : ℕ) → Transfer
  ar : (addr : ℕ) → Transfer
  r : (word resp : ℕ) → Transfer
  aw : (addr : ℕ) → Transfer
  w : (word strb : ℕ) → Transfer
  b : (resp : ℕ) → Transfer
  response : (word : ℕ) (error : Bool) → Transfer

-- A transfer where its handshake takes place.
abbrev when : Bool → Transfer → List Transfer → List Transfer
when fires t ts = if fires then t ∷ ts else ts

-- The handshakes at an edge.
unfoldable pub transfers : Inputs → Outputs → List Transfer
transfers i o =
    when (o.req_ready && i.req_valid)
      (if i.req_we
        then write_request i.req_addr i.req_wdata i.req_wstrb
        else read_request i.req_addr)
      (when (o.arvalid && i.arready) (ar o.araddr) (
        when (o.rready && i.rvalid) (r i.rdata i.rresp) (
          when (o.awvalid && i.awready) (aw o.awaddr) (
            when (o.wvalid && i.wready) (w o.wdata o.wstrb) (
              when (o.bready && i.bvalid) (b i.bresp)
                (when (o.rsp_valid && i.rsp_ready) (response o.rsp_rdata o.rsp_err) []))))))

-- The handshakes of a run out of reset, edge by edge.
unfoldable pub run_transfers : Registers → List Inputs → List Transfer
run_transfers s [] = []
run_transfers s (i ∷ is) = transfers i (outputs s) ++ run_transfers (clocked i s) is

-- A whole transaction: what is asked is what goes out, and what comes back is what is answered. The
-- address and the data of a write go out in either order.
pub data IsTransaction : List Transfer → Type 0 where
  is_read :
      (addr word resp : ℕ) (ts : List Transfer)
      → ts ≡ read_request addr ∷ ar addr ∷ r word resp ∷ response word (not (resp == 0)) ∷ []
      → IsTransaction ts
  is_write :
      (addr word strb resp : ℕ) (w_first : Bool) (ts : List Transfer)
      → ts
        ≡ write_request addr word strb
            ∷ (if w_first then w word strb ∷ aw addr ∷ [] else aw addr ∷ w word strb ∷ [])
          ++ (b resp ∷ response 0 (not (resp == 0)) ∷ [])
      → IsTransaction ts

-- Whole transactions, and then the start of one more.
pub data IsServed : List Transfer → Type 0 where
  started : (ts rest : List Transfer) → IsTransaction (ts ++ rest) → IsServed ts
  served :
      (first ts whole : List Transfer)
      → IsTransaction first
      → IsServed ts
      → whole ≡ first ++ ts
      → IsServed whole
