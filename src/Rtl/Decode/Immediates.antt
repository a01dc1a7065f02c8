-- ===== src/Rtl/Decode/Immediates.antt =====
-- What the decoder reads of the immediates that the encoders of tb/cocotb/test_decode.py write.
use sisrv_platform.Prelude.{ℕ, ◌*◌, ◌%◌, ◌^◌, ◌≡◌, arith}
use sisrv_platform.Isa.Decode.{encode_i, encode_s, encode_b, encode_u, encode_j, sign_extend}
use sisrv_platform.Isa.Decode.Fields.{
  InFields, encode_i-fields, encode_s-fields, encode_b-fields, encode_u-fields, encode_j-fields,
}
use sisrv_platform.Isa.Decode.SignExtend.{sign_extend_lem}
use sisrv_platform.Rtl.Decode.{imm_i, imm_s, imm_b, imm_u, imm_j}

pub imm_i-encode_i :
    (imm12 r1 f3 d op : ℕ)
    → InFields 0 r1 f3 d op
    → imm_i (encode_i imm12 r1 f3 d op) ≡ sign_extend (imm12 % 2 ^ 12) 12
unfolding imm_i
imm_i-encode_i imm12 r1 f3 d op h =
    ground (arith, encode_i-fields imm12 r1 f3 d op h, sign_extend_lem 11 (imm12 % 2 ^ 12))

pub imm_s-encode_s :
    (imm12 r2 r1 f3 op : ℕ)
    → InFields r2 r1 f3 0 op
    → imm_s (encode_s imm12 r2 r1 f3 op) ≡ sign_extend (imm12 % 2 ^ 12) 12
unfolding imm_s
imm_s-encode_s imm12 r2 r1 f3 op h =
    ground (arith, encode_s-fields imm12 r2 r1 f3 op h, sign_extend_lem 11 (imm12 % 2 ^ 12))

pub imm_u-encode_u :
    (imm20 d op : ℕ) → InFields 0 0 0 d op → imm_u (encode_u imm20 d op) ≡ imm20 % 2 ^ 20 * 2 ^ 12
unfolding imm_u
imm_u-encode_u imm20 d op h = ground (arith, encode_u-fields imm20 d op h)

-- The decoder's immediate of a branch to an even offset, of operands that fit, is the offset's 13 low
-- bits with their sign extended, as the test's sign_extend has it.
pub imm_b-encode_b :
    (imm13 r2 r1 f3 op : ℕ)
    → imm13 % 2 ≡ 0
    → InFields r2 r1 f3 0 op
    → imm_b (encode_b imm13 r2 r1 f3 op) ≡ sign_extend (imm13 % 2 ^ 13) 13
unfolding imm_b
imm_b-encode_b imm13 r2 r1 f3 op u h =
    ground (arith, encode_b-fields imm13 r2 r1 f3 op u h, sign_extend_lem 12 (imm13 % 2 ^ 13))

-- The decoder's immediate of a jump to an even offset, of operands that fit, is the offset's 21 low
-- bits with their sign extended.
pub imm_j-encode_j :
    (imm21 d op : ℕ)
    → imm21 % 2 ≡ 0
    → InFields 0 0 0 d op
    → imm_j (encode_j imm21 d op) ≡ sign_extend (imm21 % 2 ^ 21) 21
unfolding imm_j
imm_j-encode_j imm21 d op u h =
    ground (arith, encode_j-fields imm21 d op u h, sign_extend_lem 20 (imm21 % 2 ^ 21))
