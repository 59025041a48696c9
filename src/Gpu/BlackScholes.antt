-- ===== src/Gpu/BlackScholes.antt =====
-- src/gpu/gpu_kernels.cu, the Black-Scholes-Merton prices, and src/gpu/gpu_pricing_kernels.cu, their
-- first and further derivatives: the formulas and the host functions. The `double`s are a parameter:
-- a type with the operations and the constants that the formulas use, each rounded as it will. Where nvcc may contract a
-- product and a sum, they are one operation.
pub mod Grid
pub mod Result
use nimble_cas.Prelude.{
  ℕ, ◌+◌, ◌-◌, ◌*◌, ◌/◌, List, Bool, ◌&&◌, ◌||◌, not, ltb, ◌==◌, if◌then◌else◌,
}
use nimble_cas.Prelude.Int.{ℤ}
use nimble_cas.Cuda.Calls.{Call, Gpu, pure, ◌>>=◌, ◌>>◌, call}
use nimble_cas.Cuda.Host.{capped_blocks}
use nimble_cas.Cuda.Device.{choose_blocks}
use nimble_cas.Cuda.Grid.{grid_stride}
use nimble_cas.Cuda.Wrap.{int_grid_stride}
use nimble_cas.Gpu.Options.{BsOption, Slot, option_batch}

pub record Formulas (D : Type 0) : Type 0 where
  pub add : D → D → D
  pub sub : D → D → D
  pub mul : D → D → D
  pub div : D → D → D
  -- x * y + c, x * y - c, c - x * y, a * x - b * y and a * x + b * y, each rounded once or more.
  pub mul_add : D → D → D → D
  pub mul_less : D → D → D → D
  pub less_mul : D → D → D → D
  pub mul_less_mul : D → D → D → D → D
  pub mul_add_mul : D → D → D → D → D
  pub fmax : D → D → D
  pub neg : D → D
  pub exp : D → D
  pub log : D → D
  pub sqrt : D → D
  pub erfc : D → D
  pub equals : D → D → Bool
  pub below : D → D → Bool
  pub nought : D
  pub half : D
  pub one : D
  pub two : D
  pub inv_sqrt_2 : D
  pub inv_sqrt_2_pi : D
  pub bump : D

-- struct NimblecasBsGreeks
pub record BsGreeks (D : Type 0) : Type 0 where
  pub price : D
  pub delta : D
  pub gamma : D
  pub vega : D
  pub theta : D
  pub rho : D

-- struct NimblecasBsExtGreeks
pub record BsExtGreeks (D : Type 0) : Type 0 where
  pub vanna : D
  pub charm : D
  pub vomma : D
  pub veta : D
  pub speed : D
  pub zomma : D
  pub color : D
  pub lambda : D
  pub dual_delta : D
  pub dual_gamma : D
  pub epsilon : D
  pub vera : D
  pub ultima : D

-- bs_blocks
unfoldable pub bs_blocks : {A : Type 0} → ℕ → ℕ → Gpu A ℕ
bs_blocks n threads = do
  let by_n64 = (n + threads - 1) / threads
  let by_n = if ltb 0 by_n64 then by_n64 else 1
  reply ← call (Call.multi_processor_count 0)
  if ((reply.status == 0) && ltb 0 reply.number)
      then pure (capped_blocks (reply.number * 32) by_n)
      else (do call Call.get_last_error; pure (if ltb by_n 1 then 1 else by_n))

module _ {D : Type 0} (ops : Formulas D) where
  infixl 65 ◌⊕◌ ◌⊖◌
  infixl 70 ◌⊗◌ ◌⊘◌
  abbrev ◌⊕◌ : D → D → D
  x ⊕ y = ops.add x y

  abbrev ◌⊖◌ : D → D → D
  x ⊖ y = ops.sub x y

  abbrev ◌⊗◌ : D → D → D
  x ⊗ y = ops.mul x y

  abbrev ◌⊘◌ : D → D → D
  x ⊘ y = ops.div x y

  unfoldable pub bs_norm_cdf : D → D
  bs_norm_cdf x = ops.half ⊗ ops.erfc (ops.neg x ⊗ ops.inv_sqrt_2)

  -- T == 0.0 || v == 0.0
  abbrev pub is_degenerate : BsOption D → Bool
  is_degenerate o = ops.equals o.time ops.nought || ops.equals o.volatility ops.nought

  -- exp(-r * T) * intrinsic
  unfoldable pub discounted_intrinsic : BsOption D → D
  discounted_intrinsic o =
      let growth = ops.exp ((o.rate ⊖ o.dividend) ⊗ o.time) in
      let intr =
        if o.is_call == 0
        then ops.fmax (ops.less_mul o.strike o.spot growth) ops.nought
        else ops.fmax (ops.mul_less o.spot growth o.strike) ops.nought in
      ops.exp (ops.neg o.rate ⊗ o.time) ⊗ intr

  abbrev pub d1_of : BsOption D → D
  d1_of o =
      ops.mul_add (ops.mul_add (ops.half ⊗ o.volatility) o.volatility (o.rate ⊖ o.dividend)) o.time
        (ops.log (o.spot ⊘ o.strike))
      ⊘ (o.volatility ⊗ ops.sqrt o.time)

  -- The price that black_scholes_kernel stores.
  unfoldable pub black_scholes_price : BsOption D → D
  black_scholes_price o =
      if is_degenerate o
      then discounted_intrinsic o
      else (let sq = ops.sqrt o.time in
          let d1 = d1_of o in
          let d2 = ops.less_mul d1 o.volatility sq in
          let dr = ops.exp (ops.neg o.rate ⊗ o.time) in
          let dq = ops.exp (ops.neg o.dividend ⊗ o.time) in
          if o.is_call == 0
          then ops.mul_less_mul (o.strike ⊗ dr) (bs_norm_cdf (ops.neg d2)) (o.spot ⊗ dq)
              (bs_norm_cdf (ops.neg d1))
          else ops.mul_less_mul (o.spot ⊗ dq) (bs_norm_cdf d1) (o.strike ⊗ dr) (bs_norm_cdf d2))

  -- nc_bs_greeks, at T == 0 or v == 0: the fields that are not set are 0.0.
  unfoldable pub degenerate_greeks : BsOption D → BsGreeks D
  degenerate_greeks o =
      let fwd = o.spot ⊗ ops.exp ((o.rate ⊖ o.dividend) ⊗ o.time) in
      let disc_q = ops.exp (ops.neg o.dividend ⊗ o.time) in
      record {
        price = discounted_intrinsic o;
        delta =
            if o.is_call == 0
            then (if ops.below fwd o.strike then ops.neg disc_q else ops.nought)
            else (if ops.below o.strike fwd then disc_q else ops.nought);
        gamma = ops.nought;
        vega = ops.nought;
        theta = ops.nought;
        rho = ops.nought;
      }

  -- The rest of nc_bs_greeks.
  unfoldable pub analytic_greeks : BsOption D → BsGreeks D
  analytic_greeks o =
      let sqrt_t = ops.sqrt o.time in
      let d1 = d1_of o in
      let d2 = ops.less_mul d1 o.volatility sqrt_t in
      let disc_r = ops.exp (ops.neg o.rate ⊗ o.time) in
      let disc_q = ops.exp (ops.neg o.dividend ⊗ o.time) in
      let norm_cdf_d1 = ops.half ⊗ ops.erfc (ops.neg d1 ⊗ ops.inv_sqrt_2) in
      let norm_cdf_neg_d1 = ops.half ⊗ ops.erfc (d1 ⊗ ops.inv_sqrt_2) in
      let norm_cdf_d2 = ops.half ⊗ ops.erfc (ops.neg d2 ⊗ ops.inv_sqrt_2) in
      let norm_cdf_neg_d2 = ops.half ⊗ ops.erfc (d2 ⊗ ops.inv_sqrt_2) in
      let pdf_d1 = ops.inv_sqrt_2_pi ⊗ ops.exp (ops.neg ops.half ⊗ d1 ⊗ d1) in
      let decay = ops.neg o.spot ⊗ disc_q ⊗ pdf_d1 ⊗ o.volatility ⊘ (ops.two ⊗ sqrt_t) in
      let put = o.is_call == 0 in
      record {
        price =
            if put
            then ops.mul_less_mul (o.strike ⊗ disc_r) norm_cdf_neg_d2 (o.spot ⊗ disc_q)
                norm_cdf_neg_d1
            else ops.mul_less_mul (o.spot ⊗ disc_q) norm_cdf_d1 (o.strike ⊗ disc_r) norm_cdf_d2;
        delta = if put then ops.neg disc_q ⊗ norm_cdf_neg_d1 else disc_q ⊗ norm_cdf_d1;
        gamma = disc_q ⊗ pdf_d1 ⊘ (o.spot ⊗ o.volatility ⊗ sqrt_t);
        vega = o.spot ⊗ disc_q ⊗ pdf_d1 ⊗ sqrt_t;
        theta =
            if put
            then ops.less_mul (ops.mul_add (o.rate ⊗ o.strike ⊗ disc_r) norm_cdf_neg_d2 decay)
                (o.dividend ⊗ o.spot ⊗ disc_q) norm_cdf_neg_d1
            else ops.mul_add (o.dividend ⊗ o.spot ⊗ disc_q) norm_cdf_d1
                (ops.less_mul decay (o.rate ⊗ o.strike ⊗ disc_r) norm_cdf_d2);
        rho =
            if put
            then ops.neg o.strike ⊗ o.time ⊗ disc_r ⊗ norm_cdf_neg_d2
            else o.strike ⊗ o.time ⊗ disc_r ⊗ norm_cdf_d2;
      }

  unfoldable pub bs_greeks : BsOption D → BsGreeks D
  bs_greeks o = if is_degenerate o then degenerate_greeks o else analytic_greeks o

  -- nc_bs_greeks at another time or another volatility.
  abbrev pub greeks_at_time : BsOption D → D → BsGreeks D
  greeks_at_time o t = bs_greeks (record {
    spot = o.spot;
    strike = o.strike;
    rate = o.rate;
    dividend = o.dividend;
    volatility = o.volatility;
    time = t;
    is_call = o.is_call;
  })

  abbrev pub greeks_at_volatility : BsOption D → D → BsGreeks D
  greeks_at_volatility o sig = bs_greeks (record {
    spot = o.spot;
    strike = o.strike;
    rate = o.rate;
    dividend = o.dividend;
    volatility = sig;
    time = o.time;
    is_call = o.is_call;
  })

  -- What bs_extended_greeks_kernel stores.
  unfoldable pub bs_extended_greeks : BsOption D → BsExtGreeks D
  bs_extended_greeks o =
      let sig = o.volatility in
      let sqrt_t = ops.sqrt o.time in
      let d1 = d1_of o in
      let d2 = ops.less_mul d1 sig sqrt_t in
      let phi = ops.inv_sqrt_2_pi ⊗ ops.exp (ops.neg ops.half ⊗ d1 ⊗ d1) in
      let disc_q = ops.exp (ops.neg o.dividend ⊗ o.time) in
      let disc_r = ops.exp (ops.neg o.rate ⊗ o.time) in
      let gamma = disc_q ⊗ phi ⊘ (o.spot ⊗ sig ⊗ sqrt_t) in
      let vega = o.spot ⊗ disc_q ⊗ phi ⊗ sqrt_t in
      let base = bs_greeks o in
      let norm_cdf_d1 = ops.half ⊗ ops.erfc (ops.neg d1 ⊗ ops.inv_sqrt_2) in
      let norm_cdf_neg_d1 = ops.half ⊗ ops.erfc (d1 ⊗ ops.inv_sqrt_2) in
      let norm_cdf_d2 = ops.half ⊗ ops.erfc (ops.neg d2 ⊗ ops.inv_sqrt_2) in
      let norm_cdf_neg_d2 = ops.half ⊗ ops.erfc (d2 ⊗ ops.inv_sqrt_2) in
      let put = o.is_call == 0 in
      let h = ops.bump ⊗ o.time in
      let up = greeks_at_time o (ops.mul_add ops.bump o.time o.time) in
      let dn = greeks_at_time o (ops.less_mul o.time ops.bump o.time) in
      let hv = ops.bump ⊗ sig in
      let upv = greeks_at_volatility o (ops.mul_add ops.bump sig sig) in
      let dnv = greeks_at_volatility o (ops.less_mul sig ops.bump sig) in
      record {
        vanna = ops.neg disc_q ⊗ phi ⊗ d2 ⊘ sig;
        charm = (up.delta ⊖ dn.delta) ⊘ (ops.two ⊗ h);
        vomma = vega ⊗ d1 ⊗ d2 ⊘ sig;
        veta = ops.neg (up.vega ⊖ dn.vega) ⊘ (ops.two ⊗ h);
        speed = ops.neg gamma ⊘ o.spot ⊗ (d1 ⊘ (sig ⊗ sqrt_t) ⊕ ops.one);
        zomma = gamma ⊗ ops.mul_less d1 d2 ops.one ⊘ sig;
        color = ops.neg (up.gamma ⊖ dn.gamma) ⊘ (ops.two ⊗ h);
        lambda =
            if not (ops.equals base.price ops.nought)
            then base.delta ⊗ o.spot ⊘ base.price
            else ops.nought;
        dual_delta = if put then disc_r ⊗ norm_cdf_neg_d2 else ops.neg disc_r ⊗ norm_cdf_d2;
        dual_gamma =
            disc_r
            ⊗ (ops.inv_sqrt_2_pi ⊗ ops.exp (ops.neg ops.half ⊗ d2 ⊗ d2))
            ⊘ (o.strike ⊗ sig ⊗ sqrt_t);
        epsilon =
            if put
            then o.spot ⊗ o.time ⊗ disc_q ⊗ norm_cdf_neg_d1
            else ops.neg o.spot ⊗ o.time ⊗ disc_q ⊗ norm_cdf_d1;
        vera = (upv.rho ⊖ dnv.rho) ⊘ (ops.two ⊗ hv);
        ultima =
            ops.neg vega
            ⊘ (sig ⊗ sig)
            ⊗ ops.mul_add d2 d2 (ops.mul_add_mul (d1 ⊗ d2) (ops.less_mul ops.one d1 d2) d1 d1);
      }

  abbrev pub blank_option : BsOption D
  blank_option = record {
    spot = ops.nought;
    strike = ops.nought;
    rate = ops.nought;
    dividend = ops.nought;
    volatility = ops.nought;
    time = ops.nought;
    is_call = 0;
  }

  -- The three host functions, with the sizes of an option and of a result.
  unfoldable pub black_scholes_batch :
      List (BsOption D) → ℤ → Gpu (Slot (BsOption D) D) (List (Slot (BsOption D) D))
  black_scholes_batch opts n =
      option_batch blank_option int_grid_stride black_scholes_price bs_blocks 56 8 opts n

  unfoldable pub bs_greeks_batch :
      List (BsOption D)
      → ℤ
      → Gpu (Slot (BsOption D) (BsGreeks D)) (List (Slot (BsOption D) (BsGreeks D)))
  bs_greeks_batch opts n =
      option_batch blank_option grid_stride bs_greeks choose_blocks 56 48 opts n

  unfoldable pub bs_extended_greeks_batch :
      List (BsOption D)
      → ℤ
      → Gpu (Slot (BsOption D) (BsExtGreeks D)) (List (Slot (BsOption D) (BsExtGreeks D)))
  bs_extended_greeks_batch opts n =
      option_batch blank_option grid_stride bs_extended_greeks choose_blocks 56 104 opts n
