-- ===== src/Group/Dispatch.antt =====
-- `submit_transfer_request` of fabric-lib/src/domain_group.rs.
use pplx_garden_cxi.Common.{ℕ, Option, [], ◌∷◌}
use pplx_garden_cxi.Api.{
  Action, TransferRequest, imm, barrier, single, paged, scatter, TransferCounter,
}
use pplx_garden_cxi.Provider.{RdmaDomain}
use pplx_garden_cxi.Group.{DomainGroup}
use pplx_garden_cxi.Group.Imm.{submit_imm_transfer_request}
use pplx_garden_cxi.Group.Single.{submit_single_transfer_request}
use pplx_garden_cxi.Group.Paged.{submit_paged_transfer_request}
use pplx_garden_cxi.Group.Scatter.{submit_scatter_transfer_request}

module _ {D : Type 0} (R : RdmaDomain D) where
  unfoldable pub submit_transfer_request :
      ℕ → TransferRequest → Option TransferCounter → Action (DomainGroup D) (Unit {0})
  submit_transfer_request id (imm r) tx =
      submit_imm_transfer_request R id r.imm_data (r.dst_mr ∷ []) r.routing tx
  submit_transfer_request id (barrier r) tx =
      submit_imm_transfer_request R id r.imm_data r.dst_mrs r.routing tx
  submit_transfer_request id (single r) tx = submit_single_transfer_request R id r tx
  submit_transfer_request id (paged r) tx = submit_paged_transfer_request R id r tx
  submit_transfer_request id (scatter r) tx = submit_scatter_transfer_request R r id tx
