-- ===== src/Node/Rpc.antt =====
-- node/src/rpc.rs: the RPC module of the node.
use nexusguild.Base.{Result, ok, and_then}
use nexusguild.Node.Service.Host.{Types, Host}

module _ (Y : Types) where
  -- `FullDeps`
  pub record FullDeps : Type 0 where
    pub client : Y.Client
    pub pool : Y.Pool

module _ (Y : Types) (H : Host Y) where
  -- `create_full`: the module with the RPCs of the system merged in, then those of the payment.
  unfoldable pub create_full : FullDeps Y → Result Y.RpcError Y.RpcModule
  create_full deps =
      and_then (H.rpc_merge H.rpc_new (H.system_rpc deps.client deps.pool)) λ module_1.
        and_then (H.rpc_merge module_1 (H.transaction_payment_rpc deps.client))
          λ module_2. ok module_2
