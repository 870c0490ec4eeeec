-- ===== src/Node/Service/Wiring.antt =====
-- node/src/service.rs and node/src/rpc.rs: what the parts of the node are given.
use mathlib.Core.List.{Nodup, Pairwise-append}
use mathlib.Core.Path.{subst}
use nexusguild.Base.{
  refl, sym, inl, inr, Result, Result-cases, ok-ne-err, String, none, some, ok, err, ◌≡◌, ◌↔◌, ◌∙◌,
  ap, List, [], ◌++◌, arith,
}
use nexusguild.Node.Rpc.{FullDeps, create_full}
use nexusguild.Node.Service.Host.{Types, Host, Configuration, full, authority}
use nexusguild.Node.Service.Partial.{
  PartialComponents, import_providers, author_providers, grandpa_justification_period,
}
use nexusguild.Node.Service.Full.{NetworkParts, grandpa_params}

module _ (Y : Types) (H : Host Y) where
  -- The author and the importer of a block compute the same slot at every time, where the slot
  -- duration at the parent block is the one that the author read when it was started; where the
  -- duration at the parent cannot be read, the importer fails with that error.
  import_providers-author_providers :
      (client : Y.Client) (parent : Y.Hash) (now : Y.Timestamp) (duration : Y.SlotDuration)
      → (H.slot_duration_at client parent ≡ ok duration
          → import_providers Y H client parent now ≡ author_providers Y H duration parent now)
        × ((e : Y.Error)
            → H.slot_duration_at client parent ≡ err e
            → import_providers Y H client parent now ≡ err e)
  unfolding import_providers author_providers
  import_providers-author_providers client parent now duration = (λ h. rw h, λ e h. rw h)

  -- The GRANDPA voter has the keystore exactly on an authority. On every node it has the role of
  -- the node, and its justification period is that of the block import.
  grandpa_params-keystore :
      (config : Configuration Y) (parts : PartialComponents Y) (net : NetworkParts Y)
      → let params = grandpa_params Y H config parts net in
        ((params.config.keystore ≡ some (H.keystore parts.keystore_container))
          ↔ (config.role ≡ authority))
        × ((params.config.keystore ≡ none) ↔ (config.role ≡ full))
        × (params.config.local_role ≡ config.role)
        × (params.config.justification_generation_period ≡ grandpa_justification_period)
  unfolding grandpa_params
  grandpa_params-keystore config parts net = ground arith

  -- What jsonrpsee documents of modules: merging succeeds exactly for modules whose methods all
  -- differ, and then joins their methods; a new module has none.
  pub record IsRpc (methods : Y.RpcModule → List String) : Type 0 where
    pub new_module : methods H.rpc_new ≡ []
    pub merges :
        (a b : Y.RpcModule)
        → Nodup (methods a ++ methods b)
        → (c : Y.RpcModule) × (H.rpc_merge a b ≡ ok c) × (methods c ≡ methods a ++ methods b)
    pub clashes : (a b c : Y.RpcModule) → H.rpc_merge a b ≡ ok c → Nodup (methods a ++ methods b)

  module _ (methods : Y.RpcModule → List String) (R : IsRpc methods) where
    abbrev names : Result Y.RpcError Y.RpcModule → List String
    names (ok a) = methods a
    names (err e) = []

    abbrev pub all_methods : FullDeps Y → List String
    all_methods deps =
        methods (H.system_rpc deps.client deps.pool)
        ++ methods (H.transaction_payment_rpc deps.client)

    create_full-merges :
        (deps : FullDeps Y)
        → Nodup (all_methods deps)
        → (m : Y.RpcModule) × (create_full Y H deps ≡ ok m) × (methods m ≡ all_methods deps)
    unfolding create_full
    create_full-merges deps differ =
        let system = H.system_rpc deps.client deps.pool in
        let payment = H.transaction_payment_rpc deps.client in
        let alone : Nodup (methods system) = ((Pairwise-append (λ a b. hlevel)).0 differ).0 in
        let (first, merged, joined) = R.merges H.rpc_new system (rw R.new_module alone) in
        let same : methods first ≡ methods system =
          joined ∙ ap (λ l. l ++ methods system) R.new_module in
        let (last, merged_too, joined_too) = R.merges first payment (rw same differ) in
        (last, rw merged (rw merged_too), joined_too ∙ ap (λ l. l ++ methods payment) same)

    create_full-clashes :
        (deps : FullDeps Y) (m : Y.RpcModule)
        → create_full Y H deps ≡ ok m
        → Nodup (all_methods deps)
    unfolding create_full
    create_full-clashes deps m h =
        let system = H.system_rpc deps.client deps.pool in
        let payment = H.transaction_payment_rpc deps.client in
        elim (Result-cases (H.rpc_merge H.rpc_new system)) [
          | inr (e, failed) ↦ absurd (ok-ne-err {e = e} (sym h ∙ rw failed refl))
          | inl (first, merged) ↦ elim (Result-cases (H.rpc_merge first payment)) [
            | inr (e, failed) ↦ absurd (ok-ne-err {e = e} (sym h ∙ rw merged (rw failed refl)))
            | inl (last, merged_too) ↦
                let (found, merged_so, joined) =
                  R.merges H.rpc_new system (R.clashes H.rpc_new system first merged) in
                let same : methods first ≡ methods system =
                  sym (ap names (sym merged_so ∙ merged))
                  ∙ joined
                  ∙ ap (λ l. l ++ methods system) R.new_module in
                subst (λ l. Nodup (l ++ methods payment)) same
                  (R.clashes first payment last merged_too)
          ]
        ]

    -- `create_full` returns a module exactly where the methods of the system and of the payment all
    -- differ, and any module that it returns has these methods and no others, those of the system
    -- first. It is given what jsonrpsee documents: merging succeeds exactly for modules whose
    -- methods all differ and joins their methods, and a new module has none.
    pub create_full-methods_iff :
        (deps : FullDeps Y)
        → (((m : Y.RpcModule) × (create_full Y H deps ≡ ok m)) ↔ Nodup (all_methods deps))
          × ((m : Y.RpcModule) → create_full Y H deps ≡ ok m → methods m ≡ all_methods deps)
    create_full-methods_iff deps = (
      (
        λ (m, returned). create_full-clashes deps m returned,
        λ differ. let (m, returned, _) = create_full-merges deps differ in (m, returned),
      ),
      λ m returned.
          let (n, found, same) = create_full-merges deps (create_full-clashes deps m returned) in
          ap names (sym returned ∙ found) ∙ same,
    )
