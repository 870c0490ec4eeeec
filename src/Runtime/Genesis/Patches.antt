-- ===== src/Runtime/Genesis/Patches.antt =====
-- runtime/src/genesis_config_presets.rs against runtime/src/configs/mod.rs: what the pallets demand
-- of a genesis configuration.
use mathlib.Core.List.{
  filter, Nodup, Mem, mem-map, mem-filter, mem-map_of_mem, mem-cons_self, mem-cons_of_mem,
  Pairwise-append, Pairwise-cons,
}
use mathlib.Core.Logic.{∥∥₁_elim}
use mathlib.Core.Path.{subst}
use mathlib.Core.List.Pairwise
use nexusguild.Base.{
  ℕ, ◌*◌, ◌^◌, ◌≤◌, ◌≡◌, ◌≢◌, ◌↔◌, refl, ap, some, List, [], ◌∷◌, map, All, length, length-map, sum,
  arith,
}
use nexusguild.Runtime.Currency.{existential_deposit}
use nexusguild.Runtime.Genesis.{
  Keyring, IsKeyring, Patch, testnet_patch, development_patch, local_patch, IsEndowed, is_endowed,
}

-- `MaxAuthorities` of `pallet_aura::Config` and of `pallet_grandpa::Config`.
abbrev pub max_authorities : ℕ
max_authorities = 32

module _ (K : Keyring) where
  open K use {Key, AccountId, to_account_id}

  abbrev pub endowed : Patch K → List AccountId
  endowed p = map (λ (account, balance). account) p.balances

  abbrev issuance : Patch K → ℕ
  issuance p = sum (map (λ (account, balance). balance) p.balances)

  -- What `pallet_balances`, `pallet_aura` and `pallet_grandpa` assert when the genesis is built,
  -- and that the sudo key can pay for its calls.
  pub record IsBuildable (p : Patch K) : Type 0 where
    pub accounts_differ : Nodup (endowed p)
    pub accounts_exist : All (λ (account, balance). existential_deposit ≤ balance) p.balances
    pub aura_bounded : length p.aura_authorities ≤ max_authorities
    pub grandpa_bounded : length p.grandpa_authorities ≤ max_authorities
    pub authorities_paired : length p.aura_authorities ≡ length p.grandpa_authorities
    pub grandpa_weights : All (λ (authority, weight). weight ≡ 1) p.grandpa_authorities
    pub root_funded : (root : AccountId) × (p.sudo_key ≡ some root) × Mem root (endowed p)

  -- The weight 1 that every authority has.
  abbrev pair : K.GrandpaId → K.GrandpaId × ℕ
  pair grandpa = (grandpa, 1)

  -- `testnet_genesis` endows every account with the same balance, so the total issuance is 2^60
  -- times the number of accounts.
  issuance-testnet_patch :
      (authorities : List (K.AuraId × K.GrandpaId)) (accounts : List AccountId) (root : AccountId)
      → issuance (testnet_patch K authorities accounts root) ≡ length accounts * 2 ^ 60
  unfolding testnet_patch
  issuance-testnet_patch authorities [] root = omega arith
  issuance-testnet_patch authorities (k ∷ accounts) root =
      omega (arith, issuance-testnet_patch authorities accounts root)

  endowed-map :
      (accounts : List AccountId) (n : ℕ)
      → map (λ (account, balance). account) (map {B = AccountId × ℕ} (λ k. (k, n)) accounts)
        ≡ accounts
  endowed-map [] n = refl
  endowed-map (k ∷ accounts) n = ap {B = List AccountId} (λ l. k ∷ l) (endowed-map accounts n)

  accounts_exist-map :
      (accounts : List AccountId) (n : ℕ)
      → existential_deposit ≤ n
      → All {A = AccountId × ℕ}
          (λ (account, balance). existential_deposit ≤ balance)
          (map (λ k. (k, n)) accounts)
  accounts_exist-map [] n h = tt
  accounts_exist-map (k ∷ accounts) n h = (h, accounts_exist-map accounts n h)

  weights-map :
      {A : Type 0} (authorities : List (A × K.GrandpaId))
      → All {A = K.GrandpaId × ℕ}
          (λ (authority, weight). weight ≡ 1)
          (map (λ (aura, grandpa). (grandpa, 1)) authorities)
  weights-map [] = tt
  weights-map (a ∷ authorities) = (refl, weights-map authorities)

  -- `testnet_genesis` gives a configuration that the pallets accept, for any authorities within
  -- the bound of 32 and any accounts without duplicates among which the root is.
  pub testnet_patch-IsBuildable :
      (authorities : List (K.AuraId × K.GrandpaId)) (accounts : List AccountId) (root : AccountId)
      → length authorities ≤ max_authorities
      → Nodup accounts
      → Mem root accounts
      → IsBuildable (testnet_patch K authorities accounts root)
  unfolding testnet_patch
  testnet_patch-IsBuildable authorities accounts root few differ funded = record {
    accounts_differ = rw (endowed-map accounts (2 ^ 60)) differ;
    accounts_exist = accounts_exist-map accounts (2 ^ 60) (omega arith);
    aura_bounded = rw (length-map (λ (x : K.AuraId × K.GrandpaId). x.0) authorities) few;
    grandpa_bounded = rw (length-map (λ (x : K.AuraId × K.GrandpaId). pair x.1) authorities) few;
    authorities_paired =
        rw (length-map (λ (x : K.AuraId × K.GrandpaId). x.0) authorities)
          (rw (length-map (λ (x : K.AuraId × K.GrandpaId). pair x.1) authorities));
    grandpa_weights = weights-map authorities;
    root_funded = (root, refl, rw (endowed-map accounts (2 ^ 60)) funded);
  }

module _ (K : Keyring) (L : IsKeyring K) where
  open K use {Key, AccountId, alice, to_account_id}

  accounts-Nodup : {keys : List Key} → Nodup keys → Nodup (map to_account_id keys)
  accounts-Nodup differ =
      Pairwise.map (λ a b. hlevel) to_account_id (λ j k ne e. ne (L.account_injective j k e)) differ

  one_authority :
      length {A = K.AuraId × K.GrandpaId} ((K.sr25519_public alice, K.ed25519_alice) ∷ [])
      ≤ max_authorities
  one_authority = omega arith

  -- The configuration of the development preset is one that the pallets accept, with a funded root,
  -- given that the named keys of the keyring and the accounts of different keys differ.
  pub development_patch-IsBuildable : IsBuildable K (development_patch K)
  unfolding development_patch
  development_patch-IsBuildable =
      let four : Nodup (alice ∷ K.bob ∷ K.alice_stash ∷ K.bob_stash ∷ []) =
        ((Pairwise-append (λ a b. hlevel) {l₁ = alice ∷ K.bob ∷ K.alice_stash ∷ K.bob_stash ∷ []}
            {l₂ = K.one ∷ K.two ∷ []}).0
          L.named-Nodup).0 in
      testnet_patch-IsBuildable K ((K.sr25519_public alice, K.ed25519_alice) ∷ []) _ _ one_authority
        (accounts-Nodup four) mem-cons_self

  alice-IsEndowed : IsEndowed K alice
  alice-IsEndowed =
      let others : (k : Key)
          → Mem k (K.bob ∷ K.alice_stash ∷ K.bob_stash ∷ K.one ∷ K.two ∷ [])
          → alice ≢ k =
        (Pairwise-cons.0 L.named-Nodup).0 in
      let later = λ (k : Key) (m : Mem k (K.one ∷ K.two ∷ [])).
        others k
          (mem-cons_of_mem K.bob (mem-cons_of_mem K.alice_stash (mem-cons_of_mem K.bob_stash m))) in
      (later K.one mem-cons_self, later K.two (mem-cons_of_mem K.one mem-cons_self))

  -- The configuration of the local preset is one that the pallets accept, with a funded root, given
  -- that `iter` meets every key of the keyring once and that the named keys and the accounts of
  -- different keys differ.
  pub local_patch-IsBuildable : IsBuildable K (local_patch K)
  unfolding local_patch
  local_patch-IsBuildable =
      testnet_patch-IsBuildable K
        ((K.sr25519_public alice, K.ed25519_alice) ∷ (K.sr25519_public K.bob, K.ed25519_bob) ∷ []) _
        _ (omega arith) (accounts-Nodup (Pairwise.filter (is_endowed K) L.iter-Nodup))
        (mem-map_of_mem to_account_id
          ((mem-filter (is_endowed K)).1 (L.mem-iter alice, alice-IsEndowed)))

  -- The local preset endows the account of a key exactly if the key is neither `One` nor `Two`,
  -- given that `iter` meets every key of the keyring and that different keys have different
  -- accounts.
  pub local_patch-endowed_iff :
      (k : Key) → Mem (to_account_id k) (endowed K (local_patch K)) ↔ IsEndowed K k
  unfolding local_patch
  local_patch-endowed_iff k =
      let endowed_keys = map to_account_id (filter (is_endowed K) K.iter) in
      rw (endowed-map K endowed_keys (2 ^ 60)) (
        λ m. ∥∥₁_elim (mem-map.0 m) (hlevel) (λ (j, member, same).
            subst (IsEndowed K) (L.account_injective j k same)
              ((mem-filter (is_endowed K)).0 member).1),
        λ h. mem-map_of_mem to_account_id ((mem-filter (is_endowed K)).1 (L.mem-iter k, h)),
      )

  -- Both presets are configurations that the pallets accept, with a funded root, and the local
  -- preset endows the account of a key exactly if the key is neither `One` nor `Two`, given that
  -- `iter` meets every key of the keyring once and that the named keys and the accounts of
  -- different keys differ.
  pub preset_patches-IsBuildable :
      (k : Key)
      → IsBuildable K (development_patch K)
        × IsBuildable K (local_patch K)
        × (Mem (to_account_id k) (endowed K (local_patch K)) ↔ IsEndowed K k)
  preset_patches-IsBuildable k =
      (development_patch-IsBuildable, local_patch-IsBuildable, local_patch-endowed_iff k)
