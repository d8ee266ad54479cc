-- ===== src/Network/New/Laws.antt =====
-- Which ports the validators of `New` in evmd/tests/network/network.go draw.
use mathlib.Core.List.{append-nil}
use zk_cosmos_eth_bridge.Common.{
  ℕ, zero, suc, ◌≡◌, refl, ap, ◌∙◌, some, List, [], ◌∷◌, ◌++◌, Bytes, length,
}
use zk_cosmos_eth_bridge.Network.Pool.{
  NewError, no_api_port, no_rpc_port, no_grpc_port, no_json_rpc_port, no_proxy_port, bad_address,
  dir_not_made, node_files_failed, keyring_failed, seed_not_written, message_failed, not_signed,
  gentx_not_written, config_not_read, Gives, Gives-bind, Gives-pure, Gives-after, check-IsStill,
  given-IsStill, lift-IsStill, Gives-take_port, Gives-take,
}
use zk_cosmos_eth_bridge.Network.New.{
  Config, ValidatorCalls, Listening, Validator, tcp, any_host, address_or, no_servers,
  first_listening, listening_of, tokens_of, node_name, print_mnemonic, make_validator,
  prepare_validator, prepare_validators,
}

-- An address is the configured one and draws no port, or is made of the one port that it draws.
abbrev pub IsAddress : Bytes → (Bytes → Bytes) → List Bytes → Bytes → Type 0
IsAddress [] text drawn a = (port : Bytes) × (drawn ≡ port ∷ []) × (a ≡ text port)
IsAddress (c ∷ s) text drawn a = (drawn ≡ []) × (a ≡ c ∷ s)

address_or-IsAddress :
    (configured : Bytes) (text : Bytes → Bytes) (e : NewError)
    → Gives (address_or configured text e) (IsAddress configured text)
unfolding address_or
address_or-IsAddress [] text e = Gives-bind (Gives-take_port e) λ port drawn same.
    Gives-pure (text port) {R = λ more a. IsAddress [] text (drawn ++ more) a}
      (port, append-nil drawn ∙ same, refl)
address_or-IsAddress (c ∷ s) text e = Gives-pure (c ∷ s) {R = IsAddress (c ∷ s) text} (refl, refl)

-- The addresses of the first validator, with the ports in the order of the API, the RPC, the gRPC and
-- the JSON-RPC server.
pub record IsListening (cfg : Config) (drawn : List Bytes) (l : Listening) : Type 0 where
  pub api : List Bytes
  pub rpc : List Bytes
  pub grpc : List Bytes
  pub json_rpc : List Bytes
  pub in_order : drawn ≡ api ++ (rpc ++ (grpc ++ json_rpc))
  pub grpc_address : Bytes
  pub json_rpc_address : Bytes
  pub api_lem : IsAddress cfg.api_address tcp api l.api_listen
  pub rpc_lem : IsAddress cfg.rpc_address tcp rpc l.rpc_address
  pub grpc_some : l.grpc_address ≡ some grpc_address
  pub grpc_lem : IsAddress cfg.grpc_address any_host grpc grpc_address
  pub json_rpc_some : l.json_rpc_address ≡ some json_rpc_address
  pub json_rpc_lem : IsAddress cfg.json_rpc_address any_host json_rpc json_rpc_address

first_listening-IsListening :
    (cfg : Config) (c : ValidatorCalls) → Gives (first_listening cfg c) (IsListening cfg)
unfolding first_listening
first_listening-IsListening cfg c =
    Gives-bind (address_or-IsAddress cfg.api_address tcp no_api_port) λ api_listen d1 a1.
      Gives-after (given-IsStill (c.parse_url api_listen) bad_address) λ url _.
        Gives-bind (address_or-IsAddress cfg.rpc_address tcp no_rpc_port) λ rpc d2 a2.
          Gives-bind (address_or-IsAddress cfg.grpc_address any_host no_grpc_port) λ grpc d3 a3.
            Gives-bind (address_or-IsAddress cfg.json_rpc_address any_host no_json_rpc_port)
              λ json d4 a4. Gives-pure _ (record {
                api = d1;
                rpc = d2;
                grpc = d3;
                json_rpc = d4;
                in_order = simp append-nil;
                grpc_address = grpc;
                json_rpc_address = json;
                api_lem = a1;
                rpc_lem = a2;
                grpc_some = refl;
                grpc_lem = a3;
                json_rpc_some = refl;
                json_rpc_lem = a4;
              })

-- The ports of validator `i`: those of its servers, which the first validator alone has, then the
-- one of the proxy, then the one of the peers.
abbrev pub IsListeningAt : Config → ℕ → List Bytes → Listening → Type 0
IsListeningAt cfg zero drawn l = IsListening cfg drawn l
IsListeningAt cfg (suc i) drawn l = (drawn ≡ []) × (l ≡ no_servers)

pub record IsValidator (cfg : Config) (i : ℕ) (drawn : List Bytes) (v : Validator) : Type 0 where
  pub servers : List Bytes
  pub proxy_port : Bytes
  pub p2p_port : Bytes
  pub in_order : drawn ≡ servers ++ (proxy_port ∷ p2p_port ∷ [])
  pub listening : IsListeningAt cfg i servers v.listening
  pub proxy_lem : v.proxy_app ≡ tcp proxy_port
  pub p2p_lem : v.p2p_address ≡ tcp p2p_port
  pub named : v.moniker ≡ node_name i
  pub bonded : v.bonded_tokens ≡ tokens_of cfg.bonded_tokens cfg.bonded_tokens_per_validator i

listening_of-IsListeningAt :
    (cfg : Config) (i : ℕ) (c : ValidatorCalls) → Gives (listening_of cfg i c) (IsListeningAt cfg i)
unfolding listening_of
listening_of-IsListeningAt cfg zero c = first_listening-IsListening cfg c
listening_of-IsListeningAt cfg (suc i) c =
    Gives-pure no_servers {R = IsListeningAt cfg (suc i)} (refl, refl)

-- The ports of the validators from `i` on, in their order.
abbrev pub IsValidators : Config → ℕ → List Bytes → List Validator → Type 0
IsValidators cfg i drawn [] = drawn ≡ []
IsValidators cfg i drawn (v ∷ vs) =
    (own : List Bytes) × (others : List Bytes) × (drawn ≡ own ++ others)
    × IsValidator cfg i own v
    × IsValidators cfg (suc i) others vs

module _ (cfg : Config) (base_dir : Bytes) where
  make_validator-IsValidator :
      (i : ℕ) (c : ValidatorCalls) (l : Listening) (servers : List Bytes) (proxy p2p : Bytes)
      → IsListeningAt cfg i servers l
      → Gives
          (make_validator cfg base_dir i c l proxy p2p)
          (λ more v. IsValidator cfg i (servers ++ (proxy ∷ p2p ∷ more)) v)
  unfolding make_validator
  make_validator-IsValidator i c l servers proxy p2p h =
      Gives-after (given-IsStill c.node_files node_files_failed) λ files _.
        Gives-after (check-IsStill c.opens_keyring keyring_failed) λ _ _.
          Gives-after (check-IsStill c.finds_algo keyring_failed) λ _ _.
            Gives-after (given-IsStill c.coin_key keyring_failed) λ key _.
              Gives-after (lift-IsStill (print_mnemonic cfg.print_mnemonic i key.1)) λ _ _.
                Gives-after (check-IsStill c.writes_seed seed_not_written) λ _ _.
                  Gives-after (lift-IsStill c.makes_message) λ _ _.
                    Gives-after (given-IsStill (c.parse_url (tcp p2p)) bad_address) λ url _.
                      Gives-after (check-IsStill c.sets_message message_failed) λ _ _.
                        Gives-after (check-IsStill c.signs not_signed) λ _ _.
                          Gives-after (check-IsStill c.encodes not_signed) λ _ _.
                            Gives-after (check-IsStill c.writes_gentx gentx_not_written) λ _ _.
                              Gives-after (check-IsStill c.reads_config config_not_read) λ _ _.
                                Gives-pure _ (record {
                                  servers = servers;
                                  proxy_port = proxy;
                                  p2p_port = p2p;
                                  in_order = refl;
                                  listening = h;
                                  proxy_lem = refl;
                                  p2p_lem = refl;
                                  named = refl;
                                  bonded = refl;
                                })

  prepare_validator-IsValidator :
      (i : ℕ) (c : ValidatorCalls) → Gives (prepare_validator cfg base_dir i c) (IsValidator cfg i)
  unfolding prepare_validator
  prepare_validator-IsValidator i c =
      Gives-bind (listening_of-IsListeningAt cfg i c) λ l servers at.
        Gives-after (check-IsStill c.makes_node_dir dir_not_made) λ _ _.
          Gives-after (check-IsStill c.makes_client_dir dir_not_made) λ _ _.
            Gives-take no_proxy_port λ proxy.
              Gives-take no_proxy_port λ p2p. make_validator-IsValidator i c l servers proxy p2p at

  pub prepare_validators-IsValidators :
      (calls : ℕ → ValidatorCalls) (n i : ℕ)
      → Gives
          (prepare_validators cfg base_dir calls n i)
          (λ drawn vs. (length vs ≡ n) × IsValidators cfg i drawn vs)
  unfolding prepare_validators
  prepare_validators-IsValidators calls zero i = Gives-pure [] (refl, refl)
  prepare_validators-IsValidators calls (suc n) i =
      Gives-bind (prepare_validator-IsValidator i (calls i)) λ v own is.
        Gives-bind (prepare_validators-IsValidators calls n (suc i)) λ vs others all.
          Gives-pure (v ∷ vs)
            (ap suc all.0, (own, others, ap (λ t. own ++ t) (append-nil others), is, all.1))

-- No validator is prepared without a port.
nonempty : (servers : List Bytes) (p q : Bytes) → ¬ ([] ≡ servers ++ (p ∷ q ∷ []))
nonempty [] p q e = cc
nonempty (s ∷ servers) p q e = cc

pub not-IsValidators-nil :
    (cfg : Config) (i : ℕ) (v : Validator) (vs : List Validator) → ¬ IsValidators cfg i [] (v ∷ vs)
not-IsValidators-nil cfg i v vs ([], others, whole, is, all) =
    nonempty is.servers is.proxy_port is.p2p_port is.in_order
not-IsValidators-nil cfg i v vs (port ∷ own, others, whole, is, all) = cc
