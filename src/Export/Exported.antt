-- ===== src/Export/Exported.antt =====
-- `ExportAppStateAndValidators` of evmd/export.go behind the choice of the height.
use zk_cosmos_eth_bridge.Common.{
  ℕ, ◌≡◌, refl, ap, sym, ◌∙◌, Bool, true, false, Option, none, some, List, Bytes, Outcome, ok, err,
  panic, ◌>>=◌,
}
use zk_cosmos_eth_bridge.Export.{Keepers, ExportError, prep_for_zero_height_genesis, export_state}
use zk_cosmos_eth_bridge.Export.Zeroed.{IsKeepers, IsZeroed, prep_for_zero_height_genesis-IsZeroed}

-- What the module manager, the encoding and the SDK make of the stores. The writing of the validators
-- gives them together with whether there was an error.
pub record ExportCalls (St Genesis Json Vals Params : Type 0) : Type 0 where
  pub export_genesis : List Bytes → St → Option Genesis
  pub marshal : Genesis → Option Json
  pub write_validators : St → Vals × Bool
  pub consensus_params : St → Params

pub record ExportedApp (Json Vals Params : Type 0) : Type 0 where
  pub app_state : Json
  pub validators : Vals
  pub height : ℕ
  pub consensus_params : Params

-- The end of an export: an error of the validators comes with the application.
pub data ExportEnd (Json Vals Params : Type 0) : Type 0 where
  exported : ExportedApp Json Vals Params → ExportEnd Json Vals Params
  validators_not_written : ExportedApp Json Vals Params → ExportEnd Json Vals Params
  not_prepared : ExportError → ExportEnd Json Vals Params
  genesis_not_exported : ExportEnd Json Vals Params
  not_marshalled : ExportEnd Json Vals Params
  panicked : ExportEnd Json Vals Params

exported-injective :
    {Json Vals Params : Type 0} {a b : ExportedApp Json Vals Params}
    → exported a ≡ exported b
    → a ≡ b
exported-injective h = cc

module _ {St Coins Genesis Json Vals Params : Type 0} (k : Keepers St Coins)
    (calls : ExportCalls St Genesis Json Vals Params) where
  abbrev pub with_validators : ExportedApp Json Vals Params → Bool → ExportEnd Json Vals Params
  with_validators app true = exported app
  with_validators app false = validators_not_written app

  abbrev pub with_app_state : ℕ → St → Option Json → ExportEnd Json Vals Params
  with_app_state height s none = not_marshalled
  with_app_state height s (some json) =
      with_validators
        (record {
          app_state = json;
          validators = (calls.write_validators s).0;
          height = height;
          consensus_params = calls.consensus_params s;
        })
        (calls.write_validators s).1

  abbrev pub with_genesis : ℕ → St → Option Genesis → ExportEnd Json Vals Params
  with_genesis height s none = genesis_not_exported
  with_genesis height s (some g) = with_app_state height s (calls.marshal g)

  abbrev pub prepared : List Bytes → Outcome ExportError (ℕ × St) → ExportEnd Json Vals Params
  prepared modules (ok (height, s)) = with_genesis height s (calls.export_genesis modules s)
  prepared modules (err e) = not_prepared e
  prepared modules panic = panicked

  unfoldable pub export_app_state_and_validators :
      Bool → List Bytes → List Bytes → ℕ → St → ExportEnd Json Vals Params
  export_app_state_and_validators for_zero_height jail_allowed_addrs modules last_height s =
      prepared modules (export_state k for_zero_height jail_allowed_addrs last_height s)

  -- What an export holds: it is all made of one state.
  pub record IsExported (modules : List Bytes) (s : St) (app : ExportedApp Json Vals Params)
      : Type 0 where
    pub genesis : Genesis
    pub genesis_lem : calls.export_genesis modules s ≡ some genesis
    pub app_state_lem : calls.marshal genesis ≡ some app.app_state
    pub validators_lem : calls.write_validators s ≡ (app.validators, true)
    pub params_lem : app.consensus_params ≡ calls.consensus_params s

  with_genesis-IsExported :
      (modules : List Bytes) (height : ℕ) (s : St) (app : ExportedApp Json Vals Params)
      → with_genesis height s (calls.export_genesis modules s) ≡ exported app
      → (app.height ≡ height) × IsExported modules s app
  with_genesis-IsExported modules height s app h =
      by_genesis (calls.export_genesis modules s) refl h
    where
      by_validators :
          (g : Genesis) (json : Json)
          → calls.export_genesis modules s ≡ some g
          → calls.marshal g ≡ some json
          → (w : Vals × Bool) → calls.write_validators s ≡ w
          → with_validators
              (record {
                app_state = json;
                validators = w.0;
                height = height;
                consensus_params = calls.consensus_params s;
              })
              w.1
            ≡ exported app
          → (app.height ≡ height) × IsExported modules s app
      by_validators g json e m (vals, true) w k =
          let same = exported-injective k in
          (
            ap (λ (a : ExportedApp Json Vals Params). a.height) (sym same),
            record {
              genesis = g;
              genesis_lem = e;
              app_state_lem = m ∙ ap (λ (a : ExportedApp Json Vals Params). some a.app_state) same;
              validators_lem =
                  w ∙ ap (λ (a : ExportedApp Json Vals Params). (a.validators, true)) same;
              params_lem = ap (λ (a : ExportedApp Json Vals Params). a.consensus_params) (sym same);
            },
          )
      by_validators g json e m (vals, false) w k = cc

      by_json :
          (g : Genesis)
          → calls.export_genesis modules s ≡ some g
          → (o : Option Json) → calls.marshal g ≡ o
          → with_app_state height s o ≡ exported app
          → (app.height ≡ height) × IsExported modules s app
      by_json g e none m k = cc
      by_json g e (some json) m k = by_validators g json e m (calls.write_validators s) refl k

      by_genesis :
          (o : Option Genesis)
          → calls.export_genesis modules s ≡ o
          → with_genesis height s o ≡ exported app
          → (app.height ≡ height) × IsExported modules s app
      by_genesis none e k = cc
      by_genesis (some g) e k = by_json g e (calls.marshal g) refl k

  -- With keepers that keep their tables and iterators that close: an export for the height zero has
  -- the height 0, and its state, its validators and its parameters are all those of one state, in
  -- which every creation height and every start height is 0.
  pub export_app_state_and_validators-IsZeroed :
      IsKeepers k
      → ((s : St) → k.iterator_closes s ≡ true)
      → (allowed modules : List Bytes) (last_height : ℕ) (s : St)
        (app : ExportedApp Json Vals Params)
      → export_app_state_and_validators true allowed modules last_height s ≡ exported app
      → (s' : St) × (app.height ≡ 0) × IsZeroed k s' × IsExported modules s' app
  unfolding export_app_state_and_validators export_state
  export_app_state_and_validators-IsZeroed lawful closes allowed modules last_height s app h =
      split (prep_for_zero_height_genesis k allowed s) refl h
    where
      split :
          (o : Outcome ExportError St)
          → prep_for_zero_height_genesis k allowed s ≡ o
          → prepared modules (o >>= λ s1. ok (0, s1)) ≡ exported app
          → (s' : St) × (app.height ≡ 0) × IsZeroed k s' × IsExported modules s' app
      split (ok s') e j =
          let (height, is) = with_genesis-IsExported modules 0 s' app j in
          (s', height, prep_for_zero_height_genesis-IsZeroed k lawful closes allowed s s' e, is)
      split (err x) e j = cc
      split panic e j = cc
