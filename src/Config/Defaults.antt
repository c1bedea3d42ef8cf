-- ===== src/Config/Defaults.antt =====
-- What the defaults and the validation of the configuration guarantee.
use ethereum_playbook.Common.{true, Option, none, some, List, [], ◌∷◌, ◌≡◌, ◌≢◌, refl, ◌↔◌, ◌++◌}
use ethereum_playbook.Common.Text.{Text}
use ethereum_playbook.Common.Decimal.{natural, integer}
use ethereum_playbook.Errors.{Error, bad_gas_price, bad_gas_limit, bad_chain_id, bad_await_timeout}
use ethereum_playbook.Extern.{Libs}
use ethereum_playbook.Config.{
  ConfigSpec, default_config, gas_limit_int, gas_price_int, chain_id_int, await_timeout_duration,
  validate, logs, or_default, fit,
}

-- Every number of the configuration parses.
pub record IsUsable (libs : Libs) (spec : ConfigSpec) : Type 0 where
  pub price : gas_price_int spec ≢ none
  pub limit : gas_limit_int spec ≢ none
  pub chain : chain_id_int spec ≢ none
  pub timeout : await_timeout_duration libs spec ≢ none

logs_iff :
    {A : Type 0} (parse : Text → Option A) (given default : Text) (e : Error)
    → parse default ≢ none
    → (logs given (parse given) e ≡ []) ↔ (parse (or_default given default) ≢ none)
logs_iff {A} parse [] default e h = ((λ _. h), (λ _. silent (parse [])))
  where
    silent : (o : Option A) → logs [] o e ≡ []
    silent none = refl
    silent (some a) = refl
logs_iff {A} parse (c ∷ s) default e h = said (parse (c ∷ s))
  where
    said : (o : Option A) → (logs (c ∷ s) o e ≡ []) ↔ (o ≢ none)
    said none = ((λ p. cc), (λ n. absurd (n refl)))
    said (some a) = ((λ p q. cc), (λ n. refl))

append-eq-nil : (xs ys : List Error) → xs ++ ys ≡ [] → (xs ≡ []) × (ys ≡ [])
append-eq-nil [] ys h = (refl, h)
append-eq-nil (x ∷ xs) ys h = cc

-- If the defaults parse, validation logs nothing exactly when every number of the resulting
-- configuration parses; and it returns true in every case.
pub validate-IsUsable :
    (libs : Libs) (spec : ConfigSpec)
    → IsUsable libs (default_config libs)
    → ((validate libs spec).accepted ≡ true)
      × (((validate libs spec).logged ≡ []) ↔ IsUsable libs (validate libs spec).config)
unfolding validate gas_price_int gas_limit_int chain_id_int await_timeout_duration
validate-IsUsable libs spec d =
    let price =
      logs_iff integer spec.gas_price (default_config libs).gas_price bad_gas_price d.price in
    let limit =
      logs_iff (λ t. fit (natural t)) spec.gas_limit (default_config libs).gas_limit bad_gas_limit
        d.limit in
    let chain =
      logs_iff integer spec.chain_id (default_config libs).chain_id bad_chain_id d.chain in
    let timeout =
      logs_iff libs.parse_duration spec.await_timeout (default_config libs).await_timeout
        bad_await_timeout d.timeout in
    (
      refl,
      (
        (λ h.
            let (p, h1) = append-eq-nil _ _ h in
            let (l, h2) = append-eq-nil _ _ h1 in
            let (c, t) = append-eq-nil _ _ h2 in
            record {
              price = price.0 p;
              limit = limit.0 l;
              chain = chain.0 c;
              timeout = timeout.0 t;
            }),
        (λ u. cc (price.1 u.price, limit.1 u.limit, chain.1 u.chain, timeout.1 u.timeout)),
      ),
    )
