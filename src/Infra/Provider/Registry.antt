-- ===== src/Infra/Provider/Registry.antt =====
-- internal/infra/provider/registry/registry.go, with the `New` of both clients. The parameter makes of
-- the settings of Resty and gobreaker what a client runs on.
use search_engine_service.Base.{List, [], ◌∷◌}
use search_engine_service.Base.Float.{Float}
use search_engine_service.Base.Effects.{Result}
use search_engine_service.Domain.Ports.{Bytes, Provider}
use search_engine_service.Config.{ProviderEndpoint, ProviderConfig}
use search_engine_service.Infra.Provider.{
  ClientConfig, RestySettings, BreakerSettings, Backend, new_resty_client, new_circuit_breaker,
}
use search_engine_service.Infra.Provider.ProviderA
use search_engine_service.Infra.Provider.ProviderB

pub record Network (W : Type 0) : Type 0 where
  pub connect_a : RestySettings ProviderA.Response → BreakerSettings → Backend W ProviderA.Response
  pub connect_b : RestySettings (Unit {0}) → BreakerSettings → Backend W (Unit {0})
  pub unmarshal_feed : Bytes → Result ProviderB.Feed

-- The configuration of a client, field by field.
unfoldable pub client_config : {F : Type 0} → ProviderEndpoint F → ClientConfig F
client_config e = record {
  base_url = e.base_url;
  timeout = e.timeout;
  retry = record {
    max_attempts = e.retry.max_attempts;
    wait_time = e.retry.wait_time;
    max_wait_time = e.retry.max_wait_time;
  };
  cb = record {
    max_requests = e.cb.max_requests;
    interval = e.cb.interval;
    timeout = e.cb.timeout;
    failure_ratio = e.cb.failure_ratio;
  };
}

module _ {F W : Type 0} ⦃f : Float F⦄ (net : Network W) where
  unfoldable pub new_provider_a : ClientConfig F → Provider F W
  unfolding new_resty_client new_circuit_breaker
  new_provider_a cfg =
      ProviderA.as_provider
        (net.connect_a (new_resty_client cfg) (new_circuit_breaker "provider_a" cfg.cb))

  unfoldable pub new_provider_b : ClientConfig F → Provider F W
  unfolding new_resty_client new_circuit_breaker
  new_provider_b cfg =
      ProviderB.as_provider
        (net.connect_b (new_resty_client cfg) (new_circuit_breaker "provider_b" cfg.cb))
        net.unmarshal_feed

  unfoldable pub new_providers : ProviderConfig F → List (Provider F W)
  unfolding client_config new_provider_a new_provider_b
  new_providers cfg =
      new_provider_a (client_config cfg.a) ∷ new_provider_b (client_config cfg.b) ∷ []
