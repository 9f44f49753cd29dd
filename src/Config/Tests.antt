-- ===== src/Config/Tests.antt =====
-- Configurations that are accepted, and one that is not.
use sockify.Prelude.{◌≡◌, refl, true, [], ◌∷◌}
use sockify.Config.{Endpoint, ProxyConfig, config_init, validate_config, validate_tls}
use sockify.Status.{ok, err_invalid}

-- "a:1"
abbrev endpoint : Endpoint
endpoint = record { host = 97 ∷ []; port = 49 ∷ [] }

abbrev usable : ProxyConfig
usable = record config_init { listen_endpoint = endpoint; target_endpoint = endpoint }

abbrev with_pem : ProxyConfig
with_pem = record usable {
  client_tls_enabled = true;
  client_tls_cert_file = 99 ∷ [];
  client_tls_key_file = 107 ∷ [];
}

-- The defaults alone have no endpoint.
defaults_rejected : validate_config config_init ≡ err_invalid
unfolding validate_config
defaults_rejected = refl

usable_accepted : validate_config usable ≡ ok
unfolding validate_config
usable_accepted = refl

pem_accepted : validate_tls with_pem ≡ ok
unfolding validate_tls
pem_accepted = refl

-- The name of a certificate store is enough, without a thumbprint.
store_accepted :
    validate_tls (record usable { client_tls_enabled = true; client_tls_cert_store = 77 ∷ [] }) ≡ ok
unfolding validate_tls
store_accepted = refl
