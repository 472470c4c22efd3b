-- ===== src/Startup/Args.antt =====
-- `Args` of src/main.rs: what the command line and the environment set, as clap hands it over.
use bancuh_dns.Prelude.{ℕ, Bool, false, Option, none, List, []}
use bancuh_dns.Text.{Text, codes}
use bancuh_dns.Address.{IpAddr}

pub record Args (Location : Type 0) : Type 0 where
  pub config_url : Location
  pub port : ℕ
  pub forwarders : List IpAddr
  pub forwarders_port : ℕ
  pub update_interval : ℕ
  pub tls_enabled : Bool
  pub tls_email : Option Text
  pub tls_domain : Option Text
  pub acme_url : Option Text
  pub acme_cache_dir : Text
  pub acme_insecure : Bool
  pub admin_port : ℕ
  pub rate_limit : ℕ
  pub rate_limit_ipv4_prefix : ℕ
  pub rate_limit_ipv6_prefix : ℕ

-- The defaults, with the parse of the default URL.
unfoldable pub default_args : {Location : Type 0} → (Text → Location) → Args Location
default_args parse = record {
  config_url = parse (
      codes
        "https://raw.githubusercontent.com/ragibkl/adblock-dns-server/master/data/configuration.yaml");
  port = 53;
  forwarders = [];
  forwarders_port = 53;
  update_interval = 86400;
  tls_enabled = false;
  tls_email = none;
  tls_domain = none;
  acme_url = none;
  acme_cache_dir = codes "/var/cache/bancuh-dns/certs";
  acme_insecure = false;
  admin_port = 8080;
  rate_limit = 100;
  rate_limit_ipv4_prefix = 32;
  rate_limit_ipv6_prefix = 48;
}
