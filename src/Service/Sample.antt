-- ===== src/Service/Sample.antt =====
-- A service with toy lists, for src/handler.rs with the updates of src/engine.rs.
pub mod Lists
use bancuh_dns.Prelude.{ℕ, zero, suc, false, Bool, true, some, [], ◌∷◌}
use bancuh_dns.Text.{Text, codes}
use bancuh_dns.Address.{IpAddr}
use bancuh_dns.Db.{AdblockDb}
use bancuh_dns.Db.Lookup.{opened}
use bancuh_dns.Db.Memory.{Memory}
use bancuh_dns.Config.{url}
use bancuh_dns.Compiler.Sample.{crates, web, plain, finishes}
use bancuh_dns.Engine.{EngineError}
use bancuh_dns.Engine.Update.Sample.{place, disk}
use bancuh_dns.QueryLog.{new}
use bancuh_dns.Handler.Toy.{toy}
use bancuh_dns.Handler.Server.{Clock}
use bancuh_dns.Service.{Setting, Sources, Service}

abbrev pub sources : Sources
sources = record {
  io = web;
  at = place;
  finishes = finishes;
  config_url = url (codes "*.ads.example");
}

abbrev pub shown : EngineError (Unit {0}) (Unit {0}) → Text
shown e = []

abbrev pub spend : ℕ → IpAddr → ℕ × Bool
spend zero key = (0, false)
spend (suc n) key = (n, true)

abbrev pub listing : AdblockDb Memory
listing = record {
  blacklist = opened plain ((codes "*.ads.example.", codes "true") ∷ []);
  whitelist = opened plain [];
  rewrites = opened plain [];
}

abbrev pub setting : Setting
setting = record {
  crates = crates;
  r = plain;
  disk = disk;
  L = Unit;
  h = toy;
  display_engine_error = shown;
  Limiter = ℕ;
  check_key = spend;
  checks = true;
}

abbrev pub Small : Type 0
Small = Service setting

abbrev pub service : Small
service = record {
  db = listing;
  world = [];
  server = record {
    query_log = new;
    rate_limiter = some 3;
    rate_limit_ipv4_prefix = 32;
    rate_limit_ipv6_prefix = 48;
  };
  calls = [];
  dropped = [];
  replied = [];
}

abbrev pub clock : Clock
clock = record { query_time = 1000; now = 1001 }

abbrev pub x_ads : Text
x_ads = codes "x.ads.example."

-- An engine that blocks nothing yet.
abbrev pub unlisted : Small
unlisted = record service {
  db = record {
    blacklist = opened plain [];
    whitelist = opened plain [];
    rewrites = opened plain [];
  };
}
