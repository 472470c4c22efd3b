-- ===== src/Resolver.antt =====
-- src/resolver.rs: the lookup that treats an answer without records as an empty one.
use bancuh_dns.Prelude.{Bool, not, ◌&&◌, List, [], map, ℕ, Result, ok, err, if◌then◌else◌}
use bancuh_dns.Text.{Text}
use bancuh_dns.Address.{IpAddr, SocketAddr}
use bancuh_dns.Hickory.{Hickory}

module _ (h : Hickory) where
  open h use {Record, RecordType, ResolveError}

  -- `Resolver`, as what the upstream servers answer at the time of the call.
  abbrev pub Upstream : Type 0
  Upstream = Text → RecordType → Result ResolveError (List Record)

  abbrev empty_or_error : ResolveError → Bool → Result ResolveError (List Record)
  empty_or_error e empty = if empty then ok [] else err e

  -- `Resolver::lookup`
  unfoldable pub lookup : Upstream → Text → RecordType → Result ResolveError (List Record)
  lookup upstream name query_type = elim (upstream name query_type) [
    | ok records ↦ ok records
    | err e ↦ empty_or_error e (h.is_no_records_found e && not (h.is_nx_domain e))
  ]

-- A name server of the configuration, asked over UDP.
pub record NameServer : Type 0 where
  pub addr : SocketAddr

-- The name servers of `create_resolver`; hickory's options are its defaults.
unfoldable pub create_resolver : List IpAddr → ℕ → List NameServer
create_resolver forwarders port =
    map (λ f. record { addr = record { ip = f; port = port } }) forwarders
