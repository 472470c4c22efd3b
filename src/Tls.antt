-- ===== src/Tls.antt =====
-- src/tls.rs: how the ACME client is configured. Its certificates, its polling task and its challenge
-- server are rustls-acme's; the tasks stand in the module of tasks.
use bancuh_dns.Prelude.{
  ℕ, Result, ok, if◌then◌else◌, Bool, not, Option, none, some, ◌++◌, List, [], ◌∷◌,
}
use bancuh_dns.Text.{Text, codes}

-- `AcmeConfig::directory(url)`, or Let's Encrypt in production.
pub data Directory : Type 0 where
  custom : Text → Directory
  lets_encrypt : Directory

-- What `setup_tls` gives to `AcmeState::new`; certificates of the ACME server are checked unless it is
-- insecure, and the challenge is HTTP-01.
pub record AcmeConfig : Type 0 where
  pub domains : List Text
  pub contact : Text
  pub cache_dir : Text
  pub directory : Directory
  pub checks_server : Bool

unfoldable pub acme_config :
    (domain email : Text) (acme_url : Option Text) (acme_cache_dir : Text) (acme_insecure : Bool)
    → AcmeConfig
acme_config domain email acme_url acme_cache_dir acme_insecure = record {
  domains = domain ∷ [];
  contact = codes "mailto:" ++ email;
  cache_dir = acme_cache_dir;
  directory = elim acme_url [ some url ↦ custom url | none ↦ lets_encrypt ];
  checks_server = not acme_insecure;
}

-- The part of rustls that a certificate verifier is about; a verified certificate and a valid signature
-- are tokens that `assertion()` makes, and `supported_schemes` are those of the default provider.
pub record Rustls : Type 1 where
  pub CertificateDer : Type 0
  pub ServerName : Type 0
  pub UnixTime : Type 0
  pub DigitallySignedStruct : Type 0
  pub SignatureScheme : Type 0
  pub Error : Type 0
  pub ServerCertVerified : Type 0
  pub HandshakeSignatureValid : Type 0
  pub verified : ServerCertVerified
  pub valid : HandshakeSignatureValid
  pub supported_schemes : List SignatureScheme

-- `trait ServerCertVerifier`
pub record ServerCertVerifier (t : Rustls) : Type 0 where
  pub verify_server_cert :
      t.CertificateDer
      → List t.CertificateDer
      → t.ServerName
      → List ℕ
      → t.UnixTime
      → Result t.Error t.ServerCertVerified
  pub verify_tls12_signature :
      List ℕ → t.CertificateDer → t.DigitallySignedStruct → Result t.Error t.HandshakeSignatureValid
  pub verify_tls13_signature :
      List ℕ → t.CertificateDer → t.DigitallySignedStruct → Result t.Error t.HandshakeSignatureValid
  pub supported_verify_schemes : List t.SignatureScheme

-- `NoVerifier`
abbrev pub no_verifier : (t : Rustls) → ServerCertVerifier t
no_verifier t = record {
  verify_server_cert = λ end_entity intermediates server_name ocsp now. ok t.verified;
  verify_tls12_signature = λ message cert dss. ok t.valid;
  verify_tls13_signature = λ message cert dss. ok t.valid;
  supported_verify_schemes = t.supported_schemes;
}

-- The verifier of the client that speaks to the ACME server: rustls's own unless it is insecure.
unfoldable pub acme_verifier :
    {t : Rustls} → ServerCertVerifier t → AcmeConfig → ServerCertVerifier t
acme_verifier {t} standard config = if config.checks_server then standard else no_verifier t
