-- ===== src/Startup/Tests.antt =====
-- A startup with a configuration that loads from the third attempt on.
use bancuh_dns.Prelude.{
  ℕ, ◌≤◌, ◌<◌, ◌≡◌, refl, some, List, [], ◌∷◌, Result, ok, err, true, false, leb, if◌then◌else◌,
  arith,
}
use bancuh_dns.Text.{codes}
use bancuh_dns.Net.{Family, Kind, bind_tcp, bind_udp}
use bancuh_dns.Net.Toy.{System, toy}
use bancuh_dns.Startup.Args.{Args, default_args}
use bancuh_dns.Startup.Boot.{Booted, BootError, boot, bind_tls}
use bancuh_dns.Startup.{validate}
use bancuh_dns.Startup.Backoff.{Fails, total, validate_first, validate_exhausted, validate_ends}

abbrev loads_from : ℕ → ℕ → Result ℕ ℕ
loads_from k i = if leb k i then ok i else err i

two_fail : (j : ℕ) → 1 ≤ j → j < 3 → Fails (loads_from 3) j
two_fail j p q = (j, ground arith)

validate_first_example : validate (loads_from 3) 5 1 5 ≡ some (5 ∷ 10 ∷ [], ok tt)
validate_first_example = validate_first (loads_from 3) 2 5 (omega arith) (omega arith) two_fail refl

four_fail : (j : ℕ) → 1 ≤ j → j < 5 → Fails (loads_from 9) j
four_fail j p q = (j, ground arith)

validate_gives_up : validate (loads_from 9) 5 1 5 ≡ some (5 ∷ 10 ∷ 20 ∷ 40 ∷ [], err 5)
validate_gives_up = validate_exhausted (loads_from 9) 5 (omega arith) four_fail refl

validate_ends_example :
    (slept : List ℕ) × (res : Result ℕ (Unit {0})) × (validate (loads_from 3) 5 1 5
      ≡ some (slept, res))
    × (total slept ≤ 75)
validate_ends_example = validate_ends (loads_from 3) 5 (omega arith)

-- A start with TLS on the toy system.
abbrev free : System
free = record { taken = λ k f p. false; only_v6 = false }

abbrev with_tls : Args ℕ
with_tls = record (default_args {Location = ℕ} (λ s. 0)) {
  tls_enabled = true;
  tls_domain = some (codes "dns.example");
  tls_email = some (codes "a@dns.example");
}

abbrev registers : Family × Kind → Result (Unit {0}) (Unit {0})
registers s = ok tt

abbrev makes : ℕ → Result (Unit {0}) ℕ
makes location = ok location

abbrev started :
    System × Result (BootError ℕ (Unit {0}) (Unit {0}) (Unit {0})) (Booted ℕ (Family × Kind) ℕ)
started = boot toy (loads_from 1) makes (λ n. n) registers with_tls free

record Success : Type 0 where
  system : System
  booted : Booted ℕ (Family × Kind) ℕ
  success : started ≡ (system, ok booted)

success : Success
unfolding boot default_args validate bind_tls bind_tcp bind_udp
success = record { system = _; booted = _; success = refl }
