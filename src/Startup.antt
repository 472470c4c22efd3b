-- ===== src/Startup.antt =====
-- src/main.rs: the validation of the configuration before anything is started. What the attempt with
-- a number loads is a parameter; the delays that are slept are part of the result.
pub mod Backoff
pub mod Args
pub mod Boot
mod Tests
use bancuh_dns.Prelude.{
  ℕ, zero, suc, ◌+◌, ◌*◌, min, Option, none, some, List, [], ◌∷◌, Result, ok, err, map_option, leb,
  if◌then◌else◌,
}

module _ {E C : Type 0} (load : ℕ → Result E C) where
  -- The loop over `attempt` with its `delay` in seconds, for at most so many rounds.
  unfoldable pub validate : ℕ → ℕ → ℕ → Option (List ℕ × Result E (Unit {0}))
  validate zero attempt delay = none
  validate (suc rounds) attempt delay =
      let rest = validate rounds (attempt + 1) (min (delay * 2) 60) in
      elim (load attempt) [
        | ok config ↦ some ([], ok tt)
        | err e ↦
            if leb 5 attempt
            then some ([], err e)
            else map_option (λ slept. (delay ∷ slept.0, slept.1)) rest
      ]
