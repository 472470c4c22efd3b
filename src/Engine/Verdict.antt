-- ===== src/Engine/Verdict.antt =====
-- When a name is blocked: `AdblockEngine::is_blocked` of src/engine.rs over the rule of matching.
use bancuh_dns.Prelude.{
  ◌≡◌, ◌≢◌, ◌↔◌, refl, Bool, true, false, none, ◌∷◌, Result, ok, Bool-cases, inl, inr, arith,
  Option, ok_of_map_err, if◌then◌else◌,
}
use bancuh_dns.Text.{Text}
use bancuh_dns.Db.{AdblockDb, get}
use bancuh_dns.Db.Interface.{Rocks}
use bancuh_dns.Db.Keys.{Name, IsName, fqdn}
use bancuh_dns.Db.Lookup.{
  Pattern, key_of, Matches, answer, IsSound, opened, contains_iff_Matches, get_refines,
}
use bancuh_dns.Engine.{db_error, get_redirect, is_blocked}

settle {ℓ} :
    {E : Type ℓ} (b : Bool) → ◌≡◌ {A = Result E Bool} (if b then ok true else ok false) (ok b)
settle true = refl
settle false = refl

module _ (r : Rocks) (L : Type 0) where
  -- The three stores are open and in working order.
  pub record IsServing (db : AdblockDb r.Db) (black white rewrites : r.Db) : Type 0 where
    pub blacklist : db.blacklist ≡ opened r black
    pub whitelist : db.whitelist ≡ opened r white
    pub rewriting : db.rewrites ≡ opened r rewrites
    pub black_sound : IsSound r black
    pub white_sound : IsSound r white
    pub rewrites_sound : IsSound r rewrites

  -- An entry of a store matches the name.
  abbrev pub Listed : r.Db → Name → Type 0
  Listed store ls = (p : Pattern) × Matches p ls × (r.contents store (key_of p) ≢ none)

  -- `is_blocked` returns on stores in working order, and says yes exactly to the names that an entry
  -- of the blacklist matches and no entry of the whitelist.
  pub is_blocked_iff :
      {db : AdblockDb r.Db} {black white rewrites : r.Db} (l : Text) (ls : Name)
      → IsServing db black white rewrites
      → IsName (l ∷ ls)
      → (b : Bool) × (is_blocked r L db (fqdn (l ∷ ls)) ≡ ok b)
        × ((b ≡ true) ↔ (Listed black (l ∷ ls) × ¬ Listed white (l ∷ ls)))
  unfolding is_blocked
  is_blocked_iff {db} {black} {white} l ls s h =
      let (w, ew, rw_w) = contains_iff_Matches r white l ls s.white_sound h in
      let (b, eb, rw_b) = contains_iff_Matches r black l ls s.black_sound h in
      rw (s.blacklist, s.whitelist, ew)
        (elim (Bool-cases w) [
          | inl e ↦ rw e (false, refl, (λ p. cc, λ p. absurd (p.1 (rw_w.0 e))))
          | inr e ↦
              rw (e, eb)
                (b, settle b, (λ p. (rw_b.0 p, λ listed. cc (rw_w.1 listed)), λ p. rw_b.1 p.0))
        ])

  -- On stores in working order `get_redirect` returns the alias of the rewrite that answers the name.
  pub get_redirect_refines :
      {db : AdblockDb r.Db} {black white rewrites : r.Db} (l : Text) (ls : Name)
      → IsServing db black white rewrites
      → IsName (l ∷ ls)
      → get_redirect r L db (fqdn (l ∷ ls)) ≡ ok (answer (r.contents rewrites) (l ∷ ls))
  unfolding get_redirect
  get_redirect_refines {rewrites} l ls s h =
      rw (s.rewriting, get_refines r rewrites (l ∷ ls) s.rewrites_sound h (λ p. cc))

-- The type of the errors of loading does not matter where there is none.
module _ (r : Rocks) (L M : Type 0) where
  pub is_blocked_any :
      (db : AdblockDb r.Db) (name : Text) {b : Bool}
      → is_blocked r L db name ≡ ok b
      → is_blocked r M db name ≡ ok b
  unfolding is_blocked
  is_blocked_any db name e = ground arith

  pub get_redirect_any :
      (db : AdblockDb r.Db) (name : Text) {o : Option Text}
      → get_redirect r L db name ≡ ok o
      → get_redirect r M db name ≡ ok o
  unfolding get_redirect
  get_redirect_any db name e = rw (ok_of_map_err db_error (get r db.rewrites name) e) refl
