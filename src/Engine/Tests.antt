-- ===== src/Engine/Tests.antt =====
-- The engine of src/engine.rs on concrete stores.
use bancuh_dns.Prelude.{◌≡◌, ◌↔◌, refl, Bool, true, false, ok, ◌∷◌, some}
use bancuh_dns.Text.{codes, split, join}
use bancuh_dns.Text.Utf8.{from_utf8}
use bancuh_dns.Db.{contains}
use bancuh_dns.Db.Keys.{fqdn}
use bancuh_dns.Db.Memory.{memory}
use bancuh_dns.Engine.{is_blocked, get_redirect}
use bancuh_dns.Engine.Verdict.{Listed, is_blocked_iff}
use bancuh_dns.Engine.Sample.{black, white, ads, database, database-IsServing, x_ads-IsName}

verdicts :
    (is_blocked memory Unit database (codes "x.ads.example.") ≡ ok true)
    × (is_blocked memory Unit database (codes "ok.ads.example.") ≡ ok false)
    × (is_blocked memory Unit database (codes "ads.example.") ≡ ok false)
    × (get_redirect memory Unit database (codes "bing.example.")
        ≡ ok (some (codes "strict.example.")))
unfolding is_blocked get_redirect contains split join from_utf8
verdicts = (refl, refl, refl, refl)

is_blocked_iff_example :
    (b : Bool) × (is_blocked memory Unit database (fqdn (codes "x" ∷ ads)) ≡ ok b)
    × ((b ≡ true) ↔ (
        Listed memory Unit black (codes "x" ∷ ads) × ¬ Listed memory Unit white (codes "x" ∷ ads)))
is_blocked_iff_example = is_blocked_iff memory Unit (codes "x") ads database-IsServing x_ads-IsName
