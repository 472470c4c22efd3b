-- ===== src/Config/Sources.antt =====
-- Which configurations resolve, and with which errors (src/config/mod.rs and src/config/source.rs).
use bancuh_dns.Prelude.{
  ◌≡◌, ◌↔◌, refl, sym, ap, ◌∙◌, subst, List, [], ◌∷◌, ◌++◌, append_assoc, append-nil, ok,
  Result-cases, ok_injective, inl, inr,
}
use bancuh_dns.Fetch.{Io}
use bancuh_dns.Config.{
  RawSource, RawConfig, Locations, FileOrUrl, Source, Config, try_from_raw_source, push_sources,
  try_from_raw_config,
}

module _ {io : Io} (at : Locations io) (config_url : FileOrUrl io) where
  module _ {T : Type 0} where
    -- The sources that the entries of a list resolve to, in order.
    abbrev pub Resolved : List (RawSource T) → List (Source io T) → Type 0
    Resolved [] [] = Unit
    Resolved [] (s ∷ ss) = ⊥
    Resolved (raw ∷ raws) [] = ⊥
    Resolved (raw ∷ raws) (s ∷ ss) =
        (try_from_raw_source at config_url raw ≡ ok s) × Resolved raws ss

    push_sources-Resolved :
        (done : List (Source io T)) (raws : List (RawSource T)) (out : List (Source io T))
        → push_sources at config_url done raws ≡ ok out
        → (ss : List (Source io T)) × (out ≡ done ++ ss) × Resolved raws ss
    unfolding push_sources
    push_sources-Resolved done [] out h = ([], cc (append-nil done), tt)
    push_sources-Resolved done (raw ∷ raws) out h =
        elim (Result-cases (try_from_raw_source at config_url raw)) [
          | inl (s, e) ↦
              let (ss, whole, rest) =
                push_sources-Resolved (done ++ s ∷ []) raws out (rw (push_sources, e) at h) in
              (s ∷ ss, whole ∙ append_assoc done (s ∷ []) ss, (e, rest))
          | inr (e, failed) ↦ cc (rw (push_sources, failed) at h)
        ]

    Resolved-push_sources :
        (done : List (Source io T)) (raws : List (RawSource T)) (ss : List (Source io T))
        → Resolved raws ss
        → push_sources at config_url done raws ≡ ok (done ++ ss)
    unfolding push_sources
    Resolved-push_sources done [] [] h = ap ok (sym (append-nil done))
    Resolved-push_sources done [] (s ∷ ss) h = elim h [ ]
    Resolved-push_sources done (raw ∷ raws) [] h = elim h [ ]
    Resolved-push_sources done (raw ∷ raws) (s ∷ ss) (e, rest) =
        rw (push_sources, e)
          (Resolved-push_sources (done ++ s ∷ []) raws ss rest
            ∙ ap ok (append_assoc done (s ∷ []) ss))

    push_sources_iff :
        (raws : List (RawSource T)) (ss : List (Source io T))
        → (push_sources at config_url [] raws ≡ ok ss) ↔ Resolved raws ss
    push_sources_iff raws ss = (
      λ h.
          let (ss', whole, resolved) = push_sources-Resolved [] raws ss h in
          subst (Resolved raws) (sym whole) resolved,
      Resolved-push_sources [] raws ss,
    )

  -- A configuration loads exactly to the lists in which each entry is resolved, in its order.
  pub try_from_raw_config_iff :
      (raw : RawConfig) (config : Config io)
      → (try_from_raw_config at config_url raw ≡ ok config) ↔ (
          Resolved raw.blacklist config.blacklist
          × Resolved raw.whitelist config.whitelist
          × Resolved raw.overrides config.overrides)
  unfolding try_from_raw_config
  try_from_raw_config_iff raw config = (
    λ h. elim (Result-cases (push_sources at config_url [] raw.blacklist)) [
      | inr (e, failed) ↦ cc (rw (try_from_raw_config, failed) at h)
      | inl (b, eb) ↦ elim (Result-cases (push_sources at config_url [] raw.whitelist)) [
        | inr (e, failed) ↦ cc (rw (try_from_raw_config, eb, failed) at h)
        | inl (w, ew) ↦ elim (Result-cases (push_sources at config_url [] raw.overrides)) [
          | inr (e, failed) ↦ cc (rw (try_from_raw_config, eb, ew, failed) at h)
          | inl (o, eo) ↦
              let same : record { blacklist = b; whitelist = w; overrides = o } ≡ config =
                ok_injective (rw (try_from_raw_config, eb, ew, eo) at h) in
              (
                (push_sources_iff raw.blacklist config.blacklist).0
                    (eb ∙ ap (λ c. ok c.blacklist) same),
                (push_sources_iff raw.whitelist config.whitelist).0
                    (ew ∙ ap (λ c. ok c.whitelist) same),
                (push_sources_iff raw.overrides config.overrides).0
                    (eo ∙ ap (λ c. ok c.overrides) same),
              )
        ]
      ]
    ],
    λ (b, w, o).
        let eb = (push_sources_iff raw.blacklist config.blacklist).1 b in
        let ew = (push_sources_iff raw.whitelist config.whitelist).1 w in
        let eo = (push_sources_iff raw.overrides config.overrides).1 o in
        rw (try_from_raw_config, eb, ew, eo) refl,
  )
