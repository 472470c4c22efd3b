-- ===== src/Config/Errors.antt =====
-- How the entry of a configuration fails to resolve (src/config/source.rs).
use bancuh_dns.Prelude.{
  ◌≡◌, ◌⊎◌, refl, sym, ap, ◌∙◌, ok_injective, true, false, some, none, ◌↔◌, Bool-cases,
  Option-cases, Result-cases, ok, err, inl, inr,
}
use bancuh_dns.Text.{Text, codes, starts_with}
use bancuh_dns.Fetch.{Io}
use bancuh_dns.Config.{
  RawSource, Locations, FromRawSourceError, invalid_url, invalid_path, file_not_exists, FileOrUrl,
  url, file, Source, file_or_url_of_text, locate, beside, try_from_raw_source,
}

module _ {io : Io} (at : Locations io) where
  file_or_url_of_text_found :
      (s : Text) → (found : FileOrUrl io) × (file_or_url_of_text at s ≡ ok found)
  unfolding file_or_url_of_text
  file_or_url_of_text_found s = elim (Result-cases (at.parse_url s)) [
    | inl (u, e) ↦ (url u, rw (file_or_url_of_text, e) refl)
    | inr (x, e) ↦ (file (at.path_of_text s), rw (file_or_url_of_text, e) refl)
  ]

  -- Why a path beside a configuration file is refused: the configuration file has no parent, or there is
  -- no such file.
  abbrev pub FailsBeside : io.FilePath → Text → FromRawSourceError at.ParseError → Type 0
  FailsBeside p path e =
      ((at.parent p ≡ none) × (e ≡ invalid_path))
      ⊎ ((d : io.FilePath) × (at.parent p ≡ some d)
          × (at.exists (at.join_path d path) ≡ false)
          × (e ≡ file_not_exists))

  -- Why a relative path is refused: the URL of the configuration does not join with it, or as above.
  abbrev pub Fails : FileOrUrl io → Text → FromRawSourceError at.ParseError → Type 0
  Fails (url u) path e = (x : at.ParseError) × (at.join_url u path ≡ err x) × (e ≡ invalid_url x)
  Fails (file p) path e = FailsBeside p path e

  beside-err :
      (p : io.FilePath) (path : Text) (e : FromRawSourceError at.ParseError)
      → (beside at p path ≡ err e) ↔ FailsBeside p path e
  unfolding beside
  beside-err p path e = elim (Option-cases (at.parent p)) [
    | inl root ↦ (
      λ h. inl (root, cc (rw (beside, root) at h)),
      λ fails. elim fails [
        | inl (_, same) ↦ rw (beside, root) (cc same)
        | inr (d, found, _, _) ↦ cc (root, found)
      ],
    )
    | inr (d, found) ↦ elim (Bool-cases (at.exists (at.join_path d path))) [
      | inl yes' ↦ (
        λ h. cc (rw (beside, found, yes') at h),
        λ fails. elim fails [
          | inl (root, _) ↦ cc (root, found)
          | inr (d', found', missing, _) ↦ cc (found, found', missing, yes')
        ],
      )
      | inr missing ↦ (
        λ h. inr (d, found, missing, cc (rw (beside, found, missing) at h)),
        λ fails. elim fails [
          | inl (root, _) ↦ cc (root, found)
          | inr (d', found', _, same) ↦ rw (beside, found, missing) (cc same)
        ],
      )
    ]
  ]

  -- A text that is not relative is never an error.
  file_or_url_of_text-ne-err :
      (s : Text) (e : FromRawSourceError at.ParseError) → ¬ (file_or_url_of_text at s ≡ err e)
  file_or_url_of_text-ne-err s e h = let (found, g) = file_or_url_of_text_found s in cc (g, h)

  locate-err :
      (config_url : FileOrUrl io) (path : Text) (e : FromRawSourceError at.ParseError)
      → (locate at config_url path ≡ err e)
        ↔ ((starts_with path (codes "./") ≡ true) × Fails config_url path e)
  unfolding locate
  locate-err (url u) path e = elim (Bool-cases (starts_with path (codes "./"))) [
    | inr no' ↦ (
      λ h. absurd (file_or_url_of_text-ne-err path e (rw (locate, no') at h)),
      λ (yes', _). cc (no', yes'),
    )
    | inl yes' ↦ elim (Result-cases (at.join_url u path)) [
      | inl (j, g) ↦ (λ h. cc (rw (locate, yes', g) at h), λ (_, (x, failed, _)). cc (g, failed))
      | inr (x, g) ↦ (
        λ h. (yes', (x, g, cc (rw (locate, yes', g) at h))),
        λ (_, (x', failed, same)). rw (locate, yes', failed) (cc same),
      )
    ]
  ]
  locate-err (file p) path e = elim (Bool-cases (starts_with path (codes "./"))) [
    | inr no' ↦ (
      λ h. absurd (file_or_url_of_text-ne-err path e (rw (locate, no') at h)),
      λ (yes', _). cc (no', yes'),
    )
    | inl yes' ↦ (
      λ h. (yes', (beside-err p path e).0 (rw (locate, yes') at h)),
      λ (_, fails). rw (locate, yes') ((beside-err p path e).1 fails),
    )
  ]

  -- An entry fails to resolve exactly if its path starts with "./" and: the configuration is at a URL
  -- that does not join with the path, with the error of that; or it is at a file without a parent; or
  -- the path leads from the parent to no file that exists.
  pub try_from_raw_source-err :
      {T : Type 0} (config_url : FileOrUrl io) (source : RawSource T)
      (e : FromRawSourceError at.ParseError)
      → (try_from_raw_source at config_url source ≡ err e)
        ↔ ((starts_with source.path (codes "./") ≡ true) × Fails config_url source.path e)
  unfolding try_from_raw_source
  try_from_raw_source-err config_url source e =
      elim (Result-cases (locate at config_url source.path)) [
        | inl (found, g) ↦ (
          λ h. cc (rw (try_from_raw_source, g) at h),
          λ fails. cc (g, (locate-err config_url source.path e).1 fails),
        )
        | inr (x, g) ↦ (
          λ h. (locate-err config_url source.path e).0 (g ∙ cc (rw (try_from_raw_source, g) at h)),
          λ fails.
              let same = (locate-err config_url source.path e).1 fails in
              rw (try_from_raw_source, same) refl,
        )
      ]

  beside-exists :
      (p : io.FilePath) (path : Text) (found : FileOrUrl io)
      → beside at p path ≡ ok found
      → (q : io.FilePath) × (found ≡ file q) × (at.exists q ≡ true)
  unfolding beside
  beside-exists p path found h = elim (Option-cases (at.parent p)) [
    | inl root ↦ cc (rw (beside, root) at h)
    | inr (d, e) ↦ elim (Bool-cases (at.exists (at.join_path d path))) [
      | inl yes' ↦ (at.join_path d path, cc (rw (beside, e, yes') at h), yes')
      | inr missing ↦ cc (rw (beside, e, missing) at h)
    ]
  ]

  -- An entry of a configuration file that starts with "./" resolves only to a file that exists.
  pub try_from_raw_source-exists :
      {T : Type 0} (p : io.FilePath) (raw : RawSource T) (source : Source io T)
      → starts_with raw.path (codes "./") ≡ true
      → try_from_raw_source at (file p) raw ≡ ok source
      → (q : io.FilePath) × (source.file_or_url ≡ file q) × (at.exists q ≡ true)
  unfolding try_from_raw_source locate
  try_from_raw_source-exists p raw source relative h = elim (Result-cases (beside at p raw.path)) [
    | inl (found, g) ↦
        let (q, e, there) = beside-exists p raw.path found g in
        let whole : record { format = raw.format; file_or_url = found } ≡ source =
          ok_injective (rw (try_from_raw_source, locate, relative, g) at h) in
        (q, ap (λ s. s.file_or_url) (sym whole) ∙ e, there)
    | inr (x, g) ↦ cc (rw (try_from_raw_source, locate, relative, g) at h)
  ]
