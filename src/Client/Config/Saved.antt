-- ===== src/Client/Config/Saved.antt =====
-- What saving leaves in the configuration file.
use cliprelay.Base.{
  subst, not, ℕ, zero, suc, ◌≤◌, ◌≡◌, refl, arith, Bool-cases, Option, none, some, Option-cases,
  Result, ok, err, panic, Result-cases, Sum-cases, inl, inr, length, le→ltb_false, ◌⊎◌,
}
use cliprelay.Text.{Text}
use cliprelay.Core.{Json, RoundTrips}
use cliprelay.Client.{SavedClientConfig}
use cliprelay.Client.Config.{
  config_errors, rename_failed, is_empty, write_failed, serialize_failed, UrlScheme, Attempt,
  ConfigFailure, try_save, save_attempts, save_saved_config, load_saved_config, parse_config,
  trimmed, validate_saved_config, max_config_bytes,
}

-- The outcome of writing: all of it, or none.
abbrev pub IsWhole : Text → Option Text → Option Text × Result ConfigFailure (Unit {0}) → Type 0
IsWhole payload file outcome =
    ((outcome.1 ≡ ok tt) × (outcome.0 ≡ some payload))
    ⊎ ((e : ConfigFailure) × (outcome.1 ≡ err e) × (outcome.0 ≡ file))

try_save-IsWhole :
    (payload : Text) (attempt : Attempt) (file : Option Text)
    → IsWhole payload file (try_save payload attempt file)
unfolding try_save
try_save-IsWhole payload attempt file = elim (Option-cases attempt.write_error) [
  | inr (e, fails) ↦ inr (write_failed e, ground arith, ground arith)
  | inl fine ↦ elim (Option-cases attempt.rename_error) [
    | inr (e, fails) ↦ inr (rename_failed e, ground arith, ground arith)
    | inl done ↦ inl (ground arith, ground arith)
  ]
]

save_attempts-IsWhole :
    (payload : Text) (attempts : ℕ → Attempt) (left : ℕ) (file : Option Text)
    → IsWhole payload file (save_attempts payload attempts left file)
unfolding save_attempts
save_attempts-IsWhole payload attempts zero file = try_save-IsWhole payload (attempts 0) file
save_attempts-IsWhole payload attempts (suc left) file =
    elim (try_save-IsWhole payload (attempts (suc left)) file) [
      | inl done ↦ inl (ground (arith, done.0, done.1), ground (arith, done.0, done.1))
      | inr (e, failed, same) ↦
          let later =
            save_attempts-IsWhole payload attempts left
              (try_save payload (attempts (suc left)) file).0 in
          rw (failed, save_attempts, same)
            (subst (λ (f : Option Text). IsWhole payload f (save_attempts payload attempts left f))
              same later)
    ]

validate-ne-panic :
    (url_scheme : UrlScheme) (cfg : SavedClientConfig)
    → ¬ (validate_saved_config url_scheme cfg ≡ panic)
unfolding validate_saved_config
validate-ne-panic url_scheme cfg e =
    elim (Bool-cases (not (is_empty (config_errors url_scheme cfg)))) [
      | inl some_found ↦ ground arith
      | inr clean ↦ ground arith
    ]

module _ (url_scheme : UrlScheme) (json : Json SavedClientConfig) where
  -- What saving leads to: refused, or written whole, or tried in vain with the file as it was.
  save-cases :
      (cfg : SavedClientConfig) (attempts : ℕ → Attempt) (file : Option Text)
      → ((validate_saved_config url_scheme (trimmed cfg) ≡ ok tt)
          × (payload : Text) × (json.to_vec (trimmed cfg) ≡ inr payload)
          × IsWhole payload file (save_saved_config url_scheme json cfg attempts file))
        ⊎ ((e : ConfigFailure) × ((save_saved_config url_scheme json cfg attempts file).1 ≡ err e)
            × ((save_saved_config url_scheme json cfg attempts file).0 ≡ file))
  unfolding save_saved_config
  save-cases cfg attempts file =
      elim (Result-cases (validate_saved_config url_scheme (trimmed cfg))) [
        | inl (u, valid) ↦ elim (Sum-cases (json.to_vec (trimmed cfg))) [
          | inl (e, bad) ↦ inr (serialize_failed e, ground arith, ground arith)
          | inr (payload, written) ↦ inl (
            valid,
            payload,
            written,
            rw (valid, save_saved_config, written, save_saved_config)
                (save_attempts-IsWhole payload attempts 2 file),
          )
        ]
        | inr (inl (e, bad)) ↦ inr (e, ground arith, ground arith)
        | inr (inr bad) ↦ absurd (validate-ne-panic url_scheme (trimmed cfg) bad)
      ]

  loads :
      (contents : Text) (cfg : SavedClientConfig)
      → length contents ≤ max_config_bytes
      → json.from_slice contents ≡ inr cfg
      → validate_saved_config url_scheme cfg ≡ ok tt
      → load_saved_config url_scheme json none none (some contents) ≡ ok (some cfg)
  unfolding load_saved_config parse_config
  loads contents cfg fits parsed valid =
      rw (le→ltb_false max_config_bytes (length contents) fits, parsed, parse_config, valid) refl

  -- Whichever system calls fail: saving succeeds, or the file is as it was before.
  pub save_saved_config-keeps :
      (cfg : SavedClientConfig) (attempts : ℕ → Attempt) (file : Option Text)
      → ((save_saved_config url_scheme json cfg attempts file).1 ≡ ok tt)
        ⊎ ((save_saved_config url_scheme json cfg attempts file).0 ≡ file)
  save_saved_config-keeps cfg attempts file = elim (save-cases cfg attempts file) [
    | inr (e, failed, same) ↦ inr same
    | inl (valid, payload, written, inl (fine, whole)) ↦ inl fine
    | inl (valid, payload, written, inr (e, failed, same)) ↦ inr same
  ]

  -- A configuration that was saved, after any failed attempts, is loaded again, with the blanks around
  -- its texts removed; where its JSON reads back and is within the limit of loading, and reading the
  -- file does not fail.
  pub load_saved_config-save_saved_config :
      (cfg : SavedClientConfig) (attempts : ℕ → Attempt) (file : Option Text)
      → RoundTrips json
      → ((payload : Text)
          → json.to_vec (trimmed cfg) ≡ inr payload
          → length payload ≤ max_config_bytes)
      → (save_saved_config url_scheme json cfg attempts file).1 ≡ ok tt
      → load_saved_config url_scheme json none none
          (save_saved_config url_scheme json cfg attempts file).0
        ≡ ok (some (trimmed cfg))
  load_saved_config-save_saved_config cfg attempts file rt fits e =
      elim (save-cases cfg attempts file) [
        | inr (x, failed, same) ↦ absurd (ground (arith, e, failed))
        | inl (valid, payload, written, inr (x, failed, same)) ↦ absurd (ground (arith, e, failed))
        | inl (valid, payload, written, inl (fine, whole)) ↦ rw whole (
            loads payload (trimmed cfg) (fits payload written) (rt (trimmed cfg) payload written)
              valid)
      ]
