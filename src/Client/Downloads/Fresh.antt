-- ===== src/Client/Downloads/Fresh.antt =====
-- A saved file takes no other file's place.
use cliprelay.Client.FileName.{sanitize_file_name}
use cliprelay.Text.{Text}
use cliprelay.Client.Downloads.{
  candidate, sanitize_file_name, stem_and_extension, save_temp_file_to_downloads, first_free,
  destination, Text, Folder,
}
use cliprelay.Base.{
  subst, Option-cases, zero, ok, inr, ◌⊎◌, inl, arith, Bool-cases, some, none, false, ◌≡◌, suc, ℕ,
}

module _ (folder : Folder) where
  -- One of the names from `i` on, `left` of them, is free.
  abbrev pub IsFree : (ℕ → Text) → ℕ → ℕ → Type 0
  IsFree name_of i zero = ⊥
  IsFree name_of i (suc left) = (folder.exists (name_of i) ≡ false) ⊎ IsFree name_of (suc i) left

  first_free-unused :
      (name_of : ℕ → Text) (i left : ℕ) {dest : Text}
      → first_free folder name_of i left ≡ some dest
      → folder.exists dest ≡ false
  unfolding first_free
  first_free-unused name_of i zero e = absurd (ground arith)
  first_free-unused name_of i (suc left) {dest} e = elim (Bool-cases (folder.exists (name_of i))) [
    | inl taken ↦ first_free-unused name_of (suc i) left (ground arith)
    | inr unused ↦
        let same : name_of i ≡ dest = ground arith in
        subst (λ (t : Text). folder.exists t ≡ false) same unused
  ]

  first_free-some :
      (name_of : ℕ → Text) (i left : ℕ)
      → IsFree name_of i left
      → ¬ (first_free folder name_of i left ≡ none)
  unfolding first_free
  first_free-some name_of i zero free e = absurd free
  first_free-some name_of i (suc left) (inl unused) e = ground arith
  first_free-some name_of i (suc left) (inr later) e =
      elim (Bool-cases (folder.exists (name_of i))) [
        | inl taken ↦ first_free-some name_of (suc i) left later (ground arith)
        | inr unused ↦ ground arith
      ]

  destination-unused :
      (safe : Text) {dest : Text} → destination folder safe ≡ some dest → folder.exists dest ≡ false
  unfolding destination
  destination-unused safe {dest} e = elim (Bool-cases (folder.exists safe)) [
    | inl taken ↦
        first_free-unused (candidate folder (stem_and_extension safe).0 (stem_and_extension safe).1)
          1 200 (ground arith)
    | inr unused ↦
        let same : safe ≡ dest = ground arith in
        subst (λ (t : Text). folder.exists t ≡ false) same unused
  ]

  -- The name, or one of the 200 with a number, is free.
  abbrev pub HasRoom : Text → Type 0
  HasRoom safe =
      let (stem, ext) = stem_and_extension safe in
      (folder.exists safe ≡ false) ⊎ IsFree (candidate folder stem ext) 1 200

  destination-some : (safe : Text) → HasRoom safe → ¬ (destination folder safe ≡ none)
  unfolding destination
  destination-some safe (inl unused) e = ground arith
  destination-some safe (inr free) e = elim (Bool-cases (folder.exists safe)) [
    | inl taken ↦
        first_free-some (candidate folder (stem_and_extension safe).0 (stem_and_extension safe).1) 1
          200 free (ground arith)
    | inr unused ↦ ground arith
  ]

  -- Where the folder can be made, copying does not fail, and the sanitized name or one of its 200 numbered variants
  -- is free: the file is saved, under a name that no file had.
  pub save_temp_file_to_downloads-unused :
      (file_name : Text)
      → folder.create_error ≡ none
      → ((dest : Text) → folder.copy_error dest ≡ none)
      → HasRoom (sanitize_file_name file_name)
      → (dest : Text) × (save_temp_file_to_downloads folder file_name ≡ ok dest)
        × (folder.exists dest ≡ false)
  unfolding save_temp_file_to_downloads
  save_temp_file_to_downloads-unused file_name made copies room =
      let safe = sanitize_file_name file_name in
      elim (Option-cases (destination folder safe)) [
        | inl full ↦ absurd (destination-some safe room full)
        | inr (dest, free) ↦
            (dest, ground (arith, made, free, copies dest), destination-unused safe free)
      ]
