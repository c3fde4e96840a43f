-- ===== src/Client/Autostart/Handles.antt =====
-- Every key that is opened is closed, and nothing else is.
use cliprelay.Text.{Bytes, Text}
use cliprelay.Client.Autostart.{
  opened_first, reg_open_run_key, max_run_value_bytes, autostart_command, Bytes, run_subkey,
  run_key_delete_value, wide_null, run_key_set_value_string, bytes_of_units,
  run_key_get_value_string, is_enabled, Text, AutostartError, set_units, set_enabled, run_key_open,
  query_string, delete_opened, Registry,
}
use cliprelay.Base.{
  some, sym, none, Option, ◌⊎◌, arith, if◌then◌else◌, length, ◌^◌, inr, leb, inl, ltb, Bool-cases,
  ◌∙◌, not, false, err, true, ok, ◌≡◌, ◌==◌, Result, List, Bool, ℕ,
}

module _ {S : Type 0} (r : Registry S) where
  -- What Windows documents of handles, where `denotes` gives the key that a handle is open on, if it is
  -- open: a call that opens a key with success puts out a handle that was not open and is now open on
  -- that key, closing an open handle makes it none, and nothing else changes what handles are open.
  pub record Handles (denotes : S → ℕ → Option (List ℕ)) : Type 0 where
    pub is_new :
        (s : S) (access : ℕ) (key : List ℕ)
        → ((r.open_key s access key).1 == 0) ≡ true
        → denotes s (r.open_key s access key).2 ≡ none
    pub opens :
        (s : S) (access : ℕ) (key : List ℕ)
        → ((r.open_key s access key).1 == 0) ≡ true
        → denotes (r.open_key s access key).0 (r.open_key s access key).2 ≡ some key
    pub opens_no_other :
        (s : S) (access : ℕ) (key : List ℕ) (g : ℕ)
        → ((r.open_key s access key).1 == 0) ≡ true
        → (g == (r.open_key s access key).2) ≡ false
        → denotes (r.open_key s access key).0 g ≡ denotes s g
    pub fails :
        (s : S) (access : ℕ) (key : List ℕ) (g : ℕ)
        → ((r.open_key s access key).1 == 0) ≡ false
        → denotes (r.open_key s access key).0 g ≡ denotes s g
    pub sets :
        (s : S) (h : ℕ) (name : List ℕ) (ty : ℕ) (bytes : Bytes) (g : ℕ)
        → denotes (r.set_value s h name ty bytes).0 g ≡ denotes s g
    pub deletes :
        (s : S) (h : ℕ) (name : List ℕ) (g : ℕ)
        → denotes (r.delete_value s h name).0 g ≡ denotes s g
    pub closes :
        (s : S) (h : ℕ) {key : List ℕ} → denotes s h ≡ some key → denotes (r.close_key s h) h ≡ none
    pub closes_no_other :
        (s : S) (h g : ℕ) {key : List ℕ}
        → denotes s h ≡ some key
        → (g == h) ≡ false
        → denotes (r.close_key s h) g ≡ denotes s g

  either-held :
      {X Y : Type 0} (held : S → Y) (b : Bool) (x y : S × X) (n : Y)
      → held x.0 ≡ n
      → held y.0 ≡ n
      → held (if b then x else y).0 ≡ n
  either-held held true x y n a b = a
  either-held held false x y n a b = b

  module _ (denotes : S → ℕ → Option (List ℕ)) (c : Handles denotes) where
    -- One state has the key Run open under a handle, besides what is open in another.
    pub record Holds (s : S) (h : ℕ) (t : S) : Type 0 where
      pub was_none : denotes s h ≡ none
      pub is_run : denotes t h ≡ some (wide_null run_subkey)
      pub others : (g : ℕ) → (g == h) ≡ false → denotes t g ≡ denotes s g

    keeps-Holds :
        (s : S) (h : ℕ) (t u : S)
        → Holds s h t
        → ((g : ℕ) → denotes u g ≡ denotes t g)
        → Holds s h u
    keeps-Holds s h t u v same = record {
      was_none = v.was_none;
      is_run = same h ∙ v.is_run;
      others = λ g ne. same g ∙ v.others g ne;
    }

    -- Closing the handle.
    close-Holds :
        (s : S) (h : ℕ) (t : S) (g : ℕ) → Holds s h t → denotes (r.close_key t h) g ≡ denotes s g
    close-Holds s h t g v = elim (Bool-cases (g == h)) [
      | inr ne ↦ c.closes_no_other t h g v.is_run ne ∙ v.others g ne
      | inl e ↦ let same : g ≡ h = ground arith in rw same (c.closes t h v.is_run ∙ sym v.was_none)
    ]

    query_string-held :
        (s : S) (key : ℕ) (o : S) (name : Text) (g : ℕ)
        → Holds s key o
        → denotes (query_string r o key name).0 g ≡ denotes s g
    unfolding query_string
    query_string-held s key o name g v =
        let (status, value_type, size_bytes) = r.query_size o key (wide_null name) in
        let (status_2, buf) = r.query_data o key (wide_null name) size_bytes in
        let shut = close-Holds s key o g v in
        let n = denotes s g in
        let held : S → Option (List ℕ) = λ t. denotes t g in
        either-held held (status == r.error_file_not_found) _ _ n shut (
          either-held held (not (status == 0)) _ _ n shut (
            either-held held (not (value_type == r.reg_sz)) _ _ n shut (
              either-held held (size_bytes == 0) _ _ n shut (
                either-held held (ltb max_run_value_bytes size_bytes) _ _ n shut
                  (either-held held (not (status_2 == 0)) _ _ n shut shut)))))

    set_units-held :
        (s : S) (key : ℕ) (o : S) (name : Text) (value_w : List ℕ) (g : ℕ)
        → Holds s key o
        → denotes (set_units r o key name value_w).0 g ≡ denotes s g
    unfolding set_units
    set_units-held s key o name value_w g v =
        let bytes = bytes_of_units value_w in
        let (after, status) = r.set_value o key (wide_null name) r.reg_sz bytes in
        let n = denotes s g in
        let held : S → Option (List ℕ) = λ t. denotes t g in
        let shut : denotes (r.close_key after key) g ≡ n =
          close-Holds s key after g
            (keeps-Holds s key o after v (c.sets o key (wide_null name) r.reg_sz bytes)) in
        either-held held (leb (2 ^ 32) (length bytes)) _ _ n (close-Holds s key o g v)
          (either-held held (status == 0) _ _ n shut shut)

    delete_opened-held :
        (s : S) (key : ℕ) (o : S) (name : Text) (g : ℕ)
        → Holds s key o
        → denotes (delete_opened r o key name).0 g ≡ denotes s g
    unfolding delete_opened
    delete_opened-held s key o name g v =
        let (after, status) = r.delete_value o key (wide_null name) in
        let n = denotes s g in
        let held : S → Option (List ℕ) = λ t. denotes t g in
        let shut : denotes (r.close_key after key) g ≡ n =
          close-Holds s key after g
            (keeps-Holds s key o after v (c.deletes o key (wide_null name))) in
        either-held held (status == r.error_file_not_found) _ _ n shut
          (either-held held (status == 0) _ _ n shut shut)

    pub run_key_open-held :
        (s : S) (access : ℕ)
        → ((h : ℕ) × ((run_key_open r s access).1 ≡ ok h) × Holds s h (run_key_open r s access).0)
          ⊎ ((e : AutostartError) × ((run_key_open r s access).1 ≡ err e)
              × ((g : ℕ) → denotes (run_key_open r s access).0 g ≡ denotes s g))
    unfolding run_key_open
    run_key_open-held s access =
        let key = wide_null run_subkey in
        let one = r.open_key s access key in
        elim (Bool-cases (one.1 == 0)) [
          | inl fine ↦
              let same : (run_key_open r s access).0 ≡ one.0 = ground arith in
              inl (
                one.2,
                ground arith,
                rw same (record {
                  was_none = c.is_new s access key fine;
                  is_run = c.opens s access key fine;
                  others = λ g ne. c.opens_no_other s access key g fine ne;
                }),
              )
          | inr bad ↦
              let same : (run_key_open r s access).0 ≡ one.0 = ground arith in
              inr (reg_open_run_key one.1, ground arith, λ g. rw same (c.fails s access key g bad))
        ]

    opened_first-held :
        {X : Type 0} (s : S) (access : ℕ) (next : S → ℕ → S × Result AutostartError X) (g : ℕ)
        → ((o : S) (h : ℕ) → Holds s h o → denotes (next o h).0 g ≡ denotes s g)
        → denotes (opened_first r s access next).0 g ≡ denotes s g
    opened_first-held s access next g shuts = elim (run_key_open-held s access) [
      | inl (h, fine, more) ↦ rw (fine, opened_first) (shuts (run_key_open r s access).0 h more)
      | inr (e, bad, same) ↦ rw (bad, opened_first) (same g)
    ]

    -- Whatever the calls of the registry come to, where handles behave as Windows documents: after
    -- setting, deleting or reading the value, the same handles are open, on the same keys, as before.
    pub autostart-held :
        (s : S) (exe value_name : Text) (enabled : Bool) (g : ℕ)
        → (denotes (set_enabled r s exe value_name enabled).0 g ≡ denotes s g)
          × (denotes (is_enabled r s exe value_name).0 g ≡ denotes s g)
    unfolding set_enabled is_enabled run_key_get_value_string run_key_set_value_string
        run_key_delete_value
    autostart-held s exe value_name true g = (
      opened_first-held s r.write_access
          (λ o h. set_units r o h value_name (wide_null (autostart_command exe))) g
          (λ o h v. set_units-held s h o value_name (wide_null (autostart_command exe)) g v),
      opened_first-held s r.read_access (λ o h. query_string r o h value_name) g
          (λ o h v. query_string-held s h o value_name g v),
    )
    autostart-held s exe value_name false g = (
      opened_first-held s r.write_access (λ o h. delete_opened r o h value_name) g
          (λ o h v. delete_opened-held s h o value_name g v),
      opened_first-held s r.read_access (λ o h. query_string r o h value_name) g
          (λ o h v. query_string-held s h o value_name g v),
    )
