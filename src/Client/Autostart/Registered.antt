-- ===== src/Client/Autostart/Registered.antt =====
-- What is set is what is read again.
use cliprelay.Client.Autostart.Handles.{Handles, run_key_open-held}
use cliprelay.Client.Autostart.Value.{text_of_value-wide_null, wide_null-length, IsString}
use cliprelay.Text.{trim, Text, Bytes}
use cliprelay.Client.Autostart.{
  trim, autostart_command, text_of_value, run_key_delete_value, run_key_set_value_string,
  run_key_get_value_string, opened_first, run_subkey, is_enabled, AutostartError, set_enabled,
  run_key_open, bytes_of_units, wide_null, Text, set_units, query_string, delete_opened, Bytes,
  Registry,
}
use cliprelay.Base.{
  ap, =?_refl, Bool, sym, Result-cases, subst, Result, ==_refl, inr, ◌∙◌, ◌^◌, leb, inl, false,
  length, arith, Bool-cases, some, none, true, ok, ◌==◌, ◌≡◌, Option, List, ℕ,
}

module _ {S : Type 0} (r : Registry S) where
  -- What Windows documents, for the values of a key by their names, each with its type and its bytes:
  -- through a handle that is open on the key, a call that says it has set, deleted or found the value has
  -- done so in that key, and opening or closing a key changes no value.
  pub record Keeps (denotes : S → ℕ → Option (List ℕ))
      (value : S → List ℕ → List ℕ → Option (ℕ × Bytes)) : Type 0 where
    pub opens :
        (s : S) (access : ℕ) (opened key name : List ℕ)
        → value (r.open_key s access opened).0 key name ≡ value s key name
    pub closes :
        (s : S) (h : ℕ) (key name : List ℕ) {open_on : List ℕ}
        → denotes s h ≡ some open_on
        → value (r.close_key s h) key name ≡ value s key name
    pub sets :
        (s : S) (h : ℕ) (key name : List ℕ) (ty : ℕ) (bytes : Bytes)
        → denotes s h ≡ some key
        → ((r.set_value s h name ty bytes).1 == 0) ≡ true
        → value (r.set_value s h name ty bytes).0 key name ≡ some (ty, bytes)
    pub deletes :
        (s : S) (h : ℕ) (key name : List ℕ)
        → denotes s h ≡ some key
        → ((r.delete_value s h name).1 == 0) ≡ true
        → value (r.delete_value s h name).0 key name ≡ none
    pub deletes_nothing :
        (s : S) (h : ℕ) (key name : List ℕ)
        → denotes s h ≡ some key
        → ((r.delete_value s h name).1 == r.error_file_not_found) ≡ true
        → value (r.delete_value s h name).0 key name ≡ none
    pub finds :
        (s : S) (h : ℕ) (key name : List ℕ) (ty : ℕ) (bytes : Bytes)
        → denotes s h ≡ some key
        → value s key name ≡ some (ty, bytes)
        → ((r.query_size s h name).0 == 0) ≡ true
        → ((r.query_size s h name).1 ≡ ty) × ((r.query_size s h name).2 ≡ length bytes)
    pub misses :
        (s : S) (h : ℕ) (key name : List ℕ)
        → denotes s h ≡ some key
        → value s key name ≡ none
        → ((r.query_size s h name).0 == 0) ≡ false
    pub is_missed :
        (s : S) (h : ℕ) (key name : List ℕ)
        → denotes s h ≡ some key
        → ((r.query_size s h name).0 == r.error_file_not_found) ≡ true
        → value s key name ≡ none
    pub reads :
        (s : S) (h : ℕ) (key name : List ℕ) (ty : ℕ) (bytes : Bytes)
        → denotes s h ≡ some key
        → value s key name ≡ some (ty, bytes)
        → ((r.query_data s h name (length bytes)).0 == 0) ≡ true
        → (r.query_data s h name (length bytes)).1 ≡ bytes

  -- The key Run, as it is given to the registry.
  abbrev run_key : List ℕ
  run_key = wide_null run_subkey

  module _ (denotes : S → ℕ → Option (List ℕ)) (c : Handles r denotes)
      (value : S → List ℕ → List ℕ → Option (ℕ × Bytes)) (k : Keeps denotes value) where
    set_units-value :
        (s : S) (h : ℕ) (name : Text) (w : List ℕ)
        → denotes s h ≡ some run_key
        → (set_units r s h name w).1 ≡ ok tt
        → value (set_units r s h name w).0 run_key (wide_null name)
          ≡ some (r.reg_sz, bytes_of_units w)
    unfolding set_units
    set_units-value s h name w is_run e =
        let bytes = bytes_of_units w in
        let one = r.set_value s h (wide_null name) r.reg_sz bytes in
        elim (Bool-cases (leb (2 ^ 32) (length bytes))) [
          | inl large ↦ absurd (ground arith)
          | inr small ↦ elim (Bool-cases (one.1 == 0)) [
            | inl fine ↦
                rw (small, set_units, fine)
                  (k.closes one.0 h run_key (wide_null name)
                      (c.sets s h (wide_null name) r.reg_sz bytes h ∙ is_run)
                    ∙ k.sets s h run_key (wide_null name) r.reg_sz bytes is_run fine)
            | inr bad ↦ absurd (ground arith)
          ]
        ]

    delete_opened-value :
        (s : S) (h : ℕ) (name : Text)
        → denotes s h ≡ some run_key
        → (delete_opened r s h name).1 ≡ ok tt
        → value (delete_opened r s h name).0 run_key (wide_null name) ≡ none
    unfolding delete_opened
    delete_opened-value s h name is_run e =
        let one = r.delete_value s h (wide_null name) in
        let shut =
          k.closes one.0 h run_key (wide_null name) (c.deletes s h (wide_null name) h ∙ is_run) in
        elim (Bool-cases (one.1 == r.error_file_not_found)) [
          | inl missing ↦
              rw (missing, delete_opened)
                (shut ∙ k.deletes_nothing s h run_key (wide_null name) is_run missing)
          | inr there_is ↦ elim (Bool-cases (one.1 == 0)) [
            | inl fine ↦
                rw (there_is, delete_opened, fine)
                  (shut ∙ k.deletes s h run_key (wide_null name) is_run fine)
            | inr bad ↦ absurd (ground arith)
          ]
        ]

    query_string-found :
        (s : S) (h : ℕ) (name written : Text) {found : Option Text}
        → IsString written
        → denotes s h ≡ some run_key
        → value s run_key (wide_null name) ≡ some (r.reg_sz, bytes_of_units (wide_null written))
        → (query_string r s h name).1 ≡ ok found
        → found ≡ some written
    unfolding query_string
    query_string-found s h name written {found} v is_run there_is e =
        let bytes = bytes_of_units (wide_null written) in
        let size = r.query_size s h (wide_null name) in
        let second = r.query_data s h (wide_null name) size.2 in
        elim (Bool-cases (size.0 == r.error_file_not_found)) [
          | inl missed ↦
              let gone = k.is_missed s h run_key (wide_null name) is_run missed in
              absurd (ground (arith, gone, there_is))
          | inr n ↦ elim (Bool-cases (size.0 == 0)) [
            | inr bad ↦ absurd (ground arith)
            | inl fine ↦
                let (ty, len) =
                  k.finds s h run_key (wide_null name) r.reg_sz bytes is_run there_is fine in
                elim (Bool-cases (second.0 == 0)) [
                  | inr bad ↦
                      absurd (ground (arith, ty, len, ==_refl r.reg_sz, wide_null-length written))
                  | inl good ↦
                      let same : second.1 ≡ bytes =
                        subst
                          (λ (n : ℕ).
                            ((r.query_data s h (wide_null name) n).0 == 0) ≡ true
                            → (r.query_data s h (wide_null name) n).1 ≡ bytes)
                          (sym len)
                          (λ g.
                            k.reads s h run_key (wide_null name) r.reg_sz bytes is_run there_is g)
                          good in
                      let told : text_of_value second.1 ≡ ok (some written) =
                        rw same (text_of_value-wide_null written v) in
                      ground (arith, ty, len, ==_refl r.reg_sz, wide_null-length written, told)
                ]
          ]
        ]

    query_string-missing :
        (s : S) (h : ℕ) (name : Text) {found : Option Text}
        → denotes s h ≡ some run_key
        → value s run_key (wide_null name) ≡ none
        → (query_string r s h name).1 ≡ ok found
        → found ≡ none
    unfolding query_string
    query_string-missing s h name is_run gone e =
        let no = k.misses s h run_key (wide_null name) is_run gone in ground (arith, no)

    -- A call that opens the key first: if it succeeds, so did opening, and the handle is open on the key.
    opened-ok :
        {X : Type 0} (s : S) (access : ℕ) (next : S → ℕ → S × Result AutostartError X) {x : X}
        → (opened_first r s access next).1 ≡ ok x
        → (h : ℕ) × ((run_key_open r s access).1 ≡ ok h)
          × ((next (run_key_open r s access).0 h).1 ≡ ok x)
          × ((opened_first r s access next).0 ≡ (next (run_key_open r s access).0 h).0)
          × (denotes (run_key_open r s access).0 h ≡ some run_key)
    opened-ok s access next e = elim (run_key_open-held r denotes c s access) [
      | inl (h, fine, more) ↦ (h, fine, ground arith, ground arith, more.is_run)
      | inr (x, bad, same) ↦ absurd (ground arith)
    ]

    opened-value :
        (s : S) (access : ℕ) (name : List ℕ)
        → value (run_key_open r s access).0 run_key name ≡ value s run_key name
    unfolding run_key_open
    opened-value s access name =
        let one = r.open_key s access run_key in
        elim (Bool-cases (one.1 == 0)) [
          | inl fine ↦ ground (arith, k.opens s access run_key run_key name)
          | inr bad ↦ ground (arith, k.opens s access run_key run_key name)
        ]

    get_value-found :
        (s : S) (name written : Text) {found : Option Text}
        → IsString written
        → value s run_key (wide_null name) ≡ some (r.reg_sz, bytes_of_units (wide_null written))
        → (run_key_get_value_string r s name).1 ≡ ok found
        → found ≡ some written
    unfolding run_key_get_value_string
    get_value-found s name written v there_is e =
        let (h, opened, fine, same, is_run) =
          opened-ok s r.read_access (λ o h. query_string r o h name) e in
        query_string-found (run_key_open r s r.read_access).0 h name written v is_run
          (opened-value s r.read_access (wide_null name) ∙ there_is) fine

    get_value-missing :
        (s : S) (name : Text) {found : Option Text}
        → value s run_key (wide_null name) ≡ none
        → (run_key_get_value_string r s name).1 ≡ ok found
        → found ≡ none
    unfolding run_key_get_value_string
    get_value-missing s name gone e =
        let (h, opened, fine, same, is_run) =
          opened-ok s r.read_access (λ o h. query_string r o h name) e in
        query_string-missing (run_key_open r s r.read_access).0 h name is_run
          (opened-value s r.read_access (wide_null name) ∙ gone) fine

    is_enabled-found :
        (s : S) (exe name : Text) {answer : Bool}
        → IsString (autostart_command exe)
        → value s run_key (wide_null name)
          ≡ some (r.reg_sz, bytes_of_units (wide_null (autostart_command exe)))
        → (is_enabled r s exe name).1 ≡ ok answer
        → answer ≡ true
    unfolding is_enabled
    is_enabled-found s exe name v there_is e =
        elim (Result-cases (run_key_get_value_string r s name).1) [
          | inl (found, got) ↦
              let is_it = get_value-found s name (autostart_command exe) v there_is got in
              ground (arith, is_it, got, =?_refl (trim (autostart_command exe)))
          | inr (inl (x, failed)) ↦ absurd (ground arith)
          | inr (inr failed) ↦ absurd (ground arith)
        ]

    is_enabled-missing :
        (s : S) (exe name : Text) {answer : Bool}
        → value s run_key (wide_null name) ≡ none
        → (is_enabled r s exe name).1 ≡ ok answer
        → answer ≡ false
    unfolding is_enabled
    is_enabled-missing s exe name gone e =
        elim (Result-cases (run_key_get_value_string r s name).1) [
          | inl (found, got) ↦
              let is_it = get_value-missing s name gone got in ground (arith, is_it, got)
          | inr (inl (x, failed)) ↦ absurd (ground arith)
          | inr (inr failed) ↦ absurd (ground arith)
        ]

    -- Where the calls of the registry do what Windows documents, and the command is a Rust text: if
    -- switching autostart on or off succeeds, then reading it, if that succeeds too, gives what it was
    -- switched to.
    pub is_enabled-set_enabled :
        (s : S) (exe value_name : Text) (enabled answer : Bool)
        → IsString (autostart_command exe)
        → (set_enabled r s exe value_name enabled).1 ≡ ok tt
        → (is_enabled r (set_enabled r s exe value_name enabled).0 exe value_name).1 ≡ ok answer
        → answer ≡ enabled
    unfolding set_enabled run_key_set_value_string run_key_delete_value
    is_enabled-set_enabled s exe value_name true answer v done e =
        let w = wide_null (autostart_command exe) in
        let (h, opened, fine, same, is_run) =
          opened-ok s r.write_access (λ o h. set_units r o h value_name w) done in
        let written =
          set_units-value (run_key_open r s r.write_access).0 h value_name w is_run fine in
        is_enabled-found (set_enabled r s exe value_name true).0 exe value_name v
          (ap (λ (t : S). value t run_key (wide_null value_name)) same ∙ written) e
    is_enabled-set_enabled s exe value_name false answer v done e =
        let (h, opened, fine, same, is_run) =
          opened-ok s r.write_access (λ o h. delete_opened r o h value_name) done in
        let gone =
          delete_opened-value (run_key_open r s r.write_access).0 h value_name is_run fine in
        is_enabled-missing (set_enabled r s exe value_name false).0 exe value_name
          (ap (λ (t : S). value t run_key (wide_null value_name)) same ∙ gone) e
