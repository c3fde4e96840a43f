-- ===== src/Tests/AutostartRuns.antt =====
-- cliprelay-client's autostart, on a registry of one value.
use cliprelay.Core.LittleEndian.{from_le_bytes, to_le_bytes}
use cliprelay.Client.Autostart.Value.{IsString}
use cliprelay.Client.Autostart.Registered.{Keeps, is_enabled-set_enabled}
use cliprelay.Client.Autostart.Handles.{Handles, autostart-held}
use cliprelay.Text.{trim, encode, Bytes, chars, ascii}
use cliprelay.Base.{
  ◌&&◌, if◌then◌else◌, false, =?_refl, subst, List, ◌=?◌, ◌==◌, arith, refl, length, some, ok, [],
  true, Bool, ◌≡◌, none, Option, ℕ,
}
use cliprelay.Text.Utf16.{encode_utf16, encode_utf16_char, from_utf16, classify}
use cliprelay.Client.Autostart.{
  wide_null, without_nul, bytes_of_units, units_of_bytes, text_of_value, run_key_get_value_string,
  Registry, is_enabled, set_enabled, run_key_open, query_string, set_units,
  run_key_set_value_string, autostart_command,
}

-- One handle at most, 7, and the values of each key.
record Hive : Type 0 where
  open_on : Option (List ℕ)
  stored : List ℕ → List ℕ → Option (ℕ × Bytes)

abbrev query_stored : Option (ℕ × Bytes) → ℕ × ℕ × ℕ
query_stored none = (2, 0, 0)
query_stored (some (ty, bytes)) = (0, ty, length bytes)

abbrev read_stored : Option (ℕ × Bytes) → ℕ × Bytes
read_stored none = (2, [])
read_stored (some (ty, bytes)) = (0, bytes)

abbrev hive_key : Hive → ℕ → Option (List ℕ)
hive_key s h = if h == 7 then s.open_on else none

abbrev put : List ℕ → List ℕ → Option (ℕ × Bytes) → Hive → Hive
put key name v s = record s { stored = λ k n. if k =? key && n =? name then v else s.stored k n }

abbrev open_in : Option (List ℕ) → Hive → List ℕ → Hive × ℕ × ℕ
open_in none s key = (record s { open_on = some key }, 0, 7)
open_in (some k) s key = (s, 5, 0)

abbrev size_in : Option (List ℕ) → Hive → List ℕ → ℕ × ℕ × ℕ
size_in none s name = (6, 0, 0)
size_in (some key) s name = query_stored (s.stored key name)

abbrev data_in : Option (List ℕ) → Hive → List ℕ → ℕ × Bytes
data_in none s name = (6, [])
data_in (some key) s name = read_stored (s.stored key name)

abbrev put_in : Option (List ℕ) → List ℕ → Option (ℕ × Bytes) → Hive → Hive × ℕ
put_in none name v s = (s, 6)
put_in (some key) name v s = (put key name v s, 0)

abbrev close_in : Option (List ℕ) → Hive → Hive
close_in none s = s
close_in (some k) s = record s { open_on = none }

abbrev hive_registry : Registry Hive
hive_registry = record {
  read_access = 131097;
  write_access = 131078;
  reg_sz = 1;
  error_file_not_found = 2;
  open_key = λ s access key. open_in s.open_on s key;
  query_size = λ s h name. size_in (hive_key s h) s name;
  query_data = λ s h name size. data_in (hive_key s h) s name;
  set_value = λ s h name ty bytes. put_in (hive_key s h) name (some (ty, bytes)) s;
  delete_value = λ s h name. put_in (hive_key s h) name none s;
  close_key = λ s h. close_in (hive_key s h) s;
}

open_in-ok :
    (o : Option (List ℕ)) (s : Hive) (key : List ℕ)
    → s.open_on ≡ o
    → ((open_in o s key).1 == 0) ≡ true
    → (s.open_on ≡ none) × (open_in o s key ≡ (record s { open_on = some key }, 0, 7))
open_in-ok none s key e fine = (e, refl)
open_in-ok (some k) s key e fine = absurd (ground arith)

open_in-failed :
    (o : Option (List ℕ)) (s : Hive) (key : List ℕ)
    → ((open_in o s key).1 == 0) ≡ false
    → (open_in o s key).0 ≡ s
open_in-failed none s key bad = absurd (ground arith)
open_in-failed (some k) s key bad = refl

put_in-open :
    (o : Option (List ℕ)) (name : List ℕ) (v : Option (ℕ × Bytes)) (s : Hive)
    → (put_in o name v s).0.open_on ≡ s.open_on
put_in-open none name v s = refl
put_in-open (some key) name v s = refl

put_in-ok :
    (o : Option (List ℕ)) (key name : List ℕ) (v : Option (ℕ × Bytes)) (s : Hive)
    → o ≡ some key
    → ((put_in o name v s).0.stored key name ≡ v) × ((put_in o name v s).1 ≡ 0)
put_in-ok o key name v s e = rw e (rw (=?_refl key, =?_refl name) (refl, refl))

hive_key-open : (s : Hive) (h : ℕ) {key : List ℕ} → hive_key s h ≡ some key → (h == 7) ≡ true
hive_key-open s h e = ground arith

close_in-stored :
    (o : Option (List ℕ)) (s : Hive) (key name : List ℕ)
    → (close_in o s).stored key name ≡ s.stored key name
close_in-stored none s key name = refl
close_in-stored (some k) s key name = refl

open_in-stored :
    (o : Option (List ℕ)) (s : Hive) (opened key name : List ℕ)
    → (open_in o s opened).0.stored key name ≡ s.stored key name
open_in-stored none s opened key name = refl
open_in-stored (some k) s opened key name = refl

hive-Handles : Handles hive_registry hive_key
hive-Handles = record {
  is_new = λ s access key fine.
      let (free, same) = open_in-ok s.open_on s key refl fine in rw (same, free) refl;
  opens =
      λ s access key fine. let (free, same) = open_in-ok s.open_on s key refl fine in rw same refl;
  opens_no_other = λ s access key g fine ne.
      let (free, same) = open_in-ok s.open_on s key refl fine in ground (arith, same);
  fails = λ s access key g bad. rw (open_in-failed s.open_on s key bad) refl;
  sets = λ s h name ty bytes g. rw (put_in-open (hive_key s h) name (some (ty, bytes)) s) refl;
  deletes = λ s h name g. rw (put_in-open (hive_key s h) name none s) refl;
  closes = λ s h {key} is_open. rw is_open (rw (hive_key-open s h is_open) refl);
  closes_no_other = λ s h g {key} is_open ne.
      let seven = hive_key-open s h is_open in rw is_open (ground (arith, seven));
}

missed_none : (o : Option (ℕ × Bytes)) → ((query_stored o).0 == 2) ≡ true → o ≡ none
missed_none none e = refl
missed_none (some (ty, bytes)) e = absurd (ground arith)

hive-Keeps : Keeps hive_registry hive_key (λ s key name. s.stored key name)
hive-Keeps = record {
  opens = λ s access opened key name. open_in-stored s.open_on s opened key name;
  closes = λ s h key name {open_on} is_open. close_in-stored (hive_key s h) s key name;
  sets = λ s h key name ty bytes is_open fine.
      (put_in-ok (hive_key s h) key name (some (ty, bytes)) s is_open).0;
  deletes = λ s h key name is_open fine. (put_in-ok (hive_key s h) key name none s is_open).0;
  deletes_nothing =
      λ s h key name is_open fine. (put_in-ok (hive_key s h) key name none s is_open).0;
  finds = λ s h key name ty bytes is_open there_is e. rw (is_open, there_is) (refl, refl);
  misses = λ s h key name is_open gone. rw (is_open, gone) refl;
  is_missed = λ s h key name is_open e.
      missed_none (s.stored key name)
        (subst (λ (o : Option (List ℕ)). ((size_in o s name).0 == 2) ≡ true) is_open e);
  reads = λ s h key name ty bytes is_open there_is e. rw (is_open, there_is) refl;
}

abbrev empty_hive : Hive
empty_hive = record { open_on = none; stored = λ key name. none }

autostart-held_example :
    (hive_key (set_enabled hive_registry empty_hive (ascii "a.exe") (ascii "ClipRelay") true).0 7
      ≡ none)
    × (hive_key (is_enabled hive_registry empty_hive (ascii "a.exe") (ascii "ClipRelay")).0 7
        ≡ none)
autostart-held_example =
    autostart-held hive_registry hive_key hive-Handles empty_hive (ascii "a.exe")
      (ascii "ClipRelay") true 7

command-IsString : IsString (autostart_command (ascii "a.exe"))
unfolding autostart_command chars encode
command-IsString = record { scalars = ground arith; encoded = refl }

switched_on :
    (set_enabled hive_registry empty_hive (ascii "a.exe") (ascii "ClipRelay") true).1 ≡ ok tt
unfolding set_enabled run_key_set_value_string run_key_open set_units bytes_of_units wide_null
    encode_utf16 chars autostart_command encode_utf16_char to_le_bytes
switched_on = refl

is_on :
    (is_enabled hive_registry
      (set_enabled hive_registry empty_hive (ascii "a.exe") (ascii "ClipRelay") true).0
      (ascii "a.exe")
      (ascii "ClipRelay")).1
    ≡ ok true
unfolding set_enabled run_key_set_value_string run_key_open set_units is_enabled query_string
    run_key_get_value_string text_of_value units_of_bytes bytes_of_units without_nul wide_null
    encode_utf16 encode_utf16_char from_utf16 classify to_le_bytes from_le_bytes chars encode trim
    ◌=?◌ autostart_command
is_on = refl

is_enabled-set_enabled_example : ◌≡◌ {A = Bool} true true
is_enabled-set_enabled_example =
    is_enabled-set_enabled hive_registry hive_key hive-Handles (λ s key name. s.stored key name)
      hive-Keeps empty_hive (ascii "a.exe") (ascii "ClipRelay") true true command-IsString
      switched_on is_on
