-- ===== src/Tests/HistoryRuns.antt =====
-- cliprelay-client's history at concrete inputs.
use cliprelay.Client.History.Kept.{load_history-save_history}
use cliprelay.Tests.WindowRuns.{one_failure}
use cliprelay.Tests.Samples.{rest_of, phone, field_of, field}
use cliprelay.Text.{ascii, Text, Bytes}
use cliprelay.Core.{RoundTrips, Json}
use cliprelay.Base.{
  inl, drop-append, ◌⊎◌, take-append, none, zero, refl, length, inr, arith, ◌≡◌, suc, false, List,
  ℕ, [], ◌∷◌,
}
use cliprelay.Client.Window.{ActivityEntry, ActivityDirection, sent, received}
use cliprelay.Client.History.{save_history, load_history}

abbrev of_direction : ActivityDirection → ℕ
of_direction sent = 0
of_direction received = 1

abbrev direction_of : ℕ → ActivityDirection
direction_of zero = sent
direction_of (suc n) = received

abbrev write_entries : List ActivityEntry → Bytes
write_entries [] = []
write_entries (e ∷ es) =
    e.ts_unix_ms
    ∷ of_direction e.direction
    ∷ field e.peer_device_id (field e.kind (field e.summary (write_entries es)))

abbrev read_entries : ℕ → Bytes → List ActivityEntry
read_entries zero b = []
read_entries (suc n) [] = []
read_entries (suc n) (t ∷ []) = []
read_entries (suc n) (t ∷ d ∷ b) =
    record {
      ts_unix_ms = t;
      direction = direction_of d;
      peer_device_id = field_of b;
      kind = field_of (rest_of b);
      summary = field_of (rest_of (rest_of b));
    }
    ∷ read_entries n (rest_of (rest_of (rest_of b)))

abbrev read_counted : Bytes → Text ⊎ List ActivityEntry
read_counted [] = inl []
read_counted (n ∷ b) = inr (read_entries n b)

abbrev entries_json : Json (List ActivityEntry)
entries_json = record {
  to_vec = λ es. inr (length es ∷ write_entries es);
  from_slice = read_counted;
}

direction_back : (d : ActivityDirection) → direction_of (of_direction d) ≡ d
direction_back sent = refl
direction_back received = refl

entries_back : (es : List ActivityEntry) → read_entries (length es) (write_entries es) ≡ es
entries_back [] = refl
entries_back (e ∷ es) =
    let b = write_entries es in
    rw
      (
        take-append e.peer_device_id (field e.kind (field e.summary b)),
        drop-append e.peer_device_id (field e.kind (field e.summary b)),
        take-append e.kind (field e.summary b),
        drop-append e.kind (field e.summary b),
        take-append e.summary b,
        drop-append e.summary b,
        entries_back es,
        direction_back e.direction,
      )
      refl

entries_json-RoundTrips : RoundTrips entries_json
entries_json-RoundTrips es b e = ground (arith, entries_back es)

abbrev two_entries : List ActivityEntry
two_entries =
    record {
      ts_unix_ms = 9;
      direction = sent;
      peer_device_id = ascii "room";
      kind = ascii "text";
      summary = ascii "hi";
    }
    ∷ record {
      ts_unix_ms = 4;
      direction = received;
      peer_device_id = phone;
      kind = ascii "text";
      summary = ascii "ho";
    }
    ∷ []

load_history-save_history_example :
    load_history entries_json false (save_history entries_json two_entries one_failure none)
    ≡ two_entries
load_history-save_history_example =
    load_history-save_history entries_json two_entries one_failure none
      (2 ∷ write_entries two_entries) entries_json-RoundTrips refl (omega arith) (omega arith, tt)
      (inr (inl (refl, refl)))
