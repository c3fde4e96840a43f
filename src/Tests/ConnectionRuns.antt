-- ===== src/Tests/ConnectionRuns.antt =====
-- cliprelay-client's connection at concrete inputs.
use cliprelay.Client.Outgoing.Sending.{start_command}
use cliprelay.Core.Cipher.{check_text, check_mime, encrypt_clipboard_event}
use cliprelay.Client.Runtime.Counting.{run_client_runtime-Ascends}
use cliprelay.Tests.WindowRuns.{new_window, sample_desktop}
use cliprelay.Client.Connection.Queue.{run_tasks-frames, frames, effects_of, encoded}
use cliprelay.Client.Runtime.Ended.{one_round-IsAlone, events_of, IsAlone}
use cliprelay.Client.Dialling.Attempts.{dial_loop-three_attempts, three_attempts}
use cliprelay.Client.{send_text}
use cliprelay.Text.{trim, ascii, Bytes}
use cliprelay.Tests.Samples.{sample_codec, sample_primitives}
use cliprelay.Tests.ClientRuns.{
  shown_number, noon, no_files, sample_outside, phone_shared, phone_config,
}
use cliprelay.Client.Connection.{
  on_next_chunk, spawned, selects, commands_end, stream_ends, on_takes_command, queued, happens,
  takes_message, takes_command, new_live, Happening, run_tasks, World, Live,
}
use cliprelay.Client.Runtime.{
  on_runtime, forget_session, linger, connected_session, run_single_session, rounds, Round,
  run_client_runtime, one_round, Runtime,
}
use cliprelay.Client.Dialling.{dial_times_out, dial_error, connects, dial_loop, Dial}
use cliprelay.Base.{inr, refl, arith, ◌++◌, zero, ◌∷◌, true, suc, some, none, [], ◌≡◌, List, ℕ}
use cliprelay.Client.Window.{on_ui_events}
use cliprelay.Client.Outgoing.{Files, on_command, on_send_text, text_event, saturating_suc}
use cliprelay.Client.Outgoing.Runs.{Ascends, counters}
use cliprelay.Client.Runtime.{Round, runtime_of}

abbrev pub sample_world : World
sample_world = record {
  prim = sample_primitives;
  outside = sample_outside;
  codec = sample_codec;
  files = no_files;
  decimal = shown_number;
}

-- The second attempt connects.
abbrev second_attempt : ℕ → Dial
second_attempt zero = connects
second_attempt (suc zero) = dial_times_out
second_attempt (suc (suc n)) = connects

dial_loop-three_attempts_example :
    dial_loop 3 second_attempt 1 ≡ some (three_attempts second_attempt)
dial_loop-three_attempts_example = dial_loop-three_attempts 3 second_attempt (omega arith)

-- The hello is written, a text is queued, and the stream ends.
abbrev one_text_sent : List Happening
one_text_sent =
    takes_message true
    ∷ takes_command (send_text (ascii "one")) noon
    ∷ takes_message true
    ∷ stream_ends
    ∷ selects
    ∷ []

abbrev phone_live : Live
phone_live = new_live phone_config phone_shared 3 []

run_tasks-frames_example :
    let outs = (run_tasks sample_world phone_config phone_live one_text_sent).1 in
    (rest : List Bytes) × (encoded sample_codec (phone_live.outgoing ++ queued (effects_of outs))
      ≡ frames outs ++ rest)
run_tasks-frames_example = run_tasks-frames sample_world phone_config phone_live one_text_sent

abbrev two_sessions : List Round
two_sessions =
    record {
      dial = second_attempt;
      happenings = takes_command (send_text (ascii "one")) noon ∷ stream_ends ∷ selects ∷ [];
      before_forgotten = [];
      after_forgotten = [];
    }
    ∷ record {
      dial = second_attempt;
      happenings = commands_end ∷ [];
      before_forgotten = [];
      after_forgotten = [];
    }
    ∷ []

last_counter :
    (run_client_runtime sample_world phone_config none phone_shared two_sessions).0.counter ≡ 4
unfolding run_client_runtime rounds one_round run_single_session dial_loop dial_error
    connected_session run_tasks happens on_takes_command new_live linger spawned forget_session
    start_command on_next_chunk runtime_of on_runtime on_command on_send_text text_event
    saturating_suc encrypt_clipboard_event check_mime check_text trim
last_counter = refl

run_client_runtime-Ascends_example :
    let (last, outs) =
      run_client_runtime sample_world phone_config none phone_shared two_sessions in
    Ascends 3 (counters (effects_of outs)) last.counter
run_client_runtime-Ascends_example =
    run_client_runtime-Ascends sample_world phone_config none phone_shared two_sessions
      (omega (arith, last_counter))

abbrev phone_runtime : Runtime
phone_runtime = record { shared = phone_shared; counter = 3; transfers = [] }

abbrev ended_session : Round
ended_session = record {
  dial = second_attempt;
  happenings = one_text_sent;
  before_forgotten = [];
  after_forgotten = [];
}

one_round-IsAlone_example :
    let (next, outs) = one_round sample_world phone_config phone_runtime ended_session in
    (next.shared.room_key ≡ none)
    × IsAlone (on_ui_events sample_desktop new_window 5 (events_of outs)).0
one_round-IsAlone_example =
    one_round-IsAlone sample_world phone_config phone_runtime ended_session sample_desktop
      new_window 5 refl

abbrev one_file : Files
one_file = record {
  size = λ path. inr 3;
  file_name = λ path. some (ascii "a.txt");
  read = λ path. inr (ascii "abc");
}
