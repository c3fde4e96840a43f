-- ===== src/Tests/ClickRuns.antt =====
-- cliprelay-client's buttons and folders at concrete inputs.
use cliprelay.Tests.ClientRuns.{phone_shared, sample_outside}
use cliprelay.Client.Downloads.Fresh.{HasRoom, save_temp_file_to_downloads-unused}
use cliprelay.Tests.DeliveryRuns.{this_morning, laptop_config}
use cliprelay.Core.{encrypted}
use cliprelay.Tests.CoreRuns.{encrypt_sample, sealed_payload, sample_key}
use cliprelay.Tests.Samples.{sample_primitives}
use cliprelay.Text.{encode_char, encode, chars, ascii, trim, Text}
use cliprelay.Tests.WindowRuns.{sample_desktop, new_window}
use cliprelay.Core.Cipher.{encrypt_clipboard_event}
use cliprelay.Client.FileName.{
  is_control, is_illegal, replaced, replace_illegal, sanitize_file_name,
}
use cliprelay.Client.Downloads.{
  last_dot, path_file_name, split_name, stem_and_extension, candidate, first_free, destination,
  save_temp_file_to_downloads, Folder,
}
use cliprelay.Client.Clicks.Sending.{click_send_text-queued, runtime_error-IsBlocked, IsBlocked}
use cliprelay.Base.{inl, inr, [], ◌∷◌, ◌+◌, refl, true, ok, length, ◌≡◌, leb, false, ◌=?◌, none, In}
use cliprelay.Client.{room_key_ready, input_exceeds_limit, runtime_error, send_text}
use cliprelay.Client.Window.{command, on_ui_events}
use cliprelay.Client.Clicks.{can_send, can_send_file, click_send_text, Screen}
use cliprelay.Client.Outgoing.{queue, on_send_text, text_event, saturating_suc}

runtime_error-IsBlocked_example :
    IsBlocked
      (on_ui_events sample_desktop new_window 5
        (runtime_error input_exceeds_limit ∷ room_key_ready true ∷ [])).0
      (ascii "hi")
      false
runtime_error-IsBlocked_example =
    runtime_error-IsBlocked sample_desktop new_window 5 input_exceeds_limit
      (room_key_ready true ∷ []) (ascii "hi") false tt

abbrev hello_screen : Screen
hello_screen = record {
  window = new_window;
  send_text = ascii "hello cliprelay";
  autostart_enabled = false;
}

enabled : can_send hello_screen ≡ true
unfolding can_send can_send_file trim ◌=?◌
enabled = refl

encrypted_text :
    encrypt_clipboard_event sample_primitives sample_key
      (text_event laptop_config this_morning (saturating_suc 0) (ascii "hello cliprelay"))
    ≡ ok sealed_payload
unfolding text_event saturating_suc
encrypted_text = encrypt_sample

click_send_text-queued_example :
    In (command (send_text (ascii "hello cliprelay"))) (click_send_text hello_screen 5).1
    × In
        (queue (encrypted sealed_payload))
        (on_send_text sample_primitives sample_outside laptop_config phone_shared 0 this_morning
          (ascii "hello cliprelay")).1
click_send_text-queued_example =
    click_send_text-queued sample_primitives sample_outside laptop_config phone_shared 0
      this_morning hello_screen 5 sample_key sealed_payload enabled refl encrypted_text

-- The name itself is taken, and the first number is free.
abbrev busy_folder : Folder
busy_folder = record {
  create_error = none;
  exists = λ name. leb (length name) 5;
  copy_error = λ name. none;
  decimal = λ n. (48 + n) ∷ [];
}

has_room : HasRoom busy_folder (sanitize_file_name (ascii "a.txt"))
unfolding sanitize_file_name replace_illegal replaced is_illegal is_control trim chars encode
    encode_char candidate stem_and_extension split_name path_file_name last_dot ◌=?◌
has_room = inr (inl refl)

save_temp_file_to_downloads-unused_example :
    (dest : Text) × (save_temp_file_to_downloads busy_folder (ascii "a.txt") ≡ ok dest)
    × (busy_folder.exists dest ≡ false)
save_temp_file_to_downloads-unused_example =
    save_temp_file_to_downloads-unused busy_folder (ascii "a.txt") refl (λ dest. refl) has_room

saved_as : save_temp_file_to_downloads busy_folder (ascii "a.txt") ≡ ok (ascii "a (1).txt")
unfolding save_temp_file_to_downloads destination first_free sanitize_file_name replace_illegal
    replaced is_illegal is_control trim chars encode encode_char candidate stem_and_extension
    split_name path_file_name last_dot ◌=?◌
saved_as = refl
