-- ===== src/Tests/RelayRuns.antt =====
-- cliprelay-relay at concrete inputs: a room with a laptop and a phone.
use cliprelay.Base.{◌=?◌, ℕ, ◌≡◌, ◌≢◌, refl, arith, true, some, [], ◌∷◌, All}
use cliprelay.Base.Map.{get}
use cliprelay.Relay.Bucket.{consume, refilled}
use cliprelay.Relay.Room.{register_client, unregister_client}
use cliprelay.Relay.Room.Invariant.{IsRelay, register_client-IsRelay, unregister_client-IsRelay}
use cliprelay.Relay.Room.Membership.{lookup_device}
use cliprelay.Relay.Session.{on_binary, Session, ended}
use cliprelay.Relay.Session.Forwarding.{on_binary-only, IsRelayed}
use cliprelay.Relay.Server.{Server, run, receives}
use cliprelay.Relay.Server.Reachable.{run-IsRelay}
use cliprelay.Tests.CoreRuns.{sample_frame, sample_frame-IsByte}
use cliprelay.Tests.Samples.{
  sample_codec, whole, laptop, phone, den, phone_connection, den_state, den_state-IsRelay,
  laptop_session,
}

register_client-IsRelay_example :
    IsRelay (register_client sample_codec den_state den phone_connection).0
register_client-IsRelay_example =
    register_client-IsRelay sample_codec den_state den phone_connection den_state-IsRelay

unregister_client-IsRelay_example : IsRelay (unregister_client sample_codec den_state den phone).0
unregister_client-IsRelay_example =
    unregister_client-IsRelay sample_codec den_state den phone den_state-IsRelay

phone_not_laptop : phone ≢ laptop
phone_not_laptop e = ground arith

pub phone_there : lookup_device den_state den phone ≡ some phone_connection
unfolding get ◌=?◌
phone_there = refl

on_binary-only_example :
    All
      (IsRelayed whole sample_codec den_state laptop_session sample_frame)
      (on_binary whole sample_codec den_state laptop_session 5 sample_frame).1
on_binary-only_example =
    on_binary-only whole sample_codec den_state laptop_session 5 sample_frame den_state-IsRelay
      sample_frame-IsByte

pub has_token : (consume whole laptop_session.rate_limiter 1 5).1 ≡ true
unfolding consume refilled
has_token = refl

abbrev laptop_again : Session ℕ
laptop_again = record laptop_session { tx = 2 }

-- The laptop has connected twice.
abbrev den_server : Server ℕ
den_server = record {
  relay = den_state;
  sessions = laptop_session ∷ laptop_again ∷ [];
  next_tx = 3;
}

run-IsRelay_example : IsRelay (run whole sample_codec den_server (receives 0 9 ended ∷ [])).relay
run-IsRelay_example =
    run-IsRelay whole sample_codec den_server (receives 0 9 ended ∷ []) den_state-IsRelay
