-- ===== src/Client/Connection/Queue.antt =====
-- What a session writes to the socket, against what was queued.
use cliprelay.Client.Outgoing.Sending.{start_command, send_chunk, Sending}
use cliprelay.Base.{
  none, some, Option, if◌then◌else◌, subst, ℕ, ◌≡◌, refl, ap, ◌∙◌, Bool, true, false, Bool-cases,
  Option-cases, Result-cases, ok, List, [], ◌∷◌, ◌++◌, append_assoc, append-nil, inl, inr, map,
}
use cliprelay.Text.{Bytes}
use cliprelay.Core.{WireMessage, Codec}
use cliprelay.Core.Frame.{encode_frame}
use cliprelay.Client.{ClientConfig, RuntimeCommand, UiEvent}
use cliprelay.Client.Outgoing.{Effect, queue, tell, persist, Clock}
use cliprelay.Client.Incoming.{Incoming, on_incoming}
use cliprelay.Client.Connection.{
  start_command, send_chunk, selects, next_chunk, Sending, spawned, others_do, on_ticks,
  on_next_chunk, for_window, on_control, for_presence, ControlMessage, Out, effect, frame, ping,
  Live, Happening, takes_command, reads, takes_control, takes_message, ticks, stream_ends,
  commands_end, told, queued, World, send_message, on_takes_message, on_takes_control, on_reads,
  on_takes_command, happens, run_tasks,
}

-- The frames among what is done outside, and the effects.
abbrev pub frames : List Out → List Bytes
frames [] = []
frames (frame bytes ∷ outs) = bytes ∷ frames outs
frames (effect e ∷ outs) = frames outs
frames (ping ∷ outs) = frames outs

abbrev pub effects_of : List Out → List Effect
effects_of [] = []
effects_of (effect e ∷ outs) = e ∷ effects_of outs
effects_of (frame bytes ∷ outs) = effects_of outs
effects_of (ping ∷ outs) = effects_of outs

-- The frames of messages, in order; one that does not encode has none.
abbrev pub encoded : Codec → List WireMessage → List Bytes
encoded codec [] = []
encoded codec (m ∷ ms) = elim (encode_frame codec m) [
  | ok bytes ↦ bytes ∷ encoded codec ms
  | _ ↦ encoded codec ms
]

pub frames-append : (a b : List Out) → frames (a ++ b) ≡ frames a ++ frames b
frames-append [] b = refl
frames-append (frame bytes ∷ a) b = ap (λ (l : List Bytes). bytes ∷ l) (frames-append a b)
frames-append (effect e ∷ a) b = frames-append a b
frames-append (ping ∷ a) b = frames-append a b

pub effects_of-append : (a b : List Out) → effects_of (a ++ b) ≡ effects_of a ++ effects_of b
effects_of-append [] b = refl
effects_of-append (effect e ∷ a) b = ap (λ (l : List Effect). e ∷ l) (effects_of-append a b)
effects_of-append (frame bytes ∷ a) b = effects_of-append a b
effects_of-append (ping ∷ a) b = effects_of-append a b

pub effects_of-map : (es : List Effect) → effects_of (map effect es) ≡ es
effects_of-map [] = refl
effects_of-map (e ∷ es) = ap (λ (l : List Effect). e ∷ l) (effects_of-map es)

frames-map : (es : List Effect) → frames (map effect es) ≡ []
frames-map [] = refl
frames-map (e ∷ es) = frames-map es

frames-told : (events : List UiEvent) → frames (told events) ≡ []
frames-told [] = refl
frames-told (e ∷ events) = frames-told events

queued-told : (events : List UiEvent) → queued (effects_of (told events)) ≡ []
unfolding queued
queued-told [] = refl
queued-told (e ∷ events) = queued-told events

queued-append : (a b : List Effect) → queued (a ++ b) ≡ queued a ++ queued b
unfolding queued
queued-append [] b = refl
queued-append (queue m ∷ a) b = ap (λ (l : List WireMessage). m ∷ l) (queued-append a b)
queued-append (tell e ∷ a) b = queued-append a b
queued-append (persist n ∷ a) b = queued-append a b

encoded-append :
    (codec : Codec) (a b : List WireMessage)
    → encoded codec (a ++ b) ≡ encoded codec a ++ encoded codec b
encoded-append codec [] b = refl
encoded-append codec (m ∷ a) b = elim (Result-cases (encode_frame codec m)) [
  | inl (bytes, e) ↦ rw (e, encoded) (ap (λ (l : List Bytes). bytes ∷ l) (encoded-append codec a b))
  | inr (inl (x, e)) ↦ rw (e, encoded) (encoded-append codec a b)
  | inr (inr e) ↦ rw (e, encoded) (encoded-append codec a b)
]

-- The frames that are due are the ones written and the ones of what is left.
abbrev Flows : Codec → List WireMessage → List WireMessage → List WireMessage → List Bytes → Type 0
Flows codec before added after written =
    encoded codec (before ++ added) ≡ written ++ encoded codec after

abbrev OutFlows : World → Live → Live × Bool × List Out → Type 0
OutFlows world live (after, goes_on, outs) =
    Flows world.codec live.outgoing (queued (effects_of outs)) after.outgoing (frames outs)

quiet-Flows : (codec : Codec) (ms : List WireMessage) → Flows codec ms [] ms []
quiet-Flows codec ms = ap (encoded codec) (append-nil ms)

told-Flows :
    (world : World) (live after : Live) (goes_on : Bool) (events : List UiEvent)
    → after.outgoing ≡ live.outgoing
    → OutFlows world live (after, goes_on, told events)
told-Flows world live after goes_on events same =
    rw (queued-told events, frames-told events, same) (quiet-Flows world.codec live.outgoing)

queued-Flows :
    (codec : Codec) (before : List WireMessage) (effects : List Effect)
    → Flows codec before
        (queued (effects_of (map effect effects)))
        (before ++ queued effects)
        (frames (map effect effects))
queued-Flows codec before effects = rw (effects_of-map effects, frames-map effects) refl

pub encoded-ok :
    (codec : Codec) (m : WireMessage) (ms : List WireMessage) {bytes : Bytes}
    → encode_frame codec m ≡ ok bytes
    → encoded codec (m ∷ ms) ≡ bytes ∷ encoded codec ms
encoded-ok codec m ms e = rw (e, encoded) refl

-- What is left after the oldest message was taken.
abbrev left_over : Bool → WireMessage → List WireMessage → List WireMessage
left_over goes_on m ms = if goes_on then ms else m ∷ ms

send_message-Flows :
    (codec : Codec) (m : WireMessage) (ms : List WireMessage) (writes : Bool)
    → Flows codec
        (m ∷ ms)
        (queued (effects_of (send_message codec m writes).1))
        (left_over (send_message codec m writes).0 m ms)
        (frames (send_message codec m writes).1)
unfolding send_message queued
send_message-Flows codec m ms true = elim (Result-cases (encode_frame codec m)) [
  | inl (bytes, e) ↦
      rw (e, send_message) (ap (encoded codec) (append-nil (m ∷ ms)) ∙ encoded-ok codec m ms e)
  | inr (inl (x, e)) ↦
      rw (e, send_message) (ap (encoded codec) (append-nil (m ∷ ms)) ∙ rw (e, encoded) refl)
  | inr (inr e) ↦
      rw (e, send_message) (ap (encoded codec) (append-nil (m ∷ ms)) ∙ rw (e, encoded) refl)
]
send_message-Flows codec m ms false = elim (Result-cases (encode_frame codec m)) [
  | inl (bytes, e) ↦ rw (e, send_message) (ap (encoded codec) (append-nil (m ∷ ms)))
  | inr (inl (x, e)) ↦
      rw (e, send_message) (ap (encoded codec) (append-nil (m ∷ ms)) ∙ rw (e, encoded) refl)
  | inr (inr e) ↦
      rw (e, send_message) (ap (encoded codec) (append-nil (m ∷ ms)) ∙ rw (e, encoded) refl)
]

join :
    (codec : Codec) (before between : List WireMessage) (outs later : List Out) (rest : List Bytes)
    → encoded codec (before ++ queued (effects_of outs)) ≡ frames outs ++ encoded codec between
    → encoded codec (between ++ queued (effects_of later)) ≡ frames later ++ rest
    → encoded codec (before ++ queued (effects_of (outs ++ later))) ≡ frames (outs ++ later) ++ rest
join codec before between outs later rest d e =
    let q1 = queued (effects_of outs) in
    let q2 = queued (effects_of later) in
    let left : queued (effects_of (outs ++ later)) ≡ q1 ++ q2 =
      ap queued (effects_of-append outs later)
      ∙ queued-append (effects_of outs) (effects_of later) in
    rw
      (
        left,
        frames-append outs later,
        ← append_assoc before q1 q2,
        encoded-append codec (before ++ q1) q2,
        d,
        append_assoc (frames outs) (encoded codec between) (encoded codec q2),
        append_assoc (frames outs) (frames later) rest,
        ← encoded-append codec between q2,
        e,
      )
      refl

module _ (world : World) where
  on_takes_message-Flows :
      (live : Live) (writes : Bool) (ms : List WireMessage)
      → live.outgoing ≡ ms
      → OutFlows world live (on_takes_message world live writes ms)
  unfolding on_takes_message queued
  on_takes_message-Flows live writes [] e = quiet-Flows world.codec live.outgoing
  on_takes_message-Flows live writes (m ∷ ms) e =
      let sent = send_message world.codec m writes in
      let flow = send_message-Flows world.codec m ms writes in
      elim (Bool-cases sent.0) [
        | inl goes_on ↦
            rw (goes_on, on_takes_message, e)
              (subst
                (λ (b : Bool).
                  Flows world.codec (m ∷ ms) (queued (effects_of sent.1)) (left_over b m ms)
                    (frames sent.1))
                goes_on flow)
        | inr fails ↦
            rw (fails, on_takes_message, e)
              (subst
                (λ (b : Bool).
                  Flows world.codec (m ∷ ms) (queued (effects_of sent.1)) (left_over b m ms)
                    (frames sent.1))
                fails flow)
      ]

  on_ticks-Flows : (live : Live) (writes : Bool) → OutFlows world live (on_ticks world live writes)
  unfolding on_ticks queued
  on_ticks-Flows live true = quiet-Flows world.codec live.outgoing
  on_ticks-Flows live false = quiet-Flows world.codec live.outgoing

  on_takes_control-Flows :
      (config : ClientConfig) (live : Live) (ms : List ControlMessage)
      → OutFlows world live (on_takes_control world config live ms)
  unfolding on_takes_control queued
  on_takes_control-Flows config live [] = quiet-Flows world.codec live.outgoing
  on_takes_control-Flows config live (m ∷ ms) =
      let after = (on_takes_control world config live (m ∷ ms)).0 in
      let one = on_control world.prim config live.peers live.shared m in
      told-Flows world live after true one.2 refl

  on_reads-Flows :
      (config : ClientConfig) (live : Live) (incoming : Incoming) (now : ℕ)
      → OutFlows world live (on_reads world config live incoming now)
  unfolding on_reads
  on_reads-Flows config live incoming now =
      let one =
        on_incoming world.prim world.outside world.codec config live.shared live.receiver now
          incoming in
      let after : Live = record live { controls = live.controls ++ for_presence one.1 } in
      elim (Option-cases one.0) [
        | inl left ↦
            rw (left, on_reads)
              (told-Flows world live (record after { reader_over = true }) true (for_window one.1)
                refl)
        | inr (r, goes_on) ↦
            rw (goes_on, on_reads)
              (told-Flows world live (record after { receiver = r }) true (for_window one.1) refl)
      ]

  on_takes_command-Flows :
      (config : ClientConfig) (live : Live) (command : RuntimeCommand) (clock : Clock)
      (sending : Option Sending)
      → OutFlows world live (on_takes_command world config live command clock sending)
  unfolding on_takes_command queued
  on_takes_command-Flows config live command clock (some s) = quiet-Flows world.codec live.outgoing
  on_takes_command-Flows config live command clock none =
      queued-Flows world.codec live.outgoing
        (start_command world.prim world.outside world.files world.decimal config live.shared
          live.counter clock command).3

  on_next_chunk-Flows :
      (config : ClientConfig) (live : Live) (sending : Option Sending)
      → OutFlows world live (on_next_chunk world config live sending)
  unfolding on_next_chunk queued
  on_next_chunk-Flows config live none = quiet-Flows world.codec live.outgoing
  on_next_chunk-Flows config live (some s) =
      queued-Flows world.codec live.outgoing
        (send_chunk world.prim world.outside config live.counter s).2

  unless-Flows :
      (live : Live) (is_over : Bool) (one : Live × Bool × List Out)
      → OutFlows world live one
      → OutFlows world live (if is_over then (live, true, []) else one)
  unfolding queued
  unless-Flows live true one flow = quiet-Flows world.codec live.outgoing
  unless-Flows live false one flow = flow

  spawned-Flows :
      (config : ClientConfig) (live : Live) (h : Happening)
      → OutFlows world live (spawned world config live h)
  unfolding spawned queued
  spawned-Flows config live (reads incoming now) =
      unless-Flows live live.reader_over _ (on_reads-Flows config live incoming now)
  spawned-Flows config live takes_control = on_takes_control-Flows config live live.controls
  spawned-Flows config live (takes_message writes) =
      unless-Flows live live.writer_over _ (on_takes_message-Flows live writes live.outgoing refl)
  spawned-Flows config live (ticks writes) =
      unless-Flows live live.writer_over _ (on_ticks-Flows live writes)
  spawned-Flows config live stream_ends = quiet-Flows world.codec live.outgoing
  spawned-Flows config live (others_do shared transfers events) =
      told-Flows world live live true events refl
  spawned-Flows config live (takes_command command clock) = quiet-Flows world.codec live.outgoing
  spawned-Flows config live next_chunk = quiet-Flows world.codec live.outgoing
  spawned-Flows config live commands_end = quiet-Flows world.codec live.outgoing
  spawned-Flows config live selects = quiet-Flows world.codec live.outgoing

  happens-Flows :
      (config : ClientConfig) (live : Live) (h : Happening)
      → OutFlows world live (happens world config live h)
  unfolding happens queued
  happens-Flows config live (takes_command command clock) =
      on_takes_command-Flows config live command clock live.sending
  happens-Flows config live next_chunk = on_next_chunk-Flows config live live.sending
  happens-Flows config live commands_end = quiet-Flows world.codec live.outgoing
  happens-Flows config live selects = quiet-Flows world.codec live.outgoing
  happens-Flows config live (reads incoming now) = spawned-Flows config live (reads incoming now)
  happens-Flows config live takes_control = spawned-Flows config live takes_control
  happens-Flows config live (takes_message writes) =
      spawned-Flows config live (takes_message writes)
  happens-Flows config live (ticks writes) = spawned-Flows config live (ticks writes)
  happens-Flows config live stream_ends = spawned-Flows config live stream_ends
  happens-Flows config live (others_do shared transfers events) =
      spawned-Flows config live (others_do shared transfers events)

  -- In a session, whatever happens in it: the frames that are written are the frames of what was
  -- queued before and is queued in it, in that order and none twice, up to some point.
  pub run_tasks-frames :
      (config : ClientConfig) (live : Live) (hs : List Happening)
      → let outs = (run_tasks world config live hs).1 in
        (rest : List Bytes) × (encoded world.codec (live.outgoing ++ queued (effects_of outs))
          ≡ frames outs ++ rest)
  unfolding run_tasks queued
  run_tasks-frames config live [] =
      (encoded world.codec live.outgoing, ap (encoded world.codec) (append-nil live.outgoing))
  run_tasks-frames config live (h ∷ hs) =
      let one = happens world config live h in
      let flow = happens-Flows config live h in
      elim (Bool-cases one.1) [
        | inr stops ↦ rw (stops, run_tasks) (encoded world.codec one.0.outgoing, flow)
        | inl goes ↦
            let later = (run_tasks world config one.0 hs).1 in
            let (rest, ih) = run_tasks-frames config one.0 hs in
            rw (goes, run_tasks)
              (rest, join world.codec live.outgoing one.0.outgoing one.2 later rest flow ih)
      ]
