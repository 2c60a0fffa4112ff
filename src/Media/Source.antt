-- ===== src/Media/Source.antt =====
-- packages/bridge/src/media/source.ts: the class `VideoSource`, one track's encoder and its viewers.
--
-- What the class asks of the outside is a list of effects, and what the outside does to it are calls of
-- their own: a timer that ends, a packet or a failure of an encoder, a `start` that rejects, a `stop` that
-- settles. An encoder is a number, its identity. An asynchronous method is cut at its `await`: `begin`
-- either goes on at once or is counted in `waiting`, and when the release settles, `finish` and then the
-- waiting starts go on, in the order in which they came to wait. The clock's reading is an argument.
pub mod Holding
pub mod Restarts
pub mod History
mod Tests
use package.ros_webrtc_bridge.Prelude.{
  ℕ, zero, suc, ◌+◌, Bool, true, false, not, ◌||◌, ◌&&◌, Option, none, some, is_some, List, [], ◌∷◌,
  ◌++◌, ltb, ◌==◌, if◌then◌else◌, any, map,
}
use package.ros_webrtc_bridge.Config.Video.{VideoSettings}
use package.ros_webrtc_bridge.Router.Video.{VideoState, starting, active, idle, failed}
use package.ros_webrtc_bridge.Media.Renumber.{Packet, Numbering, init, renumber, restart}

abbrev pub Viewer : Type 0
Viewer = ℕ

pub data Effect : Type 0 where
  told : Viewer → VideoState → Effect
  wrote : Viewer → Packet → Effect
  created stopping released keyframe : ℕ → Effect
  reported : Effect

-- `waiting` counts the calls of `begin` that wait for the release. `creates` says which calls of `create`
-- give an encoder, by their number; the others throw, which rejects the promise of `begin` and is seen by
-- nobody. `created_count` counts the calls, and so names the encoders.
pub record VideoSource : Type 0 where
  pub settings : VideoSettings
  pub framerate : ℕ
  pub creates : ℕ → Bool
  pub viewers : List Viewer
  pub source : Option ℕ
  pub grace_armed : Bool
  pub start_armed : Bool
  pub phase : VideoState
  pub last_keyframe_at : Option ℕ
  pub failed_at : Option ℕ
  pub numbering : Numbering
  pub packets : ℕ
  pub keyframe_requests : ℕ
  pub release : Option ℕ
  pub waiting : ℕ
  pub created_count : ℕ
  pub effects : List Effect

unfoldable pub idle_source : VideoSettings → ℕ → (ℕ → Bool) → VideoSource
unfolding init
idle_source settings framerate creates = record {
  settings = settings;
  framerate = framerate;
  creates = creates;
  viewers = [];
  source = none;
  grace_armed = false;
  start_armed = false;
  phase = idle;
  last_keyframe_at = none;
  failed_at = none;
  numbering = init;
  packets = 0;
  keyframe_requests = 0;
  release = none;
  waiting = 0;
  created_count = 0;
  effects = [];
}

abbrev pub is_terminal : VideoState → Bool
is_terminal idle = true
is_terminal failed = true
is_terminal _ = false

abbrev pub is_starting : VideoState → Bool
is_starting starting = true
is_starting _ = false

abbrev pub is_active : VideoState → Bool
is_active active = true
is_active _ = false

abbrev pub is_failed : VideoState → Bool
is_failed failed = true
is_failed _ = false

abbrev pub is_idle : VideoState → Bool
is_idle idle = true
is_idle _ = false

abbrev pub is_empty : List Viewer → Bool
is_empty [] = true
is_empty (v ∷ vs) = false

-- `now - last >= interval`, where nothing yet is `Number.NEGATIVE_INFINITY`.
abbrev pub has_passed : ℕ → Option ℕ → ℕ → Bool
has_passed now none interval = true
has_passed now (some last) interval = not (ltb now (last + interval))

abbrev pub emit : List Effect → VideoSource → VideoSource
emit more s = record s { effects = s.effects ++ more }

unfoldable pub is_running : VideoSource → Bool
is_running s = is_some s.release || not (is_terminal s.phase)

unfoldable pub retryable : ℕ → VideoSource → Bool
retryable now s = has_passed now s.failed_at s.settings.retry_min_interval_ms

unfoldable pub notify : VideoSource → VideoSource
notify s = emit (map (λ viewer. told viewer s.phase) s.viewers) s

abbrev pub ask_encoder : Option ℕ → List Effect
ask_encoder none = []
ask_encoder (some encoder) = keyframe encoder ∷ []

unfoldable pub request_keyframe : ℕ → VideoSource → VideoSource
request_keyframe now s =
    if has_passed now s.last_keyframe_at s.settings.pli_min_interval_ms
    then emit (ask_encoder s.source)
        (record s { last_keyframe_at = some now; keyframe_requests = s.keyframe_requests + 1 })
    else s

-- The end of `finish`: the encoder that was there is stopped.
abbrev pub stop_encoder : Option ℕ → VideoSource → VideoSource
stop_encoder none s = s
stop_encoder (some encoder) s = emit (stopping encoder ∷ []) (record s { release = some encoder })

-- `finish` up to its `await`.
unfoldable pub finish : VideoState → ℕ → VideoSource → VideoSource
unfolding notify
finish phase now s =
    let told_all : VideoSource = notify (record s {
      start_armed = false;
      grace_armed = false;
      source = none;
      phase = phase;
      failed_at = if is_failed phase then some now else s.failed_at;
    }) in
    stop_encoder s.source
      (record told_all { viewers = if is_failed phase then [] else told_all.viewers })

-- `create`, and the field `source`, which is written if it does not throw.
abbrev pub create_source : Bool → VideoSource → VideoSource
create_source false s = record s { created_count = s.created_count + 1 }
create_source true s =
    emit (created s.created_count ∷ [])
      (record s { source = some s.created_count; created_count = s.created_count + 1 })

-- `begin` behind its `await`.
unfoldable pub resume : VideoSource → VideoSource
unfolding restart
resume s =
    if not (is_starting s.phase) || is_empty s.viewers
    then s
    else create_source (s.creates s.created_count) (record s { numbering = restart s.numbering })

abbrev pub await_release : Option ℕ → VideoSource → VideoSource
unfolding resume
await_release none s = resume s
await_release (some encoder) s = record s { waiting = s.waiting + 1 }

unfoldable pub begin : VideoSource → VideoSource
unfolding notify resume
begin s =
    let announced : VideoSource = notify (record s { phase = starting }) in
    await_release s.release (record announced { start_armed = true })

-- `viewers.add(viewer)`
abbrev pub add_viewer : Viewer → List Viewer → List Viewer
add_viewer v vs = if any (◌==◌ v) vs then vs else vs ++ v ∷ []

unfoldable pub add : Viewer → ℕ → VideoSource → VideoSource
unfolding begin request_keyframe
add viewer now s =
    let joined : VideoSource = record s {
      viewers = add_viewer viewer s.viewers;
      grace_armed = false;
    } in
    if is_terminal s.phase
    then begin joined
    else emit (told viewer s.phase ∷ [])
        (if is_active s.phase then request_keyframe now joined else joined)

-- `viewers.delete(viewer)`
unfoldable pub delete_viewer : Viewer → List Viewer → List Viewer
delete_viewer v [] = []
delete_viewer v (w ∷ ws) = let rest = delete_viewer v ws in if v == w then rest else w ∷ rest

unfoldable pub remove : Viewer → VideoSource → VideoSource
unfolding delete_viewer
remove viewer s =
    let left : VideoSource = record s { viewers = delete_viewer viewer s.viewers } in
    if not (any (◌==◌ viewer) s.viewers) || not (is_empty left.viewers) || is_idle s.phase
    then left
    else record left { grace_armed = true }

-- The two timers.
unfoldable pub grace_ended : ℕ → VideoSource → VideoSource
unfolding finish
grace_ended now s = if s.grace_armed then finish idle now (record s { grace_armed = false }) else s

unfoldable pub start_expired : ℕ → VideoSource → VideoSource
unfolding finish
start_expired now s = if s.start_armed then finish failed now s else s

-- `start` rejects: the end of `begin`.
unfoldable pub start_rejected : ℕ → VideoSource → VideoSource
unfolding finish
start_rejected now s = finish failed now (emit (reported ∷ []) s)

unfoldable pub close : ℕ → VideoSource → VideoSource
unfolding finish
close now s = finish idle now (record s { viewers = [] })

unfoldable pub deliver : Packet → VideoSource → VideoSource
unfolding notify renumber
deliver packet s =
    let begun : VideoSource =
      if is_starting s.phase
      then notify (record s { start_armed = false; phase = active })
      else s in
    let (sent, numbering) = renumber s.framerate packet begun.numbering in
    emit (map (λ viewer. wrote viewer sent) begun.viewers)
      (record begun { packets = begun.packets + 1; numbering = numbering })

abbrev pub is_current : ℕ → Option ℕ → Bool
is_current encoder none = false
is_current encoder (some current) = encoder == current

-- The callbacks that `begin` gives to an encoder.
unfoldable pub packet_from : ℕ → Packet → VideoSource → VideoSource
unfolding deliver
packet_from encoder packet s = if is_current encoder s.source then deliver packet s else s

unfoldable pub failure_from : ℕ → ℕ → VideoSource → VideoSource
unfolding finish
failure_from encoder now s = if is_current encoder s.source then finish failed now s else s

-- The starts that wait go on, one after the other.
unfoldable pub resume_all : ℕ → VideoSource → VideoSource
unfolding resume
resume_all zero s = s
resume_all (suc n) s = resume_all n (resume s)

abbrev pub settle : Option ℕ → VideoSource → VideoSource
unfolding resume_all
settle none s = s
settle (some encoder) s =
    resume_all s.waiting (emit (released encoder ∷ []) (record s { release = none; waiting = 0 }))

-- `stop` settles: `finish` goes on, and then the starts that wait.
unfoldable pub stop_settled : VideoSource → VideoSource
unfolding resume_all
stop_settled s = settle s.release s
