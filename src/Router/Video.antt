-- ===== src/Router/Video.antt =====
-- packages/bridge/src/router/video.ts: which tracks one peer watches, and on which slots.
--
-- The media plane is the interface `VideoAccess` of the source, over a state of its own. What a viewer's
-- notification sends is appended to `sent`; the flush that follows a send is a later call.
pub mod Plane
pub mod Slots
pub mod Operations
pub mod Subscribing
pub mod Closing
pub mod History
mod Tests
use package.ros_webrtc_bridge.Prelude.{
  ℕ, ◌+◌, ◌-◌, ◌*◌, Bool, true, false, not, ◌&&◌, Option, none, some, List, [], ◌∷◌, ◌++◌, ltb, leb,
  ◌==◌, if◌then◌else◌, Text, codes, same_text,
}
use package.ros_webrtc_bridge.Prelude.Dict.{lookup, put}
use package.ros_webrtc_bridge.Runtime.Outcome.{
  Outcome, ok, throw, or_throw, unauthorized, type_error, video_slot_limit, video_profile_mismatch,
  unknown_video_slot, unknown_operation,
}
use package.ros_webrtc_bridge.Runtime.Exec.{
  Exec, pure, lift, gets, ensure, modify, continue, ◌>>=◌, ◌>>◌,
}
use package.ros_webrtc_bridge.Router.Protocol.{Wire, fields, text_field}

-- The value of a hexadecimal digit. sdp.ts passes six of them, in lower case.
abbrev pub hex_digit : ℕ → ℕ
hex_digit c = if leb c b'9' then c - b'0' else c - b'a' + 10

unfoldable pub profile_idc : Text → ℕ
profile_idc (a ∷ b ∷ rest) = hex_digit a * 16 + hex_digit b
profile_idc (a ∷ []) = hex_digit a
profile_idc [] = 0

pub record VideoSlot : Type 0 where
  pub mid : Text
  pub profile_level_id : Text

pub record Binding : Type 0 where
  pub slot : VideoSlot
  pub watching : Bool
  pub attached : Bool

pub data VideoState : Type 0 where
  starting active idle failed : VideoState

pub record VideoAccess (M : Type 0) : Type 0 where
  pub authorize : Text → M → Bool
  pub track_profile : Text → ℕ
  pub attach : Text → Exec M (Unit {0})
  pub detach : Text → Exec M (Unit {0})
  pub request_keyframe : Text → Exec M (Unit {0})

-- The envelope `{v:1, op:'video.state', track, mid, state}`.
pub record StateEvent : Type 0 where
  pub track : Text
  pub mid : Text
  pub state : VideoState

pub data Response : Type 0 where
  video_subscribed : Text → Text → Text → Response
  video_unsubscribed : Text → Response

pub record VideoRouter (M : Type 0) : Type 0 where
  pub bound : List (Text × Binding)
  pub free : List VideoSlot
  pub sent : List StateEvent
  pub plane : M

unfoldable pub init : {M : Type 0} → List VideoSlot → M → VideoRouter M
init slots plane = record { bound = []; free = slots; sent = []; plane = plane }

-- `findIndex` and `splice`: the first slot that passes, and the others.
unfoldable pub take_first :
    (VideoSlot → Bool) → List VideoSlot → Option (VideoSlot × List VideoSlot)
take_first p [] = none
take_first p (slot ∷ slots) =
    let rest = take_first p slots in
    if p slot
    then some (slot, slots)
    else elim rest [ none ↦ none | some (found, others) ↦ some (found, slot ∷ others) ]

-- The first track bound to a slot with this identifier.
unfoldable pub track_of : Text → List (Text × Binding) → Option Text
track_of mid [] = none
track_of mid ((track, entry) ∷ rest) =
    if same_text entry.slot.mid mid then some track else track_of mid rest

abbrev pub keys : List (Text × Binding) → List Text
keys [] = []
keys ((track, entry) ∷ rest) = track ∷ keys rest

abbrev pub is_watching : Option Binding → Bool
is_watching none = false
is_watching (some entry) = entry.watching

module _ {M : Type 0} where
  -- A write of the two flags of a binding.
  unfoldable pub write : Text → Binding → Bool → VideoRouter M → VideoRouter M
  write track entry on r = record r {
    bound = put track (record entry { watching = on; attached = on }) r.bound;
  }

  unfoldable pub on_plane : Exec M (Unit {0}) → Exec (VideoRouter M) (Unit {0})
  on_plane f r = ((f r.plane).0, record r { plane = (f r.plane).1 })

  abbrev pub emit : Text → Binding → VideoState → VideoRouter M → VideoRouter M
  emit track entry state r = record r {
    sent = r.sent ++ record { track = track; mid = entry.slot.mid; state = state } ∷ [];
  }

  -- The callback of `viewer.state`: a failure ends what the peer was watching.
  unfoldable pub tell : Text → Binding → VideoState → VideoRouter M → VideoRouter M
  unfolding write
  tell track entry failed r = emit track entry failed (write track entry false r)
  tell track entry starting r = emit track entry starting r
  tell track entry active r = emit track entry active r
  tell track entry idle r = emit track entry idle r

  unfoldable pub viewer_state : Text → VideoState → VideoRouter M → VideoRouter M
  unfolding tell
  viewer_state track state r = elim (lookup track r.bound) [
    | none ↦ r
    | some entry ↦ tell track entry state r
  ]

module _ {M : Type 0} (access : VideoAccess M) where
  unfoldable pub new_binding : Text → VideoRouter M → Outcome (Binding × VideoRouter M)
  new_binding track r = elim r.free [
    | [] ↦ throw video_slot_limit
    | _ ∷ _ ↦
        elim (take_first (λ slot. profile_idc slot.profile_level_id == access.track_profile track)
          r.free) [
            | none ↦ throw video_profile_mismatch
            | some (slot, rest) ↦
                let entry : Binding = record { slot = slot; watching = false; attached = false } in
                ok (entry, record r { bound = put track entry r.bound; free = rest })
          ]
  ]

  unfoldable pub bind : Text → Exec (VideoRouter M) Binding
  bind track r = elim (lookup track r.bound) [
    | some existing ↦ (ok existing, r)
    | none ↦ elim (new_binding track r) [ ok (entry, r') ↦ (ok entry, r') | throw e ↦ (throw e, r) ]
  ]

  -- `entry.attached` is tested after `entry.watching` is cleared: both flags are off either way.
  unfoldable pub release : Text → Exec (VideoRouter M) (Unit {0})
  release track r = elim (lookup track r.bound) [
    | none ↦ (throw type_error, r)
    | some entry ↦
        if entry.attached
        then on_plane (access.detach track) (write track entry false r)
        else (ok tt, write track entry false r)
  ]

  unfoldable pub watch : Text → Binding → Exec (VideoRouter M) (Unit {0})
  watch track entry =
      if entry.watching
      then pure tt
      else (do on_plane (access.attach track); modify (write track entry true))

  unfoldable pub subscribe : Text → Text → Exec (VideoRouter M) Response
  subscribe track id = do
    allowed ← gets (λ r. access.authorize track r.plane)
    ensure allowed unauthorized
    entry ← bind track
    watch track entry
    pure (video_subscribed id track entry.slot.mid)

  unfoldable pub unsubscribe : Text → Text → Exec (VideoRouter M) Response
  unsubscribe mid id = do
    track ← gets (λ r. track_of mid r.bound)
    found ← lift (or_throw track unknown_video_slot)
    release found
    pure (video_unsubscribed id)

  unfoldable pub operation : Wire → Text → Exec (VideoRouter M) Response
  operation wire id =
      if same_text wire.op (codes "video.subscribe")
      then (do
        lift (fields wire (codes "id" ∷ codes "track" ∷ []))
        track ← lift (text_field wire (codes "track"))
        subscribe track id)
      else if same_text wire.op (codes "video.unsubscribe")
      then (do
        lift (fields wire (codes "id" ∷ codes "mid" ∷ []))
        mid ← lift (text_field wire (codes "mid"))
        unsubscribe mid id)
      else lift (throw unknown_operation)

  unfoldable pub release_all : List Text → Exec (VideoRouter M) (Unit {0})
  release_all [] = pure tt
  release_all (track ∷ tracks) = release track >> release_all tracks

  unfoldable pub close : Exec (VideoRouter M) (Unit {0})
  close r = release_all (keys r.bound) r

  -- One round of the loop of `revalidate`.
  unfoldable pub recheck : Text → Exec (VideoRouter M) (Unit {0})
  recheck track r =
      if is_watching (lookup track r.bound) && not (access.authorize track r.plane)
      then (release track >> modify (viewer_state track failed)) r
      else (ok tt, r)

  unfoldable pub recheck_all : List Text → Exec (VideoRouter M) (Unit {0})
  recheck_all [] = pure tt
  recheck_all (track ∷ tracks) = recheck track >> recheck_all tracks

  unfoldable pub revalidate : Exec (VideoRouter M) (Unit {0})
  revalidate r = recheck_all (keys r.bound) r

  -- The callback that `bind` gives the slot.
  unfoldable pub keyframe_requested : Text → Exec (VideoRouter M) (Unit {0})
  keyframe_requested track r =
      if is_watching (lookup track r.bound)
      then on_plane (access.request_keyframe track) r
      else (ok tt, r)
