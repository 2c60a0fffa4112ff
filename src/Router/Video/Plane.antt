-- ===== src/Router/Video/Plane.antt =====
-- What video.ts relies on in the media plane (packages/bridge/src/media), as laws of its interface.
use package.ros_webrtc_bridge.Prelude.{◌≡◌, Bool, not, ◌&&◌, ◌||◌, Text, same_text}
use package.ros_webrtc_bridge.Runtime.Outcome.{Error, ok, throw}
use package.ros_webrtc_bridge.Router.Video.{VideoAccess}

-- `holds track plane`: this peer's viewer of the track is in the plane.
pub record MediaPlane {M : Type 0} (access : VideoAccess M) : Type 0 where
  pub holds : Text → M → Bool
  -- An attachment that is taken adds the viewer of its track; one that is refused adds none.
  pub attach_adds :
      (track u : Text) (m : M)
      → (access.attach track m).0 ≡ ok tt
      → holds u (access.attach track m).1 ≡ (same_text u track || holds u m)
  pub attach_refuses :
      (track u : Text) (m : M) (e : Error)
      → (access.attach track m).0 ≡ throw e
      → holds u (access.attach track m).1 ≡ holds u m
  -- A plane that is closed throws and holds no viewer.
  pub detach_removes :
      (track u : Text) (m : M)
      → holds u (access.detach track m).1 ≡ (not (same_text u track) && holds u m)
  pub keyframe_keeps :
      (track u : Text) (m : M) → holds u (access.request_keyframe track m).1 ≡ holds u m
