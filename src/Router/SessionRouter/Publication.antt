-- ===== src/Router/SessionRouter/Publication.antt =====
-- router/index.ts: `publish` keeps the router's invariant.
use package.ros_webrtc_bridge.Prelude.{
  ℕ, ◌+◌, ◌≡◌, not, Option, none, some, is_some, Text, codes, pos, arith,
}
use mathlib.Core.Path.{subst}
use package.ros_webrtc_bridge.Prelude.Dict.{lookup, put, length-put_old}
use package.ros_webrtc_bridge.Runtime.Outcome.{
  or_throw-some, or_throw, require, invalid_publish, publish_rate_or_sequence, invalid_channel,
  unknown_handle, unexpected_lease,
}
use package.ros_webrtc_bridge.Runtime.Exec.{
  continue, gets, lift, ensure, Keeps, Keeps-then, Keeps-lift, Keeps-gets, Keeps-pure, Keeps-Bool,
  Ensures, returned, Ensures-any, Ensures-continue, Ensures-lift, Ensures-map,
}
use package.ros_webrtc_bridge.Runtime.Decimal.{print}
use package.ros_webrtc_bridge.Config.{period_ms}
use package.ros_webrtc_bridge.Session.Validation.{sequence}
use package.ros_webrtc_bridge.Session.Guard
use package.ros_webrtc_bridge.Session.Guard.{CommandTicket, CommandRequest}
use package.ros_webrtc_bridge.Router.Protocol.{Wire, fields, text_field}
use package.ros_webrtc_bridge.Router.RequestCache.Accounting
use package.ros_webrtc_bridge.Router.SessionRouter.{
  Channel, data_channel, same_channel, publishing, RouterBinding, Outside, Publisher, SessionRouter,
  on_guard, entry_of,
}
use package.ros_webrtc_bridge.Router.SessionRouter.Operations.{find_publisher}
use package.ros_webrtc_bridge.Router.SessionRouter.Publishing.{
  is_current, is_early, Accepted, accept, take_ticket, send_to_ros, send_with, publish,
}
use package.ros_webrtc_bridge.Router.SessionRouter.Invariant.{
  Respects, Kept, Tables, Sound, Sound-map, world-Sound, Keeps-guard, Keeps-now,
}
use package.ros_webrtc_bridge.Router.SessionRouter.Flushing.{respond-Keeps}
use package.ros_webrtc_bridge.Router.SessionRouter.Requests.{OnCache, entry_of-Found}

-- What is kept is that of the cache, and one publisher.
abbrev Own : {N : Type 0} → Text → Publisher N → Kept N
Own handle x c s p = Accounting.IsValid c × (lookup handle p ≡ some x)

-- A publisher's state is written.
Tables-publisher :
    {W N : Type 0} (r : SessionRouter W N) (handle : Text) (old new : Publisher N)
    → lookup handle r.publishers ≡ some old
    → Tables r.subscriptions r.publishers r.queue r.closed r.max_handles
    → Tables r.subscriptions (put handle new r.publishers) r.queue r.closed r.max_handles
Tables-publisher r handle old new e t = record {
  fits = omega (arith, length-put_old handle new old r.publishers e, t.fits);
  listed = t.listed;
  served = t.served;
  apart = t.apart;
  opened = t.opened;
}

module _ {W N : Type 0} {P : W → Type 0} (out : Outside W N) (laws : Respects out P) where
  abbrev pub I : SessionRouter W N → Type 0
  I = Sound P (OnCache Accounting.IsValid)

  -- Nothing goes to ROS but under the permission that is read right before.
  send_to_ros-Keeps :
      {K : Kept N}
      → (entry : RouterBinding N) (native : N) → Keeps (Sound P K) (send_to_ros out entry native)
  unfolding send_to_ros continue
  send_to_ros-Keeps {K} entry native r s =
      Ensures-lift (entry_of out name publishing r) _ s λ e found.
        Ensures-lift (entry.codec.encode native) _ s λ _ _.
          let f = entry_of-Found out name publishing r e found in
          let same : e.binding.public_name ≡ name = s.named name e f.listed in
          let after =
            world-Sound P K r _
              (subst (λ n. P (out.ros_publish n native r.world).1) same
                (laws.ros_publish e native r.world f.may s.world))
              s in
          Ensures-any _ after (λ _ _. after)
    where
      name : Text
      name = entry.binding.public_name

  accept-Ensures :
      (channel : Channel) (wire : Wire) (r : SessionRouter W N)
      → I r
      → Ensures I (λ a. Sound P (Own a.handle a.publisher)) (accept out channel wire r)
  unfolding accept continue find_publisher
  accept-Ensures channel wire r s = Ensures-lift (fields wire _) _ s λ _ _.
      Ensures-lift (require (is_current wire r) invalid_publish) _ s λ _ _.
        Ensures-lift (text_field wire (codes "handle")) _ s λ handle _.
          Ensures-lift (or_throw (lookup handle r.publishers) unknown_handle) _ s λ x found.
            Ensures-lift (entry_of out x.entry.binding.public_name publishing r) _ s λ e _.
              Ensures-lift
                (require (same_channel channel (data_channel e.binding.delivery)) invalid_channel) _
                s
                λ _ _. Ensures-lift (text_field wire (codes "seq")) _ s λ t _.
                  Ensures-lift (sequence t) _ s λ seq _.
                    Ensures-continue
                      (Ensures-map
                        (Keeps-now P (Own handle x) out laws r (
                          Sound-map r
                            (λ v. (v, or_throw-some (lookup handle r.publishers) _ x found)) s))
                        (λ q. Sound-map q (λ k. k.0)) (λ _ _ h. h))
                      λ time q t'.
                        Ensures-lift (require (not (is_early x seq time)) publish_rate_or_sequence)
                          _ (Sound-map q (λ k. k.0) t') λ _ _. returned t'

  take_ticket-Keeps :
      {K : Kept N} → (wire : Wire) (a : Accepted N) → Keeps (Sound P K) (take_ticket out wire a)
  unfolding take_ticket
  take_ticket-Keeps {K} wire a =
      Keeps-Bool a.publisher.guarded _ _
        (Keeps-then (lift (text_field wire (codes "lease_id"))) _ (Keeps-lift _) λ lease_id.
          Keeps-then (gets (λ r. r.session_id)) _ (Keeps-gets _) λ session_id.
            Keeps-then (gets (λ r. r.epoch)) _ (Keeps-gets _) λ epoch.
              Keeps-then
                (on_guard out.guard_host (λ host.
                  Guard.prepare host (the_request a.handle lease_id session_id epoch a.seq)))
                _
                (Keeps-guard P K out.guard_host (λ host.
                  Guard.prepare host (the_request a.handle lease_id session_id epoch a.seq)))
                λ ticket. Keeps-pure (some ticket))
        (Keeps-then (ensure (not (is_some (lookup (codes "lease_id") wire.rest))) unexpected_lease)
          _ (Keeps-lift _) λ _. Keeps-pure none)
    where
      the_request : Text → Text → Text → Text → ℕ → CommandRequest
      the_request handle lease_id session_id epoch seq = record {
        session_id = session_id;
        epoch = epoch;
        handle = handle;
        lease_id = lease_id;
        seq = print seq;
      }

  send_with-Keeps :
      {K : Kept N}
      → (ticket : Option CommandTicket) (entry : RouterBinding N) (native : N)
      → Keeps (Sound P K) (send_with out ticket entry native)
  unfolding send_with
  send_with-Keeps none entry native = send_to_ros-Keeps entry native
  send_with-Keeps {K} (some ticket) entry native =
      Keeps-then (on_guard out.guard_host (λ host. Guard.reserve host ticket.request ticket.seq)) _
        (Keeps-guard P K out.guard_host (λ host. Guard.reserve host ticket.request ticket.seq))
        λ _. send_to_ros-Keeps entry native

  pub publish-Keeps : (channel : Channel) (wire : Wire) → Keeps I (publish out channel wire)
  unfolding publish
  publish-Keeps channel wire r s = Ensures-continue (accept-Ensures channel wire r s) λ a q t.
      Ensures-lift (a.entry.codec.decode (lookup (codes "data") wire.rest)) _
        (Sound-map q (λ k. k.0) t)
        λ native _.
          Ensures-continue
            (Ensures-map (take_ticket-Keeps {K = Own a.handle a.publisher} wire a q t)
              (λ q'. Sound-map q' (λ k. k.0)) (λ _ _ h. h))
            λ ticket q' t'.
              Keeps-then (send_with out ticket a.entry native) _
                (send_with-Keeps ticket a.entry native) (λ _. respond-Keeps out laws _)
                (record q' { publishers = put a.handle (written a) q'.publishers })
                (record {
                  world = t'.world;
                  kept = t'.kept.0;
                  queue = t'.queue;
                  tables = Tables-publisher q' a.handle a.publisher (written a) t'.kept.1 t'.tables;
                  named = t'.named;
                })
    where
      written : Accepted N → Publisher N
      written a = record (a.publisher) {
        seq = pos a.seq;
        next_at = a.time + period_ms a.entry.binding.max_rate_hz;
      }
