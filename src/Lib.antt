-- ===== src/Lib.antt =====
-- The bridge gives browsers access to ROS topics over WebRTC. This library models the parts of
-- packages/bridge/src that decide who may do what, and that bound what a peer can hold. A router serves
-- one peer. It answers the peer's requests through a request cache, asks the command guard, which all
-- peers share, before a command reaches ROS, and hands what it sends to the peer's delivery queue, from
-- which it drains it into the transport.
--
--   Prelude                tests, lists, texts, integers, and maps in the order of insertion
--   Runtime                what the language gives: errors and results (Outcome), calls on an object that
--                          may throw after they wrote (Exec), `String` on numbers (Decimal), and the
--                          methods of strings that parse (Scan)
--   Config                 config/types.d.ts: the configuration of a topic
--   Config.Validation      config/validation.ts: the validators
--   Config.Binding         config/binding.ts: binding; Config.Outputs: checkOutputs
--   Config.Bridge          config/index.ts: parseBridgeConfig
--   Config.Video           config/video.ts: the tracks; Config.Video.Plane: parseVideoConfig
--   Session.Validation     session/validation.ts: positiveLimit, identifier, sequence
--   Session.Queue          session/delivery-queue.ts: DeliveryQueue
--   Session.Guard          session/command-guard.ts and session/types.d.ts: CommandGuard
--   Router.RequestCache    router/request-cache.ts: RequestCache, and the part of SessionRouter.control in
--                          router/index.ts that serves a request through it
--   Router.Protocol        router/protocol.ts: fields, textField, and the checks of parseWire
--   Router.SessionRouter   router/index.ts and router/types.d.ts: SessionRouter. Its state and small
--                          methods; Sending (drain, flush, error, close), Operations (control and the
--                          operations), Publishing (publish), Entry (receive, sample, event) and
--                          Construction (the constructor)
--   Router.Video           router/video.ts: VideoRouter, and the laws that it needs of the media plane
--   Media.Renumber         media/source.ts: renumber, and what begin and deliver do to the numbering
--   Media.Source           media/source.ts: VideoSource, with the numbering of Media.Renumber
--   Transport.Sdp          transport/sdp.ts: parseOffer
--   Ros.Adapter            ros/adapter.ts: TopicRosAdapter; Ros.Adapter.Receiving: its receive
--
-- Each class is a record of its fields, and each method is a function of its name in snake_case from
-- the arguments and the state to a result or an error, and the state that is left: a method that throws
-- keeps what it wrote before. A test that the code makes is made in the code's order. The other child
-- modules hold lemmas and theorems; Tests evaluate the definitions at concrete inputs.
--
-- Numbers. A limit is a natural number: positiveLimit refuses negative numbers, fractions and NaN in the
-- code, and 0 and what exceeds Number.MAX_SAFE_INTEGER in the model too. A clock reading is a natural
-- number of milliseconds, or negative, or not finite. A fraction of a millisecond is not modelled. The
-- sequence numbers, which start at -1n, are integers, and the counts of type bigint have no bound.
-- Texts are lists of code units, and payloads are lists of bytes: the copies that the code makes to own a
-- payload are the same list. A Map is an association list in the order of insertion, which is the order
-- in which the code iterates.
--
-- Outside. The clock and the authorization hook of the guard come with each call, as a reading and as
-- an effect on the guard, since the hook may call the guard again; the theorems ask of a hook that it
-- does to the guard only what its calls can do. The random prefix of the guard's identifiers is an
-- argument of the constructor. The media plane is the interface VideoAccess over a state of its own,
-- with the laws in Router.Video.Plane; what a viewer's notification sends is recorded, and the flush that
-- follows it, which revalidates again, is a later call of the history. In Router.RequestCache the
-- operation behind a request is what it gives, encoded, or its error.
--
-- The outside of the session router is the interface Outside over a state of its own: the clock, the
-- authorization hook, the transport's send, the ROS adapter, the media plane's router, the codecs, JSON
-- and UTF-8. A call of it may throw and may write its state, and does not call the router again before it
-- returns: a ROS sample and an event of the media plane are calls of their own. What the theorems ask of
-- it is that its calls keep a property of its state, those to ROS where the topic is authorized (the
-- record Respects), or that its releases do not throw (Quiet). Whether a binding is one of the
-- configuration's is a question of the identity of objects, and a parameter of the constructor. The
-- router's fields `video` and `options` are in the interface, in the limits, and in the entries.
-- The YAML library gives the value of a document, or nothing where it reports errors. A number of the
-- document is a quotient in lowest terms, or negative, or not finite.
-- A period of 1000 / maxRateHz milliseconds is rounded up, since times are whole milliseconds.
--
-- The outside of the ROS adapter is the interface Outside of Ros.Adapter: the backend, the listeners, which
-- may do anything to the adapter, `onError`, and JSON.stringify of an entity's values. A listener is a
-- number, its identity. The theorems ask of it what Documented says: that the backend makes the
-- publisher that it is asked for, that the key tells different values apart, and that listeners change
-- the adapter by calls of its methods alone; or what Modest says: that listeners do no more to the adapter
-- than to have listeners of the sample's name unsubscribe, and that `onError` returns.
--
-- What a video source asks of its viewers and encoders is recorded as a list of effects, and what timers,
-- encoders and releases do to it are calls of their own. Its asynchronous methods are cut at each await: a
-- start that waits for a release is counted, and goes on when the release settles. Which of its calls of
-- `create` throw is a function on their numbers; after such a throw the promise of the start rejects unseen
-- and the source is left to its deadline.
--
-- Loops are recursion on lists. `String` on a number recurs on fuel, the number itself, and each step
-- divides by ten, so the fuel is enough. `drain` takes a message away in each round, and its fuel is one
-- more than the stream has messages. `flush` and the error reply call each other, each time after a
-- subscription was removed, and their fuel is one more than there are subscriptions, which is enough for
-- those calls. The code's `flush` also comes back to itself where the media plane's router notifies the
-- peer while it revalidates: the model takes that for a call of its own, and its fuel does not count it.
--
-- Not modelled: the codecs, the calls of rclnodejs, the media plane that owns the sources and the
-- encoders' processes, the transport's endpoint and the WebRTC stack, processes and files, the place that
-- a ConfigError names, and the checks of types at run time that TypeScript's types imply (`typeof`,
-- `instanceof`).
pub mod Prelude
pub mod Runtime
pub mod Config
pub mod Session
pub mod Router
pub mod Media
pub mod Transport
pub mod Ros
