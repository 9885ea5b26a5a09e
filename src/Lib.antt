-- ===== src/Lib.antt =====
-- babilcors, an NTRIP caster: sources send RTCM 3 frames to a mountpoint, and rovers receive them.
--
-- The parts and how they work together. A source's bytes go through the parser of src/rtcm.py;
-- each frame is counted in the mountpoint's hub and, with the others of its chunk, offered to
-- every rover of the hub, whose queue a send loop empties under a token bucket. Rovers are
-- admitted under limits. The admin API stands behind tokens and a rate limit. Around these there
-- are the audit log, events, alerts, geofences, device shadows and the relay to WebSockets.
--
-- Files:
--   Prelude: tests, lists, bits, integers and dictionaries that all parts share.
--   Rtcm.Crc, Rtcm.Stream: `crc24q` and `RtcmStreamParser` of src/rtcm.py. `feed` has as much
--     fuel as there are bytes, and one more, which is shown to be enough.
--   Rtcm.BitReader, Rtcm.Messages: `_BitReader` and the three decoders; their floats are
--     multiples of 0.0001 there, and are kept as integers.
--   Tiers: src/tiers.py. Time is in ticks, 10^9 to the second, and tokens are counted in parts; a
--     time to wait is cut to whole ticks. Epochs: the gate over a sequence of chunks.
--   Caster.ByteQueue, Caster.Hub: `ByteQueue` and `MountpointHub` of src/caster.py. A session is
--     a value in its hub; no operation waits while it holds the hub's lock, so each is one step.
--   Caster.Send: `_rover_send_loop`. What the clock does between two readings is an input, with
--     what the rounding of floats takes off a sleep; the list of these delays bounds the rounds.
--   Caster.Reading: `_rover_read_loop`. A line comes with the readings of the clock taken while it
--     is handled; a turn gives the session, the events and updates of shadows, and how it ends.
--   Caster.Routes: `_admin_update_config` and the routes of `_handle_http` that change the file.
--     Schemas and the conversions of JSON values are in `Host`.
--   Caster.Load: `load_config` with `load_users` and `build_tier`, which give Routes its test of a
--     new file. A float is the text that stands in the file.
--   Caster.Server: the admission and release of rovers in `_handle_http`, and their end without
--     a release. `verify_password` and the floats are fields of the configuration; the header
--     `Ntrip-GGA` is read by `parse_gga` of Nmea.
--   Caster.Source: `_handle_source`: acceptance, and the loop over a source's bytes, up to the
--     empty chunk that ends it.
--   Caster.Audit, Caster.Events, Caster.Admin: `_audit_add`, `_event_add`, `get_events`,
--     `_admin_rate_ok` and `_kick_rover`.
--   Config: `validate_config`, with a constructor for each message.
--   Jwt: src/jwt_auth.py with its memory store, and the routes that use it; the third-party
--     decoder is a parameter, of which it is asked that it refuses expired tokens and that a
--     token's claims stay the same.
--   Net: the address lists and header reading of src/utils.py, `_handle_conn`, and the loop over
--     header lines; what `readline` gives is an input, and `ipaddress` is a parameter.
--   Geofence, Diagnostics: src/geofence.py and `compute_alerts`, over any type of floats.
--   Shadow: the memory store of src/shadow.py. Iot: the WebSocket fan-out of src/iot.py.
--   Text: what Python's str gives the parsers; texts are lists of ASCII codes. Text.Utf8:
--     `safe_decode` of src/utils.py, whose texts are lists of code points.
--   Json: JSON values, and dictionaries as lists of fields in their order.
--   Nmea: src/nmea.py, over any type of floats, with the GGA sentence of a receiver's report in
--     Nmea.Report. Geodesy: the coordinates of src/utils.py.
--   Auth: `parse_basic_auth`, `verify_password` and `make_password_hash` of src/auth.py, and
--     `b64decode_str`; the hash functions are parameters.
-- Each part's Tests has the theorems at concrete inputs.
--
-- Not modelled: the routes that only read, but for the list of geofences; `snapshot` and the
-- writers of metrics and of the source table, which format text; log lines, and the texts and
-- contexts of events; Redis, MQTT, protobuf and FastAPI, which are other programs' code.
pub mod Auth
pub mod Caster
pub mod Config
pub mod Diagnostics
pub mod Geodesy
pub mod Geofence
pub mod Iot
pub mod Json
pub mod Jwt
pub mod Net
pub mod Nmea
pub mod Prelude
pub mod Rtcm
pub mod Shadow
pub mod Text
pub mod Tiers
