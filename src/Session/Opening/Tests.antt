-- ===== src/Session/Opening/Tests.antt =====
-- A new session gets a request with two frames behind it.
use sockify.Prelude.{
  length, ◌≡◌, ◌==◌, refl, arith, true, false, some, none, List, [], ◌∷◌, ◌++◌, Bytes, All, codes,
  same_text,
}
use sockify.Base64.RoundTrip.{decode}
use sockify.Buffer.Window.{contents}
use sockify.Frame.Spec.{client_frame, length_field, mask_payload}
use sockify.Handshake.{nothing_seen, note_header, guid, crlf, response_prefix}
use sockify.Handshake.Loops.{Field, IsField, read_fields}
use sockify.Handshake.Request.{header_of}
use sockify.Session.{Session}
use sockify.Session.Client.Frames.{IsOpen}
use sockify.Session.Client.Stream.{stream, payloads}
use sockify.Session.Opening.{handle_handshake_bytes}
use sockify.Session.Opening.Opens.{IsNew, handle_handshake_bytes-opens}
use sockify.Session.Opening.Start.{registered}
use sockify.Session.Tests.{logged, session, config, session-IsOpen, two_frames, two_frames-InOrder}
use sockify.Sha1.{sha1}
use sockify.Text.{ci_equal_string_n, ci_equal_n, ci_contains_token, trim_span}
use sockify.Text.Laws.{No}

abbrev new_session : Session
new_session = record session { target_fd = none; target_registered = false; handshake_done = false }

new_session-IsNew : IsNew logged config new_session []
new_session-IsNew = record {
  opened = record {
    not_closing = refl;
    parser = session-IsOpen.parser;
    at_start = session-IsOpen.at_start;
    buffer = session-IsOpen.buffer;
  };
  nothing_yet = refl;
  room = omega arith;
  idle = refl;
  no_target = refl;
  not_registered = refl;
  connects = refl;
  registers = refl;
}

abbrev fields : List Field
fields =
    (codes "Upgrade", codes " websocket")
    ∷ (codes "Connection", codes " Upgrade")
    ∷ (codes "Sec-WebSocket-Key", codes " dGhlIHNhbXBsZSBub25jZQ==")
    ∷ (codes "Sec-WebSocket-Version", codes " 13")
    ∷ []

abbrev path : Bytes
path = codes "/"

fields-IsField : All IsField fields
fields-IsField = search

fields_seen : read_fields nothing_seen fields ≡ record {
  saw_upgrade = true;
  saw_connection = true;
  saw_version = true;
  saw_key = true;
  key = codes "dGhlIHNhbXBsZSBub25jZQ==";
}
unfolding read_fields note_header ci_equal_string_n ci_equal_n ci_contains_token trim_span same_text
fields_seen = refl

fields_without_nul : No (λ c. c == 0) (read_fields nothing_seen fields).key
fields_without_nul = rw fields_seen search

handle_handshake_bytes-opens_example :
    (s' : Session) × (accept : Bytes) × (handle_handshake_bytes logged config new_session
        (header_of path fields ++ stream two_frames)
        []
      ≡ some (s', (registered logged config []).1))
    × IsOpen s'
    × (s'.handshake_done ≡ true)
    × (s'.target_registered ≡ true)
    × (contents s'.client_to_target ≡ contents new_session.client_to_target ++ payloads two_frames)
    × (s'.client_out ≡ response_prefix ++ (accept ++ (crlf ++ crlf)))
    × (s'.client_out_len ≡ length s'.client_out)
    × (s'.client_out_pos ≡ 0)
    × (decode accept ≡ sha1 ((read_fields nothing_seen fields).key ++ guid))
unfolding client_frame length_field mask_payload
handle_handshake_bytes-opens_example =
    handle_handshake_bytes-opens logged config path fields two_frames new_session []
      new_session-IsNew (omega arith) (refl, tt) fields-IsField (omega arith) (rw fields_seen refl)
      (rw fields_seen refl) (rw fields_seen refl) (rw fields_seen refl) fields_without_nul
      two_frames-InOrder (omega arith)
