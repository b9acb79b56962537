-- ===== src/Tests/Greeting.antt =====
-- Tests of the exchange of hellos.
use cmd.Prelude.{◌≡◌, ◌↔◌, refl, arith, true, [], ◌∷◌, ◌++◌, Bytes, codes, bytes_eq, ok}
use cmd.Prelude.Io.{eof, Sink}
use cmd.Prelude.Text.{has_prefix, has_suffix, trim_right, trim_cons}
use cmd.Mote.Handshake.{
  server_hello, client_hello, match_server_hello, match_hex_handshake, scan_hello, client_handshake,
  server_handshake,
}
use cmd.Mote.Handshake.Scanning.{IsBanner, banner, ended, scan_hello_lem}
use cmd.Mote.Handshake.Hellos.{is_text-IsText, server_handshake_iff, handshakes_agree}

abbrev login : Bytes
login = codes "Last login: today"

abbrev text : Bytes
text = codes "text"

abbrev room : Sink
room = record { out = []; room = 100 }

login_passed : IsBanner match_server_hello (login ∷ [])
unfolding match_server_hello bytes_eq has_prefix
login_passed = ((is_text-IsText login refl, refl), tt)

login_passed_hex : IsBanner match_hex_handshake (login ∷ [])
unfolding match_hex_handshake has_suffix trim_right trim_cons bytes_eq
login_passed_hex = ((is_text-IsText login refl, refl), tt)

hex_accepted : match_hex_handshake (ended (codes "$ mote hex handshake\r")) ≡ ok true
unfolding match_hex_handshake has_suffix trim_right trim_cons bytes_eq
hex_accepted = refl

scan_hello_lem_example :
    scan_hello
      (record { bytes = login ++ codes "\n$ mote hex handshake\r\ntext"; fin = eof })
      match_hex_handshake
    ≡ ok (record { bytes = text; fin = eof })
scan_hello_lem_example =
    scan_hello_lem match_hex_handshake (login ∷ []) (codes "$ mote hex handshake\r") text eof
      login_passed_hex (is_text-IsText (codes "$ mote hex handshake\r") refl) hex_accepted
      (omega arith)

server_handshake_iff_example :
    ((server_handshake (record { bytes = client_hello ++ text; fin = eof }) room).0
      ≡ ok (record { bytes = text; fin = eof }))
    ↔ ((client_hello ++ text ≡ client_hello ++ text) × (eof ≡ eof))
server_handshake_iff_example =
    server_handshake_iff (record { bytes = client_hello ++ text; fin = eof })
      (record { bytes = text; fin = eof }) room (omega arith)

handshakes_agree_example :
    (client_handshake
        (record {
          bytes = banner match_server_hello (login ∷ []) ++ server_hello ++ text;
          fin = eof;
        })
        room
      ≡ (ok (record { bytes = text; fin = eof }), record { out = client_hello; room = 77 }))
    × (server_handshake (record { bytes = client_hello ++ text; fin = eof }) room
        ≡ (ok (record { bytes = text; fin = eof }), record { out = server_hello; room = 77 }))
handshakes_agree_example =
    handshakes_agree (login ∷ []) text text eof eof room room login_passed (omega arith)
      (omega arith) (omega arith)
