-- ===== src/Mote/Handshake/Hellos.antt =====
-- The two sides of the exchange of hellos.
use cmd.Prelude.{
  ◌+◌, ◌-◌, ◌≤◌, ◌≡◌, refl, sym, ap, ◌∙◌, ◌↔◌, inl, inr, Bool, true, false, List, [], ◌∷◌, ◌++◌,
  append_assoc, arith, Bytes, bytes_eq, bytes_eq_iff, length, ltb, ◌==◌, if◌then◌else◌, if_true,
  if_false, Bool-cases, ok, err,
}
use cmd.Prelude.Io.{IoError, Source, Sink, write_fits}
use cmd.Prelude.Text.{has_prefix}
use cmd.Mote.Handshake.{
  server_hello, hello_prefix, client_hello, client_prefix, max_preamble, not_binary_safe, malformed,
  match_server_hello, scan_server_hello, client_handshake, check_client_hello, scan_client_hello,
  server_handshake,
}
use cmd.Mote.Handshake.Scanning.{IsText, IsBanner, banner, scan_hello_lem}

-- Where the line ends, the client hello is what has been read.
check-ok :
    (line : Bytes) (src src' : Source)
    → check_client_hello line src ≡ ok src'
    → (line ≡ client_hello) × (src ≡ src')
unfolding check_client_hello
check-ok line src src' h = elim (Bool-cases (bytes_eq line client_hello)) [
  | inl e ↦
      let r : check_client_hello line src ≡ ok src = rw (e, check_client_hello) refl in
      ((bytes_eq_iff line client_hello).0 e, cc)
  | inr e ↦ elim (Bool-cases (has_prefix line client_prefix)) [
    | inl p ↦
        let r : check_client_hello line src ≡ err not_binary_safe =
          rw (e, check_client_hello) (rw (p, check_client_hello) refl) in
        cc
    | inr p ↦
        let r : check_client_hello line src ≡ err malformed =
          rw (e, check_client_hello) (rw (p, check_client_hello) refl) in
        cc
  ]
]

scan_client_hello-ok :
    (line bytes : Bytes) (fin : IoError) (src : Source)
    → scan_client_hello line bytes fin ≡ ok src
    → (line ++ bytes ≡ client_hello ++ src.bytes) × (src.fin ≡ fin)
unfolding scan_client_hello
scan_client_hello-ok line [] fin src h = cc
scan_client_hello-ok line (b ∷ bs) fin src h =
    let line' = line ++ b ∷ [] in
    elim (Bool-cases (b == b'\n')) [
      | inl newline ↦
          let (e, s) =
            check-ok line' (record { bytes = bs; fin = fin }) src
              (sym (rw (newline, scan_client_hello) refl) ∙ h) in
          (
            sym (append_assoc line (b ∷ []) bs) ∙ (λ i. e i ++ (s i).bytes),
            ap (λ (t : Source). t.fin) (sym s),
          )
      | inr plain ↦ elim (Bool-cases (ltb (length client_hello) (length line'))) [
        | inl long ↦
            let r : scan_client_hello line (b ∷ bs) fin ≡ err malformed =
              rw (plain, scan_client_hello) (rw (long, scan_client_hello) refl) in
            cc
        | inr fits ↦
            let (all, s) =
              scan_client_hello-ok line' bs fin src
                (sym (rw (plain, scan_client_hello) (rw (fits, scan_client_hello) refl)) ∙ h) in
            (sym (append_assoc line (b ∷ []) bs) ∙ all, s)
      ]
    ]

client_hello_found :
    (rest : Bytes) (fin : IoError)
    → scan_client_hello [] (client_hello ++ rest) fin ≡ ok (record { bytes = rest; fin = fin })
unfolding scan_client_hello check_client_hello
client_hello_found rest fin = if_true _ _ ((bytes_eq_iff client_hello client_hello).1 refl)

-- `serverHandshake` on a connection that takes its hello succeeds exactly where the connection
-- delivers the client hello at once, and then leaves exactly what follows it.
pub server_handshake_iff :
    (src src' : Source) (w : Sink)
    → length server_hello ≤ w.room
    → ((server_handshake src w).0 ≡ ok src')
      ↔ ((src.bytes ≡ client_hello ++ src'.bytes) × (src'.fin ≡ src.fin))
unfolding server_handshake
server_handshake_iff src src' w room =
    let sent = write_fits server_hello w room in
    rw (sent) (
      (λ h. scan_client_hello-ok [] src.bytes src.fin src' h),
      (λ (same, fin). rw same (
          client_hello_found src'.bytes src.fin
          ∙ ap (λ f. ok (record { bytes = src'.bytes; fin = f })) (sym fin))),
    )

-- A test for the text of a line.
abbrev pub is_text : Bytes → Bool
is_text [] = true
is_text (b ∷ bs) = if b == b'\n' then false else is_text bs

pub is_text-IsText : (l : Bytes) → is_text l ≡ true → IsText l
is_text-IsText [] h = tt
is_text-IsText (b ∷ bs) h = elim (Bool-cases (b == b'\n')) [
  | inl newline ↦ let r : is_text (b ∷ bs) ≡ false = if_true _ _ newline in cc
  | inr plain ↦ (plain, is_text-IsText bs (sym (if_false _ _ plain) ∙ h))
]

hello_text : Bytes
hello_text = hello_prefix ++ 0 ∷ 1 ∷ 254 ∷ 255 ∷ []

hello_accepted : match_server_hello server_hello ≡ ok true
unfolding match_server_hello
hello_accepted = if_true _ _ ((bytes_eq_iff server_hello server_hello).1 refl)

hello_text-IsText : IsText hello_text
unfolding hello_text
hello_text-IsText = is_text-IsText hello_text refl

-- The two sides of the exchange on connections with room: whatever text the network puts before the
-- server's hello, in lines that are not taken for it and of at most 64 KB less the hello, and
-- whatever follows each hello, both sides succeed, each has written its hello, and each leaves
-- exactly what follows the other's.
pub handshakes_agree :
    (ls : List Bytes) (from_server from_client : Bytes) (fin fin' : IoError) (client server : Sink)
    → IsBanner match_server_hello ls
    → length (banner match_server_hello ls) + length server_hello ≤ max_preamble
    → length client_hello ≤ client.room
    → length server_hello ≤ server.room
    → (client_handshake
          (record {
            bytes = banner match_server_hello ls ++ server_hello ++ from_server;
            fin = fin;
          })
          client
        ≡ (
          ok (record { bytes = from_server; fin = fin }),
          record { out = client.out ++ client_hello; room = client.room - length client_hello },
        ))
      × (server_handshake (record { bytes = client_hello ++ from_client; fin = fin' }) server ≡ (
        ok (record { bytes = from_client; fin = fin' }),
        record { out = server.out ++ server_hello; room = server.room - length server_hello },
      ))
unfolding client_handshake server_handshake scan_server_hello hello_text
handshakes_agree ls from_server from_client fin fin' client server is fits room room' =
    let found =
      scan_hello_lem match_server_hello ls hello_text from_server fin is hello_text-IsText
        hello_accepted (omega arith) in
    let sent = write_fits client_hello client room in
    let sent' = write_fits server_hello server room' in
    (
      rw (found, client_handshake) (rw (sent, client_handshake) refl),
      rw sent' (
          ap
            (λ r. (
              r,
              record { out = server.out ++ server_hello; room = server.room - length server_hello },
            ))
            (client_hello_found from_client fin')),
    )
