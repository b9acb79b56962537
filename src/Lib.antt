-- ===== src/Lib.antt =====
-- Verification of the core logic of the commands in this repository.
--
-- mote runs a command on another machine. Its client and its server talk over a stack of layers,
-- each of which is a module below Mote:
--   * Handshake (mote/handshake.go and scanHexHandshake of mote/hex.go) finds the start of the protocol
--     behind whatever text the network shows first. `scan` is the loop of scanHello, `client_handshake`
--     and `server_handshake` are the two sides of the exchange of hellos.
--   * Hex (mote/hex.go) carries the protocol over connections that are not binary safe: `hex_write` is
--     hexWriter.Write, `hex_read` is hexReader.Read, `digest` its loop over the raw bytes.
--   * Packet (mote/packet.go) frames JSON and data: `write_packet`, `write_packet_stream`,
--     `read_packet`, `read_packet_stream` and `read_handshake_packet` are the methods of Conn.
--   * Noise (mote/internal/noise/noise.go) is the handshake that agrees on keys: `write_message` and
--     `read_message` are the methods of HandshakeState, `encrypt` and `decrypt` those of CipherState.
--   * Secure (mote/secure.go) is the encrypted stream over the ciphers that Noise gives:
--     `secure_write` and `secure_read` are the methods of secureStream.
--   * Password (mote/secure.go) is the handshake in front of it, in which both sides check the password:
--     `secure_server` and `secure_client`. It sends packets, calls CPace through the interface `Cpace`
--     and runs the handshake of Noise.
--   * Cpace (mote/internal/cpace) is the exchange that turns a password into a key: Cpace is cpace.go,
--     with `start`, `finish` and `verify` for Start, State.Finish and State.Verify, Cpace.Field
--     is field.go, where an element is four words of 64 bits and `fe_mul` feMul, and Cpace.Elligator
--     elligator.go. Cpace.Sessions fills the interface `Cpace` of Password with it.
--   * Session (mote/client.go) is Conn.Run, as `run`, and Session.Serve (mote/server.go) is serve from the
--     Info response on, as `serve`. They exchange packets, and serve calls Cache. Session.Placing is
--     the part of serve that copies the files, `place_all`.
--   * Config (mote/config.go) has the files of passwords and of aliases: `read_passwords`,
--     `look_up`, `set_password` and their twins for aliases, and `cmd_alias`.
--   * Daemon (mote/taildaemon.go) is the process that shares one node between clients: `Step` is one
--     action of `run`, of the idle timer or of the goroutine of a client, `advance` the actions of a
--     client, and `arrive`, `depart`, `expire`, `attach` and `detach` the critical sections.
--   * Cache (mote/cache.go and the upload in `serve` of mote/server.go) keeps uploaded files by their
--     hash: `valid_hash`, `in_cache`, `save_to_cache`, and `sizes_of`, `needed` and `receive`
--     for what serve does with the files of a request. Cache.Paths is remotePath, where `clean` is
--     path.Clean of a rooted path and FromSlash changes nothing; Cache.Places has copyFromCache, clientPath
--     and exeName, and Cache.Aging the modification times, with cleanCache and cmdClean,
--     where every system call is a step.
-- Gofixerr.Edit (gofixerr/edit.go) is the queue of edits that gofixerr applies to a source file.
-- Prelude has what they share: lists and tests over the native numbers, results, the readers and
-- writers of package io, bytes of fixed-width numbers, and text. Tests applies the theorems to
-- concrete inputs.
--
-- A connection is what it still delivers and how it then fails (`Source`, or `Stream` where the size of
-- the chunks matters), and what it has taken and still takes before a write fails (`Sink`). A Go
-- function that returns an error gives a `Result`, one that panics an error of its own. Bytes are
-- numbers; where the code relies on them being below 256 a theorem assumes it. The JSON encoding and the
-- cryptographic primitives are parameters (`Json`, `Crypto`, `Suite`), with what the code relies on as named
-- hypotheses: that opening undoes sealing, that sealing adds 16 bytes, that two key pairs give one
-- secret, that X25519 commutes, and that a hash or a tag tells its inputs apart where a theorem says so.
-- The handshake of Password is proved against an interface (`Cpace`).
--
-- Loops run on fuel where they do not follow a list: the writers on the number of bytes left, since each
-- round takes one at least; the readers on the number of reads that the connection can still
-- serve. Where fuel could run out the result is none; the theorems on the reader of Hex show that it
-- is not, and for the reader of Secure the round trip shows it.
--
-- The length prefix of Cpace runs on one step for each unit of the length and one more, since each
-- step divides what is left by 128.
--
-- A session is modelled on packets, which the modules below carry. Both sides are functions of all that
-- they are to read; what the files of the client have in them, what the server's disk does and how the
-- command ends is what `Exec` and `Host` say. The output of the command is the list of the pieces that are sent, in the
-- order in which the two copies send them.
--
-- In the daemon each critical section is a step, and in Cache.Aging each system call, and the steps
-- interleave in any order; elsewhere
-- locks are not modelled, and each operation holds its lock from start to end. Timeouts are an error
-- that a connection may report. Not modelled are Kill requests while a command runs, the choice of a
-- server, the upload list, the directories and the terminal of the configuration, the transports, which
-- call other processes, c2gofmt with its generated parser, the rest of gofixerr, git-foreach, benchlab
-- and the small commands.
pub mod Gofixerr
pub mod Mote
pub mod Prelude
pub mod Tests
