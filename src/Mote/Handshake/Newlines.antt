-- ===== src/Mote/Handshake/Newlines.antt =====
-- What `scanHello` does with a preamble of empty lines.
use cmd.Prelude.{ℕ, zero, suc, [], ◌∷◌, Bytes}

abbrev pub newlines : ℕ → Bytes
newlines zero = []
newlines (suc n) = b'\n' ∷ newlines n
