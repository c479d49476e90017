-- ===== src/Examples/Fingerprint.antt =====
-- The fingerprints of two commands that differ in their reason.
use organization_ai.Base.{ℕ, String, none, List, length, leb, if◌then◌else◌, ◌≡◌, ◌↔◌, arith}
use organization_ai.Domain.Control.Vocabulary.{pause}
use organization_ai.Application.Fingerprint.{canonical_command, command_fingerprint}
use organization_ai.Application.Fingerprint.Canonical.{SameIntent, command_fingerprint_iff}

-- A stand-in for SHA-256, which tells the two texts apart by their lengths.
abbrev by_length : List ℕ → String
by_length bytes = if leb (length bytes) 107 then "short" else "long"

told_apart :
    by_length (canonical_command 100 pause "hold" none)
      ≡ by_length (canonical_command 100 pause "hold until Monday" none)
    → canonical_command 100 pause "hold" none ≡ canonical_command 100 pause "hold until Monday" none
unfolding canonical_command
told_apart same = absurd (cc)

command_fingerprint_iff_example :
    (command_fingerprint by_length 100 pause "hold" none
      ≡ command_fingerprint by_length 100 pause "hold until Monday" none)
    ↔ SameIntent 100 100 pause pause "hold" "hold until Monday" none none
command_fingerprint_iff_example =
    command_fingerprint_iff 100 100 pause pause "hold" "hold until Monday" none none by_length
      told_apart (omega arith) (omega arith)
