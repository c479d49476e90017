-- ===== src/Application/Fingerprint.antt =====
-- `command_fingerprint` of backend/app/application/control_deck.py: the canonical JSON of a command
-- intent, as `json.dumps` with sorted keys, bare separators and ASCII escapes writes it, hashed.
pub mod Digits
pub mod Escape
pub mod JsonText
pub mod Canonical
use organization_ai.Base.{
  ℕ, ◌+◌, ◌-◌, ◌/◌, ◌%◌, ◌^◌, String, Option, none, some, List, [], ◌∷◌, ◌++◌, ◌&&◌, leb, ltb, ◌==◌,
  if◌then◌else◌,
}
use organization_ai.Base.Json.{Uuid, uuid_text, hex}
use organization_ai.Base.Text.{codes}
use organization_ai.Domain.Control.Vocabulary.{
  ControlCommand, DemoDisposition, command_value, disposition_value,
}

-- `\uXXXX`
unfoldable pub unicode_escape : ℕ → List ℕ
unfolding hex
unicode_escape c = codes "\\u" ++ codes (hex 4 c)

-- A character that has no shorter escape: above 0xffff a surrogate pair.
unfoldable pub escape_other : ℕ → List ℕ
unfolding unicode_escape
escape_other c =
    if ltb c 0x10000
    then unicode_escape c
    else unicode_escape (0xd800 + (c - 0x10000) / 2 ^ 10 % 2 ^ 10)
      ++ unicode_escape (0xdc00 + (c - 0x10000) % 2 ^ 10)

-- One character of a JSON text under `ensure_ascii`.
unfoldable pub escape_char : ℕ → List ℕ
unfolding escape_other
escape_char c =
    if c == 0x22
    then 0x5c ∷ 0x22 ∷ []
    else if c == 0x5c
    then 0x5c ∷ 0x5c ∷ []
    else if c == 0x0a
    then 0x5c ∷ b'n' ∷ []
    else if c == 0x0d
    then 0x5c ∷ b'r' ∷ []
    else if c == 0x09
    then 0x5c ∷ b't' ∷ []
    else if c == 0x0c
    then 0x5c ∷ b'f' ∷ []
    else if c == 0x08
    then 0x5c ∷ b'b' ∷ []
    else if leb 0x20 c && leb c 0x7e
    then c ∷ []
    else escape_other c

unfoldable pub escape : List ℕ → List ℕ
unfolding escape_char
escape [] = []
escape (c ∷ cs) = escape_char c ++ escape cs

unfoldable pub json_text : String → List ℕ
unfolding escape
json_text s = 0x22 ∷ (escape (codes s) ++ 0x22 ∷ [])

unfoldable pub json_disposition : Option DemoDisposition → List ℕ
unfolding json_text disposition_value
json_disposition none = codes "null"
json_disposition (some d) = json_text (disposition_value d)

-- `canonical.encode("utf-8")`: every character is ASCII, so the bytes are the characters.
unfoldable pub canonical_command : Uuid → ControlCommand → String → Option DemoDisposition → List ℕ
unfolding json_text json_disposition command_value uuid_text
canonical_command trace_id command reason disposition =
    codes "{\"command\":"
    ++ (json_text (command_value command)
        ++ (codes ",\"disposition\":"
            ++ (json_disposition disposition
                ++ (codes ",\"reason\":"
                    ++ (json_text reason
                        ++ (codes ",\"trace_id\":"
                            ++ (json_text (uuid_text trace_id) ++ codes "}")))))))

-- `sha256` is `hashlib.sha256(…).hexdigest()`, whose algorithm is not part of the repository.
module _ (sha256 : List ℕ → String) where
  unfoldable pub command_fingerprint :
      Uuid → ControlCommand → String → Option DemoDisposition → String
  unfolding canonical_command
  command_fingerprint trace_id command reason disposition =
      sha256 (canonical_command trace_id command reason disposition)
