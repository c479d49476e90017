-- ===== src/Application/Fingerprint/Canonical.antt =====
-- The canonical text of a command in backend/app/application/control_deck.py names the command: another
-- trace, command, reason or disposition has another text.
use organization_ai.Base.{
  ℕ, ◌/◌, ◌%◌, ◌^◌, ◌<◌, String, Option, none, some, List, [], ◌∷◌, ◌++◌, ◌≡◌, ◌↔◌, refl, sym, ap,
  ◌∙◌, arith,
}
use organization_ai.Base.Json.{Uuid, hex, uuid_text}
use organization_ai.Base.Text.{codes, format}
use organization_ai.Base.Text.Blank.{codes-append}
use organization_ai.Domain.Control.Vocabulary.{
  ControlCommand, pause, resume, record_demo_review, undo, DemoDisposition, demo_allow,
  demo_decline, command_value, disposition_value,
}
use organization_ai.Application.Fingerprint.{
  json_text, json_disposition, canonical_command, command_fingerprint,
}
use organization_ai.Application.Fingerprint.Digits.{
  head_tail, last_digits, hex-injective, last_digits_all,
}
use organization_ai.Application.Fingerprint.JsonText.{json_text-injective}

behind : (ps xs ys : List ℕ) → ps ++ xs ≡ ps ++ ys → xs ≡ ys
behind [] xs ys h = h
behind (p ∷ ps) xs ys h = behind ps xs ys ((head_tail h).1)

command_value-injective : (c d : ControlCommand) → command_value c ≡ command_value d → c ≡ d
unfolding command_value
command_value-injective pause pause h = refl
command_value-injective resume resume h = refl
command_value-injective record_demo_review record_demo_review h = refl
command_value-injective undo undo h = refl
command_value-injective pause resume h = absurd (cc)
command_value-injective pause record_demo_review h = absurd (cc)
command_value-injective pause undo h = absurd (cc)
command_value-injective resume pause h = absurd (cc)
command_value-injective resume record_demo_review h = absurd (cc)
command_value-injective resume undo h = absurd (cc)
command_value-injective record_demo_review pause h = absurd (cc)
command_value-injective record_demo_review resume h = absurd (cc)
command_value-injective record_demo_review undo h = absurd (cc)
command_value-injective undo pause h = absurd (cc)
command_value-injective undo resume h = absurd (cc)
command_value-injective undo record_demo_review h = absurd (cc)

disposition_value-injective :
    (d e : DemoDisposition) → disposition_value d ≡ disposition_value e → d ≡ e
unfolding disposition_value
disposition_value-injective demo_allow demo_allow h = refl
disposition_value-injective demo_decline demo_decline h = refl
disposition_value-injective demo_allow demo_decline h = absurd (cc)
disposition_value-injective demo_decline demo_allow h = absurd (cc)

json_disposition-injective :
    (d e : Option DemoDisposition) (xs ys : List ℕ)
    → json_disposition d ++ xs ≡ json_disposition e ++ ys
    → (d ≡ e) × (xs ≡ ys)
unfolding json_disposition json_text
json_disposition-injective none none xs ys h = (refl, behind (codes "null") xs ys h)
json_disposition-injective none (some e) xs ys h = absurd (differ ((head_tail h).0))
  where
    differ : ◌≡◌ {A = ℕ} 0x6e 0x22 → ⊥
    differ e = omega arith
json_disposition-injective (some d) none xs ys h = absurd (differ ((head_tail h).0))
  where
    differ : ◌≡◌ {A = ℕ} 0x22 0x6e → ⊥
    differ e = omega arith
json_disposition-injective (some d) (some e) xs ys h =
    let (same, rest) = json_text-injective (disposition_value d) (disposition_value e) xs ys h in
    (ap (λ (x : DemoDisposition). some x) (disposition_value-injective d e same), rest)

abbrev joined : List String → List ℕ
joined [] = []
joined (p ∷ ps) = codes p ++ joined ps

codes-format : (ps : List String) → codes (format ps) ≡ joined ps
unfolding format
codes-format [] = refl
codes-format (p ∷ ps) =
    codes-append p (format ps) ∙ ap (λ (l : List ℕ). codes p ++ l) (codes-format ps)

-- The groups of a UUID's text.
uuid_codes :
    (u : Uuid)
    → codes (uuid_text u)
      ≡ codes (hex 8 (u / 2 ^ 96))
        ++ 0x2d
          ∷ (codes (hex 4 (u / 2 ^ 80))
              ++ 0x2d
                ∷ (codes (hex 4 (u / 2 ^ 64))
                    ++ 0x2d ∷ (codes (hex 4 (u / 2 ^ 48)) ++ 0x2d ∷ (codes (hex 12 u) ++ []))))
unfolding uuid_text
uuid_codes u = codes-format (
    hex 8 (u / 2 ^ 96)
    ∷ "-"
    ∷ hex 4 (u / 2 ^ 80)
    ∷ "-"
    ∷ hex 4 (u / 2 ^ 64)
    ∷ "-"
    ∷ hex 4 (u / 2 ^ 48)
    ∷ "-"
    ∷ hex 12 u
    ∷ [])

last_four : (n : ℕ) → last_digits 4 n ≡ n % 2 ^ 16
last_four n = omega arith

last_twelve : (n : ℕ) → last_digits 12 n ≡ n % 2 ^ 48
last_twelve n = omega arith

-- A UUID of 128 bits is read back from its groups.
uuid_text-injective : (u v : Uuid) → u < 2 ^ 128 → v < 2 ^ 128 → uuid_text u ≡ uuid_text v → u ≡ v
uuid_text-injective u v hu hv h =
    let texts = sym (uuid_codes u) ∙ ap codes h ∙ uuid_codes v in
    let (a, r1) = hex-injective 8 (u / 2 ^ 96) (v / 2 ^ 96) _ _ texts in
    let (b, r2) = hex-injective 4 (u / 2 ^ 80) (v / 2 ^ 80) _ _ ((head_tail r1).1) in
    let (c, r3) = hex-injective 4 (u / 2 ^ 64) (v / 2 ^ 64) _ _ ((head_tail r2).1) in
    let (d, r4) = hex-injective 4 (u / 2 ^ 48) (v / 2 ^ 48) _ _ ((head_tail r3).1) in
    let (e, r5) = hex-injective 12 u v [] [] ((head_tail r4).1) in
    of_groups u v
      (sym (last_digits_all 8 (u / 2 ^ 96) (omega arith))
        ∙ a
        ∙ last_digits_all 8 (v / 2 ^ 96) (omega arith))
      (sym (last_four (u / 2 ^ 80)) ∙ b ∙ last_four (v / 2 ^ 80))
      (sym (last_four (u / 2 ^ 64)) ∙ c ∙ last_four (v / 2 ^ 64))
      (sym (last_four (u / 2 ^ 48)) ∙ d ∙ last_four (v / 2 ^ 48))
      (sym (last_twelve u) ∙ e ∙ last_twelve v)
  where
    of_groups :
        (u v : ℕ)
        → u / 2 ^ 96 ≡ v / 2 ^ 96
        → u / 2 ^ 80 % 2 ^ 16 ≡ v / 2 ^ 80 % 2 ^ 16
        → u / 2 ^ 64 % 2 ^ 16 ≡ v / 2 ^ 64 % 2 ^ 16
        → u / 2 ^ 48 % 2 ^ 16 ≡ v / 2 ^ 48 % 2 ^ 16
        → u % 2 ^ 48 ≡ v % 2 ^ 48
        → u ≡ v
    of_groups u v a b c d e = omega arith

module _ (t t' : Uuid) (c c' : ControlCommand) (r r' : String) (d d' : Option DemoDisposition) where
  -- The two commands are the same.
  abbrev pub SameIntent : Type 0
  SameIntent = (t ≡ t') × (c ≡ c') × (r ≡ r') × (d ≡ d')

  canonical_command-injective :
      t < 2 ^ 128
      → t' < 2 ^ 128
      → canonical_command t c r d ≡ canonical_command t' c' r' d'
      → SameIntent
  unfolding canonical_command
  canonical_command-injective small small' h =
      let after_command = behind (codes "{\"command\":") _ _ h in
      let (command, h1) =
        json_text-injective (command_value c) (command_value c') _ _ after_command in
      let after_disposition = behind (codes ",\"disposition\":") _ _ h1 in
      let (disposition, h2) = json_disposition-injective d d' _ _ after_disposition in
      let after_reason = behind (codes ",\"reason\":") _ _ h2 in
      let (reason, h3) = json_text-injective r r' _ _ after_reason in
      let after_trace = behind (codes ",\"trace_id\":") _ _ h3 in
      let (trace, h4) = json_text-injective (uuid_text t) (uuid_text t') _ _ after_trace in
      (
        uuid_text-injective t t' small small' trace,
        command_value-injective c c' command,
        reason,
        disposition,
      )

  -- For traces whose ids have 128 bits, and a SHA-256 that has no collision on the canonical texts of the
  -- two commands: they have the same fingerprint exactly if they are on the same trace, with the same
  -- command, reason and disposition.
  pub command_fingerprint_iff :
      (sha256 : List ℕ → String)
      → (sha256 (canonical_command t c r d) ≡ sha256 (canonical_command t' c' r' d')
          → canonical_command t c r d ≡ canonical_command t' c' r' d')
      → t < 2 ^ 128
      → t' < 2 ^ 128
      → (command_fingerprint sha256 t c r d ≡ command_fingerprint sha256 t' c' r' d') ↔ SameIntent
  unfolding command_fingerprint
  command_fingerprint_iff sha256 no_collision small small' = (
    λ same. canonical_command-injective small small' (no_collision same),
    λ (trace, command, reason, disposition). rw (trace, command, reason, disposition) refl,
  )
