-- ===== src/Observability/Logging/Redaction.antt =====
-- internal/observability/logging.go: which attributes are redacted.
use Prim.Native.Char.{Char}
use text.Mathlib.TextEquality.{Char-path}
use Prim.Native.String.{◌++◌}
use Prim.Native.String.append.{nil, cons}
use realtime_messaging_platf.Prelude.{
  ◌≡◌, ◌⊎◌, inl, inr, refl, ap, sym, ◌∙◌, true, false, String, List, [], ◌∷◌, arith, Bool-cases,
}
use realtime_messaging_platf.Observability.Logging.{
  Attr, sensitive_patterns, has_prefix, contains, redact, redact_secrets,
}

has_prefix-append : (t b : String) → has_prefix (t ++ b) t ≡ true
unfolding has_prefix
has_prefix-append String.[] b = refl
has_prefix-append (String.◌∷◌ d t) b =
    ap (λ (x : String). has_prefix x (String.◌∷◌ d t)) (cons d t b)
    ∙ ground (arith, has_prefix-append t b)

contains_of_prefix : (s t : String) → has_prefix s t ≡ true → contains s t ≡ true
unfolding contains
contains_of_prefix String.[] t h = h
contains_of_prefix (String.◌∷◌ c s) t h = rw h

contains-append : (a t b : String) → contains (a ++ (t ++ b)) t ≡ true
unfolding contains
contains-append String.[] t b =
    ap (λ (x : String). contains x t) (nil (t ++ b))
    ∙ contains_of_prefix (t ++ b) t (has_prefix-append t b)
contains-append (String.◌∷◌ c a) t b =
    ap (λ (x : String). contains x t) (cons c a (t ++ b)) ∙ ground (arith, contains-append a t b)

has_prefix-eq : (s t : String) → has_prefix s t ≡ true → (b : String) × (s ≡ t ++ b)
unfolding has_prefix
has_prefix-eq s String.[] h = (s, sym (nil s))
has_prefix-eq String.[] (String.◌∷◌ d t) h = absurd (ground arith)
has_prefix-eq (String.◌∷◌ c s) (String.◌∷◌ d t) h =
    let (b, e) = has_prefix-eq s t (ground arith) in
    let same : c ≡ d = Char-path c d (ground arith) in
    (
      b,
      ap (λ (x : Char). String.◌∷◌ x s) same
          ∙ ap (λ (x : String). String.◌∷◌ d x) e
          ∙ sym (cons d t b),
    )

contains-eq :
    (s t : String) → contains s t ≡ true → (a : String) × (b : String) × (s ≡ a ++ (t ++ b))
unfolding contains
contains-eq String.[] t h = let (b, e) = has_prefix-eq "" t h in ("", b, e ∙ sym (nil (t ++ b)))
contains-eq (String.◌∷◌ c s) t h = elim (Bool-cases (has_prefix (String.◌∷◌ c s) t)) [
  | inl here ↦ let (b, e) = has_prefix-eq (String.◌∷◌ c s) t here in ("", b, e ∙ sym (nil (t ++ b)))
  | inr there ↦
      let (a, b, e) = contains-eq s t (ground arith) in
      (String.◌∷◌ c a, b, ap (λ (x : String). String.◌∷◌ c x) e ∙ sym (cons c a (t ++ b)))
]

-- One of the patterns stands somewhere in the text.
abbrev pub Sensitive : String → List String → Type 0
Sensitive key [] = ⊥
Sensitive key (pattern ∷ rest) =
    ((a : String) × (b : String) × (key ≡ a ++ (pattern ++ b))) ⊎ Sensitive key rest

not-Sensitive_cons :
    (key p : String) (rest : List String)
    → contains key p ≡ false
    → (Sensitive key rest → ⊥)
    → Sensitive key (p ∷ rest)
    → ⊥
not-Sensitive_cons key p rest no_p no_rest (inl (a, b, e)) =
    let yes_p = ap (λ (s : String). contains s p) e ∙ contains-append a p b in cc
not-Sensitive_cons key p rest no_p no_rest (inr h) = no_rest h

module _ (to_lower : String → String) where
  redact_cases :
      (key : String) (patterns : List String) (a : Attr)
      → (Sensitive key patterns
          × (redact to_lower key patterns a ≡ record { key = a.key; value = "[REDACTED]" }))
        ⊎ ((Sensitive key patterns → ⊥) × (redact to_lower key patterns a ≡ a))
  unfolding redact
  redact_cases key [] a = inr (λ h. h, refl)
  redact_cases key (p ∷ rest) a = elim (Bool-cases (contains key p)) [
    | inl found ↦ inl (inl (contains-eq key p found), rw found refl)
    | inr other ↦ elim (redact_cases key rest a) [
      | inl (there, e) ↦ inl (inr there, rw other e)
      | inr (nowhere, e) ↦ inr (λ h. not-Sensitive_cons key p rest other nowhere h, rw other e)
    ]
  ]

  -- An attribute whose key, in lower case, has one of the patterns somewhere in it keeps its key and
  -- loses its value; any other attribute stays as it is.
  pub redact_secrets_cases :
      (groups : List String) (a : Attr)
      → (Sensitive (to_lower a.key) sensitive_patterns
          × (redact_secrets to_lower groups a ≡ record { key = a.key; value = "[REDACTED]" }))
        ⊎ ((Sensitive (to_lower a.key) sensitive_patterns → ⊥)
            × (redact_secrets to_lower groups a ≡ a))
  unfolding redact_secrets
  redact_secrets_cases groups a = redact_cases (to_lower a.key) sensitive_patterns a
