-- ===== src/Domain/Phone/Pattern.antt =====
-- The pattern of phone.go read as a regular expression, and the matcher against it.
use realtime_messaging_platf.Prelude.{
  ℕ, zero, suc, ◌≤◌, ◌≡◌, ◌≢◌, refl, true, ◌↔◌, List, [], ◌∷◌, ◌++◌, length, arith, codes, String,
  str_eq, eq_iff, ◌⊎◌, inl, inr, Bool-cases,
}
use realtime_messaging_platf.Domain.Errors.{Error, sentinel, wrap, is, invalid_phone_number}
use realtime_messaging_platf.Domain.Phone.{
  matches_e164, all_digits, valid, invalid, new_phone_number,
}

-- Regular expressions over ranges of characters, with a counted repetition.
pub data Regex : Type 0 where
  range : ℕ → ℕ → Regex
  seq : Regex → Regex → Regex
  repeat : ℕ → ℕ → Regex → Regex

-- `k` texts of `P` one after the other.
abbrev pub Power : (List ℕ → Type 0) → ℕ → List ℕ → Type 0
Power P zero s = s ≡ []
Power P (suc k) s = (a : List ℕ) × (b : List ℕ) × (s ≡ a ++ b) × P a × Power P k b

-- The language of an expression.
abbrev pub Matches : Regex → List ℕ → Type 0
Matches (range lo hi) s = (c : ℕ) × (s ≡ c ∷ []) × (lo ≤ c) × (c ≤ hi)
Matches (seq r q) s = (a : List ℕ) × (b : List ℕ) × (s ≡ a ++ b) × Matches r a × Matches q b
Matches (repeat m n r) s = (k : ℕ) × (m ≤ k) × (k ≤ n) × Power (Matches r) k s

abbrev pub digit : Regex
digit = range b'0' b'9'

-- `\+[1-9]\d{6,14}`, anchored at both ends.
abbrev pub e164_pattern : Regex
e164_pattern = seq (range b'+' b'+') (seq (range b'1' b'9') (repeat 6 14 digit))

all_digits-Power : (s : List ℕ) → all_digits s ≡ true → Power (Matches digit) (length s) s
unfolding matches_e164
all_digits-Power [] h = refl
all_digits-Power (c ∷ cs) h =
    (c ∷ [], cs, refl, (c, refl, ground arith, ground arith), all_digits-Power cs (ground arith))

Power-all_digits :
    (k : ℕ) (s : List ℕ) → Power (Matches digit) k s → (all_digits s ≡ true) × (length s ≡ k)
unfolding matches_e164
Power-all_digits zero s p = ground arith
Power-all_digits (suc k) s (a, b, e, (c, ea, lo, hi), p) = ground (arith, Power-all_digits k b p)

Matches-sound : (s : List ℕ) → matches_e164 s ≡ true → Matches e164_pattern s
unfolding matches_e164
Matches-sound [] h = cc
Matches-sound (c ∷ []) h = ground arith
Matches-sound (c ∷ (d ∷ ds)) h = (
  c ∷ [],
  d ∷ ds,
  refl,
  (c, refl, ground arith, ground arith),
  (
    d ∷ [],
    ds,
    refl,
    (d, refl, ground arith, ground arith),
    (length ds, ground arith, ground arith, all_digits-Power ds (ground arith)),
  ),
)

Matches-complete : (s : List ℕ) → Matches e164_pattern s → matches_e164 s ≡ true
unfolding matches_e164
Matches-complete s (a, b, e, (c, ea, cl, ch), (a', b', e', (d, ed, dl, dh), (k, lo, hi, p))) =
    ground (arith, Power-all_digits k b' p)

-- The matcher accepts exactly the texts of the pattern.
pub matches_e164_iff : (s : List ℕ) → (matches_e164 s ≡ true) ↔ Matches e164_pattern s
matches_e164_iff s = (Matches-sound s, Matches-complete s)

e164-nonempty : (raw : String) → matches_e164 (codes raw) ≡ true → raw ≢ ""
unfolding matches_e164
e164-nonempty raw m e = cc (rw e at m)

-- A text of the pattern is validated as it stands; any other text, the empty one included, is
-- refused with an error that is ErrInvalidPhoneNumber.
pub new_phone_number_cases :
    (raw : String)
    → (Matches e164_pattern (codes raw) × (new_phone_number raw ≡ valid (record { value = raw })))
      ⊎ ((¬ Matches e164_pattern (codes raw))
          × ((e : Error) × (new_phone_number raw ≡ invalid e) × (is e invalid_phone_number ≡ true)))
unfolding new_phone_number is
new_phone_number_cases raw = elim (Bool-cases (matches_e164 (codes raw))) [
  | inl m ↦ inl (Matches-sound (codes raw) m, ground (arith, eq_iff raw "", e164-nonempty raw m))
  | inr r ↦ elim (Bool-cases (str_eq raw "")) [
    | inl e ↦ inr (
      λ h. cc (r, Matches-complete (codes raw) h),
      (wrap "phone number cannot be empty" (sentinel invalid_phone_number), rw e, refl),
    )
    | inr n ↦ inr (
      λ h. cc (r, Matches-complete (codes raw) h),
      (wrap "phone number %q is not valid E.164" (sentinel invalid_phone_number), rw (n, r), refl),
    )
  ]
]
