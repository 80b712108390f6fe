-- ===== src/Domain/Ids/Laws.antt =====
-- internal/domain/ids.go: which texts are identifiers, and the order of sequence numbers.
use Prim.Native.String.{◌++◌}
use realtime_messaging_platf.Prelude.{
  ap, ltb, ℕ, ◌+◌, ◌-◌, ◌^◌, ◌≤◌, ◌<◌, ◌≡◌, ◌≢◌, ◌⊎◌, inl, inr, refl, Bool, true, false, String,
  str_eq, eq_iff, codes, arith, Bool-cases,
}
use realtime_messaging_platf.Domain.Errors.{Error, sentinel, wrap, is, empty_id, invalid_id}
use realtime_messaging_platf.Domain.Constants.{max_client_message_id_length}
use realtime_messaging_platf.Effect.{ok, err}
use realtime_messaging_platf.Auth.Runtime.{Runtime}
use realtime_messaging_platf.Domain.Ids.{
  Kind, Identifier, new_id, generate_id, is_zero, new_client_message_id, byte_length, utf8_length,
  kind_name, next,
}

module _ (is_uuid : String → Bool) (k : Kind) where
  -- A text becomes an identifier, with that text, exactly when it is not empty and is a UUID; the
  -- empty text and any other text are refused with errors of their own.
  pub new_id_cases :
      (raw : String)
      → ((id : Identifier k) × (new_id is_uuid k raw ≡ ok id)
          × (id.value ≡ raw)
          × (raw ≢ "")
          × (is_uuid raw ≡ true))
        ⊎ ((e : Error) × (new_id is_uuid k raw ≡ err e)
            × (((raw ≡ "") × (is e empty_id ≡ true) × (is e invalid_id ≡ false))
                ⊎ ((is_uuid raw ≡ false) × (is e invalid_id ≡ true) × (is e empty_id ≡ false))))
  unfolding new_id is
  new_id_cases raw = elim (Bool-cases (str_eq raw "")) [
    | inl empty ↦ inr (sentinel empty_id, ground arith, inl ((eq_iff raw "").0 empty, refl, refl))
    | inr full ↦ elim (Bool-cases (is_uuid raw)) [
      | inl u ↦ inl (record { value = raw }, ground arith, refl, ground (arith, eq_iff raw ""), u)
      | inr other ↦ inr (
        wrap ("invalid " ++ (kind_name k ++ " ID %q")) (sentinel invalid_id),
        ground arith,
        inr (other, refl, refl),
      )
    ]
  ]

  -- A generated identifier is one that the constructor accepts again, and it is not the zero one.
  pub new_id-generate_id :
      {W : Type 0} (rt : Runtime W) (w : W)
      → is_uuid (rt.new_uuid w).0 ≡ true
      → (rt.new_uuid w).0 ≢ ""
      → (new_id is_uuid k (generate_id rt k w).0.value ≡ ok (generate_id rt k w).0)
        × (is_zero (generate_id rt k w).0 ≡ false)
  unfolding new_id generate_id is_zero
  new_id-generate_id rt w u ne = ground (arith, eq_iff (rt.new_uuid w).0 "")

byte_length_pos : (s : String) → s ≢ "" → 0 < byte_length (codes s)
unfolding byte_length utf8_length
byte_length_pos String.[] ne = absurd (ne refl)
byte_length_pos (String.◌∷◌ c s) ne = ground arith

-- The constructor of client message ids accepts a text as it is exactly when it has at least one and
-- at most 128 bytes.
pub new_client_message_id_cases :
    (raw : String)
    → ((new_client_message_id raw ≡ ok (record { value = raw }))
        × (1 ≤ byte_length (codes raw))
        × (byte_length (codes raw) ≤ 128))
      ⊎ ((e : Error) × (new_client_message_id raw ≡ err e)
          × (((byte_length (codes raw) ≡ 0) × (is e empty_id ≡ true))
              ⊎ ((128 < byte_length (codes raw)) × (is e invalid_id ≡ true))))
unfolding new_client_message_id is byte_length
new_client_message_id_cases raw = elim (Bool-cases (str_eq raw "")) [
  | inl empty ↦ inr (
    sentinel empty_id,
    ground arith,
    inl (ap (λ (s : String). byte_length (codes s)) ((eq_iff raw "").0 empty), refl),
  )
  | inr full ↦ elim (Bool-cases (ltb max_client_message_id_length (byte_length (codes raw)))) [
    | inl long ↦ inr (
      wrap "client message ID exceeds max length %d" (sentinel invalid_id),
      ground arith,
      inr (ground arith, refl),
    )
    | inr short ↦
        inl (ground arith, byte_length_pos raw (λ e. ground (arith, eq_iff raw "")), ground arith)
  ]
]

-- The successor of a sequence number is greater, and again a uint64, except that the greatest is
-- followed by zero.
pub next_lem :
    (s : ℕ)
    → s < 2 ^ 64
    → (next s < 2 ^ 64) × (((s < next s) × (next s ≡ s + 1)) ⊎ ((s ≡ 2 ^ 64 - 1) × (next s ≡ 0)))
unfolding next
next_lem s h = ground arith
