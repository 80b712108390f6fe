-- ===== src/Errmap/Table.antt =====
-- The loop of the three mappers: the first entry whose error is found in the chain.
use realtime_messaging_platf.Prelude.{
  ◌≡◌, refl, Bool, true, false, ◌&&◌, ◌||◌, ◌==◌, List, [], ◌∷◌, Option, none, some, arith,
  if◌then◌else◌,
}
use realtime_messaging_platf.Domain.Errors.{Error, Sentinel, is, index}
use realtime_messaging_platf.Domain.Errors.Laws.{is-index}

abbrev pub Table {ℓ} : Type ℓ → Type ℓ
Table A = List (Sentinel × A)

-- The table has an entry for the error variable.
abbrev pub has {ℓ} : {A : Type ℓ} → Table A → Sentinel → Bool
has [] s = false
has ((s', _) ∷ rest) s = index s' == index s || has rest s

-- Every error variable of the second table is in the first.
abbrev pub covers {ℓ κ} : {A : Type ℓ} {B : Type κ} → Table A → Table B → Bool
covers t [] = true
covers t ((s, _) ∷ rest) = has t s && covers t rest

module _ {ℓ} {A : Type ℓ} where
  unfoldable pub first_match : Error → Table A → Option A
  first_match e [] = none
  first_match e ((s, a) ∷ rest) = if is e s then some a else first_match e rest

  -- Every value of a table passes a test.
  abbrev pub all_entries : (A → Bool) → Table A → Bool
  all_entries p [] = true
  all_entries p ((s, a) ∷ rest) = p a && all_entries p rest

  pub first_match-all :
      (p : A → Bool) (e : Error) (t : Table A) (a : A)
      → all_entries p t ≡ true
      → first_match e t ≡ some a
      → p a ≡ true
  unfolding first_match
  first_match-all p e [] a h m = cc
  first_match-all p e ((s, b) ∷ rest) a h m = ground (arith, first_match-all p e rest a)

  -- The outcome depends on the tests only.
  pub first_match-cong :
      (e f : Error) (t : Table A)
      → ((s : Sentinel) → is e s ≡ is f s)
      → first_match e t ≡ first_match f t
  unfolding first_match
  first_match-cong e f [] h = refl
  first_match-cong e f ((s, a) ∷ rest) h = ground (arith, h s, first_match-cong e f rest h)

  pub first_match-none :
      (e : Error) (t : Table A) (s : Sentinel)
      → first_match e t ≡ none
      → has t s ≡ true
      → is e s ≡ false
  unfolding first_match
  first_match-none e [] s h m = cc
  first_match-none e ((s', a) ∷ rest) s h m =
      ground (arith, is-index e s' s, first_match-none e rest s)

-- What one table does not find, no table that it covers finds.
pub first_match-covers {ℓ κ} :
    {A : Type ℓ} {B : Type κ} (e : Error) (t : Table A) (u : Table B)
    → first_match e t ≡ none
    → covers t u ≡ true
    → first_match e u ≡ none
unfolding first_match
first_match-covers e t [] h c = refl
first_match-covers e t ((s, b) ∷ rest) h c =
    ground (arith, first_match-none e t s, first_match-covers e t rest)
