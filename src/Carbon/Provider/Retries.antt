-- ===== src/Carbon/Provider/Retries.antt =====
-- How often the provider is asked.
use evaggregator.Carbon.Provider.{
  Fetched, attempts_exhausted, attempts_from, fetch_intensity, one_more, power,
}
use evaggregator.Base.{
  List, Option, Option-cases, [], ap, arith, err, inl, inr, none, ok, refl, some, suc, zero, ℕ, ◌*◌,
  ◌∙◌, ◌∷◌, ◌≡◌, ◌≤◌,
}

abbrev one_later : Option (ℕ × ℕ) → Option (ℕ × ℕ)
one_later none = none
one_later (some (k, v)) = some (suc k, v)

-- The first of the next `n` attempts from `i` on that is answered, as the distance from `i`.
abbrev pub first_success : (ℕ → Option ℕ) → ℕ → ℕ → Option (ℕ × ℕ)
first_success answer i zero = none
first_success answer i (suc n) =
    let rest = first_success answer (suc i) n in
    elim (answer i) [ some v ↦ some (0, v) | none ↦ one_later rest ]

-- The pauses after `n` failed attempts from `i` on, each twice the one before.
abbrev pub pauses : ℕ → ℕ → ℕ → List ℕ
pauses base i zero = []
pauses base i (suc n) = base * power 2 i ∷ pauses base (suc i) n

abbrev pub all_but_one : ℕ → ℕ
all_but_one zero = zero
all_but_one (suc n) = n

abbrev pub as_fetched : ℕ → ℕ → ℕ → Option (ℕ × ℕ) → Fetched
as_fetched base i n none = record {
  outcome = err attempts_exhausted;
  requests = n;
  sleeps = pauses base i (all_but_one n);
}
as_fetched base i n (some (k, v)) = record {
  outcome = ok v;
  requests = suc k;
  sleeps = pauses base i k;
}

later :
    (base i n : ℕ) (o : Option (ℕ × ℕ))
    → one_more (base * power 2 i ∷ []) (as_fetched base (suc i) (suc n) o)
      ≡ as_fetched base i (suc (suc n)) (one_later o)
later base i n none = refl
later base i n (some (k, v)) = refl

attempts_from-first :
    (answer : ℕ → Option ℕ) (base i n : ℕ)
    → attempts_from answer base i n ≡ as_fetched base i n (first_success answer i n)
unfolding attempts_from
attempts_from-first answer base i zero = refl
attempts_from-first answer base i (suc zero) = elim (Option-cases (answer i)) [
  | inl e ↦ rw (e, attempts_from, first_success) refl
  | inr (v, e) ↦ rw (e, attempts_from, first_success) refl
]
attempts_from-first answer base i (suc (suc n)) = elim (Option-cases (answer i)) [
  | inl e ↦
      rw (e, attempts_from, first_success)
        (ap (one_more (base * power 2 i ∷ [])) (attempts_from-first answer base (suc i) (suc n))
          ∙ later base i n (first_success answer (suc i) (suc n)))
  | inr (v, e) ↦ rw (e, attempts_from, first_success) refl
]

requests-le : (answer : ℕ → Option ℕ) (base i n : ℕ) → (attempts_from answer base i n).requests ≤ n
unfolding attempts_from
requests-le answer base i zero = omega arith
requests-le answer base i (suc n) = elim (Option-cases (answer i)) [
  | inl e ↦ ground (arith, e, requests-le answer base (suc i) n)
  | inr (v, e) ↦ ground (arith, e)
]

-- The loop ends after at most the given number of requests. It returns the answer to the first
-- successful attempt, having made no request after it, and gives up if they all fail; it slept once
-- after every failed attempt but the last, each time twice as long as before.
pub fetch-first_success :
    (answer : ℕ → Option ℕ) (base n : ℕ)
    → (fetch_intensity answer base n ≡ as_fetched base 0 n (first_success answer 0 n))
      × ((fetch_intensity answer base n).requests ≤ n)
unfolding fetch_intensity
fetch-first_success answer base n =
    (attempts_from-first answer base 0 n, requests-le answer base 0 n)
