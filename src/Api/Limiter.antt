-- ===== src/Api/Limiter.antt =====
-- How many attempts the limiter lets through.
use open_cuttles.Base.{
  ltb, All, length-append, subst, leb, Bool, keep, Bool-cases, ℕ, List, length, ◌+◌, ◌≡◌, ◌≤◌, ◌&&◌,
  ◌∙◌, inl, inr, [], ◌∷◌, ◌++◌, if◌then◌else◌, true, false, refl, sym, ap, arith,
}
use open_cuttles.Go.Text.{same_text_eq, Text, same_text}
use open_cuttles.Api.{Attempts, allow, is_recent, put_attempts}

-- A call of the limiter: its key and its time.
abbrev pub Visit : Type 0
Visit = Text × ℕ

-- The times of the calls with a key that are let through.
pub let_through : Text → List Visit → Attempts → List ℕ
let_through k [] a = []
let_through k ((key, now) ∷ rest) a =
    let (granted, a') = allow now key a in
    let later = let_through k rest a' in if granted && same_text k key then now ∷ later else later

abbrev pub no_attempts : Attempts
no_attempts k = []

length-keep : (p : ℕ → Bool) (ts : List ℕ) → length (keep p ts) ≤ length ts
length-keep p [] = omega arith
length-keep p (t ∷ ts) = ground (arith, length-keep p ts)

-- What is recent later was recent before.
keep_recent :
    (now later : ℕ)
    → now ≤ later
    → (ts : List ℕ) → keep (is_recent later) (keep (is_recent now) ts) ≡ keep (is_recent later) ts
unfolding is_recent
keep_recent now later h [] = refl
keep_recent now later h (t ∷ ts) = ground (arith, keep_recent now later h ts)

length-keep_append :
    (p : ℕ → Bool) (ts us : List ℕ)
    → length (keep p (ts ++ us)) ≡ length (keep p ts) + length (keep p us)
length-keep_append p [] us = omega arith
length-keep_append p (t ∷ ts) us = ground (arith, length-keep_append p ts us)

-- What the limiter remembers for a key is at most ten attempts.
abbrev IsBounded : Attempts → Type 0
IsBounded a = (k : Text) → length (a k) ≤ 10

put-IsBounded :
    (key : Text) (times : List ℕ) (a : Attempts)
    → length times ≤ 10
    → IsBounded a
    → IsBounded (put_attempts key times a)
unfolding put_attempts
put-IsBounded key times a h b k = elim (Bool-cases (same_text k key)) [
  | inl e ↦ rw e h
  | inr e ↦ rw e (b k)
]

allow-IsBounded :
    (now : ℕ) (key : Text) (a : Attempts) → IsBounded a → IsBounded (allow now key a).1
unfolding allow
allow-IsBounded now key a b =
    let kept = length-keep (is_recent now) (a key) in
    elim (Bool-cases (leb 10 (length (keep (is_recent now) (a key))))) [
      | inl e ↦ rw e (put-IsBounded key _ a (omega (arith, kept, b key)) b)
      | inr e ↦ rw e (
          put-IsBounded key _ a
            (subst (λ n. n ≤ 10) (sym (length-append (keep (is_recent now) (a key)) (now ∷ [])))
              (ground arith))
            b)
    ]

abbrev IsLimited : ℕ → Text → List Visit → Attempts → Type 0
IsLimited t k calls a =
    length (keep (is_recent t) (a k)) + length (keep (is_recent t) (let_through k calls a)) ≤ 10

-- The calls that a call adds to those let through.
abbrev added : ℕ → Bool → List ℕ
added now b = if b then now ∷ [] else []

put-recent :
    (t now : ℕ) (k key : Text) (a : Attempts) (granted : Bool) (times : List ℕ)
    → length (keep (is_recent t) times)
      ≡ length (keep (is_recent t) (a key)) + length (keep (is_recent t) (added now granted))
    → length (keep (is_recent t) (put_attempts key times a k))
      ≡ length (keep (is_recent t) (a k))
        + length (keep (is_recent t) (added now (granted && same_text k key)))
unfolding put_attempts
put-recent t now k key a granted times h = elim (Bool-cases (same_text k key)) [
  | inl e ↦
      let same : k ≡ key = same_text_eq k key e in
      elim (Bool-cases granted) [
        | inl g ↦
            rw (e, same, g)
              (subst
                (λ b.
                  length (keep (is_recent t) times)
                  ≡ length (keep (is_recent t) (a key)) + length (keep (is_recent t) (added now b)))
                g h)
        | inr g ↦
            rw (e, same, g)
              (subst
                (λ b.
                  length (keep (is_recent t) times)
                  ≡ length (keep (is_recent t) (a key)) + length (keep (is_recent t) (added now b)))
                g h)
      ]
  | inr e ↦ elim (Bool-cases granted) [
    | inl g ↦ rw (e, g) (omega arith)
    | inr g ↦ rw (e, g) (omega arith)
  ]
]

allow-recent :
    (t now : ℕ) (k key : Text) (a : Attempts)
    → now ≤ t
    → length (keep (is_recent t) ((allow now key a).1 k))
      ≡ length (keep (is_recent t) (a k))
        + length (keep (is_recent t) (added now ((allow now key a).0 && same_text k key)))
unfolding allow
allow-recent t now k key a h =
    let filtered = keep (is_recent now) (a key) in
    let kept = ap length (keep_recent now t h (a key)) in
    elim (Bool-cases (leb 10 (length filtered))) [
      | inl e ↦ rw e (put-recent t now k key a false filtered (omega (arith, kept)))
      | inr e ↦ rw e (
          put-recent t now k key a true (filtered ++ now ∷ []) (
            length-keep_append (is_recent t) filtered (now ∷ [])
            ∙ ap (λ n. n + length (keep (is_recent t) (now ∷ []))) kept))
    ]

pass_or_skip :
    (t now : ℕ) (b : Bool) (later : List ℕ)
    → length (keep (is_recent t) (if b then now ∷ later else later))
      ≡ length (keep (is_recent t) (added now b)) + length (keep (is_recent t) later)
pass_or_skip t now true later = length-keep_append (is_recent t) (now ∷ []) later
pass_or_skip t now false later = omega arith

limited :
    (t : ℕ) (k : Text) (calls : List Visit) (a : Attempts)
    → All (λ (v : Visit). v.1 ≤ t) calls
    → IsBounded a
    → IsLimited t k calls a
unfolding let_through
limited t k [] a h b = omega (arith, length-keep (is_recent t) (a k), b k)
limited t k ((key, now) ∷ rest) a (past, h) b =
    let (granted, a') = allow now key a in
    omega (
      arith,
      limited t k rest a' h (allow-IsBounded now key a b),
      allow-recent t now k key a past,
      pass_or_skip t now (granted && same_text k key) (let_through k rest a'),
    )

-- However many requests come, at most ten with the same key are let through in any five minutes:
-- of the calls made up to a time, no more than ten that were let through are less than five minutes
-- before it.
pub let_through-bounded :
    (t : ℕ) (k : Text) (calls : List Visit)
    → All (λ (v : Visit). v.1 ≤ t) calls
    → length (keep (λ at. ltb t (at + 300000)) (let_through k calls no_attempts)) ≤ 10
unfolding is_recent
let_through-bounded t k calls h =
    omega (arith, limited t k calls no_attempts h (λ key. omega arith))
