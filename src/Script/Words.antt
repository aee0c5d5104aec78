-- ===== src/Script/Words.antt =====
-- backend/internal/scenario/runner.go: containsLoosely, and what it comes to.
use open_cuttles.Go.Text.{same_text_eq, is_empty, same_text, fields, Text}
use open_cuttles.Base.{
  ◌⊎◌, ◌++◌, Bool-cases, All, leb, length, Bool, ltb, List, ◌↔◌, ℕ, ◌+◌, ◌≡◌, ◌≤◌, ◌<◌, ◌&&◌, ◌||◌,
  inl, inr, [], ◌∷◌, if◌then◌else◌, ◌==◌, suc, true, false, refl, ap, arith,
}
use open_cuttles.Go.Strings.{is_prefix, codes, contains, to_lower}

abbrev pub is_trimmed : ℕ → Bool
is_trimmed c = c == b'.' || c == b',' || c == b'!' || c == b'?' || c == 34 || c == 39

-- strings.Trim of a word
unfoldable pub drop_marks : Text → Text
drop_marks [] = []
drop_marks (c ∷ t) = elim (is_trimmed c) [ true ↦ drop_marks t | false ↦ c ∷ t ]

unfoldable pub drop_last_marks : Text → Text
drop_last_marks [] = []
drop_last_marks (c ∷ t) =
    let rest = drop_last_marks t in if is_trimmed c && is_empty rest then [] else c ∷ rest

-- The number of bytes in UTF-8.
unfoldable pub byte_length : Text → ℕ
byte_length [] = 0
byte_length (c ∷ t) =
    let rest = byte_length t in
    (if ltb c 128 then 1 else if ltb c 2048 then 2 else if ltb c 65536 then 3 else 4) + rest

unfoldable pub is_stop_word : Text → Bool
unfolding codes same_text byte_length
is_stop_word t = leb (byte_length t) 2 || same_text t (codes "the") || same_text t (codes "and")

unfoldable pub is_matched : Text → Text → Bool
unfolding is_stop_word drop_marks drop_last_marks contains
is_matched hay w =
    let t = drop_marks (drop_last_marks w) in if is_stop_word t then true else contains hay t

unfoldable pub count_matched : Text → List Text → ℕ
unfolding is_matched
count_matched hay [] = 0
count_matched hay (w ∷ rest) =
    let others = count_matched hay rest in if is_matched hay w then suc others else others

unfoldable pub contains_loosely : Text → Text → Bool
unfolding to_lower fields count_matched
contains_loosely haystack expected =
    let words = fields (to_lower expected) in
    ltb 0 (length words) && count_matched (to_lower haystack) words == length words

count-le : (hay : Text) (words : List Text) → count_matched hay words ≤ length words
unfolding count_matched
count-le hay [] = omega arith
count-le hay (w ∷ rest) = ground (arith, count-le hay rest)

count_iff :
    (hay : Text) (words : List Text)
    → (count_matched hay words ≡ length words) ↔ All (λ w. is_matched hay w ≡ true) words
unfolding count_matched
count_iff hay [] = (λ _. tt, λ _. refl)
count_iff hay (w ∷ rest) = elim (Bool-cases (is_matched hay w)) [
  | inl e ↦ rw e (
    λ h. (refl, (count_iff hay rest).0 (omega (arith, h))),
    λ h. ap suc ((count_iff hay rest).1 h.1),
  )
  | inr e ↦ rw e (λ h. absurd (omega (arith, h, count-le hay rest)), λ h. cc h.0)
]

is_prefix_iff : (p s : Text) → (is_prefix p s ≡ true) ↔ ((post : Text) × (s ≡ p ++ post))
unfolding is_prefix
is_prefix_iff [] s = (λ _. (s, refl), λ _. refl)
is_prefix_iff (c ∷ p) [] = (λ h. cc h, λ (post, h). cc h)
is_prefix_iff (c ∷ p) (d ∷ s) = (
  λ h.
      let (post, e) = (is_prefix_iff p s).0 (ground arith) in
      let same : c ≡ d = ground arith in (post, rw (same, e) refl),
  λ (post, h).
      let head : d ≡ c = cc h in
      let tail : s ≡ p ++ post = cc h in ground (arith, (is_prefix_iff p s).1 (post, tail), head),
)

-- A text that occurs in another, behind and in front of any texts.
abbrev pub Occurs : Text → Text → Type 0
Occurs t hay = (pre : Text) × (post : Text) × (hay ≡ pre ++ (t ++ post))

contains_iff : (hay t : Text) → (contains hay t ≡ true) ↔ Occurs t hay
unfolding contains
contains_iff [] t = (
  λ h. let (post, e) = (is_prefix_iff t []).0 h in ([], post, e),
  λ (pre, post, h).
      elim pre as (λ q. [] ≡ q ++ (t ++ post) → is_prefix t [] ≡ true) [
        | [] ↦ λ k. (is_prefix_iff t []).1 (post, k)
        | c ∷ q ↦ λ k. cc k
      ]
        h,
)
contains_iff (c ∷ s) t = (
  λ h. elim (Bool-cases (is_prefix t (c ∷ s))) [
    | inl e ↦ let (post, k) = (is_prefix_iff t (c ∷ s)).0 e in ([], post, k)
    | inr e ↦
        let (pre, post, k) = (contains_iff s t).0 (ground arith) in (c ∷ pre, post, ap (◌∷◌ c) k)
  ],
  λ (pre, post, h).
      elim pre as (λ q. c ∷ s ≡ q ++ (t ++ post) → (is_prefix t (c ∷ s) || contains s t) ≡ true) [
        | [] ↦ λ k. ground (arith, (is_prefix_iff t (c ∷ s)).1 (post, k))
        | d ∷ q ↦ λ k.
            let tail : s ≡ q ++ (t ++ post) = cc k in
            ground (arith, (contains_iff s t).1 (q, post, tail))
      ]
        h,
)

-- A word, without the marks around it, that is found: one of at most two bytes, `the` or `and`, or
-- one that occurs in the description.
abbrev pub IsFound : Text → Text → Type 0
IsFound hay w =
    let t = drop_marks (drop_last_marks w) in
    (byte_length t ≤ 2) ⊎ (t ≡ codes "the") ⊎ (t ≡ codes "and") ⊎ Occurs t hay

stop_word_iff :
    (t : Text)
    → (is_stop_word t ≡ true) ↔ ((byte_length t ≤ 2) ⊎ (t ≡ codes "the") ⊎ (t ≡ codes "and"))
unfolding is_stop_word codes same_text byte_length
stop_word_iff t = (
  λ h. elim (Bool-cases (leb (byte_length t) 2)) [
    | inl e ↦ inl (ground arith)
    | inr e ↦ elim (Bool-cases (same_text t (codes "the"))) [
      | inl f ↦ inr (inl (same_text_eq t (codes "the") f))
      | inr f ↦ inr (inr (same_text_eq t (codes "and") (rw (e, f) at h)))
    ]
  ],
  λ h. elim h [ inl e ↦ ground arith | inr (inl e) ↦ rw e refl | inr (inr e) ↦ rw e refl ],
)

is_matched_iff : (hay w : Text) → (is_matched hay w ≡ true) ↔ IsFound hay w
unfolding is_matched
is_matched_iff hay w =
    let t = drop_marks (drop_last_marks w) in
    let (stop, stops) = stop_word_iff t in
    let (here, there) = contains_iff hay t in
    elim (Bool-cases (is_stop_word t)) [
      | inl e ↦ rw e (
        λ _. elim (stop e) [
          | inl a ↦ inl a
          | inr (inl a) ↦ inr (inl a)
          | inr (inr a) ↦ inr (inr (inl a))
        ],
        λ _. refl,
      )
      | inr e ↦ rw e (
        λ h. inr (inr (inr (here h))),
        λ h. elim h [
          | inl a ↦ cc (e, stops (inl a))
          | inr (inl a) ↦ cc (e, stops (inr (inl a)))
          | inr (inr (inl a)) ↦ cc (e, stops (inr (inr a)))
          | inr (inr (inr a)) ↦ there a
        ],
      )
    ]

all-IsFound :
    (hay : Text) (words : List Text)
    → All (λ w. is_matched hay w ≡ true) words ↔ All (IsFound hay) words
all-IsFound hay [] = (λ h. h, λ h. h)
all-IsFound hay (w ∷ rest) = (
  λ (h, k). ((is_matched_iff hay w).0 h, (all-IsFound hay rest).0 k),
  λ (h, k). ((is_matched_iff hay w).1 h, (all-IsFound hay rest).1 k),
)

matched_iff :
    (haystack expected : Text)
    → (contains_loosely haystack expected ≡ true) ↔ (
        (0 < length (fields (to_lower expected)))
        × All (λ w. is_matched (to_lower haystack) w ≡ true) (fields (to_lower expected)))
unfolding contains_loosely
matched_iff haystack expected =
    ground (arith, count_iff (to_lower haystack) (fields (to_lower expected)))

-- The texts match exactly if there is a word to look for, and every word, in lower case and
-- without the marks around it, has at most two bytes, is `the` or `and`, or occurs in the
-- description in lower case.
pub contains_loosely_iff :
    (haystack expected : Text)
    → (contains_loosely haystack expected ≡ true) ↔ (
        (0 < length (fields (to_lower expected)))
        × All (IsFound (to_lower haystack)) (fields (to_lower expected)))
contains_loosely_iff haystack expected =
    let (there, back) = matched_iff haystack expected in
    let (found, matched) = all-IsFound (to_lower haystack) (fields (to_lower expected)) in
    (λ h. let (some_word, k) = there h in (some_word, found k), λ (n, k). back (n, matched k))
