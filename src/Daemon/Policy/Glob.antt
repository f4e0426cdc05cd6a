-- ===== src/Daemon/Policy/Glob.antt =====
-- What `glob_match` of crates/oxibus-daemon/src/policy.rs accepts.
use mathlib.Core.Path.{subst}
use oxibus.Base.{
  ◌≡◌, refl, ap, ◌↔◌, ◌⊎◌, inl, inr, true, Option, none, some, [], ◌∷◌, ◌++◌, Text, codes, beq,
  beq_iff, beq_refl, starts_with, starts_with-append, arith, Bool-cases,
}
use oxibus.Daemon.Policy.{strip_star, glob_match}

-- The text is the pattern, or starts with what stands before the pattern's last star.
abbrev pub Globs : Text → Text → Type 0
Globs p text =
    (p ≡ text)
    ⊎ ((front : Text) × (rest : Text) × (p ≡ front ++ (b'*' ∷ [])) × (text ≡ front ++ rest))

starts_with_split : (s p : Text) → starts_with s p ≡ true → (rest : Text) × (s ≡ p ++ rest)
unfolding starts_with
starts_with_split s [] h = (s, refl)
starts_with_split [] (b ∷ p) h = cc
starts_with_split (a ∷ s) (b ∷ p) h =
    let (rest, e) = starts_with_split s p (ground arith) in (rest, ground arith)

strip_star-append : (front : Text) → strip_star (front ++ (b'*' ∷ [])) ≡ some front
unfolding strip_star
strip_star-append [] = refl
strip_star-append (b ∷ []) = refl
strip_star-append (b ∷ c ∷ s) = rw (strip_star-append (c ∷ s)) refl

strip_star-some : (p front : Text) → strip_star p ≡ some front → p ≡ front ++ (b'*' ∷ [])
unfolding strip_star
strip_star-some [] front h = cc
strip_star-some (b ∷ []) front h = ground arith
strip_star-some (b ∷ c ∷ s) front h = by_rest (strip_star (c ∷ s)) refl h (strip_star-some (c ∷ s))
  where
    by_rest :
        (o : Option Text)
        → strip_star (c ∷ s) ≡ o
        → elim o [ none ↦ none | some q ↦ some (b ∷ q) ] ≡ some front
        → ((q : Text) → strip_star (c ∷ s) ≡ some q → c ∷ s ≡ q ++ (b'*' ∷ []))
        → b ∷ c ∷ s ≡ front ++ (b'*' ∷ [])
    by_rest none e h' ih = cc
    by_rest (some q) e h' ih =
        let same : b ∷ q ≡ front = cc in
        subst (λ f. b ∷ c ∷ s ≡ f ++ (b'*' ∷ [])) same (ap (◌∷◌ b) (ih q e))

glob_some :
    (p text front : Text)
    → strip_star p ≡ some front
    → starts_with text front ≡ true
    → glob_match p text ≡ true
unfolding glob_match
glob_some p text front h h' = elim (Bool-cases (beq p (codes "*"))) [
  | inl star ↦ rw star
  | inr other ↦ rw (other, h) h'
]

glob_none : (p text : Text) → strip_star p ≡ none → beq p text ≡ true → glob_match p text ≡ true
unfolding glob_match
glob_none p text h h' = elim (Bool-cases (beq p (codes "*"))) [
  | inl star ↦ rw star
  | inr other ↦ rw (other, h) h'
]

glob_self : (p : Text) → glob_match p p ≡ true
glob_self p = by_star (strip_star p) refl
  where
    by_star : (o : Option Text) → strip_star p ≡ o → glob_match p p ≡ true
    by_star none h = glob_none p p h (beq_refl p)
    by_star (some front) h =
        glob_some p p front h
          (rw (strip_star-some p front h) (starts_with-append front (b'*' ∷ [])))

Globs-of_glob : (p text : Text) → glob_match p text ≡ true → Globs p text
unfolding glob_match
Globs-of_glob p text h = elim (Bool-cases (beq p (codes "*"))) [
  | inl star ↦ inr ([], text, (beq_iff p (codes "*")).0 star, refl)
  | inr other ↦ by_star (strip_star p) refl (rw other at h)
]
  where
    by_star :
        (o : Option Text)
        → strip_star p ≡ o
        → elim o [ none ↦ beq p text | some q ↦ starts_with text q ] ≡ true
        → Globs p text
    by_star none e h' = inl ((beq_iff p text).0 h')
    by_star (some front) e h' =
        let (rest, shape) = starts_with_split text front h' in
        inr (front, rest, strip_star-some p front e, shape)

-- A name pattern accepts a text exactly if it is the text, or ends in a star and the text starts with
-- what stands before that star. Stars elsewhere stand for themselves.
pub glob_match_iff : (p text : Text) → (glob_match p text ≡ true) ↔ Globs p text
glob_match_iff p text = (Globs-of_glob p text, back)
  where
    back : Globs p text → glob_match p text ≡ true
    back (inl e) = subst (λ t. glob_match p t ≡ true) e (glob_self p)
    back (inr (front, rest, e, e')) =
        glob_some p text front (rw e (strip_star-append front))
          (rw e' (starts_with-append front rest))
