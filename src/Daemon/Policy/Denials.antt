-- ===== src/Daemon/Policy/Denials.antt =====
-- What a configuration with no `allow` element gives, crates/oxibus-daemon/src/policy.rs.
use oxibus.Base.{
  ◌≡◌, refl, ap, ◌∙◌, Bool, true, false, ◌&&◌, Option, none, some, List, [], ◌∷◌, Text, codes, beq,
  any, All, All-append, retain, if◌then◌else◌, if_ind, arith,
}
use oxibus.Core.Message.{Message}
use oxibus.Daemon.Policy.{
  Context, default, user, group, mandatory, PolicyRule, Identity, Policy, glob_match, matches,
  applicable, verdict, no_rule, can_own, can_send, can_receive,
}
use oxibus.Daemon.Policy.Verdict.{rules_in, applicable_lem}
use oxibus.Daemon.Policy.Xml.{Attributes, XmlToken, start_tag, end_tag, self_closing_tag}
use oxibus.Daemon.Policy.XmlRules.{
  Scope, own_patterns, send_patterns, receive_patterns, none_there, element_rules, is_element,
  scoped_rules, rules_of, policy_scope,
}

abbrev pub AllowsNothing : PolicyRule → Type 0
AllowsNothing rule = (rule.allow_own ≡ []) × (rule.allow_send ≡ []) × (rule.allow_receive ≡ [])

abbrev pub is_allow_token : XmlToken → Bool
unfolding beq
is_allow_token (start_tag name attrs) = beq name (codes "allow")
is_allow_token (end_tag name) = false
is_allow_token (self_closing_tag name attrs) = beq name (codes "allow")

module _ {ℓ} {A : Type ℓ} (P : A → Type 0) where
  All-retain : (t : A → Bool) (xs : List A) → All P xs → All P (retain t xs)
  All-retain t [] h = h
  All-retain t (x ∷ xs) (p, h) =
      let ih : All P (retain t xs) = All-retain t xs h in
      if_ind (All P) (t x) (x ∷ retain t xs) (retain t xs) (λ _. (p, ih)) (λ _. ih)

element_rules-AllowsNothing :
    (scope : Scope) (attrs : Attributes) → All AllowsNothing (element_rules false scope attrs)
unfolding element_rules
element_rules-AllowsNothing scope attrs =
    if_ind (All AllowsNothing)
      (none_there (own_patterns attrs)
        && none_there (send_patterns attrs)
        && none_there (receive_patterns attrs))
      _ _ (λ _. tt) (λ _. ((refl, refl, refl), tt))

scoped_rules-AllowsNothing :
    (scope : Option Scope) (name : Text) (attrs : Attributes)
    → beq name (codes "allow") ≡ false
    → All AllowsNothing (scoped_rules scope name attrs)
unfolding scoped_rules
scoped_rules-AllowsNothing none name attrs h = tt
scoped_rules-AllowsNothing (some scope) name attrs h =
    if_ind (All AllowsNothing) (is_element name)
      (element_rules (beq name (codes "allow")) scope attrs) []
      (λ _. rw h (element_rules-AllowsNothing scope attrs)) (λ _. tt)

rules_of-AllowsNothing :
    (scope : Option Scope) (tokens : List XmlToken)
    → any is_allow_token tokens ≡ false
    → All AllowsNothing (rules_of scope tokens)
unfolding rules_of
rules_of-AllowsNothing scope [] h = tt
rules_of-AllowsNothing scope (end_tag name ∷ tokens) h =
    rules_of-AllowsNothing (if beq name (codes "policy") then none else scope) tokens h
rules_of-AllowsNothing scope (start_tag name attrs ∷ tokens) h =
    let later : All AllowsNothing
        (rules_of (if beq name (codes "policy") then some (policy_scope attrs) else scope) tokens) =
      rules_of-AllowsNothing
        (if beq name (codes "policy") then some (policy_scope attrs) else scope) tokens
        (ground arith) in
    if_ind (All AllowsNothing) (beq name (codes "policy")) _ _ (λ _. later)
      (λ _.
        All-append AllowsNothing _ _ (scoped_rules-AllowsNothing scope name attrs (ground arith))
          later)
rules_of-AllowsNothing scope (self_closing_tag name attrs ∷ tokens) h =
    All-append AllowsNothing (scoped_rules scope name attrs) (rules_of scope tokens)
      (scoped_rules-AllowsNothing scope name attrs (ground arith))
      (rules_of-AllowsNothing scope tokens (ground arith))

applicable-AllowsNothing :
    (identity : Identity) (policy : Policy)
    → All AllowsNothing policy
    → All AllowsNothing (applicable identity policy)
applicable-AllowsNothing identity policy h = rw applicable_lem (
    All-append AllowsNothing _ _ (among default) (
      All-append AllowsNothing _ _ (among user)
        (All-append AllowsNothing _ _ (among group) (among mandatory))))
  where
    among : (c : Context) → All AllowsNothing (rules_in c identity policy)
    among c = All-retain AllowsNothing _ policy h

verdict-false :
    (allows denies : PolicyRule → Bool)
    → ((rule : PolicyRule) → AllowsNothing rule → allows rule ≡ false)
    → (rules : List PolicyRule) → All AllowsNothing rules
    → verdict allows denies rules false ≡ false
unfolding verdict
verdict-false allows denies q [] h = refl
verdict-false allows denies q (rule ∷ rules) (h, hs) =
    let still : (if denies rule then false else if allows rule then true else false) ≡ false =
      rw (q rule h) (ground arith) in
    ap (verdict allows denies rules) still ∙ verdict-false allows denies q rules hs

-- Where no element of a configuration is called `allow`, its policy lets nobody own, send or receive
-- anything, unless it has no rule at all, which allows everything.
pub denies_all :
    (tokens : List XmlToken) (identity : Identity) (name : Text) (msg : Message)
    (other : Option Text)
    → any is_allow_token tokens ≡ false
    → (can_own (rules_of none tokens) identity name ≡ no_rule (rules_of none tokens))
      × (can_send (rules_of none tokens) identity msg other ≡ no_rule (rules_of none tokens))
      × (can_receive (rules_of none tokens) identity msg other ≡ no_rule (rules_of none tokens))
unfolding can_own can_send can_receive
denies_all tokens identity name msg other h =
    let silent : All AllowsNothing (applicable identity (rules_of none tokens)) =
      applicable-AllowsNothing identity (rules_of none tokens)
        (rules_of-AllowsNothing none tokens h) in
    (
      denied (verdict-false _ _ (λ rule q. ap (any (λ p. glob_match p name)) q.0) _ silent),
      denied (verdict-false _ _ (λ rule q. ap (any (λ p. matches p msg other)) q.1) _ silent),
      denied (verdict-false _ _ (λ rule q. ap (any (λ p. matches p msg other)) q.2) _ silent),
    )
  where
    denied :
        {v : Bool}
        → v ≡ false
        → (if no_rule (rules_of none tokens) then true else v) ≡ no_rule (rules_of none tokens)
    denied e = ground arith
