-- ===== src/Tools/Recipients.antt =====
-- The domain that scopes an e-mail's permission is the recipient's.
use Prim.Native.Char.{Char}
use Prim.Native.String.{[], ◌∷◌}
use text.Mathlib.TextLemmas.{nil-append, cons-append}
use atlas_alpha.Prelude.{
  ◌≡◌, ◌≢◌, refl, sym, ap, ◌∙◌, Bool, true, false, not, ◌&&◌, String, none, some, ◌==◌, eq_iff,
  arith, append, append-char, inl, inr, Bool-cases, and_iff, if◌then◌else◌,
}
use atlas_alpha.Tools.{
  Texts, is_plain, plain, plain_word, has_domain, is_recipient, after_at, rpartition_at,
  recipient_domain, validated_recipient,
}
use atlas_alpha.Prelude.Result.{ok, ok-injective}

-- A domain has no `@` and no white space, and is not empty.
unfoldable pub IsDomain : String → Type 0
unfolding plain
IsDomain domain = (domain ≢ "") × (plain domain ≡ true)

rpartition_at-plain : (s : String) → plain s ≡ true → rpartition_at s ≡ none
unfolding plain rpartition_at
rpartition_at-plain [] h = refl
rpartition_at-plain (c ∷ s) h =
    let (p, later) = (and_iff (is_plain c) (plain s)).0 h in
    ap (after_at c s) (rpartition_at-plain s later) ∙ ground arith

plain-IsDomain : (s : String) → not (s == "") ≡ true → plain s ≡ true → IsDomain s
unfolding IsDomain
plain-IsDomain s h p = (ground (arith, eq_iff s ""), p)

-- A text that has a domain is a local part, an `@` and the domain.
record Parts (s : String) : Type 0 where
  local : String
  domain : String
  whole : s ≡ append local (append "@" domain)
  plain_local : plain local ≡ true
  is_domain : IsDomain domain
  last : rpartition_at s ≡ some domain

has_domain-Parts : (s : String) → has_domain s ≡ true → Parts s
unfolding has_domain rpartition_at plain
has_domain-Parts [] h = cc
has_domain-Parts (c ∷ s) h =
    let split = λ (b : Bool) (e : (c ∷ "" == "@") ≡ b).
      let same : (if c ∷ "" == "@" then plain_word s else is_plain c && has_domain s)
          ≡ (if b then plain_word s else is_plain c && has_domain s) =
        ap (λ t. if t then plain_word s else is_plain c && has_domain s) e in
      sym same ∙ h in
    elim (Bool-cases (c ∷ "" == "@")) [
      | inl e ↦
          let (nonempty, ok_chars) = (and_iff (not (s == "")) (plain s)).0 (split true e) in
          record {
            local = "";
            domain = s;
            whole =
                sym (nil-append (append "@" s) ∙ append-char "@" c s ((eq_iff (c ∷ "") "@").0 e));
            plain_local = refl;
            is_domain = plain-IsDomain s nonempty ok_chars;
            last = ap (after_at c s) (rpartition_at-plain s ok_chars) ∙ rw e refl;
          }
      | inr e ↦
          let (p, more) = (and_iff (is_plain c) (has_domain s)).0 (split false e) in
          let parts = has_domain-Parts s more in
          record {
            local = c ∷ parts.local;
            domain = parts.domain;
            whole =
                ap (λ t. c ∷ t) parts.whole
                ∙ sym (cons-append c parts.local (append "@" parts.domain));
            plain_local = (and_iff (is_plain c) (plain parts.local)).1 (p, parts.plain_local);
            is_domain = parts.is_domain;
            last = ap (after_at c s) parts.last;
          }
    ]

is_recipient-Parts :
    (value : String)
    → is_recipient value ≡ true
    → (c : Char) × (s : String) × (value ≡ c ∷ s) × (is_plain c ≡ true) × Parts s
unfolding is_recipient
is_recipient-Parts [] h = cc
is_recipient-Parts (c ∷ s) h =
    let (p, d) = (and_iff (is_plain c) (has_domain s)).0 h in (c, s, refl, p, has_domain-Parts s d)

recipient_domain-last :
    (texts : Texts) (recipient domain : String)
    → rpartition_at recipient ≡ some domain
    → (texts.lower domain == "") ≡ false
    → recipient_domain texts recipient ≡ texts.lower domain
unfolding recipient_domain
recipient_domain-last texts recipient domain h n = rw (h, n) refl

-- An address that passes the check is a local part without white space or `@`, an `@` and a domain, and
-- the segment that scopes the permission to write to it is the domain in lower case, never the empty
-- text that a grant on every domain covers, where lower-casing leaves no text empty.
pub validated_recipient-IsDomain :
    (texts : Texts) (value recipient : String)
    → ((s : String) → s ≢ "" → texts.lower s ≢ "")
    → validated_recipient value ≡ ok recipient
    → (local : String) × (domain : String) × (value ≡ append local (append "@" domain))
      × (recipient ≡ value)
      × (local ≢ "")
      × (plain local ≡ true)
      × IsDomain domain
      × (recipient_domain texts recipient ≡ texts.lower domain)
      × (texts.lower domain ≢ "")
unfolding validated_recipient is_recipient IsDomain rpartition_at plain
validated_recipient-IsDomain texts value recipient keeps h =
    elim (Bool-cases (is_recipient value)) [
      | inr e ↦ let bad = rw e at h in cc
      | inl e ↦
          let same = ok-injective value recipient (rw e at h) in
          let (c, s, shape, p, parts) = is_recipient-Parts value e in
          let nonempty = keeps parts.domain parts.is_domain.0 in
          (
            c ∷ parts.local,
            parts.domain,
            shape
                ∙ ap (λ t. c ∷ t) parts.whole
                ∙ sym (cons-append c parts.local (append "@" parts.domain)),
            sym same,
            λ bad. cc,
            (and_iff (is_plain c) (plain parts.local)).1 (p, parts.plain_local),
            parts.is_domain,
            recipient_domain-last texts recipient parts.domain
                (ap rpartition_at (sym same ∙ shape) ∙ ap (after_at c s) parts.last)
                (ground (arith, eq_iff (texts.lower parts.domain) "", nonempty)),
            nonempty,
          )
    ]
