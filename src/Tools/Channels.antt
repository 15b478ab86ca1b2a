-- ===== src/Tools/Channels.antt =====
-- The channel that a Slack permission names is the one that is posted to.
use Prim.Native.Char.{Char}
use Prim.Native.String.{◌∷◌}
use atlas_alpha.Prelude.{
  ◌≡◌, ◌≢◌, refl, sym, ap, ◌∙◌, subst, false, not, ◌&&◌, ◌||◌, String, ◌==◌, eq_iff, arith, append,
  append-char, inl, inr, ◌⊎◌, Bool-cases, strip, starts_with,
}
use atlas_alpha.Prelude.Result.{ok, ok-injective}
use atlas_alpha.Tools.{
  Texts, rest_of, first_of, slack_channel_resource_segment, reject_non_channel_targets,
}

-- The text names the channel: with or without the leading `#`.
abbrev Names : String → String → Type 0
Names channel name =
    (channel ≡ append "#" name) ⊎ ((channel ≡ name) × (starts_with channel "#" ≡ false))

abbrev hash : Char
hash = "#"

module _ (texts : Texts) where
  -- What is proved of a channel, whichever branch it takes.
  pub record IsChannel (channel : String) : Type 0 where
    pub name : String
    pub names : Names channel name
    pub scoped : slack_channel_resource_segment texts channel ≡ append "channel:" name
    pub no_mention : starts_with channel "@" ≡ false
    pub no_person :
        rest_of channel ≢ ""
        → (texts.upper (first_of channel) ≢ "U") × (texts.upper (first_of channel) ≢ "D")

  named-IsChannel :
      (rest : String)
      → ((s : String) → texts.lower (texts.lower s) ≡ texts.lower s)
      → texts.upper "#" ≡ "#"
      → IsChannel (hash ∷ texts.lower rest)
  unfolding slack_channel_resource_segment starts_with
  named-IsChannel rest idem upper = record {
    name = texts.lower rest;
    names = inl (sym (append-char "#" hash (texts.lower rest) refl));
    scoped = ap (append "channel:") (idem rest);
    no_mention = refl;
    no_person = λ n. (rw upper (λ bad. cc), rw upper (λ bad. cc));
  }

  bare-IsChannel :
      (channel : String)
      → starts_with channel "#" ≡ false
      → starts_with channel "@" ≡ false
      → ((texts.upper (first_of channel) == "U" || texts.upper (first_of channel) == "D")
          && not (rest_of channel == ""))
        ≡ false
      → IsChannel channel
  unfolding slack_channel_resource_segment
  bare-IsChannel channel bare mention person = record {
    name = channel;
    names = inr (refl, bare);
    scoped = rw bare refl;
    no_mention = mention;
    no_person = λ n. (
      λ bad.
          ground (arith, eq_iff (rest_of channel) "", eq_iff (texts.upper (first_of channel)) "U"),
      λ bad.
          ground (arith, eq_iff (rest_of channel) "", eq_iff (texts.upper (first_of channel)) "D"),
    );
  }

  -- A channel that passes the check is neither a mention nor a user or a direct message, and the segment
  -- that scopes the permission to post names exactly the channel that the message goes to, where
  -- lower-casing twice is lower-casing and a `#` has no upper case.
  pub reject_non_channel_targets-IsChannel :
      (value channel : String)
      → ((s : String) → texts.lower (texts.lower s) ≡ texts.lower s)
      → texts.upper "#" ≡ "#"
      → reject_non_channel_targets texts value ≡ ok channel
      → IsChannel channel
  unfolding reject_non_channel_targets
  reject_non_channel_targets-IsChannel value channel idem upper h =
      let s = strip value in
      elim (Bool-cases (starts_with s "@")) [
        | inl e ↦ let bad = rw e at h in cc
        | inr e ↦
            elim (Bool-cases (
              (texts.upper (first_of s) == "U" || texts.upper (first_of s) == "D")
              && not (rest_of s == ""))) [
                | inl f ↦ let bad = rw (e, f) at h in cc
                | inr f ↦ elim (Bool-cases (starts_with s "#")) [
                  | inl g ↦
                      let same = ok-injective _ channel (rw (e, f, g) at h) in
                      subst IsChannel
                        (sym (append-char "#" hash (texts.lower (rest_of s)) refl) ∙ same)
                        (named-IsChannel (rest_of s) idem upper)
                  | inr g ↦
                      subst IsChannel (ok-injective s channel (rw (e, f, g) at h))
                        (bare-IsChannel s g e f)
                ]
              ]
      ]
