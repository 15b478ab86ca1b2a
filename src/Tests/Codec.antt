-- ===== src/Tests/Codec.antt =====
-- A codec for the examples: a payload is written as its six values, a text as its characters, each after
-- an `x`, up to a `y`.
use Prim.Native.Char.{Char}
use Prim.Native.String.{[], ◌∷◌}
use atlas_alpha.Prelude.{
  ℕ, zero, suc, ◌≡◌, refl, ap, ◌∙◌, String, Option, none, some, ◌==◌, strip, if◌then◌else◌, inl,
  inr, Bool-cases,
}
use atlas_alpha.Prelude.Result.{raise}
use atlas_alpha.Value.{Value, null, int, text, Fields, end, field, get}
use atlas_alpha.Policy.{Principal}
use atlas_alpha.Credentials.{OAuthProvider, provider_value}
use atlas_alpha.OAuth.State.{Codec, rsplit_dot, is_ascii, state_payload, org_value}
use atlas_alpha.OAuth.State.Genuine.{IsCodec, sorted_payload}

abbrev pub put_text : String → String → String
put_text [] rest = "y" ∷ rest
put_text (c ∷ s) rest = "x" ∷ c ∷ put_text s rest

abbrev pub put_nat : ℕ → String → String
put_nat zero rest = "y" ∷ rest
put_nat (suc n) rest = "x" ∷ put_nat n rest

abbrev pub add_char : Char → Option (String × String) → Option (String × String)
add_char c none = none
add_char c (some (s, rest)) = some (c ∷ s, rest)

abbrev pub take_text : String → Option (String × String)
take_text [] = none
take_text (a ∷ []) = if a ∷ "" == "y" then some ("", "") else none
take_text (a ∷ c ∷ s) =
    let later = take_text s in if a ∷ "" == "y" then some ("", c ∷ s) else add_char c later

abbrev pub add_one : Option (ℕ × String) → Option (ℕ × String)
add_one none = none
add_one (some (n, rest)) = some (suc n, rest)

abbrev pub take_nat : String → Option (ℕ × String)
take_nat [] = none
take_nat (a ∷ s) = let later = take_nat s in if a ∷ "" == "y" then some (0, s) else add_one later

take_text-put_text : (s rest : String) → take_text (put_text s rest) ≡ some (s, rest)
take_text-put_text [] [] = refl
take_text-put_text [] (c ∷ rest) = refl
take_text-put_text (c ∷ s) rest = ap (add_char c) (take_text-put_text s rest)

take_nat-put_nat : (n : ℕ) (rest : String) → take_nat (put_nat n rest) ≡ some (n, rest)
take_nat-put_nat zero rest = refl
take_nat-put_nat (suc n) rest = ap add_one (take_nat-put_nat n rest)

-- The value of a key, written.
abbrev pub put_value : Option Value → String → String
put_value (some (text s)) rest = "t" ∷ put_text s rest
put_value (some (int n)) rest = "i" ∷ put_nat n rest
put_value _ rest = "n" ∷ rest

abbrev pub as_text : Option (String × String) → Option (Value × String)
as_text none = none
as_text (some (s, rest)) = some (text s, rest)

abbrev pub as_int : Option (ℕ × String) → Option (Value × String)
as_int none = none
as_int (some (n, rest)) = some (int n, rest)

abbrev pub take_value : String → Option (Value × String)
take_value [] = none
take_value (a ∷ s) =
    if a ∷ "" == "t"
    then as_text (take_text s)
    else if a ∷ "" == "i"
    then as_int (take_nat s)
    else some (null, s)

take-put_text :
    (s rest : String) → take_value (put_value (some (text s)) rest) ≡ some (text s, rest)
take-put_text s rest = ap as_text (take_text-put_text s rest)

take-put_nat :
    (n : ℕ) (rest : String) → take_value (put_value (some (int n)) rest) ≡ some (int n, rest)
take-put_nat n rest = ap as_int (take_nat-put_nat n rest)

take-put_org :
    (o : Option String) (rest : String)
    → take_value (put_value (some (org_value o)) rest) ≡ some (org_value o, rest)
take-put_org none rest = refl
take-put_org (some s) rest = take-put_text s rest

abbrev pub written : Fields → String
unfolding get
written p = put_value (get "binding_email" p) (
    put_value (get "exp" p) (
      put_value (get "nonce" p) (
        put_value (get "org_id" p)
          (put_value (get "provider" p) (put_value (get "user_id" p) "")))))

abbrev pub then_value {ℓ} :
    {A : Type ℓ} → Option (Value × String) → (Value → String → Option A) → Option A
then_value none next = none
then_value (some (v, rest)) next = next v rest

abbrev pub readback : String → Option Fields
readback s = then_value (take_value s) λ email s1. then_value (take_value s1) λ exp s2.
    then_value (take_value s2) λ nonce s3. then_value (take_value s3) λ org s4.
      then_value (take_value s4) λ provider s5. then_value (take_value s5) λ user s6. some (
        field "binding_email" email (
          field "exp" exp (
            field "nonce" nonce
              (field "org_id" org (field "provider" provider (field "user_id" user end))))))

abbrev pub codec : Codec
codec = record {
  encode = written;
  decode = readback;
  hmac = λ key s. if key == s then "00ff" else "11ee";
  parse_int = λ s. raise "ValueError" "not a number";
  lower = λ s. s;
}

-- A value that was written is read, and what follows it is left.
chain {ℓ} :
    {A : Type ℓ} (o : Option (Value × String)) (v : Value) (rest : String)
    (next : Value → String → Option A) (a : A)
    → o ≡ some (v, rest)
    → next v rest ≡ some a
    → then_value o next ≡ some a
chain o v rest next a e h = ap (λ x. then_value x next) e ∙ h

abbrev rest5 : Principal → String
rest5 principal = put_value (some (text principal.user_id)) ""

abbrev rest4 : Principal → OAuthProvider → String
rest4 principal provider = put_value (some (text (provider_value provider))) (rest5 principal)

abbrev rest3 : Principal → OAuthProvider → String
rest3 principal provider = put_value (some (org_value principal.org_id)) (rest4 principal provider)

abbrev rest2 : Principal → OAuthProvider → String → String
rest2 principal provider nonce = put_value (some (text nonce)) (rest3 principal provider)

abbrev rest1 : Principal → OAuthProvider → String → ℕ → String
rest1 principal provider nonce exp = put_value (some (int exp)) (rest2 principal provider nonce)

read_written :
    (principal : Principal) (provider : OAuthProvider) (email nonce : String) (exp : ℕ)
    → readback (written (state_payload codec principal provider email nonce exp))
      ≡ some (sorted_payload codec principal provider email nonce exp)
unfolding get
read_written principal provider email nonce exp =
    chain _ _ _ _ _ (take-put_text (strip email) (rest1 principal provider nonce exp)) (
      chain _ _ _ _ _ (take-put_nat exp (rest2 principal provider nonce)) (
        chain _ _ _ _ _ (take-put_text nonce (rest3 principal provider)) (
          chain _ _ _ _ _ (take-put_org principal.org_id (rest4 principal provider)) (
            chain _ _ _ _ _ (take-put_text (provider_value provider) (rest5 principal))
              (chain _ _ _ _ _ (take-put_text principal.user_id "") refl)))))

pub codec-IsCodec : IsCodec codec
unfolding rsplit_dot is_ascii get
codec-IsCodec = record {
  decode-encode =
      λ principal provider email nonce exp. read_written principal provider email nonce exp;
  hmac_dot = λ key s. elim (Bool-cases (key == s)) [ inl e ↦ rw e refl | inr e ↦ rw e refl ];
  hmac_nonempty = λ key s. elim (Bool-cases (key == s)) [ inl e ↦ rw e refl | inr e ↦ rw e refl ];
  hmac_ascii = λ key s. elim (Bool-cases (key == s)) [ inl e ↦ rw e refl | inr e ↦ rw e refl ];
}
