-- ===== src/Auth/Service/Spelled.antt =====
-- Tokens that spell their claims out, for tests of what relies on `jsonwebtoken`: each number is
-- one character, and each text ends with a mark.
use marketplace_api.Auth.Service.Login.{IsSigner}
use marketplace_api.Prelude.{
  Option, Text, [], arith, false, if◌then◌else◌, ltb, nat, none, refl, some, text, ℕ, ◌&&◌, ◌+◌,
  ◌-◌, ◌/◌, ◌==◌, ◌∷◌, ◌≡◌, ◌<◌, ap, ◌∙◌,
}
use marketplace_api.Auth.Bearer.{has_space}
use marketplace_api.Auth.Tokens.{ToSign, Claims, Jwt, KeyStore}

abbrev mark : ℕ
mark = 200

abbrev shifted : Text → Text → Text
shifted [] rest = mark ∷ rest
shifted (c ∷ s) rest = (mark + 1 + c) ∷ shifted s rest

-- The text up to the mark, and what follows it.
abbrev unshift : Text → Text × Text
unshift [] = ([], [])
unshift (c ∷ s) =
    let (t, rest) = unshift s in if ltb mark c then ((c - (mark + 1)) ∷ t, rest) else ([], s)

unshift-shifted : (t rest : Text) → unshift (shifted t rest) ≡ (t, rest)
unshift-shifted [] rest = refl
unshift-shifted (c ∷ t) rest = ground (arith, unshift-shifted t rest)

has_space-shifted : (t rest : Text) → has_space rest ≡ false → has_space (shifted t rest) ≡ false
has_space-shifted [] rest h = ground arith
has_space-shifted (c ∷ t) rest h = ground (arith, has_space-shifted t rest h)

unfoldable pub spell : ℕ → ToSign → Text
spell now c =
    (mark + now)
    ∷ (mark + c.subject)
    ∷ (mark + c.expires_in)
    ∷ shifted c.role (shifted c.fid (shifted c.jwtid []))

abbrev spelled_claims : ℕ → ℕ → ℕ → Text → Claims
spelled_claims now subject ttl s =
    let (role, s') = unshift s in
    let (fid, s'') = unshift s' in
    record {
      sub = nat (subject - mark);
      role = some role;
      fid = some fid;
      jti = some (unshift s'').0;
      exp = some (now - mark + (ttl - mark));
    }

abbrev read_spelled : Text → Option (ℕ × Claims)
read_spelled (now ∷ subject ∷ ttl ∷ s) =
    some (now - mark + (ttl - mark), spelled_claims now subject ttl s)
read_spelled _ = none

abbrev accept : ℕ → ℕ → Option (ℕ × Claims) → Option Claims
accept later key none = none
accept later key (some (expires, c)) =
    if ltb (later / 1000) expires && key == 1 then some c else none

unfoldable pub spelled : Jwt ℕ
spelled = record {
  decode_kid = λ t. some (text "k");
  verify = λ later t key. accept later key (read_spelled t);
}

abbrev pub spelled_keys : KeyStore ℕ
spelled_keys = record { kid = text "k"; public_key = 1; previous = none }

unmark : (n : ℕ) → mark + n - mark ≡ n
unmark n = omega arith

accept-live :
    (later expires : ℕ) (c : Claims)
    → later / 1000 < expires
    → accept later 1 (some (expires, c)) ≡ some c
accept-live later expires c live = ground arith

spell-one_word : (now : ℕ) (c : ToSign) → has_space (spell now c) ≡ false
unfolding spell
spell-one_word now c = ground (
  arith,
  has_space-shifted c.role (shifted c.fid (shifted c.jwtid []))
      (has_space-shifted c.fid (shifted c.jwtid []) (has_space-shifted c.jwtid [] refl)),
)

abbrev claims_of : ℕ → ToSign → Claims
claims_of now c = record {
  sub = nat c.subject;
  role = some c.role;
  fid = some c.fid;
  jti = some c.jwtid;
  exp = some (now + c.expires_in);
}

read_spelled-spell :
    (now : ℕ) (c : ToSign) → read_spelled (spell now c) ≡ some (now + c.expires_in, claims_of now c)
unfolding spell
read_spelled-spell now c =
    rw
      (
        unshift-shifted c.role (shifted c.fid (shifted c.jwtid [])),
        unshift-shifted c.fid (shifted c.jwtid []),
        unshift-shifted c.jwtid [],
        unmark now,
        unmark c.subject,
        unmark c.expires_in,
      )
      refl

spelled-verifies :
    (now later : ℕ) (c : ToSign)
    → later / 1000 < now + c.expires_in
    → spelled.verify later (spell now c) 1 ≡ some (claims_of now c)
unfolding spelled
spelled-verifies now later c live =
    ap (accept later 1) (read_spelled-spell now c) ∙ accept-live later _ _ live

-- Spelled tokens are signed as the library documents it.
pub spell-IsSigner : IsSigner spelled spelled_keys spell
unfolding spell spelled
spell-IsSigner = record {
  names_key = λ now c. refl;
  one_word = λ now c. spell-one_word now c;
  not_empty = λ now c e. absurd (cc);
  verifies = λ now later c live. spelled-verifies now later c live;
}
